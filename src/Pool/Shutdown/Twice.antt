-- ===== src/Pool/Shutdown/Twice.antt =====
-- shutdownTcpConnection_set_nullptr of network_pool.cpp, called twice.
use network_pool.Common.{
  ℕ, ◌≡◌, refl, inl, inr, ◌∙◌, ap, sym, subst, Bool, true, false, ◌||◌, none, [], ◌∷◌, arith,
  Option-cases, Bool-cases, if◌then◌else◌,
}
use network_pool.Node.{Node, node_eq}
use network_pool.Table.{Table, find, has, erase}
use network_pool.Handle.{Loop}
use network_pool.Handle.Stream
use network_pool.Pool.{Pool, on_loop, tcp_node, notify, connection_status}
use network_pool.Pool.Connection.{drop_waiting, forget_stream, shutdown_connection}
use network_pool.Pool.Messages.Buffers.{drop_bufs_lem}
use network_pool.Pool.Shutdown.{
  IsUnique, find-erase_at, has-erase_self, drop_waiting-streams, drop_waiting-loop,
  forget_stream-streams, forget_stream-loop,
}

erase-erase {ℓ} : {V : Type ℓ} (n : Node) (t : Table V) → erase n (erase n t) ≡ erase n t
unfolding erase
erase-erase n [] = refl
erase-erase n ((k, v) ∷ t) = elim (Bool-cases (node_eq k n)) [
  | inl e ↦ rw e (erase-erase n t)
  | inr e ↦ rw e (rw e (ap (◌∷◌ (k, v)) (erase-erase n t)))
]

drop_waiting-find :
    (n : Node) (p : Pool) → IsUnique p.waiting_send → find n (drop_waiting n p).waiting_send ≡ none
unfolding drop_waiting
drop_waiting-find n p u = elim (Option-cases (find n p.waiting_send)) [
  | inl e ↦ rw (e, drop_waiting) e
  | inr (bs, e) ↦ rw (e, drop_waiting, drop_bufs_lem n bs p) (find-erase_at n p.waiting_send u)
]

drop_waiting-none : (n : Node) (p : Pool) → find n p.waiting_send ≡ none → drop_waiting n p ≡ p
unfolding drop_waiting
drop_waiting-none n p e = rw (e, drop_waiting)

forget_stream-waiting :
    (n : Node) (a : Bool) (p : Pool) → (forget_stream n a p).waiting_send ≡ p.waiting_send
unfolding forget_stream
forget_stream-waiting n a p = ground arith

-- A handle that libuv knows of.
abbrev pub is_inited : Loop → ℕ → Bool
is_inited l t = (l.tcps t).tcp_inited || (l.tcps t).timer_inited

-- The end of `shutdownTcpConnection_set_nullptr`, by `bShutdown`.
abbrev end_handle : Bool → ℕ → Loop → Loop
end_handle do_shutdown t l = if do_shutdown then Stream.shutdown_and_close t l else Stream.close t l

close_twice :
    (t : ℕ) (l : Loop) → is_inited l t ≡ true → Stream.close t (Stream.close t l) ≡ Stream.close t l
unfolding Stream.close
close_twice t l i = ground arith

shutdown_closed :
    (t : ℕ) (l : Loop)
    → is_inited l t ≡ true
    → Stream.shutdown_and_close t (Stream.close t l) ≡ Stream.close t l
unfolding Stream.close Stream.shutdown_and_close
shutdown_closed t l i = ground arith

shutdown_again :
    (t : ℕ) (l : Loop)
    → is_inited l t ≡ true
    → Stream.shutdown_and_close t (Stream.shutdown_and_close t l) ≡ Stream.shutdown_and_close t l
unfolding Stream.close Stream.shutdown_and_close
shutdown_again t l i = ground arith

end_handle_again :
    (first second : Bool) (t : ℕ) (l : Loop)
    → is_inited l t ≡ true
    → (first ≡ true → second ≡ true)
    → end_handle second t (end_handle first t l) ≡ end_handle first t l
end_handle_again false false t l i h = close_twice t l i
end_handle_again false true t l i h = shutdown_closed t l i
end_handle_again true false t l i h = absurd (cc (h refl))
end_handle_again true true t l i h = shutdown_again t l i

end_handle-node :
    (do_shutdown : Bool) (t : ℕ) (l : Loop)
    → ((end_handle do_shutdown t l).tcps t).node ≡ (l.tcps t).node
unfolding Stream.close Stream.shutdown_and_close
end_handle-node false t l = ground arith
end_handle-node true t l = ground arith

-- The state, with the connection reported down where it is to be reported always.
abbrev pub reported : Bool → Node → Pool → Pool
reported always n p = if always then notify (connection_status n false) p else p

forget_stream_again :
    (n : Node) (always : Bool) (p : Pool)
    → has n p.node2stream ≡ false
    → erase n p.node2stream ≡ p.node2stream
    → forget_stream n always p ≡ reported always n p
unfolding forget_stream
forget_stream_again n always p h e = rw (h, e)

shutdown_parts :
    (t : ℕ) (always do_shutdown : Bool) (p : Pool)
    → shutdown_connection t always do_shutdown p
      ≡ on_loop
          (end_handle do_shutdown t)
          (drop_waiting (tcp_node p t) (forget_stream (tcp_node p t) always p))
unfolding shutdown_connection
shutdown_parts t always false p = refl
shutdown_parts t always true p = refl

-- A state in which the node is out of both tables, and ending the handle once more does nothing.
record IsDone (t : ℕ) (n : Node) (do_shutdown : Bool) (q : Pool) : Type 0 where
  node : tcp_node q t ≡ n
  out : has n q.node2stream ≡ false
  gone : erase n q.node2stream ≡ q.node2stream
  quiet : find n q.waiting_send ≡ none
  settled : end_handle do_shutdown t q.loop ≡ q.loop

IsDone-shutdown :
    (t : ℕ) (n : Node) (always do_shutdown : Bool) (q : Pool)
    → IsDone t n do_shutdown q
    → shutdown_connection t always do_shutdown q ≡ reported always n q
IsDone-shutdown t n always do_shutdown q d =
    shutdown_parts t always do_shutdown q
    ∙ rw (d.node, forget_stream_again n always q d.out d.gone) (go always)
  where
    go :
        (a : Bool)
        → on_loop (end_handle do_shutdown t) (drop_waiting n (reported a n q)) ≡ reported a n q
    go false = rw (drop_waiting-none n q d.quiet) (ap (λ l. record q { loop = l }) d.settled)
    go true =
        let r = notify (connection_status n false) q in
        rw (drop_waiting-none n r d.quiet) (ap (λ l. record r { loop = l }) d.settled)

shutdown-IsDone :
    (t : ℕ) (always first second : Bool) (p : Pool)
    → IsUnique p.waiting_send
    → is_inited p.loop t ≡ true
    → (first ≡ true → second ≡ true)
    → IsDone t (tcp_node p t) second (shutdown_connection t always first p)
shutdown-IsDone t always first second p u i h =
    let n = tcp_node p t in
    let f = forget_stream n always p in
    let e0 = drop_waiting-loop n f ∙ forget_stream-loop n always p in
    let e1 = drop_waiting-streams n f ∙ forget_stream-streams n always p in
    subst (IsDone t n second) (sym (shutdown_parts t always first p)) (record {
      node = rw e0 (end_handle-node first t p.loop);
      out = rw e1 (has-erase_self n p.node2stream);
      gone = rw e1 (erase-erase n p.node2stream);
      quiet = drop_waiting-find n f (rw (forget_stream-waiting n always p) u);
      settled = rw e0 (end_handle_again first second t p.loop i h);
    })

-- Calling the function again, on a handle that libuv knows of, in a pool whose table of waiting
-- messages has each node once: the second call makes no call of libuv, drops no message and leaves
-- the state as it was, but with `bAlwaysNotify` it reports the connection down once more. This is
-- for all values of `bAlwaysNotify` of both calls and of `bShutdown`, except a first call that
-- shuts the handle down and a second one that closes it at once.
pub shutdown_twice :
    (t : ℕ) (always first again second : Bool) (p : Pool)
    → IsUnique p.waiting_send
    → is_inited p.loop t ≡ true
    → (first ≡ true → second ≡ true)
    → shutdown_connection t again second (shutdown_connection t always first p)
      ≡ reported again (tcp_node p t) (shutdown_connection t always first p)
shutdown_twice t always first again second p u i h =
    IsDone-shutdown t (tcp_node p t) again second _ (shutdown-IsDone t always first second p u i h)
