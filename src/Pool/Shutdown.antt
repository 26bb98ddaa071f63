-- ===== src/Pool/Shutdown.antt =====
-- shutdownTcpConnection_set_nullptr of network_pool.cpp on a handle whose node another connection
-- has taken over.
pub mod Twice
use network_pool.Common.{
  ℕ, ◌≡◌, ◌≢◌, refl, inl, inr, ◌∙◌, ap, Bool, true, false, ◌||◌, none, some, [], ◌∷◌, arith,
  Option-cases, Bool-cases, if◌then◌else◌, sym, subst,
}
use network_pool.Node.{Node, node_eq}
use network_pool.Node.Equality.{node_eq_iff}
use network_pool.Table.{Table, find, has, erase, erase_at}
use network_pool.Table.Laws.{has-erase, node_eq_self, has_of_find}
use network_pool.Handle.{Loop}
use network_pool.Handle.Stream
use network_pool.Pool.{Pool, on_loop, tcp_node, notify, connection_status}
use network_pool.Pool.Connection.{stream_by_node, drop_waiting, forget_stream, shutdown_connection}
use network_pool.Pool.Messages.Buffers.{drop_bufs_lem}
use network_pool.Pool.Status.{is_up}
use network_pool.Pool.Status.Links.{drop_waiting-Calm}

-- std::unordered_map has each key once.
abbrev pub IsUnique {ℓ} : {V : Type ℓ} → Table V → Type 0
IsUnique [] = Unit
IsUnique ((k, v) ∷ t) = (has k t ≡ false) × IsUnique t

module _ {ℓ} {V : Type ℓ} where
  pub find_of_has : (n : Node) (t : Table V) → has n t ≡ false → find n t ≡ none
  unfolding find has
  find_of_has n [] h = refl
  find_of_has n ((k, v) ∷ t) h = ground (arith, find_of_has n t)

  pub find-erase_at : (n : Node) (t : Table V) → IsUnique t → find n (erase_at n t) ≡ none
  unfolding find erase_at
  find-erase_at n [] u = refl
  find-erase_at n ((k, v) ∷ t) u =
      ground (arith, find-erase_at n t u.1, node_eq_iff k n, find_of_has n t)

-- The parts of the pool that `drop_waiting` leaves alone.
pub drop_waiting-streams : (n : Node) (p : Pool) → (drop_waiting n p).node2stream ≡ p.node2stream
unfolding drop_waiting
drop_waiting-streams n p = elim (Option-cases (find n p.waiting_send)) [
  | inl e ↦ rw (e, drop_waiting)
  | inr (bs, e) ↦ rw (e, drop_waiting, drop_bufs_lem n bs p)
]

pub drop_waiting-loop : (n : Node) (p : Pool) → (drop_waiting n p).loop ≡ p.loop
unfolding drop_waiting
drop_waiting-loop n p = elim (Option-cases (find n p.waiting_send)) [
  | inl e ↦ rw (e, drop_waiting)
  | inr (bs, e) ↦ rw (e, drop_waiting, drop_bufs_lem n bs p)
]

pub forget_stream-streams :
    (n : Node) (a : Bool) (p : Pool) → (forget_stream n a p).node2stream ≡ erase n p.node2stream
unfolding forget_stream
forget_stream-streams n a p = ground arith

pub forget_stream-loop : (n : Node) (a : Bool) (p : Pool) → (forget_stream n a p).loop ≡ p.loop
unfolding forget_stream
forget_stream-loop n a p = ground arith

pub has-erase_self {ℓ} : {V : Type ℓ} (n : Node) (t : Table V) → has n (erase n t) ≡ false
has-erase_self n t = has-erase n n t ∙ ap (λ b. if b then false else has n t) (node_eq_self n)

forget_stream_view :
    (n : Node) (always : Bool) (p : Pool)
    → has n p.node2stream ≡ true
    → is_up n (forget_stream n always p).notices ≡ false
unfolding forget_stream is_up
forget_stream_view n always p h = ground (arith, node_eq_self n)

close_other : (t u : ℕ) (l : Loop) → t ≢ u → (Stream.close t l).tcps u ≡ l.tcps u
unfolding Stream.close
close_other t u l h = ground arith

shutdown_and_close_other :
    (t u : ℕ) (l : Loop) → t ≢ u → (Stream.shutdown_and_close t l).tcps u ≡ l.tcps u
unfolding Stream.shutdown_and_close
shutdown_and_close_other t u l h = grind (arith, close_other)

-- The handle and what the pool knows of its node.
record Hidden (u : ℕ) (n : Node) (p q : Pool) : Type 0 where
  unlisted : stream_by_node n q ≡ none
  down : is_up n q.notices ≡ false
  untouched : q.loop.tcps u ≡ p.loop.tcps u

hide_by :
    (t u : ℕ) (n : Node) (always : Bool) (p : Pool) (f : Loop → Loop)
    → has n p.node2stream ≡ true
    → ((l : Loop) → (f l).tcps u ≡ l.tcps u)
    → Hidden u n p (on_loop f (drop_waiting n (forget_stream n always p)))
unfolding stream_by_node
hide_by t u n always p f h same =
    let g = forget_stream n always p in
    record {
      unlisted =
          rw (drop_waiting-streams n g ∙ forget_stream-streams n always p)
            (find_of_has n (erase n p.node2stream) (has-erase_self n p.node2stream));
      down = (drop_waiting-Calm n n g).view ∙ forget_stream_view n always p h;
      untouched =
          same (drop_waiting n g).loop
          ∙ ap (λ l. l.tcps u) (drop_waiting-loop n g ∙ forget_stream-loop n always p);
    }

-- The table is cleaned by node, not by handle: where another handle `u` is registered for the node
-- of `t`, shutting `t` down takes `u` out of the table and reports the node down, while `u` itself
-- is left as it was, open and no longer reachable through the pool.
pub shutdown_hides_other :
    (t u : ℕ) (always do_shutdown : Bool) (p : Pool)
    → t ≢ u
    → stream_by_node (tcp_node p t) p ≡ some u
    → (stream_by_node (tcp_node p t) (shutdown_connection t always do_shutdown p) ≡ none)
      × (is_up (tcp_node p t) (shutdown_connection t always do_shutdown p).notices ≡ false)
      × ((shutdown_connection t always do_shutdown p).loop.tcps u ≡ p.loop.tcps u)
unfolding shutdown_connection stream_by_node
shutdown_hides_other t u always do_shutdown p ne e =
    let n = tcp_node p t in
    let h = has_of_find n p.node2stream u e in
    let a =
      hide_by t u n always p (Stream.shutdown_and_close t) h
        (λ l. shutdown_and_close_other t u l ne) in
    let b = hide_by t u n always p (Stream.close t) h (λ l. close_other t u l ne) in
    elim (Bool-cases do_shutdown) [
      | inl d ↦ rw d (a.unlisted, a.down, a.untouched)
      | inr d ↦ rw d (b.unlisted, b.down, b.untouched)
    ]
