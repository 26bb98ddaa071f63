-- ===== src/Pool/Status/Streams.antt =====
-- Startup, writing and shutdown keep the client's view in agreement with the table.
use network_pool.Common.{
  ℕ, ◌<◌, refl, inl, inr, Bool, true, false, ◌||◌, List, arith, Option-cases, Bool-cases, ◌==◌,
}
use network_pool.Node.{Node}
use network_pool.Node.Address.{valid}
use network_pool.Node.Equality.{node_eq_iff}
use network_pool.Table.{find, has, insert}
use network_pool.Table.Laws.{has-insert, has-erase}
use network_pool.Handle.{Call, allocate, timer_start, write, answer, call, milliseconds}
use network_pool.Handle.Extends.{call-Extends, close-Extends, shutdown_and_close-Extends}
use network_pool.Handle.Stream
use network_pool.Pool.{Bytes, Pool, on_loop, connection_status, notify, tcp_node}
use network_pool.Pool.Connection.{
  drop_waiting, write_from_waiting, forget_stream, shutdown_connection, drop_write_and_shutdown,
  start_write, send_waiting, startup_connection,
}
use network_pool.Pool.Status.{is_up, Linked, Sync, Calm}
use network_pool.Pool.Status.Links.{
  Linked-erase, Linked-insert, Calm-refl, Calm-trans, Sync-Calm, drop_bufs-Calm, drop_waiting-Calm,
  on_loop-Calm,
}

module _ (n : Node) where
  Linked-forget :
      (k : Node) (b : Bool) (p : Pool)
      → Linked p.loop p.node2stream
      → Linked (forget_stream k b p).loop (forget_stream k b p).node2stream
  unfolding forget_stream
  Linked-forget k b p h = elim (Bool-cases (has k p.node2stream || b)) [
    | inl e ↦ rw e (Linked-erase p.loop k p.node2stream h)
    | inr e ↦ rw e (Linked-erase p.loop k p.node2stream h)
  ]

  -- Only here is a connection taken out of the table, and it is reported down.
  pub forget_stream-Sync :
      (k : Node) (b : Bool) (p : Pool) → Sync n p → Sync n (forget_stream k b p)
  unfolding forget_stream is_up
  forget_stream-Sync k b p s = record {
    agrees = ground (arith, has-erase k n p.node2stream, node_eq_iff k n);
    linked = Linked-forget k b p s.linked;
  }

  pub shutdown_connection-Sync :
      (t : ℕ) (a s : Bool) (p : Pool) → Sync n p → Sync n (shutdown_connection t a s p)
  unfolding shutdown_connection
  shutdown_connection-Sync t a s p h =
      let k = tcp_node p t in
      let q = drop_waiting k (forget_stream k a p) in
      let h1 = forget_stream-Sync k a p h in
      let h2 = Sync-Calm (drop_waiting-Calm n k (forget_stream k a p)) h1 in
      elim (Bool-cases s) [
        | inl e ↦ rw e (
            Sync-Calm
              (on_loop-Calm n (Stream.shutdown_and_close t) q (shutdown_and_close-Extends t q.loop))
              h2)
        | inr e ↦ rw e (Sync-Calm (on_loop-Calm n (Stream.close t) q (close-Extends t q.loop)) h2)
      ]

  drop_write_and_shutdown-Sync :
      (k : Node) (t : ℕ) (bs : List Bytes) (p : Pool)
      → Sync n p
      → Sync n (drop_write_and_shutdown k t bs p)
  unfolding drop_write_and_shutdown
  drop_write_and_shutdown-Sync k t bs p h =
      shutdown_connection-Sync t false false _ (Sync-Calm (drop_bufs-Calm n k bs p) h)

  pub call-Sync : (c : Call) (p : Pool) → Sync n p → Sync n (on_loop (call c) p)
  call-Sync c p h = Sync-Calm (on_loop-Calm n (call c) p (call-Extends c p.loop)) h

  pub close-Sync : (t : ℕ) (p : Pool) → Sync n p → Sync n (on_loop (Stream.close t) p)
  close-Sync t p h = Sync-Calm (on_loop-Calm n (Stream.close t) p (close-Extends t p.loop)) h

  pub start_write-Sync :
      (k : Node) (t : ℕ) (bs : List Bytes) (p : Pool) → Sync n p → Sync n (start_write k t bs p)
  unfolding start_write
  start_write-Sync k t bs p h =
      let c = timer_start t (milliseconds p.settings.tcp_send_timeout_in_seconds) in
      let p1 = on_loop (call c) p in
      let h1 = call-Sync c p h in
      let h2 = call-Sync (write t bs) p1 h1 in
      let p2 = on_loop (call (write t bs)) p1 in
      elim (Bool-cases (answer p.loop == 0)) [
        | inr e ↦ rw e (drop_write_and_shutdown-Sync k t bs p1 h1)
        | inl e ↦ rw e (elim (Bool-cases (answer p1.loop == 0)) [
          | inr e1 ↦ rw e1 (drop_write_and_shutdown-Sync k t bs p2 h2)
          | inl e1 ↦ rw e1 (record { agrees = h2.agrees; linked = h2.linked })
        ])
      ]

  write_from_waiting-Calm : (k : Node) (p : Pool) → Calm n p (write_from_waiting k p).1
  unfolding write_from_waiting
  write_from_waiting-Calm k p = elim (Option-cases (find k p.waiting_send)) [
    | inl e ↦ rw (e, write_from_waiting) (Calm-refl n p)
    | inr (bs, e) ↦
        let q = on_loop (call allocate) p in
        let h = on_loop-Calm n (call allocate) p (call-Extends allocate p.loop) in
        rw (e, write_from_waiting)
          (elim (Bool-cases (answer p.loop == 0)) [
            | inl e1 ↦ rw e1 (record { streams = refl; view = refl; loop = h.loop })
            | inr e1 ↦ rw e1 (Calm-trans h (drop_waiting-Calm n k q))
          ])
  ]

  send_waiting-Sync : (k : Node) (t : ℕ) (p : Pool) → Sync n p → Sync n (send_waiting k t p)
  unfolding send_waiting
  send_waiting-Sync k t p h =
      let h1 = Sync-Calm (write_from_waiting-Calm k p) h in
      elim (Option-cases (write_from_waiting k p).0) [
        | inl e ↦ rw (e, send_waiting) h1
        | inr (bs, e) ↦ rw (e, send_waiting) (start_write-Sync k t bs _ h1)
      ]

  inserted-Sync :
      (t : ℕ) (p : Pool)
      → t < p.loop.fresh
      → Sync n p
      → Sync n (
          notify
            (connection_status (tcp_node p t) true)
            (record p { node2stream = insert (tcp_node p t) t p.node2stream }))
  unfolding is_up
  inserted-Sync t p lt h = record {
    agrees = ground (arith, has-insert (tcp_node p t) n t p.node2stream, h.agrees);
    linked = Linked-insert p.loop t p.node2stream lt h.linked;
  }

  -- Only here is a connection put into the table, and it is reported up.
  pub startup_connection-Sync :
      (t : ℕ) (p : Pool) → t < p.loop.fresh → Sync n p → Sync n (startup_connection t p)
  unfolding startup_connection
  startup_connection-Sync t p lt h =
      let k = tcp_node p t in
      elim (Bool-cases (valid k.sockaddr)) [
        | inr e ↦ rw e (close-Sync t p h)
        | inl e ↦ rw e (elim (Bool-cases (has k p.node2stream)) [
          | inl e1 ↦ rw e1 (close-Sync t p h)
          | inr e1 ↦ rw e1 (send_waiting-Sync k t _ (inserted-Sync t p lt h))
        ])
      ]
