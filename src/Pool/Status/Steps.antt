-- ===== src/Pool/Status/Steps.antt =====
-- Every entry point of CnetworkPool keeps the client's view in agreement with the table.
use network_pool.Common.{
  ℕ, ◌<◌, ◌≤◌, ◌≡◌, refl, ap, inl, inr, true, false, not, ◌||◌, Option, none, some, List, [], ◌∷◌,
  Bool-cases, Option-cases, if_both, ◌==◌,
}
use network_pool.Node.{Node, tcp, set_node}
use network_pool.Node.Address.{Raw}
use network_pool.Table.{has}
use network_pool.Handle.{
  accept, getpeername, read_start, timer_start, write_queue_size, answer, call, milliseconds,
  set_tcp_node,
}
use network_pool.Handle.Stream
use network_pool.Handle.Extends.{Extends, Extends-refl, put_tcp-Extends, alloc-Creates}
use network_pool.Pool.{Bytes, Pool, Write, UdpSend, notify, drop, free, on_loop, tcp_node}
use network_pool.Pool.Events.{
  ReadResult, got, nothing, failed, reset_idle_timeout, reset_if_open, on_tcp_read, drop_each,
  free_each, on_tcp_write_done, check_peer, accept_on, on_new_connection, erase_connecting,
  on_connect_done, on_udp_recv, on_udp_send_done,
}
use network_pool.Pool.Status.{is_up, Sync, Calm}
use network_pool.Pool.Status.Links.{Sync-Calm}
use network_pool.Pool.Status.Streams.{
  shutdown_connection-Sync, startup_connection-Sync, call-Sync, close-Sync,
}

module _ (n : Node) where
  reset_idle_timeout-Sync : (t : ℕ) (p : Pool) → Sync n p → Sync n (reset_idle_timeout t p)
  unfolding reset_idle_timeout
  reset_idle_timeout-Sync t p h =
      let q = on_loop (call (write_queue_size t)) p in
      let h1 = call-Sync n (write_queue_size t) p h in
      let c = timer_start t (milliseconds q.settings.tcp_idle_timeout_in_seconds) in
      let h2 = call-Sync n c q h1 in
      if_both (Sync n) (answer p.loop == 0)
        (if_both (Sync n) (not (answer q.loop == 0))
          (shutdown_connection-Sync n t false false (on_loop (call c) q) h2) h2)
        h1

  reset_if_open-Sync : (t : ℕ) (p : Pool) → Sync n p → Sync n (reset_if_open t p)
  unfolding reset_if_open
  reset_if_open-Sync t p h = if_both (Sync n) _ (reset_idle_timeout-Sync t p h) h

  pub on_tcp_read-Sync : (t : ℕ) (r : ReadResult) (p : Pool) → Sync n p → Sync n (on_tcp_read t r p)
  unfolding on_tcp_read is_up
  on_tcp_read-Sync t (got b) p h =
      reset_if_open-Sync t _ (record { agrees = h.agrees; linked = h.linked })
  on_tcp_read-Sync t nothing p h = record { agrees = h.agrees; linked = h.linked }
  on_tcp_read-Sync t (failed code) p h =
      shutdown_connection-Sync n t false false _ (record { agrees = h.agrees; linked = h.linked })

  drop_each-Sync : (k : Node) (bs : List Bytes) (p : Pool) → Sync n p → Sync n (drop_each k bs p)
  unfolding drop_each is_up
  drop_each-Sync k [] p h = h
  drop_each-Sync k (b ∷ bs) p h =
      drop_each-Sync k bs (notify (drop k b) p) (record { agrees = h.agrees; linked = h.linked })

  free_each-Sync : (bs : List Bytes) (p : Pool) → Sync n p → Sync n (free_each bs p)
  unfolding free_each
  free_each-Sync [] p h = h
  free_each-Sync (b ∷ bs) p h =
      free_each-Sync bs (free b p) (record { agrees = h.agrees; linked = h.linked })

  pub on_tcp_write_done-Sync :
      (w : Write) (status : ℕ) (p : Pool) → Sync n p → Sync n (on_tcp_write_done w status p)
  unfolding on_tcp_write_done
  on_tcp_write_done-Sync w status p h = free_each-Sync w.bufs _ (
      if_both (Sync n) (not (status == 0))
        (shutdown_connection-Sync n w.stream false false _
          (drop_each-Sync (tcp_node p w.stream) w.bufs p h))
        (reset_if_open-Sync w.stream p h))

  pub on_connect_done-Sync :
      (t status : ℕ) (p : Pool) → t < p.loop.fresh → Sync n p → Sync n (on_connect_done t status p)
  unfolding on_connect_done
  on_connect_done-Sync t status p lt h =
      let q = record p { connecting = erase_connecting t p.connecting } in
      let h0 : Sync n q = record { agrees = h.agrees; linked = h.linked } in
      let c = timer_start t (milliseconds p.settings.tcp_idle_timeout_in_seconds) in
      let q1 = on_loop (call c) q in
      let h1 = call-Sync n c q h0 in
      let q2 = on_loop (call (read_start t)) q1 in
      let h2 = call-Sync n (read_start t) q1 h1 in
      if_both (Sync n) (not (status == 0) || (q.loop.tcps t).closing)
        (shutdown_connection-Sync n t true false q h0)
        (if_both (Sync n) (not (answer q.loop == 0)) (shutdown_connection-Sync n t true false q1 h1)
          (if_both (Sync n) (not (answer q1.loop == 0))
            (shutdown_connection-Sync n t true false q2 h2) (startup_connection-Sync n t q2 lt h2)))

  -- `t` is the handle that was created for the connection.
  check_peer-Sync :
      (t : ℕ) (peer : Raw) (len : ℕ) (p : Pool)
      → t < p.loop.fresh
      → Sync n (on_loop (set_tcp_node t (set_node tcp peer len).0) p)
      → Sync n (check_peer t peer len p)
  unfolding check_peer
  check_peer-Sync t peer len p lt h =
      let k = (set_node tcp peer len).0 in
      let q = on_loop (set_tcp_node t k) p in
      let c = timer_start t (milliseconds q.settings.tcp_idle_timeout_in_seconds) in
      let q1 = on_loop (call c) q in
      let h1 = call-Sync n c q h in
      let q2 = on_loop (call (read_start t)) q1 in
      let h2 = call-Sync n (read_start t) q1 h1 in
      if_both (Sync n) (not (set_node tcp peer len).1) (close-Sync n t q h) (
        if_both (Sync n) (has k q.node2stream) (close-Sync n t q h) (
          if_both (Sync n) (not (answer q.loop == 0)) (close-Sync n t q1 h1) (
            if_both (Sync n) (not (answer q1.loop == 0)) (close-Sync n t q2 h2)
              (startup_connection-Sync n t q2 lt h2))))

  -- The table of `p` does not have the new handle `t`, so it may be given any node.
  named-Sync :
      (t : ℕ) (k : Node) (p q : Pool)
      → Sync n p
      → q.node2stream ≡ p.node2stream
      → q.notices ≡ p.notices
      → Extends p.loop q.loop
      → p.loop.fresh ≤ t
      → Sync n (on_loop (set_tcp_node t k) q)
  named-Sync t k p q h a b c le =
      Sync-Calm
        (record {
          streams = a;
          view = ap (is_up n) b;
          loop = put_tcp-Extends t (record (q.loop.tcps t) { node = k }) c le;
        })
        h

  accept_on-Sync :
      (server t : ℕ) (peer : Raw) (len : ℕ) (p q : Pool)
      → Sync n p
      → q.node2stream ≡ p.node2stream
      → q.notices ≡ p.notices
      → Extends p.loop q.loop
      → p.loop.fresh ≤ t
      → t < q.loop.fresh
      → Sync n (accept_on server t peer len q)
  unfolding accept_on
  accept_on-Sync server t peer len p q h a b c le lt =
      let h0 = Sync-Calm (record { streams = a; view = ap (is_up n) b; loop = c }) h in
      let q1 = on_loop (call (accept server t)) q in
      let h1 = call-Sync n (accept server t) q h0 in
      let q2 = on_loop (call (getpeername t)) q1 in
      let h2 = call-Sync n (getpeername t) q1 h1 in
      let k = (set_node tcp peer len).0 in
      if_both (Sync n) (not (answer q.loop == 0)) (close-Sync n t q1 h1) (
        if_both (Sync n) (not (answer q1.loop == 0)) (close-Sync n t q2 h2) (
          check_peer-Sync t peer len q2 lt
            (named-Sync t k p q2 h a b (record { grows = c.grows; keeps = c.keeps }) le)))

  pub on_new_connection-Sync :
      (server status : ℕ) (peer : Raw) (len : ℕ) (p : Pool)
      → Sync n p
      → Sync n (on_new_connection server status peer len p)
  unfolding on_new_connection is_up
  on_new_connection-Sync server status peer len p h =
      let r = Stream.alloc p.settings true p.loop in
      let c = alloc-Creates p.settings true p.loop in
      let q = record p { loop = r.1 } in
      elim (Bool-cases (status == 0)) [
        | inr e ↦ rw e (record { agrees = h.agrees; linked = h.linked })
        | inl e ↦ rw e (elim (Option-cases r.0) [
          | inl e1 ↦
              rw (e1, on_new_connection)
                (Sync-Calm (record { streams = refl; view = refl; loop = c.extends }) h)
          | inr (t, e1) ↦
              rw (e1, on_new_connection)
                (accept_on-Sync server t peer len p q h refl refl c.extends (c.new t e1).0
                  (c.new t e1).1)
        ])
      ]

  pub on_udp_recv-Calm :
      (u : ℕ) (r : ReadResult) (addr : Option Raw) (p : Pool) → Calm n p (on_udp_recv u r addr p)
  unfolding on_udp_recv is_up
  on_udp_recv-Calm u (failed code) addr p = record {
    streams = refl;
    view = refl;
    loop = Extends-refl p.loop;
  }
  on_udp_recv-Calm u nothing none p = record {
    streams = refl;
    view = refl;
    loop = Extends-refl p.loop;
  }
  on_udp_recv-Calm u nothing (some raw) p = record {
    streams = refl;
    view = refl;
    loop = Extends-refl p.loop;
  }
  on_udp_recv-Calm u (got b) none p = record {
    streams = refl;
    view = refl;
    loop = Extends-refl p.loop;
  }
  on_udp_recv-Calm u (got b) (some raw) p = record {
    streams = refl;
    view = refl;
    loop = Extends-refl p.loop;
  }

  pub on_udp_send_done-Calm :
      (w : UdpSend) (status : ℕ) (p : Pool) → Calm n p (on_udp_send_done w status p)
  unfolding on_udp_send_done is_up
  on_udp_send_done-Calm w status p = elim (Bool-cases (status == 0)) [
    | inl e ↦ rw e (record { streams = refl; view = refl; loop = Extends-refl p.loop })
    | inr e ↦ rw e (record { streams = refl; view = refl; loop = Extends-refl p.loop })
  ]
