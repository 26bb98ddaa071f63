-- ===== src/Pool/Status/Wakes.antt =====
-- The loops of on_wakeup over the pending requests keep the client's view in agreement.
use network_pool.Common.{
  ◌≡◌, refl, ap, inl, inr, ◌∙◌, Bool, true, false, none, [], ◌∷◌, arith, Option-cases, Bool-cases,
  ◌==◌,
}
use network_pool.Node.{Node, Protocol, tcp, udp}
use network_pool.Node.Equality.{node_eq_iff}
use network_pool.Table.{find, has}
use network_pool.Table.Laws.{find-none_of_has}
use network_pool.Handle.{allocate, timer_start, recv_stop, answer, milliseconds}
use network_pool.Handle.Extends.{Extends, Extends-refl, Extends-trans, call-Extends, close-Extends}
use network_pool.Pool.{Bytes, Pool, PendingSend, connection_status, notify}
use network_pool.Pool.Connection.{stream_by_node, push_waiting}
use network_pool.Pool.Setup.{connect_tcp, bind_and_listen_tcp, bind_and_listen_udp}
use network_pool.Pool.Wakeup.Bind.{bind_tcp, bind_udp, find_udp, process_bind}
use network_pool.Pool.Wakeup.Send.{connect_for, send_tcp, send_udp, process_send, process_close}
use network_pool.Pool.Status.{is_up, Sync, Calm}
use network_pool.Pool.Status.Links.{Sync-Calm, drop_waiting-Calm}
use network_pool.Pool.Status.Streams.{shutdown_connection-Sync, start_write-Sync, call-Sync}
use network_pool.Pool.Status.Setups.{
  bind_and_listen_tcp-Extends, connect_tcp-Extends, bind_and_listen_udp-Extends, udp_close-Extends,
}

module _ (n : Node) where
  -- A change of the loop, and of parts that the view and the table do not see.
  loop-Calm :
      {p q : Pool}
      → q.node2stream ≡ p.node2stream
      → is_up n q.notices ≡ is_up n p.notices
      → Extends p.loop q.loop
      → Calm n p q
  loop-Calm a b c = record { streams = a; view = b; loop = c }

  bind_tcp-Calm : (k : Node) (on : Bool) (p : Pool) → Calm n p (bind_tcp k on p)
  unfolding bind_tcp is_up
  bind_tcp-Calm k on p = elim (Option-cases (find k p.tcp_servers)) [
    | inr (t, e) ↦
        rw (e, bind_tcp)
          (elim (Bool-cases on) [
            | inl e1 ↦ rw e1 (loop-Calm refl refl (Extends-refl p.loop))
            | inr e1 ↦ rw e1 (loop-Calm refl refl (close-Extends t p.loop))
          ])
    | inl e ↦
        rw (e, bind_tcp)
          (elim (Bool-cases on) [
            | inr e1 ↦ rw e1 (loop-Calm refl refl (Extends-refl p.loop))
            | inl e1 ↦
                let h = bind_and_listen_tcp-Extends p.settings k p.loop in
                rw e1 (elim (Option-cases (bind_and_listen_tcp p.settings k p.loop).0) [
                  | inl e2 ↦ rw (e2, bind_tcp) (loop-Calm refl refl h)
                  | inr (t, e2) ↦ rw (e2, bind_tcp) (loop-Calm refl refl h)
                ])
          ])
  ]

  bind_udp-Calm : (k : Node) (on : Bool) (p : Pool) → Calm n p (bind_udp k on p)
  unfolding bind_udp is_up
  bind_udp-Calm k on p = elim (Option-cases (find_udp k p.udp_servers p.loop)) [
    | inr (u, e) ↦
        rw (e, bind_udp)
          (elim (Bool-cases on) [
            | inl e1 ↦ rw e1 (loop-Calm refl refl (Extends-refl p.loop))
            | inr e1 ↦ rw e1 (
                loop-Calm refl refl
                  (Extends-trans (call-Extends (recv_stop u) p.loop) (udp_close-Extends u _)))
          ])
    | inl e ↦
        rw (e, bind_udp)
          (elim (Bool-cases on) [
            | inr e1 ↦ rw e1 (loop-Calm refl refl (Extends-refl p.loop))
            | inl e1 ↦
                let h = bind_and_listen_udp-Extends p.settings k p.loop in
                rw e1 (elim (Option-cases (bind_and_listen_udp p.settings k p.loop).0) [
                  | inl e2 ↦ rw (e2, bind_udp) (loop-Calm refl refl h)
                  | inr (u, e2) ↦ rw (e2, bind_udp) (loop-Calm refl refl h)
                ])
          ])
  ]

  process_bind_by :
      (k : Node) (on : Bool) (p : Pool) (q : Protocol)
      → k.protocol ≡ q
      → Calm n p (process_bind (k, on) p)
  unfolding process_bind
  process_bind_by k on p tcp e = rw (e, process_bind) (bind_tcp-Calm k on p)
  process_bind_by k on p udp e = rw (e, process_bind) (bind_udp-Calm k on p)

  pub process_bind-Sync : (b : Node × Bool) (p : Pool) → Sync n p → Sync n (process_bind b p)
  process_bind-Sync (k, on) p h = Sync-Calm (process_bind_by k on p k.protocol refl) h

  -- A connection that fails at once is reported down, where none is in the table.
  connect_for-Sync :
      (k : Node) (p : Pool) → has k p.node2stream ≡ false → Sync n p → Sync n (connect_for k p)
  unfolding connect_for is_up
  connect_for-Sync k p absent h =
      let r = connect_tcp p.settings k p.loop in
      let x = connect_tcp-Extends p.settings k p.loop in
      let h1 = Sync-Calm (loop-Calm {p = p} {q = record p { loop = r.1 }} refl refl x) h in
      elim (Option-cases r.0) [
        | inr (t, e) ↦ rw (e, connect_for) (record { agrees = h1.agrees; linked = h1.linked })
        | inl e ↦
            rw (e, connect_for)
              (Sync-Calm
                (drop_waiting-Calm n k
                  (notify (connection_status k false) (record p { loop = r.1 })))
                (record { agrees = ground (arith, h.agrees, node_eq_iff k n); linked = h1.linked }))
      ]

  push_waiting-Sync : (k : Node) (b : Bytes) (p : Pool) → Sync n p → Sync n (push_waiting k b p)
  unfolding push_waiting
  push_waiting-Sync k b p h = elim (Bool-cases (has k p.waiting_send)) [
    | inl e ↦ rw e (record { agrees = h.agrees; linked = h.linked })
    | inr e ↦ rw e (record { agrees = h.agrees; linked = h.linked })
  ]

  push_waiting-streams :
      (k : Node) (b : Bytes) (p : Pool) → (push_waiting k b p).node2stream ≡ p.node2stream
  unfolding push_waiting
  push_waiting-streams k b p = ground arith

  -- `send_tcp` where there is no stream.
  send_first :
      (r : PendingSend) (p : Pool)
      → stream_by_node r.node p ≡ none
      → Sync n p
      → Sync n (send_tcp r p)
  unfolding send_tcp stream_by_node is_up
  send_first r p e h =
      let k = r.node in
      let q = push_waiting k r.bytes p in
      let h1 = push_waiting-Sync k r.bytes p h in
      let absent = find-none_of_has k p.node2stream e in
      let absent1 = ap (has k) (push_waiting-streams k r.bytes p) ∙ absent in
      rw (e, send_tcp)
        (elim (Bool-cases (has k p.waiting_send)) [
          | inl e1 ↦ rw e1 h1
          | inr e1 ↦ rw e1 (elim (Bool-cases r.auto_connect) [
            | inl e2 ↦ ground (arith, connect_for-Sync k q absent1 h1)
            | inr e2 ↦ ground (arith, h)
          ])
        ])

  send_tcp-Sync : (r : PendingSend) (p : Pool) → Sync n p → Sync n (send_tcp r p)
  unfolding send_tcp is_up
  send_tcp-Sync r p h = elim (Option-cases (stream_by_node r.node p)) [
    | inl e ↦ send_first r p e h
    | inr (t, e) ↦
        let h1 = call-Sync n allocate p h in
        rw (e, send_tcp)
          (elim (Bool-cases (answer p.loop == 0)) [
            | inl e1 ↦ rw e1 (start_write-Sync n r.node t (r.bytes ∷ []) _ h1)
            | inr e1 ↦ rw e1 (record { agrees = h1.agrees; linked = h1.linked })
          ])
  ]

  -- UDP sends make no notice of a connection and change no TCP handle.
  send_udp-Calm : (r : PendingSend) (p : Pool) → Calm n p (send_udp r p)
  unfolding send_udp is_up
  send_udp-Calm r p = record {
    streams = ground arith;
    view = ground arith;
    loop = record { grows = ground arith; keeps = λ s lt. ground arith };
  }

  process_send_by :
      (r : PendingSend) (p : Pool) (q : Protocol)
      → r.node.protocol ≡ q
      → Sync n p
      → Sync n (process_send r p)
  unfolding process_send
  process_send_by r p tcp e h = rw (e, process_send) (send_tcp-Sync r p h)
  process_send_by r p udp e h = rw (e, process_send) (Sync-Calm (send_udp-Calm r p) h)

  pub process_send-Sync : (r : PendingSend) (p : Pool) → Sync n p → Sync n (process_send r p)
  process_send-Sync r p = process_send_by r p r.node.protocol refl

  pub process_close-Sync : (c : Node × Bool) (p : Pool) → Sync n p → Sync n (process_close c p)
  unfolding process_close
  process_close-Sync (k, force) p h = elim (Option-cases (stream_by_node k p)) [
    | inl e ↦ rw (e, process_close) h
    | inr (t, e) ↦
        let c = timer_start t (milliseconds p.settings.tcp_send_timeout_in_seconds) in
        let h1 = call-Sync n c p h in
        rw (e, process_close)
          (elim (Bool-cases force) [
            | inl e1 ↦ rw e1 (shutdown_connection-Sync n t false false p h)
            | inr e1 ↦ rw e1 (elim (Bool-cases (answer p.loop == 0)) [
              | inl e2 ↦ rw e2 (shutdown_connection-Sync n t false true _ h1)
              | inr e2 ↦ rw e2 (shutdown_connection-Sync n t false false _ h1)
            ])
          ])
  ]
