-- ===== src/Pool/Messages/Stops.antt =====
-- The effect of on_wakeup on the messages.
use network_pool.Common.{ℕ, ◌+◌, ◌≡◌, refl, Bool, List, [], ◌∷◌, arith, ap, total, if◌then◌else◌}
use network_pool.Node.{Node}
use network_pool.Table.{Table}
use network_pool.Pool.{Bytes, Pool, PendingSend}
use network_pool.Pool.Wakeup.Stop.{
  each, stop_tcp_server, stop_udp_server, stop_stream_of, stop_stream, stop_waiting, refuse_bind,
  refuse_send, stop_wakeup, stop_tcp_servers, stop_udp_servers, stop_streams, stop_connecting,
  drop_all_waiting, stop_handles, stop_all,
}
use network_pool.Pool.Wakeup.Bind.{process_bind}
use network_pool.Pool.Wakeup.Send.{process_send, process_close}
use network_pool.Pool.Wakeup.{process_all, on_wakeup}
use network_pool.Pool.Messages.{pending_weight, waiting_weight, owed, held, Keeps}
use network_pool.Pool.Messages.Buffers.{drop_bufs_lem, total-dropped, total-released}
use network_pool.Pool.Messages.Streams.{Keeps-trans}
use network_pool.Pool.Messages.Sends.{
  udp_part, tcp_part, Takes, process_bind-Keeps, process_close-Keeps, each_send-Takes, each-Keeps,
  split_parts,
}

module _ (v : Bytes → ℕ) where
  stop_tcp_server-Keeps : (e : Node × ℕ) (p : Pool) → Keeps v p (stop_tcp_server e p)
  unfolding stop_tcp_server total
  stop_tcp_server-Keeps (n, t) p = ground arith

  stop_udp_server-Keeps : (u : ℕ) (p : Pool) → Keeps v p (stop_udp_server u p)
  unfolding stop_udp_server total
  stop_udp_server-Keeps u p = ground arith

  stop_stream-Keeps : (t : ℕ) (p : Pool) → Keeps v p (stop_stream t p)
  unfolding stop_stream total
  stop_stream-Keeps t p = ground arith

  stop_stream_of-Keeps : (e : Node × ℕ) (p : Pool) → Keeps v p (stop_stream_of e p)
  unfolding stop_stream_of
  stop_stream_of-Keeps (n, t) p = stop_stream-Keeps t p

  refuse_bind-Keeps : (b : Node × Bool) (p : Pool) → Keeps v p (refuse_bind b p)
  unfolding refuse_bind total
  refuse_bind-Keeps (n, on) p = ground arith

  each_refuse-Takes :
      (rs : List PendingSend) (p : Pool)
      → Takes v (pending_weight v rs) (pending_weight v rs) p (each refuse_send rs p)
  unfolding each refuse_send total
  each_refuse-Takes [] p = omega arith
  each_refuse-Takes (r ∷ rs) p = omega (arith, each_refuse-Takes rs (refuse_send r p))

  -- Reporting the waiting messages leaves the queue itself, which is cleared afterwards.
  record Reports (w : ℕ) (p q : Pool) : Type 0 where
    takes : Takes v w w p q
    queue : q.waiting_send ≡ p.waiting_send

  each_waiting-Reports :
      (t : Table (List Bytes)) (p : Pool) → Reports (waiting_weight v t) p (each stop_waiting t p)
  unfolding each stop_waiting total
  each_waiting-Reports [] p = record { takes = omega arith; queue = refl }
  each_waiting-Reports ((n, bs) ∷ t) p = rw (drop_bufs_lem n bs p) (
      let rest = each_waiting-Reports t _ in
      record {
        takes =
            omega (arith, total-dropped v n bs p.notices, total-released v bs p.freed, rest.takes);
        queue = rest.queue;
      })

  drop_all_waiting-Keeps : (p : Pool) → Keeps v p (drop_all_waiting p)
  unfolding drop_all_waiting total
  drop_all_waiting-Keeps p =
      let r = each_waiting-Reports p.waiting_send p in
      let e = ap (waiting_weight v) r.queue in omega (arith, r.takes)

  stop_tcp_servers-Keeps : (p : Pool) → Keeps v p (stop_tcp_servers p)
  unfolding stop_tcp_servers
  stop_tcp_servers-Keeps p =
      let q = record p { tcp_servers = [] } in
      omega (arith, each-Keeps v stop_tcp_server stop_tcp_server-Keeps p.tcp_servers q)

  stop_udp_servers-Keeps : (p : Pool) → Keeps v p (stop_udp_servers p)
  unfolding stop_udp_servers
  stop_udp_servers-Keeps p =
      let q = record p { udp_servers = [] } in
      omega (arith, each-Keeps v stop_udp_server stop_udp_server-Keeps p.udp_servers q)

  stop_streams-Keeps : (p : Pool) → Keeps v p (stop_streams p)
  unfolding stop_streams
  stop_streams-Keeps p =
      let q = record p { node2stream = [] } in
      omega (arith, each-Keeps v stop_stream_of stop_stream_of-Keeps p.node2stream q)

  stop_connecting-Keeps : (p : Pool) → Keeps v p (stop_connecting p)
  unfolding stop_connecting
  stop_connecting-Keeps p =
      let q = record p { connecting = [] } in
      omega (arith, each-Keeps v stop_stream stop_stream-Keeps p.connecting q)

  stop_wakeup-Keeps : (p : Pool) → Keeps v p (stop_wakeup p)
  unfolding stop_wakeup
  stop_wakeup-Keeps p = omega arith

  stop_handles-Keeps : (p : Pool) → Keeps v p (stop_handles p)
  unfolding stop_handles
  stop_handles-Keeps p = Keeps-trans v (stop_wakeup-Keeps p) (
      Keeps-trans v (stop_tcp_servers-Keeps _) (
        Keeps-trans v (stop_udp_servers-Keeps _)
          (Keeps-trans v (stop_streams-Keeps _) (stop_connecting-Keeps _))))

  stop_all-Takes :
      (binds : List (Node × Bool)) (rs : List PendingSend) (p : Pool)
      → Takes v (pending_weight v rs) (pending_weight v rs) p (stop_all binds rs p)
  unfolding stop_all
  stop_all-Takes binds rs p =
      let q = drop_all_waiting (stop_handles p) in
      omega (
        arith,
        stop_handles-Keeps p,
        drop_all_waiting-Keeps (stop_handles p),
        each-Keeps v refuse_bind refuse_bind-Keeps binds q,
        each_refuse-Takes rs (each refuse_bind binds q),
      )

  process_all-Takes :
      (binds : List (Node × Bool)) (rs : List PendingSend) (closes : List (Node × Bool)) (p : Pool)
      → Takes v (total (tcp_part v) rs) (pending_weight v rs) p (process_all binds rs closes p)
  unfolding process_all
  process_all-Takes binds rs closes p =
      let p1 = each process_bind binds p in
      let h1 = each-Keeps v process_bind (process_bind-Keeps v) binds p in
      let p2 = each process_send rs p1 in
      let h3 = each-Keeps v process_close (process_close-Keeps v) closes p2 in
      omega (arith, each_send-Takes v rs p1)

  -- The pending UDP messages that a wakeup takes up.
  abbrev pub silent_sends : Pool → ℕ
  silent_sends p = if p.want_exit then 0 else total (udp_part v) p.pending_send

  pub on_wakeup-weight :
      (p : Pool)
      → (owed v (on_wakeup p) + silent_sends p ≡ owed v p) × (held v (on_wakeup p) ≡ held v p)
  unfolding on_wakeup total
  on_wakeup-weight p =
      let q = record p { pending_bind = []; pending_send = []; pending_close = [] } in
      let binds = p.pending_bind in
      let rs = p.pending_send in
      ground (
        arith,
        stop_all-Takes binds rs q,
        process_all-Takes binds rs p.pending_close q,
        split_parts v rs,
      )
