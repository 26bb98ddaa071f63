-- ===== src/Pool/Status/View.antt =====
-- The client's view of the connections over whole histories, and the duplicate that breaks it for
-- the connection itself: shutdownTcpConnection_set_nullptr erases by node (network_pool.cpp).
use network_pool.Common.{
  ℕ, ◌<◌, ◌≡◌, refl, inl, inr, Bool, false, Option, none, some, List, [], ◌∷◌, arith, Bool-cases,
  if_both, ◌==◌,
}
use network_pool.Node.{Node}
use network_pool.Handle.{Loop, answer, allocate}
use network_pool.Handle.Stream
use network_pool.Handle.Datagram
use network_pool.Handle.Extends.{
  Extends, on_tcp_closed-Extends, on_timer_closed-Extends, on_shutdown_done-Extends,
}
use network_pool.Pool.{Bytes, Pool, Write, UdpSend, on_loop}
use network_pool.Pool.Events.{tcp_alloc_buffer, udp_alloc_buffer, on_tcp_timeout}
use network_pool.Pool.Api.{bind, send, queue_send, sendable, close, request_exit}
use network_pool.Pool.Step.{
  Input, binds, sends, closes, exits, wakes, tcp_allocs, udp_allocs, tcp_times_out, tcp_reads,
  write_done, new_connection, connect_done, udp_reads, udp_send_done, shutdown_done, tcp_closed,
  timer_closed, udp_closed, async_closed, finish_write, finish_udp_send, step, run,
}
use network_pool.Pool.Status.{is_up, Sync}
use network_pool.Pool.Status.Links.{Sync-Calm, on_loop-Calm}
use network_pool.Pool.Status.Streams.{shutdown_connection-Sync, call-Sync}
use network_pool.Pool.Status.Stops.{on_wakeup-Sync}
use network_pool.Pool.Status.Steps.{
  on_tcp_read-Sync, on_tcp_write_done-Sync, on_connect_done-Sync, on_new_connection-Sync,
  on_udp_recv-Calm, on_udp_send_done-Calm,
}

-- libuv ends a connect only on a handle that was made for it.
abbrev pub IsPossible : Input → Pool → Type 0
IsPossible (connect_done t status) p = t < p.loop.fresh
IsPossible _ p = Unit

abbrev pub ArePossible : List Input → Pool → Type 0
ArePossible [] p = Unit
ArePossible (i ∷ is) p = IsPossible i p × ArePossible is (step i p)

module _ (n : Node) where
  -- A change of parts that the view and the table do not see.
  same-Sync :
      {p q : Pool}
      → Sync n p
      → q.node2stream ≡ p.node2stream
      → q.notices ≡ p.notices
      → q.loop ≡ p.loop
      → Sync n q
  same-Sync h a b c = record { agrees = rw (a, b) h.agrees; linked = rw (a, c) h.linked }

  queue_send-Sync :
      (k : Node) (b : Bytes) (auto : Bool) (p : Pool) → Sync n p → Sync n (queue_send k b auto p)
  unfolding queue_send
  queue_send-Sync k b auto p h =
      let h1 = call-Sync n allocate p h in
      elim (Bool-cases (answer p.loop == 0)) [
        | inl e ↦ rw e (record { agrees = h1.agrees; linked = h1.linked })
        | inr e ↦ rw e h1
      ]

  send-Sync :
      (k : Node) (b : Option Bytes) (auto : Bool) (p : Pool) → Sync n p → Sync n (send k b auto p)
  unfolding send
  send-Sync k none auto p h = h
  send-Sync k (some b) auto p h =
      if_both (Sync n) (sendable k (some b)) (queue_send-Sync k b auto p h) h

  close-Sync : (k : Node) (force : Bool) (p : Pool) → Sync n p → Sync n (close k force p)
  unfolding close
  close-Sync k force p h = same-Sync h (ground arith) (ground arith) (ground arith)

  finish_write-Sync :
      (status : ℕ) (found : Option Write × List Write) (p : Pool)
      → Sync n p
      → Sync n (finish_write status found p)
  unfolding finish_write
  finish_write-Sync status (none, ws) p h = h
  finish_write-Sync status (some w, ws) p h =
      on_tcp_write_done-Sync n w status _ (record { agrees = h.agrees; linked = h.linked })

  finish_udp_send-Sync :
      (status : ℕ) (found : Option UdpSend × List UdpSend) (p : Pool)
      → Sync n p
      → Sync n (finish_udp_send status found p)
  unfolding finish_udp_send
  finish_udp_send-Sync status (none, ws) p h = h
  finish_udp_send-Sync status (some w, ws) p h =
      Sync-Calm (on_udp_send_done-Calm n w status _)
        (record { agrees = h.agrees; linked = h.linked })

  -- The loop alone changes.
  loop-Sync :
      (f : Loop → Loop) (p : Pool) → Extends p.loop (f p.loop) → Sync n p → Sync n (on_loop f p)
  loop-Sync f p x h = Sync-Calm (on_loop-Calm n f p x) h

  step-Sync : (i : Input) (p : Pool) → IsPossible i p → Sync n p → Sync n (step i p)
  unfolding step bind request_exit tcp_alloc_buffer udp_alloc_buffer on_tcp_timeout is_up
      Datagram.on_udp_closed Datagram.on_async_closed
  step-Sync (binds k on) p ok h = record { agrees = h.agrees; linked = h.linked }
  step-Sync (sends k b auto) p ok h = send-Sync k b auto p h
  step-Sync (closes k force) p ok h = close-Sync k force p h
  step-Sync exits p ok h = record { agrees = h.agrees; linked = h.linked }
  step-Sync wakes p ok h = on_wakeup-Sync n p h
  step-Sync (tcp_allocs t size) p ok h = record { agrees = h.agrees; linked = h.linked }
  step-Sync (udp_allocs u size) p ok h = record { agrees = h.agrees; linked = h.linked }
  step-Sync (tcp_times_out t) p ok h = shutdown_connection-Sync n t false false p h
  step-Sync (tcp_reads t r) p ok h = on_tcp_read-Sync n t r p h
  step-Sync (write_done r status) p ok h = finish_write-Sync status _ p h
  step-Sync (new_connection server status peer len) p ok h =
      on_new_connection-Sync n server status peer len p h
  step-Sync (connect_done t status) p ok h = on_connect_done-Sync n t status p ok h
  step-Sync (udp_reads u r addr) p ok h = Sync-Calm (on_udp_recv-Calm n u r addr p) h
  step-Sync (udp_send_done r status) p ok h = finish_udp_send-Sync status _ p h
  step-Sync (shutdown_done t) p ok h =
      loop-Sync (Stream.on_shutdown_done t) p (on_shutdown_done-Extends t p.loop) h
  step-Sync (tcp_closed t) p ok h =
      loop-Sync (Stream.on_tcp_closed t) p (on_tcp_closed-Extends t p.loop) h
  step-Sync (timer_closed t) p ok h =
      loop-Sync (Stream.on_timer_closed t) p (on_timer_closed-Extends t p.loop) h
  step-Sync (udp_closed u) p ok h =
      loop-Sync (Datagram.on_udp_closed u) p (record { grows = omega arith; keeps = λ s lt. refl })
        h
  step-Sync async_closed p ok h =
      loop-Sync Datagram.on_async_closed p (record { grows = omega arith; keeps = λ s lt. refl }) h

-- After any history in which a connect ends only on a handle that was made, from a state where this
-- holds, the last connectionStatus that the client got for a node says whether the node is in the
-- table, and each stream in the table is a handle with the node it is under.
pub run-Sync :
    (n : Node) (is : List Input) (p : Pool) → Sync n p → ArePossible is p → Sync n (run is p)
unfolding run
run-Sync n [] p h ok = h
run-Sync n (i ∷ is) p h ok = run-Sync n is (step i p) (step-Sync n i p ok.0 h) ok.1
