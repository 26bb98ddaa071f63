-- ===== src/Pool/Messages/Ledger.antt =====
-- The account of the messages over every entry point of CnetworkPool: network_pool.cpp and
-- network_pool.h.
use network_pool.Common.{
  ℕ, ◌+◌, ◌≡◌, refl, Bool, false, ◌&&◌, Option, none, some, List, [], ◌∷◌, arith, total,
  total-append, if◌then◌else◌, ◌==◌,
}
use network_pool.Node.{Node}
use network_pool.Handle.{answer}
use network_pool.Pool.{Bytes, Pool, PendingSend, Write, UdpSend}
use network_pool.Pool.Events.{
  take_write, take_udp_send, on_tcp_timeout, tcp_alloc_buffer, udp_alloc_buffer,
}
use network_pool.Pool.Api.{bind, send, sendable, queue_send, close, request_exit}
use network_pool.Pool.Step.{
  Input, binds, sends, closes, exits, wakes, tcp_allocs, udp_allocs, tcp_times_out, tcp_reads,
  write_done, new_connection, connect_done, udp_reads, udp_send_done, shutdown_done, tcp_closed,
  timer_closed, udp_closed, async_closed, finish_write, finish_udp_send, step, run,
}
use network_pool.Pool.Messages.{write_weight, udp_weight, owed, held, Keeps}
use network_pool.Pool.Messages.Streams.{shutdown_connection-Keeps}
use network_pool.Pool.Messages.Stops.{silent_sends, on_wakeup-weight}
use network_pool.Pool.Messages.Callbacks.{
  on_tcp_read-Keeps, on_tcp_write_done-weight, on_connect_done-Keeps, on_new_connection-Keeps,
  on_udp_recv-Keeps, on_udp_send_done-weight,
}

module _ (v : Bytes → ℕ) where
  abbrev request_weight : Option Write → ℕ
  request_weight none = 0
  request_weight (some w) = total v w.bufs

  abbrev udp_request_weight : Option UdpSend → ℕ
  udp_request_weight none = 0
  udp_request_weight (some w) = v w.buf

  take_write-weight :
      (r : ℕ) (ws : List Write)
      → write_weight v (take_write r ws).1 + request_weight (take_write r ws).0 ≡ write_weight v ws
  unfolding take_write total
  take_write-weight r [] = refl
  take_write-weight r (w ∷ ws) = ground (arith, take_write-weight r ws)

  take_udp_send-weight :
      (r : ℕ) (ws : List UdpSend)
      → udp_weight v (take_udp_send r ws).1 + udp_request_weight (take_udp_send r ws).0
        ≡ udp_weight v ws
  unfolding take_udp_send total
  take_udp_send-weight r [] = refl
  take_udp_send-weight r (w ∷ ws) = ground (arith, take_udp_send-weight r ws)

  -- The message that a step hands to the pool: `send` of a message that it can take on.
  abbrev pub submitted : Pool → Input → ℕ
  submitted p (sends n (some b) auto) =
      if sendable n (some b) && (answer p.loop == 0) then v b else 0
  submitted p _ = 0

  -- The messages that a step settles without reporting a drop: those of a write that succeeded,
  -- and the UDP messages that a wakeup takes up.
  abbrev pub settled : Pool → Input → ℕ
  settled p wakes = silent_sends v p
  settled p (write_done r status) =
      if status == 0 then request_weight (take_write r p.writes).0 else 0
  settled p _ = 0

  -- One step in the account.
  pub record Accounts (p : Pool) (i : Input) (q : Pool) : Type 0 where
    pub owed : owed v q + settled p i ≡ owed v p + submitted p i
    pub held : held v q ≡ held v p + submitted p i

  bind-Keeps : (n : Node) (on : Bool) (p : Pool) → Keeps v p (bind n on p)
  unfolding bind
  bind-Keeps n on p = omega arith

  close-Keeps : (n : Node) (force : Bool) (p : Pool) → Keeps v p (close n force p)
  unfolding close
  close-Keeps n force p = ground arith

  send-Accounts :
      (n : Node) (b : Option Bytes) (auto : Bool) (p : Pool)
      → Accounts p (sends n b auto) (send n b auto p)
  unfolding send queue_send total
  send-Accounts n none auto p = omega arith
  send-Accounts n (some b) auto p = ground (
    arith,
    total-append (λ (r : PendingSend). v r.bytes) p.pending_send
        (record { node = n; bytes = b; auto_connect = auto } ∷ []),
  )

  finish_write-Accounts :
      (r status : ℕ) (p : Pool) (found : Option Write × List Write)
      → take_write r p.writes ≡ found
      → write_weight v found.1 + request_weight found.0 ≡ write_weight v p.writes
      → Accounts p (write_done r status) (finish_write status found p)
  unfolding finish_write
  finish_write-Accounts r status p (none, ws) e h = ground arith
  finish_write-Accounts r status p (some w, ws) e h =
      ground (arith, on_tcp_write_done-weight v w status (record p { writes = ws }))

  finish_udp_send-Accounts :
      (r status : ℕ) (p : Pool) (found : Option UdpSend × List UdpSend)
      → udp_weight v found.1 + udp_request_weight found.0 ≡ udp_weight v p.udp_sends
      → Accounts p (udp_send_done r status) (finish_udp_send status found p)
  unfolding finish_udp_send
  finish_udp_send-Accounts r status p (none, ws) h = omega arith
  finish_udp_send-Accounts r status p (some w, ws) h =
      omega (arith, on_udp_send_done-weight v w status (record p { udp_sends = ws }))

  pub step-Accounts : (i : Input) (p : Pool) → Accounts p i (step i p)
  unfolding step total
  step-Accounts (binds n on) p = omega (arith, bind-Keeps n on p)
  step-Accounts (sends n b auto) p = send-Accounts n b auto p
  step-Accounts (closes n force) p = omega (arith, close-Keeps n force p)
  step-Accounts exits p = unfold request_exit in omega arith
  step-Accounts wakes p = omega (arith, on_wakeup-weight v p)
  step-Accounts (tcp_allocs t size) p = unfold tcp_alloc_buffer in omega arith
  step-Accounts (udp_allocs u size) p = unfold udp_alloc_buffer in omega arith
  step-Accounts (tcp_times_out t) p =
      unfold on_tcp_timeout in omega (arith, shutdown_connection-Keeps v t false false p)
  step-Accounts (tcp_reads t r) p = omega (arith, on_tcp_read-Keeps v t r p)
  step-Accounts (write_done r status) p =
      finish_write-Accounts r status p (take_write r p.writes) refl (take_write-weight r p.writes)
  step-Accounts (new_connection server status peer len) p =
      omega (arith, on_new_connection-Keeps v server status peer len p)
  step-Accounts (connect_done t status) p = omega (arith, on_connect_done-Keeps v t status p)
  step-Accounts (udp_reads u r addr) p = omega (arith, on_udp_recv-Keeps v u r addr p)
  step-Accounts (udp_send_done r status) p =
      finish_udp_send-Accounts r status p (take_udp_send r p.udp_sends)
        (take_udp_send-weight r p.udp_sends)
  step-Accounts (shutdown_done t) p = omega arith
  step-Accounts (tcp_closed t) p = omega arith
  step-Accounts (timer_closed t) p = omega arith
  step-Accounts (udp_closed u) p = omega arith
  step-Accounts async_closed p = omega arith

  -- Summed over a history.
  pub submitted_by : List Input → Pool → ℕ
  submitted_by [] p = 0
  submitted_by (i ∷ is) p = submitted p i + submitted_by is (step i p)

  pub settled_by : List Input → Pool → ℕ
  settled_by [] p = 0
  settled_by (i ∷ is) p = settled p i + settled_by is (step i p)

  -- After any history from any state, the TCP messages that the pool still has and those that it
  -- reported as dropped are those that it had or was handed, less those whose write succeeded and
  -- the UDP messages taken up: no message is lost without a report, and none is reported twice.
  pub run-owed :
      (is : List Input) (p : Pool)
      → owed v (run is p) + settled_by is p ≡ owed v p + submitted_by is p
  unfolding run submitted_by settled_by
  run-owed [] p = refl
  run-owed (i ∷ is) p = omega (arith, step-Accounts i p, run-owed is (step i p))

  -- After any history, the memory of each message that was handed over is either still held, by a
  -- queue of the pool or by a request that libuv has, or was given back, and that once.
  pub run-held : (is : List Input) (p : Pool) → held v (run is p) ≡ held v p + submitted_by is p
  unfolding run submitted_by
  run-held [] p = omega arith
  run-held (i ∷ is) p = omega (arith, step-Accounts i p, run-held is (step i p))
