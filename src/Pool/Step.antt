-- ===== src/Pool/Step.antt =====
-- The program as a machine: each entry point, by a caller of CnetworkPool or by libuv, is one step.
-- Handlers run on one thread, and a caller touches the pending queues only, under the lock: so a
-- call that is made while a handler runs is a step before or after it.
use network_pool.Common.{ℕ, Bool, Option, none, some, List, [], ◌∷◌}
use network_pool.Node.{Node}
use network_pool.Node.Address.{Raw}
use network_pool.Handle.Stream
use network_pool.Handle.Datagram
use network_pool.Pool.{Bytes, Pool, Write, UdpSend, on_loop}
use network_pool.Pool.Api.{bind, send, close, request_exit}
use network_pool.Pool.Events.{
  ReadResult, tcp_alloc_buffer, on_tcp_timeout, on_tcp_read, take_write, on_tcp_write_done,
  on_new_connection, on_connect_done, udp_alloc_buffer, on_udp_recv, take_udp_send,
  on_udp_send_done,
}
use network_pool.Pool.Wakeup.{on_wakeup}

pub data Input : Type 0 where
  binds : Node → (on : Bool) → Input
  sends : Node → Option Bytes → (auto_connect : Bool) → Input
  closes : Node → (force : Bool) → Input
  exits : Input
  wakes : Input
  tcp_allocs udp_allocs : (handle size : ℕ) → Input
  tcp_times_out : (tcp : ℕ) → Input
  tcp_reads : (tcp : ℕ) → ReadResult → Input
  write_done : (request status : ℕ) → Input
  new_connection : (server status : ℕ) → Raw → (len : ℕ) → Input
  connect_done : (tcp status : ℕ) → Input
  udp_reads : (udp : ℕ) → ReadResult → Option Raw → Input
  udp_send_done : (request status : ℕ) → Input
  shutdown_done tcp_closed timer_closed udp_closed : (handle : ℕ) → Input
  async_closed : Input

-- libuv calls back only requests that it holds.
unfoldable pub finish_write : ℕ → Option Write × List Write → Pool → Pool
finish_write status (none, ws) p = p
finish_write status (some w, ws) p = on_tcp_write_done w status (record p { writes = ws })

unfoldable pub finish_udp_send : ℕ → Option UdpSend × List UdpSend → Pool → Pool
finish_udp_send status (none, ws) p = p
finish_udp_send status (some w, ws) p = on_udp_send_done w status (record p { udp_sends = ws })

unfoldable pub step : Input → Pool → Pool
step (binds n on) p = bind n on p
step (sends n b auto) p = send n b auto p
step (closes n force) p = close n force p
step exits p = request_exit p
step wakes p = on_wakeup p
step (tcp_allocs t size) p = tcp_alloc_buffer t size p
step (udp_allocs u size) p = udp_alloc_buffer u size p
step (tcp_times_out t) p = on_tcp_timeout t p
step (tcp_reads t r) p = on_tcp_read t r p
step (write_done r status) p = finish_write status (take_write r p.writes) p
step (new_connection server status peer len) p = on_new_connection server status peer len p
step (connect_done t status) p = on_connect_done t status p
step (udp_reads u r addr) p = on_udp_recv u r addr p
step (udp_send_done r status) p = finish_udp_send status (take_udp_send r p.udp_sends) p
step (shutdown_done t) p = on_loop (Stream.on_shutdown_done t) p
step (tcp_closed t) p = on_loop (Stream.on_tcp_closed t) p
step (timer_closed t) p = on_loop (Stream.on_timer_closed t) p
step (udp_closed u) p = on_loop (Datagram.on_udp_closed u) p
step async_closed p = on_loop Datagram.on_async_closed p

unfoldable pub run : List Input → Pool → Pool
run [] p = p
run (i ∷ is) p = run is (step i p)
