-- ===== src/Pool/Events.antt =====
-- The callbacks that libuv makes, network_pool.cpp and the lambdas of uv_wrapper.cpp.
use network_pool.Common.{
  ℕ, true, false, not, ◌&&◌, ◌||◌, Option, none, some, List, [], ◌∷◌, ◌==◌, if◌then◌else◌,
}
use network_pool.Node.{Node, tcp, udp, set_node}
use network_pool.Node.Address.{Raw}
use network_pool.Table.{has}
use network_pool.Handle.{
  accept, getpeername, read_start, write_queue_size, answer, call, set_tcp_node,
}
use network_pool.Handle.Stream
use network_pool.Pool.{
  Bytes, Pool, Write, UdpSend, allocate_memory, deallocate_memory, message, drop, tcp_listen_error,
  udp_send_error, udp_recv_error, notify, free, on_loop, tcp_node, udp_node,
}
use network_pool.Pool.Connection.{shutdown_connection, startup_connection, start_timer}

-- `nread` of a read callback with the bytes that it speaks of: positive, 0 or negative.
pub data ReadResult : Type 0 where
  got : Bytes → ReadResult
  nothing : ReadResult
  failed : (code : ℕ) → ReadResult

-- `tcp_alloc_buffer`
unfoldable pub tcp_alloc_buffer : ℕ → ℕ → Pool → Pool
tcp_alloc_buffer t size p = notify (allocate_memory (tcp_node p t) size) p

-- `on_tcp_timeout`
unfoldable pub on_tcp_timeout : ℕ → Pool → Pool
on_tcp_timeout t p = shutdown_connection t false false p

-- `reset_tcp_idle_timeout_may_set_nullptr`
unfoldable pub reset_idle_timeout : ℕ → Pool → Pool
reset_idle_timeout t p =
    let q = on_loop (call (write_queue_size t)) p in
    if answer p.loop == 0
    then (let q1 = start_timer t q.settings.tcp_idle_timeout_in_seconds q in
        if not (answer q.loop == 0) then shutdown_connection t false false q1 else q1)
    else q

-- "no closing and no shutdown": `!tcp->isClosing() && !tcp->isShutdown()`
unfoldable pub reset_if_open : ℕ → Pool → Pool
reset_if_open t p =
    if not (p.loop.tcps t).closing && not (p.loop.tcps t).shut_down
    then reset_idle_timeout t p
    else p

-- `on_tcp_read`
unfoldable pub on_tcp_read : ℕ → ReadResult → Pool → Pool
on_tcp_read t (got b) p =
    let n = tcp_node p t in reset_if_open t (notify (deallocate_memory n) (notify (message n b) p))
on_tcp_read t nothing p = notify (deallocate_memory (tcp_node p t)) p
on_tcp_read t (failed code) p =
    shutdown_connection t false false (notify (deallocate_memory (tcp_node p t)) p)

-- The loops of `on_tcp_write_done` over its buffers: `drop` for each, and the release of each.
unfoldable pub drop_each : Node → List Bytes → Pool → Pool
drop_each n [] p = p
drop_each n (b ∷ bs) p = drop_each n bs (notify (drop n b) p)

unfoldable pub free_each : List Bytes → Pool → Pool
free_each [] p = p
free_each (b ∷ bs) p = free_each bs (free b p)

-- libuv calls a request back once: the request with this number, and the others.
unfoldable pub take_write : ℕ → List Write → Option Write × List Write
take_write r [] = (none, [])
take_write r (w ∷ ws) =
    let (found, rest) = take_write r ws in
    if w.request == r then (some w, ws) else (found, w ∷ rest)

-- `on_tcp_write_done`, for the request `w`, which libuv no longer holds.
unfoldable pub on_tcp_write_done : Write → ℕ → Pool → Pool
on_tcp_write_done w status p =
    let t = w.stream in
    let q =
      if not (status == 0)
      then shutdown_connection t false false (drop_each (tcp_node p t) w.bufs p)
      else reset_if_open t p in
    free_each w.bufs q

-- `on_new_connection`; `peer` and `len` are what uv_tcp_getpeername stores.
unfoldable pub check_peer : ℕ → Raw → ℕ → Pool → Pool
check_peer t peer len p =
    let (n, known) = set_node tcp peer len in
    let q = on_loop (set_tcp_node t n) p in
    if not known
    then on_loop (Stream.close t) q
    else if has n q.node2stream
    then on_loop (Stream.close t) q
    else let q1 = start_timer t q.settings.tcp_idle_timeout_in_seconds q in
      if not (answer q.loop == 0)
      then on_loop (Stream.close t) q1
      else let q2 = on_loop (call (read_start t)) q1 in
        if not (answer q1.loop == 0) then on_loop (Stream.close t) q2 else startup_connection t q2

unfoldable pub accept_on : ℕ → ℕ → Raw → ℕ → Pool → Pool
accept_on server t peer len q =
    let q1 = on_loop (call (accept server t)) q in
    if not (answer q.loop == 0)
    then on_loop (Stream.close t) q1
    else let q2 = on_loop (call (getpeername t)) q1 in
      if not (answer q1.loop == 0) then on_loop (Stream.close t) q2 else check_peer t peer len q2

unfoldable pub on_new_connection : ℕ → ℕ → Raw → ℕ → Pool → Pool
on_new_connection server status peer len p =
    if not (status == 0)
    then notify (tcp_listen_error (tcp_node p server) status) p
    else let (created, l) = Stream.alloc p.settings true p.loop in
      elim created [
        | none ↦ record p { loop = l }
        | some t ↦ accept_on server t peer len (record p { loop = l })
      ]

-- `m_connecting.erase(tcp)`
unfoldable pub erase_connecting : ℕ → List ℕ → List ℕ
erase_connecting t [] = []
erase_connecting t (u ∷ us) = if u == t then us else u ∷ erase_connecting t us

-- `on_connect_done`
unfoldable pub on_connect_done : ℕ → ℕ → Pool → Pool
on_connect_done t status p =
    let q = record p { connecting = erase_connecting t p.connecting } in
    if not (status == 0) || (q.loop.tcps t).closing
    then shutdown_connection t true false q
    else let q1 = start_timer t q.settings.tcp_idle_timeout_in_seconds q in
      if not (answer q.loop == 0)
      then shutdown_connection t true false q1
      else let q2 = on_loop (call (read_start t)) q1 in
        if not (answer q1.loop == 0)
        then shutdown_connection t true false q2
        else startup_connection t q2

-- `udp_alloc_buffer`
unfoldable pub udp_alloc_buffer : ℕ → ℕ → Pool → Pool
udp_alloc_buffer u size p = notify (allocate_memory (udp_node p u) size) p

-- sizeof(sockaddr_storage)
abbrev sizeof_sockaddr_storage : ℕ
sizeof_sockaddr_storage = 128

-- `on_udp_recv`; no address is `addr == nullptr`, and `got []` with an address an empty datagram.
unfoldable pub on_udp_recv : ℕ → ReadResult → Option Raw → Pool → Pool
on_udp_recv u (failed code) addr p =
    let n = udp_node p u in notify (udp_recv_error n code) (notify (deallocate_memory n) p)
on_udp_recv u nothing none p = notify (deallocate_memory (udp_node p u)) p
on_udp_recv u nothing (some raw) p =
    notify (deallocate_memory (udp_node p u))
      (notify (message (set_node udp raw sizeof_sockaddr_storage).0 []) p)
on_udp_recv u (got b) none p = notify (deallocate_memory (udp_node p u)) p
on_udp_recv u (got b) (some raw) p =
    notify (deallocate_memory (udp_node p u))
      (notify (message (set_node udp raw sizeof_sockaddr_storage).0 b) p)

unfoldable pub take_udp_send : ℕ → List UdpSend → Option UdpSend × List UdpSend
take_udp_send r [] = (none, [])
take_udp_send r (w ∷ ws) =
    let (found, rest) = take_udp_send r ws in
    if w.request == r then (some w, ws) else (found, w ∷ rest)

-- `on_udp_send_done`, for the request `w`, which libuv no longer holds.
unfoldable pub on_udp_send_done : UdpSend → ℕ → Pool → Pool
on_udp_send_done w status p =
    let q =
      if not (status == 0) then notify (udp_send_error (udp_node p w.socket) status) p else p in
    free w.buf q
