-- ===== src/Pool/Setup.antt =====
-- bindAndListenTcp, connectTcp and bindAndListenUdp of network_pool.cpp. Each works on the loop
-- alone, and gives the new handle where it succeeds.
use network_pool.Common.{ℕ, true, false, not, Option, none, some, ◌==◌, if◌then◌else◌}
use network_pool.Node.{Node, tcp, udp}
use network_pool.Handle.{
  Loop, Settings, allocate, tcp_bind, listen, tcp_connect, timer_start, udp_bind, recv_start,
  answer, call, set_tcp_node, set_udp_node, milliseconds,
}
use network_pool.Handle.Stream
use network_pool.Handle.Datagram

unfoldable pub listen_on : Settings → Node → ℕ → Loop → Option ℕ × Loop
listen_on s n t l0 =
    let l = set_tcp_node t n l0 in
    let l1 = call (tcp_bind t) l in
    if not (answer l == 0)
    then (none, Stream.close t l1)
    else let l2 = call (listen t s.tcp_backlog) l1 in
      if not (answer l1 == 0) then (none, Stream.close t l2) else (some t, l2)

-- `bindAndListenTcp`
unfoldable pub bind_and_listen_tcp : Settings → Node → Loop → Option ℕ × Loop
bind_and_listen_tcp s n l = elim n.protocol [
  | tcp ↦
      let (server, l1) = Stream.alloc s false l in
      elim server [ none ↦ (none, l1) | some t ↦ listen_on s n t l1 ]
  | udp ↦ (none, l)
]

unfoldable pub start_connect : Settings → Node → ℕ → Loop → Option ℕ × Loop
start_connect s n t l0 =
    let l = set_tcp_node t n l0 in
    let l1 = call (timer_start t (milliseconds s.tcp_connect_timeout_in_seconds)) l in
    if not (answer l == 0)
    then (none, Stream.close t l1)
    else let l2 = call (tcp_connect t n) l1 in
      if not (answer l1 == 0) then (none, Stream.close t l2) else (some t, l2)

-- `connectTcp`
unfoldable pub connect_tcp : Settings → Node → Loop → Option ℕ × Loop
connect_tcp s n l = elim n.protocol [
  | tcp ↦
      let l0 = call allocate l in
      if not (answer l == 0)
      then (none, l0)
      else let (created, l1) = Stream.alloc s true l0 in
        elim created [ none ↦ (none, l1) | some t ↦ start_connect s n t l1 ]
  | udp ↦ (none, l)
]

unfoldable pub receive_on : Settings → Node → ℕ → Loop → Option ℕ × Loop
receive_on s n u l0 =
    let l = set_udp_node u n l0 in
    let l1 = call (udp_bind u) l in
    if not (answer l == 0)
    then (none, Datagram.close u l1)
    else let l2 = call (recv_start u) l1 in
      if not (answer l1 == 0) then (none, Datagram.close u l2) else (some u, l2)

-- `bindAndListenUdp`
unfoldable pub bind_and_listen_udp : Settings → Node → Loop → Option ℕ × Loop
bind_and_listen_udp s n l = elim n.protocol [
  | tcp ↦ (none, l)
  | udp ↦
      let (server, l1) = Datagram.alloc s l in
      elim server [ none ↦ (none, l1) | some u ↦ receive_on s n u l1 ]
]
