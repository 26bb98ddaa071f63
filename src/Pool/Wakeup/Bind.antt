-- ===== src/Pool/Wakeup/Bind.antt =====
-- The loop over the pending binds in on_wakeup of network_pool.cpp. `default:` of its switch is not
-- reached: the enumeration has two values.
use network_pool.Common.{ℕ, Bool, true, false, Option, none, some, List, [], ◌∷◌, if◌then◌else◌}
use network_pool.Node.{Node, tcp, udp, node_eq}
use network_pool.Table.{find, insert, erase_at}
use network_pool.Handle.{Loop, recv_stop, call}
use network_pool.Handle.Stream
use network_pool.Handle.Datagram
use network_pool.Pool.{Pool, bind_status, notify, on_loop}
use network_pool.Pool.Setup.{bind_and_listen_tcp, bind_and_listen_udp}

abbrev is_some {ℓ} : {A : Type ℓ} → Option A → Bool
is_some none = false
is_some (some a) = true

-- `if (tcpServer != nullptr) pool->m_tcpServers.insert(...)`
abbrev add_tcp_server : Node → Option ℕ → Pool → Pool
add_tcp_server n none p = p
add_tcp_server n (some t) p = record p { tcp_servers = insert n t p.tcp_servers }

-- The `case protocol_tcp` of the loop over the binds.
unfoldable pub bind_tcp : Node → Bool → Pool → Pool
bind_tcp n on p = elim (find n p.tcp_servers) [
  | some t ↦
      if on
      then notify (bind_status n true) p
      else (let q = record p { tcp_servers = erase_at n p.tcp_servers } in
          on_loop (Stream.close t) (notify (bind_status n false) q))
  | none ↦
      if on
      then (let (server, l) = bind_and_listen_tcp p.settings n p.loop in
          notify (bind_status n (is_some server)) (add_tcp_server n server (record p { loop = l })))
      else notify (bind_status n false) p
]

-- The first server with the node, as `udpServerIt` finds it.
unfoldable pub find_udp : Node → List ℕ → Loop → Option ℕ
find_udp n [] l = none
find_udp n (u ∷ us) l = if node_eq (l.udps u).node n then some u else find_udp n us l

unfoldable pub erase_udp : Node → List ℕ → Loop → List ℕ
erase_udp n [] l = []
erase_udp n (u ∷ us) l = if node_eq (l.udps u).node n then us else u ∷ erase_udp n us l

-- `push_back`
unfoldable pub push_back : ℕ → List ℕ → List ℕ
push_back u [] = u ∷ []
push_back u (v ∷ vs) = v ∷ push_back u vs

-- `if (udpServer != nullptr) pool->m_udpServers.push_back(udpServer)`
abbrev add_udp_server : Option ℕ → Pool → Pool
add_udp_server none p = p
add_udp_server (some u) p = record p { udp_servers = push_back u p.udp_servers }

-- The `case protocol_udp` of the loop over the binds.
unfoldable pub bind_udp : Node → Bool → Pool → Pool
bind_udp n on p = elim (find_udp n p.udp_servers p.loop) [
  | some u ↦
      if on
      then notify (bind_status n true) p
      else (let q = record p { udp_servers = erase_udp n p.udp_servers p.loop } in
          on_loop (λ l. Datagram.close u (call (recv_stop u) l)) (notify (bind_status n false) q))
  | none ↦
      if on
      then (let (server, l) = bind_and_listen_udp p.settings n p.loop in
          notify (bind_status n (is_some server)) (add_udp_server server (record p { loop = l })))
      else notify (bind_status n false) p
]

unfoldable pub process_bind : Node × Bool → Pool → Pool
process_bind (n, on) p = elim n.protocol [ tcp ↦ bind_tcp n on p | udp ↦ bind_udp n on p ]
