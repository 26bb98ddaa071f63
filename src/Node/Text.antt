-- ===== src/Node/Text.antt =====
-- The textual forms of Csockaddr and CnetworkNode (network_node.h). The functions of libuv and of
-- the system that they call are a parameter; a text is its bytes.
use network_pool.Common.{
  ℕ, Bool, true, false, ◌||◌, Option, none, some, List, [], ◌∷◌, ◌==◌, if◌then◌else◌,
}
use network_pool.Node.Address.{Sockaddr, unset, in4, in6}
use network_pool.Node.{Protocol, Node, rehash}

-- uv_ip4_addr and uv_ip6_addr, which give the fields of the address or fail, uv_ip4_name and
-- uv_ip6_name, and ntohs.
pub record Names : Type 0 where
  pub ip4_addr : List ℕ → ℕ → Option (ℕ × ℕ)
  pub ip6_addr : List ℕ → ℕ → Option (ℕ × ℕ × ℕ × ℕ × ℕ × ℕ × ℕ)
  pub ip4_name : ℕ → Option (List ℕ)
  pub ip6_name : ℕ → ℕ → ℕ → ℕ → Option (List ℕ)
  pub ntohs : ℕ → ℕ

-- `strchr(ip, ':') != nullptr`
unfoldable pub has_colon : List ℕ → Bool
has_colon [] = false
has_colon (c ∷ cs) = let rest = has_colon cs in (c == 58) || rest

unfoldable pub init4 : Option (ℕ × ℕ) → Sockaddr × Bool
init4 none = (unset, false)
init4 (some (port, addr)) = (in4 port addr, true)

unfoldable pub init6 : Option (ℕ × ℕ × ℕ × ℕ × ℕ × ℕ × ℕ) → Sockaddr × Bool
init6 none = (unset, false)
init6 (some (port, a0, a1, a2, a3, flow, scope)) = (in6 port a0 a1 a2 a3 flow scope, true)

-- `init(ip, port)`
unfoldable pub init_text : Names → List ℕ → ℕ → Sockaddr × Bool
init_text u ip port =
    if has_colon ip then init6 (u.ip6_addr ip port) else init4 (u.ip4_addr ip port)

unfoldable pub or_empty : Option (List ℕ) → List ℕ
or_empty none = []
or_empty (some name) = name

-- `getIp()`
unfoldable pub get_ip : Names → Sockaddr → List ℕ
get_ip u unset = []
get_ip u (in4 port addr) = or_empty (u.ip4_name addr)
get_ip u (in6 port a0 a1 a2 a3 flow scope) = or_empty (u.ip6_name a0 a1 a2 a3)

-- `getPort()`
unfoldable pub get_port : Names → Sockaddr → ℕ
get_port u unset = 0
get_port u (in4 port addr) = u.ntohs port
get_port u (in6 port a0 a1 a2 a3 flow scope) = u.ntohs port

-- `isIpv6()`
unfoldable pub is_ipv6 : Sockaddr → Bool
is_ipv6 (in6 port a0 a1 a2 a3 flow scope) = true
is_ipv6 _ = false

-- `set(protocol, ip, port)`, and the constructor with the same arguments.
unfoldable pub set_text : Names → Protocol → List ℕ → ℕ → Node × Bool
set_text u protocol ip port =
    let (addr, done) = init_text u ip port in
    (record { protocol = protocol; sockaddr = addr; hash = rehash protocol addr }, done)
