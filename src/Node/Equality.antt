-- ===== src/Node/Equality.antt =====
-- The comparisons of Csockaddr and CnetworkNode.
use network_pool.Common.{◌≡◌, refl, ◌↔◌, ◌⊎◌, true, false, arith}
use network_pool.Node.Address.{Sockaddr, unset, in4, in6, addr_eq, addr_lt}
use network_pool.Node.{Node, Protocol, tcp, udp, protocol_value, node_lt, node_eq}

pub addr_eq_iff : (a b : Sockaddr) → (addr_eq a b ≡ true) ↔ (a ≡ b)
unfolding addr_eq
addr_eq_iff unset unset = (λ _. refl, λ _. refl)
addr_eq_iff (in4 p x) (in4 q y) = ground arith
addr_eq_iff (in6 p x0 x1 x2 x3 f s) (in6 q y0 y1 y2 y3 g t) = ground arith
addr_eq_iff a b = (λ h. cc, λ h. cc)

protocol_eq : (a b : Protocol) → protocol_value a ≡ protocol_value b → a ≡ b
protocol_eq tcp tcp h = refl
protocol_eq tcp udp h = absurd (omega arith)
protocol_eq udp tcp h = absurd (omega arith)
protocol_eq udp udp h = refl

-- `==` holds exactly of equal nodes.
pub node_eq_iff : (a b : Node) → (node_eq a b ≡ true) ↔ (a ≡ b)
unfolding node_eq
node_eq_iff a b =
    ground (arith, addr_eq_iff a.sockaddr b.sockaddr, protocol_eq a.protocol b.protocol)

-- `<` on addresses: exactly one of less, equal and greater.
addr_lt_cases :
    (a b : Sockaddr)
    → ((addr_lt a b ≡ true) × (addr_lt b a ≡ false) × (addr_eq a b ≡ false))
      ⊎ ((addr_lt a b ≡ false) × (addr_lt b a ≡ true) × (addr_eq a b ≡ false))
      ⊎ ((addr_lt a b ≡ false) × (addr_lt b a ≡ false) × (addr_eq a b ≡ true))
unfolding addr_lt addr_eq
addr_lt_cases unset unset = ground arith
addr_lt_cases unset (in4 q y) = ground arith
addr_lt_cases (in4 p x) (in4 q y) = ground arith
addr_lt_cases (in6 p x0 x1 x2 x3 f s) (in6 q y0 y1 y2 y3 g t) = ground arith
addr_lt_cases a b = ground arith

-- Exactly one of `a < b`, `b < a` and `a == b` holds.
pub node_lt_cases :
    (a b : Node)
    → ((node_lt a b ≡ true) × (node_lt b a ≡ false) × (node_eq a b ≡ false))
      ⊎ ((node_lt a b ≡ false) × (node_lt b a ≡ true) × (node_eq a b ≡ false))
      ⊎ ((node_lt a b ≡ false) × (node_lt b a ≡ false) × (node_eq a b ≡ true))
unfolding node_lt node_eq
node_lt_cases a b = ground (arith, addr_lt_cases a.sockaddr b.sockaddr)

-- `<` on addresses is transitive.
addr_lt_trans : (a b c : Sockaddr) → addr_lt a b ≡ true → addr_lt b c ≡ true → addr_lt a c ≡ true
unfolding addr_lt
addr_lt_trans unset unset unset h k = ground arith
addr_lt_trans unset unset (in4 r z) h k = ground arith
addr_lt_trans unset unset (in6 r z0 z1 z2 z3 e u) h k = ground arith
addr_lt_trans unset (in4 q y) unset h k = ground arith
addr_lt_trans unset (in4 q y) (in4 r z) h k = ground arith
addr_lt_trans unset (in4 q y) (in6 r z0 z1 z2 z3 e u) h k = ground arith
addr_lt_trans unset (in6 q y0 y1 y2 y3 g t) unset h k = ground arith
addr_lt_trans unset (in6 q y0 y1 y2 y3 g t) (in4 r z) h k = ground arith
addr_lt_trans unset (in6 q y0 y1 y2 y3 g t) (in6 r z0 z1 z2 z3 e u) h k = ground arith
addr_lt_trans (in4 p x) unset unset h k = ground arith
addr_lt_trans (in4 p x) unset (in4 r z) h k = ground arith
addr_lt_trans (in4 p x) unset (in6 r z0 z1 z2 z3 e u) h k = ground arith
addr_lt_trans (in4 p x) (in4 q y) unset h k = ground arith
addr_lt_trans (in4 p x) (in4 q y) (in4 r z) h k = ground arith
addr_lt_trans (in4 p x) (in4 q y) (in6 r z0 z1 z2 z3 e u) h k = ground arith
addr_lt_trans (in4 p x) (in6 q y0 y1 y2 y3 g t) unset h k = ground arith
addr_lt_trans (in4 p x) (in6 q y0 y1 y2 y3 g t) (in4 r z) h k = ground arith
addr_lt_trans (in4 p x) (in6 q y0 y1 y2 y3 g t) (in6 r z0 z1 z2 z3 e u) h k = ground arith
addr_lt_trans (in6 p x0 x1 x2 x3 f s) unset unset h k = ground arith
addr_lt_trans (in6 p x0 x1 x2 x3 f s) unset (in4 r z) h k = ground arith
addr_lt_trans (in6 p x0 x1 x2 x3 f s) unset (in6 r z0 z1 z2 z3 e u) h k = ground arith
addr_lt_trans (in6 p x0 x1 x2 x3 f s) (in4 q y) unset h k = ground arith
addr_lt_trans (in6 p x0 x1 x2 x3 f s) (in4 q y) (in4 r z) h k = ground arith
addr_lt_trans (in6 p x0 x1 x2 x3 f s) (in4 q y) (in6 r z0 z1 z2 z3 e u) h k = ground arith
addr_lt_trans (in6 p x0 x1 x2 x3 f s) (in6 q y0 y1 y2 y3 g t) unset h k = ground arith
addr_lt_trans (in6 p x0 x1 x2 x3 f s) (in6 q y0 y1 y2 y3 g t) (in4 r z) h k = ground arith
addr_lt_trans (in6 p x0 x1 x2 x3 f s) (in6 q y0 y1 y2 y3 g t) (in6 r z0 z1 z2 z3 e u) h k =
    ground arith

-- `<` on nodes is transitive.
pub node_lt_trans : (a b c : Node) → node_lt a b ≡ true → node_lt b c ≡ true → node_lt a c ≡ true
unfolding node_lt
node_lt_trans a b c h k = ground (arith, addr_lt_trans a.sockaddr b.sockaddr c.sockaddr)
