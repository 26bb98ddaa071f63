-- ===== src/Node/Pair.antt =====
-- CnetworkPair of network_node.h: a protocol, a local and a remote address, and their hash.
use network_pool.Common.{
  ℕ, ◌*◌, ◌≡◌, ◌≢◌, refl, Bool, true, not, ◌&&◌, arith, ltb, ◌==◌, if◌then◌else◌,
}
use network_pool.Node.Address.{Sockaddr, unset, in4, in6, addr_lt, addr_eq, addr_hash, init_copy}
use network_pool.Node.Equality.{addr_eq_iff}
use network_pool.Node.{Protocol, protocol_value}

pub record NetworkPair : Type 0 where
  pub protocol : Protocol
  pub local : Sockaddr
  pub remote : Sockaddr
  pub hash : ℕ

-- `rehash()`
unfoldable pub rehash_pair : Protocol → Sockaddr → Sockaddr → ℕ
rehash_pair protocol local remote =
    addr_hash remote (addr_hash local (protocol_value protocol * 31))

-- `CnetworkPair(protocol, local, remote)`
unfoldable pub make_pair : Protocol → Sockaddr → Sockaddr → NetworkPair
make_pair protocol local remote = record {
  protocol = protocol;
  local = local;
  remote = remote;
  hash = rehash_pair protocol local remote;
}

-- `operator=`, by copy and by move: the protocol is not assigned.
unfoldable pub assign_pair : NetworkPair → NetworkPair → NetworkPair
assign_pair a b = record a {
  local = (init_copy b.local).0;
  remote = (init_copy b.remote).0;
  hash = b.hash;
}

-- `operator<`
unfoldable pub pair_lt : NetworkPair → NetworkPair → Bool
pair_lt a b =
    if not (a.hash == b.hash)
    then ltb a.hash b.hash
    else if not (addr_eq a.remote b.remote)
    then addr_lt a.remote b.remote
    else addr_lt a.local b.local

-- `operator==`
unfoldable pub pair_eq : NetworkPair → NetworkPair → Bool
pair_eq a b = (a.hash == b.hash) && addr_eq a.remote b.remote && addr_eq a.local b.local

-- `setProtocol`, `setLocal` and `setRemote`
unfoldable pub set_protocol : Protocol → NetworkPair → NetworkPair
set_protocol protocol a = record a {
  protocol = protocol;
  hash = rehash_pair protocol a.local a.remote;
}

unfoldable pub set_local : Sockaddr → NetworkPair → NetworkPair
set_local local a = record a {
  local = (init_copy local).0;
  hash = rehash_pair a.protocol (init_copy local).0 a.remote;
}

unfoldable pub set_remote : Sockaddr → NetworkPair → NetworkPair
set_remote remote a = record a {
  remote = (init_copy remote).0;
  hash = rehash_pair a.protocol a.local (init_copy remote).0;
}

pub init_copy_lem : (a : Sockaddr) → (init_copy a).0 ≡ a
unfolding init_copy
init_copy_lem unset = refl
init_copy_lem (in4 port addr) = refl
init_copy_lem (in6 port a0 a1 a2 a3 flow scope) = refl

-- Assigning a pair of another protocol gives a pair that is equal by `==` to the one assigned, and
-- has the other protocol.
pub assign_pair-protocol :
    (a b : NetworkPair)
    → a.protocol ≢ b.protocol
    → (pair_eq (assign_pair a b) b ≡ true) × ((assign_pair a b).protocol ≢ b.protocol)
unfolding pair_eq assign_pair
assign_pair-protocol a b h = (
  rw (init_copy_lem b.local, init_copy_lem b.remote)
      (ground (arith, addr_eq_iff b.local b.local, addr_eq_iff b.remote b.remote)),
  h,
)
