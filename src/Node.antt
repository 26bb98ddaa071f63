-- ===== src/Node.antt =====
-- CnetworkNode of network_node.h: a protocol, an address and the hash kept beside them.
pub mod Address
pub mod Equality
pub mod Pair
pub mod Hash
pub mod Text
use network_pool.Common.{ℕ, ◌*◌, Bool, true, false, ◌&&◌, not, ltb, ◌==◌, if◌then◌else◌}
use Address.{Sockaddr, unset, Raw, init_raw, addr_lt, addr_eq, addr_hash}

pub data Protocol : Type 0 where
  tcp udp : Protocol

-- The enumerators' values.
abbrev pub protocol_value : Protocol → ℕ
protocol_value tcp = 0
protocol_value udp = 1

pub record Node : Type 0 where
  pub protocol : Protocol
  pub sockaddr : Sockaddr
  pub hash : ℕ

-- `rehash()`
unfoldable pub rehash : Protocol → Sockaddr → ℕ
rehash protocol addr = addr_hash addr (protocol_value protocol * 31)

-- `CnetworkNode()`
unfoldable pub empty_node : Node
empty_node = record { protocol = tcp; sockaddr = unset; hash = 0 }

-- `set(protocol, raw, size)`, and the constructor with the same arguments.
unfoldable pub set_node : Protocol → Raw → ℕ → Node × Bool
set_node protocol raw size =
    let (addr, done) = init_raw raw size in
    (record { protocol = protocol; sockaddr = addr; hash = rehash protocol addr }, done)

-- `operator<`
unfoldable pub node_lt : Node → Node → Bool
node_lt a b =
    if not (a.hash == b.hash)
    then ltb a.hash b.hash
    else if not (protocol_value a.protocol == protocol_value b.protocol)
    then ltb (protocol_value a.protocol) (protocol_value b.protocol)
    else addr_lt a.sockaddr b.sockaddr

-- `operator==`
unfoldable pub node_eq : Node → Node → Bool
node_eq a b =
    (a.hash == b.hash)
    && (protocol_value a.protocol == protocol_value b.protocol)
    && addr_eq a.sockaddr b.sockaddr
