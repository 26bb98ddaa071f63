-- ===== src/Node/Address.antt =====
-- Csockaddr of network_node.h. The union holds a family and the members of that family; a family
-- that is neither AF_INET nor AF_INET6 is always 0. Ports are in network byte order, addresses are
-- the 32-bit words of the source.
use Prim.Native.Nat.{bit_or}
use network_pool.Common.{ℕ, ◌+◌, ◌*◌, ◌%◌, ◌^◌, Bool, true, false, not, ltb, ◌==◌, if◌then◌else◌}

pub data Sockaddr : Type 0 where
  unset : Sockaddr
  in4 : (port addr : ℕ) → Sockaddr
  in6 : (port a0 a1 a2 a3 flowinfo scope_id : ℕ) → Sockaddr

-- A `sockaddr` as the system hands it over.
pub data Raw : Type 0 where
  raw4 : (port addr : ℕ) → Raw
  raw6 : (port a0 a1 a2 a3 flowinfo scope_id : ℕ) → Raw
  raw_other : (family : ℕ) → Raw

-- sizeof(sockaddr_in6)
abbrev pub sizeof_sockaddr_in6 : ℕ
sizeof_sockaddr_in6 = 28

-- `init(raw, size)`: the new value, and what is returned.
unfoldable pub init_raw : Raw → ℕ → Sockaddr × Bool
init_raw (raw4 port addr) size = if ltb size 8 then (unset, false) else (in4 port addr, true)
init_raw (raw6 port a0 a1 a2 a3 flow scope) size =
    if ltb size 8
    then (unset, false)
    else if ltb size sizeof_sockaddr_in6
    then (unset, false)
    else (in6 port a0 a1 a2 a3 flow scope, true)
init_raw (raw_other family) size = (unset, false)

-- `init(another)`, which the copy and move operations use.
unfoldable pub init_copy : Sockaddr → Sockaddr × Bool
init_copy unset = (unset, false)
init_copy (in4 port addr) = (in4 port addr, true)
init_copy (in6 port a0 a1 a2 a3 flow scope) = (in6 port a0 a1 a2 a3 flow scope, true)

-- AF_INET and AF_INET6 of Linux.
abbrev pub family : Sockaddr → ℕ
family unset = 0
family (in4 port addr) = 2
family (in6 port a0 a1 a2 a3 flow scope) = 10

-- `operator<`
unfoldable pub addr_lt : Sockaddr → Sockaddr → Bool
addr_lt unset b = ltb (family unset) (family b)
addr_lt (in4 p x) (in4 q y) = if not (p == q) then ltb p q else ltb x y
addr_lt (in6 p x0 x1 x2 x3 f s) (in6 q y0 y1 y2 y3 g t) =
    if not (p == q)
    then ltb p q
    else if not (x0 == y0)
    then ltb x0 y0
    else if not (x1 == y1)
    then ltb x1 y1
    else if not (x2 == y2)
    then ltb x2 y2
    else if not (x3 == y3)
    then ltb x3 y3
    else if not (f == g)
    then ltb f g
    else ltb s t
addr_lt (in4 p x) b = ltb 2 (family b)
addr_lt (in6 p x0 x1 x2 x3 f s) b = ltb 10 (family b)

-- `operator==`
unfoldable pub addr_eq : Sockaddr → Sockaddr → Bool
addr_eq unset unset = true
addr_eq (in4 p x) (in4 q y) = if not (p == q) then false else x == y
addr_eq (in6 p x0 x1 x2 x3 f s) (in6 q y0 y1 y2 y3 g t) =
    if not (p == q)
    then false
    else if not (x0 == y0)
    then false
    else if not (x1 == y1)
    then false
    else if not (x2 == y2)
    then false
    else if not (x3 == y3)
    then false
    else if not (f == g)
    then false
    else s == t
addr_eq a b = false

abbrev pub size_mod : ℕ
size_mod = 2 ^ 64

-- `(hash << 16) | port` on `size_t`.
abbrev pub shift_port : ℕ → ℕ → ℕ
shift_port h port = bit_or (h * 2 ^ 16 % size_mod) port

-- `getHash(hash)`
unfoldable pub addr_hash : Sockaddr → ℕ → ℕ
addr_hash unset h = (h + 0) % size_mod
addr_hash (in4 port addr) h = shift_port ((h + addr) % size_mod) port
addr_hash (in6 port a0 a1 a2 a3 flow scope) h =
    let h0 = (h + a0) % size_mod in
    let h1 = (h0 * 0xFFFF + a1) % size_mod in
    let h2 = (h1 * 0xFFFF + a2) % size_mod in
    let h3 = (h2 * 0xFFFF + a3) % size_mod in shift_port h3 port

-- `valid()`
unfoldable pub valid : Sockaddr → Bool
valid unset = false
valid (in4 port addr) = true
valid (in6 port a0 a1 a2 a3 flow scope) = true
