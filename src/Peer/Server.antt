-- ===== src/Peer/Server.antt =====
-- CpeerServer of peer_server.h: the connections by node, and the callbacks. The memory of the
-- program's CmemoryTrace is a part of the state; what `malloc` gives is an argument.
use network_pool.Common.{
  ℕ, ◌+◌, ◌<◌, ◌≡◌, refl, ap, Option, none, some, List, [], if◌then◌else◌, Bool,
}
use network_pool.MemoryTrace.{
  Trace, Allocation, terminated, refused, gave, malloc, free, alloc_size, size_limit,
}
use network_pool.MemoryTrace.Account.{IsExact, alloc_size-small, fits_lem, free-record_block}
use network_pool.Node.{Node, tcp, udp}
use network_pool.Peer.{
  PeerContext, make_context, push_buffer, Scan, scanned, threw_after, faulted, stuck, decode_data,
  Unpacking, unpacked, raised, strayed, get_packets, Room, ready, failed, beyond, prepare_buffer,
}
use network_pool.Table.{Table, find, insert, erase, update_at}

pub record PeerServer : Type 0 where
  pub trace : Trace
  pub contexts : Table PeerContext

-- How `allocateMemoryForMessage` ends: `buffer` and `length` as they were; a block, or null, and the
-- size for a datagram; a place in the memory of a connection; an exception; `std::terminate`; or an
-- access outside of the memory.
pub data PeerMemory : Type 0 where
  untouched : PeerMemory
  block : Option ℕ → ℕ → PeerServer → PeerMemory
  place : Option ℕ → ℕ → PeerServer → PeerMemory
  refused_memory : PeerServer → PeerMemory
  ended outside : PeerMemory

unfoldable pub with_block : ℕ → PeerServer → Allocation → PeerMemory
with_block size s terminated = ended
with_block size s (refused t) = block none 0 (record s { trace = t })
with_block size s (gave p t) = block (some p) size (record s { trace = t })

unfoldable pub with_place : Node → PeerServer → Room → PeerMemory
with_place n s (ready p size c) =
    place p size (record s { contexts = update_at n (λ old. c) s.contexts })
with_place n s (failed c) =
    refused_memory (record s { contexts = update_at n (λ old. c) s.contexts })
with_place n s beyond = outside

-- `allocateMemoryForMessage`: `given` is what the allocator gives for a datagram, `first` and `more`
-- what it gives for a connection.
unfoldable pub allocate_memory :
    Option ℕ → Option (List ℕ) → Option (List ℕ) → Node → ℕ → PeerServer → PeerMemory
allocate_memory given first more n size s = elim n.protocol [
  | udp ↦ with_block size s (malloc size given s.trace)
  | tcp ↦ elim (find n s.contexts) [
    | none ↦ untouched
    | some c ↦ with_place n s (prepare_buffer first more c)
  ]
]

unfoldable pub with_free : PeerServer → Option Trace → Option PeerServer
with_free s none = none
with_free s (some t) = some (record s { trace = t })

-- `deallocateMemoryForMessage`; `none` where the block is not in use.
unfoldable pub deallocate_memory : Node → Option ℕ → PeerServer → Option PeerServer
deallocate_memory n p s = elim n.protocol [ udp ↦ with_free s (free p s.trace) | tcp ↦ some s ]

-- How `message` ends: with the packets, by an exception, or by an access outside of a memory.
pub data Told : Type 0 where
  told : List (List ℕ) → PeerServer → Told
  thrown : PeerServer → Told
  astray : Told

unfoldable pub datagram : PeerServer → Scan → Told
datagram s (scanned bss n) = told bss s
datagram s (threw_after bss) = thrown s
datagram s faulted = astray
datagram s stuck = astray

unfoldable pub with_packets : Node → PeerServer → Unpacking → Told
with_packets n s (unpacked bss c) =
    told bss (record s { contexts = update_at n (λ old. c) s.contexts })
with_packets n s (raised bss c) = thrown (record s { contexts = update_at n (λ old. c) s.contexts })
with_packets n s strayed = astray

-- `message`: the packets, with which it does nothing yet. `room` tells whether there is memory for
-- each packet.
unfoldable pub message : (ℕ → Bool) → Node → List ℕ → ℕ → PeerServer → Told
message room n bytes size s = elim n.protocol [
  | udp ↦ datagram s (decode_data room bytes size)
  | tcp ↦ elim (find n s.contexts) [
    | none ↦ told [] s
    | some c ↦ with_packets n s (get_packets room (push_buffer size c))
  ]
]

-- `connectionStatus`, with the CmemoryTrace of the new context.
unfoldable pub connection_status : ℕ → Node → Bool → PeerServer → PeerServer
connection_status trace n success s =
    if success
    then record s { contexts = insert n (make_context trace 16777216) s.contexts }
    else record s { contexts = erase n s.contexts }

-- What is left of the server once the memory is released.
abbrev release_memory : Node → PeerServer → PeerMemory → Option PeerServer
release_memory n s untouched = some s
release_memory n s (block b size t) = deallocate_memory n b t
release_memory n s (place b size t) = deallocate_memory n b t
release_memory n s (refused_memory t) = none
release_memory n s ended = none
release_memory n s outside = none

free_null : (t : Trace) → free none t ≡ some t
unfolding free
free_null t = refl

-- From exact counters, the memory that is allocated for a datagram of a size that does not overflow
-- is accounted as released when it is given back, also where there was none.
pub deallocate_memory-allocate_memory :
    (given : Option ℕ) (first more : Option (List ℕ)) (n : Node) (size : ℕ) (s : PeerServer)
    → n.protocol ≡ udp
    → 8 + size < size_limit
    → IsExact s.trace
    → release_memory n s (allocate_memory given first more n size s) ≡ some s
unfolding allocate_memory deallocate_memory with_block malloc with_free
deallocate_memory-allocate_memory given first more n size s u fits h = go given
  where
    go : (o : Option ℕ) → release_memory n s (allocate_memory o first more n size s) ≡ some s
    go none = rw (u, fits_lem size fits) (ap (with_free s) (free_null s.trace))
    go (some p) =
        rw (u, fits_lem size fits)
          (ap (with_free s)
            (free-record_block p (alloc_size size) s.trace (alloc_size-small size) h))
