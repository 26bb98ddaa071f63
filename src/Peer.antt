-- ===== src/Peer.antt =====
-- CpeerContext of peer_server.h: packets that each stand behind their length. An access outside of
-- the memory is a fault; a Cbuffer that was made of a packet is its bytes. Whether the memory for
-- the Cbuffer of a packet and for its place in the vector is there is an argument, one answer for
-- each packet; where it is not, `getContent` ends by an exception.
pub mod Frames
pub mod Loop
pub mod Rounds
pub mod RoundTrip
pub mod Packets
pub mod Server
pub mod Shrink
use network_pool.Common.{
  ℕ, zero, suc, ◌+◌, ◌-◌, ◌*◌, ◌%◌, Bool, Option, none, some, List, [], ◌∷◌, drop, ltb, leb, ◌==◌,
  if◌then◌else◌,
}
use network_pool.Buffer.{Buffer, Outcome, done, threw, fault, resize}
use network_pool.Http.{bytes_in, size_limit}
use network_pool.Http.Content.{slice, move_down}

pub record PeerContext : Type 0 where
  pub max_buffer_size : ℕ
  pub buffer : Buffer
  pub now_index : ℕ

-- `CpeerContext(memoryTrace, maxBufferSize)`
unfoldable pub make_context : ℕ → ℕ → PeerContext
make_context trace max_buffer_size = record {
  max_buffer_size = max_buffer_size;
  buffer = record { trace = trace; memory = none; length = 0; max_length = 0 };
  now_index = 0;
}

-- `pushBuffer`
unfoldable pub push_buffer : ℕ → PeerContext → PeerContext
push_buffer n c =
    if leb ((c.now_index + n) % size_limit) c.buffer.length
    then record c { now_index = (c.now_index + n) % size_limit }
    else c

-- `*(const uint32_t *)` where the low byte is first.
unfoldable pub word : List ℕ → Option ℕ
word (a ∷ b ∷ c ∷ d ∷ rest) = some ((a + 256 * b + 65536 * c + 16777216 * d) % 4294967296)
word _ = none

-- One round of the loop: a packet and the next `nowCheck`, a break, an exception where there is no
-- memory for the packet, or an access outside.
pub data Round : Type 0 where
  packet : List ℕ → ℕ → Round
  enough no_memory outside : Round

unfoldable pub next_packet : Bool → List ℕ → ℕ → ℕ → Round
next_packet room mem size now_check =
    if ltb size ((now_check + 4) % size_limit) then enough else elim (word (drop now_check mem)) [
      | none ↦ outside
      | some pack_length ↦
          if ltb size ((now_check + 4 + pack_length) % size_limit)
          then enough
          else elim (slice (now_check + 4) pack_length mem) [
            | none ↦ outside
            | some bs ↦
                if room then packet bs ((now_check + 4 + pack_length) % size_limit) else no_memory
          ]
    ]

-- The packets and the last `nowCheck`; an exception, and the packets that were pushed before it; an
-- access outside of the memory; or no more fuel.
pub data Scan : Type 0 where
  scanned : List (List ℕ) → ℕ → Scan
  threw_after : List (List ℕ) → Scan
  faulted stuck : Scan

unfoldable pub add_packet : List ℕ → Scan → Scan
add_packet bs (scanned bss n) = scanned (bs ∷ bss) n
add_packet bs (threw_after bss) = threw_after (bs ∷ bss)
add_packet bs faulted = faulted
add_packet bs stuck = stuck

-- The answers for the packets after the first.
abbrev pub later : (ℕ → Bool) → ℕ → Bool
later room k = room (suc k)

unfoldable pub scan : (ℕ → Bool) → ℕ → List ℕ → ℕ → ℕ → Scan
scan room zero mem size now_check = stuck
scan room (suc fuel) mem size now_check = elim (next_packet (room 0) mem size now_check) [
  | packet bs next ↦ add_packet bs (scan (later room) fuel mem size next)
  | enough ↦ scanned [] now_check
  | no_memory ↦ threw_after []
  | outside ↦ faulted
]

-- `getContent(data, length, buffers)`, the packets of a datagram. A packet has at least 4 bytes.
unfoldable pub decode_data : (ℕ → Bool) → List ℕ → ℕ → Scan
decode_data room mem size = scan room (suc size) mem size 0

-- "Reinit for next."
unfoldable pub keep_rest : ℕ → PeerContext → PeerContext
keep_rest now_check c =
    if ltb 0 now_check
    then record c {
      buffer = record c.buffer {
        memory = elim c.buffer.memory [
          | none ↦ none
          | some mem ↦ some (move_down now_check (c.now_index - now_check) mem)
        ];
      };
      now_index = c.now_index - now_check;
    }
    else c

-- How `getContent` of a connection ends: with the packets and the context; by an exception, with the
-- packets that were pushed and the context; or by an access outside of the memory.
pub data Unpacking : Type 0 where
  unpacked raised : List (List ℕ) → PeerContext → Unpacking
  strayed : Unpacking

-- `getContent(buffers)`. An exception leaves the loop before "Reinit for next."
unfoldable pub get_packets : (ℕ → Bool) → PeerContext → Unpacking
get_packets room c = elim (scan room (suc c.now_index) (bytes_in c.buffer.memory) c.now_index 0) [
  | scanned bss now_check ↦ unpacked bss (keep_rest now_check c)
  | threw_after bss ↦ raised bss c
  | faulted ↦ strayed
  | stuck ↦ strayed
]

-- How `prepareBuffer` ends: with `buffer`, as an index into the memory, and `length`; by an
-- exception; or by an access outside of the memory.
pub data Room : Type 0 where
  ready : Option ℕ → ℕ → PeerContext → Room
  failed : PeerContext → Room
  beyond : Room

unfoldable pub with_buffer : Outcome → PeerContext → (PeerContext → Room) → Room
with_buffer (done b) c k = k (record c { buffer = b })
with_buffer (threw b) c k = failed (record c { buffer = b })
with_buffer fault c k = beyond

-- `m_buffer.getLength() - m_nowIndex` on `size_t`
unfoldable pub room_of : PeerContext → ℕ
room_of c = (c.buffer.length + size_limit - c.now_index) % size_limit

-- `init`
unfoldable pub init : Option (List ℕ) → PeerContext → (PeerContext → Room) → Room
init malloced c k =
    if c.buffer.max_length == 0 then with_buffer (resize 4096 0 malloced c.buffer) c k else k c

-- The length that a full buffer is resized to.
unfoldable pub next_length : PeerContext → ℕ
next_length c =
    if ltb c.max_buffer_size ((c.buffer.length * 2) % size_limit)
    then c.max_buffer_size
    else (c.buffer.length * 2) % size_limit

unfoldable pub grow : Option (List ℕ) → PeerContext → (PeerContext → Room) → Room
grow malloced c k =
    if ltb (room_of c) 2048
    then with_buffer (resize (next_length c) c.now_index malloced c.buffer) c k
    else k c

-- `prepareBuffer`
unfoldable pub prepare_buffer : Option (List ℕ) → Option (List ℕ) → PeerContext → Room
prepare_buffer first more c = init first c (λ d.
    grow more d (λ e. ready (if room_of e == 0 then none else some e.now_index) (room_of e) e))
