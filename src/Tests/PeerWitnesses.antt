-- ===== src/Tests/PeerWitnesses.antt =====
-- The theorems on packets at concrete packets.
use network_pool.Common.{
  ℕ, ◌+◌, ◌<◌, ◌≡◌, refl, Bool, true, ◌==◌, none, some, List, [], ◌∷◌, ◌++◌, length, take, drop,
  arith,
}
use network_pool.Buffer.Laws.{IsValid, memory_size}
use network_pool.Http.Content.{slice, move_down}
use network_pool.Peer.{
  PeerContext, scan, next_packet, word, add_packet, decode_data, keep_rest, unpacked, get_packets,
  ready, prepare_buffer,
}
use network_pool.Peer.Frames.{first_packet, frame, frames}
use network_pool.Peer.Loop.{pushes}
use network_pool.Peer.Packets.{
  received, IsHeld, Gives, get_packets_lem, decode_data-frames, get_packets-decode_data,
}
use network_pool.Peer.Shrink.{prepare_buffer-wraps}

abbrev context : List ℕ → ℕ → PeerContext
context mem now = record {
  max_buffer_size = 16777216;
  buffer = record { trace = 0; memory = some mem; length = 11; max_length = 11 };
  now_index = now;
}

-- A packet of two bytes, and all but the last byte of another.
abbrev early : PeerContext
early = context (2 ∷ 0 ∷ 0 ∷ 0 ∷ 1 ∷ 2 ∷ 2 ∷ 0 ∷ 0 ∷ 0 ∷ 9 ∷ []) 11

abbrev early_left : PeerContext
early_left = context (2 ∷ 0 ∷ 0 ∷ 0 ∷ 9 ∷ 2 ∷ 2 ∷ 0 ∷ 0 ∷ 0 ∷ 9 ∷ []) 5

-- The last byte has arrived.
abbrev late : PeerContext
late = context (2 ∷ 0 ∷ 0 ∷ 0 ∷ 9 ∷ 8 ∷ 2 ∷ 0 ∷ 0 ∷ 0 ∷ 9 ∷ []) 6

abbrev late_left : PeerContext
late_left = context (2 ∷ 0 ∷ 0 ∷ 0 ∷ 9 ∷ 8 ∷ 2 ∷ 0 ∷ 0 ∷ 0 ∷ 9 ∷ []) 0

early-IsHeld : IsHeld early
early-IsHeld = record { stored = omega arith; small = omega arith }

late-IsHeld : IsHeld late
late-IsHeld = record { stored = omega arith; small = omega arith }

-- Memory for each packet, and memory for the first only.
abbrev always : ℕ → Bool
always k = true

abbrev first_only : ℕ → Bool
first_only k = k == 0

get_packets_lem_example : Gives always early (get_packets always early)
get_packets_lem_example = get_packets_lem always early early-IsHeld

early_gives : get_packets always early ≡ unpacked ((1 ∷ 2 ∷ []) ∷ []) early_left
unfolding get_packets scan next_packet word add_packet keep_rest slice move_down take drop
early_gives = refl

late_gives : get_packets always late ≡ unpacked ((9 ∷ 8 ∷ []) ∷ []) late_left
unfolding get_packets scan next_packet word add_packet keep_rest slice move_down take drop
late_gives = refl

more_arrives : received late ≡ received early_left ++ 8 ∷ []
unfolding take
more_arrives = refl

pieces_small : length (received early ++ 8 ∷ []) < 9223372036854775808
unfolding take
pieces_small = omega arith

get_packets-decode_data_example :
    (end : ℕ) × (decode_data first_only
        (received early ++ 8 ∷ [])
        (length (received early ++ 8 ∷ []))
      ≡ pushes first_only (((1 ∷ 2 ∷ []) ∷ []) ++ ((9 ∷ 8 ∷ []) ∷ [])) end)
get_packets-decode_data_example =
    get_packets-decode_data always always first_only early late (8 ∷ []) ((1 ∷ 2 ∷ []) ∷ [])
      ((9 ∷ 8 ∷ []) ∷ []) early_left late_left early-IsHeld late-IsHeld pieces_small early_gives
      more_arrives late_gives

abbrev two_packets : List (List ℕ)
two_packets = (1 ∷ 2 ∷ []) ∷ (3 ∷ []) ∷ []

no_packet : first_packet (7 ∷ []) ≡ none
unfolding first_packet word
no_packet = refl

frames_small : length (frames two_packets ++ 7 ∷ []) < 9223372036854775808
unfolding frames frame
frames_small = omega arith

decode_data-frames_example :
    (end : ℕ) × (decode_data first_only
        (frames two_packets ++ 7 ∷ [])
        (length (frames two_packets ++ 7 ∷ []))
      ≡ pushes first_only two_packets end)
decode_data-frames_example =
    decode_data-frames first_only two_packets (7 ∷ []) (omega arith, (omega arith, tt)) no_packet
      frames_small

-- A maximal size of 8 bytes, with 11 received.
abbrev tight : PeerContext
tight = record early { max_buffer_size = 8 }

tight-IsValid : IsValid tight.buffer
tight-IsValid = record { owns = refl; fits = omega arith }

prepare_buffer-wraps_example :
    (n : ℕ) × (prepare_buffer none none tight
      ≡ ready (some 11) n (record tight { buffer = record tight.buffer { length = 8 } }))
    × (memory_size tight.buffer.memory < 11 + n)
    × (9223372036854775808 < n)
prepare_buffer-wraps_example =
    prepare_buffer-wraps none none tight tight-IsValid (omega arith) (omega arith) (omega arith)
      (omega arith)
