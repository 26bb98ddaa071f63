-- ===== src/Buffer.antt =====
-- Cbuffer of buffer.h. A buffer's memory is its bytes, `none` for a null pointer; an access outside
-- of the memory is a fault. What `_malloc_throw` gives is an argument of the operations that call
-- it: the memory, or `none` where it throws.
pub mod Copies
pub mod Laws
pub mod Resize
pub mod Throws
pub mod Made
use network_pool.Common.{
  ℕ, Bool, Option, none, some, List, [], ◌∷◌, length, take, leb, ltb, ◌==◌, if◌then◌else◌,
}

pub record Buffer : Type 0 where
  pub trace : ℕ
  pub memory : Option (List ℕ)
  pub length : ℕ
  pub max_length : ℕ

-- How an operation ends: it returns, `_malloc_throw` throws through it, or it leaves its memory.
pub data Outcome : Type 0 where
  done threw : Buffer → Outcome
  fault : Outcome

-- `memcpy` of all of the bytes to the start of the memory.
unfoldable pub write_bytes : List ℕ → List ℕ → Option (List ℕ)
write_bytes [] mem = some mem
write_bytes (b ∷ bs) [] = none
write_bytes (b ∷ bs) (m ∷ ms) = elim (write_bytes bs ms) [
  | none ↦ none
  | some rest ↦ some (b ∷ rest)
]

unfoldable pub memcpy : List ℕ → Option (List ℕ) → Option (List ℕ)
memcpy bs none = none
memcpy bs (some mem) = write_bytes bs mem

-- The first bytes of a memory, which a `memcpy` reads.
unfoldable pub read : ℕ → Option (List ℕ) → Option (List ℕ)
read n none = none
read n (some mem) = if leb n (length mem) then some (take n mem) else none

-- `m_maxLength = m_length = length` with the memory after a `memcpy`.
unfoldable pub filled : ℕ → Option (List ℕ) → Buffer → Outcome
filled n none b = fault
filled n (some mem) b = done (record b { memory = some mem; length = n; max_length = n })

-- `memcpy(m_data, data, length)` into the memory that is there, and `m_length = length`.
unfoldable pub overwrite : List ℕ → Buffer → Outcome
overwrite bs b = elim (memcpy bs b.memory) [
  | none ↦ fault
  | some mem ↦ done (record b { memory = some mem; length = length bs })
]

-- `_free_set_nullptr`, `_malloc_throw` and `memcpy`.
unfoldable pub replace : List ℕ → Option (List ℕ) → Buffer → Outcome
replace bs none b = threw (record b { memory = none })
replace bs (some mem) b = filled (length bs) (write_bytes bs mem) b

-- `set(data, length)` for the bytes that `data` points to.
unfoldable pub set : List ℕ → Option (List ℕ) → Buffer → Outcome
set bs malloced b =
    if leb (length bs) b.max_length
    then (if ltb 0 (length bs) then overwrite bs b else done (record b { length = length bs }))
    else replace bs malloced b

-- `Cbuffer(trace, data, length)`; where it throws there is no object.
unfoldable pub make : ℕ → List ℕ → Option (List ℕ) → Outcome
make trace bs malloced =
    let b : Buffer = record { trace = trace; memory = none; length = 0; max_length = 0 } in
    if length bs == 0 then done b else replace bs malloced b

-- Bytes that an operation reads from another buffer.
unfoldable pub with_bytes : Option (List ℕ) → (List ℕ → Outcome) → Outcome
with_bytes none k = fault
with_bytes (some bs) k = k bs

-- `operator=(const Cbuffer&)`, for a buffer other than the target.
unfoldable pub assign : Buffer → Option (List ℕ) → Buffer → Outcome
assign other malloced b =
    if leb other.length b.max_length
    then (if ltb 0 other.length
        then with_bytes (read other.length other.memory) (λ bs. overwrite bs b)
        else done (record b { length = other.length }))
    else elim malloced [
      | none ↦ threw (record b { memory = none })
      | some mem ↦
          with_bytes (read other.length other.memory)
            (λ bs. filled other.length (write_bytes bs mem) b)
    ]

-- `operator=(Cbuffer&&)`: the target and the other buffer.
unfoldable pub move_assign : Buffer → Buffer → Buffer × Buffer
move_assign other b = (other, record other { memory = none; length = 0; max_length = 0 })

-- `transfer(buf)`: the memory and the length in `buf`, and the buffer.
unfoldable pub transfer : Buffer → (Option (List ℕ) × ℕ) × Buffer
transfer b = ((b.memory, b.length), record b { memory = none; length = 0; max_length = 0 })

-- `resize(preferLength, validLength)`
unfoldable pub resize : ℕ → ℕ → Option (List ℕ) → Buffer → Outcome
resize prefer valid malloced b =
    if leb prefer b.max_length
    then done (record b { length = prefer })
    else let kept = if ltb b.length valid then b.length else valid in
      if ltb 0 kept
      then elim malloced [
        | none ↦ threw b
        | some mem ↦ with_bytes (read kept b.memory) (λ bs. filled prefer (write_bytes bs mem) b)
      ]
      else elim malloced [
        | none ↦ threw (record b { memory = none })
        | some mem ↦ done (record b { memory = some mem; length = prefer; max_length = prefer })
      ]

-- `Cbuffer(trace)`
unfoldable pub make_empty : ℕ → Buffer
make_empty trace = record { trace = trace; memory = none; length = 0; max_length = 0 }

-- `Cbuffer(trace, length)`; where it throws there is no object.
unfoldable pub make_sized : ℕ → ℕ → Option (List ℕ) → Outcome
make_sized trace n malloced = if n == 0 then done (make_empty trace) else elim malloced [
  | none ↦ threw (make_empty trace)
  | some mem ↦ done (record { trace = trace; memory = some mem; length = n; max_length = n })
]

-- `Cbuffer(const Cbuffer&)`; where it throws there is no object.
unfoldable pub make_copy : Buffer → Option (List ℕ) → Outcome
make_copy other malloced =
    if other.length == 0 then done (make_empty other.trace) else elim malloced [
      | none ↦ threw (make_empty other.trace)
      | some mem ↦
          with_bytes (read other.length other.memory)
            (λ bs. filled other.length (write_bytes bs mem) (make_empty other.trace))
    ]

-- `Cbuffer(Cbuffer&&)`: the new buffer, and the other one.
unfoldable pub make_moved : Buffer → Buffer × Buffer
make_moved other = (
  record {
    trace = other.trace;
    memory = other.memory;
    length = other.length;
    max_length = other.max_length;
  },
  record other { memory = none; length = 0; max_length = 0 },
)

-- `~Cbuffer()`: the memory that is given back.
unfoldable pub destroy : Buffer → Option (List ℕ)
destroy b = b.memory
