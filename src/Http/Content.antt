-- ===== src/Http/Content.antt =====
-- What is read from a complete message, and the step to the next one (ChttpContext of
-- http_context.h).
pub mod Fields
pub mod Info
pub mod Merge
pub mod Next
use mathlib.Core.List.{reverse}
use network_pool.Common.{
  ℕ, zero, suc, ◌+◌, ◌-◌, ◌%◌, Bool, true, false, not, Option, none, some, List, [], ◌∷◌, ◌++◌,
  length, take, drop, leb, ◌==◌, if◌then◌else◌, total,
}
use network_pool.Buffer.{Buffer, Outcome, done, threw, fault, resize, set, read}
use network_pool.Http.{State, state_done, Line, HttpContext, bytes, size_limit}
use network_pool.Http.Header.{line_at}
use network_pool.Http.Receive.{cleared}
use network_pool.Http.Text.{split_char, split_line}

-- A call that returns true with a value, one that returns false, and an access outside of the
-- memory.
pub data Reading {ℓ} (A : Type ℓ) : Type ℓ where
  got : A → Reading A
  refused beyond : Reading A

unfoldable pub is_done : State → Bool
is_done state_done = true
is_done _ = false

-- `isGood`
unfoldable pub is_good : HttpContext → Bool
is_good c = is_done c.state

-- `isKeepAlive`
unfoldable pub is_keep_alive : HttpContext → Bool
is_keep_alive c = c.keep_alive

-- The text at a place, up to its null.
unfoldable pub text_to_null : List ℕ → Option (List ℕ)
text_to_null [] = none
text_to_null (c ∷ cs) =
    let rest = text_to_null cs in
    if c == 0 then some [] else elim rest [ none ↦ none | some ds ↦ some (c ∷ ds) ]

-- The first line cut at its first two spaces. `b2` is not checked: without a second space the
-- source goes on with a null pointer.
unfoldable pub cut_line : List ℕ → Reading (List ℕ × List ℕ × List ℕ)
cut_line line = elim (split_char 32 line) [
  | none ↦ refused
  | some (first, rest) ↦ elim (split_char 32 rest) [
    | none ↦ beyond
    | some (second, third) ↦ got (first, second, third)
  ]
]

-- `m_lines[0]`, which a message with an empty header does not have.
unfoldable pub first_line : List Line → List ℕ → Reading (List ℕ × List ℕ × List ℕ)
first_line [] mem = beyond
first_line ((start, n?) ∷ ls) mem = elim (text_to_null (drop start mem)) [
  | none ↦ beyond
  | some line ↦ cut_line line
]

-- `getInfo`
unfoldable pub get_info : HttpContext → Reading (List ℕ × List ℕ × List ℕ)
get_info c = if not (is_good c) then refused else first_line (reverse c.lines) (bytes c)

-- The names and values of the lines, as they are inserted.
unfoldable pub parameters : List Line → List ℕ → Option (List (List ℕ × List ℕ))
parameters [] mem = some []
parameters ((start, n?) ∷ ls) mem =
    let rest = parameters ls mem in
    elim n? [
      | none ↦ rest
      | some n ↦ elim (line_at start n mem) [
        | none ↦ none
        | some cs ↦ elim (split_line cs) [
          | none ↦ rest
          | some pair ↦ elim rest [ none ↦ none | some ps ↦ some (pair ∷ ps) ]
        ]
      ]
    ]

-- `getParameter`
unfoldable pub get_parameter : HttpContext → Reading (List (List ℕ × List ℕ))
get_parameter c =
    if not (is_good c)
    then refused
    else elim (parameters (reverse c.lines) (bytes c)) [ none ↦ beyond | some ps ↦ got ps ]

-- The bytes of a part of the body.
unfoldable pub slice : ℕ → ℕ → List ℕ → Option (List ℕ)
slice start n mem = if leb (start + n) (length mem) then some (take n (drop start mem)) else none

-- `memcpy` to the front of the memory, and what follows on the rest of it.
unfoldable pub put : List ℕ → List ℕ → (List ℕ → Option (List ℕ)) → Option (List ℕ)
put [] dst k = k dst
put (b ∷ bs) [] k = none
put (b ∷ bs) (m ∷ dst) k = elim (put bs dst k) [ none ↦ none | some after ↦ some (b ∷ after) ]

unfoldable pub copy_chunks : List (ℕ × ℕ) → List ℕ → List ℕ → Option (List ℕ)
copy_chunks [] src dst = some dst
copy_chunks ((start, n) ∷ cs) src dst = elim (slice start n src) [
  | none ↦ none
  | some bs ↦ put bs dst (λ rest. copy_chunks cs src rest)
]

abbrev pub chunk_size : ℕ × ℕ → ℕ
chunk_size (start, n) = n

-- The parts of the body copied to a buffer's memory, where the memory of a null pointer is empty.
unfoldable pub copy_to : HttpContext → Buffer → Reading Outcome
copy_to c b = elim b.memory [
  | none ↦ elim (copy_chunks (reverse c.chunks) (bytes c) []) [
    | none ↦ got fault
    | some after ↦ got (done b)
  ]
  | some mem ↦ elim (copy_chunks (reverse c.chunks) (bytes c) mem) [
    | none ↦ got fault
    | some after ↦ got (done (record b { memory = some after }))
  ]
]

-- `getContent`
unfoldable pub get_content : Buffer → Option (List ℕ) → HttpContext → Reading Outcome
get_content b malloced c =
    if not (is_good c)
    then refused
    else elim (resize (total chunk_size c.chunks % size_limit) 0 malloced b) [
      | done d ↦ copy_to c d
      | threw d ↦ got (threw d)
      | fault ↦ got fault
    ]

-- The message moved to another context, and the context left; or an exception, with the other
-- context as it is then.
pub data Move : Type 0 where
  moved : HttpContext → HttpContext → Move
  thrown : HttpContext → Move

-- `memmove(ptr, ptr + from, n)`
unfoldable pub move_down : ℕ → ℕ → List ℕ → List ℕ
move_down from n mem = take n (drop from mem) ++ drop n mem

unfoldable pub former_of : HttpContext → HttpContext → Buffer → HttpContext
former_of c former b = record former {
  max_buffer_size = c.max_buffer_size;
  buffer = b;
  now_index = c.analysis_index;
  analysis_index = c.analysis_index;
  state = state_done;
  lines = c.lines;
  header_size = c.header_size;
  keep_alive = c.keep_alive;
  chunked = c.chunked;
  content_length = c.content_length;
  now_chunk_size = 0;
  chunk_size_start = false;
  chunk_size_done = false;
  chunks = c.chunks;
}

-- "Move extra." and "Set others."
unfoldable pub next_of : HttpContext → HttpContext
next_of c =
    let extra = (c.now_index + size_limit - c.analysis_index) % size_limit in
    cleared (record c {
      buffer = record c.buffer {
        memory = elim c.buffer.memory [
          | none ↦ none
          | some mem ↦ some (move_down c.analysis_index extra mem)
        ];
      };
      now_index = extra;
    })

-- `reinitForNext(former)` for another context.
unfoldable pub reinit_for_next : HttpContext → Option (List ℕ) → HttpContext → Reading Move
reinit_for_next former malloced c =
    if not (is_good c) then refused else elim (read c.analysis_index c.buffer.memory) [
      | none ↦ beyond
      | some bs ↦ elim (set bs malloced former.buffer) [
        | done b ↦
            if leb (c.analysis_index + (c.now_index + size_limit - c.analysis_index) % size_limit)
              (length (bytes c))
            then got (moved (former_of c former b) (next_of c))
            else beyond
        | threw b ↦ got (thrown (record former { max_buffer_size = c.max_buffer_size; buffer = b }))
        | fault ↦ beyond
      ]
    ]
