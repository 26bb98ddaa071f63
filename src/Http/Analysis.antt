-- ===== src/Http/Analysis.antt =====
-- `analysis` of http_context.h. `step` is one pass from `_again`, or one round of a loop over the
-- bytes: the test of such a loop and the first test after `_again` are the same, so a loop that
-- ends returns false there. An access outside of the memory is a fault.
use network_pool.Common.{
  ℕ, zero, suc, ◌+◌, ◌-◌, ◌*◌, ◌%◌, Bool, true, false, not, ◌&&◌, ◌||◌, Option, none, some, List,
  [], ◌∷◌, get_elem?, set_elem, ltb, leb, ◌==◌, if◌then◌else◌,
}
use network_pool.Http.{
  State, state_start, state_read_header, state_read_body, state_read_chunk_header,
  state_read_chunk_body, state_read_chunk_footer, state_done, state_bad, Line, HttpContext, bytes,
  size_limit,
}
use network_pool.Http.Header.{decoder_header}
use network_pool.Http.Text.{is_space}

-- `goto _again`, a return of false or of true, or an access outside of the memory.
pub data Advance : Type 0 where
  again wait over : HttpContext → Advance
  fault : Advance

-- `ptr[i]`
unfoldable pub with_byte : ℕ → HttpContext → (ℕ → Advance) → Advance
with_byte i c k = elim (get_elem? (bytes c) i) [ none ↦ fault | some ch ↦ k ch ]

unfoldable pub zero_at : ℕ → HttpContext → HttpContext
zero_at i c = record c {
  buffer = record c.buffer {
    memory = elim c.buffer.memory [ none ↦ none | some mem ↦ some (set_elem i 0 mem) ];
  };
}

unfoldable pub bad : HttpContext → Advance
bad c = over (record c { state = state_bad })

-- At a newline: "Null-terminate the line." where a return stands before it.
unfoldable pub end_of_line : HttpContext → (HttpContext → Advance) → Advance
end_of_line c k = elim c.analysis_index [
  | zero ↦ fault
  | suc i ↦
      with_byte i c
        (λ before. if not (before == 13) then bad c else k (zero_at (suc i) (zero_at i c)))
]

-- `lastLine.second = m_analysisIndex - 1 - lastLine.first`
unfoldable pub line_length : ℕ → ℕ → ℕ
line_length i start = (i + size_limit - 1 - start) % size_limit

-- The last line gets its length: whether it is empty and thus gone, and the lines.
unfoldable pub end_last : ℕ → List Line → Option (Bool × List Line)
end_last i [] = none
end_last i ((start, n?) ∷ ls) = some (
    if line_length i start == 0
    then (true, ls)
    else (false, (start, some (line_length i start)) ∷ ls))

-- `++m_analysisIndex`
abbrev pub forward : HttpContext → HttpContext
forward c = record c { analysis_index = c.analysis_index + 1 }

unfoldable pub in_start : HttpContext → Advance
in_start c =
    if not (c.analysis_index == 0)
    then bad c
    else with_byte 0 c (λ ch.
      if ch == 10
      then bad c
      else again (record c { state = state_read_header; lines = (0, none) ∷ c.lines }))

-- After a line of the header: the end of the header, or the next line.
unfoldable pub header_line : Option (Bool × List Line) → HttpContext → Advance
header_line none c = fault
header_line (some (true, ls)) c =
    let d = record (forward c) { lines = ls; header_size = c.analysis_index + 1 } in
    elim (decoder_header d) [ none ↦ fault | some e ↦ again e ]
header_line (some (false, ls)) c =
    again (record (forward c) { lines = (c.analysis_index + 1, none) ∷ ls })

unfoldable pub in_header : HttpContext → Advance
in_header c = with_byte c.analysis_index c (λ ch.
    if ch == 10
    then end_of_line c (λ d. header_line (end_last d.analysis_index d.lines) d)
    else again (forward c))

unfoldable pub in_body : HttpContext → Advance
in_body c =
    if leb c.content_length (c.now_index - c.analysis_index)
    then over (record c {
      chunks = (c.analysis_index, c.content_length) ∷ c.chunks;
      analysis_index = c.analysis_index + c.content_length;
      state = state_done;
    })
    else wait c

-- The value of a hexadecimal digit.
unfoldable pub hex_digit : ℕ → Option ℕ
hex_digit ch =
    if leb 48 ch && leb ch 57
    then some (ch - 48)
    else if leb 97 ch && leb ch 102
    then some (ch - 97 + 10)
    else if leb 65 ch && leb ch 70
    then some (ch - 65 + 10)
    else none

-- A byte of the line with the size of a chunk.
unfoldable pub size_byte : ℕ → HttpContext → HttpContext
size_byte ch c = if c.chunk_size_done then c else elim (hex_digit ch) [
  | some d ↦ record c {
    now_chunk_size = (c.now_chunk_size * 16 + d) % size_limit;
    chunk_size_start = true;
  }
  | none ↦
      if c.chunk_size_start || not (is_space ch) then record c { chunk_size_done = true } else c
]

-- The end of that line: the chunk, or after the last chunk the footer.
unfoldable pub size_line : HttpContext → Advance
size_line c =
    let d = forward c in
    if ltb 0 c.now_chunk_size
    then again (record d { state = state_read_chunk_body })
    else again
        (record d { state = state_read_chunk_footer; lines = (d.analysis_index, none) ∷ d.lines })

unfoldable pub in_chunk_header : HttpContext → Advance
in_chunk_header c =
    with_byte c.analysis_index c
      (λ ch. if ch == 10 then end_of_line c size_line else again (forward (size_byte ch c)))

-- `m_nowChunkSize + 2` on `size_t`
unfoldable pub with_ending : ℕ → ℕ
with_ending n = (n + 2) % size_limit

unfoldable pub in_chunk_body : HttpContext → Advance
in_chunk_body c =
    if leb (with_ending c.now_chunk_size) (c.now_index - c.analysis_index)
    then again (record c {
      chunks = (c.analysis_index, c.now_chunk_size) ∷ c.chunks;
      analysis_index = c.analysis_index + with_ending c.now_chunk_size;
      state = state_read_chunk_header;
      now_chunk_size = 0;
      chunk_size_start = false;
      chunk_size_done = false;
    })
    else wait c

-- After a line of the footer: the end of the message, or the next line.
unfoldable pub footer_line : Option (Bool × List Line) → HttpContext → Advance
footer_line none c = fault
footer_line (some (true, ls)) c = over (record (forward c) { lines = ls; state = state_done })
footer_line (some (false, ls)) c =
    again (record (forward c) { lines = (c.analysis_index + 1, none) ∷ ls })

unfoldable pub in_chunk_footer : HttpContext → Advance
in_chunk_footer c = with_byte c.analysis_index c (λ ch.
    if ch == 10
    then end_of_line c (λ d. footer_line (end_last d.analysis_index d.lines) d)
    else again (forward c))

-- "First check whether something to decode."
unfoldable pub if_more : HttpContext → Advance → Advance
if_more c a = if leb c.now_index c.analysis_index then wait c else a

unfoldable pub step_in : State → HttpContext → Advance
step_in state_start c = if_more c (in_start c)
step_in state_read_header c = if_more c (in_header c)
step_in state_read_body c = if_more c (in_body c)
step_in state_read_chunk_header c = if_more c (in_chunk_header c)
step_in state_read_chunk_body c = if_more c (in_chunk_body c)
step_in state_read_chunk_footer c = if_more c (in_chunk_footer c)
step_in state_done c = over c
step_in state_bad c = over c

unfoldable pub step : HttpContext → Advance
step c = step_in c.state c

-- What `analysis` returns with the context, an access outside of the memory, or no more fuel.
pub data Analysis : Type 0 where
  returned : Bool → HttpContext → Analysis
  faulted stuck : Analysis

unfoldable pub analyse : ℕ → HttpContext → Analysis
analyse zero c = stuck
analyse (suc fuel) c = elim (step c) [
  | again d ↦ analyse fuel d
  | wait d ↦ returned false d
  | over d ↦ returned true d
  | fault ↦ faulted
]

-- Each byte is met in at most two rounds.
unfoldable pub rounds : HttpContext → ℕ
rounds c = 2 * (c.now_index - c.analysis_index) + 2

-- `analysis()`
unfoldable pub analysis : HttpContext → Analysis
analysis c = analyse (rounds c) c
