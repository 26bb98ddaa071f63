-- ===== src/Http/Receive/Kept.antt =====
-- A ChttpContext (http_context.h) whose memory changes only where nothing has been received.
use network_pool.Common.{
  ℕ, ◌+◌, ◌-◌, ◌≤◌, ◌<◌, ◌≡◌, refl, sym, ◌∙◌, none, some, List, [], ◌∷◌, arith, length, take,
  get_elem?, get_elem?-same,
}
use network_pool.Buffer.{Buffer}
use network_pool.Http.{
  State, state_start, state_read_header, state_read_body, state_read_chunk_header,
  state_read_chunk_body, state_read_chunk_footer, state_done, state_bad, Line, HttpContext, bytes,
  bytes_in,
}
use network_pool.Http.Safety.{LinesIn, IsOpen, StateIn, IsSafe}

-- A context that reads a header has received a byte.
abbrev pub IsBegun : HttpContext → Type 0
IsBegun c = c.state ≡ state_read_header → 0 < c.now_index

module _ (now : ℕ) (mem mem' : List ℕ) (same : take now mem' ≡ take now mem) where
  kept : (k : ℕ) → k < now → get_elem? mem' k ≡ get_elem? mem k
  kept k lt = get_elem?-same now k mem' mem same lt

  LinesIn-kept : (i : ℕ) (ls : List Line) → i ≤ now → LinesIn mem i ls → LinesIn mem' i ls
  LinesIn-kept i [] le h = tt
  LinesIn-kept i ((start, none) ∷ ls) le h = LinesIn-kept i ls le h
  LinesIn-kept i ((start, some n) ∷ ls) le h =
      (kept (start + n) (omega (arith, h.1, le)) ∙ h.0, h.1, LinesIn-kept i ls le h.2)

  IsOpen-kept : (i : ℕ) (ls : List Line) → i ≤ now → IsOpen mem i ls → IsOpen mem' i ls
  IsOpen-kept i [] le h = h
  IsOpen-kept i ((start, n) ∷ ls) le h =
      (h.0, λ pos. kept (start - 1) (omega (arith, h.0, le, pos)) ∙ h.1 pos)

  StateIn-kept :
      (st : State) (i : ℕ) (ls : List Line)
      → i ≤ now
      → (st ≡ state_read_header → 0 < now)
      → StateIn st mem i ls
      → StateIn st mem' i ls
  StateIn-kept state_start i ls le b h = tt
  StateIn-kept state_read_header i ls le b h =
      (IsOpen-kept i ls le h.0, λ z e. h.1 z (sym (kept 0 (b refl)) ∙ e))
  StateIn-kept state_read_body i ls le b h = h
  StateIn-kept state_read_chunk_header i ls le b h = h
  StateIn-kept state_read_chunk_body i ls le b h = h
  StateIn-kept state_read_chunk_footer i ls le b h = (IsOpen-kept i ls le h.0, h.1)
  StateIn-kept state_done i ls le b h = h
  StateIn-kept state_bad i ls le b h = tt

-- A safe context with another buffer that starts with what has been received is safe.
pub IsSafe-kept :
    (c : HttpContext) (b : Buffer)
    → take c.now_index (bytes_in b.memory) ≡ take c.now_index (bytes c)
    → c.now_index ≤ length (bytes_in b.memory)
    → IsBegun c
    → IsSafe c
    → IsSafe (record c { buffer = b })
IsSafe-kept c b same le begun h = record {
  stored = record {
    reached = h.stored.reached;
    stored = le;
    small = h.stored.small;
    lines =
        LinesIn-kept c.now_index (bytes c) (bytes_in b.memory) same c.analysis_index c.lines
          h.stored.reached h.stored.lines;
  };
  state =
      StateIn-kept c.now_index (bytes c) (bytes_in b.memory) same c.state c.analysis_index c.lines
        h.stored.reached begun h.state;
}
