-- ===== src/Http/Safety.antt =====
-- `analysis` (http_context.h) stays within the bytes that have arrived.
pub mod Lines
pub mod Ends
pub mod Steps
use network_pool.Common.{
  ℕ, ◌+◌, ◌-◌, ◌≤◌, ◌<◌, ◌≡◌, ◌≢◌, Option, none, some, List, [], ◌∷◌, length, get_elem?,
}
use network_pool.Http.{
  State, state_start, state_read_header, state_read_body, state_read_chunk_header,
  state_read_chunk_body, state_read_chunk_footer, state_done, state_bad, Line, HttpContext, bytes,
  size_limit,
}
use network_pool.Http.Analysis.{Advance, again, wait, over, fault}
use network_pool.Http.Memory.{IsNull}

-- Each line of known length ends with a null before the index.
abbrev pub LinesIn : List ℕ → ℕ → List Line → Type 0
LinesIn mem i [] = Unit
LinesIn mem i ((start, none) ∷ ls) = LinesIn mem i ls
LinesIn mem i ((start, some n) ∷ ls) = IsNull mem (start + n) × (start + n < i) × LinesIn mem i ls

-- The newest line starts at the memory's start, or after a null.
abbrev pub IsOpen : List ℕ → ℕ → List Line → Type 0
IsOpen mem i [] = ⊥
IsOpen mem i ((start, n?) ∷ ls) = (start ≤ i) × (0 < start → IsNull mem (start - 1))

-- What each state knows of the index and of the newest line.
abbrev pub StateIn : State → List ℕ → ℕ → List Line → Type 0
StateIn state_read_header mem i ls = IsOpen mem i ls × (i ≡ 0 → get_elem? mem 0 ≢ some 10)
StateIn state_read_body mem i ls = 0 < i
StateIn state_done mem i ls = 0 < i
StateIn state_read_chunk_header mem i ls = 0 < i
StateIn state_read_chunk_body mem i ls = 0 < i
StateIn state_read_chunk_footer mem i ls = IsOpen mem i ls × (0 < i)
StateIn _ mem i ls = Unit

-- The indices lie within the memory, and the lines before the index.
pub record Within (now i : ℕ) (mem : List ℕ) (ls : List Line) : Type 0 where
  pub reached : i ≤ now
  pub stored : now ≤ length mem
  pub small : now < size_limit
  pub lines : LinesIn mem i ls

abbrev pub IsStored : HttpContext → Type 0
IsStored c = Within c.now_index c.analysis_index (bytes c) c.lines

pub record IsSafe (c : HttpContext) : Type 0 where
  pub stored : IsStored c
  pub state : StateIn c.state (bytes c) c.analysis_index c.lines

abbrev pub Keeps : Advance → Type 0
Keeps (again c) = IsSafe c
Keeps (wait c) = IsSafe c
Keeps (over c) = IsSafe c
Keeps fault = ⊥
