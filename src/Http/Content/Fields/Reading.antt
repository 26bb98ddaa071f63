-- ===== src/Http/Content/Fields/Reading.antt =====
-- `getParameter` of http_context.h on the lines of a header as they are written.
use network_pool.Common.{ℕ, Option, none, some, List, [], ◌∷◌}
use network_pool.Http.Text.{skip_spaces, trim_end}

-- What `split_line` does after the search for the colon.
abbrev cut : Option (List ℕ × List ℕ) → Option (List ℕ × List ℕ)
cut none = none
cut (some ([], after)) = none
cut (some (c ∷ before, after)) = elim (skip_spaces after) [
  | [] ↦ none
  | d ∷ ds ↦ some (trim_end (c ∷ before), trim_end (d ∷ ds))
]
