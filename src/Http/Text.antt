-- ===== src/Http/Text.antt =====
-- The functions of the C library on text that http_context.h uses, on the bytes of one line, and
-- the cut of a line into its name and its value.
use network_pool.Common.{
  ℕ, ◌+◌, ◌-◌, ◌*◌, ◌%◌, Bool, true, false, ◌&&◌, ◌||◌, Option, none, some, List, [], ◌∷◌, ltb, leb,
  ◌==◌, if◌then◌else◌,
}
use network_pool.Http.{size_limit}
use mathlib.Core.List.{reverse}

-- `isspace` in the locale "C"
unfoldable pub is_space : ℕ → Bool
is_space c = (c == 32) || (leb 9 c && leb c 13)

-- The bytes from the first that is no space.
unfoldable pub skip_spaces : List ℕ → List ℕ
skip_spaces [] = []
skip_spaces (c ∷ cs) = if is_space c then skip_spaces cs else c ∷ cs

-- The bytes up to the last that is no space.
unfoldable pub trim_end : List ℕ → List ℕ
trim_end cs = reverse (skip_spaces (reverse cs))

-- `strchr`: the bytes before the character and those after it. A null ends the text.
unfoldable pub split_char : ℕ → List ℕ → Option (List ℕ × List ℕ)
split_char ch [] = none
split_char ch (c ∷ cs) =
    let rest = split_char ch cs in
    if c == ch
    then some ([], cs)
    else if c == 0
    then none
    else elim rest [ none ↦ none | some (before, after) ↦ some (c ∷ before, after) ]

-- The name and the value of a line; `none` where the source goes on with the next line.
unfoldable pub split_line : List ℕ → Option (List ℕ × List ℕ)
split_line cs = elim (split_char 58 (skip_spaces cs)) [
  | none ↦ none
  | some ([], after) ↦ none
  | some (c ∷ before, after) ↦ elim (skip_spaces after) [
    | [] ↦ none
    | d ∷ ds ↦ some (trim_end (c ∷ before), trim_end (d ∷ ds))
  ]
]

unfoldable pub to_lower : ℕ → ℕ
to_lower c = if leb 65 c && leb c 90 then c + 32 else c

-- The comparison of length and `_strnicmp` with a text in lower case.
unfoldable pub is_text : List ℕ → List ℕ → Bool
is_text [] [] = true
is_text (t ∷ ts) (c ∷ cs) = (to_lower c == t) && is_text ts cs
is_text ts cs = false

unfoldable pub digits : ℕ → List ℕ → ℕ
digits n [] = n
digits n (c ∷ cs) =
    let more = digits (n * 10 + (c - 48)) cs in if leb 48 c && leb c 57 then more else n

-- An `int` as a `size_t`, by the low 32 bits of the value.
unfoldable pub int_to_size : ℕ → ℕ
int_to_size n =
    let low = n % 4294967296 in if ltb low 2147483648 then low else size_limit - (4294967296 - low)

unfoldable pub negate : ℕ → ℕ
negate n = (4294967296 - n % 4294967296) % 4294967296

-- `(size_t)atoi(text)`. A value that no `int` holds is undefined in C: here it is cut to 32 bits.
unfoldable pub atoi : List ℕ → ℕ
atoi cs = elim (skip_spaces cs) [
  | [] ↦ 0
  | d ∷ ds ↦
      if d == 45
      then int_to_size (negate (digits 0 ds))
      else if d == 43
      then int_to_size (digits 0 ds)
      else int_to_size (digits 0 (d ∷ ds))
]
