-- ===== src/Http/Safety/Lines.antt =====
-- The lines of a message and the header (http_context.h) within the memory.
use mathlib.Core.List.{reverse, reverse-append}
use network_pool.Common.{
  ℕ, suc, ◌+◌, ◌-◌, ◌≤◌, ◌<◌, ◌≡◌, refl, sym, subst, Bool, true, false, Option, none, some, List,
  [], ◌∷◌, ◌++◌, arith, length, take, drop, get_elem?, ltb, ◌==◌, if_both, Bool-cases, leb-cases,
  ◌∙◌, inl, inr,
}
use network_pool.Http.{Line, HttpContext, bytes, size_limit}
use network_pool.Http.Analysis.{line_length, end_last}
use network_pool.Http.Header.{
  Fields, line_at, decode_text, decode_lines, switch_state, decoder_header,
}
use network_pool.Http.Memory.{IsNull, nulled, nulled-IsNull, nulled-first}
use network_pool.Http.Safety.{LinesIn, IsOpen, Within}

pub LinesIn-nulled :
    (k i j : ℕ) (mem : List ℕ) (ls : List Line)
    → i ≤ j
    → LinesIn mem i ls
    → LinesIn (nulled k mem) j ls
LinesIn-nulled k i j mem [] le h = tt
LinesIn-nulled k i j mem ((start, none) ∷ ls) le h = LinesIn-nulled k i j mem ls le h
LinesIn-nulled k i j mem ((start, some n) ∷ ls) le h =
    (nulled-IsNull k (start + n) mem h.0, omega arith, LinesIn-nulled k i j mem ls le h.2)

pub LinesIn-le :
    (i j : ℕ) (mem : List ℕ) (ls : List Line) → i ≤ j → LinesIn mem i ls → LinesIn mem j ls
LinesIn-le i j mem [] le h = tt
LinesIn-le i j mem ((start, none) ∷ ls) le h = LinesIn-le i j mem ls le h
LinesIn-le i j mem ((start, some n) ∷ ls) le h = (h.0, omega arith, LinesIn-le i j mem ls le h.2)

LinesIn-concat :
    (i : ℕ) (mem : List ℕ) (ls : List Line) (l : Line)
    → LinesIn mem i ls
    → LinesIn mem i (l ∷ [])
    → LinesIn mem i (ls ++ l ∷ [])
LinesIn-concat i mem [] l h k = k
LinesIn-concat i mem ((start, none) ∷ ls) l h k = LinesIn-concat i mem ls l h k
LinesIn-concat i mem ((start, some n) ∷ ls) l h k = (h.0, h.1, LinesIn-concat i mem ls l h.2 k)

pub LinesIn-reverse :
    (i : ℕ) (mem : List ℕ) (ls : List Line) → LinesIn mem i ls → LinesIn mem i (reverse ls)
LinesIn-reverse i mem [] h = tt
LinesIn-reverse i mem ((start, none) ∷ ls) h =
    rw (reverse-append ((start, none) ∷ []) ls)
      (LinesIn-concat i mem (reverse ls) (start, none) (LinesIn-reverse i mem ls h) tt)
LinesIn-reverse i mem ((start, some n) ∷ ls) h = rw (reverse-append ((start, some n) ∷ []) ls) (
    LinesIn-concat i mem (reverse ls) (start, some n) (LinesIn-reverse i mem ls h.2) (h.0, h.1, tt))

abbrev IsSome {ℓ} : {A : Type ℓ} → Option A → Type 0
IsSome none = ⊥
IsSome (some a) = Unit

pub line_at-some :
    (start n : ℕ) (mem : List ℕ)
    → IsNull mem (start + n)
    → line_at start n mem ≡ some (take n (drop start mem))
unfolding line_at
line_at-some start n mem h = rw (h, line_at)

decode_lines-IsSome :
    (i header_size : ℕ) (mem : List ℕ) (ls : List Line) (f : Fields)
    → LinesIn mem i ls
    → IsSome (decode_lines ls header_size mem f)
unfolding decode_lines
decode_lines-IsSome i m mem [] f h = tt
decode_lines-IsSome i m mem ((start, none) ∷ ls) f h =
    if_both IsSome (ltb m start) tt (decode_lines-IsSome i m mem ls f h)
decode_lines-IsSome i m mem ((start, some n) ∷ ls) f h = if_both IsSome (ltb m start) tt (
    rw (line_at-some start n mem h.0)
      (decode_lines-IsSome i m mem ls (decode_text (take n (drop start mem)) f) h.2))

-- Decoding the header reads within its lines.
pub decoder_header_safe :
    (c : HttpContext) (i : ℕ)
    → LinesIn (bytes c) i c.lines
    → (g : Fields) × (decoder_header c ≡ some (switch_state g c))
unfolding decoder_header
decoder_header_safe c i h = go (decode_lines _ c.header_size (bytes c) _) (
    decode_lines-IsSome i c.header_size (bytes c) (reverse c.lines) _
      (LinesIn-reverse i (bytes c) c.lines h))
  where
    go :
        (o : Option Fields)
        → IsSome o
        → (g : Fields) × ((elim o [ none ↦ none | some g ↦ some (switch_state g c) ])
            ≡ some (switch_state g c))
    go none h = elim h [ ]
    go (some g) h = (g, refl)

-- What `end_last` leaves at the newline `suc k` of a line that was open.
abbrev pub EndsIn : List ℕ → ℕ → Option (Bool × List Line) → Type 0
EndsIn mem k none = ⊥
EndsIn mem k (some (true, ls)) = LinesIn mem (suc k) ls
EndsIn mem k (some (false, ls)) = LinesIn mem (suc k) ls

line_length_lem : (k start : ℕ) → start ≤ k → k < size_limit → start + line_length (suc k) start ≡ k
unfolding line_length
line_length_lem k start h l = omega arith

LinesIn-tail :
    (mem : List ℕ) (i : ℕ) (l : Line) (ls : List Line) → LinesIn mem i (l ∷ ls) → LinesIn mem i ls
LinesIn-tail mem i (start, none) ls h = h
LinesIn-tail mem i (start, some n) ls h = h.2

before_null :
    (mem : List ℕ) (k start : ℕ)
    → start ≤ suc k
    → (0 < start → IsNull mem (start - 1))
    → get_elem? mem k ≡ some 13
    → start ≤ k
before_null mem k start le h e = elim (leb-cases start k) [
  | inl (_, fits) ↦ fits
  | inr (_, lt) ↦
      let at : start - 1 ≡ k = omega arith in
      let null : get_elem? mem k ≡ some 0 = subst (IsNull mem) at (h (omega arith)) in
      absurd (differ (sym null ∙ e))
]
  where
    differ : ◌≡◌ {A = Option ℕ} (some 0) (some 13) → ⊥
    differ p = ground (arith, p)

pub end_last-EndsIn :
    (mem : List ℕ) (k : ℕ) (ls : List Line)
    → suc k < length mem
    → k < size_limit
    → IsOpen mem (suc k) ls
    → LinesIn mem (suc k) ls
    → get_elem? mem k ≡ some 13
    → EndsIn (nulled k mem) k (end_last (suc k) ls)
unfolding end_last
end_last-EndsIn mem k [] lt s o h e = o
end_last-EndsIn mem k ((start, n?) ∷ ls) lt s o h e =
    let le = before_null mem k start o.0 o.1 e in
    let n = line_length_lem k start le s in
    let t =
      LinesIn-nulled k (suc k) (suc k) mem ls (omega arith)
        (LinesIn-tail mem (suc k) (start, n?) ls h) in
    elim (Bool-cases (line_length (suc k) start == 0)) [
      | inl z ↦ rw z t
      | inr z ↦ rw z (rw n (nulled-first k mem (omega arith)), omega (arith, n), t)
    ]

-- A line that has just begun.
pub Within-open :
    {now i : ℕ} {mem : List ℕ} {ls : List Line} (start : ℕ)
    → Within now i mem ls
    → Within now i mem ((start, none) ∷ ls)
Within-open start h = record {
  reached = h.reached;
  stored = h.stored;
  small = h.small;
  lines = h.lines;
}
