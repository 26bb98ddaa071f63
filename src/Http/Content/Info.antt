-- ===== src/Http/Content/Info.antt =====
-- `getInfo` and `getParameter` of http_context.h.
use mathlib.Core.List.{reverse}
use network_pool.Common.{
  ℕ, ◌≡◌, refl, ◌∙◌, true, false, Option, none, some, List, [], ◌∷◌, ◌++◌, arith, take, drop, ◌==◌,
}
use network_pool.Http.{state_done, Line, HttpContext, bytes}
use network_pool.Http.Content.{
  got, beyond, text_to_null, cut_line, first_line, get_info, parameters, get_parameter,
}
use network_pool.Http.Content.Next.Parting.{is_good_lem}
use network_pool.Http.Safety.{LinesIn, IsSafe}
use network_pool.Http.Safety.Lines.{line_at-some, LinesIn-reverse}
use network_pool.Http.Text.{split_char, split_line}

-- Neither the character nor a null is among the bytes.
abbrev pub Lacks : ℕ → List ℕ → Type 0
Lacks ch [] = Unit
Lacks ch (x ∷ xs) = ((x == ch) ≡ false) × ((x == 0) ≡ false) × Lacks ch xs

abbrev pub HasNoNull : List ℕ → Type 0
HasNoNull = Lacks 0

equal_lem : (n : ℕ) → (n == n) ≡ true
equal_lem n = ground arith

pub split_char-first :
    (ch : ℕ) (xs ys : List ℕ) → Lacks ch xs → split_char ch (xs ++ ch ∷ ys) ≡ some (xs, ys)
unfolding split_char
split_char-first ch [] ys h = rw (equal_lem ch) refl
split_char-first ch (x ∷ xs) ys (e, f, h) = rw (e, f, split_char-first ch xs ys h) refl

pub split_char-none : (ch : ℕ) (xs : List ℕ) → Lacks ch xs → split_char ch xs ≡ none
unfolding split_char
split_char-none ch [] h = refl
split_char-none ch (x ∷ xs) (e, f, h) = rw (e, f, split_char-none ch xs h) refl

text_to_null_lem : (xs rest : List ℕ) → HasNoNull xs → text_to_null (xs ++ 0 ∷ rest) ≡ some xs
unfolding text_to_null
text_to_null_lem [] rest h = refl
text_to_null_lem (x ∷ xs) rest (e, _, h) = rw (e, text_to_null_lem xs rest h) refl

-- The first line of the message is the text.
pub record StartsWith (line : List ℕ) (c : HttpContext) : Type 0 where
  pub start : ℕ
  pub size : Option ℕ
  pub others : List Line
  pub rest : List ℕ
  pub first : reverse c.lines ≡ (start, size) ∷ others
  pub text : drop start (bytes c) ≡ line ++ 0 ∷ rest
  pub no_null : HasNoNull line

first_line_lem :
    (line : List ℕ) (c : HttpContext)
    → c.state ≡ state_done
    → StartsWith line c
    → get_info c ≡ cut_line line
unfolding get_info first_line
first_line_lem line c s h =
    rw (is_good_lem c s, h.first, first_line, h.text, text_to_null_lem line h.rest h.no_null) refl

-- `getInfo` of a complete message gives back the three words that its first line was made of, with
-- single spaces between them and without a space in the first two.
pub get_info_lem :
    (a b d : List ℕ) (c : HttpContext)
    → c.state ≡ state_done
    → StartsWith (a ++ 32 ∷ (b ++ 32 ∷ d)) c
    → Lacks 32 a
    → Lacks 32 b
    → get_info c ≡ got (a, b, d)
unfolding cut_line
get_info_lem a b d c s h u v =
    first_line_lem (a ++ 32 ∷ (b ++ 32 ∷ d)) c s h
    ∙ rw (cut_line, split_char-first 32 a (b ++ 32 ∷ d) u, split_char-first 32 b d v) refl

-- Where the first line of a complete message has one space only, `getInfo` does not return false: it
-- goes on with a null pointer.
pub get_info-one_space :
    (a b : List ℕ) (c : HttpContext)
    → c.state ≡ state_done
    → StartsWith (a ++ 32 ∷ b) c
    → Lacks 32 a
    → Lacks 32 b
    → get_info c ≡ beyond
unfolding cut_line
get_info-one_space a b c s h u v =
    first_line_lem (a ++ 32 ∷ b) c s h
    ∙ rw (cut_line, split_char-first 32 a b u, split_char-none 32 b v) refl

-- The texts of the lines of known length.
unfoldable pub texts : List Line → List ℕ → List (List ℕ)
texts [] mem = []
texts ((start, none) ∷ ls) mem = texts ls mem
texts ((start, some n) ∷ ls) mem = take n (drop start mem) ∷ texts ls mem

-- The names and values of the texts that have both.
unfoldable pub pairs : List (List ℕ) → List (List ℕ × List ℕ)
pairs [] = []
pairs (cs ∷ css) = elim (split_line cs) [ none ↦ pairs css | some p ↦ p ∷ pairs css ]

parameters_lem :
    (i : ℕ) (mem : List ℕ) (ls : List Line)
    → LinesIn mem i ls
    → parameters ls mem ≡ some (pairs (texts ls mem))
unfolding parameters pairs texts
parameters_lem i mem [] h = refl
parameters_lem i mem ((start, none) ∷ ls) h = parameters_lem i mem ls h
parameters_lem i mem ((start, some n) ∷ ls) h =
    rw (parameters, line_at-some start n mem h.0)
      (go (split_line (take n (drop start mem))) (parameters ls mem) (parameters_lem i mem ls h.2))
  where
    go :
        (o : Option (List ℕ × List ℕ)) (r : Option (List (List ℕ × List ℕ)))
        → r ≡ some (pairs (texts ls mem))
        → (elim o [ none ↦ r | some p ↦ elim r [ none ↦ none | some ps ↦ some (p ∷ ps) ] ])
          ≡ some (elim o [ none ↦ pairs (texts ls mem) | some p ↦ p ∷ pairs (texts ls mem) ])
    go none r e = e
    go (some p) r e = rw e refl

-- `getParameter` of a complete message that is safe reads within the memory. It gives the names and
-- the values of the lines of known length, in the order of the lines, leaving out the lines that
-- have no name or no value.
pub get_parameter_lem :
    (c : HttpContext)
    → c.state ≡ state_done
    → IsSafe c
    → get_parameter c ≡ got (pairs (texts (reverse c.lines) (bytes c)))
unfolding get_parameter
get_parameter_lem c s h =
    rw
      (
        is_good_lem c s,
        parameters_lem c.analysis_index (bytes c) (reverse c.lines)
            (LinesIn-reverse c.analysis_index (bytes c) c.lines h.stored.lines),
      )
      refl
