-- ===== src/Http/Chunks.antt =====
-- One byte of a chunked body at a time, in `analysis` (http_context.h).
pub mod Lines
pub mod Parts
pub mod Reading
pub mod RoundTrip
pub mod Sizes
use network_pool.Common.{
  ℕ, zero, suc, ◌+◌, ◌-◌, ◌*◌, ◌%◌, ◌≤◌, ◌<◌, ◌≡◌, refl, sym, ap, ◌∙◌, Bool, true, false, not, ◌||◌,
  Option, none, some, List, [], ◌∷◌, arith, length, get_elem?, drop, ltb, leb, ◌==◌, if◌then◌else◌,
  leb-cases, inl, inr,
}
use network_pool.Http.{
  State, state_read_chunk_header, state_read_chunk_body, state_read_chunk_footer, state_done, Line,
  HttpContext, bytes, size_limit,
}
use network_pool.Http.Analysis.{
  Advance, again, wait, over, fault, with_byte, bad, zero_at, end_of_line, forward, hex_digit,
  size_byte, size_line, in_chunk_header, with_ending, in_chunk_body, footer_line, end_last,
  line_length, in_chunk_footer, if_more, step_in, step, returned, analyse, analysis, rounds,
}
use network_pool.Http.Progress.{weight, Falls}
use network_pool.Http.Progress.Steps.{step-Falls}
use network_pool.Http.Rounds.{go_on, analyse_lem, analyse-fuel, weight-rounds}
use network_pool.Http.Text.{is_space}

-- A round that goes on.
pub analysis-again : (c d : HttpContext) → step c ≡ again d → analysis c ≡ analysis d
unfolding analysis
analysis-again c d e =
    analyse-fuel (rounds c) (suc (rounds c)) c (weight-rounds c) (omega (arith, weight-rounds c))
    ∙ analyse_lem (rounds c) c
    ∙ ap (go_on (rounds c)) e
    ∙ analyse-fuel (rounds c) (rounds d) d (lighter (step c) e (step-Falls c)) (weight-rounds d)
  where
    lighter : (a : Advance) → a ≡ again d → Falls c.now_index (weight c) a → weight d < rounds c
    lighter (again x) q f =
        let same : x ≡ d = cc q in
        let w : weight x ≡ weight d = ap weight same in omega (arith, f.1, weight-rounds c, w)
    lighter (wait x) q f = absurd (cc q)
    lighter (over x) q f = absurd (cc q)
    lighter fault q f = absurd (cc q)

-- A round that ends the call.
pub analysis-over : (c d : HttpContext) → step c ≡ over d → analysis c ≡ returned true d
unfolding analysis
analysis-over c d e =
    analyse-fuel (rounds c) (suc (rounds c)) c (weight-rounds c) (omega (arith, weight-rounds c))
    ∙ analyse_lem (rounds c) c
    ∙ ap (go_on (rounds c)) e

-- The next byte of the memory.
pub first-drop :
    (i ch : ℕ) (xs rest : List ℕ)
    → drop i xs ≡ ch ∷ rest
    → (get_elem? xs i ≡ some ch) × (drop (i + 1) xs ≡ rest)
unfolding drop get_elem?
first-drop zero ch [] rest e = absurd (cc e)
first-drop zero ch (x ∷ xs) rest e = (cc e, cc e)
first-drop (suc i) ch [] rest e = absurd (cc e)
first-drop (suc i) ch (x ∷ xs) rest e =
    let r = first-drop i ch xs rest e in
    let k : suc i + 1 ≡ suc (i + 1) = omega arith in (r.0, ap (λ j. drop j (x ∷ xs)) k ∙ r.1)

if_more_lem : (c : HttpContext) (a : Advance) → c.analysis_index < c.now_index → if_more c a ≡ a
unfolding if_more
if_more_lem c a lt = elim (leb-cases c.now_index c.analysis_index) [
  | inl (t, le) ↦ absurd (omega arith)
  | inr (t, _) ↦ rw t refl
]

with_byte_lem :
    (i ch : ℕ) (c : HttpContext) (k : ℕ → Advance)
    → get_elem? (bytes c) i ≡ some ch
    → with_byte i c k ≡ k ch
unfolding with_byte
with_byte_lem i ch c k e = ap (λ o. elim o [ none ↦ fault | some b ↦ k b ]) e

end_of_line_lem :
    (i : ℕ) (c : HttpContext) (k : HttpContext → Advance)
    → c.analysis_index ≡ suc i
    → get_elem? (bytes c) i ≡ some 13
    → end_of_line c k ≡ k (zero_at (suc i) (zero_at i c))
unfolding end_of_line
end_of_line_lem i c k e g =
    ap
      (λ n. elim n [
        | zero ↦ fault
        | suc i ↦
            with_byte i c
              (λ before. if not (before == 13) then bad c else k (zero_at (suc i) (zero_at i c)))
      ])
      e
    ∙ with_byte_lem i 13 c _ g

module _ (c : HttpContext) (s : c.state ≡ state_read_chunk_header)
    (lt : c.analysis_index < c.now_index) where
  step-header : step c ≡ in_chunk_header c
  unfolding step step_in
  step-header = ap (λ st. step_in st c) s ∙ if_more_lem c (in_chunk_header c) lt

  -- A byte of the line of the size that is no newline.
  pub step-size_byte :
      (ch : ℕ)
      → get_elem? (bytes c) c.analysis_index ≡ some ch
      → (ch == 10) ≡ false
      → step c ≡ again (forward (size_byte ch c))
  unfolding in_chunk_header
  step-size_byte ch e n =
      step-header
      ∙ with_byte_lem c.analysis_index ch c _ e
      ∙ ap (λ b. if b then end_of_line c size_line else again (forward (size_byte ch c))) n

  -- The newline behind a return.
  pub step-size_line :
      (i : ℕ)
      → c.analysis_index ≡ suc i
      → get_elem? (bytes c) (suc i) ≡ some 10
      → get_elem? (bytes c) i ≡ some 13
      → step c ≡ size_line (zero_at (suc i) (zero_at i c))
  unfolding in_chunk_header
  step-size_line i e f g =
      step-header
      ∙ with_byte_lem c.analysis_index 10 c _ (ap (get_elem? (bytes c)) e ∙ f)
      ∙ end_of_line_lem i c size_line e g

-- The bytes of a chunk and its ending.
pub step-in_chunk_body :
    (c : HttpContext)
    → c.state ≡ state_read_chunk_body
    → c.now_chunk_size + 2 < size_limit
    → c.analysis_index + (c.now_chunk_size + 2) ≤ c.now_index
    → step c
      ≡ again (record c {
        chunks = (c.analysis_index, c.now_chunk_size) ∷ c.chunks;
        analysis_index = c.analysis_index + (c.now_chunk_size + 2);
        state = state_read_chunk_header;
        now_chunk_size = 0;
        chunk_size_start = false;
        chunk_size_done = false;
      })
unfolding step step_in in_chunk_body with_ending
step-in_chunk_body c s lt le =
    ap (λ st. step_in st c) s
    ∙ if_more_lem c (in_chunk_body c) (omega arith)
    ∙ rw (small, there) refl
  where
    small : (c.now_chunk_size + 2) % size_limit ≡ c.now_chunk_size + 2
    small = omega (arith, lt)

    there : leb (c.now_chunk_size + 2) (c.now_index - c.analysis_index) ≡ true
    there = ground (arith, le)

module _ (c : HttpContext) (s : c.state ≡ state_read_chunk_footer)
    (lt : c.analysis_index < c.now_index) where
  step-footer : step c ≡ in_chunk_footer c
  unfolding step step_in
  step-footer = ap (λ st. step_in st c) s ∙ if_more_lem c (in_chunk_footer c) lt

  -- A byte of the footer that is no newline.
  pub step-forward :
      (ch : ℕ)
      → get_elem? (bytes c) c.analysis_index ≡ some ch
      → (ch == 10) ≡ false
      → step c ≡ again (forward c)
  unfolding in_chunk_footer
  step-forward ch e n =
      step-footer
      ∙ with_byte_lem c.analysis_index ch c _ e
      ∙ ap
          (λ b.
            if b
            then end_of_line c (λ d. footer_line (end_last d.analysis_index d.lines) d)
            else again (forward c))
          n

  -- The empty line that ends the footer.
  pub step-over :
      (i : ℕ) (ls : List Line)
      → c.analysis_index ≡ suc i
      → get_elem? (bytes c) (suc i) ≡ some 10
      → get_elem? (bytes c) i ≡ some 13
      → c.lines ≡ (i, none) ∷ ls
      → i < size_limit
      → step c
        ≡ over (record (forward (zero_at (suc i) (zero_at i c))) { lines = ls; state = state_done })
  unfolding in_chunk_footer footer_line end_last line_length zero_at
  step-over i ls e f g l small =
      step-footer
      ∙ with_byte_lem c.analysis_index 10 c _ (ap (get_elem? (bytes c)) e ∙ f)
      ∙ end_of_line_lem i c (λ d. footer_line (end_last d.analysis_index d.lines) d) e g
      ∙ rw (l, none_there) refl
    where
      none_there : ((c.analysis_index + size_limit - 1 - i) % size_limit == 0) ≡ true
      none_there = ground (arith, e, small)
