-- ===== src/Http/Progress/Steps.antt =====
-- Each pass of `analysis` (http_context.h) takes a byte, or leaves a state that takes none.
use network_pool.Common.{
  ℕ, suc, ◌-◌, ◌<◌, ◌≡◌, refl, ◌∙◌, ap, false, not, arith, leb, ◌==◌, if_both, leb-cases, inl, inr,
}
use network_pool.Http.{
  State, state_start, state_read_header, state_read_body, state_read_chunk_header,
  state_read_chunk_body, state_read_chunk_footer, state_done, state_bad, HttpContext,
}
use network_pool.Http.Analysis.{
  Advance, again, zero_at, end_of_line, end_last, forward, in_start, in_header, in_body,
  in_chunk_header, with_ending, in_chunk_body, in_chunk_footer, if_more, step_in, step,
}
use network_pool.Http.Memory.{size_byte-Post}
use network_pool.Http.Progress.{
  weight, is_final, Falls, with_byte-any, end_of_line-any, nulled_index, nulled_now, nulled_state,
  header_line-Falls, footer_line-Falls, size_line-Falls, bad-Falls,
}

module _ (c : HttpContext) (lt : c.analysis_index < c.now_index) where
  in_start-Falls : c.state ≡ state_start → Falls c.now_index (weight c) (in_start c)
  unfolding in_start
  in_start-Falls s =
      if_both (Falls c.now_index (weight c)) (not (c.analysis_index == 0)) (bad-Falls c (weight c))
        (with_byte-any (Falls c.now_index (weight c)) 0 c _ tt (λ ch.
          if_both (Falls c.now_index (weight c)) (ch == 10) (bad-Falls c (weight c))
            (refl, rw s (omega arith))))

  -- A byte that is no newline.
  forward-Falls :
      (d : HttpContext)
      → d.now_index ≡ c.now_index
      → d.analysis_index ≡ c.analysis_index
      → d.state ≡ c.state
      → Falls c.now_index (weight c) (again (forward d))
  forward-Falls d e f s = (e, rw s (omega (arith, e, f, lt)))

  -- The end of a line.
  line-Falls :
      (k : HttpContext → Advance)
      → ((d : HttpContext)
          → d.now_index ≡ c.now_index
          → d.analysis_index ≡ c.analysis_index
          → d.state ≡ c.state
          → Falls c.now_index (weight c) (k d))
      → Falls c.now_index (weight c) (end_of_line c k)
  line-Falls k h =
      end_of_line-any (Falls c.now_index (weight c)) c k tt (bad-Falls c (weight c)) (λ i.
        h (zero_at (suc i) (zero_at i c)) (nulled_now i c) (nulled_index i c) (nulled_state i c))

  in_header-Falls : c.state ≡ state_read_header → Falls c.now_index (weight c) (in_header c)
  unfolding in_header
  in_header-Falls s = with_byte-any (Falls c.now_index (weight c)) c.analysis_index c _ tt (λ ch.
      if_both (Falls c.now_index (weight c)) (ch == 10)
        (line-Falls _ (λ d e f t.
          header_line-Falls (end_last d.analysis_index d.lines) d c.now_index (weight c) e (t ∙ s)
            (omega (arith, e, f, lt))))
        (forward-Falls c refl refl refl))

  in_chunk_footer-Falls :
      c.state ≡ state_read_chunk_footer → Falls c.now_index (weight c) (in_chunk_footer c)
  unfolding in_chunk_footer
  in_chunk_footer-Falls s =
      with_byte-any (Falls c.now_index (weight c)) c.analysis_index c _ tt (λ ch.
        if_both (Falls c.now_index (weight c)) (ch == 10)
          (line-Falls _ (λ d e f t.
            footer_line-Falls (end_last d.analysis_index d.lines) d c.now_index (weight c) e (t ∙ s)
              (omega (arith, e, f, lt))))
          (forward-Falls c refl refl refl))

  in_chunk_header-Falls : Falls c.now_index (weight c) (in_chunk_header c)
  unfolding in_chunk_header
  in_chunk_header-Falls =
      with_byte-any (Falls c.now_index (weight c)) c.analysis_index c _ tt (λ ch.
        if_both (Falls c.now_index (weight c)) (ch == 10)
          (line-Falls _
            (λ d e f t. size_line-Falls d c.now_index (weight c) e (omega (arith, e, f, lt))))
          (size_byte-Post (λ d. Falls c.now_index (weight c) (again (forward d))) ch c
            (λ n s d.
              forward-Falls
                (record c { now_chunk_size = n; chunk_size_start = s; chunk_size_done = d }) refl
                refl refl)))

in_body-Falls :
    (c : HttpContext) → c.state ≡ state_read_body → Falls c.now_index (weight c) (in_body c)
unfolding in_body
in_body-Falls c s =
    if_both (Falls c.now_index (weight c)) (leb c.content_length (c.now_index - c.analysis_index))
      (refl, refl) (refl, ap is_final s)

in_chunk_body-Falls :
    (c : HttpContext)
    → c.state ≡ state_read_chunk_body
    → Falls c.now_index (weight c) (in_chunk_body c)
unfolding in_chunk_body
in_chunk_body-Falls c s =
    if_both (Falls c.now_index (weight c))
      (leb (with_ending c.now_chunk_size) (c.now_index - c.analysis_index))
      (refl, rw s (omega arith)) (refl, ap is_final s)

if_more-Falls :
    (c : HttpContext) (w : ℕ) (a : Advance)
    → is_final c.state ≡ false
    → (c.analysis_index < c.now_index → Falls c.now_index w a)
    → Falls c.now_index w (if_more c a)
unfolding if_more
if_more-Falls c w a n h = elim (leb-cases c.now_index c.analysis_index) [
  | inl (t, le) ↦ rw t (refl, n)
  | inr (t, lt) ↦ rw t (h lt)
]

step_in-Falls :
    (st : State) (c : HttpContext) → c.state ≡ st → Falls c.now_index (weight c) (step_in st c)
unfolding step_in
step_in-Falls state_start c s =
    if_more-Falls c (weight c) _ (ap is_final s) (λ lt. in_start-Falls c lt s)
step_in-Falls state_read_header c s =
    if_more-Falls c (weight c) _ (ap is_final s) (λ lt. in_header-Falls c lt s)
step_in-Falls state_read_body c s =
    if_more-Falls c (weight c) _ (ap is_final s) (λ lt. in_body-Falls c s)
step_in-Falls state_read_chunk_header c s =
    if_more-Falls c (weight c) _ (ap is_final s) (λ lt. in_chunk_header-Falls c lt)
step_in-Falls state_read_chunk_body c s =
    if_more-Falls c (weight c) _ (ap is_final s) (λ lt. in_chunk_body-Falls c s)
step_in-Falls state_read_chunk_footer c s =
    if_more-Falls c (weight c) _ (ap is_final s) (λ lt. in_chunk_footer-Falls c lt s)
step_in-Falls state_done c s = (refl, ap is_final s)
step_in-Falls state_bad c s = (refl, ap is_final s)

pub step-Falls : (c : HttpContext) → Falls c.now_index (weight c) (step c)
unfolding step
step-Falls c = step_in-Falls c.state c refl
