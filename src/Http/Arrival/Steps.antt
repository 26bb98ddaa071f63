-- ===== src/Http/Arrival/Steps.antt =====
-- Each pass of `analysis` (http_context.h) when more has arrived.
use network_pool.Common.{
  ℕ, ◌-◌, ◌≤◌, refl, ap, not, arith, leb, ◌==◌, if◌then◌else◌, leb-cases, inl, inr,
}
use network_pool.Http.{
  State, state_start, state_read_header, state_read_body, state_read_chunk_header,
  state_read_chunk_body, state_read_chunk_footer, state_done, state_bad, HttpContext,
}
use network_pool.Http.Analysis.{
  Advance, again, wait, end_last, forward, in_start, in_header, in_body, in_chunk_header,
  with_ending, in_chunk_body, in_chunk_footer, if_more, step_in, step,
}
use network_pool.Http.Arrival.{
  set_now, Extends, with_byte-Extends, if-Extends, bad-Extends, end_of_line-Extends,
  header_line-Extends, footer_line-Extends, size_line-Extends, size_byte-set_now,
}

-- A round within what has arrived.
module _ (n : ℕ) (c : HttpContext) where
  in_start-Extends : Extends n c (in_start c) (in_start (set_now n c))
  unfolding in_start
  in_start-Extends = if-Extends n c (not (c.analysis_index == 0)) _ _ _ _ (bad-Extends n c c) (
      with_byte-Extends n c 0 c _ _
        (λ ch. if-Extends n c (ch == 10) _ _ _ _ (bad-Extends n c c) refl))

  in_header-Extends : Extends n c (in_header c) (in_header (set_now n c))
  unfolding in_header
  in_header-Extends = with_byte-Extends n c c.analysis_index c _ _ (λ ch.
      if-Extends n c (ch == 10) _ _ _ _
        (end_of_line-Extends n c c _
          (λ e. header_line-Extends n c (end_last e.analysis_index e.lines) e))
        refl)

  in_chunk_footer-Extends : Extends n c (in_chunk_footer c) (in_chunk_footer (set_now n c))
  unfolding in_chunk_footer
  in_chunk_footer-Extends = with_byte-Extends n c c.analysis_index c _ _ (λ ch.
      if-Extends n c (ch == 10) _ _ _ _
        (end_of_line-Extends n c c _
          (λ e. footer_line-Extends n c (end_last e.analysis_index e.lines) e))
        refl)

  in_chunk_header-Extends : Extends n c (in_chunk_header c) (in_chunk_header (set_now n c))
  unfolding in_chunk_header
  in_chunk_header-Extends = with_byte-Extends n c c.analysis_index c _ _ (λ ch.
      if-Extends n c (ch == 10) _ _ _ _ (end_of_line-Extends n c c _ (λ e. size_line-Extends n c e))
        (ap (λ d. again (forward d)) (size_byte-set_now ch n c)))

  -- A body that is complete stays complete.
  enough-Extends :
      (size : ℕ) (a a' : Advance)
      → c.now_index ≤ n
      → Extends n c a a'
      → Extends n c
          (if leb size (c.now_index - c.analysis_index) then a else wait c)
          (if leb size (n - c.analysis_index) then a' else wait (set_now n c))
  enough-Extends size a a' le h = elim (leb-cases size (c.now_index - c.analysis_index)) [
    | inr (t, lt) ↦ rw t refl
    | inl (t, le') ↦ elim (leb-cases size (n - c.analysis_index)) [
      | inl (u, _) ↦ rw (t, u) h
      | inr (u, lt) ↦ absurd (omega arith)
    ]
  ]

  in_body-Extends : c.now_index ≤ n → Extends n c (in_body c) (in_body (set_now n c))
  unfolding in_body
  in_body-Extends le = enough-Extends c.content_length _ _ le refl

  in_chunk_body-Extends :
      c.now_index ≤ n → Extends n c (in_chunk_body c) (in_chunk_body (set_now n c))
  unfolding in_chunk_body
  in_chunk_body-Extends le = enough-Extends (with_ending c.now_chunk_size) _ _ le refl

  if_more-Extends :
      (a a' : Advance)
      → c.now_index ≤ n
      → Extends n c a a'
      → Extends n c (if_more c a) (if_more (set_now n c) a')
  unfolding if_more
  if_more-Extends a a' le h = elim (leb-cases c.now_index c.analysis_index) [
    | inl (t, _) ↦ rw t refl
    | inr (t, lt) ↦ elim (leb-cases n c.analysis_index) [
      | inl (u, le') ↦ absurd (omega arith)
      | inr (u, _) ↦ rw (t, u) h
    ]
  ]

  step_in-Extends :
      (st : State) → c.now_index ≤ n → Extends n c (step_in st c) (step_in st (set_now n c))
  unfolding step_in
  step_in-Extends state_start le = if_more-Extends _ _ le in_start-Extends
  step_in-Extends state_read_header le = if_more-Extends _ _ le in_header-Extends
  step_in-Extends state_read_body le = if_more-Extends _ _ le (in_body-Extends le)
  step_in-Extends state_read_chunk_header le = if_more-Extends _ _ le in_chunk_header-Extends
  step_in-Extends state_read_chunk_body le = if_more-Extends _ _ le (in_chunk_body-Extends le)
  step_in-Extends state_read_chunk_footer le = if_more-Extends _ _ le in_chunk_footer-Extends
  step_in-Extends state_done le = refl
  step_in-Extends state_bad le = refl

  pub step-Extends : c.now_index ≤ n → Extends n c (step c) (step (set_now n c))
  unfolding step
  step-Extends le = step_in-Extends c.state le
