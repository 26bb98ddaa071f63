-- ===== src/Http/Parts/Steps.antt =====
-- Each pass of `analysis` (http_context.h) keeps the buffer, and the parts that were found.
use network_pool.Common.{
  suc, ◌-◌, refl, Bool, true, false, not, Option, none, some, List, arith, ltb, leb, ◌==◌, if_both,
}
use network_pool.Http.{
  State, state_start, state_read_header, state_read_body, state_read_chunk_header,
  state_read_chunk_body, state_read_chunk_footer, state_done, state_bad, Line, HttpContext,
}
use network_pool.Http.Analysis.{
  Advance, again, zero_at, bad, end_of_line, end_last, forward, in_start, header_line, in_header,
  in_body, size_line, in_chunk_header, with_ending, in_chunk_body, footer_line, in_chunk_footer,
  if_more, step_in, step,
}
use network_pool.Http.Header.{Fields, switch_state}
use network_pool.Http.Memory.{size_byte-Post}
use network_pool.Http.Progress.{with_byte-any, end_of_line-any, decoder_header-any}
use network_pool.Http.Parts.{Kept, Moves, Kept-Moves, same-Kept, further, zero_at-Kept, After}

module _ (c : HttpContext) where
  bad-After : After c (bad c)
  unfolding bad
  bad-After = Kept-Moves c _ (further c c _ (same-Kept c) refl refl refl (omega arith))

  switch_state-Kept : (g : Fields) (d : HttpContext) → Kept c d → Kept c (switch_state g d)
  unfolding switch_state
  switch_state-Kept g d k =
      if_both (Kept c) g.chunked (further c d _ k refl refl refl (omega arith)) (
        if_both (Kept c) (ltb 0 g.content_length) (further c d _ k refl refl refl (omega arith))
          (further c d _ k refl refl refl (omega arith)))

  header_line-After :
      (r : Option (Bool × List Line)) (d : HttpContext) → Kept c d → After c (header_line r d)
  unfolding header_line
  header_line-After none d k = tt
  header_line-After (some (true, ls)) d k =
      decoder_header-any (After c) _ tt
        (λ g. Kept-Moves c _ (switch_state-Kept g _ (further c d _ k refl refl refl (omega arith))))
  header_line-After (some (false, ls)) d k =
      Kept-Moves c _ (further c d _ k refl refl refl (omega arith))

  footer_line-After :
      (r : Option (Bool × List Line)) (d : HttpContext) → Kept c d → After c (footer_line r d)
  unfolding footer_line
  footer_line-After none d k = tt
  footer_line-After (some (true, ls)) d k =
      Kept-Moves c _ (further c d _ k refl refl refl (omega arith))
  footer_line-After (some (false, ls)) d k =
      Kept-Moves c _ (further c d _ k refl refl refl (omega arith))

  size_line-After : (d : HttpContext) → Kept c d → After c (size_line d)
  unfolding size_line
  size_line-After d k =
      if_both (After c) (ltb 0 d.now_chunk_size)
        (Kept-Moves c _ (further c d _ k refl refl refl (omega arith)))
        (Kept-Moves c _ (further c d _ k refl refl refl (omega arith)))

  -- The end of a line.
  line-After :
      (k : HttpContext → Advance)
      → ((d : HttpContext) → Kept c d → After c (k d))
      → After c (end_of_line c k)
  line-After k h =
      end_of_line-any (After c) c k tt bad-After
        (λ i. h _ (zero_at-Kept (suc i) c (zero_at i c) (zero_at-Kept i c c (same-Kept c))))

  forward-After : (d : HttpContext) → Kept c d → After c (again (forward d))
  forward-After d k = Kept-Moves c _ (further c d _ k refl refl refl (omega arith))

  in_start-After : After c (in_start c)
  unfolding in_start
  in_start-After = if_both (After c) (not (c.analysis_index == 0)) bad-After (
      with_byte-any (After c) 0 c _ tt (λ ch.
        if_both (After c) (ch == 10) bad-After
          (Kept-Moves c _ (further c c _ (same-Kept c) refl refl refl (omega arith)))))

  in_header-After : After c (in_header c)
  unfolding in_header
  in_header-After = with_byte-any (After c) c.analysis_index c _ tt (λ ch.
      if_both (After c) (ch == 10)
        (line-After _ (λ d k. header_line-After (end_last d.analysis_index d.lines) d k))
        (forward-After c (same-Kept c)))

  in_chunk_footer-After : After c (in_chunk_footer c)
  unfolding in_chunk_footer
  in_chunk_footer-After = with_byte-any (After c) c.analysis_index c _ tt (λ ch.
      if_both (After c) (ch == 10)
        (line-After _ (λ d k. footer_line-After (end_last d.analysis_index d.lines) d k))
        (forward-After c (same-Kept c)))

  in_chunk_header-After : After c (in_chunk_header c)
  unfolding in_chunk_header
  in_chunk_header-After = with_byte-any (After c) c.analysis_index c _ tt (λ ch.
      if_both (After c) (ch == 10) (line-After _ (λ d k. size_line-After d k)) (
        size_byte-Post (λ d. After c (again (forward d))) ch c
          (λ n s d.
            forward-After
              (record c { now_chunk_size = n; chunk_size_start = s; chunk_size_done = d })
              (further c c _ (same-Kept c) refl refl refl (omega arith)))))

  in_body-After : After c (in_body c)
  unfolding in_body
  in_body-After =
      if_both (After c) (leb c.content_length (c.now_index - c.analysis_index))
        (record {
          memory = refl;
          length = refl;
          max_length = refl;
          max_buffer_size = refl;
          mild = λ m. m.1;
          apart = λ m h. (omega arith, h);
        })
        (Kept-Moves c c (same-Kept c))

  in_chunk_body-After : After c (in_chunk_body c)
  unfolding in_chunk_body with_ending
  in_chunk_body-After =
      if_both (After c) (leb (with_ending c.now_chunk_size) (c.now_index - c.analysis_index))
        (record {
          memory = refl;
          length = refl;
          max_length = refl;
          max_buffer_size = refl;
          mild = λ m. m.1;
          apart = λ m h. (omega (arith, m.0), h);
        })
        (Kept-Moves c c (same-Kept c))

  if_more-After : (a : Advance) → After c a → After c (if_more c a)
  unfolding if_more
  if_more-After a h =
      if_both (After c) (leb c.now_index c.analysis_index) (Kept-Moves c c (same-Kept c)) h

  step_in-After : (st : State) → After c (step_in st c)
  unfolding step_in
  step_in-After state_start = if_more-After _ in_start-After
  step_in-After state_read_header = if_more-After _ in_header-After
  step_in-After state_read_body = if_more-After _ in_body-After
  step_in-After state_read_chunk_header = if_more-After _ in_chunk_header-After
  step_in-After state_read_chunk_body = if_more-After _ in_chunk_body-After
  step_in-After state_read_chunk_footer = if_more-After _ in_chunk_footer-After
  step_in-After state_done = Kept-Moves c c (same-Kept c)
  step_in-After state_bad = Kept-Moves c c (same-Kept c)

  pub step-After : After c (step c)
  unfolding step
  step-After = step_in-After c.state

pub unmoved : (c : HttpContext) → Moves c c
unmoved c = Kept-Moves c c (same-Kept c)
