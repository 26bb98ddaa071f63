-- ===== src/Http/Safety/Steps.antt =====
-- `analysis` (http_context.h) keeps its indices and lines within the memory, step by step.
use network_pool.Common.{
  ℕ, zero, suc, ◌+◌, ◌-◌, ◌≤◌, ◌<◌, ◌≡◌, ◌≢◌, refl, sym, subst, ◌∙◌, some, List, [], ◌∷◌, arith,
  get_elem?, ◌==◌, Bool-cases, leb-cases, inl, inr,
}
use network_pool.Http.{
  State, state_start, state_read_header, state_read_body, state_read_chunk_header,
  state_read_chunk_body, state_read_chunk_footer, state_done, state_bad, Line, HttpContext, bytes,
}
use network_pool.Http.Analysis.{
  Advance, again, zero_at, end_of_line, end_last, forward, in_start, in_header, in_body,
  in_chunk_header, with_ending, in_chunk_body, in_chunk_footer, if_more, step_in, step,
}
use network_pool.Http.Memory.{size_byte-Post, with_byte-Post, end_of_line-Post}
use network_pool.Http.Safety.{LinesIn, IsOpen, StateIn, IsStored, IsSafe, Keeps}
use network_pool.Http.Safety.Lines.{LinesIn-le, Within-open, EndsIn, end_last-EndsIn}
use network_pool.Http.Safety.Ends.{
  IsNulled, zero_at-IsNulled, bad-Keeps, IsNulled-IsAfter, header_line-Keeps, footer_line-Keeps,
  size_line-Keeps,
}

-- The newline under the index, after a byte that is none.
not_first :
    (i : ℕ) (mem : List ℕ) → (i ≡ 0 → get_elem? mem 0 ≢ some 10) → get_elem? mem i ≡ some 10 → 0 < i
not_first zero mem h e = absurd (h refl e)
not_first (suc i) mem h e = omega arith

suc_of_pos : (i : ℕ) → 0 < i → (k : ℕ) × (i ≡ suc k)
suc_of_pos zero h = absurd (omega arith)
suc_of_pos (suc k) h = (k, refl)

-- A byte of a line that is no newline.
byte-Keeps :
    (c : HttpContext) (ls : List Line)
    → IsStored c
    → c.analysis_index < c.now_index
    → IsOpen (bytes c) c.analysis_index ls
    → IsOpen (bytes c) (c.analysis_index + 1) ls
byte-Keeps c [] h lt o = o
byte-Keeps c ((start, n?) ∷ ls) h lt o = (omega arith, o.1)

forward-Within :
    (c : HttpContext) → IsStored c → c.analysis_index < c.now_index → IsStored (forward c)
forward-Within c h lt = record {
  reached = omega arith;
  stored = h.stored;
  small = h.small;
  lines =
      LinesIn-le c.analysis_index (c.analysis_index + 1) (bytes c) c.lines (omega arith) h.lines;
}

-- The end of a line, in each of the three states that have lines.
newline-Keeps :
    (c : HttpContext) (k : ℕ) (next : HttpContext → Advance)
    → IsStored c
    → c.analysis_index < c.now_index
    → c.analysis_index ≡ suc k
    → ((d : HttpContext) → IsNulled k c d → get_elem? (bytes c) k ≡ some 13 → Keeps (next d))
    → Keeps (end_of_line c next)
newline-Keeps c k next h lt e then_ =
    end_of_line-Post Keeps k c next e (omega (arith, h.stored)) (bad-Keeps c h)
      (λ cr. then_ (zero_at (suc k) (zero_at k c)) (zero_at-IsNulled k c e) cr)

ends_at :
    (k : ℕ) (c d : HttpContext)
    → IsStored c
    → c.analysis_index < c.now_index
    → c.analysis_index ≡ suc k
    → IsNulled k c d
    → IsOpen (bytes c) c.analysis_index c.lines
    → get_elem? (bytes c) k ≡ some 13
    → EndsIn (bytes d) k (end_last d.analysis_index d.lines)
ends_at k c d h lt e w o cr =
    rw (w.index, w.lines, w.mem)
      (end_last-EndsIn (bytes c) k c.lines (omega (arith, h.stored)) (omega (arith, h.small))
        (subst (λ i. IsOpen (bytes c) i c.lines) e o)
        (subst (λ i. LinesIn (bytes c) i c.lines) e h.lines) cr)

in_header-Keeps :
    (c : HttpContext)
    → IsStored c
    → c.analysis_index < c.now_index
    → c.state ≡ state_read_header
    → IsOpen (bytes c) c.analysis_index c.lines
    → (c.analysis_index ≡ 0 → get_elem? (bytes c) 0 ≢ some 10)
    → Keeps (in_header c)
unfolding in_header
in_header-Keeps c h lt s o z =
    with_byte-Post Keeps c.analysis_index c _ (omega (arith, h.stored)) (λ ch e.
      elim (Bool-cases (ch == 10)) [
        | inl t ↦
            let nl : get_elem? (bytes c) c.analysis_index ≡ some 10 = ground (arith, e, t) in
            let (k, ei) = suc_of_pos c.analysis_index (not_first c.analysis_index (bytes c) z nl) in
            rw t (
              newline-Keeps c k _ h lt ei (λ d w cr.
                header_line-Keeps k d (end_last d.analysis_index d.lines)
                  (IsNulled-IsAfter k c d h ei lt w) (w.state ∙ s) (ends_at k c d h lt ei w o cr)))
        | inr t ↦ rw t (record {
          stored = forward-Within c h lt;
          state =
              subst (λ st. StateIn st (bytes c) (c.analysis_index + 1) c.lines) (sym s)
                (byte-Keeps c c.lines h lt o, λ z. absurd (omega arith));
        })
      ])

in_chunk_footer-Keeps :
    (c : HttpContext)
    → IsStored c
    → c.analysis_index < c.now_index
    → c.state ≡ state_read_chunk_footer
    → IsOpen (bytes c) c.analysis_index c.lines
    → 0 < c.analysis_index
    → Keeps (in_chunk_footer c)
unfolding in_chunk_footer
in_chunk_footer-Keeps c h lt s o z =
    with_byte-Post Keeps c.analysis_index c _ (omega (arith, h.stored)) (λ ch e.
      elim (Bool-cases (ch == 10)) [
        | inl t ↦
            let (k, ei) = suc_of_pos c.analysis_index z in
            rw t (
              newline-Keeps c k _ h lt ei (λ d w cr.
                footer_line-Keeps k d (end_last d.analysis_index d.lines)
                  (IsNulled-IsAfter k c d h ei lt w) (w.state ∙ s) (ends_at k c d h lt ei w o cr)))
        | inr t ↦ rw t (record {
          stored = forward-Within c h lt;
          state =
              subst (λ st. StateIn st (bytes c) (c.analysis_index + 1) c.lines) (sym s)
                (byte-Keeps c c.lines h lt o, omega arith);
        })
      ])

in_chunk_header-Keeps :
    (c : HttpContext)
    → IsStored c
    → c.analysis_index < c.now_index
    → c.state ≡ state_read_chunk_header
    → 0 < c.analysis_index
    → Keeps (in_chunk_header c)
unfolding in_chunk_header
in_chunk_header-Keeps c h lt s z =
    with_byte-Post Keeps c.analysis_index c _ (omega (arith, h.stored)) (λ ch e.
      elim (Bool-cases (ch == 10)) [
        | inl t ↦
            let (k, ei) = suc_of_pos c.analysis_index z in
            rw t (
              newline-Keeps c k _ h lt ei
                (λ d w cr. size_line-Keeps k d (IsNulled-IsAfter k c d h ei lt w)))
        | inr t ↦ rw t (
            size_byte-Post (λ d. Keeps (again (forward d))) ch c
              (λ n s' d'. record {
                stored = forward-Within c h lt;
                state =
                    subst (λ st. StateIn st (bytes c) (c.analysis_index + 1) c.lines) (sym s)
                      (omega arith);
              }))
      ])

in_start-Keeps :
    (c : HttpContext) → IsStored c → c.analysis_index < c.now_index → Keeps (in_start c)
unfolding in_start
in_start-Keeps c h lt = elim (Bool-cases (c.analysis_index == 0)) [
  | inr t ↦ rw t (bad-Keeps c h)
  | inl t ↦ rw t (
      with_byte-Post Keeps 0 c _ (omega (arith, h.stored)) (λ ch e. elim (Bool-cases (ch == 10)) [
        | inl u ↦ rw u (bad-Keeps c h)
        | inr u ↦ rw u (record {
          stored = Within-open 0 h;
          state = ((omega arith, λ p. absurd (omega arith)), λ z f. ground (arith, e, f, u));
        })
      ]))
]

-- More bytes of a body that have arrived.
skip-Within :
    (c : HttpContext) (n : ℕ)
    → IsStored c
    → n ≤ c.now_index - c.analysis_index
    → IsStored (record c { analysis_index = c.analysis_index + n })
skip-Within c n h le = record {
  reached = omega (arith, h.reached);
  stored = h.stored;
  small = h.small;
  lines =
      LinesIn-le c.analysis_index (c.analysis_index + n) (bytes c) c.lines (omega arith) h.lines;
}

in_body-Keeps :
    (c : HttpContext)
    → IsStored c
    → c.state ≡ state_read_body
    → 0 < c.analysis_index
    → Keeps (in_body c)
unfolding in_body
in_body-Keeps c h s pos = elim (leb-cases c.content_length (c.now_index - c.analysis_index)) [
  | inl (t, le) ↦
      rw t (record { stored = skip-Within c c.content_length h le; state = omega arith })
  | inr (t, lt) ↦ rw t (record {
    stored = h;
    state = subst (λ st. StateIn st (bytes c) c.analysis_index c.lines) (sym s) pos;
  })
]

in_chunk_body-Keeps :
    (c : HttpContext)
    → IsStored c
    → c.state ≡ state_read_chunk_body
    → 0 < c.analysis_index
    → Keeps (in_chunk_body c)
unfolding in_chunk_body
in_chunk_body-Keeps c h s pos =
    let n = with_ending c.now_chunk_size in
    elim (leb-cases n (c.now_index - c.analysis_index)) [
      | inl (t, le) ↦ rw t (record { stored = skip-Within c n h le; state = omega arith })
      | inr (t, lt) ↦ rw t (record {
        stored = h;
        state = subst (λ st. StateIn st (bytes c) c.analysis_index c.lines) (sym s) pos;
      })
    ]

-- Where there is nothing to decode the context stays.
if_more-Keeps :
    (c : HttpContext) (a : Advance)
    → IsSafe c
    → (c.analysis_index < c.now_index → Keeps a)
    → Keeps (if_more c a)
unfolding if_more
if_more-Keeps c a h k = elim (leb-cases c.now_index c.analysis_index) [
  | inl (t, le) ↦ rw t h
  | inr (t, lt) ↦ rw t (k lt)
]

step_in-Keeps :
    (st : State) (c : HttpContext)
    → c.state ≡ st
    → IsSafe c
    → StateIn st (bytes c) c.analysis_index c.lines
    → Keeps (step_in st c)
unfolding step_in
step_in-Keeps state_start c s h k = if_more-Keeps c _ h (in_start-Keeps c h.stored)
step_in-Keeps state_read_header c s h k =
    if_more-Keeps c _ h (λ lt. in_header-Keeps c h.stored lt s k.0 k.1)
step_in-Keeps state_read_body c s h k = if_more-Keeps c _ h (λ lt. in_body-Keeps c h.stored s k)
step_in-Keeps state_read_chunk_header c s h k =
    if_more-Keeps c _ h (λ lt. in_chunk_header-Keeps c h.stored lt s k)
step_in-Keeps state_read_chunk_body c s h k =
    if_more-Keeps c _ h (λ lt. in_chunk_body-Keeps c h.stored s k)
step_in-Keeps state_read_chunk_footer c s h k =
    if_more-Keeps c _ h (λ lt. in_chunk_footer-Keeps c h.stored lt s k.0 k.1)
step_in-Keeps state_done c s h k = h
step_in-Keeps state_bad c s h k = h

pub step-Keeps : (c : HttpContext) → IsSafe c → Keeps (step c)
unfolding step
step-Keeps c h = step_in-Keeps c.state c refl h h.state
