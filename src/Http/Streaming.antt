-- ===== src/Http/Streaming.antt =====
-- `analysis` (http_context.h) called again when more of the message has arrived.
use network_pool.Common.{
  ℕ, zero, suc, ◌≤◌, ◌<◌, ◌≡◌, refl, sym, subst, ◌∙◌, ap, true, arith, List, [], ◌∷◌,
}
use network_pool.Http.{
  State, state_start, state_read_header, state_read_body, state_read_chunk_header,
  state_read_chunk_body, state_read_chunk_footer, state_done, state_bad, HttpContext,
}
use network_pool.Http.Analysis.{
  Advance, again, wait, over, fault, step_in, step, Analysis, returned, faulted, stuck, analyse,
  rounds, analysis,
}
use network_pool.Http.Progress.{is_final, weight, Falls}
use network_pool.Http.Progress.Steps.{step-Falls}
use network_pool.Http.Rounds.{go_on, analyse_lem, analyse-fuel, weight-rounds}
use network_pool.Http.Arrival.{set_now, Extends}
use network_pool.Http.Arrival.Steps.{step-Extends}

-- The next call, at `n` bytes.
abbrev pub resume : ℕ → Analysis → Analysis
resume n (returned b d) = analysis (set_now n d)
resume n faulted = faulted
resume n stuck = stuck

-- One call per piece, where a piece is given by the bytes that have arrived at its end.
unfoldable pub each : List ℕ → Analysis → Analysis
each [] a = a
each (n ∷ ns) a = each ns (resume n a)

-- The pieces end in order.
abbrev pub Ascends : ℕ → List ℕ → Type 0
Ascends m [] = Unit
Ascends m (n ∷ ns) = (m ≤ n) × Ascends n ns

abbrev pub last_of : ℕ → List ℕ → ℕ
last_of m [] = m
last_of m (n ∷ ns) = last_of n ns

final_step : (st : State) (d : HttpContext) → is_final st ≡ true → step_in st d ≡ over d
unfolding step_in
final_step state_start d e = absurd (cc e)
final_step state_read_header d e = absurd (cc e)
final_step state_read_body d e = absurd (cc e)
final_step state_read_chunk_header d e = absurd (cc e)
final_step state_read_chunk_body d e = absurd (cc e)
final_step state_read_chunk_footer d e = absurd (cc e)
final_step state_done d e = refl
final_step state_bad d e = refl

-- A complete or a bad message stays as it is.
pub analysis-final : (d : HttpContext) → is_final d.state ≡ true → analysis d ≡ returned true d
unfolding analysis rounds step
analysis-final d e =
    analyse-fuel (rounds d) (suc (rounds d)) d (weight-rounds d) (omega (arith, weight-rounds d))
    ∙ analyse_lem (rounds d) d
    ∙ ap (go_on (rounds d)) (final_step d.state d e)

analyse-resume :
    (f g n : ℕ) (c : HttpContext)
    → weight c < f
    → weight (set_now n c) < g
    → c.now_index ≤ n
    → analyse g (set_now n c) ≡ resume n (analyse f c)
unfolding analysis
analyse-resume zero g n c lt lt' le = absurd (omega arith)
analyse-resume (suc f) zero n c lt lt' le = absurd (omega arith)
analyse-resume (suc f) (suc g) n c lt lt' le =
    rest (step c) (step (set_now n c)) refl (step-Falls c) (step-Falls (set_now n c))
      (step-Extends n c le) (analyse-resume f g n)
    ∙ ap (resume n) (sym (analyse_lem f c))
  where
    rest :
        (a a' : Advance)
        → step (set_now n c) ≡ a'
        → Falls c.now_index (weight c) a
        → Falls n (weight (set_now n c)) a'
        → Extends n c a a'
        → ((d : HttpContext)
            → weight d < f
            → weight (set_now n d) < g
            → d.now_index ≤ n
            → analyse g (set_now n d) ≡ resume n (analyse f d))
        → analyse (suc g) (set_now n c) ≡ resume n (go_on f a)
    rest (again d) a' s h h' e ih =
        let k = subst (Falls n (weight (set_now n c))) e h' in
        analyse_lem g (set_now n c)
        ∙ ap (go_on g) (s ∙ e)
        ∙ ih d (omega (arith, h, lt)) (omega (arith, k, lt')) (omega (arith, h, le))
    rest (wait d) a' s h h' e ih = rw e (
        analyse-fuel (suc g) (rounds (set_now n c)) (set_now n c) lt' (weight-rounds (set_now n c)))
    rest (over d) a' s h h' e ih =
        analyse_lem g (set_now n c) ∙ ap (go_on g) (s ∙ e) ∙ sym (analysis-final (set_now n d) h.1)
    rest fault a' s h h' e ih = analyse_lem g (set_now n c) ∙ ap (go_on g) (s ∙ e)

analysis-resume :
    (n : ℕ) (c : HttpContext) → c.now_index ≤ n → analysis (set_now n c) ≡ resume n (analysis c)
unfolding analysis
analysis-resume n c le =
    analyse-resume (rounds c) (rounds (set_now n c)) n c (weight-rounds c)
      (weight-rounds (set_now n c)) le

-- A message that arrives in pieces, with a call of `analysis` after each piece, gives the context
-- and the result of one call on the whole, for pieces that end in order and bytes that stay in
-- the memory as they came, whatever state the context is in before.
pub each-analysis :
    (ns : List ℕ) (c : HttpContext)
    → Ascends c.now_index ns
    → each ns (analysis c) ≡ analysis (set_now (last_of c.now_index ns) c)
unfolding each
each-analysis [] c h = refl
each-analysis (n ∷ ns) c (le, h) =
    ap (each ns) (sym (analysis-resume n c le)) ∙ each-analysis ns (set_now n c) h
