-- ===== src/Http/Rounds.antt =====
-- The rounds of `analysis` (http_context.h) together: they end, and they stay within the memory.
use network_pool.Common.{
  ℕ, zero, suc, ◌≤◌, ◌<◌, ◌≡◌, refl, sym, subst, ◌∙◌, Bool, true, false, arith,
}
use network_pool.Http.{
  State, state_start, state_read_header, state_read_body, state_read_chunk_header,
  state_read_chunk_body, state_read_chunk_footer, state_done, state_bad, HttpContext,
}
use network_pool.Http.Analysis.{
  Advance, again, wait, over, fault, step, Analysis, returned, faulted, stuck, analyse, rounds,
  analysis,
}
use network_pool.Http.Progress.{is_final, rank, weight, Falls}
use network_pool.Http.Progress.Steps.{step-Falls}
use network_pool.Http.Safety.{IsSafe, Keeps}
use network_pool.Http.Safety.Steps.{step-Keeps}

-- The call returns, and what holds then.
abbrev pub Returns : (Bool → HttpContext → Type 0) → Analysis → Type 0
Returns P (returned b d) = P b d
Returns P faulted = ⊥
Returns P stuck = ⊥

-- The context stays safe and keeps what has arrived; the result is whether its state is final.
abbrev pub Analysed : ℕ → Bool → HttpContext → Type 0
Analysed now b d = IsSafe d × (d.now_index ≡ now) × (is_final d.state ≡ b)

-- One round, and the others after it.
abbrev pub go_on : ℕ → Advance → Analysis
go_on fuel (again d) = analyse fuel d
go_on fuel (wait d) = returned false d
go_on fuel (over d) = returned true d
go_on fuel fault = faulted

pub analyse_lem : (fuel : ℕ) (c : HttpContext) → analyse (suc fuel) c ≡ go_on fuel (step c)
unfolding analyse
analyse_lem fuel c = same (step c)
  where
    same :
        (a : Advance)
        → (let r : Analysis = elim a [
          | again d ↦ analyse fuel d
          | wait d ↦ returned false d
          | over d ↦ returned true d
          | fault ↦ faulted
        ] in
            r ≡ go_on fuel a)
    same (again d) = refl
    same (wait d) = refl
    same (over d) = refl
    same fault = refl

analyse-Analysed :
    (fuel now : ℕ) (c : HttpContext)
    → weight c < fuel
    → c.now_index ≡ now
    → IsSafe c
    → Returns (Analysed now) (analyse fuel c)
analyse-Analysed zero now c lt e h = absurd (omega arith)
analyse-Analysed (suc fuel) now c lt e h =
    subst (Returns (Analysed now)) (sym (analyse_lem fuel c))
      (rest (step c) (step-Keeps c h) (step-Falls c) (analyse-Analysed fuel now))
  where
    rest :
        (a : Advance)
        → Keeps a
        → Falls c.now_index (weight c) a
        → ((d : HttpContext)
            → weight d < fuel
            → d.now_index ≡ now
            → IsSafe d
            → Returns (Analysed now) (analyse fuel d))
        → Returns (Analysed now) (go_on fuel a)
    rest (again d) k f ih = ih d (omega (arith, f, lt)) (f.0 ∙ e) k
    rest (wait d) k f ih = (k, f.0 ∙ e, f.1)
    rest (over d) k f ih = (k, f.0 ∙ e, f.1)
    rest fault k f ih = k

rank_bound : (s : State) → rank s ≤ 1
rank_bound state_start = omega arith
rank_bound state_read_header = omega arith
rank_bound state_read_body = omega arith
rank_bound state_read_chunk_header = omega arith
rank_bound state_read_chunk_body = omega arith
rank_bound state_read_chunk_footer = omega arith
rank_bound state_done = omega arith
rank_bound state_bad = omega arith

pub weight-rounds : (c : HttpContext) → weight c < rounds c
unfolding rounds
weight-rounds c = omega (arith, rank_bound c.state)

-- On a safe context `analysis` returns: it makes no access outside of the bytes that have arrived
-- and needs no more fuel. The context stays safe, what has arrived stays, and the result says
-- whether its state is the one of a complete or of a bad message.
pub analysis-IsSafe : (c : HttpContext) → IsSafe c → Returns (Analysed c.now_index) (analysis c)
unfolding analysis
analysis-IsSafe c h = analyse-Analysed (rounds c) c.now_index c (weight-rounds c) refl h

-- Fuel above the weight makes no difference.
pub analyse-fuel :
    (f g : ℕ) (c : HttpContext) → weight c < f → weight c < g → analyse f c ≡ analyse g c
analyse-fuel zero g c lt lt' = absurd (omega arith)
analyse-fuel (suc f) zero c lt lt' = absurd (omega arith)
analyse-fuel (suc f) (suc g) c lt lt' =
    analyse_lem f c ∙ rest (step c) (step-Falls c) (analyse-fuel f g) ∙ sym (analyse_lem g c)
  where
    rest :
        (a : Advance)
        → Falls c.now_index (weight c) a
        → ((d : HttpContext) → weight d < f → weight d < g → analyse f d ≡ analyse g d)
        → go_on f a ≡ go_on g a
    rest (again d) h ih = ih d (omega (arith, h, lt)) (omega (arith, h, lt'))
    rest (wait d) h ih = refl
    rest (over d) h ih = refl
    rest fault h ih = refl
