-- ===== src/Http/Parts/Whole.antt =====
-- The parts of the body after a whole call of `analysis` (http_context.h).
use network_pool.Common.{
  ℕ, zero, suc, ◌+◌, ◌-◌, ◌≤◌, ◌<◌, ◌≡◌, refl, sym, subst, ◌∙◌, ap, Bool, false, List, [], ◌∷◌,
  arith, length, total, leb-cases, inl, inr,
}
use network_pool.Http.{
  HttpContext, bytes, size_limit, state_read_chunk_body, state_read_chunk_header,
}
use network_pool.Http.Analysis.{
  Advance, again, wait, over, fault, if_more, step_in, step, in_chunk_body, with_ending, Analysis,
  returned, faulted, stuck, analyse, analysis, rounds,
}
use network_pool.Http.Content.{chunk_size}
use network_pool.Http.Content.Merge.{PartsIn}
use network_pool.Http.Parts.{AreApart, AreMild, Moves, After}
use network_pool.Http.Parts.Steps.{step-After, unmoved}
use network_pool.Http.Rounds.{go_on, analyse_lem}
use network_pool.Http.Safety.{IsSafe}

Moves-trans : (c d e : HttpContext) → Moves c d → Moves d e → Moves c e
Moves-trans c d e m n = record {
  memory = n.memory ∙ m.memory;
  length = n.length ∙ m.length;
  max_length = n.max_length ∙ m.max_length;
  max_buffer_size = n.max_buffer_size ∙ m.max_buffer_size;
  mild = λ k. m.mild (n.mild k);
  apart = λ k h. n.apart k (m.apart (n.mild k) h);
}

-- What holds of the context where the call returns.
abbrev pub Leaves : (HttpContext → Type 0) → Analysis → Type 0
Leaves P (returned b d) = P d
Leaves P faulted = Unit
Leaves P stuck = Unit

analyse-Moves : (fuel : ℕ) (c d : HttpContext) → Moves c d → Leaves (Moves c) (analyse fuel d)
unfolding analyse
analyse-Moves zero c d m = tt
analyse-Moves (suc fuel) c d m =
    subst (Leaves (Moves c)) (sym (analyse_lem fuel d))
      (rest (step d) (step-After d) (analyse-Moves fuel c))
  where
    rest :
        (a : Advance)
        → After d a
        → ((e : HttpContext) → Moves c e → Leaves (Moves c) (analyse fuel e))
        → Leaves (Moves c) (go_on fuel a)
    rest (again e) n ih = ih e (Moves-trans c d e m n)
    rest (wait e) n ih = Moves-trans c d e m n
    rest (over e) n ih = Moves-trans c d e m n
    rest fault n ih = tt

-- A call leaves the size of the memory and the buffer's lengths.
pub analysis-Moves : (c d : HttpContext) (b : Bool) → analysis c ≡ returned b d → Moves c d
unfolding analysis
analysis-Moves c d b e = subst (Leaves (Moves c)) e (analyse-Moves (rounds c) c c (unmoved c))

pub AreApart-PartsIn : (i size : ℕ) (cs : List (ℕ × ℕ)) → i ≤ size → AreApart i cs → PartsIn size cs
AreApart-PartsIn i size [] le h = tt
AreApart-PartsIn i size ((start, n) ∷ cs) le h =
    (omega (arith, h.0, le), AreApart-PartsIn start size cs (omega (arith, h.0, le)) h.1)

pub total-AreApart : (i : ℕ) (cs : List (ℕ × ℕ)) → AreApart i cs → total chunk_size cs ≤ i
unfolding total
total-AreApart i [] h = omega arith
total-AreApart i ((start, n) ∷ cs) h = omega (arith, h.0, total-AreApart start cs h.1)

-- A context that `analysis` has worked on any number of times, from one without parts, with more
-- bytes arriving in between, which leaves the parts and the place of the analysis as they are.
pub data HasRead : HttpContext → Type 0 where
  begun : (c : HttpContext) → c.chunks ≡ [] → HasRead c
  arrived :
      (c d : HttpContext)
      → HasRead c
      → d.chunks ≡ c.chunks
      → d.analysis_index ≡ c.analysis_index
      → HasRead d
  analysed : (c d : HttpContext) (b : Bool) → HasRead c → analysis c ≡ returned b d → HasRead d

HasRead-AreApart :
    (d : HttpContext) → HasRead d → AreMild d.chunks → AreApart d.analysis_index d.chunks
HasRead-AreApart _ (begun c e) m = subst (AreApart c.analysis_index) (sym e) tt
HasRead-AreApart _ (arrived c d r e i) m =
    subst (λ k. AreApart k d.chunks) (sym i)
      (subst (AreApart c.analysis_index) (sym e) (HasRead-AreApart c r (subst AreMild e m)))
HasRead-AreApart _ (analysed c d b r e) m =
    let n = analysis-Moves c d b e in n.apart m (HasRead-AreApart c r (n.mild m))

-- In a safe context that `analysis` has worked on any number of times, from one without parts and
-- with any bytes arriving in between, where no part of the body is so long that its length and 2
-- reach 2 ^ 64: the parts follow one another without overlap and end before the place of the
-- analysis, each lies within the memory, and together they are no longer than what was analysed.
pub analysis-AreApart :
    (d : HttpContext)
    → HasRead d
    → IsSafe d
    → AreMild d.chunks
    → AreApart d.analysis_index d.chunks
      × PartsIn (length (bytes d)) d.chunks
      × (total chunk_size d.chunks ≤ d.analysis_index)
analysis-AreApart d r k m =
    let a = HasRead-AreApart d r m in
    (
      a,
      AreApart-PartsIn d.analysis_index (length (bytes d)) d.chunks
          (omega (arith, k.stored.reached, k.stored.stored)) a,
      total-AreApart d.analysis_index d.chunks a,
    )

-- The context after a chunk.
abbrev after_chunk : HttpContext → HttpContext
after_chunk c = record c {
  chunks = (c.analysis_index, c.now_chunk_size) ∷ c.chunks;
  analysis_index = c.analysis_index + with_ending c.now_chunk_size;
  state = state_read_chunk_header;
  now_chunk_size = 0;
  chunk_size_start = false;
  chunk_size_done = false;
}

chunk_taken :
    (c : HttpContext)
    → c.analysis_index < c.now_index
    → with_ending c.now_chunk_size ≤ c.now_index - c.analysis_index
    → if_more c (in_chunk_body c) ≡ again (after_chunk c)
unfolding if_more in_chunk_body
chunk_taken c lt le = elim (leb-cases c.now_index c.analysis_index) [
  | inl (_, ge) ↦ absurd (omega (arith, ge, lt))
  | inr (t, _) ↦ elim (leb-cases (with_ending c.now_chunk_size) (c.now_index - c.analysis_index)) [
    | inl (u, _) ↦ rw (if_more, t, in_chunk_body, u) refl
    | inr (_, gt) ↦ absurd (omega (arith, gt, le))
  ]
]

wrapped : (n : ℕ) → n < size_limit → size_limit ≤ n + 2 → with_ending n ≤ 1
unfolding with_ending
wrapped n h k = omega (arith, h, k)

-- A chunk of a length whose sum with 2 wraps counts as complete as soon as one byte of it has
-- arrived, and is taken as a part of the body that reaches behind all that has arrived.
pub overlong_chunk :
    (c : HttpContext)
    → c.state ≡ state_read_chunk_body
    → c.analysis_index < c.now_index
    → c.now_index + 2 < size_limit
    → c.now_chunk_size < size_limit
    → size_limit ≤ c.now_chunk_size + 2
    → (d : HttpContext) × (step c ≡ again d)
      × (d.chunks ≡ (c.analysis_index, c.now_chunk_size) ∷ c.chunks)
      × (c.now_index < c.analysis_index + c.now_chunk_size)
unfolding step step_in
overlong_chunk c s lt small n big = (
  after_chunk c,
  ap (λ st. step_in st c) s ∙ chunk_taken c lt (omega (arith, wrapped c.now_chunk_size n big, lt)),
  refl,
  omega (arith, small, big),
)
