-- ===== src/Http/Progress.antt =====
-- `analysis` (http_context.h) ends: each round takes a byte, or leaves a state that takes none.
pub mod Steps
use network_pool.Common.{
  ℕ, zero, suc, ◌+◌, ◌-◌, ◌*◌, ◌<◌, ◌≡◌, refl, ◌∙◌, ap, Bool, true, false, not, Option, none, some,
  List, arith, get_elem?, ltb, leb, ◌==◌, if◌then◌else◌, if_both, leb-cases, inl, inr,
}
use network_pool.Http.{
  State, state_start, state_read_header, state_read_body, state_read_chunk_header,
  state_read_chunk_body, state_read_chunk_footer, state_done, state_bad, Line, HttpContext, bytes,
}
use network_pool.Http.Analysis.{
  Advance, again, wait, over, fault, with_byte, zero_at, bad, end_of_line, end_last, forward,
  in_start, header_line, in_header, in_body, size_line, in_chunk_header, with_ending, in_chunk_body,
  footer_line, in_chunk_footer, if_more, step_in, step,
}
use network_pool.Http.Memory.{size_byte-Post}
use network_pool.Http.Header.{Fields, switch_state, decode_lines, decoder_header}

-- The states that may go on without a byte.
abbrev pub rank : State → ℕ
rank state_start = 1
rank state_read_chunk_body = 1
rank _ = 0

abbrev pub weight : HttpContext → ℕ
weight c = 2 * (c.now_index - c.analysis_index) + rank c.state

-- The states from which `analysis` returns true.
abbrev pub is_final : State → Bool
is_final state_done = true
is_final state_bad = true
is_final _ = false

-- A round with a bound on the weight after it; it returns true in the final states, and false in
-- the others.
abbrev pub Falls : ℕ → ℕ → Advance → Type 0
Falls now w (again d) = (d.now_index ≡ now) × (weight d < w)
Falls now w (wait d) = (d.now_index ≡ now) × (is_final d.state ≡ false)
Falls now w (over d) = (d.now_index ≡ now) × (is_final d.state ≡ true)
Falls now w fault = Unit

pub with_byte-any {κ} :
    (P : Advance → Type κ) (i : ℕ) (c : HttpContext) (k : ℕ → Advance)
    → P fault
    → ((ch : ℕ) → P (k ch))
    → P (with_byte i c k)
unfolding with_byte
with_byte-any P i c k hf h = go (get_elem? (bytes c) i)
  where
    go : (o : Option ℕ) → P (elim o [ none ↦ fault | some ch ↦ k ch ])
    go none = hf
    go (some ch) = h ch

pub end_of_line-any {κ} :
    (P : Advance → Type κ) (c : HttpContext) (k : HttpContext → Advance)
    → P fault
    → P (bad c)
    → ((i : ℕ) → P (k (zero_at (suc i) (zero_at i c))))
    → P (end_of_line c k)
unfolding end_of_line
end_of_line-any P c k hf hb h = go c.analysis_index
  where
    go :
        (n : ℕ)
        → P (elim n [
          | zero ↦ fault
          | suc i ↦
              with_byte i c
                (λ before. if not (before == 13) then bad c else k (zero_at (suc i) (zero_at i c)))
        ])
    go zero = hf
    go (suc i) = with_byte-any P i c _ hf (λ before. if_both P (not (before == 13)) hb (h i))

pub decoder_header-any {κ} :
    (P : Advance → Type κ) (d : HttpContext)
    → P fault
    → ((g : Fields) → P (again (switch_state g d)))
    → P (elim (decoder_header d) [ none ↦ fault | some e ↦ again e ])
unfolding decoder_header
decoder_header-any P d hf h = go (decode_lines _ d.header_size (bytes d) _)
  where
    go :
        (o : Option Fields)
        → (let r : Option HttpContext = elim o [ none ↦ none | some g ↦ some (switch_state g d) ] in
            P (elim r [ none ↦ fault | some e ↦ again e ]))
    go none = hf
    go (some g) = h g

pub switch_state-Falls :
    (g : Fields) (d : HttpContext) (now w : ℕ)
    → d.now_index ≡ now
    → 2 * (d.now_index - d.analysis_index) < w
    → Falls now w (again (switch_state g d))
unfolding switch_state
switch_state-Falls g d now w e lt =
    if_both (λ x. Falls now w (again x)) g.chunked (e, omega arith)
      (if_both (λ x. Falls now w (again x)) (ltb 0 g.content_length) (e, omega arith)
        (e, omega arith))

-- A newline that was nulled leaves the index and what has arrived.
pub nulled_index :
    (i : ℕ) (c : HttpContext) → (zero_at (suc i) (zero_at i c)).analysis_index ≡ c.analysis_index
unfolding zero_at
nulled_index i c = refl

pub nulled_now : (i : ℕ) (c : HttpContext) → (zero_at (suc i) (zero_at i c)).now_index ≡ c.now_index
unfolding zero_at
nulled_now i c = refl

pub nulled_state : (i : ℕ) (c : HttpContext) → (zero_at (suc i) (zero_at i c)).state ≡ c.state
unfolding zero_at
nulled_state i c = refl

pub header_line-Falls :
    (r : Option (Bool × List Line)) (d : HttpContext) (now w : ℕ)
    → d.now_index ≡ now
    → d.state ≡ state_read_header
    → 2 * (d.now_index - (d.analysis_index + 1)) < w
    → Falls now w (header_line r d)
unfolding header_line
header_line-Falls none d now w e s lt = tt
header_line-Falls (some (true, ls)) d now w e s lt =
    decoder_header-any (Falls now w) _ tt (λ g. switch_state-Falls g _ now w e lt)
header_line-Falls (some (false, ls)) d now w e s lt = (e, rw s (omega arith))

pub footer_line-Falls :
    (r : Option (Bool × List Line)) (d : HttpContext) (now w : ℕ)
    → d.now_index ≡ now
    → d.state ≡ state_read_chunk_footer
    → 2 * (d.now_index - (d.analysis_index + 1)) < w
    → Falls now w (footer_line r d)
unfolding footer_line
footer_line-Falls none d now w e s lt = tt
footer_line-Falls (some (true, ls)) d now w e s lt = (e, refl)
footer_line-Falls (some (false, ls)) d now w e s lt = (e, rw s (omega arith))

pub size_line-Falls :
    (d : HttpContext) (now w : ℕ)
    → d.now_index ≡ now
    → 2 * (d.now_index - (d.analysis_index + 1)) + 1 < w
    → Falls now w (size_line d)
unfolding size_line
size_line-Falls d now w e lt =
    if_both (Falls now w) (ltb 0 d.now_chunk_size) (e, omega arith) (e, omega arith)

pub bad-Falls : (c : HttpContext) (w : ℕ) → Falls c.now_index w (bad c)
unfolding bad
bad-Falls c w = (refl, refl)
