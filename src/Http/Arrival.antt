-- ===== src/Http/Arrival.antt =====
-- `analysis` (http_context.h) and the pieces in which a message arrives.
pub mod Steps
use network_pool.Common.{
  ℕ, zero, suc, ◌+◌, ◌-◌, ◌*◌, ◌%◌, ◌≤◌, ◌≡◌, refl, ap, Bool, true, false, not, ◌||◌, Option, none,
  some, List, arith, get_elem?, ltb, leb, ◌==◌, if◌then◌else◌, Bool-cases, leb-cases, inl, inr,
}
use network_pool.Http.{
  State, state_start, state_read_header, state_read_body, state_read_chunk_header,
  state_read_chunk_body, state_read_chunk_footer, state_done, state_bad, Line, HttpContext, bytes,
  size_limit,
}
use network_pool.Http.Analysis.{
  Advance, again, wait, over, fault, with_byte, zero_at, bad, end_of_line, end_last, forward,
  in_start, header_line, in_header, in_body, hex_digit, size_byte, size_line, in_chunk_header,
  with_ending, in_chunk_body, footer_line, in_chunk_footer, if_more, step_in, step,
}
use network_pool.Http.Header.{Fields, switch_state, decode_lines, decoder_header}
use network_pool.Http.Text.{is_space}

abbrev pub set_now : ℕ → HttpContext → HttpContext
set_now n c = record c { now_index = n }

-- A round, and the same round where more has arrived.
abbrev pub Extends : ℕ → HttpContext → Advance → Advance → Type 0
Extends n c (again d) a = a ≡ again (set_now n d)
Extends n c (wait d) a = d ≡ c
Extends n c (over d) a = a ≡ over (set_now n d)
Extends n c fault a = a ≡ fault

module _ (n : ℕ) (c : HttpContext) where
  pub with_byte-Extends :
      (i : ℕ) (d : HttpContext) (k k' : ℕ → Advance)
      → ((ch : ℕ) → Extends n c (k ch) (k' ch))
      → Extends n c (with_byte i d k) (with_byte i (set_now n d) k')
  unfolding with_byte
  with_byte-Extends i d k k' h = go (get_elem? (bytes d) i)
    where
      go :
          (o : Option ℕ)
          → Extends n c
              (elim o [ none ↦ fault | some ch ↦ k ch ])
              (elim o [ none ↦ fault | some ch ↦ k' ch ])
      go none = refl
      go (some ch) = h ch

  -- Both rounds branch on the same test.
  pub if-Extends :
      (b : Bool) (x y x' y' : Advance)
      → Extends n c x x'
      → Extends n c y y'
      → Extends n c (if b then x else y) (if b then x' else y')
  if-Extends true x y x' y' h k = h
  if-Extends false x y x' y' h k = k

  pub bad-Extends : (d : HttpContext) → Extends n c (bad d) (bad (set_now n d))
  unfolding bad
  bad-Extends d = refl

  pub end_of_line-Extends :
      (d : HttpContext) (k : HttpContext → Advance)
      → ((e : HttpContext) → Extends n c (k e) (k (set_now n e)))
      → Extends n c (end_of_line d k) (end_of_line (set_now n d) k)
  unfolding end_of_line zero_at
  end_of_line-Extends d k h = go d.analysis_index
    where
      at : HttpContext → ℕ → Advance
      at e m = elim m [
        | zero ↦ fault
        | suc i ↦
            with_byte i e
              (λ before. if not (before == 13) then bad e else k (zero_at (suc i) (zero_at i e)))
      ]

      go : (m : ℕ) → Extends n c (at d m) (at (set_now n d) m)
      go zero = refl
      go (suc i) = with_byte-Extends i d _ _ (λ before.
          if-Extends (not (before == 13)) _ _ _ _ (bad-Extends d)
            (h (zero_at (suc i) (zero_at i d))))

pub switch_state-set_now :
    (g : Fields) (n : ℕ) (d : HttpContext)
    → switch_state g (set_now n d) ≡ set_now n (switch_state g d)
unfolding switch_state
switch_state-set_now g n d = elim (Bool-cases g.chunked) [
  | inl t ↦ rw t refl
  | inr t ↦ elim (Bool-cases (ltb 0 g.content_length)) [
    | inl u ↦ rw (t, u) refl
    | inr u ↦ rw (t, u) refl
  ]
]

module _ (n : ℕ) (c : HttpContext) where
  pub decoder_header-Extends :
      (d : HttpContext)
      → Extends n c
          (elim (decoder_header d) [ none ↦ fault | some e ↦ again e ])
          (elim (decoder_header (set_now n d)) [ none ↦ fault | some e ↦ again e ])
  unfolding decoder_header
  decoder_header-Extends d = go (decode_lines _ d.header_size (bytes d) _)
    where
      at : HttpContext → Option Fields → Advance
      at e o =
          let r : Option HttpContext = elim o [ none ↦ none | some g ↦ some (switch_state g e) ] in
          elim r [ none ↦ fault | some x ↦ again x ]

      go : (o : Option Fields) → Extends n c (at d o) (at (set_now n d) o)
      go none = refl
      go (some g) = ap again (switch_state-set_now g n d)

  pub header_line-Extends :
      (r : Option (Bool × List Line)) (d : HttpContext)
      → Extends n c (header_line r d) (header_line r (set_now n d))
  unfolding header_line
  header_line-Extends none d = refl
  header_line-Extends (some (true, ls)) d = decoder_header-Extends _
  header_line-Extends (some (false, ls)) d = refl

  pub footer_line-Extends :
      (r : Option (Bool × List Line)) (d : HttpContext)
      → Extends n c (footer_line r d) (footer_line r (set_now n d))
  unfolding footer_line
  footer_line-Extends none d = refl
  footer_line-Extends (some (true, ls)) d = refl
  footer_line-Extends (some (false, ls)) d = refl

  pub size_line-Extends : (d : HttpContext) → Extends n c (size_line d) (size_line (set_now n d))
  unfolding size_line
  size_line-Extends d = if-Extends n c (ltb 0 d.now_chunk_size) _ _ _ _ refl refl

pub size_byte-set_now :
    (ch n : ℕ) (c : HttpContext) → size_byte ch (set_now n c) ≡ set_now n (size_byte ch c)
unfolding size_byte
size_byte-set_now ch n c = elim (Bool-cases c.chunk_size_done) [
  | inl t ↦ rw t refl
  | inr t ↦ rw t (go (hex_digit ch))
]
  where
    digit : HttpContext → Option ℕ → HttpContext
    digit e o = elim o [
      | some d ↦ record e {
        now_chunk_size = (e.now_chunk_size * 16 + d) % size_limit;
        chunk_size_start = true;
      }
      | none ↦
          if e.chunk_size_start || not (is_space ch) then record e { chunk_size_done = true } else e
    ]

    go : (o : Option ℕ) → digit (set_now n c) o ≡ set_now n (digit c o)
    go none = elim (Bool-cases (c.chunk_size_start || not (is_space ch))) [
      | inl t ↦ rw t refl
      | inr t ↦ rw t refl
    ]
    go (some d) = refl
