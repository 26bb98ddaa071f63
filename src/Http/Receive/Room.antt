-- ===== src/Http/Receive/Room.antt =====
-- The room that `prepareBuffer` (http_context.h) makes.
use network_pool.Common.{
  ℕ, ◌+◌, ◌-◌, ◌*◌, ◌%◌, ◌≤◌, ◌<◌, ◌≡◌, refl, Option, none, some, List, arith, take, ◌==◌,
  if◌then◌else◌, ltb-cases, inl, inr, false,
}
use network_pool.Buffer.{Buffer, Outcome, done, threw, fault}
use network_pool.Buffer.Laws.{IsValid, IsSized, contents, Ends}
use network_pool.Buffer.Resize.{Resized, resize_lem}
use network_pool.Http.{HttpContext, size_limit}
use network_pool.Http.Receive.{
  Receipt, ready, failed, outside, with_buffer, init, free_space, grown_length, grow,
  prepare_buffer,
}

-- A context that has been initialised.
pub record IsReceiving (c : HttpContext) : Type 0 where
  pub valid : IsValid c.buffer
  pub begun : 4096 ≤ c.buffer.length
  pub received : c.now_index ≤ c.buffer.length
  pub below : c.buffer.length ≤ c.max_buffer_size
  -- Half of 2 ^ 64.
  pub small : c.max_buffer_size < 9223372036854775808

pub free_space_lem :
    (c : HttpContext) → IsReceiving c → free_space c ≡ c.buffer.length - c.now_index
unfolding free_space
free_space_lem c h = omega (arith, h.received, h.below, h.small)

grown_length_lem :
    (c : HttpContext)
    → IsReceiving c
    → (c.buffer.length ≤ grown_length c)
      × (grown_length c ≤ c.max_buffer_size)
      × (grown_length c ≤ c.buffer.length + 2047 → grown_length c ≡ c.max_buffer_size)
unfolding grown_length
grown_length_lem c h = elim (ltb-cases c.max_buffer_size ((c.buffer.length * 2) % size_limit)) [
  | inl (t, lt) ↦ rw t (h.below, omega arith, λ _. refl)
  | inr (t, le) ↦ rw t (
    omega (arith, h.below, h.small),
    omega arith,
    λ k. absurd (omega (arith, h.below, h.small, h.begun)),
  )
]

-- What is received stays, and there is room behind it.
pub record Roomy (c : HttpContext) (n : ℕ) (d : HttpContext) : Type 0 where
  pub receiving : IsReceiving d
  pub room : c.now_index + n ≡ d.buffer.length
  pub more : n ≡ 0 → c.now_index ≡ c.max_buffer_size
  pub rest : d ≡ record c { buffer = d.buffer }
  pub keeps : take c.now_index (contents d.buffer) ≡ take c.now_index (contents c.buffer)

-- How it ends: no fault; the pointer is null where there is no room.
abbrev pub Prepares : HttpContext → Option (List ℕ) → Receipt → Type 0
Prepares c malloced (ready p n d) = Roomy c n d × (p ≡ (if n == 0 then none else some c.now_index))
Prepares c malloced (failed d) = malloced ≡ none
Prepares c malloced outside = ⊥

module _ (c : HttpContext) (malloced : Option (List ℕ)) (h : IsReceiving c) where
  -- The answer for a context with the same fields and a buffer with room.
  answers :
      (b : Buffer) (n : ℕ)
      → free_space (record c { buffer = b }) ≡ n
      → Roomy c n (record c { buffer = b })
      → Prepares c malloced (
          ready
            (if free_space (record c { buffer = b }) == 0 then none else some c.now_index)
            (free_space (record c { buffer = b }))
            (record c { buffer = b }))
  answers b n e r = rw e (r, refl)

  Resized-Roomy :
      (b : Buffer)
      → free_space c < 2048
      → Resized (grown_length c) c.now_index c.buffer b
      → Roomy c (b.length - c.now_index) (record c { buffer = b })
  Resized-Roomy b lt r =
      let g = grown_length_lem c h in
      let f = free_space_lem c h in
      record {
        receiving = record {
          valid = r.valid;
          begun = omega (arith, g, r.length, h.begun);
          received = omega (arith, g, r.length, h.received);
          below = omega (arith, g, r.length);
          small = h.small;
        };
        room = omega (arith, g, r.length, h.received);
        more = λ z. omega (
          arith,
          g,
          g.2 (omega (arith, z, r.length, g, h.received, lt, f)),
          z,
          r.length,
          h.received,
        );
        rest = refl;
        keeps = r.keeps;
      }

  grows :
      (o : Outcome)
      → free_space c < 2048
      → Ends
          (Resized (grown_length c) c.now_index c.buffer)
          ((malloced ≡ none) × (c.buffer.max_length < grown_length c))
          o
      → Prepares c malloced (
          with_buffer o c
            (λ e. ready (if free_space e == 0 then none else some e.now_index) (free_space e) e))
  unfolding with_buffer
  grows (done b) lt r =
      let q = Resized-Roomy b lt r in
      answers b (b.length - c.now_index) (free_space_lem (record c { buffer = b }) q.receiving) q
  grows (threw b) lt r = r.0
  grows fault lt r = r

is_begun : (n : ℕ) → 0 < n → (n == 0) ≡ false
is_begun n lt = ground arith

pub prepare_buffer-IsReceiving :
    (first more : Option (List ℕ)) (c : HttpContext)
    → IsReceiving c
    → IsSized (grown_length c) more
    → Prepares c more (prepare_buffer first more c)
unfolding prepare_buffer init grow
prepare_buffer-IsReceiving first more c h s =
    rw (is_begun c.buffer.max_length (omega (arith, h.begun, h.valid.fits)))
      (elim (ltb-cases (free_space c) 2048) [
        | inl (u, few) ↦ rw u (
            grows c more h _ few (
              resize_lem (grown_length c) c.now_index c.now_index more c.buffer h.valid s
                (omega arith) h.received (omega (arith, h.received, grown_length_lem c h))))
        | inr (u, ge) ↦
            let f = free_space_lem c h in
            rw u (
              answers c more h c.buffer (c.buffer.length - c.now_index) f (record {
                receiving = h;
                room = omega (arith, h.received);
                more = λ z. absurd (omega (arith, f, ge, z));
                rest = refl;
                keeps = refl;
              }))
      ])
