-- ===== src/Http/Receive/Ready.antt =====
-- A ChttpContext (http_context.h) from its construction on: `prepareBuffer` makes it ready to
-- receive, and keeps it so.
use network_pool.Common.{
  ℕ, ◌≤◌, ◌<◌, ◌≡◌, refl, sym, ◌∙◌, subst, ◌⊎◌, inl, inr, true, Option, none, some, List, arith,
  take, take-take, ltb, ◌==◌, if◌then◌else◌, ltb-cases,
}
use network_pool.Buffer.{Buffer, Outcome, done, threw, fault}
use network_pool.Buffer.Laws.{IsValid, IsSized, contents, bytes_of, Ends}
use network_pool.Buffer.Resize.{Resized, resize_lem}
use network_pool.Http.{HttpContext, bytes_in}
use network_pool.Http.Content.Next.{memory_size_lem}
use network_pool.Http.Receive.{
  Receipt, ready, failed, outside, with_buffer, cleared, init, free_space, grown_length, grow,
  prepare_buffer,
}
use network_pool.Http.Receive.Kept.{IsBegun, IsSafe-kept}
use network_pool.Http.Receive.Room.{
  IsReceiving, Roomy, Prepares, prepare_buffer-IsReceiving, free_space_lem,
}
use network_pool.Http.Safety.{IsSafe}

-- A context that has received nothing, not even a memory.
pub record IsFresh (c : HttpContext) : Type 0 where
  pub valid : IsValid c.buffer
  pub length : c.buffer.length ≡ 0
  pub max_length : c.buffer.max_length ≡ 0
  pub small : c.max_buffer_size < 9223372036854775808

-- A context that receives.
pub record IsReady (c : HttpContext) : Type 0 where
  pub safe : IsSafe c
  pub receiving : IsReceiving c
  pub begun : IsBegun c

abbrev pub IsGood : HttpContext → Type 0
IsGood c = IsFresh c ⊎ IsReady c

-- Where `prepareBuffer` returns, the context receives.
abbrev pub Readies : Receipt → Type 0
Readies (ready p n d) = IsReady d
Readies (failed d) = Unit
Readies outside = ⊥

-- A context with its first memory, at the start of a message.
cleared-IsReady :
    (c : HttpContext)
    → IsValid c.buffer
    → c.buffer.length ≡ 4096
    → c.now_index ≡ 0
    → 4096 ≤ c.max_buffer_size
    → c.max_buffer_size < 9223372036854775808
    → IsReady (cleared c)
unfolding cleared
cleared-IsReady c v l z ge lt = record {
  safe = record {
    stored = record {
      reached = omega arith;
      stored = omega (arith, z);
      small = omega (arith, z);
      lines = tt;
    };
    state = tt;
  };
  receiving = record {
    valid = v;
    begun = omega (arith, l);
    received = omega (arith, z);
    below = omega (arith, l);
    small = lt;
  };
  begun = λ e. absurd (cc e);
}

-- The end of `prepareBuffer` where there is room enough.
with_room :
    (more : Option (List ℕ)) (c : HttpContext)
    → IsReady c
    → c.buffer.length ≡ 4096
    → c.now_index ≡ 0
    → Readies (
        grow more c
          (λ e. ready (if free_space e == 0 then none else some e.now_index) (free_space e) e))
unfolding grow
with_room more c r l z = elim (ltb-cases (free_space c) 2048) [
  | inl (t, lt) ↦ absurd (omega (arith, free_space_lem c r.receiving))
  | inr (t, _) ↦ rw t r
]

first-Readies :
    (more : Option (List ℕ)) (T : Type 0) (o : Outcome) (c : HttpContext)
    → 4096 ≤ c.max_buffer_size
    → c.max_buffer_size < 9223372036854775808
    → Ends (Resized 4096 0 c.buffer) T o
    → Readies (
        with_buffer o c (λ e.
          grow more
            (cleared (record e { now_index = 0 }))
            (λ e. ready (if free_space e == 0 then none else some e.now_index) (free_space e) e)))
unfolding with_buffer cleared
first-Readies more T (done b) c ge lt r =
    with_room more (cleared (record c { buffer = b; now_index = 0 }))
      (cleared-IsReady (record c { buffer = b; now_index = 0 }) r.valid r.length refl ge lt)
      r.length refl
first-Readies more T (threw b) c ge lt r = tt
first-Readies more T fault c ge lt r = r

take-contents :
    (k : ℕ) (b : Buffer) → k ≤ b.length → take k (contents b) ≡ take k (bytes_in b.memory)
take-contents k b le = go b.memory
  where
    go : (mem : Option (List ℕ)) → take k (bytes_of mem b.length) ≡ take k (bytes_in mem)
    go none = refl
    go (some mem) = take-take k b.length mem le

Roomy-IsReady : (c d : HttpContext) (n : ℕ) → IsReady c → Roomy c n d → IsReady d
Roomy-IsReady c d n r h =
    let kept : IsReady (record c { buffer = d.buffer }) = record {
      safe =
          IsSafe-kept c d.buffer
            (sym (take-contents c.now_index d.buffer (omega (arith, h.room)))
              ∙ h.keeps
              ∙ take-contents c.now_index c.buffer r.receiving.received)
            (omega (
              arith,
              memory_size_lem d.buffer.memory,
              h.receiving.valid.owns,
              h.receiving.valid.fits,
              h.room,
            ))
            r.begun r.safe;
      receiving = subst IsReceiving h.rest h.receiving;
      begun = r.begun;
    } in
    subst IsReady (sym h.rest) kept

Prepares-Readies :
    (c : HttpContext) (more : Option (List ℕ)) (r : Receipt)
    → IsReady c
    → Prepares c more r
    → Readies r
Prepares-Readies c more (ready p n d) h k = Roomy-IsReady c d n h k.0
Prepares-Readies c more (failed d) h k = tt
Prepares-Readies c more outside h k = k

pub prepare_buffer-Readies :
    (first more : Option (List ℕ)) (c : HttpContext)
    → IsGood c
    → IsSized 4096 first
    → IsSized (grown_length c) more
    → Readies (prepare_buffer first more c)
unfolding prepare_buffer init
prepare_buffer-Readies first more c (inl f) s t = rw (none_yet) (
    first-Readies more _ _ (record c { max_buffer_size = most }) big less
      (resize_lem 4096 0 0 first c.buffer f.valid s (omega arith) (omega (arith, f.length))
        (omega arith)))
  where
    none_yet : (c.buffer.max_length == 0) ≡ true
    none_yet = ground (arith, f.max_length)

    most : ℕ
    most = if ltb c.max_buffer_size 4096 then 4096 else c.max_buffer_size

    big : 4096 ≤ most
    big = ground arith

    less : most < 9223372036854775808
    less = ground (arith, f.small)
prepare_buffer-Readies first more c (inr r) s t =
    Prepares-Readies c more _ r (prepare_buffer-IsReceiving first more c r.receiving t)
