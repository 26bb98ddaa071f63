-- ===== src/Buffer/Resize.antt =====
-- `resize` of Cbuffer (buffer.h).
use network_pool.Common.{
  ℕ, zero, suc, ◌≤◌, ◌<◌, ◌≡◌, refl, ap, sym, ◌∙◌, inl, inr, Option, none, some, List, arith,
  length, take, take-take, leb-cases, ltb, ltb-cases, if◌then◌else◌,
}
use network_pool.Buffer.{Buffer, write_bytes, filled, with_bytes, resize}
use network_pool.Buffer.Copies.{write_bytes_lem}
use network_pool.Buffer.Laws.{IsValid, bytes_of, contents, IsSized, Ends, read_lem, length-bytes_of}

pub take-bytes_of :
    (c n : ℕ) (mem : Option (List ℕ)) → c ≤ n → take c (bytes_of mem n) ≡ take c (bytes_of mem c)
take-bytes_of c n none h = refl
take-bytes_of c n (some mem) h = take-take c n mem h ∙ sym (take-take c c mem (omega arith))

-- A buffer of the length that starts as the old one did, for `c` bytes.
pub record Resized (prefer c : ℕ) (old b : Buffer) : Type 0 where
  pub valid : IsValid b
  pub length : b.length ≡ prefer
  pub keeps : take c (contents b) ≡ take c (contents old)

-- The length of what is copied to the new memory.
abbrev kept : ℕ → Buffer → ℕ
kept valid b = if ltb b.length valid then b.length else valid

grow_lem :
    (T : Type 0) (prefer valid c : ℕ) (mem : List ℕ) (b : Buffer)
    → IsValid b
    → length mem ≡ prefer
    → b.max_length < prefer
    → c ≤ kept valid b
    → kept valid b ≤ b.length
    → Ends
        (Resized prefer c b)
        T
        (filled prefer (write_bytes (bytes_of b.memory (kept valid b)) mem) b)
unfolding filled
grow_lem T prefer valid c mem b v s g k le =
    let n = length-bytes_of (kept valid b) b.memory (omega arith) in
    let w = write_bytes_lem (bytes_of b.memory (kept valid b)) mem (omega arith) in
    rw w.writes (record {
      valid = record { owns = w.size ∙ s; fits = omega arith };
      length = refl;
      keeps =
          take-take c prefer w.after (omega arith)
          ∙ sym (take-take c _ w.after (omega arith))
          ∙ ap (take c) w.starts
          ∙ take-bytes_of c (kept valid b) b.memory k
          ∙ sym (take-bytes_of c b.length b.memory (omega arith));
    })

take-none : (c : ℕ) (xs ys : List ℕ) → c ≤ 0 → take c xs ≡ take c ys
unfolding take
take-none zero xs ys h = refl
take-none (suc c) xs ys h = absurd (omega arith)

kept_le : (valid : ℕ) (b : Buffer) → kept valid b ≤ b.length
kept_le valid b = ground arith

kept_ge : (valid c : ℕ) (b : Buffer) → c ≤ valid → c ≤ b.length → c ≤ kept valid b
kept_ge valid c b h k = ground arith

-- The capacity is enough, and the memory stays.
within_lem :
    (prefer c : ℕ) (b : Buffer)
    → IsValid b
    → c ≤ b.length
    → c ≤ prefer
    → prefer ≤ b.max_length
    → Resized prefer c b (record b { length = prefer })
within_lem prefer c b v k l le = record {
  valid = record { owns = v.owns; fits = le };
  length = refl;
  keeps = take-bytes_of c prefer b.memory l ∙ sym (take-bytes_of c b.length b.memory k);
}

-- `resize` on a well-formed buffer stays within the memory. It returns a well-formed buffer of the
-- length asked for, which keeps each byte that is before the old length, the new length and the
-- length given as valid; it throws only where a larger memory is needed and there is none.
pub resize_lem :
    (prefer valid c : ℕ) (malloced : Option (List ℕ)) (b : Buffer)
    → IsValid b
    → IsSized prefer malloced
    → c ≤ valid
    → c ≤ b.length
    → c ≤ prefer
    → Ends
        (Resized prefer c b)
        ((malloced ≡ none) × (b.max_length < prefer))
        (resize prefer valid malloced b)
unfolding resize with_bytes
resize_lem prefer valid c none b v s h k l = elim (leb-cases prefer b.max_length) [
  | inl (e, le) ↦ rw e (within_lem prefer c b v k l le)
  | inr (e, lt) ↦ elim (ltb-cases 0 (kept valid b)) [
    | inl (f, pos) ↦ rw (e, f) (refl, lt)
    | inr (f, ge) ↦ rw (e, f) (refl, lt)
  ]
]
resize_lem prefer valid c (some mem) b v s h k l = elim (leb-cases prefer b.max_length) [
  | inl (e, le) ↦ rw e (within_lem prefer c b v k l le)
  | inr (e, lt) ↦ elim (ltb-cases 0 (kept valid b)) [
    | inl (f, pos) ↦
        let n = kept_le valid b in
        rw (e, f, read_lem (kept valid b) b.memory pos (omega arith))
          (grow_lem _ prefer valid c mem b v s lt (kept_ge valid c b h k) n)
    | inr (f, ge) ↦
        rw (e, f)
          (record {
            valid = record { owns = s; fits = omega arith };
            length = refl;
            keeps = take-none c _ _ (omega (arith, kept_ge valid c b h k));
          })
  ]
]
