-- ===== src/Buffer/Laws.antt =====
-- The operations of Cbuffer (buffer.h) on buffers that are well formed.
use network_pool.Common.{
  ℕ, ◌≤◌, ◌<◌, ◌≡◌, refl, ◌∙◌, false, inl, inr, Option, none, some, List, [], ◌∷◌, arith, length,
  take, length-take, ◌==◌, leb-cases, ltb-cases, Option-cases,
}
use network_pool.Buffer.{
  Buffer, Outcome, done, threw, fault, memcpy, read, filled, overwrite, replace, set, make,
  with_bytes, assign,
}
use network_pool.Buffer.Copies.{write_bytes_lem}

abbrev pub memory_size : Option (List ℕ) → ℕ
memory_size none = 0
memory_size (some mem) = length mem

pub record IsValid (b : Buffer) : Type 0 where
  pub owns : memory_size b.memory ≡ b.max_length
  pub fits : b.length ≤ b.max_length

-- The valid bytes.
abbrev pub bytes_of : Option (List ℕ) → ℕ → List ℕ
bytes_of none n = []
bytes_of (some mem) n = take n mem

abbrev pub contents : Buffer → List ℕ
contents b = bytes_of b.memory b.length

-- A memory that was allocated has the size that was asked for.
abbrev pub IsSized : ℕ → Option (List ℕ) → Type 0
IsSized n none = Unit
IsSized n (some mem) = length mem ≡ n

-- No fault; what holds where the operation returns, and where it throws.
abbrev pub Ends : (Buffer → Type 0) → Type 0 → Outcome → Type 0
Ends Returned Threw (done b) = Returned b
Ends Returned Threw (threw b) = Threw
Ends Returned Threw fault = ⊥

-- A buffer that has the bytes.
pub record Has (bs : List ℕ) (b : Buffer) : Type 0 where
  pub valid : IsValid b
  pub contents : contents b ≡ bs

overwrite_at :
    (T : Type 0) (bs : List ℕ) (mem : Option (List ℕ)) (b : Buffer)
    → 0 < length bs
    → length bs ≤ b.max_length
    → memory_size mem ≡ b.max_length
    → Ends (Has bs) T (elim (memcpy bs mem) [
      | none ↦ fault
      | some after ↦ done (record b { memory = some after; length = length bs })
    ])
unfolding memcpy
overwrite_at T bs none b h k o = absurd (omega arith)
overwrite_at T bs (some mem) b h k o =
    let w = write_bytes_lem bs mem (omega arith) in
    rw w.writes (record { valid = record { owns = w.size ∙ o; fits = k }; contents = w.starts })

replace_lem :
    (T : Type 0) (bs : List ℕ) (malloced : Option (List ℕ)) (b : Buffer)
    → IsSized (length bs) malloced
    → (malloced ≡ none → T)
    → Ends (Has bs) T (replace bs malloced b)
unfolding replace filled
replace_lem T bs none b h t = t refl
replace_lem T bs (some mem) b h t =
    let w = write_bytes_lem bs mem (omega arith) in
    rw w.writes
      (record { valid = record { owns = w.size ∙ h; fits = omega arith }; contents = w.starts })

bytes_zero : (mem : Option (List ℕ)) → bytes_of mem 0 ≡ []
unfolding take
bytes_zero none = refl
bytes_zero (some mem) = refl

empty_lem :
    (bs : List ℕ) (b : Buffer)
    → IsValid b
    → length bs ≤ 0
    → Has bs (record b { length = length bs })
empty_lem [] b v h = record {
  valid = record { owns = v.owns; fits = omega arith };
  contents = bytes_zero b.memory;
}
empty_lem (x ∷ bs) b v h = absurd (omega arith)

-- `set` on a well-formed buffer stays within the memory. It returns a well-formed buffer that has
-- exactly the bytes; it throws only where the bytes need a larger memory and there is none.
pub set_lem :
    (bs : List ℕ) (malloced : Option (List ℕ)) (b : Buffer)
    → IsValid b
    → IsSized (length bs) malloced
    → Ends (Has bs) ((malloced ≡ none) × (b.max_length < length bs)) (set bs malloced b)
unfolding set overwrite
set_lem bs malloced b v s = elim (leb-cases (length bs) b.max_length) [
  | inl (e, le) ↦ elim (ltb-cases 0 (length bs)) [
    | inl (f, lt) ↦ rw (e, f) (overwrite_at _ bs b.memory b lt le v.owns)
    | inr (f, ge) ↦ rw (e, f) (empty_lem bs b v ge)
  ]
  | inr (e, lt) ↦ rw e (replace_lem _ bs malloced b s (λ m. (m, lt)))
]

pub read_lem :
    (n : ℕ) (mem : Option (List ℕ))
    → 0 < n
    → n ≤ memory_size mem
    → read n mem ≡ some (bytes_of mem n)
unfolding read
read_lem n none h k = absurd (omega arith)
read_lem n (some mem) h k = ground arith

pub length-bytes_of :
    (n : ℕ) (mem : Option (List ℕ)) → n ≤ memory_size mem → length (bytes_of mem n) ≡ n
length-bytes_of n none h = omega arith
length-bytes_of n (some mem) h = length-take n mem h

-- `operator=` from a well-formed buffer does what `set` does with the valid bytes of that buffer.
pub assign-set :
    (other : Buffer) (malloced : Option (List ℕ)) (b : Buffer)
    → IsValid other
    → assign other malloced b ≡ set (contents other) malloced b
unfolding assign set replace with_bytes
assign-set other malloced b v =
    let n = length-bytes_of other.length other.memory (omega arith) in
    rw n (elim (leb-cases other.length b.max_length) [
      | inl (e, le) ↦ elim (ltb-cases 0 other.length) [
        | inl (f, lt) ↦ rw (e, f, read_lem other.length other.memory lt (omega arith))
        | inr (f, ge) ↦ rw (e, f)
      ]
      | inr (e, lt) ↦ elim (Option-cases malloced) [
        | inl m ↦ rw (e, m)
        | inr (mem, m) ↦
            rw (e, m, read_lem other.length other.memory (omega arith) (omega arith), n)
      ]
    ])

not_empty : (x : ℕ) (bs : List ℕ) → (length (x ∷ bs) == 0) ≡ false
not_empty x bs = ground arith

-- A new buffer has exactly the bytes that it was given; the constructor throws only where there is
-- no memory for them.
pub make_lem :
    (trace : ℕ) (bs : List ℕ) (malloced : Option (List ℕ))
    → IsSized (length bs) malloced
    → Ends (Has bs) ((malloced ≡ none) × (0 < length bs)) (make trace bs malloced)
unfolding make
make_lem trace [] malloced s = record {
  valid = record { owns = refl; fits = omega arith };
  contents = refl;
}
make_lem trace (x ∷ bs) malloced s = rw (not_empty x bs) (
    replace_lem _ (x ∷ bs) malloced
      (record { trace = trace; memory = none; length = 0; max_length = 0 }) s
      (λ m. (m, omega arith)))
