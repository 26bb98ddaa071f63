-- ===== src/Http/Memory.antt =====
-- The reads and writes of `analysis` (http_context.h) within the memory.
use network_pool.Common.{
  ℕ, zero, suc, ◌+◌, ◌*◌, ◌%◌, ◌<◌, ◌≡◌, refl, sym, ap, subst, ◌∙◌, Bool, true, not, Option, none,
  some, List, arith, length, get_elem?, set_elem, length-set_elem, set_elem-keeps, set_elem-same,
  get_elem?-some, if_both, ◌||◌, Bool-cases, inl, inr, if◌then◌else◌, ◌==◌,
}
use network_pool.Http.Text.{is_space}
use network_pool.Http.{size_limit, HttpContext, bytes_in, bytes}
use network_pool.Http.Analysis.{
  Advance, fault, with_byte, zero_at, bad, end_of_line, hex_digit, size_byte,
}

zeroed :
    (i : ℕ) (mem : Option (List ℕ))
    → bytes_in (elim mem [ none ↦ none | some m ↦ some (set_elem i 0 m) ])
      ≡ set_elem i 0 (bytes_in mem)
unfolding set_elem
zeroed i none = refl
zeroed i (some m) = refl

pub bytes-zero_at : (i : ℕ) (c : HttpContext) → bytes (zero_at i c) ≡ set_elem i 0 (bytes c)
unfolding zero_at
bytes-zero_at i c = zeroed i c.buffer.memory

-- A null stands at the place.
abbrev pub IsNull : List ℕ → ℕ → Type 0
IsNull mem i = get_elem? mem i ≡ some 0

-- The memory after "Null-terminate the line." at the newline `suc i`.
abbrev pub nulled : ℕ → List ℕ → List ℕ
nulled i mem = set_elem (suc i) 0 (set_elem i 0 mem)

pub bytes-nulled :
    (i : ℕ) (c : HttpContext) → bytes (zero_at (suc i) (zero_at i c)) ≡ nulled i (bytes c)
bytes-nulled i c = bytes-zero_at (suc i) (zero_at i c) ∙ ap (set_elem (suc i) 0) (bytes-zero_at i c)

pub length-nulled : (i : ℕ) (mem : List ℕ) → length (nulled i mem) ≡ length mem
length-nulled i mem = length-set_elem (suc i) 0 (set_elem i 0 mem) ∙ length-set_elem i 0 mem

pub nulled-IsNull : (i k : ℕ) (mem : List ℕ) → IsNull mem k → IsNull (nulled i mem) k
nulled-IsNull i k mem h = set_elem-keeps (suc i) k 0 (set_elem i 0 mem) (set_elem-keeps i k 0 mem h)

pub nulled-first : (i : ℕ) (mem : List ℕ) → i < length mem → IsNull (nulled i mem) i
nulled-first i mem h = set_elem-keeps (suc i) i 0 (set_elem i 0 mem) (set_elem-same i 0 mem h)

pub nulled-second : (i : ℕ) (mem : List ℕ) → suc i < length mem → IsNull (nulled i mem) (suc i)
nulled-second i mem h = set_elem-same (suc i) 0 (set_elem i 0 mem) (rw (length-set_elem i 0 mem) h)

-- A read in range is no fault.
pub with_byte-Post {κ} :
    (P : Advance → Type κ) (i : ℕ) (c : HttpContext) (k : ℕ → Advance)
    → i < length (bytes c)
    → ((ch : ℕ) → get_elem? (bytes c) i ≡ some ch → P (k ch))
    → P (with_byte i c k)
unfolding with_byte
with_byte-Post P i c k lt h =
    let (ch, e) = get_elem?-some (bytes c) i lt in
    subst (λ o. P (elim o [ none ↦ fault | some ch ↦ k ch ])) (sym e) (h ch e)

-- The end of a line that is not at the start of the memory.
pub end_of_line-Post {κ} :
    (P : Advance → Type κ) (i : ℕ) (c : HttpContext) (k : HttpContext → Advance)
    → c.analysis_index ≡ suc i
    → suc i < length (bytes c)
    → P (bad c)
    → (get_elem? (bytes c) i ≡ some 13 → P (k (zero_at (suc i) (zero_at i c))))
    → P (end_of_line c k)
unfolding end_of_line
end_of_line-Post P i c k e lt hb h =
    subst
      (λ n. P (elim n [
        | zero ↦ fault
        | suc i ↦
            with_byte i c
              (λ before. if not (before == 13) then bad c else k (zero_at (suc i) (zero_at i c)))
      ]))
      (sym e)
      (with_byte-Post P i c _ (omega arith) (λ ch g. elim (Bool-cases (ch == 13)) [
        | inl t ↦ rw t (h (ground (arith, g, t)))
        | inr t ↦ rw t hb
      ]))

-- A byte of the size of a chunk changes what is known of the size only.
pub size_byte-Post {κ} :
    (P : HttpContext → Type κ) (ch : ℕ) (c : HttpContext)
    → ((n : ℕ) (s d : Bool)
        → P (record c { now_chunk_size = n; chunk_size_start = s; chunk_size_done = d }))
    → P (size_byte ch c)
unfolding size_byte
size_byte-Post P ch c h =
    if_both P c.chunk_size_done (h c.now_chunk_size c.chunk_size_start c.chunk_size_done)
      (go (hex_digit ch))
  where
    go :
        (o : Option ℕ)
        → P (elim o [
          | some d ↦ record c {
            now_chunk_size = (c.now_chunk_size * 16 + d) % size_limit;
            chunk_size_start = true;
          }
          | none ↦
              if c.chunk_size_start || not (is_space ch)
              then record c { chunk_size_done = true }
              else c
        ])
    go (some d) = h ((c.now_chunk_size * 16 + d) % size_limit) true c.chunk_size_done
    go none =
        if_both P (c.chunk_size_start || not (is_space ch))
          (h c.now_chunk_size c.chunk_size_start true)
          (h c.now_chunk_size c.chunk_size_start c.chunk_size_done)
