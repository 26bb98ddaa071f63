-- ===== src/Http/Content/Merge.antt =====
-- `getContent` of http_context.h: the body in one piece.
use mathlib.Core.List.{reverse, reverse-append}
use network_pool.Common.{
  ℕ, zero, suc, ◌+◌, ◌%◌, ◌≤◌, ◌<◌, ◌≡◌, refl, sym, ◌∙◌, ap, subst, Option, none, some, List, [],
  ◌∷◌, ◌++◌, arith, length, take, drop, length-take, take-empty, length-drop, total, total-append,
  leb-cases, inl, inr,
}
use network_pool.Buffer.{Buffer, Outcome, done, threw, fault, resize}
use network_pool.Buffer.Laws.{IsValid, IsSized, Ends, Has, memory_size, bytes_of}
use network_pool.Buffer.Resize.{Resized, resize_lem}
use network_pool.Http.{state_done, HttpContext, bytes, size_limit}
use network_pool.Http.Content.{
  Reading, got, refused, beyond, is_done, is_good, slice, put, copy_chunks, chunk_size, copy_to,
  get_content,
}

-- The bytes of the parts, one after another.
unfoldable pub merged : List (ℕ × ℕ) → List ℕ → List ℕ
merged [] mem = []
merged ((start, n) ∷ cs) mem = take n (drop start mem) ++ merged cs mem

-- Each part lies within the memory.
abbrev pub PartsIn : ℕ → List (ℕ × ℕ) → Type 0
PartsIn size [] = Unit
PartsIn size ((start, n) ∷ cs) = (start + n ≤ size) × PartsIn size cs

-- A memory of the same size that starts with the bytes.
abbrev Copied : List ℕ → ℕ → List ℕ → Option (List ℕ) → Type 0
Copied dst n xs o =
    (after : List ℕ) × (o ≡ some after) × (length after ≡ length dst) × (take n after ≡ xs)

put_lem :
    (bs dst xs : List ℕ) (n m : ℕ) (k : List ℕ → Option (List ℕ))
    → m ≡ length bs + n
    → m ≤ length dst
    → ((rest : List ℕ) → n ≤ length rest → Copied rest n xs (k rest))
    → Copied dst m (bs ++ xs) (put bs dst k)
unfolding put take
put_lem [] dst xs n m k e h g =
    subst (λ i. Copied dst i xs (k dst)) (omega (arith, e)) (g dst (omega (arith, e, h)))
put_lem (b ∷ bs) dst xs n zero k e h g = absurd (omega arith)
put_lem (b ∷ bs) [] xs n (suc m) k e h g = absurd (omega arith)
put_lem (b ∷ bs) (d ∷ dst) xs n (suc m) k e h g =
    let (after, w, l, t) = put_lem bs dst xs n m k (omega arith) (omega arith) g in
    (b ∷ after, rw w refl, ap suc l, ap (◌∷◌ b) t)

pub slice-some :
    (start n : ℕ) (mem : List ℕ)
    → start + n ≤ length mem
    → slice start n mem ≡ some (take n (drop start mem))
unfolding slice
slice-some start n mem h = elim (leb-cases (start + n) (length mem)) [
  | inl (t, _) ↦ rw t
  | inr (_, lt) ↦ absurd (omega arith)
]

copy_chunks_lem :
    (cs : List (ℕ × ℕ)) (src dst : List ℕ)
    → PartsIn (length src) cs
    → total chunk_size cs ≤ length dst
    → Copied dst (total chunk_size cs) (merged cs src) (copy_chunks cs src dst)
unfolding copy_chunks merged total take
copy_chunks_lem [] src dst p h = (dst, refl, refl, refl)
copy_chunks_lem ((start, n) ∷ cs) src dst p h =
    let len : length (take n (drop start src)) ≡ n =
      length-take n (drop start src) (omega (arith, length-drop start src, p.0)) in
    rw (copy_chunks, slice-some start n src p.0)
      (put_lem (take n (drop start src)) dst (merged cs src) (total chunk_size cs) _
        (λ rest. copy_chunks cs src rest) (omega (arith, len)) h
        (λ rest le. copy_chunks_lem cs src rest p.1 le))

pub total-reverse : (cs : List (ℕ × ℕ)) → total chunk_size (reverse cs) ≡ total chunk_size cs
unfolding total
total-reverse [] = refl
total-reverse (c ∷ cs) =
    ap (total chunk_size) (reverse-append (c ∷ []) cs)
    ∙ total-append chunk_size (reverse cs) (c ∷ [])
    ∙ omega (arith, total-reverse cs)

PartsIn-append :
    (size : ℕ) (cs : List (ℕ × ℕ)) (c : ℕ × ℕ)
    → PartsIn size cs
    → PartsIn size (c ∷ [])
    → PartsIn size (cs ++ c ∷ [])
PartsIn-append size [] c h k = k
PartsIn-append size ((start, n) ∷ cs) c h k = (h.0, PartsIn-append size cs c h.1 k)

pub PartsIn-reverse : (size : ℕ) (cs : List (ℕ × ℕ)) → PartsIn size cs → PartsIn size (reverse cs)
PartsIn-reverse size [] h = tt
PartsIn-reverse size ((start, n) ∷ cs) h =
    rw (reverse-append ((start, n) ∷ []) cs)
      (PartsIn-append size (reverse cs) (start, n) (PartsIn-reverse size cs h.1) (h.0, tt))

-- The call returns true, with what holds of the value.
abbrev pub Reads {ℓ} : {A : Type ℓ} → (A → Type 0) → Reading A → Type 0
Reads P (got a) = P a
Reads P refused = ⊥
Reads P beyond = ⊥

copy_to_lem :
    (T : Type 0) (c : HttpContext) (b : Buffer) (mem : Option (List ℕ))
    → PartsIn (length (bytes c)) c.chunks
    → b.memory ≡ mem
    → IsValid b
    → b.length ≡ total chunk_size c.chunks
    → Reads (Ends (Has (merged (reverse c.chunks) (bytes c))) T) (elim mem [
      | none ↦ elim (copy_chunks (reverse c.chunks) (bytes c) []) [
        | none ↦ got fault
        | some after ↦ got (done b)
      ]
      | some mem ↦ elim (copy_chunks (reverse c.chunks) (bytes c) mem) [
        | none ↦ got fault
        | some after ↦ got (done (record b { memory = some after }))
      ]
    ])
copy_to_lem T c b none p m v e =
    let t = total-reverse c.chunks in
    let o : 0 ≡ b.max_length = sym (ap memory_size m) ∙ v.owns in
    let (after, w, l, s) =
      copy_chunks_lem (reverse c.chunks) (bytes c) []
        (PartsIn-reverse (length (bytes c)) c.chunks p) (omega (arith, t, o, e, v.fits)) in
    rw w (record {
      valid = v;
      contents = ap (λ i. bytes_of i b.length) m ∙ sym (take-empty _ after l) ∙ s;
    })
copy_to_lem T c b (some mem) p m v e =
    let t = total-reverse c.chunks in
    let o : length mem ≡ b.max_length = sym (ap memory_size m) ∙ v.owns in
    let (after, w, l, s) =
      copy_chunks_lem (reverse c.chunks) (bytes c) mem
        (PartsIn-reverse (length (bytes c)) c.chunks p) (omega (arith, t, o, e, v.fits)) in
    rw w (record {
      valid = record { owns = l ∙ o; fits = v.fits };
      contents = ap (λ n. take n after) (e ∙ sym t) ∙ s;
    })

-- `getContent` of a complete message, of parts that lie within the memory and of a total that a
-- `size_t` holds, leaves in a well-formed buffer exactly the parts of the body, one after another
-- in their order. It makes no access outside of a memory, and throws only where the buffer is too
-- small and there is no memory for a larger one.
pub get_content_lem :
    (b : Buffer) (malloced : Option (List ℕ)) (c : HttpContext)
    → c.state ≡ state_done
    → PartsIn (length (bytes c)) c.chunks
    → total chunk_size c.chunks < size_limit
    → IsValid b
    → IsSized (total chunk_size c.chunks) malloced
    → Reads
        (Ends
          (Has (merged (reverse c.chunks) (bytes c)))
          ((malloced ≡ none) × (b.max_length < total chunk_size c.chunks)))
        (get_content b malloced c)
unfolding get_content is_good is_done copy_to
get_content_lem b malloced c s p lt v z =
    rw (s, small)
      (go (resize (total chunk_size c.chunks) 0 malloced b) (
        resize_lem (total chunk_size c.chunks) 0 0 malloced b v z (omega arith) (omega arith)
          (omega arith)))
  where
    small : total chunk_size c.chunks % size_limit ≡ total chunk_size c.chunks
    small = omega (arith, lt)

    go :
        (o : Outcome)
        → Ends
            (Resized (total chunk_size c.chunks) 0 b)
            ((malloced ≡ none) × (b.max_length < total chunk_size c.chunks))
            o
        → Reads
            (Ends
              (Has (merged (reverse c.chunks) (bytes c)))
              ((malloced ≡ none) × (b.max_length < total chunk_size c.chunks)))
            (elim o [ done d ↦ copy_to c d | threw d ↦ got (threw d) | fault ↦ got fault ])
    go (done d) r = copy_to_lem _ c d d.memory p refl r.valid r.length
    go (threw d) r = r
    go fault r = r
