-- ===== src/Buffer/Made.antt =====
-- The constructors of Cbuffer (buffer.h) that copy or move another buffer.
use network_pool.Common.{
  ℕ, ◌<◌, ◌≡◌, refl, false, Option, List, arith, ◌==◌, Bool-cases, Option-cases, inl, inr,
}
use network_pool.Buffer.{Buffer, with_bytes, replace, make, make_empty, make_copy}
use network_pool.Buffer.Laws.{IsValid, contents, read_lem, length-bytes_of}

-- A copy of a well-formed buffer is what the constructor from bytes makes of the valid bytes.
make_copy-make :
    (other : Buffer) (malloced : Option (List ℕ))
    → IsValid other
    → make_copy other malloced ≡ make other.trace (contents other) malloced
unfolding make_copy make make_empty replace with_bytes
make_copy-make other malloced v =
    let n = length-bytes_of other.length other.memory (omega (arith, v.owns, v.fits)) in
    rw n (elim (Bool-cases (other.length == 0)) [
      | inl e ↦ rw e refl
      | inr e ↦ elim (Option-cases malloced) [
        | inl m ↦ rw (e, m) refl
        | inr (mem, m) ↦
            rw
              (
                e,
                m,
                read_lem other.length other.memory (positive other.length e)
                    (omega (arith, v.owns, v.fits)),
                n,
              )
              refl
      ]
    ])
  where
    positive : (k : ℕ) → (k == 0) ≡ false → 0 < k
    positive k e = ground (arith, e)
