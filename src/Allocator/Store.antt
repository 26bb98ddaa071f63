-- ===== src/Allocator/Store.antt =====
-- The stores of fast_allocator.cpp: their counts and bounds, and what goes in and comes out.
use network_pool.Common.{
  ℕ, ◌≤◌, ◌<◌, ◌≡◌, ◌≢◌, ◌==◌, ltb, refl, ap, sym, ◌∙◌, false, Option, none, some, List, [], ◌∷◌,
  arith, length, if_both, set_at, ltb-cases, inl, inr, subst, Bool, suc, if◌then◌else◌,
}
use network_pool.Allocator.{
  Allocator, is_direct, decrement, take_block, alloc, system_free, free, Request, allocs, frees,
  serve, serve_all,
}

-- The count of each size is the number of blocks in its store, and within the bound.
pub record IsBounded (a : Allocator) : Type 0 where
  pub counts : (size : ℕ) → a.count size ≡ length (a.store size)
  pub bounds : (size : ℕ) → a.count size ≤ a.max_number size

take_block-IsBounded :
    (size : ℕ) (ps : List ℕ) (malloced : Option ℕ) (a : Allocator)
    → a.store size ≡ ps
    → IsBounded a
    → IsBounded (take_block size ps malloced a).1
unfolding take_block decrement
take_block-IsBounded size [] malloced a e h = h
take_block-IsBounded size (p ∷ ps) malloced a e h =
    let c = h.counts size ∙ ap length e in
    record {
      counts = λ s. ground (arith, h.counts s, c);
      bounds = λ s. ground (arith, h.bounds s, h.bounds size, c);
    }

-- The allocator with one more block in a store.
abbrev put : ℕ → ℕ → Allocator → Allocator
put p size a = record a {
  store = set_at a.store size (p ∷ a.store size);
  count = set_at a.count size (suc (a.count size));
}

-- There is room for one more block.
put_lem :
    (p size : ℕ) (a : Allocator)
    → a.count size < a.max_number size
    → IsBounded a
    → IsBounded (put p size a)
put_lem p size a lt h = record {
  counts = λ s. ground (arith, h.counts s, h.counts size);
  bounds = λ s. ground (arith, h.bounds s);
}

free-IsBounded : (p : Option ℕ) (size : ℕ) (a : Allocator) → IsBounded a → IsBounded (free p size a)
unfolding free system_free
free-IsBounded none size a h = h
free-IsBounded (some p) size a h =
    let direct : IsBounded (record a { freed = p ∷ a.freed }) = record {
      counts = h.counts;
      bounds = h.bounds;
    } in
    if_both IsBounded (is_direct size a) direct
      (elim (ltb-cases (a.count size) (a.max_number size)) [
        | inl (e, lt) ↦ subst (room p size a) (sym e) (put_lem p size a lt h)
        | inr (e, ge) ↦ subst (room p size a) (sym e) direct
      ])
  where
    room : ℕ → ℕ → Allocator → Bool → Type 0
    room p size a b = IsBounded (if b then put p size a else record a { freed = p ∷ a.freed })

serve-IsBounded : (r : Request) (a : Allocator) → IsBounded a → IsBounded (serve r a)
unfolding serve alloc
serve-IsBounded (allocs size malloced) a h =
    if_both {A = Option ℕ × Allocator} (λ r. IsBounded r.1) (is_direct size a) h
      (take_block-IsBounded size (a.store size) malloced a refl h)
serve-IsBounded (frees p size) a h = free-IsBounded p size a h

-- How often a block is in a list.
unfoldable pub times : ℕ → List ℕ → ℕ
times q [] = 0
times q (p ∷ ps) = if p == q then suc (times q ps) else times q ps

-- No block is in a store twice, or in the stores of two sizes.
pub record IsOnce (a : Allocator) : Type 0 where
  pub once : (q size : ℕ) → times q (a.store size) ≤ 1
  pub apart :
      (q size other : ℕ) → size ≢ other → 0 < times q (a.store size) → times q (a.store other) ≡ 0

-- A block that is freed is in no store at that time.
abbrev pub AreOutside : List Request → Allocator → Type 0
AreOutside [] a = Unit
AreOutside (allocs size malloced ∷ rs) a = AreOutside rs (serve (allocs size malloced) a)
AreOutside (frees none size ∷ rs) a = AreOutside rs (serve (frees none size) a)
AreOutside (frees (some p) size ∷ rs) a =
    ((s : ℕ) → times p (a.store s) ≡ 0) × AreOutside rs (serve (frees (some p) size) a)

-- Stores that have no block more often than before.
fewer-IsOnce :
    (a b : Allocator)
    → IsOnce a
    → ((q s : ℕ) → times q (b.store s) ≤ times q (a.store s))
    → IsOnce b
fewer-IsOnce a b h le = record {
  once = λ q s. omega (arith, le q s, h.once q s);
  apart = λ q s o ne pos. omega (arith, le q o, h.apart q s o ne (omega (arith, pos, le q s)));
}

times_more : (p q : ℕ) (ps : List ℕ) → times q ps ≤ times q (p ∷ ps)
unfolding times
times_more p q ps = ground arith

take_block-IsOnce :
    (size : ℕ) (ps : List ℕ) (malloced : Option ℕ) (a : Allocator)
    → a.store size ≡ ps
    → IsOnce a
    → IsOnce (take_block size ps malloced a).1
unfolding take_block
take_block-IsOnce size [] malloced a e h = h
take_block-IsOnce size (p ∷ ps) malloced a e h =
    fewer-IsOnce a _ h (λ q s. ground (arith, times_more p q ps, ap (times q) e))

put-IsOnce :
    (p size : ℕ) (a : Allocator)
    → ((s : ℕ) → times p (a.store s) ≡ 0)
    → IsOnce a
    → IsOnce (put p size a)
unfolding times
put-IsOnce p size a out h = record {
  once = λ q s. ground (arith, h.once q s, out s, out size);
  apart = λ q s o ne pos. ground (arith, h.apart q s o ne, out s, out o);
}

serve-IsOnce :
    (r : Request) (rs : List Request) (a : Allocator)
    → AreOutside (r ∷ rs) a
    → IsOnce a
    → IsOnce (serve r a) × AreOutside rs (serve r a)
unfolding serve alloc free system_free
serve-IsOnce (allocs size malloced) rs a o h = (
  if_both {A = Option ℕ × Allocator} (λ r. IsOnce r.1) (is_direct size a) h
      (take_block-IsOnce size (a.store size) malloced a refl h),
  o,
)
serve-IsOnce (frees none size) rs a o h = (h, o)
serve-IsOnce (frees (some p) size) rs a o h = (
  if_both IsOnce (is_direct size a) same
      (if_both IsOnce (ltb (a.count size) (a.max_number size)) (put-IsOnce p size a o.0 h) same),
  o.1,
)
  where
    same : IsOnce (record a { freed = p ∷ a.freed })
    same = record { once = h.once; apart = h.apart }

-- Over any sequence of calls in which no block is freed while it is in a store, the count of each
-- size stays the number of blocks in its store, and within the largest number for the size, and no
-- block gets into a store twice or into two stores.
pub serve_all-IsBounded :
    (rs : List Request) (a : Allocator)
    → AreOutside rs a
    → IsBounded a
    → IsOnce a
    → IsBounded (serve_all rs a) × IsOnce (serve_all rs a)
unfolding serve_all
serve_all-IsBounded [] a o h k = (h, k)
serve_all-IsBounded (r ∷ rs) a o h k =
    let n = serve-IsOnce r rs a o k in
    serve_all-IsBounded rs (serve r a) n.1 (serve-IsBounded r a h) n.0

free-put :
    (p size : ℕ) (a : Allocator)
    → is_direct size a ≡ false
    → a.count size < a.max_number size
    → free (some p) size a ≡ put p size a
unfolding free
free-put p size a d lt = elim (ltb-cases (a.count size) (a.max_number size)) [
  | inl (e, _) ↦ rw (d, e)
  | inr (e, ge) ↦ absurd (omega arith)
]

set_at_same {ℓ} : {A : Type ℓ} (f : ℕ → A) (k : ℕ) (x : A) → set_at f k x k ≡ x
set_at_same f k x = ground arith

decrement-suc : (n : ℕ) → decrement (suc n) ≡ n
unfolding decrement
decrement-suc n = ground arith

alloc-put :
    (p size : ℕ) (malloced : Option ℕ) (a : Allocator)
    → is_direct size a ≡ false
    → alloc size malloced (put p size a) ≡ (
      some p,
      record (put p size a) {
        store = set_at (put p size a).store size (a.store size);
        count = set_at (put p size a).count size (decrement ((put p size a).count size));
      },
    )
unfolding alloc take_block is_direct
alloc-put p size malloced a d = rw (d, set_at_same a.store size (p ∷ a.store size))

-- Where a size has a store with room, a block that is freed is the next one that is allocated, and
-- then the store of the size and its count are what they were.
pub alloc-free :
    (p size : ℕ) (malloced : Option ℕ) (a : Allocator)
    → is_direct size a ≡ false
    → a.count size < a.max_number size
    → ((alloc size malloced (free (some p) size a)).0 ≡ some p)
      × ((alloc size malloced (free (some p) size a)).1.store size ≡ a.store size)
      × ((alloc size malloced (free (some p) size a)).1.count size ≡ a.count size)
alloc-free p size malloced a d lt =
    rw (free-put p size a d lt, alloc-put p size malloced a d)
      (
        refl,
        set_at_same (put p size a).store size (a.store size),
        set_at_same (put p size a).count size _
            ∙ ap decrement (set_at_same a.count size (suc (a.count size)))
            ∙ decrement-suc (a.count size),
      )
