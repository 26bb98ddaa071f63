-- ===== src/Heap/Places.antt =====
-- Where the blocks of the heap (memory_trace.h, fast_allocator.h, fast_allocator.cpp) are: in use, or
-- in the store of a size; and the room they have.
use network_pool.Common.{
  ℕ, ◌+◌, ◌≤◌, ◌≡◌, ap, subst, sym, false, suc, true, ◌⊎◌, inl, inr, Option, none, some, List, [],
  ◌∷◌, ◌==◌, if◌then◌else◌, total, arith, set_at,
}
use network_pool.MemoryTrace.{take_size}
use network_pool.Heap.{set_capacity}

-- How often a block is in a store, and among blocks in use.
abbrev pub stored : ℕ → List ℕ → ℕ
stored p = total (λ q. if q == p then 1 else 0)

abbrev pub used : ℕ → List (ℕ × ℕ) → ℕ
used p = total (λ b. if b.0 == p then 1 else 0)

-- Each block has room for the size it is in use with, or for the size of its store.
abbrev pub Fits : (ℕ → ℕ) → List (ℕ × ℕ) → Type 0
Fits c [] = Unit
Fits c ((p, n) ∷ bs) = (n ≤ c p) × Fits c bs

abbrev pub StoreFits : (ℕ → ℕ) → ℕ → List ℕ → Type 0
StoreFits c size [] = Unit
StoreFits c size (p ∷ ps) = (size ≤ c p) × StoreFits c size ps

-- With `inuse` saying how often a block is in use: no block is at two places.
pub record Placed (inuse : ℕ → ℕ) (store : ℕ → List ℕ) (c : ℕ → ℕ) : Type 0 where
  pub once : (p s s' : ℕ) → (s ≡ s') ⊎ (inuse p + stored p (store s) + stored p (store s') ≤ 1)
  pub fits : (s : ℕ) → StoreFits c s (store s)

-- The block that an allocation returned, counted, and its room.
abbrev pub counted : ℕ → Option ℕ → ℕ
counted q none = 0
counted q (some p) = if p == q then 1 else 0

abbrev pub Room : (ℕ → ℕ) → ℕ → Option ℕ → Type 0
Room c size none = Unit
Room c size (some p) = size ≤ c p

-- A block from `malloc` is at no place.
abbrev pub Fresh : (ℕ → ℕ) → (ℕ → List ℕ) → Option ℕ → Type 0
Fresh inuse store none = Unit
Fresh inuse store (some p) = (inuse p ≡ 0) × ((s : ℕ) → stored p (store s) ≡ 0)

StoreFits-set_at :
    (c : ℕ → ℕ) (p k s : ℕ) (ps : List ℕ)
    → stored p ps ≡ 0
    → StoreFits c s ps
    → StoreFits (set_at c p k) s ps
unfolding total
StoreFits-set_at c p k s [] e h = tt
StoreFits-set_at c p k s (q ∷ ps) e h =
    (ground (arith, e, h.0), StoreFits-set_at c p k s ps (ground (arith, e)) h.1)

pub Fits-set_at :
    (c : ℕ → ℕ) (p k : ℕ) (bs : List (ℕ × ℕ)) → used p bs ≡ 0 → Fits c bs → Fits (set_at c p k) bs
unfolding total
Fits-set_at c p k [] e h = tt
Fits-set_at c p k ((q, n) ∷ bs) e h =
    (ground (arith, e, h.0), Fits-set_at c p k bs (ground (arith, e)) h.1)

set_at-both :
    (c : ℕ → ℕ) (store : ℕ → List ℕ) (size : ℕ) (ps : List ℕ)
    → StoreFits c size ps
    → ((s : ℕ) → StoreFits c s (store s))
    → (s : ℕ) → StoreFits c s (set_at store size ps s)
set_at-both c store size ps g h s = elim at_size [
  | inl (t, e) ↦
      subst (λ b. StoreFits c s (if b then ps else store s)) (sym t)
        (subst (λ k. StoreFits c k ps) (sym e) g)
  | inr t ↦ subst (λ b. StoreFits c s (if b then ps else store s)) (sym t) (h s)
]
  where
    at_size : (((s == size) ≡ true) × (s ≡ size)) ⊎ ((s == size) ≡ false)
    at_size = ground arith

module _ (inuse : ℕ → ℕ) (store : ℕ → List ℕ) (c : ℕ → ℕ) (h : Placed inuse store c) where
  alone : (q s : ℕ) → inuse q + stored q (store s) ≤ 1
  alone q s = ground (arith, h.once q s (suc s))

  -- A block from `malloc` comes into use.
  pub block-Placed :
      (malloced : Option ℕ) (k : ℕ)
      → Fresh inuse store malloced
      → Placed (λ q. counted q malloced + inuse q) store (set_capacity true malloced k c)
  unfolding set_capacity
  block-Placed none k f = record { once = λ q s s'. ground (arith, h.once q s s'); fits = h.fits }
  block-Placed (some p) k f = record {
    once = λ q s s'. ground (arith, h.once q s s', f.0, f.1 s, f.1 s');
    fits = λ s. StoreFits-set_at c p k s (store s) (f.1 s) (h.fits s);
  }

  -- The first block of a store comes into use.
  pub pop-Placed :
      (size p : ℕ) (ps : List ℕ)
      → store size ≡ p ∷ ps
      → Placed (λ q. counted q (some p) + inuse q) (set_at store size ps) c
  unfolding total
  pop-Placed size p ps e = record {
    once = λ q s s'.
        let was : stored q (store size) ≡ stored q (p ∷ ps) = ap (stored q) e in
        ground
          (arith, h.once q s s', was, alone q s, alone q s', h.once q size s, h.once q size s');
    fits = set_at-both c store size ps (subst (StoreFits c size) e (h.fits size)).1 h.fits;
  }

  -- A block in use goes into a store that it has the room for.
  pub push-Placed :
      (size p : ℕ) (rest : ℕ → ℕ)
      → ((q : ℕ) → counted q (some p) + rest q ≡ inuse q)
      → size ≤ c p
      → Placed rest (set_at store size (p ∷ store size)) c
  unfolding total
  push-Placed size p rest e l = record {
    once = λ q s s'. ground (arith, h.once q s s', e q, h.once q size s, h.once q size s');
    fits = set_at-both c store size (p ∷ store size) (l, h.fits size) h.fits;
  }

  -- Blocks in use go back to the system, or to other lists.
  pub fewer-Placed : (rest : ℕ → ℕ) → ((q : ℕ) → rest q ≤ inuse q) → Placed rest store c
  fewer-Placed rest e = record {
    once = λ q s s'. ground (arith, h.once q s s', e q);
    fits = h.fits;
  }

-- What `take_size` finds, and what is left.
abbrev pub Parts : ℕ → (ℕ → ℕ) → List (ℕ × ℕ) → Option ℕ × List (ℕ × ℕ) → Type 0
Parts p c bs (none, rest) = Unit
Parts p c bs (some n, rest) =
    ((q : ℕ) → counted q (some p) + used q rest ≡ used q bs) × (n ≤ c p) × Fits c rest

abbrev put_back : ℕ × ℕ → Option ℕ × List (ℕ × ℕ) → Option ℕ × List (ℕ × ℕ)
put_back b (found, rest) = (found, b ∷ rest)

put_back-Parts :
    (p q n : ℕ) (c : ℕ → ℕ) (bs : List (ℕ × ℕ)) (r : Option ℕ × List (ℕ × ℕ))
    → n ≤ c q
    → Parts p c bs r
    → Parts p c ((q, n) ∷ bs) (put_back (q, n) r)
unfolding total
put_back-Parts p q n c bs (none, rest) l h = tt
put_back-Parts p q n c bs (some m, rest) l h = (λ k. ground (arith, h.0 k), h.1, (l, h.2))

first-Parts :
    (p q n : ℕ) (c : ℕ → ℕ) (bs : List (ℕ × ℕ))
    → q ≡ p
    → n ≤ c q
    → Fits c bs
    → Parts p c ((q, n) ∷ bs) (some n, bs)
unfolding total
first-Parts p q n c bs e l h = (λ k. ground (arith, e), subst (λ k. n ≤ c k) e l, h)

pub take_size-Parts :
    (p : ℕ) (c : ℕ → ℕ) (bs : List (ℕ × ℕ)) → Fits c bs → Parts p c bs (take_size p bs)
unfolding take_size
take_size-Parts p c [] h = tt
take_size-Parts p c ((q, n) ∷ bs) h = elim is_p [
  | inl (t, e) ↦ rw (t) (first-Parts p q n c bs e h.0 h.1)
  | inr t ↦ rw (t) (put_back-Parts p q n c bs (take_size p bs) h.0 (take_size-Parts p c bs h.1))
]
  where
    is_p : (((q == p) ≡ true) × (q ≡ p)) ⊎ ((q == p) ≡ false)
    is_p = ground arith
