-- ===== src/MemoryTrace/Account.antt =====
-- The counters of CmemoryTrace (memory_trace.h) against the blocks in use.
use network_pool.Common.{
  ℕ, ◌+◌, ◌-◌, ◌%◌, ◌≤◌, ◌<◌, ◌≡◌, ◌↔◌, ap, refl, true, false, Option, none, some, List, [], ◌∷◌,
  arith, length, total, ltb, ◌==◌, if_both,
}
use network_pool.MemoryTrace.{
  Trace, size_limit, count_limit, new_trace, alloc_size, record_block, malloc, take_size, release,
  free, TraceCall, mallocs, frees, after_malloc, serve_call, serve_calls,
}

-- The test for overflow holds exactly where the sum leaves `size_t`.
pub overflow_iff :
    (sz : ℕ) → sz < size_limit → (ltb (alloc_size sz) sz ≡ true) ↔ (size_limit ≤ 8 + sz)
unfolding alloc_size
overflow_iff sz h = ground arith

pub fits_lem : (sz : ℕ) → 8 + sz < size_limit → ltb (alloc_size sz) sz ≡ false
unfolding alloc_size
fits_lem sz h = ground arith

abbrev pub sizes : List (ℕ × ℕ) → ℕ
sizes = total (λ b. b.1)

abbrev pub AreSmall : List (ℕ × ℕ) → Type 0
AreSmall [] = Unit
AreSmall ((p, n) ∷ bs) = (n < size_limit) × AreSmall bs

-- The counters are the sum of the sizes and the number of the blocks in use, as far as they reach.
pub record IsExact (t : Trace) : Type 0 where
  pub size : t.size ≡ sizes t.blocks % size_limit
  pub count : t.count ≡ length t.blocks % count_limit
  pub small : AreSmall t.blocks

pub new_trace-IsExact : IsExact new_trace
unfolding new_trace total
new_trace-IsExact = record { size = refl; count = refl; small = tt }

record_block-IsExact :
    (p n : ℕ) (t : Trace) → n < size_limit → IsExact t → IsExact (record_block p n t)
unfolding record_block total
record_block-IsExact p n t l h = record {
  size = omega (arith, h.size);
  count = omega (arith, h.count);
  small = (l, h.small);
}

-- What `take_size` finds, and what is left.
abbrev Splits : List (ℕ × ℕ) → Option ℕ × List (ℕ × ℕ) → Type 0
Splits bs (none, rest) = (sizes rest ≡ sizes bs) × (length rest ≡ length bs) × AreSmall rest
Splits bs (some n, rest) =
    (sizes rest + n ≡ sizes bs) × (length rest + 1 ≡ length bs) × AreSmall rest × (n < size_limit)

abbrev put_back : ℕ × ℕ → Option ℕ × List (ℕ × ℕ) → Option ℕ × List (ℕ × ℕ)
put_back b (found, rest) = (found, b ∷ rest)

put_back-Splits :
    (q n : ℕ) (bs : List (ℕ × ℕ)) (r : Option ℕ × List (ℕ × ℕ))
    → n < size_limit
    → Splits bs r
    → Splits ((q, n) ∷ bs) (put_back (q, n) r)
unfolding total
put_back-Splits q n bs (none, rest) l h = (omega (arith, h.0), omega (arith, h.1), (l, h.2))
put_back-Splits q n bs (some m, rest) l h = (omega (arith, h.0), omega (arith, h.1), (l, h.2), h.3)

take_size-Splits : (p : ℕ) (bs : List (ℕ × ℕ)) → AreSmall bs → Splits bs (take_size p bs)
unfolding take_size total
take_size-Splits p [] s = (refl, refl, tt)
take_size-Splits p ((q, n) ∷ bs) s =
    if_both (Splits ((q, n) ∷ bs)) (q == p) (omega arith, omega arith, s.1, s.0)
      (put_back-Splits q n bs (take_size p bs) s.0 (take_size-Splits p bs s.1))

-- What holds of the state that an operation leaves, if it leaves one.
abbrev pub Leaves : (Trace → Type 0) → Option Trace → Type 0
Leaves P none = Unit
Leaves P (some t) = P t

release-IsExact :
    (r : Option ℕ × List (ℕ × ℕ)) (t : Trace)
    → IsExact t
    → Splits t.blocks r
    → Leaves IsExact (release r t)
unfolding release
release-IsExact (none, rest) t h s = tt
release-IsExact (some n, rest) t h s = record {
  size = omega (arith, h.size, s.0, s.3);
  count = omega (arith, h.count, s.1);
  small = s.2;
}

-- `_free_set_nullptr` keeps the counters exact.
pub free-IsExact : (p : Option ℕ) (t : Trace) → IsExact t → Leaves IsExact (free p t)
unfolding free
free-IsExact none t h = h
free-IsExact (some p) t h =
    release-IsExact (take_size p t.blocks) t h (take_size-Splits p t.blocks h.small)

pub alloc_size-small : (sz : ℕ) → alloc_size sz < size_limit
unfolding alloc_size
alloc_size-small sz = omega arith

serve-IsExact : (r : TraceCall) (t : Trace) → IsExact t → Leaves IsExact (serve_call r t)
unfolding serve_call malloc after_malloc
serve-IsExact (mallocs sz none) t h =
    if_both (λ r. Leaves IsExact (after_malloc r)) (ltb (alloc_size sz) sz) tt h
serve-IsExact (mallocs sz (some p)) t h =
    if_both (λ r. Leaves IsExact (after_malloc r)) (ltb (alloc_size sz) sz) tt
      (record_block-IsExact p (alloc_size sz) t (alloc_size-small sz) h)
serve-IsExact (frees p) t h = free-IsExact p t h

then-IsExact :
    (rs : List TraceCall) (o : Option Trace) → Leaves IsExact o → Leaves IsExact (serve_calls rs o)
unfolding serve_calls
then-IsExact [] o h = h
then-IsExact (r ∷ rs) none h = then-IsExact rs none tt
then-IsExact (r ∷ rs) (some t) h = then-IsExact rs (serve_call r t) (serve-IsExact r t h)

-- After any sequence of allocations and releases that the program survives, the memory usage is the
-- sum of the sizes of the blocks in use, up to 2 ^ 64, and the object count their number, up to
-- 2 ^ 32.
pub serve_calls-IsExact : (rs : List TraceCall) → Leaves IsExact (serve_calls rs (some new_trace))
serve_calls-IsExact rs = then-IsExact rs (some new_trace) new_trace-IsExact

take_size_first : (p n : ℕ) (bs : List (ℕ × ℕ)) → take_size p ((p, n) ∷ bs) ≡ (some n, bs)
unfolding take_size
take_size_first p n bs = rw (same p)
  where
    same : (k : ℕ) → (k == k) ≡ true
    same k = ground arith

-- From exact counters, a block that is allocated and released again leaves the counters and the
-- blocks in use as they were.
pub free-record_block :
    (p n : ℕ) (t : Trace) → n < size_limit → IsExact t → free (some p) (record_block p n t) ≡ some t
unfolding free release record_block
free-record_block p n t l h =
    rw (take_size_first p n t.blocks)
      (ap some (λ i. record { size = back i; count = again i; blocks = t.blocks }))
  where
    back : ((t.size + n) % size_limit + (size_limit - n)) % size_limit ≡ t.size
    back = omega (arith, h.size)

    again : ((t.count + 1) % count_limit + (count_limit - 1)) % count_limit ≡ t.count
    again = omega (arith, h.count)
