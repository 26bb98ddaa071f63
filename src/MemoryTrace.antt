-- ===== src/MemoryTrace.antt =====
-- CmemoryTrace of memory_trace.h. A block is a number, and `blocks` is the size that stands in front
-- of each block in use. What `__alloc` returns is an argument.
pub mod Account
pub mod Objects
use network_pool.Common.{
  ℕ, ◌+◌, ◌-◌, ◌%◌, Option, none, some, List, [], ◌∷◌, ltb, ◌==◌, if◌then◌else◌,
}

pub record Trace : Type 0 where
  pub size : ℕ
  pub count : ℕ
  pub blocks : List (ℕ × ℕ)

-- 2 ^ 64 and 2 ^ 32
abbrev pub size_limit : ℕ
size_limit = 18446744073709551616

abbrev pub count_limit : ℕ
count_limit = 4294967296

-- `CmemoryTrace()`
unfoldable pub new_trace : Trace
new_trace = record { size = 0; count = 0; blocks = [] }

-- `sizeof(size_t) + sz` on `size_t`
unfoldable pub alloc_size : ℕ → ℕ
alloc_size sz = (8 + sz) % size_limit

-- How an allocation ends: by `std::terminate`, without a block, or with one.
pub data Allocation : Type 0 where
  terminated : Allocation
  refused : Trace → Allocation
  gave : (block : ℕ) → Trace → Allocation

unfoldable pub record_block : ℕ → ℕ → Trace → Trace
record_block p n t = record {
  size = (t.size + n) % size_limit;
  count = (t.count + 1) % count_limit;
  blocks = (p, n) ∷ t.blocks;
}

-- `_malloc_throw` and `_malloc_no_throw`, which differ in how they report that there is no block.
unfoldable pub malloc : ℕ → Option ℕ → Trace → Allocation
malloc sz block t =
    if ltb (alloc_size sz) sz
    then terminated
    else elim block [ none ↦ refused t | some p ↦ gave p (record_block p (alloc_size sz) t) ]

-- The size in front of the block, and the other blocks.
unfoldable pub take_size : ℕ → List (ℕ × ℕ) → Option ℕ × List (ℕ × ℕ)
take_size p [] = (none, [])
take_size p ((q, n) ∷ bs) =
    let (found, rest) = take_size p bs in if q == p then (some n, bs) else (found, (q, n) ∷ rest)

-- `m_size -= allocSize; --m_count`
unfoldable pub release : Option ℕ × List (ℕ × ℕ) → Trace → Option Trace
release (none, bs) t = none
release (some n, bs) t = some (record {
  size = (t.size + (size_limit - n)) % size_limit;
  count = (t.count + (count_limit - 1)) % count_limit;
  blocks = bs;
})

-- `_free_set_nullptr`; `none` where the pointer is not of a block in use.
unfoldable pub free : Option ℕ → Trace → Option Trace
free none t = some t
free (some p) t = release (take_size p t.blocks) t

-- The calls of a program, which `std::terminate` ends and a release of no block in use.
pub data TraceCall : Type 0 where
  mallocs : (sz : ℕ) → Option ℕ → TraceCall
  frees : Option ℕ → TraceCall

unfoldable pub after_malloc : Allocation → Option Trace
after_malloc terminated = none
after_malloc (refused t) = some t
after_malloc (gave p t) = some t

unfoldable pub serve_call : TraceCall → Trace → Option Trace
serve_call (mallocs sz block) t = after_malloc (malloc sz block t)
serve_call (frees p) t = free p t

unfoldable pub serve_calls : List TraceCall → Option Trace → Option Trace
serve_calls [] o = o
serve_calls (r ∷ rs) none = serve_calls rs none
serve_calls (r ∷ rs) (some t) = serve_calls rs (serve_call r t)
