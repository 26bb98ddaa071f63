-- ===== src/MemoryTrace/Objects.antt =====
-- Objects in memory that CmemoryTrace of memory_trace.h accounts: `_new_throw`, `_new_no_throw` and
-- `_delete_set_nullptr`. What a constructor or a destructor does to the memory is an argument, and
-- so is whether it throws.
use network_pool.Common.{
  ℕ, ◌+◌, ◌<◌, ◌≡◌, Bool, Option, none, some, refl, ◌∙◌, ap, false, if_both, if◌then◌else◌,
}
use network_pool.MemoryTrace.{
  Trace, size_limit, alloc_size, record_block, Allocation, terminated, refused, gave, malloc, free,
}
use network_pool.MemoryTrace.Account.{IsExact, alloc_size-small, fits_lem, free-record_block}

-- A constructor or a destructor at a block.
pub record Body : Type 0 where
  pub effect : ℕ → Trace → Trace
  pub throws : Bool

-- How `new` ends: by `std::terminate`, with `std::bad_alloc`, with null, with an object, or with the
-- exception of the constructor, after a release that is undefined if it is of no block in use.
pub data Creation : Type 0 where
  stopped : Creation
  bad_alloc : Trace → Creation
  null : Trace → Creation
  made : (block : ℕ) → Trace → Creation
  threw : Option Trace → Creation

-- `new (ptr)T(...)` with its handler
unfoldable pub construct : Body → ℕ → Trace → Creation
construct ctor p t =
    if ctor.throws then threw (free (some p) (ctor.effect p t)) else made p (ctor.effect p t)

-- `_new_throw`
unfoldable pub new_throw : Body → Allocation → Creation
new_throw ctor terminated = stopped
new_throw ctor (refused t) = bad_alloc t
new_throw ctor (gave p t) = construct ctor p t

-- `_new_no_throw`
unfoldable pub new_no_throw : Body → Allocation → Creation
new_no_throw ctor terminated = stopped
new_no_throw ctor (refused t) = null t
new_no_throw ctor (gave p t) = construct ctor p t

-- `_delete_set_nullptr`: whether it throws, and the state it leaves.
unfoldable pub delete : Body → Option ℕ → Trace → Bool × Option Trace
delete dtor none t = (false, some t)
delete dtor (some p) t = (dtor.throws, free (some p) (dtor.effect p t))

-- What is left of an object that is deleted if it was made.
unfoldable pub delete_made : Body → Creation → Option Trace
delete_made dtor stopped = none
delete_made dtor (bad_alloc t) = some t
delete_made dtor (null t) = some t
delete_made dtor (made p t) = (delete dtor (some p) t).1
delete_made dtor (threw o) = o

-- The whole life of an object of `sz` bytes.
unfoldable pub live_throw : Body → Body → ℕ → Option ℕ → Trace → Option Trace
live_throw ctor dtor sz block t = delete_made dtor (new_throw ctor (malloc sz block t))

unfoldable pub live_no_throw : Body → Body → ℕ → Option ℕ → Trace → Option Trace
live_no_throw ctor dtor sz block t = delete_made dtor (new_no_throw ctor (malloc sz block t))

-- What `malloc` gives where the size does not overflow.
abbrev given : ℕ → Option ℕ → Trace → Allocation
given sz none t = refused t
given sz (some p) t = gave p (record_block p (alloc_size sz) t)

-- A body that leaves the memory, with the object's block in use, as it is.
abbrev pub IsQuiet : Body → ℕ → Trace → Type 0
IsQuiet b n t = (p : ℕ) → b.effect p (record_block p n t) ≡ record_block p n t

module _ (ctor dtor : Body) (sz : ℕ) (t : Trace) (fits : 8 + sz < size_limit) (h : IsExact t)
    (c : IsQuiet ctor (alloc_size sz) t) (d : IsQuiet dtor (alloc_size sz) t) where
  malloc_fits : (block : Option ℕ) → malloc sz block t ≡ given sz block t
  unfolding malloc
  malloc_fits none = rw (fits_lem sz fits) refl
  malloc_fits (some p) = rw (fits_lem sz fits) refl

  -- The destructor runs and the block is free, whether it throws or not.
  delete_lem : (p : ℕ) → (delete dtor (some p) (record_block p (alloc_size sz) t)).1 ≡ some t
  unfolding delete
  delete_lem p = rw (d p) (free-record_block p (alloc_size sz) t (alloc_size-small sz) h)

  delete_made-construct :
      (p : ℕ) → delete_made dtor (construct ctor p (record_block p (alloc_size sz) t)) ≡ some t
  unfolding delete_made construct
  delete_made-construct p =
      if_both (λ r. delete_made dtor r ≡ some t) ctor.throws
        (rw (c p) (free-record_block p (alloc_size sz) t (alloc_size-small sz) h))
        (ap (λ u. (delete dtor (some p) u).1) (c p) ∙ delete_lem p)

  -- From exact counters, making an object whose size does not overflow and deleting it if it was
  -- made leaves the counters and the blocks in use as they were: also where there is no memory, where
  -- the constructor throws and where the destructor throws, as long as the constructor and the
  -- destructor leave the memory as they find it.
  pub delete_made-new_throw :
      (block : Option ℕ)
      → (live_throw ctor dtor sz block t ≡ some t) × (live_no_throw ctor dtor sz block t ≡ some t)
  unfolding live_throw live_no_throw delete_made new_throw new_no_throw
  delete_made-new_throw none = rw (malloc_fits none) (refl, refl)
  delete_made-new_throw (some p) =
      rw (malloc_fits (some p)) (delete_made-construct p, delete_made-construct p)
