-- ===== src/Heap/Safety.antt =====
-- The blocks of the heap (memory_trace.h, fast_allocator.h, fast_allocator.cpp) over the calls of a
-- program: that none is handed out twice, and their room.
use network_pool.Common.{
  ℕ, ◌+◌, ◌≤◌, ◌≡◌, refl, subst, inr, Bool, true, false, Option, none, some, List, [], ◌∷◌, ltb,
  total, arith, if_both,
}
use network_pool.Allocator.{
  Allocator, Sizes, start_stores, is_direct, alloc, take_block, decrement, system_free,
}
use network_pool.Allocator as Alloc
use network_pool.MemoryTrace.{
  alloc_size, malloc, take_size, release, after_malloc, record_block, new_trace,
}
use network_pool.Heap.{
  Heap, asked, is_empty, set_capacity, take_memory, with_trace, trace_malloc, give_memory,
  trace_release, trace_free, hand_out, operator_new, take_back, operator_delete, HeapCall, mallocs,
  news, frees, deletes, heap_step, heap_run, start_heap,
}
use network_pool.Heap.Places.{
  used, Fits, StoreFits, Placed, counted, Room, Fresh, Fits-set_at, block-Placed, pop-Placed,
  push-Placed, fewer-Placed, Parts, take_size-Parts,
}

-- How often a block is in use.
abbrev pub inuse : Heap → ℕ → ℕ
inuse h q = used q h.trace.blocks + used q h.objects

-- No block is at two places, and each has the room that its place wants.
pub record IsSafe (h : Heap) : Type 0 where
  pub placed : Placed (inuse h) h.allocator.store h.capacity
  pub blocks : Fits h.capacity h.trace.blocks
  pub objects : Fits h.capacity h.objects

-- A block taken from the heap, in nobody's hand.
record Taken (size : ℕ) (r : Option ℕ × Heap) : Type 0 where
  placed : Placed (λ q. counted q r.0 + inuse r.1 q) r.1.allocator.store r.1.capacity
  room : Room r.1.capacity size r.0
  blocks : Fits r.1.capacity r.1.trace.blocks
  objects : Fits r.1.capacity r.1.objects

asked-room : (size : ℕ) (a : Allocator) → size ≤ asked size a
unfolding asked
asked-room size a = if_both (λ k. size ≤ k) (is_direct size a) (omega arith) (ground arith)

module _ (size : ℕ) (h : Heap) (i : IsSafe h) where
  -- The block of `malloc`.
  block-Taken :
      (malloced : Option ℕ)
      → Fresh (inuse h) h.allocator.store malloced
      → Taken size (
        malloced,
        record h { capacity = set_capacity true malloced (asked size h.allocator) h.capacity },
      )
  unfolding set_capacity
  block-Taken none f = record {
    placed = block-Placed (inuse h) h.allocator.store h.capacity i.placed none 0 f;
    room = tt;
    blocks = i.blocks;
    objects = i.objects;
  }
  block-Taken (some p) f =
      let k = asked size h.allocator in
      record {
        placed = block-Placed (inuse h) h.allocator.store h.capacity i.placed (some p) k f;
        room = ground (arith, asked-room size h.allocator);
        blocks = Fits-set_at h.capacity p k h.trace.blocks (omega (arith, f.0)) i.blocks;
        objects = Fits-set_at h.capacity p k h.objects (omega (arith, f.0)) i.objects;
      }

  -- `__alloc`, by where the block comes from.
  take_memory-at :
      (malloced : Option ℕ) (direct : Bool) (ps : List ℕ)
      → Fresh (inuse h) h.allocator.store malloced
      → is_direct size h.allocator ≡ direct
      → h.allocator.store size ≡ ps
      → Taken size (take_memory size malloced h)
  unfolding take_memory alloc take_block is_empty set_capacity
  take_memory-at malloced true ps f d e = rw (d) (block-Taken malloced f)
  take_memory-at malloced false [] f d e = rw (d, e) (block-Taken malloced f)
  take_memory-at malloced false (p ∷ ps) f d e =
      rw (d, e)
        (record {
          placed = pop-Placed (inuse h) h.allocator.store h.capacity i.placed size p ps e;
          room = (subst (StoreFits h.capacity size) e (i.placed.fits size)).0;
          blocks = i.blocks;
          objects = i.objects;
        })

  take_memory-Taken :
      (malloced : Option ℕ)
      → Fresh (inuse h) h.allocator.store malloced
      → Taken size (take_memory size malloced h)
  take_memory-Taken malloced f =
      take_memory-at malloced (is_direct size h.allocator) (h.allocator.store size) f refl refl

-- What holds of the heap that a call leaves, if the program survives it.
abbrev pub Survives : (Heap → Type 0) → Option Heap → Type 0
Survives P none = Unit
Survives P (some h) = P h

-- A heap with other lists of blocks in use.
move-IsSafe :
    (u : ℕ → ℕ) (h : Heap)
    → Placed u h.allocator.store h.capacity
    → ((q : ℕ) → inuse h q ≤ u q)
    → Fits h.capacity h.trace.blocks
    → Fits h.capacity h.objects
    → IsSafe h
move-IsSafe u h g e b o = record {
  placed = fewer-Placed u h.allocator.store h.capacity g (inuse h) e;
  blocks = b;
  objects = o;
}

-- The block becomes one of CmemoryTrace's.
malloc-IsSafe :
    (sz : ℕ) (r : Option ℕ × Heap)
    → Taken (alloc_size sz) r
    → Survives IsSafe (with_trace (after_malloc (malloc sz r.0 r.1.trace)) r.1)
unfolding malloc after_malloc with_trace record_block total
malloc-IsSafe sz (none, h) t =
    if_both (λ r. Survives IsSafe (with_trace (after_malloc r) h)) (ltb (alloc_size sz) sz) tt
      (move-IsSafe _ h t.placed (λ q. omega arith) t.blocks t.objects)
malloc-IsSafe sz (some p, h) t =
    if_both (λ r. Survives IsSafe (with_trace (after_malloc r) h)) (ltb (alloc_size sz) sz) tt
      (move-IsSafe _ (record h { trace = record_block p (alloc_size sz) h.trace }) t.placed
        (λ q. ground arith) (t.room, t.blocks) t.objects)

trace_malloc-IsSafe :
    (sz : ℕ) (malloced : Option ℕ) (h : Heap)
    → IsSafe h
    → Fresh (inuse h) h.allocator.store malloced
    → Survives IsSafe (trace_malloc sz malloced h)
unfolding trace_malloc
trace_malloc-IsSafe sz malloced h i f = if_both (Survives IsSafe) (ltb (alloc_size sz) sz) tt (
    malloc-IsSafe sz (take_memory (alloc_size sz) malloced h)
      (take_memory-Taken (alloc_size sz) h i malloced f))

hand_out-IsSafe : (size : ℕ) (r : Option ℕ × Heap) → Taken size r → IsSafe (hand_out size r).1
unfolding hand_out total
hand_out-IsSafe size (none, h) t = move-IsSafe _ h t.placed (λ q. omega arith) t.blocks t.objects
hand_out-IsSafe size (some p, h) t =
    move-IsSafe _ (record h { objects = (p, size) ∷ h.objects }) t.placed (λ q. ground arith)
      t.blocks (t.room, t.objects)

-- A block that was in use goes to the store of its size, or back to the system.
give-Placed :
    (p n : ℕ) (h : Heap) (rest : ℕ → ℕ)
    → IsSafe h
    → ((q : ℕ) → counted q (some p) + rest q ≡ inuse h q)
    → n ≤ h.capacity p
    → Placed rest (Alloc.free (some p) n h.allocator).store h.capacity
unfolding Alloc.free system_free
give-Placed p n h rest i e l =
    let back =
      fewer-Placed (inuse h) h.allocator.store h.capacity i.placed rest (λ q. omega (arith, e q)) in
    if_both {A = Allocator} (λ a. Placed rest a.store h.capacity) (is_direct n h.allocator) back
      (if_both {A = Allocator} (λ a. Placed rest a.store h.capacity)
        (ltb (h.allocator.count n) (h.allocator.max_number n))
        (push-Placed (inuse h) h.allocator.store h.capacity i.placed n p rest e l) back)

trace_release-IsSafe :
    (p : ℕ) (r : Option ℕ × List (ℕ × ℕ)) (h : Heap)
    → IsSafe h
    → Parts p h.capacity h.trace.blocks r
    → Survives IsSafe (trace_release p r h)
unfolding trace_release release with_trace give_memory
trace_release-IsSafe p (none, bs) h i s = tt
trace_release-IsSafe p (some n, bs) h i s = record {
  placed = give-Placed p n h (λ q. used q bs + used q h.objects) i (λ q. omega (arith, s.0 q)) s.1;
  blocks = s.2;
  objects = i.objects;
}

take_back-IsSafe :
    (p : ℕ) (r : Option ℕ × List (ℕ × ℕ)) (h : Heap)
    → IsSafe h
    → Parts p h.capacity h.objects r
    → Survives IsSafe (take_back p r h)
unfolding take_back give_memory
take_back-IsSafe p (none, os) h i s = tt
take_back-IsSafe p (some n, os) h i s = record {
  placed =
      give-Placed p n h (λ q. used q h.trace.blocks + used q os) i (λ q. omega (arith, s.0 q)) s.1;
  blocks = i.blocks;
  objects = s.2;
}

-- `malloc` returns a block that is neither in use nor in a store.
abbrev pub IsFresh : HeapCall → Heap → Type 0
IsFresh (mallocs sz malloced) h = Fresh (inuse h) h.allocator.store malloced
IsFresh (news size malloced) h = Fresh (inuse h) h.allocator.store malloced
IsFresh (frees p) h = Unit
IsFresh (deletes p) h = Unit

heap_step-IsSafe :
    (c : HeapCall) (h : Heap) → IsSafe h → IsFresh c h → Survives IsSafe (heap_step c h)
unfolding heap_step trace_free operator_new operator_delete
heap_step-IsSafe (mallocs sz malloced) h i f = trace_malloc-IsSafe sz malloced h i f
heap_step-IsSafe (news size malloced) h i f =
    hand_out-IsSafe size (take_memory size malloced h) (take_memory-Taken size h i malloced f)
heap_step-IsSafe (frees none) h i f = i
heap_step-IsSafe (frees (some p)) h i f =
    trace_release-IsSafe p (take_size p h.trace.blocks) h i
      (take_size-Parts p h.capacity h.trace.blocks i.blocks)
heap_step-IsSafe (deletes none) h i f = i
heap_step-IsSafe (deletes (some p)) h i f =
    take_back-IsSafe p (take_size p h.objects) h i
      (take_size-Parts p h.capacity h.objects i.objects)

-- `malloc` returns such a block at each call of a run.
abbrev pub AreFresh : List HeapCall → Heap → Type 0
AreFresh [] h = Unit
AreFresh (c ∷ cs) h = IsFresh c h × Survives (AreFresh cs) (heap_step c h)

then-IsSafe :
    (cs : List HeapCall) (o : Option Heap)
    → Survives IsSafe o
    → Survives (AreFresh cs) o
    → Survives IsSafe (heap_run cs o)
unfolding heap_run
then-IsSafe [] none i f = tt
then-IsSafe [] (some h) i f = i
then-IsSafe (c ∷ cs) none i f = then-IsSafe cs none tt tt
then-IsSafe (c ∷ cs) (some h) i f = then-IsSafe cs (heap_step c h) (heap_step-IsSafe c h i f.0) f.1

start_heap-IsSafe : (sizes : Sizes) → IsSafe (start_heap sizes)
unfolding start_heap start_stores new_trace total
start_heap-IsSafe sizes = record {
  placed = record { once = λ p s s'. inr (omega arith); fits = λ s. tt };
  blocks = tt;
  objects = tt;
}

-- Over any sequence of allocations and releases through CmemoryTrace and the class operators that
-- the program survives, where each block that `malloc` returns is neither in use nor in a store: no
-- block is in use twice, both in use and in a store, twice in a store or in the stores of two sizes,
-- and each block has at least the bytes that it is in use with, or that its store is for.
pub heap_run-IsSafe :
    (sizes : Sizes) (cs : List HeapCall)
    → AreFresh cs (start_heap sizes)
    → Survives IsSafe (heap_run cs (some (start_heap sizes)))
heap_run-IsSafe sizes cs f = then-IsSafe cs (some (start_heap sizes)) (start_heap-IsSafe sizes) f
