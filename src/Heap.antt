-- ===== src/Heap.antt =====
-- The memory of the program: CmemoryTrace (memory_trace.h) and the class operators of CfastAllocator
-- (fast_allocator.h) over the stores of fast_allocator.cpp. What `malloc` returns is an argument of
-- each call, and `capacity` is the number of bytes that `malloc` was asked for the block.
pub mod Places
pub mod Safety
use network_pool.Common.{
  ℕ, ◌+◌, ◌<◌, Bool, ◌||◌, true, false, Option, none, some, List, [], ◌∷◌, ltb, ◌==◌, if◌then◌else◌,
  set_at,
}
use network_pool.Allocator.{Allocator, Sizes, start_stores, is_direct, alloc}
use network_pool.Allocator as Alloc
use network_pool.MemoryTrace.{
  Trace, alloc_size, Allocation, terminated, refused, gave, malloc, take_size, release,
  after_malloc, new_trace,
}

pub record Heap : Type 0 where
  pub trace : Trace
  pub allocator : Allocator
  -- The blocks in use that `operator new` gave, each with the size it was asked for.
  pub objects : List (ℕ × ℕ)
  pub capacity : ℕ → ℕ

-- The bytes that `__alloc` asks `malloc` for: at least a pointer, for a size that has a store.
unfoldable pub asked : ℕ → Allocator → ℕ
asked size a = if is_direct size a then size else if ltb size 8 then 8 else size

-- Whether `__alloc` calls `malloc`.
unfoldable pub is_empty : List ℕ → Bool
is_empty [] = true
is_empty (p ∷ ps) = false

unfoldable pub set_capacity : Bool → Option ℕ → ℕ → (ℕ → ℕ) → ℕ → ℕ
set_capacity true (some p) size c = set_at c p size
set_capacity true none size c = c
set_capacity false block size c = c

-- `__alloc(size)`: the block, and the heap with it in nobody's hand.
unfoldable pub take_memory : ℕ → Option ℕ → Heap → Option ℕ × Heap
take_memory size malloced h =
    let (block, a) = alloc size malloced h.allocator in
    (
      block,
      record h {
        allocator = a;
        capacity =
            set_capacity (is_direct size h.allocator || is_empty (h.allocator.store size)) malloced
              (asked size h.allocator) h.capacity;
      },
    )

-- The state of CmemoryTrace after its allocation, within the heap.
unfoldable pub with_trace : Option Trace → Heap → Option Heap
with_trace none h = none
with_trace (some t) h = some (record h { trace = t })

-- `_malloc_throw` and `_malloc_no_throw`; `none` is `std::terminate`, before `__alloc`.
unfoldable pub trace_malloc : ℕ → Option ℕ → Heap → Option Heap
trace_malloc sz malloced h =
    if ltb (alloc_size sz) sz
    then none
    else let (block, h') = take_memory (alloc_size sz) malloced h in
      with_trace (after_malloc (malloc sz block h'.trace)) h'

-- `__free` of a block with the size.
unfoldable pub give_memory : ℕ → ℕ → Heap → Heap
give_memory p size h = record h { allocator = Alloc.free (some p) size h.allocator }

unfoldable pub trace_release : ℕ → Option ℕ × List (ℕ × ℕ) → Heap → Option Heap
trace_release p (none, bs) h = none
trace_release p (some n, bs) h = with_trace (release (some n, bs) h.trace) (give_memory p n h)

-- `_free_set_nullptr`; `none` where the block is not in use.
unfoldable pub trace_free : Option ℕ → Heap → Option Heap
trace_free none h = some h
trace_free (some p) h = trace_release p (take_size p h.trace.blocks) h

unfoldable pub hand_out : ℕ → Option ℕ × Heap → Option ℕ × Heap
hand_out size (none, h) = (none, h)
hand_out size (some p, h) = (some p, record h { objects = (p, size) ∷ h.objects })

-- `operator new`; it throws `std::bad_alloc`, or returns null, where there is no block.
unfoldable pub operator_new : ℕ → Option ℕ → Heap → Option ℕ × Heap
operator_new size malloced h = hand_out size (take_memory size malloced h)

unfoldable pub take_back : ℕ → Option ℕ × List (ℕ × ℕ) → Heap → Option Heap
take_back p (none, os) h = none
take_back p (some n, os) h = some (record (give_memory p n h) { objects = os })

-- `operator delete` with the size that the object was made with, which is `sizeof(T)`; `none` where
-- the block is not in use.
unfoldable pub operator_delete : Option ℕ → Heap → Option Heap
operator_delete none h = some h
operator_delete (some p) h = take_back p (take_size p h.objects) h

-- The calls of the program.
pub data HeapCall : Type 0 where
  mallocs news : (size : ℕ) → (malloced : Option ℕ) → HeapCall
  frees deletes : Option ℕ → HeapCall

unfoldable pub heap_step : HeapCall → Heap → Option Heap
heap_step (mallocs sz malloced) h = trace_malloc sz malloced h
heap_step (news size malloced) h = some (operator_new size malloced h).1
heap_step (frees p) h = trace_free p h
heap_step (deletes p) h = operator_delete p h

unfoldable pub heap_run : List HeapCall → Option Heap → Option Heap
heap_run [] o = o
heap_run (c ∷ cs) none = heap_run cs none
heap_run (c ∷ cs) (some h) = heap_run cs (heap_step c h)

-- The heap at the start of the program.
unfoldable pub start_heap : Sizes → Heap
start_heap sizes = record {
  trace = new_trace;
  allocator = start_stores sizes;
  objects = [];
  capacity = λ p. 0;
}
