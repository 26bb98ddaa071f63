-- ===== src/Tests/HeapWitnesses.antt =====
-- The theorems of the heap and of objects at concrete inputs.
use network_pool.Common.{◌≡◌, refl, true, false, none, some, List, [], ◌∷◌, arith, total}
use network_pool.Allocator
use network_pool.Allocator.{Sizes}
use network_pool.MemoryTrace
use network_pool.MemoryTrace.{Trace, new_trace}
use network_pool.MemoryTrace.Account.{new_trace-IsExact}
use network_pool.MemoryTrace.Objects.{Body, live_throw, live_no_throw, delete_made-new_throw}
use network_pool.Heap.{
  heap_step, trace_malloc, operator_new, operator_delete, take_memory, take_back, give_memory,
  hand_out, with_trace, trace_free, trace_release, set_capacity, is_empty, HeapCall, mallocs, news,
  frees, deletes, heap_run, start_heap,
}
use network_pool.Heap.Safety.{IsSafe, Survives, AreFresh, heap_run-IsSafe}

abbrev some_sizes : Sizes
some_sizes = record {
  network_node = 40;
  buffer = 24;
  uv_shutdown = 88;
  uv_connect = 104;
  write_with_info = 240;
  udp_send_with_info = 368;
  async = 136;
  tcp = 256;
  udp = 224;
}

-- A buffer's block is released and given again, next to a block of its size that is not.
abbrev some_calls : List HeapCall
some_calls =
    news 24 (some 7)
    ∷ mallocs 16 (some 8)
    ∷ deletes (some 7)
    ∷ mallocs 16 none
    ∷ frees (some 8)
    ∷ []

some_calls-AreFresh : AreFresh some_calls (start_heap some_sizes)
unfolding start_heap Allocator.start_stores new_trace heap_step trace_malloc operator_new
    operator_delete take_memory take_back give_memory hand_out with_trace MemoryTrace.take_size
    MemoryTrace.malloc MemoryTrace.after_malloc MemoryTrace.alloc_size Allocator.alloc
    Allocator.is_direct Allocator.take_block Allocator.init_store_number
    Allocator.set_max_store_number Allocator.free MemoryTrace.record_block set_capacity is_empty
    trace_free trace_release MemoryTrace.release total
some_calls-AreFresh = ((refl, λ s. refl), ((refl, λ s. refl), (tt, (tt, (tt, tt)))))

heap_run-IsSafe_example : Survives IsSafe (heap_run some_calls (some (start_heap some_sizes)))
heap_run-IsSafe_example = heap_run-IsSafe some_sizes some_calls some_calls-AreFresh

-- A constructor that throws, and one that returns.
abbrev throwing : Body
throwing = record { effect = λ p t. t; throws = true }

abbrev returning : Body
returning = record { effect = λ p t. t; throws = false }

delete_made-new_throw_example :
    (live_throw throwing returning 24 (some 3) new_trace ≡ some new_trace)
    × (live_no_throw throwing returning 24 (some 3) new_trace ≡ some new_trace)
delete_made-new_throw_example =
    delete_made-new_throw throwing returning 24 new_trace (omega arith) new_trace-IsExact
      (λ p. refl) (λ p. refl) (some 3)
