-- ===== src/Allocator.antt =====
-- __alloc and __free of fast_allocator.cpp. A block is a number; the store of each size is a list,
-- the last block put in first, which is what the links through the blocks are as long as no block is
-- freed while it is in a store. The largest number of blocks for a size is set at the first
-- call. What `malloc` returns is an argument. Each critical section is under the lock, so a call is one step.
pub mod Store
use network_pool.Common.{
  ℕ, suc, ◌-◌, ◌^◌, Bool, ◌||◌, Option, none, some, List, [], ◌∷◌, set_at, leb, ltb, ◌==◌,
  if◌then◌else◌,
}

pub record Allocator : Type 0 where
  pub store : ℕ → List ℕ
  pub count : ℕ → ℕ
  pub max_number : ℕ → ℕ
  -- The blocks that `free` was called for, newest first.
  pub freed : List ℕ

-- s_maxAllocatorSlot
abbrev pub max_slot : ℕ
max_slot = 4096

-- The sizes of the types that have a store, which the compiler and libuv give; each of the last seven
-- with the size in front of its blocks.
pub record Sizes : Type 0 where
  pub network_node : ℕ
  pub buffer : ℕ
  pub uv_shutdown : ℕ
  pub uv_connect : ℕ
  pub write_with_info : ℕ
  pub udp_send_with_info : ℕ
  pub async : ℕ
  pub tcp : ℕ
  pub udp : ℕ

-- `set_max_store_number(s, n)`
unfoldable pub set_max_store_number : ℕ → ℕ → (ℕ → ℕ) → ℕ → ℕ
set_max_store_number s n m = if ltb s max_slot then set_at m s n else m

-- `initStoreNumber()`
unfoldable pub init_store_number : Sizes → (ℕ → ℕ) → ℕ → ℕ
init_store_number sizes m = set_max_store_number sizes.udp 0 (
    set_max_store_number sizes.tcp 16384 (
      set_max_store_number sizes.async 0 (
        set_max_store_number sizes.udp_send_with_info 4096 (
          set_max_store_number sizes.write_with_info 4096 (
            set_max_store_number sizes.uv_connect 1024 (
              set_max_store_number sizes.uv_shutdown 1024 (
                set_max_store_number sizes.buffer 512
                  (set_max_store_number sizes.network_node 512 m))))))))

-- The stores as the first call finds them.
unfoldable pub start_stores : Sizes → Allocator
start_stores sizes = record {
  store = λ s. [];
  count = λ s. 0;
  max_number = init_store_number sizes (λ s. 0);
  freed = [];
}

-- A size that has no store.
unfoldable pub is_direct : ℕ → Allocator → Bool
is_direct size a = leb max_slot size || (a.max_number size == 0)

-- `--s_allocatorStoreCount[size]` on `size_t`
unfoldable pub decrement : ℕ → ℕ
decrement n = if n == 0 then 2 ^ 64 - 1 else n - 1

-- The first block of the store, or what `malloc` returns.
unfoldable pub take_block : ℕ → List ℕ → Option ℕ → Allocator → Option ℕ × Allocator
take_block size [] malloced a = (malloced, a)
take_block size (p ∷ ps) malloced a = (
  some p,
  record a {
    store = set_at a.store size ps;
    count = set_at a.count size (decrement (a.count size));
  },
)

-- `__alloc(size)`
unfoldable pub alloc : ℕ → Option ℕ → Allocator → Option ℕ × Allocator
alloc size malloced a =
    if is_direct size a then (malloced, a) else take_block size (a.store size) malloced a

-- `free(ptr)`
unfoldable pub system_free : ℕ → Allocator → Allocator
system_free p a = record a { freed = p ∷ a.freed }

-- `__free(ptr, size)`
unfoldable pub free : Option ℕ → ℕ → Allocator → Allocator
free none size a = a
free (some p) size a =
    if is_direct size a
    then system_free p a
    else if ltb (a.count size) (a.max_number size)
    then record a {
      store = set_at a.store size (p ∷ a.store size);
      count = set_at a.count size (suc (a.count size));
    }
    else system_free p a

-- The calls of a program.
pub data Request : Type 0 where
  allocs : (size : ℕ) → Option ℕ → Request
  frees : Option ℕ → (size : ℕ) → Request

unfoldable pub serve : Request → Allocator → Allocator
serve (allocs size malloced) a = (alloc size malloced a).1
serve (frees p size) a = free p size a

unfoldable pub serve_all : List Request → Allocator → Allocator
serve_all [] a = a
serve_all (r ∷ rs) a = serve_all rs (serve r a)
