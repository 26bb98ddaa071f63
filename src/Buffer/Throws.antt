-- ===== src/Buffer/Throws.antt =====
-- The operations of Cbuffer (buffer.h) where `_malloc_throw` throws.
use network_pool.Common.{ℕ, ◌≤◌, ◌<◌, ◌≡◌, Option, none, List, arith, length}
use network_pool.Buffer.{Buffer, threw, fault, memcpy, overwrite, replace, set}

-- `set` frees the memory before it allocates and leaves the capacity as it was: where the bytes
-- exceed the capacity and the allocation throws, a later `set` of at least one byte and at most
-- that capacity copies to the null pointer.
pub set_after_throw :
    (bs later : List ℕ) (malloced : Option (List ℕ)) (b : Buffer)
    → b.max_length < length bs
    → 0 < length later
    → length later ≤ b.max_length
    → (set bs none b ≡ threw (record b { memory = none }))
      × (set later malloced (record b { memory = none }) ≡ fault)
unfolding set replace overwrite memcpy
set_after_throw bs later malloced b h k l = (ground arith, ground arith)
