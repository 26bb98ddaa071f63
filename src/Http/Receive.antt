-- ===== src/Http/Receive.antt =====
-- The buffer of ChttpContext (http_context.h) and what is received into it. What `_malloc_throw`
-- gives is an argument, as for the buffer.
pub mod Kept
pub mod Ready
pub mod Room
use network_pool.Common.{
  ℕ, ◌+◌, ◌-◌, ◌*◌, ◌%◌, false, Option, none, some, List, [], ltb, leb, ◌==◌, if◌then◌else◌,
}
use network_pool.Buffer.{Buffer, Outcome, done, threw, fault, resize}
use network_pool.Http.{HttpContext, state_start, size_limit}

-- How `prepareBuffer` ends: with `buffer`, as an index into the memory, and `length`; by an
-- exception; or by an access outside of the memory.
pub data Receipt : Type 0 where
  ready : Option ℕ → ℕ → HttpContext → Receipt
  failed : HttpContext → Receipt
  outside : Receipt

-- `ChttpContext(memoryTrace, maxBufferSize)`: the fields that it does not set are as they were.
unfoldable pub construct : ℕ → ℕ → HttpContext → HttpContext
construct trace max_buffer_size c = record c {
  max_buffer_size = max_buffer_size;
  buffer = record { trace = trace; memory = none; length = 0; max_length = 0 };
  lines = [];
  chunks = [];
}

-- An operation of the buffer, and what follows it.
unfoldable pub with_buffer : Outcome → HttpContext → (HttpContext → Receipt) → Receipt
with_buffer (done b) c k = k (record c { buffer = b })
with_buffer (threw b) c k = failed (record c { buffer = b })
with_buffer fault c k = outside

-- The fields at the start of a message.
unfoldable pub cleared : HttpContext → HttpContext
cleared c = record c {
  analysis_index = 0;
  state = state_start;
  lines = [];
  header_size = 0;
  keep_alive = false;
  chunked = false;
  content_length = 0;
  now_chunk_size = 0;
  chunk_size_start = false;
  chunk_size_done = false;
  chunks = [];
}

unfoldable pub init : Option (List ℕ) → HttpContext → (HttpContext → Receipt) → Receipt
init malloced c k =
    let d = record c {
      max_buffer_size = if ltb c.max_buffer_size 4096 then 4096 else c.max_buffer_size;
    } in
    if c.buffer.max_length == 0
    then with_buffer (resize 4096 0 malloced d.buffer) d
        (λ e. k (cleared (record e { now_index = 0 })))
    else k c

-- `m_buffer.getLength() - m_nowIndex` on `size_t`
unfoldable pub free_space : HttpContext → ℕ
free_space c = (c.buffer.length + size_limit - c.now_index) % size_limit

-- The length that a full buffer is resized to.
unfoldable pub grown_length : HttpContext → ℕ
grown_length c =
    if ltb c.max_buffer_size ((c.buffer.length * 2) % size_limit)
    then c.max_buffer_size
    else (c.buffer.length * 2) % size_limit

unfoldable pub grow : Option (List ℕ) → HttpContext → (HttpContext → Receipt) → Receipt
grow malloced c k =
    if ltb (free_space c) 2048
    then with_buffer (resize (grown_length c) c.now_index malloced c.buffer) c k
    else k c

-- `prepareBuffer`
unfoldable pub prepare_buffer : Option (List ℕ) → Option (List ℕ) → HttpContext → Receipt
prepare_buffer first more c = init first c (λ d.
    grow more d
      (λ e. ready (if free_space e == 0 then none else some e.now_index) (free_space e) e))

-- `recvPush`
unfoldable pub recv_push : ℕ → HttpContext → HttpContext
recv_push n c =
    if leb ((c.now_index + n) % size_limit) c.buffer.length
    then record c { now_index = (c.now_index + n) % size_limit }
    else c
