-- ===== src/Http.antt =====
-- ChttpContext of http_context.h: one HTTP message as it arrives, and where its parts are.
pub mod Text
pub mod Header
pub mod Analysis
pub mod Memory
pub mod Safety
pub mod Progress
pub mod Rounds
pub mod Arrival
pub mod Streaming
pub mod Parts
pub mod Receive
pub mod Chunks
pub mod Content
use network_pool.Common.{ℕ, Bool, true, false, Option, none, some, List, []}
use network_pool.Buffer.{Buffer}

-- __http_state
pub data State : Type 0 where
  state_start state_read_header state_read_body : State
  state_read_chunk_header state_read_chunk_body state_read_chunk_footer : State
  state_done state_bad : State

-- A line: where it starts, and its length, which is `none` for the source's -1.
abbrev pub Line : Type 0
Line = ℕ × Option ℕ

pub record HttpContext : Type 0 where
  pub max_buffer_size : ℕ
  pub buffer : Buffer
  pub now_index : ℕ
  pub analysis_index : ℕ
  pub state : State
  -- Newest first.
  pub lines : List Line
  pub header_size : ℕ
  pub keep_alive : Bool
  pub chunked : Bool
  pub content_length : ℕ
  pub now_chunk_size : ℕ
  pub chunk_size_start : Bool
  pub chunk_size_done : Bool
  -- Where each part of the body starts and its length, newest first.
  pub chunks : List (ℕ × ℕ)

-- The bytes behind `m_buffer.getData()`.
abbrev pub bytes_in : Option (List ℕ) → List ℕ
bytes_in none = []
bytes_in (some mem) = mem

abbrev pub bytes : HttpContext → List ℕ
bytes c = bytes_in c.buffer.memory

-- 2 ^ 64
abbrev pub size_limit : ℕ
size_limit = 18446744073709551616
