-- ===== src/Pool.antt =====
-- The state of CnetworkPool (network_pool.h) and the calls of CnetworkPoolCallback
-- (network_callback.h) that it makes.
pub mod Connection
pub mod Setup
pub mod Wakeup
pub mod Events
pub mod Api
pub mod Start
pub mod Step
pub mod Messages
pub mod Status
pub mod Shutdown
pub mod Exit
use network_pool.Common.{ℕ, Bool, true, false, Option, none, some, List, [], ◌∷◌}
use network_pool.Node.{Node, Protocol, tcp, udp}
use network_pool.Table.{Table}
use network_pool.Handle.{Loop, Settings}

abbrev pub Bytes : Type 0
Bytes = List ℕ

-- A call of the callback object, in the order of network_callback.h.
pub data Notice : Type 0 where
  allocate_memory : Node → (suggested_size : ℕ) → Notice
  deallocate_memory : Node → Notice
  message drop : Node → Bytes → Notice
  bind_status connection_status : Node → Bool → Notice
  tcp_listen_error udp_send_error udp_recv_error : Node → (code : ℕ) → Notice

-- __pending_send; the buffer is its valid bytes.
pub record PendingSend : Type 0 where
  pub node : Node
  pub bytes : Bytes
  pub auto_connect : Bool

-- __write_with_info: a request that libuv holds until it calls back, by its number.
pub record Write : Type 0 where
  pub request : ℕ
  pub stream : ℕ
  pub bufs : List Bytes

-- __udp_send_with_info
pub record UdpSend : Type 0 where
  pub request : ℕ
  pub socket : ℕ
  pub buf : Bytes

-- __internal_state
pub data InternalState : Type 0 where
  initializing good bad : InternalState

pub record Pool : Type 0 where
  pub state : InternalState
  pub settings : Settings
  pub want_exit : Bool
  -- m_wakeup != nullptr
  pub wakeup : Bool
  pub pending_bind : List (Node × Bool)
  pub pending_send : List PendingSend
  pub pending_close : List (Node × Bool)
  pub udp_index : ℕ
  pub tcp_servers : Table ℕ
  pub udp_servers : List ℕ
  pub node2stream : Table ℕ
  pub connecting : List ℕ
  pub waiting_send : Table (List Bytes)
  -- What libuv holds: handles, and the requests that it has not called back.
  pub loop : Loop
  pub writes : List Write
  pub udp_sends : List UdpSend
  pub next_request : ℕ
  -- The calls of the callback object and the message buffers given back, newest first.
  pub notices : List Notice
  pub freed : List Bytes

abbrev pub notify : Notice → Pool → Pool
notify n p = record p { notices = n ∷ p.notices }

-- `_free_set_nullptr` on the memory of a message.
abbrev pub free : Bytes → Pool → Pool
free b p = record p { freed = b ∷ p.freed }

abbrev pub on_loop : (Loop → Loop) → Pool → Pool
on_loop f p = record p { loop = f p.loop }

-- `tcp->getNode()`
abbrev pub tcp_node : Pool → ℕ → Node
tcp_node p t = (p.loop.tcps t).node

abbrev pub udp_node : Pool → ℕ → Node
udp_node p u = (p.loop.udps u).node
