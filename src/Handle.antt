-- ===== src/Handle.antt =====
-- uv_wrapper.h and uv_wrapper.cpp: the handles Casync, Ctcp and Cudp around libuv's.
-- A `Loop` holds the handles by number and the calls of libuv and of the allocator so far, newest
-- first. What those calls return is not in the program: `answers` gives the result of each call
-- still to come, 0 for success, and every definition works for all answers.
pub mod Stream
pub mod Datagram
pub mod Extends
pub mod Closing
use network_pool.Common.{
  ℕ, suc, ◌+◌, ◌*◌, ◌%◌, ◌^◌, Bool, true, false, List, [], ◌∷◌, set_at, ◌==◌, if◌then◌else◌,
}
use network_pool.Node.{Node}

pub data Call : Type 0 where
  allocate : Call
  tcp_init timer_init tcp_nodelay tcp_keepalive simultaneous_accepts : (tcp : ℕ) → Call
  send_buffer_size recv_buffer_size : (tcp size : ℕ) → Call
  close_tcp close_timer shutdown_tcp read_start : (tcp : ℕ) → Call
  timer_start : (tcp milliseconds : ℕ) → Call
  write : (tcp : ℕ) → List (List ℕ) → Call
  tcp_bind : (tcp : ℕ) → Call
  listen : (tcp backlog : ℕ) → Call
  tcp_connect : (tcp : ℕ) → Node → Call
  accept : (server tcp : ℕ) → Call
  getpeername write_queue_size : (tcp : ℕ) → Call
  udp_init udp_set_ttl udp_bind recv_start recv_stop close_udp : (udp : ℕ) → Call
  udp_send : (udp : ℕ) → List ℕ → Node → Call
  loop_init loop_close async_init close_async : Call

pub record Tcp : Type 0 where
  pub tcp_inited : Bool
  pub timer_inited : Bool
  pub closing : Bool
  pub shut_down : Bool
  -- The object is given back to the allocator.
  pub deleted : Bool
  pub node : Node

pub record Udp : Type 0 where
  pub inited : Bool
  pub closing : Bool
  pub deleted : Bool
  pub node : Node

pub record Async : Type 0 where
  pub inited : Bool
  pub closing : Bool
  pub deleted : Bool

pub record Loop : Type 0 where
  pub tcps : ℕ → Tcp
  pub udps : ℕ → Udp
  pub async : Async
  -- The number of the next object.
  pub fresh : ℕ
  pub answers : ℕ → ℕ
  pub calls : List Call

-- The result of the next call.
abbrev pub answer : Loop → ℕ
answer l = l.answers 0

-- Make a call; its result was `answer`.
abbrev pub call : Call → Loop → Loop
call c l = record l { answers = λ k. l.answers (suc k); calls = c ∷ l.calls }

-- Make a call that returns nothing.
abbrev pub note : Call → Loop → Loop
note c l = record l { calls = c ∷ l.calls }

abbrev pub put_tcp : ℕ → Tcp → Loop → Loop
put_tcp t v l = record l { tcps = set_at l.tcps t v }

abbrev pub put_udp : ℕ → Udp → Loop → Loop
put_udp u v l = record l { udps = set_at l.udps u v }

-- `server->getNode() = node`
abbrev pub set_tcp_node : ℕ → Node → Loop → Loop
set_tcp_node t n l = put_tcp t (record (l.tcps t) { node = n }) l

abbrev pub set_udp_node : ℕ → Node → Loop → Loop
set_udp_node u n l = put_udp u (record (l.udps u) { node = n }) l

-- __preferred_network_settings
pub record Settings : Type 0 where
  pub tcp_enable_nodelay : ℕ
  pub tcp_enable_keepalive : ℕ
  pub tcp_keepalive_time_in_seconds : ℕ
  pub tcp_enable_simultaneous_accepts : ℕ
  pub tcp_backlog : ℕ
  pub tcp_send_buffer_size : ℕ
  pub tcp_recv_buffer_size : ℕ
  pub tcp_connect_timeout_in_seconds : ℕ
  pub tcp_idle_timeout_in_seconds : ℕ
  pub tcp_send_timeout_in_seconds : ℕ
  pub udp_ttl : ℕ

abbrev pub default_settings : Settings
default_settings = record {
  tcp_enable_nodelay = 1;
  tcp_enable_keepalive = 1;
  tcp_keepalive_time_in_seconds = 30;
  tcp_enable_simultaneous_accepts = 1;
  tcp_backlog = 128;
  tcp_send_buffer_size = 0;
  tcp_recv_buffer_size = 0;
  tcp_connect_timeout_in_seconds = 10;
  tcp_idle_timeout_in_seconds = 30;
  tcp_send_timeout_in_seconds = 30;
  udp_ttl = 64;
}

-- `seconds * 1000` on `unsigned int`.
abbrev pub milliseconds : ℕ → ℕ
milliseconds s = s * 1000 % 2 ^ 32
