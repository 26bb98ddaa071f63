-- ===== src/Pool/Messages.antt =====
-- What the pool does with the messages that it takes on, for CnetworkPool of network_pool.cpp. A
-- weight `v` on messages is arbitrary: with the weight that is 1 at one message and 0 elsewhere
-- the sums count that message.
pub mod Buffers
pub mod Streams
pub mod Sends
pub mod Callbacks
pub mod Stops
pub mod Ledger
use network_pool.Common.{ℕ, ◌+◌, ◌≡◌, List, total}
use network_pool.Pool.{
  Bytes, Notice, allocate_memory, deallocate_memory, message, drop, bind_status, connection_status,
  tcp_listen_error, udp_send_error, udp_recv_error, PendingSend, Write, UdpSend, Pool,
}
use network_pool.Table.{Table}

module _ (v : Bytes → ℕ) where
  abbrev pub pending_weight : List PendingSend → ℕ
  pending_weight = total (λ r. v r.bytes)

  abbrev pub waiting_weight : Table (List Bytes) → ℕ
  waiting_weight = total (λ e. total v e.1)

  abbrev pub write_weight : List Write → ℕ
  write_weight = total (λ w. total v w.bufs)

  abbrev pub udp_weight : List UdpSend → ℕ
  udp_weight = total (λ w. v w.buf)

  abbrev pub notice_weight : Notice → ℕ
  notice_weight (drop n b) = v b
  notice_weight _ = 0

  -- The messages that the pool has, or has reported as dropped.
  abbrev pub owed : Pool → ℕ
  owed p =
      pending_weight p.pending_send
      + waiting_weight p.waiting_send
      + write_weight p.writes
      + total notice_weight p.notices

  -- The messages whose memory the pool or libuv has, or that was given back.
  abbrev pub held : Pool → ℕ
  held p =
      pending_weight p.pending_send
      + waiting_weight p.waiting_send
      + write_weight p.writes
      + udp_weight p.udp_sends
      + total v p.freed

  -- Nothing is lost and nothing is made up between two states.
  pub record Keeps (p q : Pool) : Type 0 where
    pub owed : owed q ≡ owed p
    pub held : held q ≡ held p
