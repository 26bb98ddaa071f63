-- ===== src/Pool/Messages/Callbacks.antt =====
-- The effect of libuv's callbacks and of the public members on the messages.
use network_pool.Common.{
  ℕ, ◌+◌, ◌≡◌, false, Option, List, [], ◌∷◌, arith, total, if◌then◌else◌, ◌==◌,
}
use network_pool.Node.{Node}
use network_pool.Node.Address.{Raw}
use network_pool.Pool.{
  Bytes, Pool, Write, UdpSend, drop, deallocate_memory, message, notify, tcp_node, free,
}
use network_pool.Pool.Connection.{shutdown_connection}
use network_pool.Pool.Events.{
  ReadResult, got, nothing, failed, reset_idle_timeout, reset_if_open, on_tcp_read, drop_each,
  free_each, on_tcp_write_done, check_peer, accept_on, on_new_connection, on_connect_done,
  on_udp_recv, on_udp_send_done,
}
use network_pool.Pool.Messages.{owed, held, Keeps}
use network_pool.Pool.Messages.Streams.{shutdown_connection-Keeps, startup_connection-Keeps}

module _ (v : Bytes → ℕ) where
  reset_idle_timeout-Keeps : (t : ℕ) (p : Pool) → Keeps v p (reset_idle_timeout t p)
  unfolding reset_idle_timeout
  reset_idle_timeout-Keeps t p = grind (arith, shutdown_connection-Keeps)

  reset_if_open-Keeps : (t : ℕ) (p : Pool) → Keeps v p (reset_if_open t p)
  unfolding reset_if_open
  reset_if_open-Keeps t p = ground (arith, reset_idle_timeout-Keeps t p)

  pub on_tcp_read-Keeps : (t : ℕ) (r : ReadResult) (p : Pool) → Keeps v p (on_tcp_read t r p)
  unfolding on_tcp_read total
  on_tcp_read-Keeps t (got b) p =
      let n = tcp_node p t in
      omega (arith, reset_if_open-Keeps t (notify (deallocate_memory n) (notify (message n b) p)))
  on_tcp_read-Keeps t nothing p = ground arith
  on_tcp_read-Keeps t (failed code) p = omega (
    arith,
    shutdown_connection-Keeps v t false false (notify (deallocate_memory (tcp_node p t)) p),
  )

  drop_each-weight :
      (n : Node) (bs : List Bytes) (p : Pool)
      → (owed v (drop_each n bs p) ≡ owed v p + total v bs) × (held v (drop_each n bs p) ≡ held v p)
  unfolding drop_each total
  drop_each-weight n [] p = omega arith
  drop_each-weight n (b ∷ bs) p = omega (arith, drop_each-weight n bs (notify (drop n b) p))

  free_each-weight :
      (bs : List Bytes) (p : Pool)
      → (owed v (free_each bs p) ≡ owed v p) × (held v (free_each bs p) ≡ held v p + total v bs)
  unfolding free_each total
  free_each-weight [] p = omega arith
  free_each-weight (b ∷ bs) p = omega (arith, free_each-weight bs (free b p))

  -- A request that failed has its messages dropped; one that succeeded is owed no longer.
  pub on_tcp_write_done-weight :
      (w : Write) (status : ℕ) (p : Pool)
      → (owed v (on_tcp_write_done w status p)
          ≡ owed v p + (if status == 0 then 0 else total v w.bufs))
        × (held v (on_tcp_write_done w status p) ≡ held v p + total v w.bufs)
  unfolding on_tcp_write_done
  on_tcp_write_done-weight w status p =
      let t = w.stream in
      let p1 = drop_each (tcp_node p t) w.bufs p in
      let h1 = drop_each-weight (tcp_node p t) w.bufs p in
      let h2 = shutdown_connection-Keeps v t false false p1 in
      let h3 = reset_if_open-Keeps t p in
      ground (
        arith,
        free_each-weight w.bufs (reset_if_open t p),
        free_each-weight w.bufs (shutdown_connection t false false p1),
      )

  pub on_connect_done-Keeps : (t status : ℕ) (p : Pool) → Keeps v p (on_connect_done t status p)
  unfolding on_connect_done
  on_connect_done-Keeps t status p =
      grind (arith, shutdown_connection-Keeps, startup_connection-Keeps)

  check_peer-Keeps : (t : ℕ) (peer : Raw) (len : ℕ) (p : Pool) → Keeps v p (check_peer t peer len p)
  unfolding check_peer
  check_peer-Keeps t peer len p = grind (arith, startup_connection-Keeps)

  accept_on-Keeps :
      (server t : ℕ) (peer : Raw) (len : ℕ) (p : Pool) → Keeps v p (accept_on server t peer len p)
  unfolding accept_on
  accept_on-Keeps server t peer len p = grind (arith, check_peer-Keeps)

  pub on_new_connection-Keeps :
      (server status : ℕ) (peer : Raw) (len : ℕ) (p : Pool)
      → Keeps v p (on_new_connection server status peer len p)
  unfolding on_new_connection total
  on_new_connection-Keeps server status peer len p = grind (arith, accept_on-Keeps)

  pub on_udp_recv-Keeps :
      (u : ℕ) (r : ReadResult) (addr : Option Raw) (p : Pool) → Keeps v p (on_udp_recv u r addr p)
  unfolding on_udp_recv total
  on_udp_recv-Keeps u (got b) addr p = ground arith
  on_udp_recv-Keeps u nothing addr p = ground arith
  on_udp_recv-Keeps u (failed code) addr p = ground arith

  pub on_udp_send_done-weight :
      (w : UdpSend) (status : ℕ) (p : Pool)
      → (owed v (on_udp_send_done w status p) ≡ owed v p)
        × (held v (on_udp_send_done w status p) ≡ held v p + v w.buf)
  unfolding on_udp_send_done total
  on_udp_send_done-weight w status p = ground arith
