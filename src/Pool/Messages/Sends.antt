-- ===== src/Pool/Messages/Sends.antt =====
-- The effect of the loops of on_wakeup over the pending requests on the messages.
use network_pool.Common.{
  ℕ, ◌+◌, ◌≡◌, refl, inl, inr, Bool, false, List, [], ◌∷◌, arith, total, Option-cases,
}
use network_pool.Node.{Node, tcp, udp}
use network_pool.Handle.{allocate, call}
use network_pool.Pool.{Bytes, Pool, PendingSend, on_loop, notify, connection_status}
use network_pool.Pool.Connection.{stream_by_node, push_waiting}
use network_pool.Pool.Setup.{connect_tcp}
use network_pool.Pool.Wakeup.Bind.{bind_tcp, bind_udp, process_bind}
use network_pool.Pool.Wakeup.Send.{connect_for, send_tcp, send_udp, process_send, process_close}
use network_pool.Pool.Wakeup.Stop.{each}
use network_pool.Pool.Messages.{owed, held, Keeps}
use network_pool.Pool.Messages.Buffers.{drop_waiting-Keeps, push_waiting-weight}
use network_pool.Pool.Messages.Streams.{Gains, shutdown_connection-Keeps, start_write-Gains}

module _ (v : Bytes → ℕ) where
  bind_tcp-Keeps : (n : Node) (on : Bool) (p : Pool) → Keeps v p (bind_tcp n on p)
  unfolding bind_tcp total
  bind_tcp-Keeps n on p = ground arith

  bind_udp-Keeps : (n : Node) (on : Bool) (p : Pool) → Keeps v p (bind_udp n on p)
  unfolding bind_udp total
  bind_udp-Keeps n on p = ground arith

  pub process_bind-Keeps : (b : Node × Bool) (p : Pool) → Keeps v p (process_bind b p)
  unfolding process_bind
  process_bind-Keeps (n, on) p = ground (arith, bind_tcp-Keeps n on p, bind_udp-Keeps n on p)

  connect_for-Keeps : (n : Node) (p : Pool) → Keeps v p (connect_for n p)
  unfolding connect_for total
  connect_for-Keeps n p = ground (
    arith,
    drop_waiting-Keeps v n (
        notify (connection_status n false)
          (record p { loop = (connect_tcp p.settings n p.loop).1 })),
  )

  send_tcp-Gains : (r : PendingSend) (p : Pool) → Gains v (v r.bytes) p (send_tcp r p)
  unfolding send_tcp total
  send_tcp-Gains r p = elim (Option-cases (stream_by_node r.node p)) [
    | inl e ↦
        let n = r.node in
        ground
          (arith, push_waiting-weight v n r.bytes p, connect_for-Keeps n (push_waiting n r.bytes p))
    | inr (t, e) ↦
        ground (arith, start_write-Gains v r.node t (r.bytes ∷ []) (on_loop (call allocate) p))
  ]

  pub process_close-Keeps : (c : Node × Bool) (p : Pool) → Keeps v p (process_close c p)
  unfolding process_close
  process_close-Keeps (n, force) p = grind (arith, shutdown_connection-Keeps)

  -- UDP messages are never reported as dropped, so they are owed no longer once they are taken up.
  abbrev pub tcp_part : PendingSend → ℕ
  tcp_part r = elim (r.node.protocol) [ tcp ↦ v r.bytes | udp ↦ 0 ]

  abbrev pub udp_part : PendingSend → ℕ
  udp_part r = elim (r.node.protocol) [ tcp ↦ 0 | udp ↦ v r.bytes ]

  -- A pending send that is taken up is held, and owed if it is a TCP message.
  pub record Takes (w h : ℕ) (p q : Pool) : Type 0 where
    pub owed : owed v q ≡ owed v p + w
    pub held : held v q ≡ held v p + h

  send_udp-Takes : (r : PendingSend) (p : Pool) → Takes 0 (v r.bytes) p (send_udp r p)
  unfolding send_udp total
  send_udp-Takes r p = ground arith

  process_send-Takes :
      (r : PendingSend) (p : Pool) → Takes (tcp_part r) (v r.bytes) p (process_send r p)
  unfolding process_send
  process_send-Takes r p = ground (arith, send_tcp-Gains r p, send_udp-Takes r p)

  pub each_send-Takes :
      (rs : List PendingSend) (p : Pool)
      → Takes (total tcp_part rs) (total (λ r. v r.bytes) rs) p (each process_send rs p)
  unfolding each total
  each_send-Takes [] p = omega arith
  each_send-Takes (r ∷ rs) p =
      omega (arith, process_send-Takes r p, each_send-Takes rs (process_send r p))

  pub each-Keeps {ℓ} :
      {A : Type ℓ} (f : A → Pool → Pool)
      → ((a : A) (p : Pool) → Keeps v p (f a p))
      → (xs : List A) (p : Pool) → Keeps v p (each f xs p)
  unfolding each
  each-Keeps f keep [] p = record { owed = refl; held = refl }
  each-Keeps f keep (x ∷ xs) p = omega (arith, keep x p, each-Keeps f keep xs (f x p))

  pub split_parts :
      (rs : List PendingSend) → total tcp_part rs + total udp_part rs ≡ total (λ r. v r.bytes) rs
  unfolding total
  split_parts [] = refl
  split_parts (r ∷ rs) = ground (arith, split_parts rs)
