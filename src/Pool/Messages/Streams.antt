-- ===== src/Pool/Messages/Streams.antt =====
-- The effect of connection startup, writing and shutdown on the messages.
use network_pool.Common.{
  ℕ, ◌+◌, ◌≡◌, refl, inl, inr, Bool, false, Option, none, some, List, arith, total, Option-cases,
}
use network_pool.Node.{Node}
use network_pool.Table.{find}
use network_pool.Handle.{allocate, call}
use network_pool.Pool.{Bytes, Pool, on_loop, tcp_node}
use network_pool.Pool.Connection.{
  drop_bufs, write_from_waiting, forget_stream, shutdown_connection, drop_write_and_shutdown,
  start_write, send_waiting, startup_connection,
}
use network_pool.Pool.Messages.{owed, held, Keeps}
use network_pool.Pool.Messages.Buffers.{
  drop_bufs_lem, total-dropped, total-released, waiting-erase_at, drop_waiting-Keeps,
}

module _ (v : Bytes → ℕ) where
  pub Keeps-refl : (p : Pool) → Keeps v p p
  Keeps-refl p = record { owed = refl; held = refl }

  pub Keeps-trans : {p q r : Pool} → Keeps v p q → Keeps v q r → Keeps v p r
  Keeps-trans h k = omega arith

  -- `q` has the messages of `p` and those of weight `n`.
  pub record Gains (n : ℕ) (p q : Pool) : Type 0 where
    pub owed : owed v q ≡ owed v p + n
    pub held : held v q ≡ held v p + n

  pub forget_stream-Keeps : (n : Node) (b : Bool) (p : Pool) → Keeps v p (forget_stream n b p)
  unfolding forget_stream total
  forget_stream-Keeps n b p = ground arith

  pub shutdown_connection-Keeps :
      (t : ℕ) (a s : Bool) (p : Pool) → Keeps v p (shutdown_connection t a s p)
  unfolding shutdown_connection
  shutdown_connection-Keeps t a s p =
      let n = tcp_node p t in
      ground (arith, forget_stream-Keeps n a p, drop_waiting-Keeps v n (forget_stream n a p))

  drop_bufs-Gains :
      (n : Node) (bs : List Bytes) (p : Pool) → Gains (total v bs) p (drop_bufs n bs p)
  drop_bufs-Gains n bs p =
      rw (drop_bufs_lem n bs p)
        (omega (arith, total-dropped v n bs p.notices, total-released v bs p.freed))

  drop_write_and_shutdown-Gains :
      (n : Node) (t : ℕ) (bs : List Bytes) (p : Pool)
      → Gains (total v bs) p (drop_write_and_shutdown n t bs p)
  unfolding drop_write_and_shutdown
  drop_write_and_shutdown-Gains n t bs p =
      let h = drop_bufs-Gains n bs p in
      let k = shutdown_connection-Keeps t false false (drop_bufs n bs p) in omega arith

  pub start_write-Gains :
      (n : Node) (t : ℕ) (bs : List Bytes) (p : Pool) → Gains (total v bs) p (start_write n t bs p)
  unfolding start_write total
  start_write-Gains n t bs p = grind (arith, drop_write_and_shutdown-Gains n t bs)

  abbrev taken : Option (List Bytes) → ℕ
  taken none = 0
  taken (some bs) = total v bs

  write_from_waiting-Gains :
      (n : Node) (p : Pool) → Gains (taken (write_from_waiting n p).0) (write_from_waiting n p).1 p
  unfolding write_from_waiting
  write_from_waiting-Gains n p = elim (Option-cases (find n p.waiting_send)) [
    | inl e ↦ rw (e, write_from_waiting) (omega arith)
    | inr (bs, e) ↦
        rw (e, write_from_waiting)
          (ground (
            arith,
            drop_waiting-Keeps v n (on_loop (call allocate) p),
            waiting-erase_at v n p.waiting_send bs e,
          ))
  ]

  send_waiting-Keeps : (n : Node) (t : ℕ) (p : Pool) → Keeps v p (send_waiting n t p)
  unfolding send_waiting
  send_waiting-Keeps n t p =
      let q = (write_from_waiting n p).1 in
      elim (Option-cases (write_from_waiting n p).0) [
        | inl e ↦ ground (arith, write_from_waiting-Gains n p)
        | inr (bs, e) ↦ ground (arith, write_from_waiting-Gains n p, start_write-Gains n t bs q)
      ]

  pub startup_connection-Keeps : (t : ℕ) (p : Pool) → Keeps v p (startup_connection t p)
  unfolding startup_connection total
  startup_connection-Keeps t p = grind (arith, send_waiting-Keeps)
