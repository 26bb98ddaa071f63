-- ===== src/Pool/Messages/Buffers.antt =====
-- The effect of dropWaiting, pushWaiting and getWriteFromWaitingByNode on the messages.
use network_pool.Common.{
  ℕ, ◌+◌, ◌≡◌, refl, inl, inr, true, some, List, [], ◌∷◌, ◌++◌, arith, total, total-append,
  Option-cases,
}
use network_pool.Node.{Node}
use network_pool.Table.{Table, find, has, insert, erase_at, update_at}
use network_pool.Pool.{Bytes, Notice, drop, Pool}
use network_pool.Pool.Connection.{drop_bufs, drop_waiting, push_waiting}
use network_pool.Pool.Messages.{waiting_weight, notice_weight, owed, held, Keeps}

-- The notices and the releases of `drop_bufs`.
unfoldable pub dropped : Node → List Bytes → List Notice → List Notice
dropped n [] ns = ns
dropped n (b ∷ bs) ns = dropped n bs (drop n b ∷ ns)

unfoldable pub released : List Bytes → List Bytes → List Bytes
released [] fs = fs
released (b ∷ bs) fs = released bs (b ∷ fs)

pub drop_bufs_lem :
    (n : Node) (bs : List Bytes) (p : Pool)
    → drop_bufs n bs p ≡ record p { notices = dropped n bs p.notices; freed = released bs p.freed }
unfolding drop_bufs dropped released
drop_bufs_lem n [] p = refl
drop_bufs_lem n (b ∷ bs) p = drop_bufs_lem n bs _

module _ (v : Bytes → ℕ) where
  pub total-dropped :
      (n : Node) (bs : List Bytes) (ns : List Notice)
      → total (notice_weight v) (dropped n bs ns) ≡ total v bs + total (notice_weight v) ns
  unfolding dropped total
  total-dropped n [] ns = omega arith
  total-dropped n (b ∷ bs) ns = omega (arith, total-dropped n bs (drop n b ∷ ns))

  pub total-released : (bs fs : List Bytes) → total v (released bs fs) ≡ total v bs + total v fs
  unfolding released total
  total-released [] fs = omega arith
  total-released (b ∷ bs) fs = omega (arith, total-released bs (b ∷ fs))

  -- What `find` gives is what `erase_at` takes out.
  pub waiting-erase_at :
      (n : Node) (t : Table (List Bytes)) (bs : List Bytes)
      → find n t ≡ some bs
      → waiting_weight v (erase_at n t) + total v bs ≡ waiting_weight v t
  unfolding find erase_at total
  waiting-erase_at n [] bs h = cc
  waiting-erase_at n ((k, cs) ∷ t) bs h = ground (arith, waiting-erase_at n t bs)

  waiting-update_at :
      (n : Node) (b : Bytes) (t : Table (List Bytes))
      → has n t ≡ true
      → waiting_weight v (update_at n (λ bs. bs ++ b ∷ []) t) ≡ waiting_weight v t + v b
  unfolding has update_at total
  waiting-update_at n b [] h = cc
  waiting-update_at n b ((k, cs) ∷ t) h =
      ground (arith, waiting-update_at n b t, total-append v cs (b ∷ []))

  pub drop_waiting-Keeps : (n : Node) (p : Pool) → Keeps v p (drop_waiting n p)
  unfolding drop_waiting
  drop_waiting-Keeps n p = elim (Option-cases (find n p.waiting_send)) [
    | inl e ↦ rw (e, drop_waiting) (record { owed = refl; held = refl })
    | inr (bs, e) ↦
        rw (e, drop_waiting, drop_bufs_lem n bs p)
          (omega (
            arith,
            waiting-erase_at n p.waiting_send bs e,
            total-dropped n bs p.notices,
            total-released bs p.freed,
          ))
  ]

  -- A message put in the waiting queue, beside those that wait for the same node.
  pub push_waiting-weight :
      (n : Node) (b : Bytes) (p : Pool)
      → (owed v (push_waiting n b p) ≡ owed v p + v b)
        × (held v (push_waiting n b p) ≡ held v p + v b)
  unfolding push_waiting insert total
  push_waiting-weight n b p = ground (arith, waiting-update_at n b p.waiting_send)
