-- ===== src/WorkQueue/Account.antt =====
-- The tasks of CworkQueue (work_queue.h), counted: pushed, in the queue, in hand, run and deleted.
use network_pool.Common.{
  ℕ, zero, suc, ◌+◌, ◌≡◌, refl, ap, sym, ◌∙◌, List, [], ◌∷◌, ◌++◌, arith, total, total-append,
  if_both,
}
use network_pool.WorkQueue.{
  Worker, seeking, waiting, busy, ended, WorkQueue, seekers, start, notify_all, any_waiting,
  notify_one, wake, push_task, set_exit, get_next, worker_step, thread_step, Input, pushes, steps,
  wakes, exits, work_step, work, delete_rest, destroy,
}
use mathlib.Core.List.{append_assoc}

-- The threads have returned, as the destructor waits for.
abbrev pub AreEnded : List Worker → Type 0
AreEnded [] = Unit
AreEnded (w ∷ ws) = (w ≡ ended) × AreEnded ws

module _ (v : ℕ → ℕ) where
  abbrev pub hand_weight : Worker → ℕ
  hand_weight (busy t) = v t
  hand_weight _ = 0

  -- A task that was pushed is in the queue, in a thread's hand, or deleted.
  pub record Accounted (q : WorkQueue) (ws : List Worker) : Type 0 where
    pub once : total v q.tasks + total hand_weight ws + total v q.deleted ≡ total v q.pushed
    pub runs : total v q.taken ≡ total hand_weight ws + total v q.ran

  -- What a step of one thread changes, with the tasks in hand before and after it.
  pub record Works (h h' : ℕ) (q q' : WorkQueue) : Type 0 where
    pub pushed : q'.pushed ≡ q.pushed
    pub order : q'.taken ++ q'.tasks ≡ q.taken ++ q.tasks
    pub kept : total v q'.tasks + h' + total v q'.deleted ≡ total v q.tasks + h + total v q.deleted
    pub given : total v q'.taken + h + total v q.ran ≡ total v q.taken + h' + total v q'.ran

  Works-refl : (h : ℕ) (q : WorkQueue) → Works h h q q
  Works-refl h q = record { pushed = refl; order = refl; kept = refl; given = refl }

  get_next-Works :
      (ts : List ℕ) (q : WorkQueue)
      → q.tasks ≡ ts
      → Works 0 (hand_weight (get_next ts q).0) q (get_next ts q).1
  unfolding get_next total
  get_next-Works [] q e =
      if_both (λ w. Works 0 (hand_weight w) q q) q.exit (Works-refl 0 q) (Works-refl 0 q)
  get_next-Works (t ∷ ts) q e =
      if_both {A = Worker × WorkQueue} (λ r. Works 0 (hand_weight r.0) q r.1) q.exit
        (Works-refl 0 q)
        (record {
          pushed = refl;
          order = append_assoc q.taken (t ∷ []) ts ∙ ap (◌++◌ q.taken) (sym e);
          kept = rw e (omega arith);
          given = omega (arith, total-append v q.taken (t ∷ []));
        })

  worker_step-Works :
      (w : Worker) (q : WorkQueue)
      → Works (hand_weight w) (hand_weight (worker_step w q).0) q (worker_step w q).1
  unfolding worker_step total
  worker_step-Works seeking q = get_next-Works q.tasks q refl
  worker_step-Works waiting q = Works-refl 0 q
  worker_step-Works (busy t) q = record {
    pushed = refl;
    order = refl;
    kept = omega arith;
    given = omega arith;
  }
  worker_step-Works ended q = Works-refl 0 q

  pub thread_step-Works :
      (i : ℕ) (ws : List Worker) (q : WorkQueue)
      → Works
          (total hand_weight ws)
          (total hand_weight (thread_step i ws q).0)
          q
          (thread_step i ws q).1
  unfolding thread_step total
  thread_step-Works i [] q = Works-refl 0 q
  thread_step-Works zero (w ∷ ws) q =
      let s = worker_step-Works w q in
      record {
        pushed = s.pushed;
        order = s.order;
        kept = omega (arith, s.kept);
        given = omega (arith, s.given);
      }
  thread_step-Works (suc i) (w ∷ ws) q =
      let s = thread_step-Works i ws q in
      record {
        pushed = s.pushed;
        order = s.order;
        kept = omega (arith, s.kept);
        given = omega (arith, s.given);
      }

  notify_all-weight : (ws : List Worker) → total hand_weight (notify_all ws) ≡ total hand_weight ws
  unfolding notify_all total
  notify_all-weight [] = refl
  notify_all-weight (seeking ∷ ws) = ap (◌+◌ 0) (notify_all-weight ws)
  notify_all-weight (waiting ∷ ws) = ap (◌+◌ 0) (notify_all-weight ws)
  notify_all-weight (busy t ∷ ws) = ap (◌+◌ (v t)) (notify_all-weight ws)
  notify_all-weight (ended ∷ ws) = ap (◌+◌ 0) (notify_all-weight ws)

  notify_one-weight :
      (i : ℕ) (ws : List Worker) → total hand_weight (notify_one ws i) ≡ total hand_weight ws
  unfolding notify_one total
  notify_one-weight i [] = refl
  notify_one-weight zero (waiting ∷ ws) = refl
  notify_one-weight (suc i) (waiting ∷ ws) =
      if_both (λ us. total hand_weight us ≡ total hand_weight (waiting ∷ ws)) (any_waiting ws)
        (ap (◌+◌ 0) (notify_one-weight i ws)) refl
  notify_one-weight i (seeking ∷ ws) = ap (◌+◌ 0) (notify_one-weight i ws)
  notify_one-weight i (busy t ∷ ws) = ap (◌+◌ (v t)) (notify_one-weight i ws)
  notify_one-weight i (ended ∷ ws) = ap (◌+◌ 0) (notify_one-weight i ws)

  wake-weight : (i : ℕ) (ws : List Worker) → total hand_weight (wake i ws) ≡ total hand_weight ws
  unfolding wake total
  wake-weight i [] = refl
  wake-weight zero (waiting ∷ ws) = refl
  wake-weight zero (seeking ∷ ws) = refl
  wake-weight zero (busy t ∷ ws) = refl
  wake-weight zero (ended ∷ ws) = refl
  wake-weight (suc i) (w ∷ ws) = ap (◌+◌ (hand_weight w)) (wake-weight i ws)

  work_step-Accounted :
      (i : Input) (q : WorkQueue)
      → Accounted q q.workers
      → Accounted (work_step i q) (work_step i q).workers
  unfolding work_step push_task set_exit total
  work_step-Accounted (pushes t i) q h =
      let n = notify_one-weight i q.workers in
      let a = total-append v q.tasks (t ∷ []) in
      let b = total-append v q.pushed (t ∷ []) in
      record { once = omega (arith, a, b, n, h.once); runs = omega (arith, n, h.runs) }
  work_step-Accounted (steps i) q h =
      let s = thread_step-Works i q.workers q in
      record {
        once = rw s.pushed (omega (arith, s.kept, h.once));
        runs = omega (arith, s.given, h.runs);
      }
  work_step-Accounted (wakes i) q h =
      let n = wake-weight i q.workers in
      record { once = omega (arith, n, h.once); runs = omega (arith, n, h.runs) }
  work_step-Accounted exits q h =
      let n = notify_all-weight q.workers in
      record { once = omega (arith, n, h.once); runs = omega (arith, n, h.runs) }

  work-Accounted :
      (is : List Input) (q : WorkQueue)
      → Accounted q q.workers
      → Accounted (work is q) (work is q).workers
  unfolding work
  work-Accounted [] q h = h
  work-Accounted (i ∷ is) q h = work-Accounted is (work_step i q) (work_step-Accounted i q h)

  seekers-weight : (n : ℕ) → total hand_weight (seekers n) ≡ 0
  unfolding seekers total
  seekers-weight zero = refl
  seekers-weight (suc n) = omega (arith, seekers-weight n)

  start-Accounted : (n : ℕ) → Accounted (start n) (start n).workers
  unfolding start total
  start-Accounted n = record {
    once = omega (arith, seekers-weight n);
    runs = omega (arith, seekers-weight n);
  }

  delete_rest-weight :
      (ts : List ℕ) (q : WorkQueue)
      → (total v (delete_rest ts q).deleted ≡ total v q.deleted + total v ts)
        × ((delete_rest ts q).pushed ≡ q.pushed)
  unfolding delete_rest total
  delete_rest-weight [] q = (omega arith, refl)
  delete_rest-weight (t ∷ ts) q =
      let r = delete_rest-weight ts (record q { deleted = t ∷ q.deleted }) in
      (omega (arith, r.0), r.1)

  ended-weight : (ws : List Worker) → AreEnded ws → total hand_weight ws ≡ 0
  unfolding total
  ended-weight [] h = refl
  ended-weight (w ∷ ws) h = rw h.0 (omega (arith, ended-weight ws h.1))

  -- Whatever the interleaving of pushes, thread steps and the exit: once all threads have returned,
  -- the destructor leaves each task that was pushed deleted as many times as it was pushed, by a
  -- weight that may single out any task, and each task that was given out has been run as often.
  pub destroy-deletes :
      (n : ℕ) (is : List Input)
      → AreEnded (work is (start n)).workers
      → (total v (destroy (work is (start n))).deleted ≡ total v (work is (start n)).pushed)
        × (total v (work is (start n)).ran ≡ total v (work is (start n)).taken)
  unfolding destroy
  destroy-deletes n is h =
      let q = work is (start n) in
      let a = work-Accounted is (start n) (start-Accounted n) in
      let z = ended-weight q.workers h in
      (omega (arith, a.once, z, (delete_rest-weight q.tasks q).0), omega (arith, a.runs, z))
