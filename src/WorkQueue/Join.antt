-- ===== src/WorkQueue/Join.antt =====
-- How the threads of CworkQueue (work_queue.h) return once the exit is set, for the joins of the
-- destructor and of the constructor that throws.
use network_pool.Common.{
  ℕ, zero, suc, ◌+◌, ◌-◌, ◌≤◌, ◌<◌, ◌≡◌, refl, ap, ◌∙◌, true, List, [], ◌∷◌, arith, length, ◌==◌,
  if◌then◌else◌,
}
use network_pool.WorkQueue.{
  Worker, seeking, waiting, busy, ended, WorkQueue, notify_all, notify_one, wake, push_task,
  set_exit, worker_step, thread_step, Input, pushes, steps, wakes, exits, work_step, work,
}
use network_pool.WorkQueue.Account.{AreEnded}
use network_pool.WorkQueue.Order.{get_next_exit}

-- No thread waits to be woken.
abbrev IsAwake : Worker → Type 0
IsAwake waiting = ⊥
IsAwake _ = Unit

abbrev AreAwake : List Worker → Type 0
AreAwake [] = Unit
AreAwake (w ∷ ws) = IsAwake w × AreAwake ws

notify_all-AreAwake : (ws : List Worker) → AreAwake (notify_all ws)
unfolding notify_all
notify_all-AreAwake [] = tt
notify_all-AreAwake (seeking ∷ ws) = (tt, notify_all-AreAwake ws)
notify_all-AreAwake (waiting ∷ ws) = (tt, notify_all-AreAwake ws)
notify_all-AreAwake (busy t ∷ ws) = (tt, notify_all-AreAwake ws)
notify_all-AreAwake (ended ∷ ws) = (tt, notify_all-AreAwake ws)

length-notify_all : (ws : List Worker) → length (notify_all ws) ≡ length ws
unfolding notify_all
length-notify_all [] = refl
length-notify_all (seeking ∷ ws) = ap suc (length-notify_all ws)
length-notify_all (waiting ∷ ws) = ap suc (length-notify_all ws)
length-notify_all (busy t ∷ ws) = ap suc (length-notify_all ws)
length-notify_all (ended ∷ ws) = ap suc (length-notify_all ws)

-- Where no thread waits, a notice changes nothing.
notify_all-same : (ws : List Worker) → AreAwake ws → notify_all ws ≡ ws
unfolding notify_all
notify_all-same [] h = refl
notify_all-same (seeking ∷ ws) h = ap (◌∷◌ seeking) (notify_all-same ws h.1)
notify_all-same (waiting ∷ ws) h = absurd h.0
notify_all-same (busy t ∷ ws) h = ap (◌∷◌ (busy t)) (notify_all-same ws h.1)
notify_all-same (ended ∷ ws) h = ap (◌∷◌ ended) (notify_all-same ws h.1)

notify_one-same : (i : ℕ) (ws : List Worker) → AreAwake ws → notify_one ws i ≡ ws
unfolding notify_one
notify_one-same i [] h = refl
notify_one-same zero (waiting ∷ ws) h = absurd h.0
notify_one-same (suc i) (waiting ∷ ws) h = absurd h.0
notify_one-same i (seeking ∷ ws) h = ap (◌∷◌ seeking) (notify_one-same i ws h.1)
notify_one-same i (busy t ∷ ws) h = ap (◌∷◌ (busy t)) (notify_one-same i ws h.1)
notify_one-same i (ended ∷ ws) h = ap (◌∷◌ ended) (notify_one-same i ws h.1)

wake-same : (i : ℕ) (ws : List Worker) → AreAwake ws → wake i ws ≡ ws
unfolding wake
wake-same i [] h = refl
wake-same zero (waiting ∷ ws) h = absurd h.0
wake-same zero (seeking ∷ ws) h = refl
wake-same zero (busy t ∷ ws) h = refl
wake-same zero (ended ∷ ws) h = refl
wake-same (suc i) (w ∷ ws) h = ap (◌∷◌ w) (wake-same i ws h.1)

-- The steps that a thread still takes once the exit is set.
abbrev ahead : Worker → ℕ
ahead seeking = 1
ahead waiting = 1
ahead (busy t) = 2
ahead ended = 0

abbrev ahead_at : ℕ → List Worker → ℕ
ahead_at k [] = 0
ahead_at zero (w ∷ ws) = ahead w
ahead_at (suc k) (w ∷ ws) = ahead_at k ws

-- How many steps the thread takes.
unfoldable pub steps_of : ℕ → List Input → ℕ
steps_of k [] = 0
steps_of k (steps i ∷ is) = (if i == k then 1 else 0) + steps_of k is
steps_of k (pushes t i ∷ is) = steps_of k is
steps_of k (wakes i ∷ is) = steps_of k is
steps_of k (exits ∷ is) = steps_of k is

-- One step with the exit set.
record Leaves (q q' : WorkQueue) : Type 0 where
  exit : q'.exit ≡ true
  taken : q'.taken ≡ q.taken

worker_step-Leaves :
    (w : Worker) (q : WorkQueue)
    → q.exit ≡ true
    → IsAwake w
    → Leaves q (worker_step w q).1
      × IsAwake (worker_step w q).0
      × (ahead (worker_step w q).0 ≤ ahead w - 1)
unfolding worker_step
worker_step-Leaves seeking q e h =
    rw (get_next_exit q.tasks q e) (record { exit = e; taken = refl }, tt, omega arith)
worker_step-Leaves waiting q e h = absurd h
worker_step-Leaves (busy t) q e h = (record { exit = e; taken = refl }, tt, omega arith)
worker_step-Leaves ended q e h = (record { exit = e; taken = refl }, tt, omega arith)

thread_step-Leaves :
    (i : ℕ) (ws : List Worker) (q : WorkQueue)
    → q.exit ≡ true
    → AreAwake ws
    → Leaves q (thread_step i ws q).1
      × AreAwake (thread_step i ws q).0
      × (length (thread_step i ws q).0 ≡ length ws)
      × ((k : ℕ) → ahead_at k (thread_step i ws q).0 ≤ ahead_at k ws - (if i == k then 1 else 0))
unfolding thread_step
thread_step-Leaves i [] q e h = (record { exit = e; taken = refl }, tt, refl, λ k. omega arith)
thread_step-Leaves zero (w ∷ ws) q e h =
    let s = worker_step-Leaves w q e h.0 in (s.0, (s.1, h.1), refl, first s.2)
  where
    first :
        ahead (worker_step w q).0 ≤ ahead w - 1
        → (k : ℕ)
        → ahead_at k ((worker_step w q).0 ∷ ws) ≤ ahead_at k (w ∷ ws) - (if 0 == k then 1 else 0)
    first l zero = l
    first l (suc k) = ground arith
thread_step-Leaves (suc i) (w ∷ ws) q e h =
    let s = thread_step-Leaves i ws q e h.1 in (s.0, (h.0, s.1), ap suc s.2, rest s.3)
  where
    rest :
        ((k : ℕ) → ahead_at k (thread_step i ws q).0 ≤ ahead_at k ws - (if i == k then 1 else 0))
        → (k : ℕ)
        → ahead_at k (w ∷ (thread_step i ws q).0)
          ≤ ahead_at k (w ∷ ws) - (if suc i == k then 1 else 0)
    rest l zero = ground arith
    rest l (suc k) = ground (arith, l k)

-- What is kept by each step once the exit is set.
record Quits (is : List Input) (q q' : WorkQueue) : Type 0 where
  leaves : Leaves q q'
  awake : AreAwake q'.workers
  number : length q'.workers ≡ length q.workers
  nearer : (k : ℕ) → ahead_at k q'.workers ≤ ahead_at k q.workers - steps_of k is

-- A step that leaves the threads as they are.
same-Quits :
    (is : List Input) (q q' : WorkQueue)
    → Leaves q q'
    → AreAwake q.workers
    → q'.workers ≡ q.workers
    → ((k : ℕ) → steps_of k is ≡ 0)
    → Quits is q q'
same-Quits is q q' l h e z = record {
  leaves = l;
  awake = rw e h;
  number = ap length e;
  nearer = λ k. rw e (omega (arith, z k));
}

work_step-Quits :
    (i : Input) (q : WorkQueue)
    → q.exit ≡ true
    → AreAwake q.workers
    → Quits (i ∷ []) q (work_step i q)
unfolding work_step push_task set_exit steps_of
work_step-Quits (pushes t i) q e h =
    same-Quits _ q _ (record { exit = e; taken = refl }) h (notify_one-same i q.workers h)
      (λ k. refl)
work_step-Quits (wakes i) q e h =
    same-Quits _ q _ (record { exit = e; taken = refl }) h (wake-same i q.workers h) (λ k. refl)
work_step-Quits exits q e h =
    same-Quits _ q _ (record { exit = refl; taken = refl }) h (notify_all-same q.workers h)
      (λ k. refl)
work_step-Quits (steps i) q e h =
    let s = thread_step-Leaves i q.workers q e h in
    record {
      leaves = record { exit = s.0.exit; taken = s.0.taken };
      awake = s.1;
      number = s.2;
      nearer = λ k. omega (arith, s.3 k);
    }

steps_of-cons :
    (i : Input) (is : List Input) (k : ℕ)
    → steps_of k (i ∷ is) ≡ steps_of k (i ∷ []) + steps_of k is
unfolding steps_of
steps_of-cons (pushes t i) is k = omega arith
steps_of-cons (steps i) is k = omega arith
steps_of-cons (wakes i) is k = omega arith
steps_of-cons exits is k = omega arith

work-Quits :
    (is : List Input) (q : WorkQueue) → q.exit ≡ true → AreAwake q.workers → Quits is q (work is q)
unfolding work steps_of
work-Quits [] q e h = same-Quits [] q q (record { exit = e; taken = refl }) h refl (λ k. refl)
work-Quits (i ∷ is) q e h =
    let s = work_step-Quits i q e h in
    let r = work-Quits is (work_step i q) s.leaves.exit s.awake in
    record {
      leaves = record { exit = r.leaves.exit; taken = r.leaves.taken ∙ s.leaves.taken };
      awake = r.awake;
      number = r.number ∙ s.number;
      nearer = λ k. omega (arith, r.nearer k, s.nearer k, steps_of-cons i is k);
    }

ahead_at-two : (k : ℕ) (ws : List Worker) → ahead_at k ws ≤ 2
ahead_at-two k [] = omega arith
ahead_at-two zero (seeking ∷ ws) = omega arith
ahead_at-two zero (waiting ∷ ws) = omega arith
ahead_at-two zero (busy t ∷ ws) = omega arith
ahead_at-two zero (ended ∷ ws) = omega arith
ahead_at-two (suc k) (w ∷ ws) = ahead_at-two k ws

ahead_zero : (w : Worker) → ahead w ≡ 0 → w ≡ ended
ahead_zero seeking e = absurd (omega arith)
ahead_zero waiting e = absurd (omega arith)
ahead_zero (busy t) e = absurd (omega arith)
ahead_zero ended e = refl

AreEnded-ahead : (ws : List Worker) → ((k : ℕ) → k < length ws → ahead_at k ws ≡ 0) → AreEnded ws
AreEnded-ahead [] h = tt
AreEnded-ahead (w ∷ ws) h =
    (ahead_zero w (h 0 (omega arith)), AreEnded-ahead ws (λ k lt. h (suc k) (omega arith)))

-- `setExit` wakes each thread that waits for a task, and none waits again: whatever is pushed behind it
-- and in whatever order the threads run, as soon as each thread has run two steps of its own, the
-- rest of the task that it had in hand and one call of `getNext`, all threads have returned, and no
-- task was given out in the meantime.
pub work-AreEnded :
    (is : List Input) (q : WorkQueue)
    → ((k : ℕ) → k < length q.workers → 2 ≤ steps_of k is)
    → AreEnded (work is (set_exit q)).workers × ((work is (set_exit q)).taken ≡ q.taken)
unfolding set_exit
work-AreEnded is q h =
    let r = work-Quits is (set_exit q) refl (notify_all-AreAwake q.workers) in
    (
      AreEnded-ahead (work is (set_exit q)).workers (λ k lt. omega (
        arith,
        r.nearer k,
        ahead_at-two k (set_exit q).workers,
        h k (omega (arith, r.number, length-notify_all q.workers, lt)),
      )),
      r.leaves.taken,
    )
