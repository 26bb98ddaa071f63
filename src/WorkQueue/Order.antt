-- ===== src/WorkQueue/Order.antt =====
-- In which order CworkQueue (work_queue.h) gives its tasks out.
use network_pool.Common.{ℕ, ◌≡◌, refl, ap, sym, ◌∙◌, true, List, [], ◌∷◌, ◌++◌, if◌then◌else◌}
use network_pool.WorkQueue.{
  waiting, busy, ended, WorkQueue, start, push_task, set_exit, get_next, Input, pushes, steps,
  wakes, exits, work_step, work,
}
use mathlib.Core.List.{append_assoc}
use network_pool.WorkQueue.Account.{thread_step-Works}

-- Tasks are given out in the order in which they were pushed.
abbrev pub IsFifo : WorkQueue → Type 0
IsFifo q = q.pushed ≡ q.taken ++ q.tasks

work_step-IsFifo : (i : Input) (q : WorkQueue) → IsFifo q → IsFifo (work_step i q)
unfolding work_step push_task set_exit
work_step-IsFifo (pushes t i) q h =
    ap (λ ts. ts ++ t ∷ []) h ∙ append_assoc q.taken q.tasks (t ∷ [])
work_step-IsFifo (steps i) q h =
    let s = thread_step-Works (λ t. 0) i q.workers q in s.pushed ∙ h ∙ sym s.order
work_step-IsFifo (wakes i) q h = h
work_step-IsFifo exits q h = h

work-IsFifo : (is : List Input) (q : WorkQueue) → IsFifo q → IsFifo (work is q)
unfolding work
work-IsFifo [] q h = h
work-IsFifo (i ∷ is) q h = work-IsFifo is (work_step i q) (work_step-IsFifo i q h)

-- Whatever the interleaving, the tasks that were given out and then those that wait are the tasks
-- that were pushed, in the order of the pushes.
pub start-IsFifo : (n : ℕ) (is : List Input) → IsFifo (work is (start n))
unfolding start
start-IsFifo n is = work-IsFifo is (start n) refl

pub get_next_exit : (ts : List ℕ) (q : WorkQueue) → q.exit ≡ true → get_next ts q ≡ (ended, q)
unfolding get_next
get_next_exit [] q e = ap (λ b. (if b then ended else waiting, q)) e
get_next_exit (t ∷ ts) q e =
    ap (λ b. if b then (ended, q) else (busy t, record q { tasks = ts; taken = q.taken ++ t ∷ [] }))
      e
