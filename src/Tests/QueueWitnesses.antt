-- ===== src/Tests/QueueWitnesses.antt =====
-- The theorem of the threads that return, at a concrete history.
use network_pool.Common.{ℕ, zero, suc, ◌≡◌, ◌<◌, ◌≤◌, List, [], ◌∷◌, arith, length}
use network_pool.WorkQueue.{
  seekers, start, notify_one, push_task, set_exit, get_next, worker_step, thread_step, Input,
  pushes, steps, work_step, work,
}
use network_pool.WorkQueue.Account.{AreEnded}
use network_pool.WorkQueue.Join.{steps_of, work-AreEnded}

-- Two threads: the first waits, and the second has a task in hand.
abbrev early : List Input
early = steps 0 ∷ pushes 5 0 ∷ steps 1 ∷ steps 0 ∷ []

abbrev joins : List Input
joins = steps 0 ∷ pushes 7 0 ∷ steps 1 ∷ steps 1 ∷ steps 0 ∷ []

joins-both : (k : ℕ) → k < length (work early (start 2)).workers → 2 ≤ steps_of k joins
unfolding work work_step thread_step worker_step get_next push_task notify_one start seekers
    steps_of
joins-both zero lt = omega arith
joins-both (suc zero) lt = omega arith
joins-both (suc (suc k)) lt = absurd (omega arith)

work-AreEnded_example :
    AreEnded (work joins (set_exit (work early (start 2)))).workers
    × ((work joins (set_exit (work early (start 2)))).taken ≡ (work early (start 2)).taken)
work-AreEnded_example = work-AreEnded joins (work early (start 2)) joins-both
