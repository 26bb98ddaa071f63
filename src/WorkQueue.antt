-- ===== src/WorkQueue.antt =====
-- CworkQueue of work_queue.h. The threads share the queue under its lock, so each critical section
-- is one step; a history is any sequence of them. A task is a number; what `run` and the deleter
-- do is not in the file, and the queue records that they are called.
pub mod Account
pub mod Join
pub mod Order
use network_pool.Common.{ℕ, zero, suc, Bool, true, false, List, [], ◌∷◌, ◌++◌, if◌then◌else◌}

-- A thread in `worker`: at the lock of `getNext` or woken in it, asleep in `m_cv.wait`, with a task in
-- hand, or returned.
pub data Worker : Type 0 where
  seeking waiting : Worker
  busy : (task : ℕ) → Worker
  ended : Worker

pub record WorkQueue : Type 0 where
  pub exit : Bool
  pub tasks : List ℕ
  pub workers : List Worker
  -- What was pushed and what `getNext` gave out, oldest first.
  pub pushed : List ℕ
  pub taken : List ℕ
  -- The tasks that were run and those whose deleter was called, newest first.
  pub ran : List ℕ
  pub deleted : List ℕ

-- A number of threads that start in `worker`.
unfoldable pub seekers : ℕ → List Worker
seekers zero = []
seekers (suc n) = seeking ∷ seekers n

-- `CworkQueue(nThread)` where each thread can be created.
unfoldable pub start : ℕ → WorkQueue
start n = record {
  exit = false;
  tasks = [];
  workers = seekers n;
  pushed = [];
  taken = [];
  ran = [];
  deleted = [];
}

-- The loop of the constructor, from the thread with the number on; whether each thread can be created
-- is an argument. The threads that there are, and whether the creation of the next one threw.
unfoldable pub create_threads : ℕ → ℕ → (ℕ → Bool) → List Worker × Bool
create_threads zero i creates = ([], false)
create_threads (suc n) i creates =
    let (ws, threw) = create_threads n (suc i) creates in
    if creates i then (seeking ∷ ws, threw) else ([], true)

-- `m_cv.notify_all()`
unfoldable pub notify_all : List Worker → List Worker
notify_all [] = []
notify_all (waiting ∷ ws) = seeking ∷ notify_all ws
notify_all (w ∷ ws) = w ∷ notify_all ws

unfoldable pub any_waiting : List Worker → Bool
any_waiting [] = false
any_waiting (waiting ∷ ws) = true
any_waiting (w ∷ ws) = any_waiting ws

-- `m_cv.notify_one()`: one of the threads that wait, if there is any; which one is an argument, its
-- place among them or the last.
unfoldable pub notify_one : List Worker → ℕ → List Worker
notify_one [] i = []
notify_one (waiting ∷ ws) zero = seeking ∷ ws
notify_one (waiting ∷ ws) (suc i) =
    let rest = notify_one ws i in if any_waiting ws then waiting ∷ rest else seeking ∷ ws
notify_one (w ∷ ws) i = w ∷ notify_one ws i

-- A wait that ends without a notice, of the thread with the number.
unfoldable pub wake : ℕ → List Worker → List Worker
wake i [] = []
wake zero (waiting ∷ ws) = seeking ∷ ws
wake zero (w ∷ ws) = w ∷ ws
wake (suc i) (w ∷ ws) = w ∷ wake i ws

-- `pushTask`
unfoldable pub push_task : ℕ → ℕ → WorkQueue → WorkQueue
push_task t i q = record q {
  tasks = q.tasks ++ t ∷ [];
  pushed = q.pushed ++ t ∷ [];
  workers = notify_one q.workers i;
}

-- `setExit`
unfoldable pub set_exit : WorkQueue → WorkQueue
set_exit q = record q { exit = true; workers = notify_all q.workers }

-- `CworkQueue(nThread)` up to the joins of its handler, and whether it throws.
unfoldable pub construct : ℕ → (ℕ → Bool) → WorkQueue × Bool
construct n creates =
    let (ws, threw) = create_threads n 0 creates in
    let q = record (start 0) { workers = ws } in (if threw then set_exit q else q, threw)

-- `getNext`: the thread takes the front task, returns where it is to exit, or waits.
unfoldable pub get_next : List ℕ → WorkQueue → Worker × WorkQueue
get_next [] q = (if q.exit then ended else waiting, q)
get_next (t ∷ ts) q =
    if q.exit then (ended, q) else (busy t, record q { tasks = ts; taken = q.taken ++ t ∷ [] })

-- One step of `worker`: `getNext`, where a thread that waits goes on only once it is woken, or `task->run()` and `deleter(task)`.
unfoldable pub worker_step : Worker → WorkQueue → Worker × WorkQueue
worker_step seeking q = get_next q.tasks q
worker_step waiting q = (waiting, q)
worker_step (busy t) q = (seeking, record q { ran = t ∷ q.ran; deleted = t ∷ q.deleted })
worker_step ended q = (ended, q)

-- The thread with the number takes a step; the threads before it are put back.
unfoldable pub thread_step : ℕ → List Worker → WorkQueue → List Worker × WorkQueue
thread_step i [] q = ([], q)
thread_step zero (w ∷ ws) q = let (w', q') = worker_step w q in (w' ∷ ws, q')
thread_step (suc i) (w ∷ ws) q = let (ws', q') = thread_step i ws q in (w ∷ ws', q')

pub data Input : Type 0 where
  pushes : (task woken : ℕ) → Input
  steps wakes : ℕ → Input
  exits : Input

unfoldable pub work_step : Input → WorkQueue → WorkQueue
work_step (pushes t i) q = push_task t i q
work_step (wakes i) q = record q { workers = wake i q.workers }
work_step (steps i) q = let (ws, q') = thread_step i q.workers q in record q' { workers = ws }
work_step exits q = set_exit q

unfoldable pub work : List Input → WorkQueue → WorkQueue
work [] q = q
work (i ∷ is) q = work is (work_step i q)

-- The loop of the destructor over the tasks that are left.
unfoldable pub delete_rest : List ℕ → WorkQueue → WorkQueue
delete_rest [] q = q
delete_rest (t ∷ ts) q = delete_rest ts (record q { deleted = t ∷ q.deleted })

-- The end of `~CworkQueue()`, once each thread was joined.
unfoldable pub destroy : WorkQueue → WorkQueue
destroy q = delete_rest q.tasks q
