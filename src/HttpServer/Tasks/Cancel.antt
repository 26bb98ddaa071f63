-- ===== src/HttpServer/Tasks/Cancel.antt =====
-- A connection that is lost (http_server.h): its context and its tasks.
use mathlib.Core.List.{map}
use network_pool.Common.{
  ℕ, ◌≡◌, refl, ap, Bool, false, none, List, [], ◌∷◌, Bool-cases, inl, inr, if◌then◌else◌,
}
use network_pool.Http.{HttpContext}
use network_pool.Http.Content.{got}
use network_pool.HttpServer.Tasks.{Task, Server, run_task, cancel, connection_status}
use network_pool.Node.{Node, node_eq}
use network_pool.Table.{Table, find, erase}

-- The tasks of a node, and those of the others.
unfoldable pub tasks_of : Node → List (Node × Task) → List Task
tasks_of n [] = []
tasks_of n ((k, t) ∷ ts) = if node_eq k n then t ∷ tasks_of n ts else tasks_of n ts

unfoldable pub others : Node → List (Node × Task) → List (Node × Task)
others n [] = []
others n ((k, t) ∷ ts) = if node_eq k n then others n ts else (k, t) ∷ others n ts

find-erase : (n : Node) (t : Table HttpContext) → find n (erase n t) ≡ none
unfolding find erase
find-erase n [] = refl
find-erase n ((k, v) ∷ t) = elim (Bool-cases (node_eq k n)) [
  | inl e ↦ rw (erase, e) (find-erase n t)
  | inr e ↦ rw (erase, e, find, e) (find-erase n t)
]

cancel-idle :
    (reply : List ℕ) (pooled : Bool) (n : Node) (ts : List (Node × Task))
    → map (run_task reply pooled) (tasks_of n (cancel n ts)) ≡ map (λ t. got []) (tasks_of n ts)
unfolding tasks_of cancel run_task
cancel-idle reply pooled n [] = refl
cancel-idle reply pooled n ((k, t) ∷ ts) = elim (Bool-cases (node_eq k n)) [
  | inl e ↦ rw (cancel, tasks_of, e) (ap (λ rest. got [] ∷ rest) (cancel-idle reply pooled n ts))
  | inr e ↦ rw (cancel, tasks_of, e) (cancel-idle reply pooled n ts)
]

cancel-others : (n : Node) (ts : List (Node × Task)) → others n (cancel n ts) ≡ others n ts
unfolding others cancel
cancel-others n [] = refl
cancel-others n ((k, t) ∷ ts) = elim (Bool-cases (node_eq k n)) [
  | inl e ↦ rw (cancel, others, e) (cancel-others n ts)
  | inr e ↦ rw (cancel, others, e) (ap (λ rest. (k, t) ∷ rest) (cancel-others n ts))
]

-- Where the connection of a node is reported down, the server has no context for the node any
-- longer; each task of the node, when it is run, asks nothing of the pool and reads nothing; and
-- the tasks of other nodes are as they were.
pub connection_status-cancels :
    (reply : List ℕ) (pooled : Bool) (trace : ℕ) (memory : HttpContext) (n : Node) (s : Server)
    → (find n (connection_status trace memory n false s).contexts ≡ none)
      × (map (run_task reply pooled) (tasks_of n (connection_status trace memory n false s).tasks)
          ≡ map (λ t. got []) (tasks_of n s.tasks))
      × (others n (connection_status trace memory n false s).tasks ≡ others n s.tasks)
unfolding connection_status
connection_status-cancels reply pooled trace memory n s =
    (find-erase n s.contexts, cancel-idle reply pooled n s.tasks, cancel-others n s.tasks)
