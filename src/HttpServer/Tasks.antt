-- ===== src/HttpServer/Tasks.antt =====
-- The connections and the tasks of ChttpServer (http_server.h), and ChttpTask (http_server.cpp).
-- Each change of m_tasks is under its lock.
pub mod Cancel
use mathlib.Core.List.{map}
use network_pool.Common.{
  ℕ, Bool, true, false, ◌&&◌, Option, none, some, List, [], ◌∷◌, ◌==◌, if◌then◌else◌,
}
use network_pool.Http.{HttpContext}
use network_pool.Http.Content.{Reading, got, refused, beyond, get_info, is_keep_alive}
use network_pool.Http.Receive
use network_pool.Node.{Node, node_eq}
use network_pool.Table.{Table, insert, erase}

-- ChttpTask. Its pointer is a number.
pub record Task : Type 0 where
  pub id : ℕ
  pub canceled : Bool
  pub context : HttpContext

pub record Server : Type 0 where
  pub contexts : Table HttpContext
  -- m_tasks
  pub tasks : List (Node × Task)

-- What a task asks of the pool.
pub data Reply : Type 0 where
  sends : List ℕ → Reply
  closes : Reply

-- `send` of the fixed reply, and `close`, where there is a pool.
unfoldable pub reply_to : List ℕ → Bool → HttpContext → List Reply
reply_to reply pooled c =
    if pooled then (if is_keep_alive c then sends reply ∷ [] else sends reply ∷ closes ∷ []) else []

-- `ChttpTask::run`. What `getInfo` returns is not looked at.
unfoldable pub run_task : List ℕ → Bool → Task → Reading (List Reply)
run_task reply pooled t = if t.canceled then got [] else elim (get_info t.context) [
  | got words ↦ got (reply_to reply pooled t.context)
  | refused ↦ got (reply_to reply pooled t.context)
  | beyond ↦ beyond
]

-- `addReferenceTask`
unfoldable pub add_reference : Node → Task → Server → Server
add_reference n t s = record s { tasks = (n, t) ∷ s.tasks }

unfoldable pub without : Node → ℕ → List (Node × Task) → List (Node × Task)
without n id [] = []
without n id ((k, t) ∷ ts) =
    let rest = without n id ts in if node_eq k n && (t.id == id) then ts else (k, t) ∷ rest

-- `deleteReferenceTask`
unfoldable pub delete_reference : Node → ℕ → Server → Server
delete_reference n id s = record s { tasks = without n id s.tasks }

-- `cancelTask`
unfoldable pub cancel : Node → List (Node × Task) → List (Node × Task)
cancel n [] = []
cancel n ((k, t) ∷ ts) =
    (k, (if node_eq k n then record t { canceled = true } else t)) ∷ cancel n ts

-- `connectionStatus`, with the memory in which a new context is made.
unfoldable pub connection_status : ℕ → HttpContext → Node → Bool → Server → Server
connection_status trace memory n success s =
    if success
    then record s { contexts = insert n (Receive.construct trace 16777216 memory) s.contexts }
    else record s { contexts = erase n s.contexts; tasks = cancel n s.tasks }
