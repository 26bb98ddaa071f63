-- ===== src/HttpServer/Connections.antt =====
-- The callbacks of ChttpServer (http_server.h) over its table of connections. What `malloc` gives,
-- the tasks and their pointers, and what libuv writes to the memory are arguments.
pub mod Invariant
pub mod Safety
use network_pool.Common.{ℕ, zero, suc, Bool, true, false, Option, none, some, List, [], ◌∷◌}
use network_pool.Http.{HttpContext}
use network_pool.Http.Receive.{Receipt, ready, failed, outside, grown_length, prepare_buffer}
use network_pool.HttpServer as Loop
use network_pool.HttpServer.{Supply, Served, served, aborted, endless, message}
use network_pool.HttpServer.Tasks.{Task, Server, add_reference, connection_status}
use network_pool.Node.{Node}
use network_pool.Table.{find, update_at}

-- `ChttpServer(memoryTrace, nThread)`, less the work queue
unfoldable pub new_server : Server
new_server = record { contexts = []; tasks = [] }

-- How `allocateMemoryForMessage` ends: it leaves `buffer` and `length`, or sets them; by an
-- exception; or by an access outside of a memory.
pub data Allocated : Type 0 where
  untouched : Allocated
  given : Option ℕ → ℕ → Server → Allocated
  raised beyond : Allocated

unfoldable pub with_room : Node → Server → Receipt → Allocated
with_room n s (ready p size c) =
    given p size (record s { contexts = update_at n (λ old. c) s.contexts })
with_room n s (failed c) = raised
with_room n s outside = beyond

-- `allocateMemoryForMessage`
unfoldable pub allocate_memory : (ℕ → Option (List ℕ)) → Node → Server → Allocated
allocate_memory malloc n s = elim (find n s.contexts) [
  | none ↦ untouched
  | some c ↦ with_room n s (prepare_buffer (malloc 4096) (malloc (grown_length c)) c)
]

-- The tasks that were made, with their pointers.
unfoldable pub add_tasks : Node → (ℕ → ℕ) → ℕ → List HttpContext → Server → Server
add_tasks n ids k [] s = s
add_tasks n ids k (c ∷ cs) s =
    add_tasks n ids (suc k) cs
      (add_reference n (record { id = ids k; canceled = false; context = c }) s)

-- How a callback ends: with the server, and whether the node is closed; by an exception; by an
-- access outside of a memory; or with no more fuel.
pub data Ended : Type 0 where
  ended : (closed : Bool) → Server → Ended
  thrown strayed looped : Ended

unfoldable pub with_served : Node → (ℕ → ℕ) → Server → Served → Ended
with_served n ids s (served ts closed c) =
    ended closed (add_tasks n ids 0 ts (record s { contexts = update_at n (λ old. c) s.contexts }))
with_served n ids s aborted = thrown
with_served n ids s Loop.outside = strayed
with_served n ids s endless = looped

-- `message`
unfoldable pub receive : Supply → (ℕ → ℕ) → Bool → ℕ → Node → Server → Ended
receive supply ids pooled size n s = elim (find n s.contexts) [
  | none ↦ ended false s
  | some c ↦ with_served n ids s (message supply pooled size c)
]

-- What happens to the server: `connectionStatus`, or bytes that libuv writes to the memory that it
-- was given, or drops where it was given none.
pub data Event : Type 0 where
  status : (trace : ℕ) → (memory : HttpContext) → (success : Bool) → Event
  arrives :
      (malloc : ℕ → Option (List ℕ))
      → (fill : HttpContext → List ℕ) → Supply
      → (ids : ℕ → ℕ) → (pooled : Bool) → (size : ℕ) → Event

-- The memory of a context, as libuv leaves it.
unfoldable pub with_memory : (HttpContext → List ℕ) → HttpContext → HttpContext
with_memory fill c = record c { buffer = record c.buffer { memory = some (fill c) } }

unfoldable pub arrive :
    (HttpContext → List ℕ) → (Server → Ended) → Node → Server → Allocated → Ended
arrive fill next n s untouched = next s
arrive fill next n s (given none size d) = ended false d
arrive fill next n s (given (some p) size d) =
    next (record d { contexts = update_at n (with_memory fill) d.contexts })
arrive fill next n s raised = thrown
arrive fill next n s beyond = strayed

unfoldable pub serve_event : Node → Event → Server → Ended
serve_event n (status trace memory success) s =
    ended false (connection_status trace memory n success s)
serve_event n (arrives malloc fill supply ids pooled size) s =
    arrive fill (receive supply ids pooled size n) n s (allocate_memory malloc n s)

unfoldable pub serve_events : List (Node × Event) → Ended → Ended
serve_events [] r = r
serve_events ((n, e) ∷ es) (ended closed s) = serve_events es (serve_event n e s)
serve_events ((n, e) ∷ es) thrown = serve_events es thrown
serve_events ((n, e) ∷ es) strayed = serve_events es strayed
serve_events ((n, e) ∷ es) looped = serve_events es looped
