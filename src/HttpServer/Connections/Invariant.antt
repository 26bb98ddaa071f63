-- ===== src/HttpServer/Connections/Invariant.antt =====
-- The contexts and the tasks of ChttpServer (http_server.h), and what `message` leaves of them.
use network_pool.Common.{
  ℕ, suc, ◌<◌, ◌≡◌, refl, inl, inr, Bool, true, false, Option, none, some, List, [], ◌∷◌, arith,
  if_both, ◌+◌, ◌%◌, leb-cases,
}
use network_pool.Buffer.Laws.{IsValid}
use network_pool.Http.{HttpContext, size_limit}
use network_pool.Http.Content.{is_good}
use network_pool.Http.Receive.{recv_push}
use network_pool.Http.Receive.Kept.{IsBegun}
use network_pool.Http.Receive.Ready.{IsReady, IsGood}
use network_pool.Http.Safety.{IsSafe}
use network_pool.HttpServer as Loop
use network_pool.HttpServer.{Supply, Served, served, aborted, endless, message}
use network_pool.HttpServer.Connections.{
  add_tasks, Ended, ended, thrown, strayed, looped, with_served, receive,
}
use network_pool.HttpServer.Serve.Begun.{EndsBegun, message-EndsBegun}
use network_pool.HttpServer.Serve.{IsSupplied, AreMessages, Serves}
use network_pool.HttpServer.Serve.Loop.{message-IsSafe}
use network_pool.HttpServer.Tasks.{Task, Server, add_reference, cancel}
use network_pool.Node.{Node, node_eq}
use network_pool.Table.{find}
use network_pool.Table.Values.{AllIn, update_at-AllIn}

-- A task has a context with the state done, its lines within its memory and a well-formed buffer.
abbrev pub IsComplete : Task → Type 0
IsComplete t = IsSafe t.context × IsValid t.context.buffer × (is_good t.context ≡ true)

pub record IsServing (s : Server) : Type 0 where
  pub contexts : AllIn IsGood s.contexts
  pub tasks : AllIn IsComplete s.tasks

-- How an event may end: not by an access outside of a memory, nor without an end.
abbrev pub Serving : Ended → Type 0
Serving (ended closed s) = IsServing s
Serving thrown = Unit
Serving strayed = ⊥
Serving looped = ⊥

pub cancel-AllIn :
    (n : Node) (ts : List (Node × Task)) → AllIn IsComplete ts → AllIn IsComplete (cancel n ts)
unfolding cancel
cancel-AllIn n [] a = a
cancel-AllIn n ((k, t) ∷ ts) a = (if_both IsComplete (node_eq k n) a.0 a.0, cancel-AllIn n ts a.1)

add_tasks-IsServing :
    (n : Node) (ids : ℕ → ℕ) (k : ℕ) (cs : List HttpContext) (s : Server)
    → AreMessages cs
    → IsServing s
    → IsServing (add_tasks n ids k cs s)
unfolding add_tasks add_reference
add_tasks-IsServing n ids k [] s m h = h
add_tasks-IsServing n ids k (c ∷ cs) s m h =
    add_tasks-IsServing n ids (suc k) cs _ m.1
      (record { contexts = h.contexts; tasks = (m.0, h.tasks) })

-- The end of `message` on the context of the node.
with_served-Serving :
    (n : Node) (ids : ℕ → ℕ) (s : Server) (supply : Supply) (now : ℕ) (r : Served)
    → IsServing s
    → Serves supply now r
    → EndsBegun r
    → Serving (with_served n ids s r)
unfolding with_served
with_served-Serving n ids s supply now (served ts closed c) h k b =
    add_tasks-IsServing n ids 0 ts _ k.0 (record {
      contexts =
          update_at-AllIn IsGood n (λ old. c) s.contexts
            (λ v e. inr (record { safe = k.1; receiving = k.2; begun = b })) h.contexts;
      tasks = h.tasks;
    })
with_served-Serving n ids s supply now aborted h k b = tt
with_served-Serving n ids s supply now Loop.outside h k b = k
with_served-Serving n ids s supply now endless h k b = k

recv_push-IsBegun :
    (size : ℕ) (c : HttpContext)
    → IsReady c
    → size < 9223372036854775808
    → IsBegun (recv_push size c)
unfolding recv_push
recv_push-IsBegun size c r lt =
    elim (leb-cases ((c.now_index + size) % size_limit) c.buffer.length) [
      | inl (t, _) ↦ rw t (λ e. omega (arith, r.begun e, r.receiving, lt))
      | inr (t, _) ↦ rw t r.begun
    ]

pub receive-Serving :
    (supply : Supply) (ids : ℕ → ℕ) (pooled : Bool) (size : ℕ) (n : Node) (s : Server)
    → IsSupplied supply
    → size < 9223372036854775808
    → ((c : HttpContext) → find n s.contexts ≡ some c → IsReady c)
    → IsServing s
    → Serving (receive supply ids pooled size n s)
unfolding receive
receive-Serving supply ids pooled size n s sup lt r h = go (find n s.contexts) r
  where
    go :
        (o : Option HttpContext)
        → ((c : HttpContext) → o ≡ some c → IsReady c)
        → Serving (elim o [
          | none ↦ ended false s
          | some c ↦ with_served n ids s (message supply pooled size c)
        ])
    go none q = h
    go (some c) q =
        let rc = q c refl in
        with_served-Serving n ids s supply (recv_push size c).now_index
          (message supply pooled size c) h
          (message-IsSafe supply pooled size c sup rc.safe rc.receiving lt)
          (message-EndsBegun supply pooled size c (recv_push-IsBegun size c rc lt))
