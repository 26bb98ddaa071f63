-- ===== src/HttpServer/Connections/Safety.antt =====
-- ChttpServer (http_server.h) over any sequence of its callbacks.
use network_pool.Common.{
  ℕ, ◌<◌, ◌≡◌, refl, subst, inl, inr, true, false, Option, none, some, List, [], ◌∷◌, arith, length,
  take,
}
use network_pool.Buffer.Laws.{IsSized}
use network_pool.Http.{HttpContext, bytes}
use network_pool.Http.Content.Next.{memory_size_lem}
use network_pool.Http.Receive.{
  construct, Receipt, ready, failed, grown_length, prepare_buffer, recv_push,
}
use network_pool.Http.Receive as Receive
use network_pool.Http.Receive.Kept.{IsSafe-kept}
use network_pool.Http.Receive.Ready.{IsReady, IsGood, Readies, prepare_buffer-Readies}
use network_pool.HttpServer.Connections.{
  Allocated, untouched, given, raised, beyond, with_room, allocate_memory, Ended, ended, thrown,
  strayed, looped, receive, Event, status, arrives, with_memory, arrive, serve_event, serve_events,
  new_server,
}
use network_pool.HttpServer.Connections.Invariant.{
  IsServing, Serving, cancel-AllIn, receive-Serving,
}
use network_pool.HttpServer.Serve.{IsSupplied}
use network_pool.HttpServer.Tasks.{Server, connection_status}
use network_pool.Node.{Node}
use network_pool.Table.{find, update_at}
use network_pool.Table.Values.{
  find-update_at, find-AllIn, update_at-AllIn, insert-AllIn, erase-AllIn,
}

-- libuv leaves what has been received, and the size of the memory.
pub record Fills (fill : HttpContext → List ℕ) : Type 0 where
  pub keeps : (c : HttpContext) → take c.now_index (fill c) ≡ take c.now_index (bytes c)
  pub sized : (c : HttpContext) → length (fill c) ≡ length (bytes c)

-- What libuv wrote.
filled-IsReady :
    (fill : HttpContext → List ℕ) (c : HttpContext)
    → Fills fill
    → IsReady c
    → IsReady (with_memory fill c)
unfolding with_memory
filled-IsReady fill c f r = record {
  safe =
      IsSafe-kept c _ (f.keeps c) (omega (arith, f.sized c, r.safe.stored.stored)) r.begun r.safe;
  receiving = record {
    valid = record {
      owns = omega (arith, f.sized c, memory_size_lem c.buffer.memory, r.receiving.valid.owns);
      fits = r.receiving.valid.fits;
    };
    begun = r.receiving.begun;
    received = r.receiving.received;
    below = r.receiving.below;
    small = r.receiving.small;
  };
  begun = r.begun;
}

-- What the allocation leaves: each context is good, and the one of the node receives.
abbrev Allots : Node → Server → Allocated → Type 0
Allots n s untouched = find n s.contexts ≡ none
Allots n s (given p size d) =
    IsServing d × (c : HttpContext) × (find n d.contexts ≡ some c) × IsReady c
Allots n s raised = Unit
Allots n s beyond = ⊥

allocate_memory-Allots :
    (malloc : ℕ → Option (List ℕ)) (n : Node) (s : Server)
    → ((k : ℕ) → IsSized k (malloc k))
    → IsServing s
    → Allots n s (allocate_memory malloc n s)
unfolding allocate_memory with_room
allocate_memory-Allots malloc n s z h = go (find n s.contexts) refl
  where
    room :
        (c : HttpContext) (r : Receipt)
        → find n s.contexts ≡ some c
        → Readies r
        → Allots n s (with_room n s r)
    room c (ready p size d) e k = (
      record {
        contexts = update_at-AllIn IsGood n (λ old. d) s.contexts (λ v f. inr k) h.contexts;
        tasks = h.tasks;
      },
      d,
      find-update_at n (λ old. d) s.contexts c e,
      k,
    )
    room c (failed d) e k = tt
    room c Receive.outside e k = k

    go :
        (o : Option HttpContext)
        → find n s.contexts ≡ o
        → Allots n s (elim o [
          | none ↦ untouched
          | some c ↦ with_room n s (prepare_buffer (malloc 4096) (malloc (grown_length c)) c)
        ])
    go none e = e
    go (some c) e = room c (prepare_buffer (malloc 4096) (malloc (grown_length c)) c) e (
        prepare_buffer-Readies (malloc 4096) (malloc (grown_length c)) c
          (find-AllIn IsGood n s.contexts c e h.contexts) (z 4096) (z (grown_length c)))

-- What the arguments of an event keep to: the memories have the size that was asked for, libuv writes
-- only where it was given room, and a message is shorter than 2 ^ 63.
abbrev pub IsProper : Event → Type 0
IsProper (status trace memory success) = Unit
IsProper (arrives malloc fill supply ids pooled size) =
    ((k : ℕ) → IsSized k (malloc k)) × Fills fill × IsSupplied supply × (size < 9223372036854775808)

arrive-Serving :
    (fill : HttpContext → List ℕ) (next : Server → Ended) (n : Node) (s : Server) (a : Allocated)
    → Fills fill
    → ((d : Server)
        → ((c : HttpContext) → find n d.contexts ≡ some c → IsReady c)
        → IsServing d
        → Serving (next d))
    → IsServing s
    → Allots n s a
    → Serving (arrive fill next n s a)
unfolding arrive
arrive-Serving fill next n s untouched f k h r = k s (λ c e. absurd (cc (e, r))) h
arrive-Serving fill next n s (given none size d) f k h r = r.0
arrive-Serving fill next n s (given (some p) size d) f k h r =
    k (record d { contexts = update_at n (with_memory fill) d.contexts })
      (λ c e. subst IsReady (same c e) kept)
      (record {
        contexts =
            update_at-AllIn IsGood n (with_memory fill) d.contexts
              (λ v e. inr (subst (λ w. IsReady (with_memory fill w)) (first v e) kept))
              r.0.contexts;
        tasks = r.0.tasks;
      })
  where
    kept : IsReady (with_memory fill r.1)
    kept = filled-IsReady fill r.1 f r.3

    first : (v : HttpContext) → find n d.contexts ≡ some v → r.1 ≡ v
    first v e = cc (e, r.2)

    same :
        (c : HttpContext)
        → find n (update_at n (with_memory fill) d.contexts) ≡ some c
        → with_memory fill r.1 ≡ c
    same c e = cc (e, find-update_at n (with_memory fill) d.contexts r.1 r.2)
arrive-Serving fill next n s raised f k h r = tt
arrive-Serving fill next n s beyond f k h r = r

serve_event-Serving :
    (n : Node) (e : Event) (s : Server) → IsProper e → IsServing s → Serving (serve_event n e s)
unfolding serve_event connection_status construct
serve_event-Serving n (status trace memory true) s p h = record {
  contexts =
      insert-AllIn IsGood n _ s.contexts
        (inl (record {
          valid = record { owns = refl; fits = omega arith };
          length = refl;
          max_length = refl;
          small = omega arith;
        }))
        h.contexts;
  tasks = h.tasks;
}
serve_event-Serving n (status trace memory false) s p h = record {
  contexts = erase-AllIn IsGood n s.contexts h.contexts;
  tasks = cancel-AllIn n s.tasks h.tasks;
}
serve_event-Serving n (arrives malloc fill supply ids pooled size) s p h =
    arrive-Serving fill (receive supply ids pooled size n) n s (allocate_memory malloc n s) p.1
      (λ d. receive-Serving supply ids pooled size n d p.2 p.3) h
      (allocate_memory-Allots malloc n s p.0 h)

abbrev pub AreProper : List (Node × Event) → Type 0
AreProper [] = Unit
AreProper ((n, e) ∷ es) = IsProper e × AreProper es

then-Serving :
    (es : List (Node × Event)) (r : Ended) → AreProper es → Serving r → Serving (serve_events es r)
unfolding serve_events
then-Serving [] r p h = h
then-Serving ((n, e) ∷ es) (ended closed s) p h =
    then-Serving es (serve_event n e s) p.1 (serve_event-Serving n e s p.0 h)
then-Serving ((n, e) ∷ es) thrown p h = then-Serving es thrown p.1 tt
then-Serving ((n, e) ∷ es) strayed p h = absurd h
then-Serving ((n, e) ∷ es) looped p h = absurd h

-- Over any sequence of connections that come up and go down and of bytes that arrive on them in the
-- memory that the server gave, with allocations that fail or give what was asked for: no callback of
-- the server makes an access outside of a memory, and each one ends. Every context has received
-- nothing yet, or can be analysed and receive further, and every task of the server has a context
-- with the state done, with its lines within its memory and a well-formed buffer.
pub serve_events-Serving :
    (es : List (Node × Event)) → AreProper es → Serving (serve_events es (ended false new_server))
unfolding new_server
serve_events-Serving es p =
    then-Serving es (ended false new_server) p (record { contexts = tt; tasks = tt })
