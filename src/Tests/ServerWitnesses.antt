-- ===== src/Tests/ServerWitnesses.antt =====
-- The theorem of the server at a concrete history.
use network_pool.Common.{
  ℕ, true, false, some, List, [], ◌∷◌, arith, set_elem, length-set_elem, take-set_elem,
}
use network_pool.Http.{HttpContext, bytes}
use network_pool.HttpServer.Connections.{Event, status, arrives, ended, new_server, serve_events}
use network_pool.HttpServer.Connections.Invariant.{Serving}
use network_pool.HttpServer.Connections.Safety.{Fills, AreProper, serve_events-Serving}
use network_pool.Node.{Node}
use network_pool.Tests.HttpSample.{zeros, length-zeros, arrived, supply, supply-IsSupplied}
use network_pool.Tests.Sample.{peer}

-- One letter is written behind what has been received.
abbrev one_letter : HttpContext → List ℕ
one_letter c = set_elem c.now_index 71 (bytes c)

one_letter-Fills : Fills one_letter
one_letter-Fills = record {
  keeps = λ c. take-set_elem c.now_index c.now_index 71 (bytes c) (omega arith);
  sized = λ c. length-set_elem c.now_index 71 (bytes c);
}

-- A connection comes up, a letter arrives on it and another one, and it is lost.
abbrev short_history : List (Node × Event)
short_history =
    (peer, status 0 arrived true)
    ∷ (peer, arrives (λ n. some (zeros n)) one_letter supply (λ k. k) true 1)
    ∷ (peer, arrives (λ n. some (zeros n)) one_letter supply (λ k. k) true 1)
    ∷ (peer, status 0 arrived false)
    ∷ []

short_history-AreProper : AreProper short_history
short_history-AreProper = (
  tt,
  (
    (length-zeros, one_letter-Fills, supply-IsSupplied, omega arith),
    ((length-zeros, one_letter-Fills, supply-IsSupplied, omega arith), (tt, tt)),
  ),
)

serve_events-Serving_example : Serving (serve_events short_history (ended false new_server))
serve_events-Serving_example = serve_events-Serving short_history short_history-AreProper
