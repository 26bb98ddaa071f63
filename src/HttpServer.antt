-- ===== src/HttpServer.antt =====
-- ChttpServer of http_server.h: the loop of `message` over the messages that a connection has sent.
-- The task that `_new_no_throw` gives, and the memory that its buffer gets, are arguments.
pub mod Connections
pub mod Serve
pub mod Tasks
use network_pool.Common.{
  ℕ, zero, suc, ◌+◌, Bool, true, false, ◌&&◌, Option, none, some, List, [], ◌∷◌, if◌then◌else◌,
}
use network_pool.Http.{HttpContext}
use network_pool.Http.Analysis.{Analysis, returned, faulted, stuck, analysis}
use network_pool.Http.Content.{
  Reading, got, refused, beyond, Move, moved, thrown, is_good, reinit_for_next,
}
use network_pool.Http.Receive.{recv_push}

-- For the tasks in the order in which they are made: the context of the task, or `none` where it
-- cannot be made; and the memory of a size for its buffer, or `none`.
pub record Supply : Type 0 where
  pub new_context : ℕ → Option HttpContext
  pub malloc : ℕ → ℕ → Option (List ℕ)

-- How `message` ends: it returns, with the contexts of the tasks that it pushed, whether it closed
-- the node, and the context of the connection; or an exception, an access outside of a memory, or
-- no more fuel.
pub data Served : Type 0 where
  served : List HttpContext → Bool → HttpContext → Served
  aborted outside endless : Served

-- `pushTask`
unfoldable pub push : HttpContext → Served → Served
push t (served ts closed c) = served (t ∷ ts) closed c
push t aborted = aborted
push t outside = outside
push t endless = endless

-- `ctx.reinitForNext(task->getContext())`, the task, and `goto _again`.
unfoldable pub take_message :
    HttpContext → HttpContext → Reading Move → (HttpContext → Served) → Served
take_message former c (got (moved t d)) again = push t (again d)
take_message former c (got (thrown t)) again = aborted
take_message former c refused again = push former (again c)
take_message former c beyond again = outside

-- From `_again`, where `m_pool != nullptr` is the test `pooled`.
unfoldable pub serve : ℕ → Supply → Bool → ℕ → HttpContext → Served
serve zero s pooled k c = endless
serve (suc fuel) s pooled k c = elim (analysis c) [
  | faulted ↦ outside
  | stuck ↦ endless
  | returned done d ↦
      if done && is_good d && pooled
      then elim (s.new_context k) [
        | none ↦ served [] true d
        | some former ↦
            take_message former d (reinit_for_next former (s.malloc k d.analysis_index) d)
              (λ e. serve fuel s pooled (suc k) e)
      ]
      else served [] (done && pooled) d
]

-- `message(node, data, length)` on the context of the node. Each message has a byte at least.
unfoldable pub message : Supply → Bool → ℕ → HttpContext → Served
message s pooled n c = let d = recv_push n c in serve (suc d.now_index) s pooled 0 d
