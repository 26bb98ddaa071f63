-- ===== src/HttpServer/Serve/Loop.antt =====
-- `message` of http_server.h as a whole.
use network_pool.Common.{
  ℕ, zero, suc, ◌+◌, ◌%◌, ◌≤◌, ◌<◌, ◌≡◌, refl, subst, Bool, true, ◌&&◌, Option, none, some, [],
  arith, total, if◌then◌else◌, Bool-cases, leb-cases, inl, inr,
}
use network_pool.Http.{state_done, HttpContext, size_limit}
use network_pool.Http.Analysis.{Analysis, returned, faulted, stuck, analysis}
use network_pool.Http.Content.{
  Reading, got, refused, beyond, Move, moved, thrown, is_good, reinit_for_next,
}
use network_pool.Http.Content.Merge.{Reads}
use network_pool.Http.Content.Next.{Parts, memory_size_lem}
use network_pool.Http.Content.Next.Parting.{done_index, reinit_for_next-IsSafe}
use network_pool.Http.Parts.{Moves}
use network_pool.Http.Parts.Whole.{analysis-Moves}
use network_pool.Http.Receive.{recv_push}
use network_pool.Http.Receive.Room.{IsReceiving}
use network_pool.Http.Rounds.{Returns, Analysed, analysis-IsSafe}
use network_pool.Http.Safety.{IsSafe}
use network_pool.HttpServer.{Supply, served, outside, endless, take_message, serve, message}
use network_pool.HttpServer.Serve.{
  IsNew, IsSupplied, Serves, moved-IsReceiving, good_lem, middle, push-Serves,
}

module _ (s : Supply) (sup : IsSupplied s) (pooled : Bool) where
  -- A message, and the loop after it.
  task-Serves :
      (k fuel : ℕ) (former d : HttpContext) (r : Reading Move) (T : Type 0)
      → (T → (s.malloc k d.analysis_index ≡ none))
      → d.now_index < suc fuel
      → 0 < d.analysis_index
      → d.analysis_index ≤ d.now_index
      → Reads (Parts d T) r
      → ((e : HttpContext)
          → e.now_index < fuel
          → IsSafe e
          → IsReceiving e
          → Serves s e.now_index (serve fuel s pooled (suc k) e))
      → Serves s d.now_index (take_message former d r (λ e. serve fuel s pooled (suc k) e))
  unfolding take_message
  task-Serves k fuel former d (got (moved t e)) T f lt pos le p ih =
      push-Serves s d.now_index e.now_index t _ (p.message, p.has.valid, p.same.good)
        (omega (arith, p.same.size, p.extra, le))
        (ih e (omega (arith, p.extra, pos, le, lt)) p.next p.receiving)
  task-Serves k fuel former d (got (thrown t)) T f lt pos le p ih = (k, d.analysis_index, f p)
  task-Serves k fuel former d refused T f lt pos le p ih = absurd p
  task-Serves k fuel former d beyond T f lt pos le p ih = absurd p

  serve-Serves :
      (fuel k : ℕ) (c : HttpContext)
      → c.now_index < fuel
      → IsSafe c
      → IsReceiving c
      → Serves s c.now_index (serve fuel s pooled k c)
  unfolding serve total
  serve-Serves zero k c lt safe r = absurd (omega arith)
  serve-Serves (suc fuel) k c lt safe r =
      go (analysis c) (analysis-IsSafe c safe) (λ b d e. analysis-Moves c d b e)
        (serve-Serves fuel (suc k))
    where
      supplied :
          (d : HttpContext) (o : Option HttpContext)
          → IsNew o
          → d.now_index ≡ c.now_index
          → d.state ≡ state_done
          → IsSafe d
          → IsReceiving d
          → ((e : HttpContext)
              → e.now_index < fuel
              → IsSafe e
              → IsReceiving e
              → Serves s e.now_index (serve fuel s pooled (suc k) e))
          → Serves s c.now_index (elim o [
            | none ↦ served [] true d
            | some former ↦
                take_message former d
                  (reinit_for_next former (s.malloc k d.analysis_index) d)
                  (λ e. serve fuel s pooled (suc k) e)
          ])
      supplied d none v e st sd rd ih = (tt, sd, rd, omega (arith, e))
      supplied d (some former) v e st sd rd ih =
          subst
            (λ n. Serves s n (
              take_message former d (reinit_for_next former (s.malloc k d.analysis_index) d)
                (λ e. serve fuel s pooled (suc k) e)))
            e
            (task-Serves k fuel former d _ _ (λ t. t.0) (omega (arith, lt, e)) (done_index d st sd)
              sd.stored.reached
              (reinit_for_next-IsSafe former (s.malloc k d.analysis_index) d sd rd st v
                (sup.memory k d.analysis_index))
              ih)

      go :
          (a : Analysis)
          → Returns (Analysed c.now_index) a
          → ((b : Bool) (d : HttpContext) → a ≡ returned b d → Moves c d)
          → ((e : HttpContext)
              → e.now_index < fuel
              → IsSafe e
              → IsReceiving e
              → Serves s e.now_index (serve fuel s pooled (suc k) e))
          → Serves s c.now_index (elim a [
            | faulted ↦ outside
            | stuck ↦ endless
            | returned done d ↦
                if done && is_good d && pooled
                then elim (s.new_context k) [
                  | none ↦ served [] true d
                  | some former ↦
                      take_message former d
                        (reinit_for_next former (s.malloc k d.analysis_index) d)
                        (λ e. serve fuel s pooled (suc k) e)
                ]
                else served [] (done && pooled) d
          ])
      go faulted h m ih = h
      go stuck h m ih = h
      go (returned done d) h m ih =
          let rd = moved-IsReceiving c d (m done d refl) h.1 r in
          elim (Bool-cases (done && is_good d && pooled)) [
            | inl t ↦ rw t (
                supplied d (s.new_context k) (sup.contexts k) h.1
                  (good_lem d (middle done (is_good d) pooled t)) h.0 rd ih)
            | inr t ↦ rw t (tt, h.0, rd, omega (arith, h.1))
          ]

-- What was received stands in the buffer.
recv_push-IsSafe :
    (n : ℕ) (c : HttpContext)
    → IsSafe c
    → IsReceiving c
    → n < 9223372036854775808
    → IsSafe (recv_push n c) × IsReceiving (recv_push n c)
unfolding recv_push
recv_push-IsSafe n c h r lt = elim (leb-cases ((c.now_index + n) % size_limit) c.buffer.length) [
  | inr (t, _) ↦ rw t (h, r)
  | inl (t, le) ↦
      let sum : (c.now_index + n) % size_limit ≡ c.now_index + n =
        omega (arith, r.received, r.below, r.small, lt) in
      rw t (
        record {
          stored = record {
            reached = omega (arith, sum, h.stored.reached);
            stored = omega (arith, le, r.valid.owns, r.valid.fits, memory_size_lem c.buffer.memory);
            small = omega (arith, le, r.below, r.small);
            lines = h.stored.lines;
          };
          state = h.state;
        },
        record {
          valid = r.valid;
          begun = r.begun;
          received = le;
          below = r.below;
          small = r.small;
        },
      )
]

pub message-IsSafe :
    (s : Supply) (pooled : Bool) (n : ℕ) (c : HttpContext)
    → IsSupplied s
    → IsSafe c
    → IsReceiving c
    → n < 9223372036854775808
    → Serves s (recv_push n c).now_index (message s pooled n c)
unfolding message
message-IsSafe s pooled n c sup safe r lt =
    let (a, b) = recv_push-IsSafe n c safe r lt in
    serve-Serves s sup pooled (suc (recv_push n c).now_index) 0 (recv_push n c) (omega arith) a b
