-- ===== src/HttpServer/Serve/Begun.antt =====
-- Through `message` (http_server.h): a context that reads a header has received a byte.
use network_pool.Common.{
  ℕ, zero, suc, ◌+◌, ◌-◌, ◌≤◌, ◌<◌, ◌≡◌, refl, sym, subst, Bool, true, ◌&&◌, not, Option, none,
  some, List, [], ◌%◌, arith, length, leb, if◌then◌else◌, if_both, leb-cases, inl, inr,
}
use network_pool.Buffer.{Outcome, done, threw, fault, read, set}
use network_pool.Http.{
  State, state_start, state_read_header, state_read_body, state_read_chunk_header,
  state_read_chunk_body, state_read_chunk_footer, state_done, state_bad, HttpContext, bytes,
  size_limit,
}
use network_pool.Http.Analysis.{
  Advance, again, wait, over, fault, if_more, step_in, step, Analysis, returned, faulted, stuck,
  analyse, rounds, analysis,
}
use network_pool.Http.Content.{
  Reading, got, refused, beyond, Move, moved, thrown, is_good, former_of, next_of, reinit_for_next,
}
use network_pool.Http.Receive.{cleared}
use network_pool.Http.Receive.Kept.{IsBegun}
use network_pool.Http.Progress.{weight, Falls}
use network_pool.Http.Progress.Steps.{step-Falls}
use network_pool.Http.Rounds.{go_on, analyse_lem}
use network_pool.Http.Receive.{recv_push}
use network_pool.HttpServer.{
  Supply, Served, served, aborted, outside, endless, push, take_message, serve, message,
}

-- What a round gives.
abbrev Gives : (HttpContext → Type 0) → Advance → Type 0
Gives P (again d) = P d
Gives P (wait d) = P d
Gives P (over d) = P d
Gives P fault = Unit

Falls-IsBegun : (now w : ℕ) (a : Advance) → 0 < now → Falls now w a → Gives IsBegun a
Falls-IsBegun now w (again d) pos f = λ _. omega (arith, f.0, pos)
Falls-IsBegun now w (wait d) pos f = λ _. omega (arith, f.0, pos)
Falls-IsBegun now w (over d) pos f = λ _. omega (arith, f.0, pos)
Falls-IsBegun now w fault pos f = tt

-- Where nothing is left to read, a round leaves the context.
if_more-wait :
    (c : HttpContext) (a : Advance)
    → c.now_index ≤ c.analysis_index
    → IsBegun c
    → Gives IsBegun (if_more c a)
unfolding if_more
if_more-wait c a le b = elim (leb-cases c.now_index c.analysis_index) [
  | inl (t, _) ↦ rw t b
  | inr (t, lt) ↦ absurd (omega arith)
]

step_in-wait :
    (st : State) (c : HttpContext)
    → c.now_index ≤ c.analysis_index
    → IsBegun c
    → Gives IsBegun (step_in st c)
unfolding step_in
step_in-wait state_start c le b = if_more-wait c _ le b
step_in-wait state_read_header c le b = if_more-wait c _ le b
step_in-wait state_read_body c le b = if_more-wait c _ le b
step_in-wait state_read_chunk_header c le b = if_more-wait c _ le b
step_in-wait state_read_chunk_body c le b = if_more-wait c _ le b
step_in-wait state_read_chunk_footer c le b = if_more-wait c _ le b
step_in-wait state_done c le b = b
step_in-wait state_bad c le b = b

step-IsBegun : (c : HttpContext) → IsBegun c → Gives IsBegun (step c)
unfolding step
step-IsBegun c b = elim (leb-cases c.now_index c.analysis_index) [
  | inl (_, le) ↦ step_in-wait c.state c le b
  | inr (_, lt) ↦ Falls-IsBegun c.now_index (weight c) (step c) (omega arith) (step-Falls c)
]

abbrev Leaves : Analysis → Type 0
Leaves (returned final d) = IsBegun d
Leaves faulted = Unit
Leaves stuck = Unit

analyse-IsBegun : (fuel : ℕ) (c : HttpContext) → IsBegun c → Leaves (analyse fuel c)
unfolding analyse
analyse-IsBegun zero c b = tt
analyse-IsBegun (suc fuel) c b =
    subst Leaves (sym (analyse_lem fuel c)) (go (step c) (step-IsBegun c b) (analyse-IsBegun fuel))
  where
    go :
        (a : Advance)
        → Gives IsBegun a
        → ((d : HttpContext) → IsBegun d → Leaves (analyse fuel d))
        → Leaves (go_on fuel a)
    go (again d) g ih = ih d g
    go (wait d) g ih = g
    go (over d) g ih = g
    go fault g ih = tt

-- What `reinitForNext` leaves is at the start of a message.
abbrev Starts : Reading Move → Type 0
Starts (got (moved t d)) = d.state ≡ state_start
Starts (got (thrown t)) = Unit
Starts refused = Unit
Starts beyond = Unit

reinit_for_next-Starts :
    (former : HttpContext) (malloced : Option (List ℕ)) (c : HttpContext)
    → Starts (reinit_for_next former malloced c)
unfolding reinit_for_next next_of cleared
reinit_for_next-Starts former malloced c =
    if_both Starts (not (is_good c)) tt (copy (read c.analysis_index c.buffer.memory))
  where
    store :
        (o : Outcome)
        → Starts (elim o [
          | done b ↦
              if leb
                (c.analysis_index + (c.now_index + size_limit - c.analysis_index) % size_limit)
                (length (bytes c))
              then got (moved (former_of c former b) (next_of c))
              else beyond
          | threw b ↦
              got (thrown (record former { max_buffer_size = c.max_buffer_size; buffer = b }))
          | fault ↦ beyond
        ])
    store (done b) =
        if_both Starts
          (leb (c.analysis_index + (c.now_index + size_limit - c.analysis_index) % size_limit)
            (length (bytes c)))
          refl tt
    store (threw b) = tt
    store fault = tt

    copy :
        (o : Option (List ℕ))
        → Starts (elim o [
          | none ↦ beyond
          | some bs ↦ elim (set bs malloced former.buffer) [
            | done b ↦
                if leb
                  (c.analysis_index + (c.now_index + size_limit - c.analysis_index) % size_limit)
                  (length (bytes c))
                then got (moved (former_of c former b) (next_of c))
                else beyond
            | threw b ↦
                got (thrown (record former { max_buffer_size = c.max_buffer_size; buffer = b }))
            | fault ↦ beyond
          ]
        ])
    copy none = tt
    copy (some bs) = store (set bs malloced former.buffer)

abbrev pub EndsBegun : Served → Type 0
EndsBegun (served ts closed c) = IsBegun c
EndsBegun aborted = Unit
EndsBegun outside = Unit
EndsBegun endless = Unit

push-EndsBegun : (t : HttpContext) (r : Served) → EndsBegun r → EndsBegun (push t r)
unfolding push
push-EndsBegun t (served ts closed c) h = h
push-EndsBegun t aborted h = h
push-EndsBegun t outside h = h
push-EndsBegun t endless h = h

take_message-EndsBegun :
    (former c : HttpContext) (r : Reading Move) (next : HttpContext → Served)
    → Starts r
    → IsBegun c
    → ((d : HttpContext) → IsBegun d → EndsBegun (next d))
    → EndsBegun (take_message former c r next)
unfolding take_message
take_message-EndsBegun former c (got (moved t d)) next s b h =
    push-EndsBegun t (next d) (h d (λ e. absurd (cc (e, s))))
take_message-EndsBegun former c (got (thrown t)) next s b h = tt
take_message-EndsBegun former c refused next s b h = push-EndsBegun former (next c) (h c b)
take_message-EndsBegun former c beyond next s b h = tt

serve-EndsBegun :
    (fuel : ℕ) (s : Supply) (pooled : Bool) (k : ℕ) (c : HttpContext)
    → IsBegun c
    → EndsBegun (serve fuel s pooled k c)
unfolding serve analysis
serve-EndsBegun zero s pooled k c b = tt
serve-EndsBegun (suc fuel) s pooled k c b =
    go (analysis c) (analyse-IsBegun (rounds c) c b) (serve-EndsBegun fuel s pooled (suc k))
  where
    task :
        (d : HttpContext) (o : Option HttpContext)
        → IsBegun d
        → ((e : HttpContext) → IsBegun e → EndsBegun (serve fuel s pooled (suc k) e))
        → EndsBegun (elim o [
          | none ↦ served [] true d
          | some former ↦
              take_message former d
                (reinit_for_next former (s.malloc k d.analysis_index) d)
                (λ e. serve fuel s pooled (suc k) e)
        ])
    task d none b ih = b
    task d (some former) b ih =
        take_message-EndsBegun former d _ _
          (reinit_for_next-Starts former (s.malloc k d.analysis_index) d) b ih

    go :
        (a : Analysis)
        → Leaves a
        → ((e : HttpContext) → IsBegun e → EndsBegun (serve fuel s pooled (suc k) e))
        → EndsBegun (elim a [
          | faulted ↦ outside
          | stuck ↦ endless
          | returned final d ↦
              if final && is_good d && pooled
              then elim (s.new_context k) [
                | none ↦ served [] true d
                | some former ↦
                    take_message former d
                      (reinit_for_next former (s.malloc k d.analysis_index) d)
                      (λ e. serve fuel s pooled (suc k) e)
              ]
              else served [] (final && pooled) d
        ])
    go faulted b ih = tt
    go stuck b ih = tt
    go (returned final d) b ih =
        if_both EndsBegun (final && is_good d && pooled) (task d (s.new_context k) b ih) b

pub message-EndsBegun :
    (s : Supply) (pooled : Bool) (n : ℕ) (c : HttpContext)
    → IsBegun (recv_push n c)
    → EndsBegun (message s pooled n c)
unfolding message
message-EndsBegun s pooled n c b =
    serve-EndsBegun (suc (recv_push n c).now_index) s pooled 0 (recv_push n c) b
