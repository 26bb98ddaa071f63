-- ===== src/HttpServer/Serve.antt =====
-- The loop of `message` (http_server.h) ends, and makes a task of each complete message.
pub mod Begun
pub mod Loop
use network_pool.Common.{
  ℕ, zero, suc, ◌+◌, ◌%◌, ◌≤◌, ◌<◌, ◌≡◌, refl, sym, ◌∙◌, subst, Bool, true, false, ◌&&◌, Option,
  none, some, List, [], ◌∷◌, arith, total, if◌then◌else◌, Bool-cases, leb-cases, inl, inr,
}
use network_pool.Buffer.Laws.{IsValid, IsSized}
use network_pool.Http.{
  State, state_start, state_read_header, state_read_body, state_read_chunk_header,
  state_read_chunk_body, state_read_chunk_footer, state_done, state_bad, HttpContext, size_limit,
}
use network_pool.Http.Analysis.{Analysis, returned, faulted, stuck, analysis}
use network_pool.Http.Content.{
  Reading, got, refused, beyond, Move, moved, thrown, is_done, is_good, reinit_for_next,
}
use network_pool.Http.Content.Merge.{Reads}
use network_pool.Http.Content.Next.{Parts, memory_size_lem}
use network_pool.Http.Content.Next.Parting.{done_index, reinit_for_next-IsSafe}
use network_pool.Http.Parts.{Moves}
use network_pool.Http.Parts.Whole.{analysis-Moves}
use network_pool.Http.Receive.{recv_push}
use network_pool.Http.Receive.Room.{IsReceiving}
use network_pool.Http.Rounds.{Returns, Analysed, analysis-IsSafe}
use network_pool.Http.Safety.{IsSafe}
use network_pool.HttpServer.{
  Supply, Served, served, aborted, outside, endless, push, take_message, serve, message,
}

-- A context whose buffer is well formed, where there is one.
abbrev pub IsNew : Option HttpContext → Type 0
IsNew none = Unit
IsNew (some c) = IsValid c.buffer

-- What `_new_no_throw` and `_malloc_throw` give is as large as was asked for.
pub record IsSupplied (s : Supply) : Type 0 where
  pub contexts : (k : ℕ) → IsNew (s.new_context k)
  pub memory : (k n : ℕ) → IsSized n (s.malloc k n)

-- A complete message, in a buffer of its own.
abbrev pub AreMessages : List HttpContext → Type 0
AreMessages [] = Unit
AreMessages (t ∷ ts) = (IsSafe t × IsValid t.buffer × (is_good t ≡ true)) × AreMessages ts

abbrev pub message_size : HttpContext → ℕ
message_size t = t.now_index

-- The tasks are messages with the state done, the connection can go on, and no byte of the `now` that had
-- arrived is lost; an exception comes from an allocation that fails.
abbrev pub Serves : Supply → ℕ → Served → Type 0
Serves s now (served ts closed c) =
    AreMessages ts × IsSafe c × IsReceiving c × (total message_size ts + c.now_index ≡ now)
Serves s now aborted = (k : ℕ) × (n : ℕ) × (s.malloc k n ≡ none)
Serves s now outside = ⊥
Serves s now endless = ⊥

pub moved-IsReceiving :
    (c d : HttpContext) → Moves c d → d.now_index ≡ c.now_index → IsReceiving c → IsReceiving d
moved-IsReceiving c d m e r = record {
  valid = record {
    owns = m.memory ∙ r.valid.owns ∙ sym m.max_length;
    fits = omega (arith, m.length, m.max_length, r.valid.fits);
  };
  begun = omega (arith, m.length, r.begun);
  received = omega (arith, e, m.length, r.received);
  below = omega (arith, m.length, m.max_buffer_size, r.below);
  small = omega (arith, m.max_buffer_size, r.small);
}

pub is_done_lem : (st : State) → is_done st ≡ true → st ≡ state_done
unfolding is_done
is_done_lem state_start e = absurd (cc e)
is_done_lem state_read_header e = absurd (cc e)
is_done_lem state_read_body e = absurd (cc e)
is_done_lem state_read_chunk_header e = absurd (cc e)
is_done_lem state_read_chunk_body e = absurd (cc e)
is_done_lem state_read_chunk_footer e = absurd (cc e)
is_done_lem state_done e = refl
is_done_lem state_bad e = absurd (cc e)

pub good_lem : (d : HttpContext) → is_good d ≡ true → d.state ≡ state_done
unfolding is_good
good_lem d e = is_done_lem d.state e

pub middle : (a b c : Bool) → (a && b && c) ≡ true → b ≡ true
middle true true c e = refl
middle true false c e = e
middle false true c e = refl
middle false false c e = e

pub push-Serves :
    (s : Supply) (now rest : ℕ) (t : HttpContext) (r : Served)
    → IsSafe t × IsValid t.buffer × (is_good t ≡ true)
    → t.now_index + rest ≡ now
    → Serves s rest r
    → Serves s now (push t r)
unfolding push total
push-Serves s now rest t (served ts closed c) h e k = ((h, k.0), k.1, k.2, omega (arith, k.3, e))
push-Serves s now rest t aborted h e k = k
push-Serves s now rest t outside h e k = k
push-Serves s now rest t endless h e k = k
