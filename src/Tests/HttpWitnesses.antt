-- ===== src/Tests/HttpWitnesses.antt =====
-- The theorems on messages at a concrete request.
use mathlib.Core.List.{reverse, map}
use network_pool.HttpServer.Tasks.{Server, run_task, connection_status}
use network_pool.HttpServer.Tasks.Cancel.{tasks_of, others, connection_status-cancels}
use network_pool.Table.{find}
use network_pool.Tests.Sample.{peer, other_peer}
use network_pool.Common.{
  subst, ◌≤◌, drop, ◌<◌, ◌≡◌, refl, none, some, true, false, ◌+◌, [], ◌∷◌, ◌++◌, length, total,
  arith,
}
use network_pool.Buffer.Laws.{Ends, Has}
use network_pool.Http.{HttpContext, bytes, state_read_body, state_read_chunk_body, state_done}
use network_pool.Http.Analysis.{
  again, returned, analyse, rounds, analysis, step, step_in, if_more, in_body,
}
use network_pool.Http.Parts.{AreApart}
use network_pool.Http.Parts.Whole.{begun, analysed, analysis-AreApart, overlong_chunk}
use network_pool.Http.Safety.{IsSafe}
use network_pool.Http.Content.{got, beyond, chunk_size, get_info, get_content}
use network_pool.Http.Content.Info.{StartsWith, get_info_lem, get_info-one_space}
use network_pool.Http.Content.Fields.{Field}
use network_pool.Http.Content.Merge.{PartsIn, Reads, merged, get_content_lem}
use network_pool.Http.Content.Next.{Parts}
use network_pool.Http.Rounds.{Returns, Analysed, analysis-IsSafe}
use network_pool.Http.Streaming.{each, each-analysis}
use network_pool.Http.Arrival.{set_now}
use network_pool.Tests.HttpSample.{
  no_buffer, no_buffer-IsValid, zeros, arrived, arrived-IsSafe, complete,
}

analysis-IsSafe_example : Returns (Analysed 16) (analysis arrived)
analysis-IsSafe_example = analysis-IsSafe arrived arrived-IsSafe

-- The request in three pieces.
each-analysis_example :
    each (5 ∷ 12 ∷ 16 ∷ []) (analysis (set_now 2 arrived))
    ≡ analysis (set_now 16 (set_now 2 arrived))
each-analysis_example =
    each-analysis (5 ∷ 12 ∷ 16 ∷ []) (set_now 2 arrived)
      (omega arith, (omega arith, (omega arith, tt)))

complete-StartsWith : StartsWith ((71 ∷ []) ++ 32 ∷ ((47 ∷ []) ++ 32 ∷ (72 ∷ []))) complete
unfolding drop
complete-StartsWith = record {
  start = 0;
  size = some 5;
  others = (7, some 4) ∷ [];
  rest = drop 6 (bytes complete);
  first = refl;
  text = refl;
  no_null = (refl, refl, (refl, refl, (refl, refl, (refl, refl, (refl, refl, tt)))));
}

get_info_lem_example : get_info complete ≡ got (71 ∷ [], 47 ∷ [], 72 ∷ [])
get_info_lem_example =
    get_info_lem (71 ∷ []) (47 ∷ []) (72 ∷ []) complete refl complete-StartsWith (refl, refl, tt)
      (refl, refl, tt)

-- The first line is "G /".
abbrev short : HttpContext
short = record complete {
  buffer = record {
    trace = 0;
    memory = some (71 ∷ 32 ∷ 47 ∷ 0 ∷ 0 ∷ []);
    length = 5;
    max_length = 5;
  };
  lines = (0, some 3) ∷ [];
}

short-StartsWith : StartsWith ((71 ∷ []) ++ 32 ∷ (47 ∷ [])) short
unfolding drop
short-StartsWith = record {
  start = 0;
  size = some 3;
  others = [];
  rest = 0 ∷ [];
  first = refl;
  text = refl;
  no_null = (refl, refl, (refl, refl, (refl, refl, tt)));
}

get_info-one_space_example : get_info short ≡ beyond
get_info-one_space_example =
    get_info-one_space (71 ∷ []) (47 ∷ []) short refl short-StartsWith (refl, refl, tt)
      (refl, refl, tt)

-- "A: b"
abbrev a_field : Field
a_field = record {
  name = 65 ∷ [];
  value = 98 ∷ [];
  before_name = [];
  after_name = [];
  before_value = 32 ∷ [];
  after_value = [];
}

-- Two parts of a body.
abbrev parts : HttpContext
parts = record complete { chunks = (7, 4) ∷ (2, 3) ∷ [] }

parts-small : total chunk_size parts.chunks < 18446744073709551616
unfolding total
parts-small = omega arith

parts_size : length (zeros 7) ≡ total chunk_size parts.chunks
unfolding total
parts_size = refl

get_content_lem_example :
    Reads
      (Ends
        (Has (merged (reverse parts.chunks) (bytes parts)))
        ((some (zeros 7) ≡ none) × (0 < total chunk_size parts.chunks)))
      (get_content no_buffer (some (zeros 7)) parts)
get_content_lem_example =
    get_content_lem no_buffer (some (zeros 7)) parts refl (omega arith, (omega arith, tt))
      parts-small no_buffer-IsValid parts_size

-- A body of three bytes.
abbrev body : HttpContext
body = record arrived { state = state_read_body; analysis_index = 2; content_length = 3 }

body-IsSafe : IsSafe body
body-IsSafe = record {
  stored = record {
    reached = omega arith;
    stored = arrived-IsSafe.stored.stored;
    small = omega arith;
    lines = tt;
  };
  state = omega arith;
}

body_lem :
    analysis body
    ≡ returned true (record body { analysis_index = 5; state = state_done; chunks = (2, 3) ∷ [] })
unfolding analysis analyse rounds step step_in if_more in_body
body_lem = refl

abbrev read_body : HttpContext
read_body = record body { analysis_index = 5; state = state_done; chunks = (2, 3) ∷ [] }

read_body-IsSafe : IsSafe read_body
read_body-IsSafe =
    (subst (Returns (Analysed body.now_index)) body_lem (analysis-IsSafe body body-IsSafe)).0

analysis-AreApart_example :
    AreApart 5 ((2, 3) ∷ [])
    × PartsIn (length (bytes body)) ((2, 3) ∷ [])
    × (total chunk_size ((2, 3) ∷ []) ≤ 5)
analysis-AreApart_example =
    analysis-AreApart read_body (analysed body read_body true (begun body refl) body_lem)
      read_body-IsSafe (omega arith, tt)

-- A chunk whose size was given as fffffffffffffffe.
abbrev overlong : HttpContext
overlong = record arrived {
  state = state_read_chunk_body;
  analysis_index = 3;
  now_chunk_size = 18446744073709551614;
}

overlong_chunk_example :
    (d : HttpContext) × (step overlong ≡ again d)
    × (d.chunks ≡ (3, 18446744073709551614) ∷ [])
    × (16 < 3 + 18446744073709551614)
overlong_chunk_example =
    overlong_chunk overlong refl (omega arith) (omega arith) (omega arith) (omega arith)

-- A task of each of two nodes.
abbrev two_tasks : Server
two_tasks = record {
  contexts = (peer, arrived) ∷ [];
  tasks =
      (peer, record { id = 0; canceled = false; context = complete })
      ∷ (other_peer, record { id = 1; canceled = false; context = complete })
      ∷ [];
}

connection_status-cancels_example :
    (find peer (connection_status 0 arrived peer false two_tasks).contexts ≡ none)
    × (map
          (run_task (1 ∷ []) true)
          (tasks_of peer (connection_status 0 arrived peer false two_tasks).tasks)
        ≡ map (λ t. got []) (tasks_of peer two_tasks.tasks))
    × (others peer (connection_status 0 arrived peer false two_tasks).tasks
        ≡ others peer two_tasks.tasks)
connection_status-cancels_example = connection_status-cancels (1 ∷ []) true 0 arrived peer two_tasks
