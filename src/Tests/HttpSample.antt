-- ===== src/Tests/HttpSample.antt =====
-- A request of one header line, with the first byte of the next request behind it.
use network_pool.Common.{
  ℕ, zero, suc, ◌≡◌, refl, ap, true, false, none, some, List, [], ◌∷◌, arith, length, get_elem?,
  set_elem, take, drop, subst,
}
use network_pool.Buffer.{Buffer}
use network_pool.Buffer.Laws.{IsValid}
use network_pool.HttpServer.{Supply}
use network_pool.HttpServer.Serve.{IsSupplied}
use network_pool.Http.{HttpContext, state_start, state_done}
use network_pool.Http.Analysis.{
  returned, analyse, rounds, analysis, step, step_in, if_more, in_start, in_header, header_line,
  end_of_line, end_last, line_length, with_byte, zero_at, bad,
}
use network_pool.Http.Header.{
  decoder_header, decode_lines, decode_text, line_at, switch_state, kv_decoder,
}
use network_pool.Http.Text.{
  split_line, split_char, skip_spaces, trim_end, is_space, is_text, to_lower,
}
use network_pool.Http.Rounds.{Returns, Analysed, analysis-IsSafe}
use network_pool.Http.Receive.Room.{IsReceiving}
use network_pool.Http.Safety.{IsSafe}

abbrev pub zeros : ℕ → List ℕ
zeros zero = []
zeros (suc n) = 0 ∷ zeros n

pub length-zeros : (n : ℕ) → length (zeros n) ≡ n
length-zeros zero = refl
length-zeros (suc n) = ap suc (length-zeros n)

-- "G / H", "A: b", an empty line, and "G"
abbrev pub page : List ℕ
page = 71 ∷ 32 ∷ 47 ∷ 32 ∷ 72 ∷ 13 ∷ 10 ∷ 65 ∷ 58 ∷ 32 ∷ 98 ∷ 13 ∷ 10 ∷ 13 ∷ 10 ∷ 71 ∷ zeros 4080

page_size : length page ≡ 4096
page_size = omega (arith, length-zeros 4080)

abbrev pub arrived : HttpContext
arrived = record {
  max_buffer_size = 16777216;
  buffer = record { trace = 0; memory = some page; length = 4096; max_length = 4096 };
  now_index = 16;
  analysis_index = 0;
  state = state_start;
  lines = [];
  header_size = 0;
  keep_alive = false;
  chunked = false;
  content_length = 0;
  now_chunk_size = 0;
  chunk_size_start = false;
  chunk_size_done = false;
  chunks = [];
}

pub arrived-IsSafe : IsSafe arrived
arrived-IsSafe = record {
  stored = record {
    reached = omega arith;
    stored = omega (arith, page_size);
    small = omega arith;
    lines = tt;
  };
  state = tt;
}

pub arrived-IsReceiving : IsReceiving arrived
arrived-IsReceiving = record {
  valid = record { owns = page_size; fits = omega arith };
  begun = omega arith;
  received = omega arith;
  below = omega arith;
  small = omega arith;
}

-- The lines end with nulls now.
abbrev pub read_page : List ℕ
read_page = 71 ∷ 32 ∷ 47 ∷ 32 ∷ 72 ∷ 0 ∷ 0 ∷ 65 ∷ 58 ∷ 32 ∷ 98 ∷ 0 ∷ 0 ∷ 0 ∷ 0 ∷ 71 ∷ zeros 4080

abbrev pub complete : HttpContext
complete = record arrived {
  buffer = record { trace = 0; memory = some read_page; length = 4096; max_length = 4096 };
  analysis_index = 15;
  state = state_done;
  lines = (7, some 4) ∷ (0, some 5) ∷ [];
  header_size = 15;
}

pub analysis_lem : analysis arrived ≡ returned true complete
unfolding analysis analyse rounds step step_in if_more in_start in_header header_line end_of_line
    end_last line_length with_byte zero_at bad decoder_header decode_lines decode_text line_at
    switch_state kv_decoder split_line split_char skip_spaces trim_end is_space is_text to_lower
    get_elem? set_elem take drop
analysis_lem = refl

pub complete-IsSafe : IsSafe complete
complete-IsSafe =
    (subst (Returns (Analysed 16)) analysis_lem (analysis-IsSafe arrived arrived-IsSafe)).0

pub complete-IsReceiving : IsReceiving complete
complete-IsReceiving = record {
  valid = record { owns = omega (arith, length-zeros 4080); fits = omega arith };
  begun = omega arith;
  received = omega arith;
  below = omega arith;
  small = omega arith;
}

abbrev pub no_buffer : Buffer
no_buffer = record { trace = 0; memory = none; length = 0; max_length = 0 }

pub no_buffer-IsValid : IsValid no_buffer
no_buffer-IsValid = record { owns = refl; fits = omega arith }

-- Each task gets a new context, and each buffer the memory that it asks for.
abbrev pub supply : Supply
supply = record {
  new_context = λ k. some (record arrived { buffer = no_buffer });
  malloc = λ k n. some (zeros n);
}

pub supply-IsSupplied : IsSupplied supply
supply-IsSupplied = record { contexts = λ k. no_buffer-IsValid; memory = λ k n. length-zeros n }
