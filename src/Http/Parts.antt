-- ===== src/Http/Parts.antt =====
-- The parts of the body that `analysis` (http_context.h) finds, and what it leaves of the buffer.
pub mod Steps
pub mod Whole
use network_pool.Common.{
  ℕ, zero, suc, ◌+◌, ◌-◌, ◌*◌, ◌%◌, ◌≤◌, ◌<◌, ◌≡◌, refl, sym, subst, ◌∙◌, ap, Bool, true, false,
  not, ◌||◌, Option, none, some, List, [], ◌∷◌, arith, length, length-set_elem, set_elem, total,
  ltb, leb, ◌==◌, if◌then◌else◌, if_both, leb-cases, inl, inr,
}
use network_pool.Buffer.{Buffer}
use network_pool.Buffer.Laws.{memory_size}
use network_pool.Http.{
  State, state_start, state_read_header, state_read_body, state_read_chunk_header,
  state_read_chunk_body, state_read_chunk_footer, state_done, state_bad, Line, HttpContext, bytes,
  size_limit,
}
use network_pool.Http.Analysis.{
  Advance, again, wait, over, fault, with_byte, zero_at, bad, end_of_line, end_last, forward,
  in_start, header_line, in_header, in_body, size_byte, size_line, in_chunk_header, with_ending,
  in_chunk_body, footer_line, in_chunk_footer, if_more, step_in, step, Analysis, returned, faulted,
  stuck, analyse, analysis, rounds,
}
use network_pool.Http.Header.{Fields, switch_state, decode_lines, decoder_header}
use network_pool.Http.Memory.{size_byte-Post}
use network_pool.Http.Progress.{with_byte-any, end_of_line-any, decoder_header-any}

-- The parts follow one another, the newest first, and end before the index.
abbrev pub AreApart : ℕ → List (ℕ × ℕ) → Type 0
AreApart i [] = Unit
AreApart i ((start, n) ∷ cs) = (start + n ≤ i) × AreApart start cs

-- No part is so long that a `size_t` does not hold its length with the ending.
abbrev pub AreMild : List (ℕ × ℕ) → Type 0
AreMild [] = Unit
AreMild ((start, n) ∷ cs) = (n + 2 < size_limit) × AreMild cs

pub AreApart-le : (i j : ℕ) (cs : List (ℕ × ℕ)) → i ≤ j → AreApart i cs → AreApart j cs
AreApart-le i j [] le h = tt
AreApart-le i j ((start, n) ∷ cs) le h = (omega (arith, h.0, le), h.1)

-- A context that has the buffer and the parts of another, and is as far at least.
pub record Kept (c d : HttpContext) : Type 0 where
  pub memory : memory_size d.buffer.memory ≡ memory_size c.buffer.memory
  pub length : d.buffer.length ≡ c.buffer.length
  pub max_length : d.buffer.max_length ≡ c.buffer.max_length
  pub max_buffer_size : d.max_buffer_size ≡ c.max_buffer_size
  pub chunks : d.chunks ≡ c.chunks
  pub index : c.analysis_index ≤ d.analysis_index

-- The parts that are added follow those that were there.
pub record Moves (c d : HttpContext) : Type 0 where
  pub memory : memory_size d.buffer.memory ≡ memory_size c.buffer.memory
  pub length : d.buffer.length ≡ c.buffer.length
  pub max_length : d.buffer.max_length ≡ c.buffer.max_length
  pub max_buffer_size : d.max_buffer_size ≡ c.max_buffer_size
  pub mild : AreMild d.chunks → AreMild c.chunks
  pub apart :
      AreMild d.chunks → AreApart c.analysis_index c.chunks → AreApart d.analysis_index d.chunks

pub Kept-Moves : (c d : HttpContext) → Kept c d → Moves c d
Kept-Moves c d k = record {
  memory = k.memory;
  length = k.length;
  max_length = k.max_length;
  max_buffer_size = k.max_buffer_size;
  mild = subst AreMild k.chunks;
  apart = λ m h.
      subst (AreApart d.analysis_index) (sym k.chunks)
        (AreApart-le c.analysis_index d.analysis_index c.chunks k.index h);
}

pub same-Kept : (c : HttpContext) → Kept c c
same-Kept c = record {
  memory = refl;
  length = refl;
  max_length = refl;
  max_buffer_size = refl;
  chunks = refl;
  index = omega arith;
}

pub further :
    (c d e : HttpContext)
    → Kept c d
    → e.buffer ≡ d.buffer
    → e.max_buffer_size ≡ d.max_buffer_size
    → e.chunks ≡ d.chunks
    → d.analysis_index ≤ e.analysis_index
    → Kept c e
further c d e k b m cs i = record {
  memory = ap (λ x. memory_size x.memory) b ∙ k.memory;
  length = ap (λ x. x.length) b ∙ k.length;
  max_length = ap (λ x. x.max_length) b ∙ k.max_length;
  max_buffer_size = m ∙ k.max_buffer_size;
  chunks = cs ∙ k.chunks;
  index = omega (arith, k.index, i);
}

pub zeroed_size :
    (i : ℕ) (mem : Option (List ℕ))
    → memory_size (elim mem [ none ↦ none | some m ↦ some (set_elem i 0 m) ]) ≡ memory_size mem
zeroed_size i none = refl
zeroed_size i (some m) = length-set_elem i 0 m

pub zero_at-Kept : (i : ℕ) (c d : HttpContext) → Kept c d → Kept c (zero_at i d)
unfolding zero_at
zero_at-Kept i c d k = record {
  memory = zeroed_size i d.buffer.memory ∙ k.memory;
  length = k.length;
  max_length = k.max_length;
  max_buffer_size = k.max_buffer_size;
  chunks = k.chunks;
  index = k.index;
}

abbrev pub After : HttpContext → Advance → Type 0
After c (again d) = Moves c d
After c (wait d) = Moves c d
After c (over d) = Moves c d
After c fault = Unit
