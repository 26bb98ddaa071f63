-- ===== src/Http/Chunks/Reading.antt =====
-- A chunk as it is written, and as `analysis` (http_context.h) reads it.
use network_pool.Common.{
  ℕ, suc, ◌+◌, ◌≤◌, ◌<◌, ◌≡◌, refl, ap, ◌∙◌, true, false, none, List, [], ◌∷◌, ◌++◌, arith, length,
  take, drop, take-append, set_elem, take-set_elem, drop-set_elem, ltb,
}
use network_pool.Http.{
  state_read_chunk_header, state_read_chunk_body, state_read_chunk_footer, HttpContext, bytes,
  size_limit,
}
use network_pool.Http.Analysis.{again, forward, size_line, zero_at, analysis}
use network_pool.Http.Chunks.{analysis-again, step-in_chunk_body}
use network_pool.Http.Chunks.Sizes.{IsWritten, hex_value-IsWritten}
use network_pool.Http.Chunks.Lines.{line_read, ending, behind, line-analysis}
use network_pool.Http.Memory.{nulled, bytes-nulled, length-nulled}

-- A chunk: the digits of its size, of which there is one at least, and its bytes.
pub record Chunk : Type 0 where
  pub digit : ℕ
  pub more : List ℕ
  pub content : List ℕ

abbrev pub size_digits : Chunk → List ℕ
size_digits b = b.digit ∷ b.more

-- The digits write the number of bytes.
pub record IsChunk (b : Chunk) : Type 0 where
  pub digits : IsWritten (size_digits b) (length b.content)
  pub has : 0 < length b.content
  pub small : length b.content + 2 < size_limit

abbrev pub AreChunks : List Chunk → Type 0
AreChunks [] = Unit
AreChunks (b ∷ bs) = IsChunk b × AreChunks bs

-- The chunks, each between its size and its ending, before what follows.
unfoldable pub encode : List Chunk → List ℕ → List ℕ
encode [] rest = rest
encode (b ∷ bs) rest = size_digits b ++ (13 ∷ 10 ∷ (b.content ++ (13 ∷ 10 ∷ encode bs rest)))

-- What the chunks carry.
unfoldable pub carried : List Chunk → List ℕ
carried [] = []
carried (b ∷ bs) = b.content ++ carried bs

-- A context at the start of a line with a size.
pub record IsHeading (c : HttpContext) (xs : List ℕ) : Type 0 where
  pub state : c.state ≡ state_read_chunk_header
  pub size : c.now_chunk_size ≡ 0
  pub begun : c.chunk_size_done ≡ false
  pub ahead : drop c.analysis_index (bytes c) ≡ xs

-- One chunk was read.
pub record IsRead (c : HttpContext) (b : Chunk) (rest : List ℕ) : Type 0 where
  pub after : HttpContext
  pub analysed : analysis c ≡ analysis after
  pub heading : IsHeading after rest
  pub now : after.now_index ≡ c.now_index
  pub index :
      after.analysis_index ≡ c.analysis_index + length (size_digits b) + 2 + (length b.content + 2)
  pub start : ℕ
  pub chunks : after.chunks ≡ (start, length b.content) ∷ c.chunks
  pub from : c.analysis_index ≤ start
  pub to : start + length b.content ≤ after.analysis_index
  pub found : take (length b.content) (drop start (bytes after)) ≡ b.content
  pub size : length (bytes after) ≡ length (bytes c)
  pub before : take c.analysis_index (bytes after) ≡ take c.analysis_index (bytes c)

pub take-nulled : (n k : ℕ) (xs : List ℕ) → n ≤ k → take n (nulled k xs) ≡ take n xs
take-nulled n k xs h =
    take-set_elem n (suc k) 0 (set_elem k 0 xs) (omega (arith, h)) ∙ take-set_elem n k 0 xs h

pub drop-nulled : (n k : ℕ) (xs : List ℕ) → suc k < n → drop n (nulled k xs) ≡ drop n xs
drop-nulled n k xs h =
    drop-set_elem n (suc k) 0 (set_elem k 0 xs) h ∙ drop-set_elem n k 0 xs (omega (arith, h))

size_line-body :
    (c : HttpContext)
    → 0 < c.now_chunk_size
    → size_line c ≡ again (record (forward c) { state = state_read_chunk_body })
unfolding size_line
size_line-body c lt = rw (has) refl
  where
    has : ltb 0 c.now_chunk_size ≡ true
    has = ground (arith, lt)

pub size_line-footer :
    (c : HttpContext)
    → c.now_chunk_size ≡ 0
    → size_line c
      ≡ again (record (forward c) {
        state = state_read_chunk_footer;
        lines = (c.analysis_index + 1, none) ∷ c.lines;
      })
unfolding size_line
size_line-footer c e = rw (has) refl
  where
    has : ltb 0 c.now_chunk_size ≡ false
    has = ground (arith, e)

pub Chunk-IsRead :
    (c : HttpContext) (b : Chunk) (rest : List ℕ)
    → IsChunk b
    → IsHeading c (size_digits b ++ (13 ∷ 10 ∷ (b.content ++ (13 ∷ 10 ∷ rest))))
    → c.analysis_index + length (size_digits b) + 2 + (length b.content + 2) ≤ c.now_index
    → IsRead c b rest
unfolding zero_at
Chunk-IsRead c b rest g h le =
    let k = c.analysis_index + length (size_digits b) in
    let n = length b.content in
    let t = ending (bytes c) k (b.content ++ 13 ∷ 10 ∷ rest) (
      behind (bytes c) (size_digits b) (13 ∷ 10 ∷ (b.content ++ (13 ∷ 10 ∷ rest))) c.analysis_index
        h.ahead) in
    let e = record (forward (line_read c n k)) { state = state_read_chunk_body } in
    let d = record e {
      chunks = (suc k + 1, n) ∷ c.chunks;
      analysis_index = suc k + 1 + (n + 2);
      state = state_read_chunk_header;
      now_chunk_size = 0;
      chunk_size_start = false;
      chunk_size_done = false;
    } in
    let content_at : drop (suc k + 1) (bytes d) ≡ b.content ++ 13 ∷ 10 ∷ rest =
      ap (drop (suc k + 1)) (bytes-nulled k c)
      ∙ drop-nulled (suc k + 1) k (bytes c) (omega arith)
      ∙ t.after in
    let u =
      ending (bytes d) (suc k + 1 + n) rest
        (behind (bytes d) b.content (13 ∷ 10 ∷ rest) (suc k + 1) content_at) in
    let end : suc k + 1 + (n + 2) ≡ suc (suc k + 1 + n) + 1 = omega arith in
    record {
      after = d;
      analysed =
          line-analysis b.digit b.more (b.content ++ 13 ∷ 10 ∷ rest) c n h.state h.size h.begun
            h.ahead (omega (arith, le)) (hex_value-IsWritten _ _ g.digits) (omega (arith, g.small))
            e (size_line-body (line_read c n k) g.has)
          ∙ analysis-again e d (step-in_chunk_body e refl g.small (omega (arith, le)));
      heading = record {
        state = refl;
        size = refl;
        begun = refl;
        ahead = ap (λ j. drop j (bytes d)) end ∙ u.after;
      };
      now = refl;
      index = omega arith;
      start = suc k + 1;
      chunks = refl;
      from = omega arith;
      to = omega arith;
      found = ap (take n) content_at ∙ take-append n b.content (13 ∷ 10 ∷ rest) refl;
      size = ap length (bytes-nulled k c) ∙ length-nulled k (bytes c);
      before =
          ap (take c.analysis_index) (bytes-nulled k c)
          ∙ take-nulled c.analysis_index k (bytes c) (omega arith);
    }
