-- ===== src/Http/Chunks/RoundTrip.antt =====
-- A body in chunks, as it is written and as `analysis` (http_context.h) reads it.
use network_pool.Common.{
  ℕ, suc, ◌+◌, ◌≤◌, ◌<◌, ◌≡◌, refl, sym, ap, subst, ◌∙◌, true, Option, none, some, List, [], ◌∷◌,
  ◌++◌, arith, length, take, drop, append_assoc, total, length-append, length-take, length-drop,
}
use network_pool.Http.{state_read_chunk_footer, state_done, HttpContext, bytes, size_limit}
use network_pool.Http.Analysis.{again, forward, zero_at, analysis, returned}
use network_pool.Http.Chunks.{analysis-again, analysis-over, step-forward, step-over}
use network_pool.Http.Chunks.Lines.{line_read, ending, behind, line-analysis}
use network_pool.Http.Chunks.Parts.{body, merged-newest, merged-same}
use network_pool.Http.Chunks.Reading.{
  Chunk, size_digits, AreChunks, encode, carried, IsHeading, IsRead, size_line-footer, take-nulled,
  drop-nulled, Chunk-IsRead,
}
use network_pool.Http.Chunks.Sizes.{hex_value, IsWritten, hex_value-IsWritten}
use network_pool.Buffer.{Buffer}
use network_pool.Buffer.Laws.{IsValid, IsSized, Ends, Has}
use network_pool.Http.Content.{chunk_size, get_content}
use network_pool.Http.Content.Merge.{
  merged, PartsIn, Reads, total-reverse, PartsIn-reverse, get_content_lem,
}
use network_pool.Http.Parts.Whole.{AreApart-PartsIn, total-AreApart}
use network_pool.Http.Memory.{bytes-nulled, length-nulled}
use network_pool.Http.Parts.{AreApart, AreApart-le}
use mathlib.Core.List.{append-nil, reverse}

-- The message was complete after the body, and the body is in the parts.
pub record IsDecoded (c : HttpContext) (content : List ℕ) (i : ℕ) : Type 0 where
  pub after : HttpContext
  pub analysed : analysis c ≡ returned true after
  pub complete : after.state ≡ state_done
  pub index : after.analysis_index ≡ i
  pub apart : AreApart after.analysis_index after.chunks
  pub size : length (bytes after) ≡ length (bytes c)
  pub holds : body after ≡ body c ++ content

-- The last chunk, of size 0, and the empty footer.
abbrev pub last : ℕ → List ℕ → List ℕ → List ℕ
last ch more rest = (ch ∷ more) ++ (13 ∷ 10 ∷ (13 ∷ 10 ∷ rest))

last-IsDecoded :
    (ch : ℕ) (more rest : List ℕ) (c : HttpContext)
    → hex_value 0 (ch ∷ more) ≡ some 0
    → IsHeading c (last ch more rest)
    → c.analysis_index + length (ch ∷ more) + 4 ≤ c.now_index
    → c.now_index < size_limit
    → AreApart c.analysis_index c.chunks
    → IsDecoded c [] (c.analysis_index + length (ch ∷ more) + 4)
unfolding zero_at
last-IsDecoded ch more rest c z h le small apart =
    let k = c.analysis_index + length (ch ∷ more) in
    let t =
      ending (bytes c) k (13 ∷ 10 ∷ rest)
        (behind (bytes c) (ch ∷ more) (13 ∷ 10 ∷ (13 ∷ 10 ∷ rest)) c.analysis_index h.ahead) in
    let e = record (forward (line_read c 0 k)) {
      state = state_read_chunk_footer;
      lines = (suc k + 1, none) ∷ c.lines;
    } in
    let u = ending (bytes e) (suc k + 1) rest (
      ap (drop (suc k + 1)) (bytes-nulled k c)
      ∙ drop-nulled (suc k + 1) k (bytes c) (omega arith)
      ∙ t.after) in
    let f = record e { analysis_index = suc (suc k + 1) } in
    let d = record (forward (zero_at (suc (suc k + 1)) (zero_at (suc k + 1) f))) {
      lines = c.lines;
      state = state_done;
    } in
    let n : suc k + 1 + 1 ≡ suc (suc k + 1) = omega arith in
    record {
      after = d;
      analysed =
          line-analysis ch more (13 ∷ 10 ∷ rest) c 0 h.state h.size h.begun h.ahead
            (omega (arith, le)) z (omega arith) e (size_line-footer (line_read c 0 k) refl)
          ∙ analysis-again e f (
              step-forward e refl (omega (arith, le)) 13 u.return refl
              ∙ ap (λ j. again (record e { analysis_index = j })) n)
          ∙ analysis-over f d (
              step-over f refl (omega (arith, le)) (suc k + 1) c.lines refl u.newline u.return refl
                (omega (arith, le, small)));
      complete = refl;
      index = omega arith;
      apart = AreApart-le c.analysis_index d.analysis_index c.chunks (omega arith) apart;
      size =
          ap length (bytes-nulled (suc k + 1) f)
          ∙ length-nulled (suc k + 1) (bytes f)
          ∙ ap length (bytes-nulled k c)
          ∙ length-nulled k (bytes c);
      holds =
          merged-same c.analysis_index c.chunks (bytes d) (bytes c) apart (
            ap (take c.analysis_index) (bytes-nulled (suc k + 1) f)
            ∙ take-nulled c.analysis_index (suc k + 1) (bytes f) (omega arith)
            ∙ ap (take c.analysis_index) (bytes-nulled k c)
            ∙ take-nulled c.analysis_index k (bytes c) (omega arith))
          ∙ sym (append-nil (body c));
    }

-- The bytes of the chunks with their sizes and endings.
unfoldable pub encoded_size : List Chunk → ℕ
encoded_size [] = 0
encoded_size (b ∷ bs) = length (size_digits b) + 2 + (length b.content + 2) + encoded_size bs

body-Chunk :
    (c : HttpContext) (b : Chunk) (rest : List ℕ) (r : IsRead c b rest)
    → AreApart c.analysis_index c.chunks
    → body r.after ≡ body c ++ b.content
body-Chunk c b rest r apart =
    ap (λ cs. merged (reverse cs) (bytes r.after)) r.chunks
    ∙ merged-newest r.start (length b.content) c.chunks (bytes r.after)
    ∙ ap (◌++◌ (merged (reverse c.chunks) (bytes r.after))) r.found
    ∙ ap (λ x. x ++ b.content)
        (merged-same c.analysis_index c.chunks (bytes r.after) (bytes c) apart r.before)

encode-IsDecoded :
    (bs : List Chunk) (ch : ℕ) (more rest : List ℕ) (c : HttpContext)
    → AreChunks bs
    → hex_value 0 (ch ∷ more) ≡ some 0
    → IsHeading c (encode bs (last ch more rest))
    → c.analysis_index + encoded_size bs + length (ch ∷ more) + 4 ≤ c.now_index
    → c.now_index < size_limit
    → AreApart c.analysis_index c.chunks
    → IsDecoded c (carried bs) (c.analysis_index + encoded_size bs + length (ch ∷ more) + 4)
unfolding encode carried encoded_size
encode-IsDecoded [] ch more rest c g z h le small apart =
    let i : c.analysis_index + length (ch ∷ more) + 4
        ≡ c.analysis_index + 0 + length (ch ∷ more) + 4 =
      omega arith in
    subst (IsDecoded c []) i (last-IsDecoded ch more rest c z h (omega (arith, le)) small apart)
encode-IsDecoded (b ∷ bs) ch more rest c g z h le small apart =
    let r = Chunk-IsRead c b (encode bs (last ch more rest)) g.0 h (omega (arith, le)) in
    let s =
      encode-IsDecoded bs ch more rest r.after g.1 z r.heading (omega (arith, le, r.index, r.now))
        (omega (arith, r.now, small))
        (subst (AreApart r.after.analysis_index) (sym r.chunks)
          (r.to, AreApart-le c.analysis_index r.start c.chunks r.from apart)) in
    record {
      after = s.after;
      analysed = r.analysed ∙ s.analysed;
      complete = s.complete;
      index = s.index ∙ omega (arith, r.index);
      apart = s.apart;
      size = s.size ∙ r.size;
      holds =
          s.holds
          ∙ ap (λ x. x ++ carried bs) (body-Chunk c b _ r apart)
          ∙ append_assoc (body c) b.content (carried bs);
    }

length-merged :
    (cs : List (ℕ × ℕ)) (xs : List ℕ)
    → PartsIn (length xs) cs
    → length (merged cs xs) ≡ total chunk_size cs
unfolding merged total
length-merged [] xs h = refl
length-merged ((start, n) ∷ cs) xs h =
    length-append (take n (drop start xs)) (merged cs xs)
    ∙ omega (
      arith,
      length-take n (drop start xs) (omega (arith, length-drop start xs, h.0)),
      length-merged cs xs h.1,
    )

-- Where the header of a message with chunks has been read, and the body has arrived behind it as
-- chunks, each behind the hexadecimal digits that write its size, with the chunk of size 0 and an
-- empty footer after them: `analysis` returns true at the end of the body, and `getContent` then leaves in a well-formed
-- buffer exactly what the chunks carry, one after another, or throws where the buffer is too small
-- and there is no memory for a larger one. The sizes of the chunks and 2 are below 2 ^ 64, as is the
-- size of the memory.
pub get_content-encode :
    (bs : List Chunk) (ch : ℕ) (more rest : List ℕ) (c : HttpContext) (b : Buffer)
    (malloced : Option (List ℕ))
    → AreChunks bs
    → IsWritten (ch ∷ more) 0
    → IsHeading c (encode bs (last ch more rest))
    → c.chunks ≡ []
    → c.analysis_index + encoded_size bs + length (ch ∷ more) + 4 ≤ c.now_index
    → c.now_index ≤ length (bytes c)
    → c.now_index < size_limit
    → IsValid b
    → IsSized (length (carried bs)) malloced
    → (d : HttpContext) × (analysis c ≡ returned true d)
      × (d.analysis_index ≡ c.analysis_index + encoded_size bs + length (ch ∷ more) + 4)
      × Reads
          (Ends (Has (carried bs)) ((malloced ≡ none) × (b.max_length < length (carried bs))))
          (get_content b malloced d)
unfolding merged
get_content-encode bs ch more rest c b malloced g z h none_yet le stored small v m =
    let apart : AreApart c.analysis_index c.chunks =
      subst (AreApart c.analysis_index) (sym none_yet) tt in
    let s = encode-IsDecoded bs ch more rest c g (hex_value-IsWritten _ _ z) h le small apart in
    let d = s.after in
    let parts =
      AreApart-PartsIn d.analysis_index (length (bytes d)) d.chunks
        (omega (arith, s.index, s.size, le, stored)) s.apart in
    let holds : body d ≡ carried bs =
      s.holds ∙ ap (λ cs. merged (reverse cs) (bytes c) ++ carried bs) none_yet in
    let size : total chunk_size d.chunks ≡ length (carried bs) =
      sym (total-reverse d.chunks)
      ∙ sym (
          length-merged (reverse d.chunks) (bytes d)
            (PartsIn-reverse (length (bytes d)) d.chunks parts))
      ∙ ap length holds in
    let content =
      get_content_lem b malloced d s.complete parts
        (omega (arith, total-AreApart d.analysis_index d.chunks s.apart, s.index, le, small)) v
        (subst (λ n. IsSized n malloced) (sym size) m) in
    (
      d,
      s.analysed,
      s.index,
      subst
          (λ xs.
            Reads (Ends (Has xs) ((malloced ≡ none) × (b.max_length < length (carried bs))))
              (get_content b malloced d))
          holds
          (subst
            (λ n.
              Reads (Ends (Has (body d)) ((malloced ≡ none) × (b.max_length < n)))
                (get_content b malloced d))
            size content),
    )
