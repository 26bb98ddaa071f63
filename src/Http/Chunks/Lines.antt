-- ===== src/Http/Chunks/Lines.antt =====
-- The lines around a chunk, in `analysis` (http_context.h).
use network_pool.Common.{
  ℕ, suc, ◌+◌, ◌≤◌, ◌<◌, ◌≡◌, refl, sym, ap, ◌∙◌, true, false, some, List, ◌∷◌, ◌++◌, arith, length,
  get_elem?, drop, drop-drop, drop-append,
}
use network_pool.Http.{state_read_chunk_header, HttpContext, bytes, size_limit}
use network_pool.Http.Analysis.{again, forward, hex_digit, size_byte, size_line, analysis, zero_at}
use network_pool.Http.Chunks.{analysis-again, first-drop, step-size_byte, step-size_line}
use network_pool.Http.Chunks.Sizes.{hex_value, sized, digits-analysis}
use network_pool.Http.Text.{is_space}

-- The end of a line with a size: return and newline become nulls.
abbrev pub line_read : HttpContext → ℕ → ℕ → HttpContext
line_read c m k = record (zero_at (suc k) (zero_at k c)) {
  now_chunk_size = m;
  chunk_size_start = true;
  chunk_size_done = true;
  analysis_index = suc k;
}

-- A return and a newline at a place of the memory.
pub record EndsAt (xs : List ℕ) (k : ℕ) (rest : List ℕ) : Type 0 where
  pub return : get_elem? xs k ≡ some 13
  pub newline : get_elem? xs (suc k) ≡ some 10
  pub after : drop (suc k + 1) xs ≡ rest

pub ending : (xs : List ℕ) (k : ℕ) (rest : List ℕ) → drop k xs ≡ 13 ∷ 10 ∷ rest → EndsAt xs k rest
ending xs k rest e =
    let a = first-drop k 13 xs (10 ∷ rest) e in
    let j : k + 1 ≡ suc k = omega arith in
    let b = first-drop (suc k) 10 xs rest (ap (λ n. drop n xs) (sym j) ∙ a.1) in
    record { return = a.0; newline = b.0; after = b.1 }

pub behind :
    (xs line rest : List ℕ) (i : ℕ) → drop i xs ≡ line ++ rest → drop (i + length line) xs ≡ rest
behind xs line rest i e =
    sym (drop-drop (length line) i xs)
    ∙ ap (drop (length line)) e
    ∙ drop-append (length line) line rest refl

size_byte-return :
    (c : HttpContext)
    → c.chunk_size_done ≡ false
    → c.chunk_size_start ≡ true
    → size_byte 13 c ≡ record c { chunk_size_done = true }
unfolding size_byte hex_digit is_space
size_byte-return c f b = rw (f, b) refl

-- The whole line.
pub line-analysis :
    (ch : ℕ) (more rest : List ℕ) (c : HttpContext) (m : ℕ)
    → c.state ≡ state_read_chunk_header
    → c.now_chunk_size ≡ 0
    → c.chunk_size_done ≡ false
    → drop c.analysis_index (bytes c) ≡ (ch ∷ more) ++ 13 ∷ 10 ∷ rest
    → c.analysis_index + length (ch ∷ more) + 2 ≤ c.now_index
    → hex_value 0 (ch ∷ more) ≡ some m
    → m < size_limit
    → (d : HttpContext)
    → size_line (line_read c m (c.analysis_index + length (ch ∷ more))) ≡ again d
    → analysis c ≡ analysis d
unfolding zero_at
line-analysis ch more rest c m s z f e le h lt d q =
    let k = c.analysis_index + length (ch ∷ more) in
    let t =
      ending (bytes c) k rest (behind (bytes c) (ch ∷ more) (13 ∷ 10 ∷ rest) c.analysis_index e) in
    let n : k + 1 ≡ suc k = omega arith in
    let e2 = record (sized c m k) { chunk_size_done = true; analysis_index = suc k } in
    digits-analysis (ch ∷ more) (13 ∷ 10 ∷ rest) c m s (λ x. absurd (cc x)) f e (omega (arith, le))
      (ap (λ n. hex_value n (ch ∷ more)) z ∙ h) lt
    ∙ analysis-again (sized c m k) e2 (
        step-size_byte (sized c m k) s (omega (arith, le)) 13 t.return refl
        ∙ ap (λ x. again (forward x)) (size_byte-return (sized c m k) f refl)
        ∙ ap (λ j. again (record (sized c m k) { chunk_size_done = true; analysis_index = j })) n)
    ∙ analysis-again e2 d (step-size_line e2 s (omega (arith, le)) k refl t.newline t.return ∙ q)
