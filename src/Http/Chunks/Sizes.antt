-- ===== src/Http/Chunks/Sizes.antt =====
-- The line with the size of a chunk, in `analysis` (http_context.h).
use network_pool.Common.{
  ℕ, ◌+◌, ◌*◌, ◌%◌, ◌≤◌, ◌<◌, ◌≡◌, refl, ap, ◌∙◌, true, false, not, ◌||◌, Option, none, some, List,
  [], ◌∷◌, ◌++◌, arith, length, get_elem?, drop, ◌==◌, if◌then◌else◌,
}
use network_pool.Http.{state_read_chunk_header, HttpContext, bytes, size_limit}
use network_pool.Http.Analysis.{again, forward, hex_digit, size_byte, step, analysis}
use network_pool.Http.Chunks.{analysis-again, first-drop, step-size_byte}
use network_pool.Http.Text.{is_space}

-- The number that hexadecimal digits are, behind those that were read.
unfoldable pub hex_value : ℕ → List ℕ → Option ℕ
hex_value n [] = some n
hex_value n (ch ∷ line) = elim (hex_digit ch) [ none ↦ none | some d ↦ hex_value (n * 16 + d) line ]

-- What a hexadecimal digit stands for: '0' to '9', 'a' to 'f' and 'A' to 'F'.
pub data IsDigit : ℕ → ℕ → Type 0 where
  decimal : (d : ℕ) → d ≤ 9 → IsDigit (48 + d) d
  lower : (d : ℕ) → d ≤ 5 → IsDigit (97 + d) (10 + d)
  upper : (d : ℕ) → d ≤ 5 → IsDigit (65 + d) (10 + d)

-- The digits write the number, the most significant digit first.
pub data IsWritten : List ℕ → ℕ → Type 0 where
  no_digits : IsWritten [] 0
  digit_last :
      (line : List ℕ) (ch n d : ℕ)
      → IsWritten line n
      → IsDigit ch d
      → IsWritten (line ++ ch ∷ []) (16 * n + d)

hex_digit-IsDigit : (ch d : ℕ) → IsDigit ch d → hex_digit ch ≡ some d
unfolding hex_digit
hex_digit-IsDigit _ _ (decimal d h) = ground arith
hex_digit-IsDigit _ _ (lower d h) = ground arith
hex_digit-IsDigit _ _ (upper d h) = ground arith

hex_value-digit :
    (n m ch d : ℕ) (line : List ℕ)
    → hex_value n line ≡ some m
    → hex_digit ch ≡ some d
    → hex_value n (line ++ ch ∷ []) ≡ some (m * 16 + d)
unfolding hex_value
hex_value-digit n m ch d [] e h =
    let q : n ≡ m = cc e in rw (hex_value, h) (ap (λ k. some (k * 16 + d)) q)
hex_value-digit n m ch d (c ∷ line) e h =
    go (hex_digit c) (λ k. hex_value-digit (n * 16 + k) m ch d line) e
  where
    go :
        (o : Option ℕ)
        → ((k : ℕ)
            → hex_value (n * 16 + k) line ≡ some m
            → hex_digit ch ≡ some d
            → hex_value (n * 16 + k) (line ++ ch ∷ []) ≡ some (m * 16 + d))
        → elim o [ none ↦ none | some k ↦ hex_value (n * 16 + k) line ] ≡ some m
        → elim o [ none ↦ none | some k ↦ hex_value (n * 16 + k) (line ++ ch ∷ []) ]
          ≡ some (m * 16 + d)
    go none ih q = absurd (cc q)
    go (some k) ih q = ih k q h

-- The digits that write a number are read as that number.
pub hex_value-IsWritten : (line : List ℕ) (n : ℕ) → IsWritten line n → hex_value 0 line ≡ some n
unfolding hex_value
hex_value-IsWritten _ _ no_digits = refl
hex_value-IsWritten _ _ (digit_last line ch n d w h) =
    let e : n * 16 + d ≡ 16 * n + d = omega arith in
    hex_value-digit 0 n ch d line (hex_value-IsWritten line n w) (hex_digit-IsDigit ch d h)
    ∙ ap some e

-- A context that has read the size up to the place.
abbrev pub sized : HttpContext → ℕ → ℕ → HttpContext
sized c m j = record c { now_chunk_size = m; chunk_size_start = true; analysis_index = j }

hex_value-ge : (n m : ℕ) (line : List ℕ) → hex_value n line ≡ some m → n ≤ m
unfolding hex_value
hex_value-ge n m [] e = let q : n ≡ m = cc e in omega (arith, q)
hex_value-ge n m (ch ∷ line) e = go (hex_digit ch) (λ d. hex_value-ge (n * 16 + d) m line) e
  where
    go :
        (o : Option ℕ)
        → ((d : ℕ) → hex_value (n * 16 + d) line ≡ some m → n * 16 + d ≤ m)
        → elim o [ none ↦ none | some d ↦ hex_value (n * 16 + d) line ] ≡ some m
        → n ≤ m
    go none ih q = absurd (cc q)
    go (some d) ih q = omega (arith, ih d q)

digit-newline : (ch d : ℕ) → hex_digit ch ≡ some d → (ch == 10) ≡ false
unfolding hex_digit
digit-newline ch d e = ground (arith, e)

size_byte-digit :
    (c : HttpContext) (ch d : ℕ)
    → c.chunk_size_done ≡ false
    → hex_digit ch ≡ some d
    → size_byte ch c ≡ record c {
      now_chunk_size = (c.now_chunk_size * 16 + d) % size_limit;
      chunk_size_start = true;
    }
unfolding size_byte
size_byte-digit c ch d f h = ap (λ b. if b then c else at (hex_digit ch)) f ∙ ap at h
  where
    at : Option ℕ → HttpContext
    at o = elim o [
      | some d ↦ record c {
        now_chunk_size = (c.now_chunk_size * 16 + d) % size_limit;
        chunk_size_start = true;
      }
      | none ↦
          if c.chunk_size_start || not (is_space ch) then record c { chunk_size_done = true } else c
    ]

pub step-digit :
    (c : HttpContext) (ch d : ℕ)
    → c.state ≡ state_read_chunk_header
    → c.chunk_size_done ≡ false
    → c.analysis_index < c.now_index
    → get_elem? (bytes c) c.analysis_index ≡ some ch
    → hex_digit ch ≡ some d
    → c.now_chunk_size * 16 + d < size_limit
    → step c ≡ again (sized c (c.now_chunk_size * 16 + d) (c.analysis_index + 1))
step-digit c ch d s f lt e h small =
    step-size_byte c s lt ch e (digit-newline ch d h)
    ∙ ap (λ x. again (forward x)) (size_byte-digit c ch d f h)
    ∙ ap (λ m. again (sized c m (c.analysis_index + 1))) small_sum
  where
    small_sum : (c.now_chunk_size * 16 + d) % size_limit ≡ c.now_chunk_size * 16 + d
    small_sum = omega (arith, small)

pub digits-analysis :
    (line rest : List ℕ) (c : HttpContext) (m : ℕ)
    → c.state ≡ state_read_chunk_header
    → (line ≡ [] → c.chunk_size_start ≡ true)
    → c.chunk_size_done ≡ false
    → drop c.analysis_index (bytes c) ≡ line ++ rest
    → c.analysis_index + length line ≤ c.now_index
    → hex_value c.now_chunk_size line ≡ some m
    → m < size_limit
    → analysis c ≡ analysis (sized c m (c.analysis_index + length line))
unfolding hex_value
digits-analysis [] rest c m s b f e le h lt =
    let q : c.now_chunk_size ≡ m = cc h in
    let r : c.analysis_index ≡ c.analysis_index + length {A = ℕ} [] = omega arith in
    ap analysis
      (λ i. record c { now_chunk_size = q i; chunk_size_start = b refl i; analysis_index = r i })
digits-analysis (ch ∷ line) rest c m s b f e le h lt =
    go (hex_digit ch) refl h (λ d.
      digits-analysis line rest (sized c (c.now_chunk_size * 16 + d) (c.analysis_index + 1)) m)
  where
    next :
        (get_elem? (bytes c) c.analysis_index ≡ some ch)
        × (drop (c.analysis_index + 1) (bytes c) ≡ line ++ rest)
    next = first-drop c.analysis_index ch (bytes c) (line ++ rest) e

    Reads : HttpContext → Type 0
    Reads x =
        x.state ≡ state_read_chunk_header
        → (line ≡ [] → x.chunk_size_start ≡ true)
        → x.chunk_size_done ≡ false
        → drop x.analysis_index (bytes x) ≡ line ++ rest
        → x.analysis_index + length line ≤ x.now_index
        → hex_value x.now_chunk_size line ≡ some m
        → m < size_limit
        → analysis x ≡ analysis (sized x m (x.analysis_index + length line))

    go :
        (o : Option ℕ)
        → hex_digit ch ≡ o
        → elim o [ none ↦ none | some d ↦ hex_value (c.now_chunk_size * 16 + d) line ] ≡ some m
        → ((d : ℕ) → Reads (sized c (c.now_chunk_size * 16 + d) (c.analysis_index + 1)))
        → analysis c ≡ analysis (sized c m (c.analysis_index + length (ch ∷ line)))
    go none t q ih = absurd (cc q)
    go (some d) t q ih =
        let fits : c.now_chunk_size * 16 + d ≤ m =
          hex_value-ge (c.now_chunk_size * 16 + d) m line q in
        let end : c.analysis_index + 1 + length line ≡ c.analysis_index + length (ch ∷ line) =
          omega arith in
        analysis-again c _
          (step-digit c ch d s f (omega (arith, le)) next.0 t (omega (arith, fits, lt)))
        ∙ ih d s (λ _. refl) f next.1 (omega (arith, le)) q lt
        ∙ ap (λ j. analysis (sized c m j)) end
