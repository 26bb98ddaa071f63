-- ===== src/Http/Safety/Ends.antt =====
-- The ends of lines in `analysis` (http_context.h) keep the indices and the lines in the memory.
use network_pool.Common.{
  ℕ, suc, ◌+◌, ◌-◌, ◌≤◌, ◌<◌, ◌≡◌, refl, sym, subst, Bool, true, false, Option, none, some, List,
  ◌∷◌, arith, length, ltb, if_both,
}
use network_pool.Http.{
  state_read_header, state_read_chunk_footer, Line, HttpContext, bytes, size_limit,
}
use network_pool.Http.Analysis.{
  again, fault, zero_at, bad, forward, header_line, size_line, footer_line,
}
use network_pool.Http.Header.{Fields, switch_state}
use network_pool.Http.Memory.{IsNull, nulled, bytes-nulled, length-nulled, nulled-second}
use network_pool.Http.Safety.{LinesIn, IsOpen, StateIn, IsStored, IsSafe, Keeps}
use network_pool.Http.Safety.Lines.{
  LinesIn-nulled, LinesIn-le, Within-open, decoder_header_safe, EndsIn,
}

-- What `end_of_line` hands on: the context with the newline `suc k` and the byte before it nulled.
pub record IsNulled (k : ℕ) (c d : HttpContext) : Type 0 where
  pub index : d.analysis_index ≡ suc k
  pub now : d.now_index ≡ c.now_index
  pub state : d.state ≡ c.state
  pub size : d.now_chunk_size ≡ c.now_chunk_size
  pub lines : d.lines ≡ c.lines
  pub mem : bytes d ≡ nulled k (bytes c)

pub zero_at-IsNulled :
    (k : ℕ) (c : HttpContext)
    → c.analysis_index ≡ suc k
    → IsNulled k c (zero_at (suc k) (zero_at k c))
unfolding zero_at
zero_at-IsNulled k c e = record {
  index = e;
  now = refl;
  state = refl;
  size = refl;
  lines = refl;
  mem = unfold zero_at in bytes-nulled k c;
}

pub bad-Keeps : (c : HttpContext) → IsStored c → Keeps (bad c)
unfolding bad
bad-Keeps c h = record { stored = h; state = tt }

-- The context after a newline that has been nulled, with the lines `ls`.
pub record IsAfter (k : ℕ) (d : HttpContext) (ls : List Line) : Type 0 where
  pub index : d.analysis_index ≡ suc k
  pub more : suc k < d.now_index
  pub stored : d.now_index ≤ length (bytes d)
  pub small : d.now_index < size_limit
  pub lines : LinesIn (bytes d) (suc k) ls
  pub null : IsNull (bytes d) (suc k)

pub IsNulled-IsAfter :
    (k : ℕ) (c d : HttpContext)
    → IsStored c
    → c.analysis_index ≡ suc k
    → c.analysis_index < c.now_index
    → IsNulled k c d
    → IsAfter k d d.lines
IsNulled-IsAfter k c d h e lt w = record {
  index = w.index;
  more = rw w.now (omega arith);
  stored = rw (w.now, w.mem, length-nulled k (bytes c)) h.stored;
  small = rw w.now h.small;
  lines =
      rw (w.mem, w.lines)
        (LinesIn-nulled k c.analysis_index (suc k) (bytes c) c.lines (omega arith) h.lines);
  null = rw w.mem (nulled-second k (bytes c) (omega (arith, h.stored)));
}

-- `forward`, with lines that are known to lie before the newline.
forward-IsStored :
    (k : ℕ) (d : HttpContext) (ls : List Line)
    → IsAfter k d ls
    → IsStored (record (forward d) { lines = ls })
forward-IsStored k d ls a = record {
  reached = omega (arith, a.index, a.more);
  stored = a.stored;
  small = a.small;
  lines = LinesIn-le (suc k) (d.analysis_index + 1) (bytes d) ls (omega (arith, a.index)) a.lines;
}

-- The next line starts right after the newline.
next-IsOpen :
    (k : ℕ) (d : HttpContext) (ls ms : List Line)
    → IsAfter k d ms
    → IsOpen (bytes d) (d.analysis_index + 1) ((d.analysis_index + 1, none) ∷ ls)
next-IsOpen k d ls ms a = (
  omega arith,
  λ pos.
      let e : suc k ≡ d.analysis_index + 1 - 1 = omega (arith, a.index) in
      subst (IsNull (bytes d)) e a.null,
)

switch_state-IsSafe :
    (f : Fields) (c : HttpContext) → IsStored c → 0 < c.analysis_index → IsSafe (switch_state f c)
unfolding switch_state
switch_state-IsSafe f c h pos =
    if_both IsSafe f.chunked (record { stored = h; state = pos })
      (if_both IsSafe (ltb 0 f.content_length) (record { stored = h; state = pos })
        (record { stored = h; state = pos }))

pub header_line-Keeps :
    (k : ℕ) (d : HttpContext) (r : Option (Bool × List Line))
    → IsAfter k d d.lines
    → d.state ≡ state_read_header
    → EndsIn (bytes d) k r
    → Keeps (header_line r d)
unfolding header_line
header_line-Keeps k d none a s h = elim h [ ]
header_line-Keeps k d (some (true, ls)) a s h =
    let b : IsAfter k d ls = record {
      index = a.index;
      more = a.more;
      stored = a.stored;
      small = a.small;
      lines = h;
      null = a.null;
    } in
    let t = forward-IsStored k d ls b in
    let d' : HttpContext = record (forward d) { lines = ls; header_size = d.analysis_index + 1 } in
    let t' : IsStored d' = t in
    let (g, e) = decoder_header_safe d' (d.analysis_index + 1) t'.lines in
    subst (λ o. Keeps (elim o [ none ↦ fault | some x ↦ again x ])) (sym e)
      (switch_state-IsSafe g d' t' (omega arith))
header_line-Keeps k d (some (false, ls)) a s h =
    let b : IsAfter k d ls = record {
      index = a.index;
      more = a.more;
      stored = a.stored;
      small = a.small;
      lines = h;
      null = a.null;
    } in
    let t = forward-IsStored k d ls b in
    record {
      stored = Within-open (d.analysis_index + 1) t;
      state =
          subst
            (λ st. StateIn st (bytes d) (d.analysis_index + 1) ((d.analysis_index + 1, none) ∷ ls))
            (sym s) (next-IsOpen k d ls d.lines a, λ z. absurd (omega arith));
    }

pub footer_line-Keeps :
    (k : ℕ) (d : HttpContext) (r : Option (Bool × List Line))
    → IsAfter k d d.lines
    → d.state ≡ state_read_chunk_footer
    → EndsIn (bytes d) k r
    → Keeps (footer_line r d)
unfolding footer_line
footer_line-Keeps k d none a s h = elim h [ ]
footer_line-Keeps k d (some (true, ls)) a s h =
    let b : IsAfter k d ls = record {
      index = a.index;
      more = a.more;
      stored = a.stored;
      small = a.small;
      lines = h;
      null = a.null;
    } in
    let t = forward-IsStored k d ls b in record { stored = t; state = omega arith }
footer_line-Keeps k d (some (false, ls)) a s h =
    let b : IsAfter k d ls = record {
      index = a.index;
      more = a.more;
      stored = a.stored;
      small = a.small;
      lines = h;
      null = a.null;
    } in
    let t = forward-IsStored k d ls b in
    record {
      stored = Within-open (d.analysis_index + 1) t;
      state =
          subst
            (λ st. StateIn st (bytes d) (d.analysis_index + 1) ((d.analysis_index + 1, none) ∷ ls))
            (sym s) (next-IsOpen k d ls d.lines a, omega arith);
    }

pub size_line-Keeps : (k : ℕ) (d : HttpContext) → IsAfter k d d.lines → Keeps (size_line d)
unfolding size_line
size_line-Keeps k d a =
    let t = forward-IsStored k d d.lines a in
    if_both Keeps (ltb 0 d.now_chunk_size) (record { stored = t; state = omega arith })
      (record {
        stored = Within-open (d.analysis_index + 1) t;
        state = (next-IsOpen k d d.lines d.lines a, omega arith);
      })
