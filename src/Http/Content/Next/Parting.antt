-- ===== src/Http/Content/Next/Parting.antt =====
-- `reinitForNext` of http_context.h as a whole.
use network_pool.Common.{
  ℕ, ◌+◌, ◌-◌, ◌%◌, ◌≤◌, ◌<◌, ◌≡◌, refl, sym, ◌∙◌, ap, subst, true, Option, none, List, arith,
  length, take, drop, length-take, leb, if◌then◌else◌, leb-cases, inl, inr,
}
use network_pool.Buffer.{Buffer, Outcome, done, threw, fault, set}
use network_pool.Buffer.Laws.{
  IsValid, IsSized, Ends, Has, memory_size, bytes_of, set_lem, length-bytes_of,
}
use network_pool.Http.{state_done, HttpContext, bytes_in, bytes, size_limit}
use network_pool.Http.Content.{
  got, beyond, is_done, is_good, moved, thrown, move_down, former_of, next_of, reinit_for_next,
}
use network_pool.Http.Content.Merge.{Reads}
use network_pool.Http.Receive.{cleared}
use network_pool.Http.Receive.Room.{IsReceiving}
use network_pool.Http.Safety.{StateIn, IsSafe}
use network_pool.Http.Content.Next.{
  memory_size_lem, LinesIn-same, read_bytes, moved_bytes, length-move_down, take-move_down,
  has_bytes, IsUnread, Parted, Parts,
}

module _ (c : HttpContext) (safe : IsSafe c) (r : IsReceiving c) where
  extra_size :
      (c.now_index + size_limit - c.analysis_index) % size_limit ≡ c.now_index - c.analysis_index
  extra_size = omega (arith, safe.stored.reached, safe.stored.small)

  next_bytes :
      bytes (next_of c) ≡ move_down c.analysis_index (c.now_index - c.analysis_index) (bytes c)
  unfolding next_of cleared
  next_bytes =
      moved_bytes c.analysis_index _ c.buffer.memory
        (omega (arith, r.valid.owns, r.valid.fits, r.begun))
      ∙ ap (λ n. move_down c.analysis_index n (bytes c)) extra_size

  within_bytes : c.analysis_index + (c.now_index - c.analysis_index) ≤ length (bytes c)
  within_bytes = omega (arith, safe.stored.reached, safe.stored.stored)

  length-next : length (bytes (next_of c)) ≡ length (bytes c)
  length-next =
      ap length next_bytes
      ∙ length-move_down c.analysis_index (c.now_index - c.analysis_index) (bytes c) within_bytes

  next_now : (next_of c).now_index ≡ c.now_index - c.analysis_index
  unfolding next_of cleared
  next_now = extra_size

  next-IsSafe : IsSafe (next_of c)
  unfolding next_of cleared
  next-IsSafe = record {
    stored = record {
      reached = omega arith;
      stored = omega (arith, extra_size, length-next, safe.stored.stored);
      small = omega (arith, extra_size, safe.stored.small);
      lines = tt;
    };
    state = tt;
  }

  next-IsUnread : IsUnread (next_of c)
  unfolding next_of cleared
  next-IsUnread = record {
    analysed = refl;
    state = refl;
    lines = refl;
    chunks = refl;
    header_size = refl;
    keep_alive = refl;
    chunked = refl;
    content_length = refl;
    now_chunk_size = refl;
    chunk_size_start = refl;
    chunk_size_done = refl;
  }

  next-IsReceiving : IsReceiving (next_of c)
  unfolding next_of cleared
  next-IsReceiving = record {
    valid = record {
      owns =
          memory_size_lem (next_of c).buffer.memory
          ∙ length-next
          ∙ sym (memory_size_lem c.buffer.memory)
          ∙ r.valid.owns;
      fits = r.valid.fits;
    };
    begun = r.begun;
    received = omega (arith, extra_size, r.received);
    below = r.below;
    small = r.small;
  }

  take-next :
      take (next_of c).now_index (bytes (next_of c))
      ≡ take (next_of c).now_index (drop c.analysis_index (bytes c))
  take-next =
      rw (next_now, next_bytes)
        (take-move_down c.analysis_index (c.now_index - c.analysis_index) (bytes c) within_bytes)

  length-message : length (take c.analysis_index (bytes c)) ≡ c.analysis_index
  length-message =
      length-take c.analysis_index (bytes c)
        (omega (arith, safe.stored.reached, safe.stored.stored))

  -- The message in a buffer that has its bytes.
  former-IsSafe :
      (former : HttpContext) (b : Buffer)
      → Has (take c.analysis_index (bytes c)) b
      → 0 < c.analysis_index
      → IsSafe (former_of c former b)
  unfolding former_of
  former-IsSafe former b h pos =
      let len : b.length ≡ c.analysis_index =
        sym (length-bytes_of b.length b.memory (omega (arith, h.valid.owns, h.valid.fits)))
        ∙ ap length h.contents
        ∙ length-message in
      record {
        stored = record {
          reached = omega arith;
          stored = omega (arith, len, memory_size_lem b.memory, h.valid.owns, h.valid.fits);
          small = omega (arith, safe.stored.reached, safe.stored.small);
          lines =
              LinesIn-same c.analysis_index (bytes c) (bytes_in b.memory) c.lines
                (sym (
                  has_bytes (take c.analysis_index (bytes c)) c.analysis_index b.memory
                    (ap (bytes_of b.memory) (sym len) ∙ h.contents)))
                safe.stored.lines;
        };
        state = pos;
      }

  parted :
      (former : HttpContext) (b : Buffer)
      → Has (take c.analysis_index (bytes c)) b
      → 0 < c.analysis_index
      → Parted c (former_of c former b) (next_of c)
  unfolding former_of is_good is_done
  parted former b h pos = record {
    has = h;
    message = former-IsSafe former b h pos;
    same = record {
      good = refl;
      size = refl;
      analysed = refl;
      lines = refl;
      chunks = refl;
      header_size = refl;
      keep_alive = refl;
      chunked = refl;
      content_length = refl;
      max_buffer_size = refl;
    };
    next = next-IsSafe;
    unread = next-IsUnread;
    receiving = next-IsReceiving;
    extra = next_now;
    start = take-next;
  }

pub is_good_lem : (c : HttpContext) → c.state ≡ state_done → is_good c ≡ true
unfolding is_good is_done
is_good_lem c s = ap is_done s

-- A complete message has bytes.
pub done_index : (c : HttpContext) → c.state ≡ state_done → IsSafe c → 0 < c.analysis_index
done_index c s safe = subst (λ st. StateIn st (bytes c) c.analysis_index c.lines) s safe.state

pub reinit_for_next-IsSafe :
    (former : HttpContext) (malloced : Option (List ℕ)) (c : HttpContext)
    → IsSafe c
    → IsReceiving c
    → c.state ≡ state_done
    → IsValid former.buffer
    → IsSized c.analysis_index malloced
    → Reads
        (Parts c ((malloced ≡ none) × (former.buffer.max_length < c.analysis_index)))
        (reinit_for_next former malloced c)
unfolding reinit_for_next
reinit_for_next-IsSafe former malloced c safe r s v z =
    rw (is_good_lem c s, read_bytes c.analysis_index c.buffer.memory big reach)
      (go (set (take c.analysis_index (bytes c)) malloced former.buffer) (
        set_lem (take c.analysis_index (bytes c)) malloced former.buffer v
          (subst (λ n. IsSized n malloced) (sym (length-message c safe r)) z)))
  where
    big : 0 < memory_size c.buffer.memory
    big = omega (arith, r.valid.owns, r.valid.fits, r.begun)

    reach : c.analysis_index ≤ memory_size c.buffer.memory
    reach = omega (arith, memory_size_lem c.buffer.memory, safe.stored.reached, safe.stored.stored)

    fits : leb (c.analysis_index + (c.now_index - c.analysis_index)) (length (bytes c)) ≡ true
    fits =
        elim (leb-cases (c.analysis_index + (c.now_index - c.analysis_index)) (length (bytes c))) [
          | inl (t, _) ↦ t
          | inr (_, lt) ↦ absurd (omega (arith, lt, within_bytes c safe r))
        ]

    go :
        (o : Outcome)
        → Ends
            (Has (take c.analysis_index (bytes c)))
            ((malloced ≡ none)
              × (former.buffer.max_length < length (take c.analysis_index (bytes c))))
            o
        → Reads
            (Parts c ((malloced ≡ none) × (former.buffer.max_length < c.analysis_index)))
            (elim o [
              | done b ↦
                  if leb
                    (c.analysis_index + (c.now_index + size_limit - c.analysis_index) % size_limit)
                    (length (bytes c))
                  then got (moved (former_of c former b) (next_of c))
                  else beyond
              | threw b ↦
                  got (thrown (record former { max_buffer_size = c.max_buffer_size; buffer = b }))
              | fault ↦ beyond
            ])
    go (done b) h =
        rw (extra_size c safe r, fits) (parted c safe r former b h (done_index c s safe))
    go (threw b) h = (h.0, omega (arith, h.1, length-message c safe r))
    go fault h = h
