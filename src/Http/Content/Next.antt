-- ===== src/Http/Content/Next.antt =====
-- `reinitForNext` of http_context.h: a complete message moved away from what follows it.
pub mod Parting
use network_pool.Common.{
  ℕ, zero, suc, ◌+◌, ◌-◌, ◌%◌, ◌≤◌, ◌<◌, ◌≡◌, refl, sym, ◌∙◌, ap, subst, true, false, Option, none,
  some, List, [], ◌∷◌, arith, length, take, drop, length-take, length-drop, length-append,
  take-append, get_elem?-same, leb, if◌then◌else◌, leb-cases, inl, inr,
}
use network_pool.Buffer.{Buffer, Outcome, done, threw, fault, set, read}
use network_pool.Buffer.Laws.{
  IsValid, IsSized, Ends, Has, memory_size, bytes_of, set_lem, length-bytes_of,
}
use network_pool.Http.{state_start, state_done, Line, HttpContext, bytes_in, bytes, size_limit}
use network_pool.Http.Content.{
  got, beyond, is_done, is_good, Move, moved, thrown, move_down, former_of, next_of,
  reinit_for_next,
}
use network_pool.Http.Content.Merge.{Reads}
use network_pool.Http.Receive.{cleared}
use network_pool.Http.Receive.Room.{IsReceiving}
use network_pool.Http.Safety.{StateIn, LinesIn, IsSafe}

pub memory_size_lem : (mem : Option (List ℕ)) → memory_size mem ≡ length (bytes_in mem)
memory_size_lem none = refl
memory_size_lem (some mem) = refl

-- Lines stay where the memory before them is the same.
pub LinesIn-same :
    (i : ℕ) (mem mem' : List ℕ) (ls : List Line)
    → take i mem ≡ take i mem'
    → LinesIn mem i ls
    → LinesIn mem' i ls
LinesIn-same i mem mem' [] e h = tt
LinesIn-same i mem mem' ((start, none) ∷ ls) e h = LinesIn-same i mem mem' ls e h
LinesIn-same i mem mem' ((start, some n) ∷ ls) e h =
    (sym (get_elem?-same i (start + n) mem mem' e h.1) ∙ h.0, h.1, LinesIn-same i mem mem' ls e h.2)

pub read_bytes :
    (n : ℕ) (mem : Option (List ℕ))
    → 0 < memory_size mem
    → n ≤ memory_size mem
    → read n mem ≡ some (take n (bytes_in mem))
unfolding read
read_bytes n none h k = absurd (omega arith)
read_bytes n (some mem) h k = elim (leb-cases n (length mem)) [
  | inl (t, _) ↦ rw t refl
  | inr (_, lt) ↦ absurd (omega arith)
]

pub moved_bytes :
    (i n : ℕ) (mem : Option (List ℕ))
    → 0 < memory_size mem
    → bytes_in (elim mem [ none ↦ none | some m ↦ some (move_down i n m) ])
      ≡ move_down i n (bytes_in mem)
moved_bytes i n none h = absurd (omega arith)
moved_bytes i n (some mem) h = refl

module _ (i n : ℕ) (mem : List ℕ) (h : i + n ≤ length mem) where
  pub length-moved : length (take n (drop i mem)) ≡ n
  length-moved = length-take n (drop i mem) (omega (arith, length-drop i mem, h))

  pub length-move_down : length (move_down i n mem) ≡ length mem
  unfolding move_down
  length-move_down =
      length-append (take n (drop i mem)) (drop n mem)
      ∙ omega (arith, length-moved, length-drop n mem, h)

  pub take-move_down : take n (move_down i n mem) ≡ take n (drop i mem)
  unfolding move_down
  take-move_down = take-append n (take n (drop i mem)) (drop n mem) length-moved

-- The memory of a buffer starts with what it has.
pub has_bytes :
    (bs : List ℕ) (n : ℕ) (mem : Option (List ℕ)) → bytes_of mem n ≡ bs → take n (bytes_in mem) ≡ bs
unfolding take
has_bytes bs zero none e = e
has_bytes bs (suc n) none e = e
has_bytes bs n (some mem) e = e

-- What `analysis` has found of a message is the same in both contexts, and the message is complete.
pub record IsSameMessage (c former : HttpContext) : Type 0 where
  pub good : is_good former ≡ true
  pub size : former.now_index ≡ c.analysis_index
  pub analysed : former.analysis_index ≡ c.analysis_index
  pub lines : former.lines ≡ c.lines
  pub chunks : former.chunks ≡ c.chunks
  pub header_size : former.header_size ≡ c.header_size
  pub keep_alive : former.keep_alive ≡ c.keep_alive
  pub chunked : former.chunked ≡ c.chunked
  pub content_length : former.content_length ≡ c.content_length
  pub max_buffer_size : former.max_buffer_size ≡ c.max_buffer_size

-- A context that has found nothing of a message yet.
pub record IsUnread (c : HttpContext) : Type 0 where
  pub analysed : c.analysis_index ≡ 0
  pub state : c.state ≡ state_start
  pub lines : c.lines ≡ []
  pub chunks : c.chunks ≡ []
  pub header_size : c.header_size ≡ 0
  pub keep_alive : c.keep_alive ≡ false
  pub chunked : c.chunked ≡ false
  pub content_length : c.content_length ≡ 0
  pub now_chunk_size : c.now_chunk_size ≡ 0
  pub chunk_size_start : c.chunk_size_start ≡ false
  pub chunk_size_done : c.chunk_size_done ≡ false

-- The context of the message, and the one of what follows it.
pub record Parted (c former current : HttpContext) : Type 0 where
  pub has : Has (take c.analysis_index (bytes c)) former.buffer
  pub message : IsSafe former
  pub same : IsSameMessage c former
  pub next : IsSafe current
  pub unread : IsUnread current
  pub receiving : IsReceiving current
  pub extra : current.now_index ≡ c.now_index - c.analysis_index
  pub start :
      take current.now_index (bytes current)
      ≡ take current.now_index (drop c.analysis_index (bytes c))

abbrev pub Parts : HttpContext → Type 0 → Move → Type 0
Parts c Throws (moved former current) = Parted c former current
Parts c Throws (thrown former) = Throws
