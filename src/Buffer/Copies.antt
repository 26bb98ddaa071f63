-- ===== src/Buffer/Copies.antt =====
-- memcpy within the memory of a Cbuffer (buffer.h).
use network_pool.Common.{ℕ, ◌≤◌, ◌≡◌, refl, ap, Option, some, List, [], ◌∷◌, arith, length, take}
use network_pool.Buffer.{write_bytes}

-- Where the bytes fit the memory keeps its size and starts with them.
pub record Written (bs mem : List ℕ) (r : Option (List ℕ)) : Type 0 where
  pub after : List ℕ
  pub writes : r ≡ some after
  pub size : length after ≡ length mem
  pub starts : take (length bs) after ≡ bs

pub write_bytes_lem :
    (bs mem : List ℕ) → length bs ≤ length mem → Written bs mem (write_bytes bs mem)
unfolding write_bytes take
write_bytes_lem [] mem h = record { after = mem; writes = refl; size = refl; starts = refl }
write_bytes_lem (b ∷ bs) [] h = absurd (omega arith)
write_bytes_lem (b ∷ bs) (m ∷ ms) h =
    let w = write_bytes_lem bs ms (omega arith) in
    record {
      after = b ∷ w.after;
      writes = rw w.writes;
      size = omega (arith, w.size);
      starts = ap (◌∷◌ b) w.starts;
    }
