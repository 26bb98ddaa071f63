-- ===== src/Peer/Rounds.antt =====
-- One round of the loop of `getContent` (peer_server.h), on the bytes that are ahead of it.
use network_pool.Common.{
  ℕ, zero, suc, ◌+◌, ◌-◌, ◌%◌, ◌≤◌, ◌<◌, ◌≡◌, refl, sym, ◌∙◌, ap, Bool, if◌then◌else◌, some, List,
  [], ◌∷◌, arith, length, take, take-take, drop, length-take, length-drop, drop-drop, drop-take,
  ltb-cases, inl, inr,
}
use network_pool.Http.{size_limit}
use network_pool.Http.Content.Merge.{slice-some}
use network_pool.Peer.{word, Round, packet, enough, no_memory, next_packet}

-- The bytes that the loop still has before it.
abbrev pub ahead : List ℕ → ℕ → ℕ → List ℕ
ahead mem size now = take (size - now) (drop now mem)

-- 2 ^ 63
abbrev pub half_limit : ℕ
half_limit = 9223372036854775808

-- A packet that is there, where there is memory for it.
abbrev pub taken : Bool → List ℕ → ℕ → Round
taken room bs next = if room then packet bs next else no_memory

word-take : (k : ℕ) (xs : List ℕ) → 4 ≤ k → word (take k xs) ≡ word xs
unfolding word take
word-take zero xs h = absurd (omega arith)
word-take (suc zero) xs h = absurd (omega arith)
word-take (suc (suc zero)) xs h = absurd (omega arith)
word-take (suc (suc (suc zero))) xs h = absurd (omega arith)
word-take (suc (suc (suc (suc k)))) [] h = refl
word-take (suc (suc (suc (suc k)))) (a ∷ []) h = refl
word-take (suc (suc (suc (suc k)))) (a ∷ b ∷ []) h = refl
word-take (suc (suc (suc (suc k)))) (a ∷ b ∷ c ∷ []) h = refl
word-take (suc (suc (suc (suc k)))) (a ∷ b ∷ c ∷ d ∷ xs) h = refl

module _ (mem : List ℕ) (size : ℕ) (s : size ≤ length mem) (m : size < half_limit) where
  pub length-ahead : (now : ℕ) → now ≤ size → length (ahead mem size now) ≡ size - now
  length-ahead now h =
      length-take (size - now) (drop now mem) (omega (arith, length-drop now mem, s, h))

  -- Behind the length and the packet.
  pub ahead_next :
      (now n : ℕ)
      → now + 4 + n ≤ size
      → drop n (drop 4 (ahead mem size now)) ≡ ahead mem size (now + 4 + n)
  ahead_next now n h =
      ap (drop n) (drop-take 4 (size - now) (drop now mem))
      ∙ drop-take n (size - now - 4) (drop 4 (drop now mem))
      ∙ ap (take (size - now - 4 - n))
          (ap (drop n) (drop-drop 4 now mem) ∙ drop-drop n (now + 4) mem)
      ∙ ap (λ k. take k (drop (now + 4 + n) mem)) sizes
    where
      sizes : size - now - 4 - n ≡ size - (now + 4 + n)
      sizes = omega (arith, h)

  -- The packet itself.
  pub ahead_packet :
      (now n : ℕ)
      → now + 4 + n ≤ size
      → take n (drop 4 (ahead mem size now)) ≡ take n (drop (now + 4) mem)
  ahead_packet now n h =
      ap (take n) (drop-take 4 (size - now) (drop now mem))
      ∙ take-take n (size - now - 4) (drop 4 (drop now mem)) (omega (arith, h))
      ∙ ap (take n) (drop-drop 4 now mem)

  pub short_round :
      (room : Bool) (now : ℕ) → now ≤ size → size < now + 4 → next_packet room mem size now ≡ enough
  unfolding next_packet
  short_round room now h lt = elim (ltb-cases size ((now + 4) % size_limit)) [
    | inl (t, _) ↦ rw (next_packet, t) refl
    | inr (_, ge) ↦ absurd (omega (arith, ge, lt, h, m))
  ]

  word_round :
      (now n : ℕ)
      → now + 4 ≤ size
      → word (ahead mem size now) ≡ some n
      → word (drop now mem) ≡ some n
  word_round now n h e = sym (word-take (size - now) (drop now mem) (omega (arith, h))) ∙ e

  pub partial_round :
      (room : Bool) (now n : ℕ)
      → now + 4 ≤ size
      → word (ahead mem size now) ≡ some n
      → n < 4294967296
      → size < now + 4 + n
      → next_packet room mem size now ≡ enough
  unfolding next_packet
  partial_round room now n h e b lt = elim (ltb-cases size ((now + 4) % size_limit)) [
    | inl (t, k) ↦ absurd (omega (arith, k, h, m))
    | inr (t, _) ↦ elim (ltb-cases size ((now + 4 + n) % size_limit)) [
      | inl (u, _) ↦ rw (next_packet, t, word_round now n h e, u) refl
      | inr (_, ge) ↦ absurd (omega (arith, ge, lt, h, m, b))
    ]
  ]

  pub whole_round :
      (room : Bool) (now n : ℕ)
      → word (ahead mem size now) ≡ some n
      → n < 4294967296
      → now + 4 + n ≤ size
      → next_packet room mem size now ≡ taken room (take n (drop (now + 4) mem)) (now + 4 + n)
  unfolding next_packet
  whole_round room now n e b h = elim (ltb-cases size ((now + 4) % size_limit)) [
    | inl (t, k) ↦ absurd (omega (arith, k, h, m))
    | inr (t, _) ↦ elim (ltb-cases size ((now + 4 + n) % size_limit)) [
      | inl (_, k) ↦ absurd (omega (arith, k, h, m))
      | inr (u, _) ↦
          rw
            (
              next_packet,
              t,
              word_round now n (omega (arith, h)) e,
              u,
              slice-some (now + 4) n mem (omega (arith, h, s)),
            )
            (ap (taken room (take n (drop (now + 4) mem))) next)
    ]
  ]
    where
      next : (now + 4 + n) % size_limit ≡ now + 4 + n
      next = omega (arith, h, m)
