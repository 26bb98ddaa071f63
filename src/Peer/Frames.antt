-- ===== src/Peer/Frames.antt =====
-- What the packets of peer_server.h are, on lists of bytes.
use network_pool.Common.{
  ℕ, zero, suc, ◌+◌, ◌*◌, ◌/◌, ◌%◌, ◌≤◌, ◌<◌, ◌≡◌, refl, sym, ◌∙◌, ap, Option, none, some, List, [],
  ◌∷◌, ◌++◌, arith, length, take, drop, length-drop, leb, if◌then◌else◌, leb-cases, inl, inr,
}
use network_pool.Peer.{word}

-- The packet behind the length `n`, where the bytes have all of it.
unfoldable pub cut_packet : ℕ → List ℕ → Option (List ℕ × List ℕ)
cut_packet n xs = if leb n (length xs) then some (take n xs, drop n xs) else none

-- The first packet, and the bytes after it.
unfoldable pub first_packet : List ℕ → Option (List ℕ × List ℕ)
first_packet xs = elim (word xs) [ none ↦ none | some n ↦ cut_packet n (drop 4 xs) ]

-- All packets, and the bytes that are left.
unfoldable pub decode : ℕ → List ℕ → List (List ℕ) × List ℕ
decode zero xs = ([], xs)
decode (suc fuel) xs = elim (first_packet xs) [
  | none ↦ ([], xs)
  | some (bs, rest) ↦ let r = decode fuel rest in (bs ∷ r.0, r.1)
]

-- The packets of the bytes, and the bytes that are left.
abbrev pub packets_of : List ℕ → List (List ℕ) × List ℕ
packets_of xs = decode (suc (length xs)) xs

-- A packet behind its length.
unfoldable pub frame : List ℕ → List ℕ
frame bs =
    length bs % 256
    ∷ length bs / 256 % 256
    ∷ length bs / 65536 % 256
    ∷ length bs / 16777216 % 256
    ∷ bs

unfoldable pub frames : List (List ℕ) → List ℕ
frames [] = []
frames (bs ∷ bss) = frame bs ++ frames bss

word-short : (xs : List ℕ) → length xs < 4 → word xs ≡ none
unfolding word
word-short [] h = refl
word-short (a ∷ []) h = refl
word-short (a ∷ b ∷ []) h = refl
word-short (a ∷ b ∷ c ∷ []) h = refl
word-short (a ∷ b ∷ c ∷ d ∷ xs) h = absurd (omega arith)

pub word-some : (xs : List ℕ) → 4 ≤ length xs → (n : ℕ) × (word xs ≡ some n) × (n < 4294967296)
unfolding word
word-some [] h = absurd (omega arith)
word-some (a ∷ []) h = absurd (omega arith)
word-some (a ∷ b ∷ []) h = absurd (omega arith)
word-some (a ∷ b ∷ c ∷ []) h = absurd (omega arith)
word-some (a ∷ b ∷ c ∷ d ∷ xs) h =
    ((a + 256 * b + 65536 * c + 16777216 * d) % 4294967296, refl, omega arith)

pub word-append : (xs ys : List ℕ) → 4 ≤ length xs → word (xs ++ ys) ≡ word xs
unfolding word
word-append [] ys h = absurd (omega arith)
word-append (a ∷ []) ys h = absurd (omega arith)
word-append (a ∷ b ∷ []) ys h = absurd (omega arith)
word-append (a ∷ b ∷ c ∷ []) ys h = absurd (omega arith)
word-append (a ∷ b ∷ c ∷ d ∷ xs) ys h = refl

-- No packet yet, or the first packet with the bytes after it.
pub data View (xs : List ℕ) : Type 0 where
  short : length xs < 4 → first_packet xs ≡ none → View xs
  partial :
      (n : ℕ)
      → 4 ≤ length xs
      → word xs ≡ some n
      → n < 4294967296
      → length xs < 4 + n
      → first_packet xs ≡ none
      → View xs
  whole :
      (n : ℕ)
      → word xs ≡ some n
      → n < 4294967296
      → 4 + n ≤ length xs
      → first_packet xs ≡ some (take n (drop 4 xs), drop n (drop 4 xs))
      → View xs

pub first_packet-word :
    (xs : List ℕ) (n : ℕ) → word xs ≡ some n → first_packet xs ≡ cut_packet n (drop 4 xs)
unfolding first_packet
first_packet-word xs n e = rw (first_packet, e) refl

pub view : (xs : List ℕ) → View xs
unfolding first_packet cut_packet
view xs = elim (leb-cases 4 (length xs)) [
  | inr (_, lt) ↦ short lt (rw (first_packet, word-short xs lt) refl)
  | inl (_, le) ↦
      let (n, e, b) = word-some xs le in
      let l = length-drop 4 xs in
      elim (leb-cases n (length (drop 4 xs))) [
        | inl (t, fits) ↦
            whole n e b (omega (arith, l, fits, le))
              (first_packet-word xs n e ∙ rw (cut_packet, t) refl)
        | inr (t, lt) ↦
            partial n le e b (omega (arith, l, lt, le))
              (first_packet-word xs n e ∙ rw (cut_packet, t) refl)
      ]
]

pub decode-none : (f : ℕ) (xs : List ℕ) → first_packet xs ≡ none → decode (suc f) xs ≡ ([], xs)
unfolding decode
decode-none f xs e = rw (decode, e) refl

-- The packets after the first.
abbrev pub behind : List ℕ → List (List ℕ) × List ℕ → List (List ℕ) × List ℕ
behind bs r = (bs ∷ r.0, r.1)

pub decode-some :
    (f : ℕ) (xs bs rest : List ℕ)
    → first_packet xs ≡ some (bs, rest)
    → decode (suc f) xs ≡ behind bs (decode f rest)
unfolding decode
decode-some f xs bs rest e = rw (decode, e) refl

-- The fuel makes no difference where there is a round for each byte.
pub decode-fuel :
    (f g : ℕ) (xs : List ℕ) → length xs < f → length xs < g → decode f xs ≡ decode g xs
decode-fuel zero g xs h k = absurd (omega arith)
decode-fuel (suc f) zero xs h k = absurd (omega arith)
decode-fuel (suc f) (suc g) xs h k = elim (view xs) [
  | short _ e ↦ decode-none f xs e ∙ sym (decode-none g xs e)
  | partial _ _ _ _ _ e ↦ decode-none f xs e ∙ sym (decode-none g xs e)
  | whole n _ _ le e ↦
      let l = length-drop n (drop 4 xs) in
      let l' = length-drop 4 xs in
      decode-some f xs _ _ e
      ∙ ap (behind (take n (drop 4 xs))) (
          decode-fuel f g (drop n (drop 4 xs)) (omega (arith, l, l', h, le))
            (omega (arith, l, l', k, le)))
      ∙ sym (decode-some g xs _ _ e)
]
