-- ===== src/Peer/RoundTrip.antt =====
-- Packets put behind their lengths, and packets that arrive in pieces.
use network_pool.Common.{
  ℕ, zero, suc, ◌+◌, ◌≤◌, ◌<◌, ◌≡◌, refl, sym, ◌∙◌, ap, none, some, List, [], ◌∷◌, ◌++◌, arith,
  length, take, drop, length-drop, length-append, take-append, drop-append, take-within,
  drop-within, append_assoc, leb-cases, inl, inr,
}
use network_pool.Peer.{word}
use network_pool.Peer.Frames.{
  cut_packet, first_packet, first_packet-word, decode, packets_of, frame, frames, word-append,
  short, partial, whole, view, decode-none, decode-some, behind, decode-fuel,
}

word-frame : (bs xs : List ℕ) → length bs < 4294967296 → word (frame bs ++ xs) ≡ some (length bs)
unfolding word frame
word-frame bs xs h = ap some (omega (arith, h))

rest-frame : (bs xs : List ℕ) → drop 4 (frame bs ++ xs) ≡ bs ++ xs
unfolding drop frame
rest-frame bs xs = refl

cut_packet-whole :
    (n : ℕ) (xs : List ℕ) → n ≤ length xs → cut_packet n xs ≡ some (take n xs, drop n xs)
unfolding cut_packet
cut_packet-whole n xs h = elim (leb-cases n (length xs)) [
  | inl (t, _) ↦ rw (cut_packet, t) refl
  | inr (_, lt) ↦ absurd (omega arith)
]

pub first_packet-frame :
    (bs xs : List ℕ) → length bs < 4294967296 → first_packet (frame bs ++ xs) ≡ some (bs, xs)
first_packet-frame bs xs h =
    first_packet-word (frame bs ++ xs) (length bs) (word-frame bs xs h)
    ∙ ap (cut_packet (length bs)) (rest-frame bs xs)
    ∙ cut_packet-whole (length bs) (bs ++ xs) (omega (arith, length-append bs xs))
    ∙ ap (λ ys. some (ys, drop (length bs) (bs ++ xs))) (take-append (length bs) bs xs refl)
    ∙ ap (λ ys. some (bs, ys)) (drop-append (length bs) bs xs refl)

length-frame : (bs : List ℕ) → length (frame bs) ≡ 4 + length bs
unfolding frame
length-frame bs = omega arith

-- Each packet has a length that 32 bits hold.
abbrev pub AreSmall : List (List ℕ) → Type 0
AreSmall [] = Unit
AreSmall (bs ∷ bss) = (length bs < 4294967296) × AreSmall bss

decode-frames :
    (f : ℕ) (bss : List (List ℕ)) (rest : List ℕ)
    → AreSmall bss
    → first_packet rest ≡ none
    → length (frames bss ++ rest) < f
    → decode f (frames bss ++ rest) ≡ (bss, rest)
unfolding frames
decode-frames zero bss rest h e lt = absurd (omega arith)
decode-frames (suc f) [] rest h e lt = decode-none f rest e
decode-frames (suc f) (bs ∷ bss) rest h e lt =
    ap (decode (suc f)) (append_assoc (frame bs) (frames bss) rest)
    ∙ decode-some f (frame bs ++ (frames bss ++ rest)) _ _
        (first_packet-frame bs (frames bss ++ rest) h.0)
    ∙ ap (behind bs) (decode-frames f bss rest h.1 e fewer)
  where
    fewer : length (frames bss ++ rest) < f
    fewer = omega (
      arith,
      lt,
      length-append (frame bs ++ frames bss) rest,
      length-append (frames bss) rest,
      length-append (frame bs) (frames bss),
      length-frame bs,
    )

pub packets_of-frames :
    (bss : List (List ℕ)) (rest : List ℕ)
    → AreSmall bss
    → first_packet rest ≡ none
    → packets_of (frames bss ++ rest) ≡ (bss, rest)
packets_of-frames bss rest h e =
    decode-frames (suc (length (frames bss ++ rest))) bss rest h e (omega arith)

-- The first packet of what more bytes follow.
first_packet-append :
    (xs ys : List ℕ) (n : ℕ)
    → word xs ≡ some n
    → 4 + n ≤ length xs
    → first_packet (xs ++ ys) ≡ some (take n (drop 4 xs), drop n (drop 4 xs) ++ ys)
first_packet-append xs ys n e h =
    first_packet-word (xs ++ ys) n (word-append xs ys (omega (arith, h)) ∙ e)
    ∙ ap (cut_packet n) (drop-within 4 xs ys (omega (arith, h)))
    ∙ cut_packet-whole n (drop 4 xs ++ ys)
        (omega (arith, h, length-append (drop 4 xs) ys, length-drop 4 xs))
    ∙ ap (λ zs. some (zs, drop n (drop 4 xs ++ ys)))
        (take-within n (drop 4 xs) ys (omega (arith, h, length-drop 4 xs)))
    ∙ ap (λ zs. some (take n (drop 4 xs), zs))
        (drop-within n (drop 4 xs) ys (omega (arith, h, length-drop 4 xs)))

-- The packets found first, and those of what was left with more bytes behind it.
abbrev pub join : List (List ℕ) × List ℕ → List ℕ → List (List ℕ) × List ℕ
join r ys = (r.0 ++ (packets_of (r.1 ++ ys)).0, (packets_of (r.1 ++ ys)).1)

decode-join :
    (f : ℕ) (xs ys : List ℕ) → length xs < f → packets_of (xs ++ ys) ≡ join (decode f xs) ys
decode-join zero xs ys h = absurd (omega arith)
decode-join (suc f) xs ys h = elim (view xs) [
  | short _ e ↦ ap (λ r. join r ys) (sym (decode-none f xs e))
  | partial _ _ _ _ _ e ↦ ap (λ r. join r ys) (sym (decode-none f xs e))
  | whole n w b le e ↦
      let l = length-drop n (drop 4 xs) in
      let l' = length-drop 4 xs in
      let a = length-append xs ys in
      let a' = length-append (drop n (drop 4 xs)) ys in
      decode-some (length (xs ++ ys)) (xs ++ ys) _ _ (first_packet-append xs ys n w le)
      ∙ ap (behind (take n (drop 4 xs))) (
          decode-fuel (length (xs ++ ys)) (suc (length (drop n (drop 4 xs) ++ ys))) _
            (omega (arith, l, l', a, a', le)) (omega arith)
          ∙ decode-join f (drop n (drop 4 xs)) ys (omega (arith, l, l', h, le)))
      ∙ ap (λ r. join r ys) (sym (decode-some f xs _ _ e))
]

pub packets_of-append : (xs ys : List ℕ) → packets_of (xs ++ ys) ≡ join (packets_of xs) ys
packets_of-append xs ys = decode-join (suc (length xs)) xs ys (omega arith)
