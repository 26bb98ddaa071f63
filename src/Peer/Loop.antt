-- ===== src/Peer/Loop.antt =====
-- The loop of `getContent` (peer_server.h) finds the packets of the bytes.
use network_pool.Common.{
  ℕ, zero, suc, ◌+◌, ◌-◌, ◌≤◌, ◌<◌, ◌≡◌, refl, sym, ◌∙◌, subst, ap, Bool, true, ◌&&◌, Bool-cases,
  if◌then◌else◌, List, [], ◌∷◌, arith, length, take, drop, length-take, inl, inr, none, some,
}
use network_pool.Peer.{next_packet, enough, Scan, scanned, threw_after, add_packet, later, scan}
use network_pool.Peer.Frames.{
  first_packet, decode, packets_of, short, partial, whole, view, decode-none, decode-some, behind,
}
use network_pool.Peer.Rounds.{
  ahead, half_limit, taken, length-ahead, ahead_next, ahead_packet, short_round, partial_round,
  whole_round,
}

-- Whether there is memory for each of the packets.
unfoldable pub all_room : (ℕ → Bool) → List (List ℕ) → Bool
all_room room [] = true
all_room room (bs ∷ bss) = room 0 && all_room (later room) bss

-- The packets before the first for which there is no memory.
unfoldable pub roomed : (ℕ → Bool) → List (List ℕ) → List (List ℕ)
roomed room [] = []
roomed room (bs ∷ bss) = if room 0 then bs ∷ roomed (later room) bss else []

-- The loop pushes all packets, or throws at the first for which there is no memory.
abbrev pub pushes : (ℕ → Bool) → List (List ℕ) → ℕ → Scan
pushes room bss end = if all_room room bss then scanned bss end else threw_after (roomed room bss)

pushes-packet :
    (room : ℕ → Bool) (bs : List ℕ) (bss : List (List ℕ)) (end : ℕ)
    → (if room 0 then add_packet bs (pushes (later room) bss end) else threw_after [])
      ≡ pushes room (bs ∷ bss) end
unfolding all_room roomed add_packet
pushes-packet room bs bss end = elim (Bool-cases (room 0)) [
  | inl e ↦ elim (Bool-cases (all_room (later room) bss)) [
    | inl a ↦ rw (e, a) refl
    | inr a ↦ rw (e, a) refl
  ]
  | inr e ↦ rw e refl
]

scan_enough :
    (room : ℕ → Bool) (f size now : ℕ) (mem : List ℕ)
    → next_packet (room 0) mem size now ≡ enough
    → scan room (suc f) mem size now ≡ scanned [] now
unfolding scan
scan_enough room f size now mem e = rw (scan, e) refl

scan_packet :
    (room : ℕ → Bool) (f size now next : ℕ) (mem bs : List ℕ)
    → next_packet (room 0) mem size now ≡ taken (room 0) bs next
    → scan room (suc f) mem size now
      ≡ (if room 0 then add_packet bs (scan (later room) f mem size next) else threw_after [])
unfolding scan
scan_packet room f size now next mem bs e = elim (Bool-cases (room 0)) [
  | inl t ↦ rw (scan, e, t) refl
  | inr t ↦ rw (scan, e, t) refl
]

-- The loop ends at a place, with the packets before it, or throws where there is no memory for one of
-- them; what is left stands behind the place.
pub record Finds (room : ℕ → Bool) (mem : List ℕ) (size now : ℕ) (r : List (List ℕ) × List ℕ)
    (s : Scan) : Type 0 where
  pub end : ℕ
  pub scans : s ≡ pushes room r.0 end
  pub starts : now ≤ end
  pub ends : end ≤ size
  pub rest : r.1 ≡ ahead mem size end

module _ (mem : List ℕ) (size : ℕ) (s : size ≤ length mem) (m : size < half_limit) where
  stops :
      (room : ℕ → Bool) (f now : ℕ)
      → now ≤ size
      → next_packet (room 0) mem size now ≡ enough
      → first_packet (ahead mem size now) ≡ none
      → Finds room mem size now
          (decode (suc f) (ahead mem size now))
          (scan room (suc f) mem size now)
  unfolding all_room
  stops room f now h e d =
      let r = decode-none f (ahead mem size now) d in
      record {
        end = now;
        scans = scan_enough room f size now mem e ∙ ap (λ q. pushes room q.0 now) (sym r);
        starts = omega arith;
        ends = h;
        rest = ap (λ q. q.1) r;
      }

  scan-Finds :
      (room : ℕ → Bool) (f now : ℕ)
      → now ≤ size
      → size - now < f
      → Finds room mem size now (decode f (ahead mem size now)) (scan room f mem size now)
  unfolding all_room roomed
  scan-Finds room zero now h lt = absurd (omega arith)
  scan-Finds room (suc f) now h lt =
      let l = length-ahead mem size s m now h in
      elim (view (ahead mem size now)) [
        | short lt' e ↦
            stops room f now h (short_round mem size s m (room 0) now h (omega (arith, l, lt', h)))
              e
        | partial n le w b lt' e ↦
            stops room f now h
              (partial_round mem size s m (room 0) now n (omega (arith, l, le, h)) w b
                (omega (arith, l, lt', h)))
              e
        | whole n w b le e ↦
            let fits : now + 4 + n ≤ size = omega (arith, l, le, h) in
            goes n fits (whole_round mem size s m (room 0) now n w b fits) e
              (scan-Finds (later room) f (now + 4 + n) fits (omega (arith, lt, fits)))
      ]
    where
      goes :
          (n : ℕ)
          → now + 4 + n ≤ size
          → next_packet (room 0) mem size now
            ≡ taken (room 0) (take n (drop (now + 4) mem)) (now + 4 + n)
          → first_packet (ahead mem size now)
            ≡ some (take n (drop 4 (ahead mem size now)), drop n (drop 4 (ahead mem size now)))
          → Finds
              (later room)
              mem
              size
              (now + 4 + n)
              (decode f (ahead mem size (now + 4 + n)))
              (scan (later room) f mem size (now + 4 + n))
          → Finds room mem size now
              (decode (suc f) (ahead mem size now))
              (scan room (suc f) mem size now)
      goes n fits e d k =
          let r : decode (suc f) (ahead mem size now)
              ≡ behind (take n (drop (now + 4) mem)) (decode f (ahead mem size (now + 4 + n))) =
            decode-some f (ahead mem size now) _ _ d
            ∙ ap (λ bs. behind bs (decode f (drop n (drop 4 (ahead mem size now)))))
                (ahead_packet mem size s m now n fits)
            ∙ ap (λ xs. behind (take n (drop (now + 4) mem)) (decode f xs))
                (ahead_next mem size s m now n fits) in
          record {
            end = k.end;
            scans =
                scan_packet room f size now (now + 4 + n) mem _ e
                ∙ ap
                    (λ x.
                      if room 0 then add_packet (take n (drop (now + 4) mem)) x else threw_after [])
                    k.scans
                ∙ pushes-packet room (take n (drop (now + 4) mem)) _ k.end
                ∙ ap (λ q. pushes room q.0 k.end) (sym r);
            starts = omega (arith, k.starts);
            ends = k.ends;
            rest = ap (λ q. q.1) r ∙ k.rest;
          }

  ahead_all : ahead mem size 0 ≡ take size mem
  unfolding drop
  ahead_all = let e : size - 0 ≡ size = omega arith in ap (λ k. take k mem) e

  -- The loop from the start.
  pub scan_all :
      (room : ℕ → Bool)
      → Finds room mem size 0 (packets_of (take size mem)) (scan room (suc size) mem size 0)
  scan_all room =
      subst (λ r. Finds room mem size 0 r (scan room (suc size) mem size 0)) same
        (scan-Finds room (suc size) 0 (omega arith) (omega arith))
    where
      same : decode (suc size) (ahead mem size 0) ≡ packets_of (take size mem)
      same =
          ap (decode (suc size)) ahead_all
          ∙ ap (λ k. decode (suc k) (take size mem)) (sym (length-take size mem s))
