-- ===== src/Peer/Packets.antt =====
-- `getContent` of peer_server.h, for a connection and for a datagram.
use network_pool.Common.{
  ℕ, ◌+◌, ◌-◌, ◌≤◌, ◌<◌, ◌≡◌, refl, sym, ◌∙◌, ap, subst, Bool, Bool-cases, if◌then◌else◌, none,
  List, [], ◌++◌, arith, length, take, take-all, drop, ltb-cases, inl, inr,
}
use network_pool.Http.{bytes_in}
use network_pool.Http.Content.Next.{memory_size_lem, moved_bytes, take-move_down, length-move_down}
use network_pool.Peer.{
  PeerContext, decode_data, keep_rest, Unpacking, unpacked, raised, strayed, get_packets,
}
use network_pool.Peer.Frames.{first_packet, packets_of, frames}
use network_pool.Peer.Loop.{all_room, roomed, pushes, scan_all}
use network_pool.Peer.Rounds.{half_limit, ahead}
use network_pool.Peer.RoundTrip.{AreSmall, packets_of-frames, packets_of-append}

-- The bytes that a connection has received and not decoded yet.
abbrev pub received : PeerContext → List ℕ
received c = take c.now_index (bytes_in c.buffer.memory)

-- What has been received is in the memory.
pub record IsHeld (c : PeerContext) : Type 0 where
  pub stored : c.now_index ≤ length (bytes_in c.buffer.memory)
  pub small : c.now_index < half_limit

-- Where there is memory for all packets, they are given, and what is left is kept, at the front of
-- the same memory; where there is none for one of them, an exception leaves the context as it was.
pub record Gives (room : ℕ → Bool) (c : PeerContext) (o : Unpacking) : Type 0 where
  pub after : PeerContext
  pub gives : o ≡ (
      if all_room room (packets_of (received c)).0
      then unpacked (packets_of (received c)).0 after
      else raised (roomed room (packets_of (received c)).0) c)
  pub left : received after ≡ (packets_of (received c)).1
  pub held : IsHeld after
  pub fewer : after.now_index ≤ c.now_index

keep_rest_lem :
    (c : PeerContext) (end : ℕ)
    → IsHeld c
    → end ≤ c.now_index
    → (received (keep_rest end c) ≡ ahead (bytes_in c.buffer.memory) c.now_index end)
      × IsHeld (keep_rest end c)
      × ((keep_rest end c).now_index ≤ c.now_index)
unfolding keep_rest drop
keep_rest_lem c end h le = elim (ltb-cases 0 end) [
  | inl (t, pos) ↦
      let mem = bytes_in c.buffer.memory in
      let size = memory_size_lem c.buffer.memory in
      let mv =
        moved_bytes end (c.now_index - end) c.buffer.memory
          (omega (arith, size, pos, le, h.stored)) in
      let fits : end + (c.now_index - end) ≤ length mem = omega (arith, le, h.stored) in
      rw t (
        ap (take (c.now_index - end)) mv ∙ take-move_down end (c.now_index - end) mem fits,
        record {
          stored =
              omega
                (arith, ap length mv, length-move_down end (c.now_index - end) mem fits, h.stored);
          small = omega (arith, h.small);
        },
        omega arith,
      )
  | inr (t, z) ↦
      let none_read : 0 ≡ end = omega (arith, z) in
      let all : c.now_index ≡ c.now_index - 0 = omega arith in
      rw t (
        ap (λ k. take k (bytes_in c.buffer.memory)) all
            ∙ ap (ahead (bytes_in c.buffer.memory) c.now_index) none_read,
        h,
        omega arith,
      )
]

-- `getContent` of a connection that holds what it has received makes no access outside of the
-- memory. Where there is memory for each packet, it finds exactly the packets of those bytes and
-- keeps exactly the bytes after them. Where there is not, it throws at the first packet without
-- memory, with the packets before that one in the vector, and the context as it was.
pub get_packets_lem :
    (room : ℕ → Bool) (c : PeerContext) → IsHeld c → Gives room c (get_packets room c)
unfolding get_packets
get_packets_lem room c h =
    let f = scan_all (bytes_in c.buffer.memory) c.now_index h.stored h.small room in
    let k = keep_rest_lem c f.end h f.ends in
    record {
      after = keep_rest f.end c;
      gives = elim (Bool-cases (all_room room (packets_of (received c)).0)) [
        | inl t ↦ rw (get_packets, f.scans, t) refl
        | inr t ↦ rw (get_packets, f.scans, t) refl
      ];
      left = k.0 ∙ sym f.rest;
      held = k.1;
      fewer = k.2;
    }

-- For packets of less than 2 ^ 32 bytes that were each put behind their length, with at most an
-- incomplete packet after them, `getContent` of a datagram ends as pushing them in their order does:
-- with all of them, or by an exception at the first for which there is no memory.
pub decode_data-frames :
    (room : ℕ → Bool) (bss : List (List ℕ)) (rest : List ℕ)
    → AreSmall bss
    → first_packet rest ≡ none
    → length (frames bss ++ rest) < half_limit
    → (end : ℕ) × (decode_data room (frames bss ++ rest) (length (frames bss ++ rest))
        ≡ pushes room bss end)
unfolding decode_data
decode_data-frames room bss rest s e m =
    let xs = frames bss ++ rest in
    let f = scan_all xs (length xs) (omega arith) m room in
    (
      f.end,
      f.scans
          ∙ ap (λ r. pushes room r.0 f.end)
              (ap packets_of (take-all xs) ∙ packets_of-frames bss rest s e),
    )

-- The packets and the context of a call that gave them.
module _ (room : ℕ → Bool) (c after : PeerContext) (bss : List (List ℕ)) where
  unpacked_by :
      (g : Gives room c (unpacked bss after))
      → ((packets_of (received c)).0 ≡ bss) × (received after ≡ (packets_of (received c)).1)
  unpacked_by g = elim (Bool-cases (all_room room (packets_of (received c)).0)) [
    | inl t ↦
        let e = rw t at g.gives in (ap packets (sym e), ap (λ o. received (context o)) e ∙ g.left)
    | inr t ↦ absurd (cc (rw t at g.gives))
  ]
    where
      packets : Unpacking → List (List ℕ)
      packets (unpacked ps d) = ps
      packets (raised ps d) = ps
      packets strayed = []

      context : Unpacking → PeerContext
      context (unpacked ps d) = d
      context (raised ps d) = d
      context strayed = c

-- What a connection finds before and after more bytes arrive behind those it had left is together
-- what is found in all of the bytes at once, as in a datagram: where both calls of `getContent`
-- return, that of the datagram ends as pushing the packets of the first and those of the second
-- does.
pub get_packets-decode_data :
    (first second room : ℕ → Bool) (c d : PeerContext) (ys : List ℕ) (ps qs : List (List ℕ))
    (c' d' : PeerContext)
    → IsHeld c
    → IsHeld d
    → length (received c ++ ys) < half_limit
    → get_packets first c ≡ unpacked ps c'
    → received d ≡ received c' ++ ys
    → get_packets second d ≡ unpacked qs d'
    → (end : ℕ) × (decode_data room (received c ++ ys) (length (received c ++ ys))
        ≡ pushes room (ps ++ qs) end)
unfolding decode_data
get_packets-decode_data first second room c d ys ps qs c' d' h k m e r g =
    let xs = received c ++ ys in
    let f = scan_all xs (length xs) (omega arith) m room in
    let p = unpacked_by first c c' ps (subst (Gives first c) e (get_packets_lem first c h)) in
    let q = unpacked_by second d d' qs (subst (Gives second d) g (get_packets_lem second d k)) in
    let left : received d ≡ (packets_of (received c)).1 ++ ys = r ∙ ap (λ x. x ++ ys) p.1 in
    let behind : (packets_of ((packets_of (received c)).1 ++ ys)).0 ≡ qs =
      ap (λ x. (packets_of x).0) (sym left) ∙ q.0 in
    (
      f.end,
      f.scans
          ∙ ap (λ z. pushes room z.0 f.end)
              (ap packets_of (take-all xs) ∙ packets_of-append (received c) ys)
          ∙ ap (λ z. pushes room (z ++ (packets_of ((packets_of (received c)).1 ++ ys)).0) f.end)
              p.0
          ∙ ap (λ z. pushes room (ps ++ z) f.end) behind,
    )
