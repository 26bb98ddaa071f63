-- ===== src/Peer/Shrink.antt =====
-- `prepareBuffer` of peer_server.h under a maximal size that is small.
use network_pool.Common.{
  ℕ, ◌+◌, ◌-◌, ◌*◌, ◌%◌, ◌≤◌, ◌<◌, ◌≡◌, refl, ◌∙◌, ap, false, Option, none, some, List, arith, ◌==◌,
  if◌then◌else◌, ltb-cases, leb-cases, inl, inr,
}
use network_pool.Buffer.{done, resize}
use network_pool.Buffer.Laws.{IsValid, memory_size}
use network_pool.Http.{size_limit}
use network_pool.Peer.{
  PeerContext, Room, ready, with_buffer, room_of, init, next_length, grow, prepare_buffer,
}

module _ (c : PeerContext) (v : IsValid c.buffer) (pos : 0 < c.buffer.max_length)
    (small : c.buffer.max_length < 9223372036854775808) where
  begun : (c.buffer.max_length == 0) ≡ false
  begun = ground (arith, pos)

  room_lem : c.now_index ≤ c.buffer.length → room_of c ≡ c.buffer.length - c.now_index
  unfolding room_of
  room_lem h = omega (arith, h, small, v.fits)

  next_lem : c.max_buffer_size < c.buffer.length → next_length c ≡ c.max_buffer_size
  unfolding next_length
  next_lem lt = elim (ltb-cases c.max_buffer_size ((c.buffer.length * 2) % size_limit)) [
    | inl (t, _) ↦ rw t refl
    | inr (_, le) ↦ absurd (omega (arith, le, lt, small, v.fits))
  ]

  resize_within :
      (malloced : Option (List ℕ))
      → c.max_buffer_size ≤ c.buffer.max_length
      → resize c.max_buffer_size c.now_index malloced c.buffer
        ≡ done (record c.buffer { length = c.max_buffer_size })
  unfolding resize
  resize_within malloced le = elim (leb-cases c.max_buffer_size c.buffer.max_length) [
    | inl (t, _) ↦ rw (resize, t) refl
    | inr (_, lt) ↦ absurd (omega (arith, lt, le))
  ]

  init_lem : (first : Option (List ℕ)) (k : PeerContext → Room) → init first c k ≡ k c
  unfolding init
  init_lem first k = rw (init, begun) refl

  grow_lem :
      (more : Option (List ℕ)) (k : PeerContext → Room)
      → c.now_index ≤ c.buffer.length
      → c.buffer.length < c.now_index + 2048
      → c.max_buffer_size < c.now_index
      → grow more c k ≡ k (record c { buffer = record c.buffer { length = c.max_buffer_size } })
  unfolding grow with_buffer
  grow_lem more k h few lt = elim (ltb-cases (room_of c) 2048) [
    | inl (t, _) ↦
        rw
          (
            grow,
            t,
            next_lem (omega (arith, lt, h)),
            resize_within more (omega (arith, lt, h, v.fits)),
          )
          refl
    | inr (_, ge) ↦ absurd (omega (arith, ge, few, room_lem h))
  ]

-- Where less than 2048 bytes of room are left and more has been received than the maximal size,
-- which is below the length of the buffer, `prepareBuffer` shortens the buffer below what has been
-- received, and the room it reports, a difference below 0 that wraps, is larger than the memory.
pub prepare_buffer-wraps :
    (first more : Option (List ℕ)) (c : PeerContext)
    → IsValid c.buffer
    → c.buffer.max_length < 9223372036854775808
    → c.now_index ≤ c.buffer.length
    → c.buffer.length < c.now_index + 2048
    → c.max_buffer_size < c.now_index
    → (n : ℕ) × (prepare_buffer first more c
        ≡ ready
            (some c.now_index)
            n
            (record c { buffer = record c.buffer { length = c.max_buffer_size } }))
      × (memory_size c.buffer.memory < c.now_index + n)
      × (9223372036854775808 < n)
unfolding prepare_buffer room_of
prepare_buffer-wraps first more c v small h few lt =
    let pos : 0 < c.buffer.max_length = omega (arith, lt, h, v.fits) in
    let n : ℕ = (c.max_buffer_size + size_limit - c.now_index) % size_limit in
    let wraps : n ≡ c.max_buffer_size + size_limit - c.now_index =
      omega (arith, lt, small, v.fits, h) in
    (
      n,
      init_lem c v pos small first _
          ∙ grow_lem c v pos small more _ h few lt
          ∙ ap
              (λ b.
                ready (if b then none else some c.now_index) n
                  (record c { buffer = record c.buffer { length = c.max_buffer_size } }))
              (not_zero n (omega (arith, wraps, lt, small, v.fits, h))),
      omega (arith, wraps, v.owns, small, lt),
      omega (arith, wraps, lt, small, v.fits, h),
    )
  where
    not_zero : (k : ℕ) → 0 < k → (k == 0) ≡ false
    not_zero k p = ground arith
