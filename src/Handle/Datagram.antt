-- ===== src/Handle/Datagram.antt =====
-- Cudp and Casync of uv_wrapper.cpp.
use network_pool.Common.{ℕ, suc, Bool, true, false, not, Option, none, some, ◌==◌, if◌then◌else◌}
use network_pool.Node.{empty_node}
use network_pool.Handle.{
  Udp, Async, Loop, Settings, allocate, udp_init, udp_set_ttl, close_udp, async_init, close_async,
  answer, call, note, put_udp,
}

-- `Cudp::close_set_nullptr`
unfoldable pub close : ℕ → Loop → Loop
close u l =
    let v = l.udps u in
    if v.inited
    then (if not v.closing
        then put_udp u (record v { closing = true }) (note (close_udp u) l)
        else l)
    else put_udp u (record v { deleted = true }) l

-- The callback of `uv_close` on the socket.
unfoldable pub on_udp_closed : ℕ → Loop → Loop
on_udp_closed u l = put_udp u (record (l.udps u) { deleted = true }) l

abbrev new_udp : Udp
new_udp = record { inited = false; closing = false; deleted = false; node = empty_node }

-- `setUdp`
unfoldable pub set_udp : ℕ → Settings → Loop → Bool × Loop
set_udp u s l = (true, call (udp_set_ttl u) l)

-- `Cudp::alloc`
unfoldable pub alloc : Settings → Loop → Option ℕ × Loop
alloc s l =
    let l0 = call allocate l in
    if not (answer l == 0)
    then (none, l0)
    else let u = l.fresh in
      let l1 = put_udp u new_udp (record l0 { fresh = suc u }) in
      let l2 = call (udp_init u) l1 in
      if not (answer l1 == 0)
      then (none, put_udp u (record new_udp { deleted = true }) l2)
      else let (done, l3) = set_udp u s (put_udp u (record new_udp { inited = true }) l2) in
        if not done then (none, close u l3) else (some u, l3)

abbrev new_async : Async
new_async = record { inited = false; closing = false; deleted = false }

-- `Casync::alloc`: whether there is an object, and the loop afterwards.
unfoldable pub alloc_async : Loop → Bool × Loop
alloc_async l =
    let l0 = call allocate l in
    if not (answer l == 0)
    then (false, l0)
    else let l1 = call async_init l0 in
      if not (answer l0 == 0)
      then (false, record l1 { async = record new_async { deleted = true } })
      else (true, record l1 { async = record new_async { inited = true } })

-- `Casync::close_set_nullptr`
unfoldable pub close_wakeup : Loop → Loop
close_wakeup l =
    let v = l.async in
    if v.inited
    then (if not v.closing
        then record (note close_async l) { async = record v { closing = true } }
        else l)
    else record l { async = record v { deleted = true } }

-- The callback of `uv_close` on the async handle.
unfoldable pub on_async_closed : Loop → Loop
on_async_closed l = record l { async = record (l.async) { deleted = true } }
