-- ===== src/Handle/Stream.antt =====
-- Ctcp of uv_wrapper.cpp.
use network_pool.Common.{
  ℕ, suc, Bool, true, false, not, ◌&&◌, ◌||◌, Option, none, some, ◌==◌, if◌then◌else◌,
}
use network_pool.Node.{empty_node}
use network_pool.Handle.{
  Tcp, Loop, Settings, allocate, tcp_init, timer_init, tcp_nodelay, tcp_keepalive,
  simultaneous_accepts, send_buffer_size, recv_buffer_size, close_tcp, close_timer, shutdown_tcp,
  answer, call, note, put_tcp,
}

-- `Ctcp::close_set_nullptr`
unfoldable pub close : ℕ → Loop → Loop
close t l =
    let v = l.tcps t in
    if v.tcp_inited || v.timer_inited
    then (let l1 = if v.tcp_inited then note (close_tcp t) l else l in
        let l2 = if v.timer_inited then note (close_timer t) l1 else l1 in
        if not v.closing then put_tcp t (record v { closing = true }) l2 else l)
    else put_tcp t (record v { deleted = true }) l

-- The callback of `uv_close` on the stream.
unfoldable pub on_tcp_closed : ℕ → Loop → Loop
on_tcp_closed t l =
    let v = l.tcps t in
    put_tcp t (record v { tcp_inited = false; deleted = v.deleted || not v.timer_inited }) l

-- The callback of `uv_close` on the timer.
unfoldable pub on_timer_closed : ℕ → Loop → Loop
on_timer_closed t l =
    let v = l.tcps t in
    put_tcp t (record v { timer_inited = false; deleted = v.deleted || not v.tcp_inited }) l

-- `Ctcp::shutdown_and_close_set_nullptr`
unfoldable pub shutdown_and_close : ℕ → Loop → Loop
shutdown_and_close t l =
    let v = l.tcps t in
    if not v.tcp_inited
    then close t l
    else if not v.closing && not v.shut_down
    then (let l1 = call allocate l in
        if not (answer l == 0)
        then close t l1
        else let l2 = call (shutdown_tcp t) l1 in
          if not (answer l1 == 0) then close t l2 else put_tcp t (record v { shut_down = true }) l2)
    else l

-- The callback of `uv_shutdown`.
unfoldable pub on_shutdown_done : ℕ → Loop → Loop
on_shutdown_done t l = close t l

-- `setTcp`: whether it succeeds, and the loop afterwards.
unfoldable pub set_tcp : ℕ → Settings → Loop → Bool × Loop
set_tcp t s l =
    let l1 = call (tcp_nodelay t) l in
    if not (answer l == 0)
    then (false, l1)
    else let l2 = call (tcp_keepalive t) l1 in
      if not (answer l1 == 0)
      then (false, l2)
      else let l3 = call (simultaneous_accepts t) l2 in
        if not (answer l2 == 0)
        then (false, l3)
        else let size = s.tcp_send_buffer_size in
          let l4 = if not (size == 0) then call (send_buffer_size t size) l3 else l3 in
          let size' = s.tcp_recv_buffer_size in
          let l5 = if not (size' == 0) then call (recv_buffer_size t size') l4 else l4 in (true, l5)

abbrev new_tcp : Tcp
new_tcp = record {
  tcp_inited = false;
  timer_inited = false;
  closing = false;
  shut_down = false;
  deleted = false;
  node = empty_node;
}

-- The end of `Ctcp::alloc`: `setTcp`, and `_ec` where it fails.
unfoldable pub finish_alloc : ℕ → Settings → Loop → Option ℕ × Loop
finish_alloc t s l =
    let (done, l1) = set_tcp t s l in if not done then (none, close t l1) else (some t, l1)

-- The stages of `Ctcp::alloc` before that, each with its `_ec`.
unfoldable pub init_timer : ℕ → Settings → Loop → Option ℕ × Loop
init_timer t s l =
    let l1 = call (timer_init t) l in
    if not (answer l == 0)
    then (none, close t l1)
    else finish_alloc t s (put_tcp t (record (l1.tcps t) { timer_inited = true }) l1)

unfoldable pub init_tcp : ℕ → Settings → Bool → Loop → Option ℕ × Loop
init_tcp t s with_timer l =
    let l1 = call (tcp_init t) l in
    if not (answer l == 0)
    then (none, close t l1)
    else let l2 = put_tcp t (record (l1.tcps t) { tcp_inited = true }) l1 in
      if with_timer then init_timer t s l2 else finish_alloc t s l2

-- `Ctcp::alloc(pool, loop, initTimer)`
unfoldable pub alloc : Settings → Bool → Loop → Option ℕ × Loop
alloc s with_timer l =
    let l0 = call allocate l in
    if not (answer l == 0)
    then (none, l0)
    else let t = l.fresh in
      init_tcp t s with_timer (put_tcp t new_tcp (record l0 { fresh = suc t }))
