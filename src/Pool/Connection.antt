-- ===== src/Pool/Connection.antt =====
-- The inline members of CnetworkPool at the end of network_pool.cpp.
use network_pool.Common.{
  ℕ, suc, Bool, true, false, not, ◌||◌, Option, none, some, List, [], ◌∷◌, ◌++◌, ◌==◌,
  if◌then◌else◌,
}
use network_pool.Node.{Node}
use network_pool.Node.Address.{valid}
use network_pool.Table.{find, has, insert, erase, erase_at, update_at}
use network_pool.Handle.{allocate, timer_start, write, answer, call, milliseconds}
use network_pool.Handle.Stream
use network_pool.Pool.{Bytes, Pool, drop, connection_status, notify, free, on_loop, tcp_node}

-- `getStreamByNode`
unfoldable pub stream_by_node : Node → Pool → Option ℕ
stream_by_node n p = find n p.node2stream

-- `drop` and `_free_set_nullptr` for each buffer.
unfoldable pub drop_bufs : Node → List Bytes → Pool → Pool
drop_bufs n [] p = p
drop_bufs n (b ∷ bs) p = drop_bufs n bs (free b (notify (drop n b) p))

-- `dropWaiting`
unfoldable pub drop_waiting : Node → Pool → Pool
drop_waiting n p = elim (find n p.waiting_send) [
  | none ↦ p
  | some bufs ↦ let q = drop_bufs n bufs p in record q { waiting_send = erase_at n q.waiting_send }
]

-- `pushWaiting`
unfoldable pub push_waiting : Node → Bytes → Pool → Pool
push_waiting n b p =
    if has n p.waiting_send
    then record p { waiting_send = update_at n (λ bufs. bufs ++ b ∷ []) p.waiting_send }
    else record p { waiting_send = insert n (b ∷ []) p.waiting_send }

-- `getWriteFromWaitingByNode`: the buffers of the new request; `none` is `nullptr`.
unfoldable pub write_from_waiting : Node → Pool → Option (List Bytes) × Pool
write_from_waiting n p = elim (find n p.waiting_send) [
  | none ↦ (none, p)
  | some bufs ↦
      let q = on_loop (call allocate) p in
      if not (answer p.loop == 0)
      then (none, drop_waiting n q)
      else (some bufs, record q { waiting_send = erase_at n q.waiting_send })
]

-- "Clean map." and "Report connection down.": the start of `shutdownTcpConnection_set_nullptr`.
unfoldable pub forget_stream : Node → Bool → Pool → Pool
forget_stream n always_notify p =
    let erased = has n p.node2stream in
    let q = record p { node2stream = erase n p.node2stream } in
    if erased || always_notify then notify (connection_status n false) q else q

-- `shutdownTcpConnection_set_nullptr(tcp, bAlwaysNotify, bShutdown)`
unfoldable pub shutdown_connection : ℕ → Bool → Bool → Pool → Pool
shutdown_connection t always_notify do_shutdown p =
    let n = tcp_node p t in
    let q = drop_waiting n (forget_stream n always_notify p) in
    if do_shutdown then on_loop (Stream.shutdown_and_close t) q else on_loop (Stream.close t) q

-- `uv_timer_start(tcp->getTimer(), on_tcp_timeout, seconds * 1000, 0)`
abbrev pub start_timer : ℕ → ℕ → Pool → Pool
start_timer t seconds = on_loop (call (timer_start t (milliseconds seconds)))

-- `uv_write` was called and succeeded: libuv holds the request until it calls back.
abbrev pub hold_write : ℕ → List Bytes → Pool → Pool
hold_write t bufs p = record p {
  writes = record { request = p.next_request; stream = t; bufs = bufs } ∷ p.writes;
  next_request = suc p.next_request;
}

-- `dropWriteAndFree_set_nullptr` on a request that was not handed over, and the shutdown that
-- follows each of its uses.
unfoldable pub drop_write_and_shutdown : Node → ℕ → List Bytes → Pool → Pool
drop_write_and_shutdown n t bufs p = shutdown_connection t false false (drop_bufs n bufs p)

-- "First reset timer and then send": `uv_timer_start(...) != 0 || uv_write(...) != 0`.
unfoldable pub start_write : Node → ℕ → List Bytes → Pool → Pool
start_write n t bufs p =
    let p1 = start_timer t p.settings.tcp_send_timeout_in_seconds p in
    let p2 = on_loop (call (write t bufs)) p1 in
    if not (answer p.loop == 0)
    then drop_write_and_shutdown n t bufs p1
    else if not (answer p1.loop == 0)
    then drop_write_and_shutdown n t bufs p2
    else hold_write t bufs p2

-- The end of `startupTcpConnection_may_set_nullptr`: "Send message waiting."
unfoldable pub send_waiting : Node → ℕ → Pool → Pool
send_waiting n t p =
    let (bufs?, q) = write_from_waiting n p in
    elim bufs? [ none ↦ q | some bufs ↦ start_write n t bufs q ]

-- `startupTcpConnection_may_set_nullptr`
unfoldable pub startup_connection : ℕ → Pool → Pool
startup_connection t p =
    let n = tcp_node p t in
    if not (valid n.sockaddr)
    then on_loop (Stream.close t) p
    else if has n p.node2stream
    then on_loop (Stream.close t) p
    else let p1 = record p { node2stream = insert n t p.node2stream } in
      send_waiting n t (notify (connection_status n true) p1)
