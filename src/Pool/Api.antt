-- ===== src/Pool/Api.antt =====
-- The public members of CnetworkPool, network_pool.h, and internalThread of network_pool.cpp.
use network_pool.Common.{
  Bool, true, false, not, ◌&&◌, Option, none, some, [], ◌∷◌, ◌++◌, ltb, length, ◌==◌, if◌then◌else◌,
}
use network_pool.Node.{Node, Protocol, tcp, udp}
use network_pool.Handle.{Settings, Loop, allocate, loop_init, loop_close, answer, call, note}
use network_pool.Handle.Datagram
use network_pool.Pool.{Bytes, Pool, initializing, good, bad, on_loop}

-- `bind(node, bBind)`
unfoldable pub bind : Node → Bool → Pool → Pool
bind n on p = record p { pending_bind = p.pending_bind ++ (n, on) ∷ [] }

abbrev pub is_udp : Protocol → Bool
is_udp tcp = false
is_udp udp = true

-- The test of `send` before it queues the message: `none` is a null pointer.
unfoldable pub sendable : Node → Option Bytes → Bool
sendable n none = false
sendable n (some b) = not (length b == 0) && not (is_udp n.protocol && ltb 65507 (length b))

-- What `send` queues; where the copy of the data cannot be allocated the constructor throws.
unfoldable pub queue_send : Node → Bytes → Bool → Pool → Pool
queue_send n b auto p =
    let q = on_loop (call allocate) p in
    if not (answer p.loop == 0) then q else record q {
      pending_send = q.pending_send ++ record { node = n; bytes = b; auto_connect = auto } ∷ [];
    }

-- `send(node, data, length, bAutoConnect)`
unfoldable pub send : Node → Option Bytes → Bool → Pool → Pool
send n none auto p = p
send n (some b) auto p = if sendable n (some b) then queue_send n b auto p else p

-- `close(node, bForceClose)`
unfoldable pub close : Node → Bool → Pool → Pool
close n force p = elim n.protocol [
  | tcp ↦ record p { pending_close = p.pending_close ++ (n, force) ∷ [] }
  | udp ↦ p
]

-- `~CnetworkPool()`, before it joins the thread.
unfoldable pub request_exit : Pool → Pool
request_exit p = record p { want_exit = true }

-- `internalThread`, up to `uv_run`.
unfoldable pub start_thread : Pool → Pool
start_thread p =
    let q = on_loop (call loop_init) p in
    if not (answer p.loop == 0)
    then record q { state = bad }
    else let (created, l) = Datagram.alloc_async q.loop in
      if not created
      then record q { loop = note loop_close l; state = bad }
      else record q { loop = l; wakeup = true; state = good }

-- The constructor, before it starts the thread, on a loop with no handles.
unfoldable pub construct : Settings → Loop → Pool
construct s l = record {
  state = initializing;
  settings = s;
  want_exit = false;
  wakeup = false;
  pending_bind = [];
  pending_send = [];
  pending_close = [];
  udp_index = 0;
  tcp_servers = [];
  udp_servers = [];
  node2stream = [];
  connecting = [];
  waiting_send = [];
  loop = l;
  writes = [];
  udp_sends = [];
  next_request = 0;
  notices = [];
  freed = [];
}
