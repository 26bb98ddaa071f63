-- ===== src/Pool/Wakeup/Stop.antt =====
-- "Stop and free all resources." of on_wakeup in network_pool.cpp.
use network_pool.Common.{ℕ, Bool, false, List, [], ◌∷◌}
use network_pool.Node.{Node}
use network_pool.Handle.{recv_stop, call}
use network_pool.Handle.Stream
use network_pool.Handle.Datagram
use network_pool.Pool.{
  Bytes, Pool, PendingSend, drop, bind_status, connection_status, notify, free, on_loop, tcp_node,
  udp_node,
}
use network_pool.Pool.Connection.{drop_bufs}

-- A `for` over a collection.
unfoldable pub each {ℓ} : {A : Type ℓ} → (A → Pool → Pool) → List A → Pool → Pool
each f [] p = p
each f (x ∷ xs) p = each f xs (f x p)

-- The bodies of the loops of "Stop and free all resources."
unfoldable pub stop_tcp_server : Node × ℕ → Pool → Pool
stop_tcp_server (n, t) p = on_loop (Stream.close t) (notify (bind_status n false) p)

unfoldable pub stop_udp_server : ℕ → Pool → Pool
stop_udp_server u p =
    on_loop (λ l. Datagram.close u (call (recv_stop u) l))
      (notify (bind_status (udp_node p u) false) p)

unfoldable pub stop_stream : ℕ → Pool → Pool
stop_stream t p = on_loop (Stream.close t) (notify (connection_status (tcp_node p t) false) p)

unfoldable pub stop_waiting : Node × List Bytes → Pool → Pool
stop_waiting (n, bufs) p = drop_bufs n bufs p

unfoldable pub refuse_bind : Node × Bool → Pool → Pool
refuse_bind (n, on) p = notify (bind_status n false) p

-- With the destructor's release of the buffer.
unfoldable pub refuse_send : PendingSend → Pool → Pool
refuse_send r p = free r.bytes (notify (drop r.node r.bytes) p)

unfoldable pub stop_stream_of : Node × ℕ → Pool → Pool
stop_stream_of (n, t) p = stop_stream t p

-- The loops themselves. Each table is moved to a local and cleared before its loop, but for the
-- waiting messages, which are cleared after theirs.
unfoldable pub stop_wakeup : Pool → Pool
stop_wakeup p = record (on_loop Datagram.close_wakeup p) { wakeup = false }

unfoldable pub stop_tcp_servers : Pool → Pool
stop_tcp_servers p = each stop_tcp_server p.tcp_servers (record p { tcp_servers = [] })

unfoldable pub stop_udp_servers : Pool → Pool
stop_udp_servers p = each stop_udp_server p.udp_servers (record p { udp_servers = [] })

unfoldable pub stop_streams : Pool → Pool
stop_streams p = each stop_stream_of p.node2stream (record p { node2stream = [] })

unfoldable pub stop_connecting : Pool → Pool
stop_connecting p = each stop_stream p.connecting (record p { connecting = [] })

unfoldable pub drop_all_waiting : Pool → Pool
drop_all_waiting p = record (each stop_waiting p.waiting_send p) { waiting_send = [] }

unfoldable pub stop_handles : Pool → Pool
stop_handles p =
    stop_connecting (stop_streams (stop_udp_servers (stop_tcp_servers (stop_wakeup p))))

-- "Stop and free all resources."
unfoldable pub stop_all : List (Node × Bool) → List PendingSend → Pool → Pool
stop_all binds sends p =
    each refuse_send sends (each refuse_bind binds (drop_all_waiting (stop_handles p)))
