-- ===== src/Pool/Wakeup/Send.antt =====
-- The loops over the pending sends and closes in on_wakeup of network_pool.cpp. `default:` of the
-- switch is not reached: the enumeration has two values.
use network_pool.Common.{
  ℕ, zero, suc, ◌+◌, ◌%◌, Bool, true, false, not, ◌&&◌, none, some, List, [], ◌∷◌, ◌==◌, ltb,
  length, if◌then◌else◌,
}
use network_pool.Node.{Node, tcp, udp}
use network_pool.Table.{has}
use network_pool.Handle.{allocate, udp_send, answer, call}
use network_pool.Pool.{
  Pool, PendingSend, drop, connection_status, udp_send_error, notify, free, on_loop, udp_node,
}
use network_pool.Pool.Connection.{
  stream_by_node, drop_waiting, push_waiting, start_write, shutdown_connection, start_timer,
}
use network_pool.Pool.Setup.{connect_tcp}

-- No stream yet, the message just put in the waiting queue: connect if nothing waited before.
unfoldable pub connect_for : Node → Pool → Pool
connect_for n p =
    let (created, l) = connect_tcp p.settings n p.loop in
    let q = record p { loop = l } in
    elim created [
      | none ↦ drop_waiting n (notify (connection_status n false) q)
      | some t ↦ record q { connecting = t ∷ q.connecting }
    ]

-- The `case protocol_tcp` of the loop over the sends. A buffer that is not transferred is given
-- back by the destructor of `sendCopy`; here this is done at the end of its turn.
unfoldable pub send_tcp : PendingSend → Pool → Pool
send_tcp r p = elim (stream_by_node r.node p) [
  | none ↦
      let need_connect = not (has r.node p.waiting_send) in
      if need_connect && not r.auto_connect
      then free r.bytes (notify (drop r.node r.bytes) p)
      else (let q = push_waiting r.node r.bytes p in
          if need_connect then connect_for r.node q else q)
  | some t ↦
      let q = on_loop (call allocate) p in
      if not (answer p.loop == 0)
      then free r.bytes (notify (drop r.node r.bytes) q)
      else start_write r.node t (r.bytes ∷ []) q
]

-- `m_udpServers[i]`; the index is in range, so the default is not used.
unfoldable pub server_at : ℕ → List ℕ → ℕ
server_at i [] = 0
server_at zero (u ∷ us) = u
server_at (suc i) (u ∷ us) = server_at i us

-- The `case protocol_udp` of the loop over the sends.
unfoldable pub send_udp : PendingSend → Pool → Pool
send_udp r p =
    let count = length p.udp_servers in
    if not (ltb 0 count)
    then free r.bytes p
    else let q = on_loop (call allocate) p in
      if not (answer p.loop == 0)
      then free r.bytes q
      else let i = q.udp_index % count in
        let u = server_at i q.udp_servers in
        let q1 = record q { udp_index = i + 1 } in
        let q2 = on_loop (call (udp_send u r.bytes r.node)) q1 in
        let code = answer q1.loop in
        if not (code == 0)
        then notify (udp_send_error (udp_node q2 u) code) (free r.bytes q2)
        else record q2 {
          udp_sends =
              record { request = q2.next_request; socket = u; buf = r.bytes } ∷ q2.udp_sends;
          next_request = suc q2.next_request;
        }

unfoldable pub process_send : PendingSend → Pool → Pool
process_send r p = elim (r.node.protocol) [ tcp ↦ send_tcp r p | udp ↦ send_udp r p ]

-- The loop over the closes: one pending close.
unfoldable pub process_close : Node × Bool → Pool → Pool
process_close (n, force) p = elim (stream_by_node n p) [
  | none ↦ p
  | some t ↦
      if force
      then shutdown_connection t false false p
      else let q = start_timer t p.settings.tcp_send_timeout_in_seconds p in
        if not (answer p.loop == 0)
        then shutdown_connection t false false q
        else shutdown_connection t false true q
]
