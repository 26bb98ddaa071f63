-- ===== src/Tests/Witnesses.antt =====
-- The theorems at concrete inputs.
use network_pool.Common.{
  ℕ, ◌≡◌, ◌≢◌, refl, ap, ◌+◌, ◌<◌, ◌⊎◌, true, false, none, some, [], ◌∷◌, length, total, arith,
}
use network_pool.Node.{protocol_value, empty_node, set_node, node_eq, node_lt, rehash}
use network_pool.Node.Address.{init_raw, addr_hash, addr_eq, addr_lt, valid}
use network_pool.MemoryTrace
use network_pool.MemoryTrace.{size_limit, alloc_size, mallocs, serve_calls, new_trace, record_block}
use network_pool.MemoryTrace.Account.{Leaves, IsExact, serve_calls-IsExact}
use network_pool.Node.Equality.{node_lt_cases}
use network_pool.Node.Pair.{assign_pair, pair_eq, assign_pair-protocol}
use network_pool.Table.{find, has, insert, erase_at}
use network_pool.Handle.Stream
use network_pool.Pool.{tcp_node, notify, connection_status}
use network_pool.Pool.Api.{construct, send, sendable, queue_send, request_exit}
use network_pool.Pool.Connection.{
  stream_by_node, push_waiting, write_from_waiting, send_waiting, startup_connection, start_write,
  shutdown_connection,
}
use network_pool.Pool.Events.{on_connect_done, erase_connecting}
use network_pool.Pool.Setup.{connect_tcp, start_connect}
use network_pool.Pool.Step.{step, run}
use network_pool.Pool.Wakeup.{process_all, on_wakeup}
use network_pool.Pool.Wakeup.Stop.{each}
use network_pool.Pool.Wakeup.Send.{process_send, send_tcp, connect_for}
use network_pool.Pool.Messages.{owed, held}
use network_pool.Pool.Messages.Ledger.{submitted_by, settled_by, run-owed, run-held}
use network_pool.Pool.Status.{is_up, Sync}
use network_pool.Pool.Status.View.{ArePossible, run-Sync}
use network_pool.Pool.Shutdown.{IsUnique, shutdown_hides_other}
use network_pool.Pool.Shutdown.Twice.{shutdown_twice}
use network_pool.Pool.Exit.{IsEmpty, on_wakeup-IsEmpty}
use network_pool.Allocator.{serve_all, serve, alloc, take_block, is_direct, system_free}
use network_pool.Allocator
use network_pool.Allocator.Store.{IsBounded, IsOnce, times, AreOutside, serve_all-IsBounded}
use network_pool.Buffer.{threw, fault, set, assign, resize}
use network_pool.Buffer.Laws.{IsValid, Ends, Has, contents, set_lem, assign-set}
use network_pool.Buffer.Resize.{Resized, resize_lem}
use network_pool.Buffer.Throws.{set_after_throw}
use network_pool.Handle.Closing.{ClosesOnce, close-ClosesOnce}
use network_pool.WorkQueue.{
  seekers, start, notify_all, notify_one, push_task, set_exit, get_next, worker_step, thread_step,
  work_step, work, destroy,
}
use network_pool.WorkQueue.Account.{AreEnded, destroy-deletes}
use network_pool.WorkQueue.Order.{IsFifo, start-IsFifo}
use network_pool.Tests.Sample.{
  peer, other_peer, new_pool, greeting, history, connected_pool, tcp_pair, udp_pair, new_allocator,
  calls_of_it, three_bytes, fresh_bytes, longer, tasks_done,
}

run-owed_example :
    owed length (run history new_pool) + settled_by length history new_pool
    ≡ owed length new_pool + submitted_by length history new_pool
run-owed_example = run-owed length history new_pool

run-held_example :
    held length (run history new_pool) ≡ held length new_pool + submitted_by length history new_pool
run-held_example = run-held length history new_pool

new_pool-Sync : Sync peer new_pool
unfolding has is_up construct
new_pool-Sync = record { agrees = refl; linked = tt }

history-ArePossible : ArePossible history new_pool
unfolding run step construct send sendable queue_send on_wakeup process_all each process_send
    send_tcp stream_by_node find has connect_for connect_tcp start_connect Stream.alloc
    Stream.init_tcp Stream.init_timer Stream.finish_alloc Stream.set_tcp push_waiting insert
    on_connect_done erase_connecting startup_connection send_waiting write_from_waiting start_write
    erase_at set_node init_raw rehash addr_hash node_eq addr_eq valid
history-ArePossible = (tt, (tt, (omega arith, (tt, tt))))

run-Sync_example : Sync peer (run history new_pool)
run-Sync_example = run-Sync peer history new_pool new_pool-Sync history-ArePossible

stopping-Sync : Sync peer (request_exit connected_pool)
unfolding construct has is_up node_eq addr_eq request_exit set_node init_raw rehash addr_hash
stopping-Sync = record { agrees = refl; linked = (refl, omega arith, tt) }

stopping-wants : (request_exit connected_pool).want_exit ≡ true
unfolding request_exit
stopping-wants = refl

on_wakeup-IsEmpty_example : IsEmpty peer (on_wakeup (request_exit connected_pool))
on_wakeup-IsEmpty_example =
    on_wakeup-IsEmpty peer (request_exit connected_pool) stopping-wants stopping-Sync

connected-IsUnique : IsUnique connected_pool.waiting_send
unfolding construct
connected-IsUnique = tt

shutdown_twice_example :
    shutdown_connection 0 true true (shutdown_connection 0 false false connected_pool)
    ≡ notify (connection_status peer false) (shutdown_connection 0 false false connected_pool)
shutdown_twice_example =
    shutdown_twice 0 false false true true connected_pool connected-IsUnique refl (λ e. refl)

peer_differs : ◌≢◌ {A = ℕ} 1 0
peer_differs = λ e. absurd (omega arith)

hidden : stream_by_node (tcp_node connected_pool 1) connected_pool ≡ some 0
unfolding stream_by_node find node_eq addr_eq set_node init_raw rehash addr_hash
hidden = refl

shutdown_hides_other_example :
    (stream_by_node peer (shutdown_connection 1 true false connected_pool) ≡ none)
    × (is_up peer (shutdown_connection 1 true false connected_pool).notices ≡ false)
    × ((shutdown_connection 1 true false connected_pool).loop.tcps 0 ≡ connected_pool.loop.tcps 0)
shutdown_hides_other_example =
    shutdown_hides_other 1 0 true false connected_pool peer_differs hidden

node_lt_cases_example :
    ((node_lt peer other_peer ≡ true)
      × (node_lt other_peer peer ≡ false)
      × (node_eq peer other_peer ≡ false))
    ⊎ ((node_lt peer other_peer ≡ false)
        × (node_lt other_peer peer ≡ true)
        × (node_eq peer other_peer ≡ false))
    ⊎ ((node_lt peer other_peer ≡ false)
        × (node_lt other_peer peer ≡ false)
        × (node_eq peer other_peer ≡ true))
node_lt_cases_example = node_lt_cases peer other_peer

peers_ordered : node_lt empty_node peer ≡ true
unfolding node_lt empty_node set_node init_raw rehash addr_hash
peers_ordered = refl

others_ordered : node_lt peer other_peer ≡ true
unfolding node_lt addr_lt set_node init_raw rehash addr_hash
others_ordered = refl

protocols_differ : tcp_pair.protocol ≢ udp_pair.protocol
protocols_differ = λ e. absurd (omega (arith, ap protocol_value e))

assign_pair-protocol_example :
    (pair_eq (assign_pair tcp_pair udp_pair) udp_pair ≡ true)
    × ((assign_pair tcp_pair udp_pair).protocol ≢ udp_pair.protocol)
assign_pair-protocol_example = assign_pair-protocol tcp_pair udp_pair protocols_differ

three_bytes-IsValid : IsValid three_bytes
three_bytes-IsValid = record { owns = refl; fits = omega arith }

set_lem_example :
    Ends
      (Has longer)
      ((some fresh_bytes ≡ none) × (three_bytes.max_length < length longer))
      (set longer (some fresh_bytes) three_bytes)
set_lem_example = set_lem longer (some fresh_bytes) three_bytes three_bytes-IsValid refl

assign-set_example :
    assign three_bytes (some fresh_bytes) three_bytes
    ≡ set (contents three_bytes) (some fresh_bytes) three_bytes
assign-set_example = assign-set three_bytes (some fresh_bytes) three_bytes three_bytes-IsValid

resize_lem_example :
    Ends
      (Resized 4 2 three_bytes)
      ((some fresh_bytes ≡ none) × (three_bytes.max_length < 4))
      (resize 4 2 (some fresh_bytes) three_bytes)
resize_lem_example =
    resize_lem 4 2 2 (some fresh_bytes) three_bytes three_bytes-IsValid refl (omega arith)
      (omega arith) (omega arith)

set_after_throw_example :
    (set longer none three_bytes ≡ threw (record three_bytes { memory = none }))
    × (set greeting none (record three_bytes { memory = none }) ≡ fault)
set_after_throw_example =
    set_after_throw longer greeting none three_bytes (omega arith) (omega arith) (omega arith)

close-ClosesOnce_example : ClosesOnce 0 connected_pool.loop
close-ClosesOnce_example = close-ClosesOnce 0 connected_pool.loop refl refl refl refl

tasks_done-AreEnded : AreEnded (work tasks_done (start 2)).workers
unfolding work start seekers work_step push_task notify_one notify_all set_exit thread_step
    worker_step get_next
tasks_done-AreEnded = (refl, (refl, tt))

destroy-deletes_example :
    (total (λ t. t) (destroy (work tasks_done (start 2))).deleted
      ≡ total (λ t. t) (work tasks_done (start 2)).pushed)
    × (total (λ t. t) (work tasks_done (start 2)).ran
        ≡ total (λ t. t) (work tasks_done (start 2)).taken)
destroy-deletes_example = destroy-deletes (λ t. t) 2 tasks_done tasks_done-AreEnded

start-IsFifo_example : IsFifo (work tasks_done (start 2))
start-IsFifo_example = start-IsFifo 2 tasks_done

new_allocator-IsBounded : IsBounded new_allocator
new_allocator-IsBounded = record { counts = λ s. refl; bounds = λ s. omega arith }

new_allocator-IsOnce : IsOnce new_allocator
unfolding times
new_allocator-IsOnce = record { once = λ q s. omega arith; apart = λ q s o ne pos. refl }

calls-AreOutside : AreOutside calls_of_it new_allocator
unfolding times serve alloc take_block Allocator.free is_direct system_free
calls-AreOutside = ((λ s. refl), ((λ s. ground arith), ((λ s. ground arith), tt)))

serve_all-IsBounded_example :
    IsBounded (serve_all calls_of_it new_allocator) × IsOnce (serve_all calls_of_it new_allocator)
serve_all-IsBounded_example =
    serve_all-IsBounded calls_of_it new_allocator calls-AreOutside new_allocator-IsBounded
      new_allocator-IsOnce

serve_calls-IsExact_example : Leaves IsExact (
    serve_calls
      (mallocs 16 (some 1) ∷ mallocs 4 (some 2) ∷ MemoryTrace.frees (some 1) ∷ [])
      (some new_trace))
serve_calls-IsExact_example =
    serve_calls-IsExact (mallocs 16 (some 1) ∷ mallocs 4 (some 2) ∷ MemoryTrace.frees (some 1) ∷ [])
