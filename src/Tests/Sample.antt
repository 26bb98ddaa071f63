-- ===== src/Tests/Sample.antt =====
-- A pool in which every call of libuv succeeds, a node, and a history.
use network_pool.Common.{ℕ, ◌≡◌, refl, true, false, none, some, List, [], ◌∷◌}
use network_pool.Node.{Node, tcp, udp, empty_node, set_node, rehash}
use network_pool.Node.Address.{unset, raw4, in4, init_raw, addr_hash, addr_eq, valid}
use network_pool.Node.{node_eq}
use network_pool.Node.Pair.{NetworkPair}
use network_pool.Allocator.{Allocator, Request, allocs, frees}
use network_pool.Buffer.{Buffer}
use network_pool.WorkQueue.{WorkQueue, pushes, steps, exits}
use network_pool.WorkQueue
use network_pool.Table.{find, has, insert, erase_at}
use network_pool.Handle.{Loop, default_settings}
use network_pool.Handle.Stream
use network_pool.Pool.{Pool, Bytes, connection_status}
use network_pool.Pool.Api.{construct, send, sendable, queue_send}
use network_pool.Pool.Connection.{
  stream_by_node, push_waiting, write_from_waiting, send_waiting, startup_connection, start_write,
}
use network_pool.Pool.Events.{
  on_connect_done, erase_connecting, take_write, on_tcp_write_done, reset_if_open,
  reset_idle_timeout, free_each,
}
use network_pool.Pool.Setup.{connect_tcp, start_connect}
use network_pool.Pool.Step.{Input, sends, wakes, connect_done, write_done, finish_write, step, run}
use network_pool.Pool.Wakeup.{process_all, on_wakeup}
use network_pool.Pool.Wakeup.Stop.{each}
use network_pool.Pool.Wakeup.Send.{process_send, send_tcp, connect_for}

abbrev pub quiet_loop : Loop
quiet_loop = record {
  tcps = λ t. record {
    tcp_inited = false;
    timer_inited = false;
    closing = false;
    shut_down = false;
    deleted = false;
    node = empty_node;
  };
  udps = λ u. record { inited = false; closing = false; deleted = false; node = empty_node };
  async = record { inited = true; closing = false; deleted = false };
  fresh = 0;
  answers = λ k. 0;
  calls = [];
}

abbrev pub peer : Node
peer = (set_node tcp (raw4 80 7) 16).0

abbrev pub new_pool : Pool
new_pool = construct default_settings quiet_loop

abbrev pub greeting : Bytes
greeting = 104 ∷ 105 ∷ []

abbrev pub history : List Input
history = sends peer (some greeting) true ∷ wakes ∷ connect_done 0 0 ∷ write_done 0 0 ∷ []

-- The message waits for the connection, which is then reported and written to.
connects : (run history new_pool).notices ≡ connection_status peer true ∷ []
unfolding run step construct send sendable queue_send on_wakeup process_all each process_send
    send_tcp stream_by_node find has connect_for connect_tcp start_connect Stream.alloc
    Stream.init_tcp Stream.init_timer Stream.finish_alloc Stream.set_tcp push_waiting insert
    on_connect_done erase_connecting startup_connection send_waiting write_from_waiting start_write
    erase_at set_node init_raw rehash addr_hash node_eq addr_eq valid finish_write take_write
    on_tcp_write_done reset_if_open reset_idle_timeout free_each
connects = refl

-- A pool with one connection, to `peer`, on the handle 0; the handle 1 has the same node.
abbrev pub connected_pool : Pool
connected_pool = record new_pool {
  loop = record quiet_loop {
    tcps = λ t. record {
      tcp_inited = true;
      timer_inited = true;
      closing = false;
      shut_down = false;
      deleted = false;
      node = peer;
    };
    fresh = 2;
  };
  node2stream = (peer, 0) ∷ [];
  notices = connection_status peer true ∷ [];
}

abbrev pub other_peer : Node
other_peer = (set_node tcp (raw4 81 7) 16).0

abbrev pub tcp_pair : NetworkPair
tcp_pair = record { protocol = tcp; local = unset; remote = in4 80 7; hash = 458832 }

abbrev pub udp_pair : NetworkPair
udp_pair = record { protocol = udp; local = unset; remote = in4 81 7; hash = 2490449 }

-- A buffer with room for three bytes, of which two are valid.
abbrev pub three_bytes : Buffer
three_bytes = record { trace = 0; memory = some (1 ∷ 2 ∷ 3 ∷ []); length = 2; max_length = 3 }

-- Memory as it may come from the allocator, and bytes of that size.
abbrev pub fresh_bytes : List ℕ
fresh_bytes = 9 ∷ 9 ∷ 9 ∷ 9 ∷ []

abbrev pub longer : List ℕ
longer = 4 ∷ 5 ∷ 6 ∷ 7 ∷ []

-- Two threads and three tasks, of which the last is still queued at the exit.
abbrev pub tasks_done : List WorkQueue.Input
tasks_done =
    pushes 5 0
    ∷ steps 0
    ∷ pushes 6 0
    ∷ pushes 7 0
    ∷ steps 1
    ∷ steps 1
    ∷ exits
    ∷ steps 0
    ∷ steps 0
    ∷ steps 1
    ∷ []

abbrev pub stopped_queue : WorkQueue
stopped_queue = record {
  exit = true;
  tasks = 8 ∷ [];
  workers = [];
  pushed = 7 ∷ 8 ∷ [];
  taken = 7 ∷ [];
  ran = [];
  deleted = [];
}

-- An allocator that stores two blocks of each size, and calls of it.
abbrev pub new_allocator : Allocator
new_allocator = record { store = λ s. []; count = λ s. 0; max_number = λ s. 2; freed = [] }

abbrev pub calls_of_it : List Request
calls_of_it =
    allocs 16 (some 1)
    ∷ allocs 16 (some 2)
    ∷ frees (some 1) 16
    ∷ frees (some 2) 16
    ∷ frees (some 3) 16
    ∷ allocs 16 none
    ∷ []
