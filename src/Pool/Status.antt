-- ===== src/Pool/Status.antt =====
-- What the callback object learns of the connections of CnetworkPool, against the table
-- m_node2stream (network_pool.cpp).
pub mod Links
pub mod Streams
pub mod Setups
pub mod Wakes
pub mod Stops
pub mod Steps
pub mod View
use network_pool.Common.{ℕ, ◌<◌, ◌≡◌, Bool, true, false, List, [], ◌∷◌, if◌then◌else◌}
use network_pool.Node.{Node, node_eq}
use network_pool.Table.{Table, has}
use network_pool.Handle.{Loop}
use network_pool.Handle.Extends.{Extends}
use network_pool.Pool.{
  Notice, allocate_memory, deallocate_memory, message, drop, bind_status, connection_status,
  tcp_listen_error, udp_send_error, udp_recv_error, Pool,
}

-- The last connectionStatus for the node, newest first: the connection is up as the client sees it.
unfoldable pub is_up : Node → List Notice → Bool
is_up n [] = false
is_up n (connection_status k on ∷ ns) = if node_eq k n then on else is_up n ns
is_up n (_ ∷ ns) = is_up n ns

-- The stream that is registered for a node is a handle with that node.
abbrev pub Linked : Loop → Table ℕ → Type 0
Linked l [] = Unit
Linked l ((k, t) ∷ es) = ((l.tcps t).node ≡ k) × (t < l.fresh) × Linked l es

-- The client's view of a node agrees with the table.
pub record Sync (n : Node) (p : Pool) : Type 0 where
  pub agrees : has n p.node2stream ≡ is_up n p.notices
  pub linked : Linked p.loop p.node2stream

-- A change that the view of the node and the table do not see.
pub record Calm (n : Node) (p q : Pool) : Type 0 where
  pub streams : q.node2stream ≡ p.node2stream
  pub view : is_up n q.notices ≡ is_up n p.notices
  pub loop : Extends p.loop q.loop
