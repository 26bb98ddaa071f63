-- ===== src/Pool/Exit.antt =====
-- The wakeup that stops the pool: "Stop and free all resources." in on_wakeup of network_pool.cpp.
use network_pool.Common.{
  ℕ, ◌≡◌, refl, ap, subst, sym, ◌∙◌, Bool, true, false, List, [], ◌∷◌, if◌then◌else◌,
}
use network_pool.Node.{Node}
use network_pool.Table.{Table}
use network_pool.Pool.{Bytes, Pool, PendingSend}
use network_pool.Pool.Connection.{drop_bufs}
use network_pool.Pool.Wakeup.Stop.{
  each, stop_tcp_server, stop_udp_server, stop_stream_of, stop_stream, stop_waiting, refuse_bind,
  refuse_send, stop_wakeup, stop_tcp_servers, stop_udp_servers, stop_streams, stop_connecting,
  drop_all_waiting, stop_handles, stop_all,
}
use network_pool.Pool.Wakeup.{process_all, on_wakeup}
use network_pool.Pool.Messages.Buffers.{drop_bufs_lem}
use network_pool.Pool.Status.{is_up, Sync}
use network_pool.Pool.Status.Stops.{stop_all-Down}

-- The tables of the pool, but for the waiting messages.
pub record Tables : Type 0 where
  pub tcp_servers : Table ℕ
  pub udp_servers : List ℕ
  pub node2stream : Table ℕ
  pub connecting : List ℕ
  pub pending_bind : List (Node × Bool)
  pub pending_send : List PendingSend
  pub pending_close : List (Node × Bool)
  pub wakeup : Bool

abbrev pub tables : Pool → Tables
tables p = record {
  tcp_servers = p.tcp_servers;
  udp_servers = p.udp_servers;
  node2stream = p.node2stream;
  connecting = p.connecting;
  pending_bind = p.pending_bind;
  pending_send = p.pending_send;
  pending_close = p.pending_close;
  wakeup = p.wakeup;
}

-- A loop whose body leaves a part of the pool alone.
each-same {ℓ κ} :
    {A : Type ℓ} {B : Type κ} (g : Pool → B) (f : A → Pool → Pool)
    → ((a : A) (p : Pool) → g (f a p) ≡ g p)
    → (xs : List A) (p : Pool) → g (each f xs p) ≡ g p
unfolding each
each-same g f same [] p = refl
each-same g f same (x ∷ xs) p = each-same g f same xs (f x p) ∙ same x p

stop_tcp_servers-tables :
    (p : Pool) → tables (stop_tcp_servers p) ≡ record (tables p) { tcp_servers = [] }
unfolding stop_tcp_servers stop_tcp_server
stop_tcp_servers-tables p = each-same tables stop_tcp_server (λ (n, t) q. refl) p.tcp_servers _

stop_udp_servers-tables :
    (p : Pool) → tables (stop_udp_servers p) ≡ record (tables p) { udp_servers = [] }
unfolding stop_udp_servers stop_udp_server
stop_udp_servers-tables p = each-same tables stop_udp_server (λ u q. refl) p.udp_servers _

stop_streams-tables : (p : Pool) → tables (stop_streams p) ≡ record (tables p) { node2stream = [] }
unfolding stop_streams stop_stream_of stop_stream
stop_streams-tables p = each-same tables stop_stream_of (λ (n, t) q. refl) p.node2stream _

stop_connecting-tables :
    (p : Pool) → tables (stop_connecting p) ≡ record (tables p) { connecting = [] }
unfolding stop_connecting stop_stream
stop_connecting-tables p = each-same tables stop_stream (λ t q. refl) p.connecting _

drop_bufs-tables : (n : Node) (bs : List Bytes) (p : Pool) → tables (drop_bufs n bs p) ≡ tables p
drop_bufs-tables n bs p = ap tables (drop_bufs_lem n bs p)

drop_all_waiting-tables : (p : Pool) → tables (drop_all_waiting p) ≡ tables p
unfolding drop_all_waiting stop_waiting
drop_all_waiting-tables p =
    each-same tables stop_waiting (λ (n, bs) q. drop_bufs-tables n bs q) p.waiting_send p

refuse-tables :
    (binds : List (Node × Bool)) (sends : List PendingSend) (p : Pool)
    → tables (each refuse_send sends (each refuse_bind binds p)) ≡ tables p
unfolding refuse_send refuse_bind
refuse-tables binds sends p =
    each-same tables refuse_send (λ r q. refl) sends _
    ∙ each-same tables refuse_bind (λ (n, on) q. refl) binds p

refuse-waiting :
    (binds : List (Node × Bool)) (sends : List PendingSend) (p : Pool)
    → (each refuse_send sends (each refuse_bind binds p)).waiting_send ≡ p.waiting_send
unfolding refuse_send refuse_bind
refuse-waiting binds sends p =
    each-same (λ q. q.waiting_send) refuse_send (λ r q. refl) sends _
    ∙ each-same (λ q. q.waiting_send) refuse_bind (λ (n, on) q. refl) binds p

stop_handles-tables :
    (p : Pool)
    → tables (stop_handles p) ≡ record (tables p) {
      tcp_servers = [];
      udp_servers = [];
      node2stream = [];
      connecting = [];
      wakeup = false;
    }
unfolding stop_handles stop_wakeup
stop_handles-tables p =
    let p1 = stop_wakeup p in
    let p2 = stop_tcp_servers p1 in
    let p3 = stop_udp_servers p2 in
    stop_connecting-tables (stop_streams p3)
    ∙ ap {A = Tables} (λ x. record x { connecting = [] })
        (stop_streams-tables p3
          ∙ ap {A = Tables} (λ x. record x { node2stream = [] })
              (stop_udp_servers-tables p2
                ∙ ap {A = Tables} (λ x. record x { udp_servers = [] })
                    (stop_tcp_servers-tables p1)))

abbrev pub no_tables : Tables
no_tables = record {
  tcp_servers = [];
  udp_servers = [];
  node2stream = [];
  connecting = [];
  pending_bind = [];
  pending_send = [];
  pending_close = [];
  wakeup = false;
}

stop_all-tables :
    (binds : List (Node × Bool)) (sends : List PendingSend) (p : Pool)
    → tables (stop_all binds sends p) ≡ tables (stop_handles p)
unfolding stop_all
stop_all-tables binds sends p =
    refuse-tables binds sends (drop_all_waiting (stop_handles p))
    ∙ drop_all_waiting-tables (stop_handles p)

stop_all-waiting :
    (binds : List (Node × Bool)) (sends : List PendingSend) (p : Pool)
    → (stop_all binds sends p).waiting_send ≡ []
unfolding stop_all drop_all_waiting
stop_all-waiting binds sends p = refuse-waiting binds sends (drop_all_waiting (stop_handles p))

-- What is left of a pool that was stopped, as a node's client sees it.
pub record IsEmpty (n : Node) (p : Pool) : Type 0 where
  pub tables : tables p ≡ no_tables
  pub waiting : p.waiting_send ≡ []
  pub down : is_up n p.notices ≡ false

stop_all-IsEmpty :
    (n : Node) (binds : List (Node × Bool)) (sends : List PendingSend) (p : Pool)
    → p.pending_bind ≡ []
    → p.pending_send ≡ []
    → p.pending_close ≡ []
    → Sync n p
    → IsEmpty n (stop_all binds sends p)
stop_all-IsEmpty n binds sends p b s c h =
    let e = stop_all-tables binds sends p ∙ stop_handles-tables p in
    record {
      tables =
          e
          ∙ (λ i. record no_tables { pending_bind = b i; pending_send = s i; pending_close = c i });
      waiting = stop_all-waiting binds sends p;
      down = (stop_all-Down n binds sends p h).view;
    }

-- A wakeup after the destructor has asked for the exit leaves no server, no connection, no
-- connecting handle, no request and no waiting message. Where the client's view of a node agreed
-- with the table, the node is down in its view afterwards.
pub on_wakeup-IsEmpty :
    (n : Node) (p : Pool) → p.want_exit ≡ true → Sync n p → IsEmpty n (on_wakeup p)
unfolding on_wakeup
on_wakeup-IsEmpty n p e h =
    subst
      (λ b. IsEmpty n (
        if b
        then stop_all p.pending_bind p.pending_send q
        else process_all p.pending_bind p.pending_send p.pending_close q))
      (sym e)
      (stop_all-IsEmpty n p.pending_bind p.pending_send q refl refl refl
        (record { agrees = h.agrees; linked = h.linked }))
  where
    q : Pool
    q = record p { pending_bind = []; pending_send = []; pending_close = [] }
