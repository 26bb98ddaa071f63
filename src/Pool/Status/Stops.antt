-- ===== src/Pool/Status/Stops.antt =====
-- on_wakeup keeps the client's view in agreement, also where it stops everything.
use network_pool.Common.{
  ℕ, ◌≡◌, refl, ap, subst, sym, inl, inr, ◌∙◌, Bool, false, List, [], ◌∷◌, arith, Bool-cases,
  if_both,
}
use network_pool.Node.{Node, node_eq}
use network_pool.Table.{Table, has}
use network_pool.Handle.{recv_stop}
use network_pool.Handle.Datagram
use network_pool.Handle.Extends.{Extends, Extends-refl, Extends-trans, call-Extends, close-Extends}
use network_pool.Pool.{Bytes, Pool, PendingSend}
use network_pool.Pool.Wakeup.Bind.{process_bind}
use network_pool.Pool.Wakeup.Send.{process_send, process_close}
use network_pool.Pool.Wakeup.Stop.{
  each, stop_tcp_server, stop_udp_server, stop_stream_of, stop_stream, stop_waiting, refuse_bind,
  refuse_send, stop_wakeup, stop_tcp_servers, stop_udp_servers, stop_streams, stop_connecting,
  drop_all_waiting, stop_handles, stop_all,
}
use network_pool.Pool.Wakeup.{process_all, on_wakeup}
use network_pool.Pool.Status.{is_up, Linked, Sync, Calm}
use network_pool.Pool.Status.Links.{
  Linked-Extends, Calm-refl, Calm-trans, Sync-Calm, drop_bufs-Calm,
}
use network_pool.Pool.Status.Setups.{udp_close-Extends}
use network_pool.Pool.Status.Wakes.{process_bind-Sync, process_send-Sync, process_close-Sync}

module _ (n : Node) where
  each-Calm {ℓ} :
      {A : Type ℓ} (f : A → Pool → Pool)
      → ((a : A) (p : Pool) → Calm n p (f a p))
      → (xs : List A) (p : Pool) → Calm n p (each f xs p)
  unfolding each
  each-Calm f calm [] p = Calm-refl n p
  each-Calm f calm (x ∷ xs) p = Calm-trans (calm x p) (each-Calm f calm xs (f x p))

  each-Sync {ℓ} :
      {A : Type ℓ} (f : A → Pool → Pool)
      → ((a : A) (p : Pool) → Sync n p → Sync n (f a p))
      → (xs : List A) (p : Pool) → Sync n p
      → Sync n (each f xs p)
  unfolding each
  each-Sync f sync [] p h = h
  each-Sync f sync (x ∷ xs) p h = each-Sync f sync xs (f x p) (sync x p h)

  process_all-Sync :
      (binds : List (Node × Bool)) (sends : List PendingSend) (closes : List (Node × Bool))
      (p : Pool)
      → Sync n p
      → Sync n (process_all binds sends closes p)
  unfolding process_all
  process_all-Sync binds sends closes p h =
      each-Sync process_close (process_close-Sync n) closes _ (
        each-Sync process_send (process_send-Sync n) sends _
          (each-Sync process_bind (process_bind-Sync n) binds p h))

  stop_tcp_server-Calm : (e : Node × ℕ) (p : Pool) → Calm n p (stop_tcp_server e p)
  unfolding stop_tcp_server is_up
  stop_tcp_server-Calm (k, t) p = record {
    streams = refl;
    view = refl;
    loop = close-Extends t p.loop;
  }

  stop_udp_server-Calm : (u : ℕ) (p : Pool) → Calm n p (stop_udp_server u p)
  unfolding stop_udp_server is_up
  stop_udp_server-Calm u p = record {
    streams = refl;
    view = refl;
    loop = Extends-trans (call-Extends (recv_stop u) p.loop) (udp_close-Extends u _);
  }

  stop_waiting-Calm : (e : Node × List Bytes) (p : Pool) → Calm n p (stop_waiting e p)
  unfolding stop_waiting
  stop_waiting-Calm (k, bs) p = drop_bufs-Calm n k bs p

  refuse_bind-Calm : (b : Node × Bool) (p : Pool) → Calm n p (refuse_bind b p)
  unfolding refuse_bind is_up
  refuse_bind-Calm (k, on) p = record { streams = refl; view = refl; loop = Extends-refl p.loop }

  refuse_send-Calm : (r : PendingSend) (p : Pool) → Calm n p (refuse_send r p)
  unfolding refuse_send is_up
  refuse_send-Calm r p = record { streams = refl; view = refl; loop = Extends-refl p.loop }

  -- No stream is in the table, and the node is down.
  pub record Down (p : Pool) : Type 0 where
    pub streams : p.node2stream ≡ []
    pub view : is_up n p.notices ≡ false

  Down-Calm : {p q : Pool} → Calm n p q → Down p → Down q
  Down-Calm h d = record { streams = h.streams ∙ d.streams; view = h.view ∙ d.view }

  pub Down-Sync : (p : Pool) → Down p → Sync n p
  unfolding has
  Down-Sync p d = record { agrees = rw (d.streams, d.view); linked = rw d.streams tt }

  stop_stream-Down : (t : ℕ) (p : Pool) → Down p → Down (stop_stream t p)
  unfolding stop_stream is_up
  stop_stream-Down t p d = record { streams = d.streams; view = ground (arith, d.view) }

  each_stream-Down : (ts : List ℕ) (p : Pool) → Down p → Down (each stop_stream ts p)
  unfolding each
  each_stream-Down [] p d = d
  each_stream-Down (t ∷ ts) p d = each_stream-Down ts _ (stop_stream-Down t p d)

  -- The loop over the former table `es` reports each of its nodes down.
  stop_each-Down :
      (es : Table ℕ) (p : Pool)
      → Linked p.loop es
      → p.node2stream ≡ []
      → (has n es ≡ false → is_up n p.notices ≡ false)
      → Down (each stop_stream_of es p)
  unfolding each stop_stream_of stop_stream is_up has
  stop_each-Down [] p k e up = record { streams = e; view = up refl }
  stop_each-Down ((j, t) ∷ es) p k e up =
      stop_each-Down es _ (Linked-Extends es (close-Extends t p.loop) k.2) e λ absent.
        elim (Bool-cases (node_eq j n)) [
          | inl hit ↦ rw (k.0, hit)
          | inr miss ↦ rw (k.0, miss) (up (rw miss absent))
        ]

  stop_streams-Down : (p : Pool) → Sync n p → Down (stop_streams p)
  unfolding stop_streams
  stop_streams-Down p h =
      stop_each-Down p.node2stream _ h.linked refl (λ absent. sym h.agrees ∙ absent)

  stop_wakeup-Calm : (p : Pool) → Calm n p (stop_wakeup p)
  unfolding stop_wakeup Datagram.close_wakeup
  stop_wakeup-Calm p = record {
    streams = refl;
    view = refl;
    loop = record { grows = ground arith; keeps = λ s lt. ground arith };
  }

  cleared-Calm :
      {p q r : Pool}
      → Calm n q r
      → q.node2stream ≡ p.node2stream
      → q.notices ≡ p.notices
      → q.loop ≡ p.loop
      → Calm n p r
  cleared-Calm {p} {q} {r} h a b c = record {
    streams = h.streams ∙ a;
    view = h.view ∙ ap (is_up n) b;
    loop = subst (λ l. Extends l r.loop) c h.loop;
  }

  stop_servers-Calm : (p : Pool) → Calm n p (stop_udp_servers (stop_tcp_servers p))
  unfolding stop_udp_servers stop_tcp_servers
  stop_servers-Calm p =
      let p1 = stop_tcp_servers p in
      Calm-trans
        (cleared-Calm (each-Calm stop_tcp_server stop_tcp_server-Calm p.tcp_servers _) refl refl
          refl)
        (cleared-Calm (each-Calm stop_udp_server stop_udp_server-Calm p1.udp_servers _) refl refl
          refl)

  -- "Stop and free all resources." reports every connection down.
  pub stop_all-Down :
      (binds : List (Node × Bool)) (sends : List PendingSend) (p : Pool)
      → Sync n p
      → Down (stop_all binds sends p)
  unfolding stop_all stop_handles stop_connecting drop_all_waiting
  stop_all-Down binds sends p h =
      let h1 = Sync-Calm (Calm-trans (stop_wakeup-Calm p) (stop_servers-Calm (stop_wakeup p))) h in
      let p1 = stop_udp_servers (stop_tcp_servers (stop_wakeup p)) in
      let d2 = stop_streams-Down p1 h1 in
      let p2 = stop_streams p1 in
      let d3 =
        each_stream-Down p2.connecting (record p2 { connecting = [] })
          (record { streams = d2.streams; view = d2.view }) in
      let p3 = stop_connecting p2 in
      let c4 = each-Calm stop_waiting stop_waiting-Calm p3.waiting_send p3 in
      let d4 = Down-Calm c4 d3 in
      Down-Calm
        (Calm-trans (each-Calm refuse_bind refuse_bind-Calm binds _)
          (each-Calm refuse_send refuse_send-Calm sends _))
        (record { streams = d4.streams; view = d4.view })

  pub on_wakeup-Sync : (p : Pool) → Sync n p → Sync n (on_wakeup p)
  unfolding on_wakeup
  on_wakeup-Sync p h =
      let q = record p { pending_bind = []; pending_send = []; pending_close = [] } in
      let h1 : Sync n q = record { agrees = h.agrees; linked = h.linked } in
      let k = stop_all-Down p.pending_bind p.pending_send q h1 in
      if_both (Sync n) p.want_exit (Down-Sync _ k)
        (process_all-Sync p.pending_bind p.pending_send p.pending_close q h1)
