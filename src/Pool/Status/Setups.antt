-- ===== src/Pool/Status/Setups.antt =====
-- bindAndListenTcp, connectTcp and bindAndListenUdp leave the handles alone that are there.
use network_pool.Common.{
  ℕ, ◌≤◌, ◌≡◌, ◌∙◌, refl, inl, inr, true, false, Option, some, arith, Option-cases, Bool-cases,
  ◌==◌,
}
use network_pool.Node.{Node, Protocol, tcp, udp}
use network_pool.Handle.{
  Loop, Settings, allocate, tcp_bind, listen, timer_start, tcp_connect, answer, call, set_tcp_node,
  milliseconds,
}
use network_pool.Handle.Stream
use network_pool.Handle.Datagram
use network_pool.Handle.Extends.{
  Extends, Extends-refl, Extends-trans, call-Extends, close-Extends, put_tcp-Extends, Creates,
  alloc-Creates,
}
use network_pool.Pool.Setup.{
  listen_on, start_connect, receive_on, bind_and_listen_tcp, connect_tcp, bind_and_listen_udp,
}

-- A handle that was just created may be given its node, and be used and closed.
pub named-Extends :
    (n : Node) (t : ℕ) (l : Loop) (r : Option ℕ × Loop)
    → Creates l r
    → r.0 ≡ some t
    → Extends l (set_tcp_node t n r.1)
named-Extends n t l r c e =
    put_tcp-Extends t (record (r.1.tcps t) { node = n }) c.extends ((c.new t e).0)

listen_on-Extends :
    (s : Settings) (n : Node) (t : ℕ) (l : Loop)
    → Extends (set_tcp_node t n l) (listen_on s n t l).1
unfolding listen_on
listen_on-Extends s n t l =
    let l0 = set_tcp_node t n l in
    let l1 = call (tcp_bind t) l0 in
    let l2 = call (listen t s.tcp_backlog) l1 in
    let h1 = call-Extends (tcp_bind t) l0 in
    let h2 = Extends-trans h1 (call-Extends (listen t s.tcp_backlog) l1) in
    elim (Bool-cases (answer l0 == 0)) [
      | inr e ↦ rw e (Extends-trans h1 (close-Extends t l1))
      | inl e ↦ rw e (elim (Bool-cases (answer l1 == 0)) [
        | inr e1 ↦ rw e1 (Extends-trans h2 (close-Extends t l2))
        | inl e1 ↦ rw e1 h2
      ])
    ]

start_connect-Extends :
    (s : Settings) (n : Node) (t : ℕ) (l : Loop)
    → Extends (set_tcp_node t n l) (start_connect s n t l).1
unfolding start_connect
start_connect-Extends s n t l =
    let l0 = set_tcp_node t n l in
    let c = timer_start t (milliseconds s.tcp_connect_timeout_in_seconds) in
    let l1 = call c l0 in
    let l2 = call (tcp_connect t n) l1 in
    let h1 = call-Extends c l0 in
    let h2 = Extends-trans h1 (call-Extends (tcp_connect t n) l1) in
    elim (Bool-cases (answer l0 == 0)) [
      | inr e ↦ rw e (Extends-trans h1 (close-Extends t l1))
      | inl e ↦ rw e (elim (Bool-cases (answer l1 == 0)) [
        | inr e1 ↦ rw e1 (Extends-trans h2 (close-Extends t l2))
        | inl e1 ↦ rw e1 h2
      ])
    ]

bind_tcp_by :
    (s : Settings) (n : Node) (l : Loop) (q : Protocol)
    → n.protocol ≡ q
    → Extends l (bind_and_listen_tcp s n l).1
unfolding bind_and_listen_tcp
bind_tcp_by s n l udp e = rw (e, bind_and_listen_tcp) (Extends-refl l)
bind_tcp_by s n l tcp e =
    let r = Stream.alloc s false l in
    let c = alloc-Creates s false l in
    elim (Option-cases r.0) [
      | inl e1 ↦ rw (e, bind_and_listen_tcp) (rw (e1, bind_and_listen_tcp) c.extends)
      | inr (t, e1) ↦
          rw (e, bind_and_listen_tcp)
            (rw (e1, bind_and_listen_tcp)
              (Extends-trans (named-Extends n t l r c e1) (listen_on-Extends s n t r.1)))
    ]

pub bind_and_listen_tcp-Extends :
    (s : Settings) (n : Node) (l : Loop) → Extends l (bind_and_listen_tcp s n l).1
bind_and_listen_tcp-Extends s n l = bind_tcp_by s n l n.protocol refl

connect_by :
    (s : Settings) (n : Node) (l : Loop) (q : Protocol)
    → n.protocol ≡ q
    → Extends l (connect_tcp s n l).1
unfolding connect_tcp
connect_by s n l udp e = rw (e, connect_tcp) (Extends-refl l)
connect_by s n l tcp e =
    let l0 = call allocate l in
    let h0 = call-Extends allocate l in
    let r = Stream.alloc s true l0 in
    let c = alloc-Creates s true l0 in
    rw (e, connect_tcp)
      (elim (Bool-cases (answer l == 0)) [
        | inr e0 ↦ rw e0 h0
        | inl e0 ↦ rw e0 (elim (Option-cases r.0) [
          | inl e1 ↦ rw (e1, connect_tcp) (Extends-trans h0 c.extends)
          | inr (t, e1) ↦
              rw (e1, connect_tcp)
                (Extends-trans h0
                  (Extends-trans (named-Extends n t l0 r c e1) (start_connect-Extends s n t r.1)))
        ])
      ])

pub connect_tcp-Extends : (s : Settings) (n : Node) (l : Loop) → Extends l (connect_tcp s n l).1
connect_tcp-Extends s n l = connect_by s n l n.protocol refl

-- The operations on UDP handles do not touch the TCP handles.
record LeavesTcp (l l' : Loop) : Type 0 where
  tcps : l'.tcps ≡ l.tcps
  grows : l.fresh ≤ l'.fresh

LeavesTcp-Extends : {l l' : Loop} → LeavesTcp l l' → Extends l l'
LeavesTcp-Extends h = record { grows = h.grows; keeps = λ s lt. rw (h.tcps) }

alloc-LeavesTcp : (s : Settings) (l : Loop) → LeavesTcp l (Datagram.alloc s l).1
unfolding Datagram.alloc Datagram.set_udp
alloc-LeavesTcp s l = ground arith

close-LeavesTcp : (u : ℕ) (l : Loop) → LeavesTcp l (Datagram.close u l)
unfolding Datagram.close
close-LeavesTcp u l = ground arith

receive_on-LeavesTcp :
    (s : Settings) (n : Node) (u : ℕ) (l : Loop) → LeavesTcp l (receive_on s n u l).1
unfolding receive_on Datagram.close
receive_on-LeavesTcp s n u l = ground arith

bind_udp_by :
    (s : Settings) (n : Node) (l : Loop) (q : Protocol)
    → n.protocol ≡ q
    → LeavesTcp l (bind_and_listen_udp s n l).1
unfolding bind_and_listen_udp
bind_udp_by s n l tcp e = rw (e, bind_and_listen_udp) (record { tcps = refl; grows = omega arith })
bind_udp_by s n l udp e =
    let r = Datagram.alloc s l in
    let h = alloc-LeavesTcp s l in
    elim (Option-cases r.0) [
      | inl e1 ↦ rw (e, bind_and_listen_udp) (rw (e1, bind_and_listen_udp) h)
      | inr (u, e1) ↦
          let k = receive_on-LeavesTcp s n u r.1 in
          rw (e, bind_and_listen_udp)
            (rw (e1, bind_and_listen_udp)
              (record { tcps = k.tcps ∙ h.tcps; grows = omega (arith, h.grows, k.grows) }))
    ]

pub bind_and_listen_udp-Extends :
    (s : Settings) (n : Node) (l : Loop) → Extends l (bind_and_listen_udp s n l).1
bind_and_listen_udp-Extends s n l = LeavesTcp-Extends (bind_udp_by s n l n.protocol refl)

pub udp_close-Extends : (u : ℕ) (l : Loop) → Extends l (Datagram.close u l)
udp_close-Extends u l = LeavesTcp-Extends (close-LeavesTcp u l)
