-- ===== src/Pool/Status/Links.antt =====
-- Laws of the links between the table and the handles, and of calm changes.
use network_pool.Common.{
  ℕ, ◌<◌, ◌≡◌, refl, inl, inr, ◌∙◌, List, [], ◌∷◌, arith, Option-cases, Bool-cases,
}
use network_pool.Node.{Node, node_eq}
use network_pool.Table.{Table, find, has, insert, erase}
use network_pool.Handle.{Loop}
use network_pool.Handle.Extends.{Extends, Extends-refl, Extends-trans}
use network_pool.Pool.{Bytes, Notice, drop, Pool, on_loop}
use network_pool.Pool.Messages.Buffers.{dropped, drop_bufs_lem}
use network_pool.Pool.Connection.{drop_bufs, drop_waiting}
use network_pool.Pool.Status.{is_up, Linked, Sync, Calm}

pub Linked-Extends : {l l' : Loop} (es : Table ℕ) → Extends l l' → Linked l es → Linked l' es
Linked-Extends [] h k = tt
Linked-Extends ((n, t) ∷ es) h k =
    (h.keeps t k.1 ∙ k.0, omega (arith, h.grows), Linked-Extends es h k.2)

pub Linked-erase : (l : Loop) (n : Node) (es : Table ℕ) → Linked l es → Linked l (erase n es)
unfolding erase
Linked-erase l n [] k = tt
Linked-erase l n ((j, t) ∷ es) k = elim (Bool-cases (node_eq j n)) [
  | inl e ↦ rw e (Linked-erase l n es k.2)
  | inr e ↦ rw e (k.0, k.1, Linked-erase l n es k.2)
]

pub Linked-insert :
    (l : Loop) (t : ℕ) (es : Table ℕ)
    → t < l.fresh
    → Linked l es
    → Linked l (insert (l.tcps t).node t es)
unfolding insert
Linked-insert l t es lt k = elim (Bool-cases (has (l.tcps t).node es)) [
  | inl e ↦ rw e k
  | inr e ↦ rw e (refl, lt, k)
]

pub Calm-refl : (n : Node) (p : Pool) → Calm n p p
Calm-refl n p = record { streams = refl; view = refl; loop = Extends-refl p.loop }

pub Calm-trans : {n : Node} {p q r : Pool} → Calm n p q → Calm n q r → Calm n p r
Calm-trans h k = record {
  streams = k.streams ∙ h.streams;
  view = k.view ∙ h.view;
  loop = Extends-trans h.loop k.loop;
}

pub Sync-Calm : {n : Node} {p q : Pool} → Calm n p q → Sync n p → Sync n q
Sync-Calm {n} {p} h s = record {
  agrees = rw (h.streams, h.view) s.agrees;
  linked = rw h.streams (Linked-Extends p.node2stream h.loop s.linked);
}

pub is_up-dropped :
    (n k : Node) (bs : List Bytes) (ns : List Notice) → is_up n (dropped k bs ns) ≡ is_up n ns
unfolding is_up dropped
is_up-dropped n k [] ns = refl
is_up-dropped n k (b ∷ bs) ns = is_up-dropped n k bs (drop k b ∷ ns)

pub drop_bufs-Calm : (n k : Node) (bs : List Bytes) (p : Pool) → Calm n p (drop_bufs k bs p)
drop_bufs-Calm n k bs p =
    rw (drop_bufs_lem k bs p)
      (record { streams = refl; view = is_up-dropped n k bs p.notices; loop = Extends-refl p.loop })

pub drop_waiting-Calm : (n k : Node) (p : Pool) → Calm n p (drop_waiting k p)
unfolding drop_waiting
drop_waiting-Calm n k p = elim (Option-cases (find k p.waiting_send)) [
  | inl e ↦ rw (e, drop_waiting) (Calm-refl n p)
  | inr (bs, e) ↦
      let h = drop_bufs-Calm n k bs p in
      rw (e, drop_waiting) (record { streams = h.streams; view = h.view; loop = h.loop })
]

pub on_loop-Calm :
    (n : Node) (f : Loop → Loop) (p : Pool) → Extends p.loop (f p.loop) → Calm n p (on_loop f p)
on_loop-Calm n f p h = record { streams = refl; view = refl; loop = h }
