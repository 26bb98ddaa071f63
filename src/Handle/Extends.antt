-- ===== src/Handle/Extends.antt =====
-- What the operations of uv_wrapper.cpp leave alone: the nodes of the handles that are there.
use network_pool.Common.{
  ℕ, ◌≤◌, ◌<◌, ◌≡◌, refl, inl, inr, Bool-cases, Bool, true, false, Option, none, some, arith, ◌∙◌,
  ◌==◌,
}
use network_pool.Handle.{
  Loop, Settings, Call, Tcp, allocate, tcp_init, timer_init, answer, put_tcp, call,
}
use network_pool.Handle.Stream.{
  close, on_tcp_closed, on_timer_closed, shutdown_and_close, on_shutdown_done, set_tcp,
  finish_alloc, init_timer, init_tcp, alloc,
}

-- Handles are only added, and the ones of `l` keep their nodes.
pub record Extends (l l' : Loop) : Type 0 where
  pub grows : l.fresh ≤ l'.fresh
  pub keeps : (s : ℕ) → s < l.fresh → (l'.tcps s).node ≡ (l.tcps s).node

pub Extends-refl : (l : Loop) → Extends l l
Extends-refl l = record { grows = omega arith; keeps = λ s h. refl }

pub Extends-trans : {a b c : Loop} → Extends a b → Extends b c → Extends a c
Extends-trans h k = record {
  grows = omega (arith, h.grows, k.grows);
  keeps = λ s lt. k.keeps s (omega (arith, h.grows)) ∙ h.keeps s lt;
}

pub call-Extends : (c : Call) (l : Loop) → Extends l (call c l)
call-Extends c l = record { grows = omega arith; keeps = λ s h. refl }

pub close-Extends : (t : ℕ) (l : Loop) → Extends l (close t l)
unfolding close
close-Extends t l = record { grows = ground arith; keeps = λ s h. ground arith }

pub on_tcp_closed-Extends : (t : ℕ) (l : Loop) → Extends l (on_tcp_closed t l)
unfolding on_tcp_closed
on_tcp_closed-Extends t l = record { grows = omega arith; keeps = λ s h. ground arith }

pub on_timer_closed-Extends : (t : ℕ) (l : Loop) → Extends l (on_timer_closed t l)
unfolding on_timer_closed
on_timer_closed-Extends t l = record { grows = omega arith; keeps = λ s h. ground arith }

pub shutdown_and_close-Extends : (t : ℕ) (l : Loop) → Extends l (shutdown_and_close t l)
unfolding shutdown_and_close close
shutdown_and_close-Extends t l = record { grows = ground arith; keeps = λ s h. ground arith }

pub on_shutdown_done-Extends : (t : ℕ) (l : Loop) → Extends l (on_shutdown_done t l)
unfolding on_shutdown_done
on_shutdown_done-Extends t l = close-Extends t l

set_tcp-tcps : (t : ℕ) (s : Settings) (l : Loop) → (set_tcp t s l).1.tcps ≡ l.tcps
unfolding set_tcp
set_tcp-tcps t s l = ground arith

set_tcp-fresh : (t : ℕ) (s : Settings) (l : Loop) → (set_tcp t s l).1.fresh ≡ l.fresh
unfolding set_tcp
set_tcp-fresh t s l = ground arith

-- The number of a new handle is not below that of the loop before.
pub record Creates (l : Loop) (r : Option ℕ × Loop) : Type 0 where
  pub extends : Extends l r.1
  pub new : (t : ℕ) → r.0 ≡ some t → (l.fresh ≤ t) × (t < r.1.fresh)

-- A change to a handle that `l` does not have.
pub put_tcp-Extends :
    {l l' : Loop} (t : ℕ) (v : Tcp) → Extends l l' → l.fresh ≤ t → Extends l (put_tcp t v l')
put_tcp-Extends t v h le = record { grows = h.grows; keeps = λ s lt. ground (arith, h.keeps s lt) }

close-fresh : (t : ℕ) (l : Loop) → (close t l).fresh ≡ l.fresh
unfolding close
close-fresh t l = ground arith

set_tcp-Extends : (t : ℕ) (s : Settings) (l : Loop) → Extends l (set_tcp t s l).1
set_tcp-Extends t s l = record {
  grows = omega (arith, set_tcp-fresh t s l);
  keeps = λ j lt. rw (set_tcp-tcps t s l);
}

-- `t` is a handle of `l` that `l0` does not have.
pub record IsNew (l0 : Loop) (t : ℕ) (l : Loop) : Type 0 where
  pub extends : Extends l0 l
  pub above : l0.fresh ≤ t
  pub below : t < l.fresh

-- Calls and changes of the new handle keep that.
pub IsNew-put :
    {l0 : Loop} {t : ℕ} {l : Loop} (c : Call) (v : Tcp)
    → IsNew l0 t l
    → IsNew l0 t (put_tcp t v (call c l))
IsNew-put {t} c v h = record {
  extends =
      put_tcp-Extends t v (record { grows = h.extends.grows; keeps = h.extends.keeps }) h.above;
  above = h.above;
  below = h.below;
}

close-Creates :
    {l0 : Loop} {t : ℕ} {l : Loop} (c : Call) → IsNew l0 t l → Creates l0 (none, close t (call c l))
close-Creates {t} {l} c h = record {
  extends = Extends-trans h.extends (Extends-trans (call-Extends c l) (close-Extends t (call c l)));
  new = λ j p. cc;
}

finish_alloc-Creates :
    (t : ℕ) (s : Settings) (l0 l : Loop) → IsNew l0 t l → Creates l0 (finish_alloc t s l)
unfolding finish_alloc
finish_alloc-Creates t s l0 l h =
    let k = Extends-trans h.extends (set_tcp-Extends t s l) in
    let l1 = (set_tcp t s l).1 in
    elim (Bool-cases (set_tcp t s l).0) [
      | inl e ↦
          rw (e, finish_alloc)
            (record { extends = k; new = λ j p. ground (arith, set_tcp-fresh t s l) })
      | inr e ↦
          rw (e, finish_alloc)
            (record { extends = Extends-trans k (close-Extends t l1); new = λ j p. cc })
    ]

init_timer-Creates :
    (t : ℕ) (s : Settings) (l0 l : Loop) → IsNew l0 t l → Creates l0 (init_timer t s l)
unfolding init_timer
init_timer-Creates t s l0 l h = elim (Bool-cases (answer l == 0)) [
  | inl e ↦ rw e (finish_alloc-Creates t s l0 _ (IsNew-put (timer_init t) _ h))
  | inr e ↦ rw e (close-Creates (timer_init t) h)
]

init_tcp-Creates :
    (t : ℕ) (s : Settings) (with_timer : Bool) (l0 l : Loop)
    → IsNew l0 t l
    → Creates l0 (init_tcp t s with_timer l)
unfolding init_tcp
init_tcp-Creates t s true l0 l h = elim (Bool-cases (answer l == 0)) [
  | inl e ↦ rw e (init_timer-Creates t s l0 _ (IsNew-put (tcp_init t) _ h))
  | inr e ↦ rw e (close-Creates (tcp_init t) h)
]
init_tcp-Creates t s false l0 l h = elim (Bool-cases (answer l == 0)) [
  | inl e ↦ rw e (finish_alloc-Creates t s l0 _ (IsNew-put (tcp_init t) _ h))
  | inr e ↦ rw e (close-Creates (tcp_init t) h)
]

pub alloc-Creates : (s : Settings) (with_timer : Bool) (l : Loop) → Creates l (alloc s with_timer l)
unfolding alloc
alloc-Creates s with_timer l = elim (Bool-cases (answer l == 0)) [
  | inl e ↦ rw e (
      init_tcp-Creates l.fresh s with_timer l _ (record {
        extends = record { grows = omega arith; keeps = λ j lt. ground arith };
        above = omega arith;
        below = omega arith;
      }))
  | inr e ↦ rw e (record { extends = call-Extends allocate l; new = λ j p. cc })
]
