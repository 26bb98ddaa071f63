-- ===== src/Pool/Start.antt =====
-- The constructor of CnetworkPool (network_pool.h) and the thread that it waits for.
use network_pool.Common.{◌≡◌, refl, Bool, true, false, not, ◌==◌, if◌then◌else◌, if_both}
use network_pool.Handle.{Settings, Loop, loop_init, answer, call}
use network_pool.Handle.Datagram
use network_pool.Pool.{Pool, initializing, good, bad}
use network_pool.Pool.Api.{construct, start_thread}

-- How the constructor ends: with a pool; by the exception of the creation of the thread; by its own
-- exception, which leaves the object of the thread as it is; or it still waits.
pub data Opening : Type 0 where
  opened : Pool → Opening
  no_thread : Opening
  failed : Pool → Opening
  waits : Pool → Opening

-- `while (initializing == m_state)`, and the test of the state behind it.
unfoldable pub await : Pool → Opening
await p = elim p.state [ initializing ↦ waits p | good ↦ opened p | bad ↦ failed p ]

-- `CnetworkPool(settings, memoryTrace, callback)`, where the thread has run up to its loop.
unfoldable pub open_pool : Bool → Settings → Loop → Opening
open_pool created s l = if created then await (start_thread (construct s l)) else no_thread

-- A pool that was opened can be woken up, and one that was not cannot.
abbrev pub Settles : Opening → Type 0
Settles (opened p) = (p.state ≡ good) × (p.wakeup ≡ true)
Settles no_thread = Unit
Settles (failed p) = (p.state ≡ bad) × (p.wakeup ≡ false)
Settles (waits p) = ⊥

-- Whatever libuv answers, the constructor does not wait for ever once the thread has run: it ends
-- with a pool that can be woken up, or with an exception.
pub open_pool-Settles : (created : Bool) (s : Settings) (l : Loop) → Settles (open_pool created s l)
unfolding open_pool await start_thread construct
open_pool-Settles false s l = tt
open_pool-Settles true s l =
    if_both {A = Pool} (λ p. Settles (await p)) (not (answer l == 0)) (refl, refl)
      (if_both {A = Pool} (λ p. Settles (await p)) (not (Datagram.alloc_async (call loop_init l)).0)
        (refl, refl) (refl, refl))
