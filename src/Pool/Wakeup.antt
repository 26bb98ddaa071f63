-- ===== src/Pool/Wakeup.antt =====
-- on_wakeup of network_pool.cpp.
pub mod Bind
pub mod Send
pub mod Stop
use network_pool.Common.{Bool, List, [], if◌then◌else◌}
use network_pool.Node.{Node}
use network_pool.Pool.{Pool, PendingSend}
use Bind.{process_bind}
use Send.{process_send, process_close}
use Stop.{each, stop_all}

-- "Bind, send & close."
unfoldable pub process_all :
    List (Node × Bool) → List PendingSend → List (Node × Bool) → Pool → Pool
process_all binds sends closes p =
    each process_close closes (each process_send sends (each process_bind binds p))

-- `on_wakeup`
unfoldable pub on_wakeup : Pool → Pool
on_wakeup p =
    let binds = p.pending_bind in
    let sends = p.pending_send in
    let closes = p.pending_close in
    let q = record p { pending_bind = []; pending_send = []; pending_close = [] } in
    if p.want_exit then stop_all binds sends q else process_all binds sends closes q
