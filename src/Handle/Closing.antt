-- ===== src/Handle/Closing.antt =====
-- The close of a Ctcp (uv_wrapper.cpp): the calls of uv_close, and the two callbacks, one for the
-- stream and one for the timer.
use network_pool.Common.{ℕ, ◌≡◌, ◌∷◌, Bool, true, false, arith}
use network_pool.Handle.{Loop, close_tcp, close_timer}
use network_pool.Handle.Stream.{close, on_tcp_closed, on_timer_closed}

abbrev pub is_deleted : ℕ → Loop → Bool
is_deleted t l = (l.tcps t).deleted

-- The close of a handle with a stream and a timer. uv_close is called once for each of the two, and
-- no more by a further close before, between or after the first callback; the second of the
-- callbacks releases the handle, whichever that is.
pub record ClosesOnce (t : ℕ) (l : Loop) : Type 0 where
  pub calls : (close t l).calls ≡ close_timer t ∷ close_tcp t ∷ l.calls
  pub again : close t (close t l) ≡ close t l
  pub after_stream : close t (on_tcp_closed t (close t l)) ≡ on_tcp_closed t (close t l)
  pub after_timer : close t (on_timer_closed t (close t l)) ≡ on_timer_closed t (close t l)
  pub kept : is_deleted t (close t l) ≡ false
  pub open_timer : is_deleted t (on_tcp_closed t (close t l)) ≡ false
  pub open_stream : is_deleted t (on_timer_closed t (close t l)) ≡ false
  pub stream_first : is_deleted t (on_timer_closed t (on_tcp_closed t (close t l))) ≡ true
  pub timer_first : is_deleted t (on_tcp_closed t (on_timer_closed t (close t l))) ≡ true

-- Closing a handle that has both a stream and a timer, and is neither closing nor released, calls
-- uv_close once for the stream and once for the timer, and closing it again, before its callbacks or
-- after one of them, does nothing. The object is still there until both callbacks have run, and
-- after both, in either order, it is released.
pub close-ClosesOnce :
    (t : ℕ) (l : Loop)
    → (l.tcps t).tcp_inited ≡ true
    → (l.tcps t).timer_inited ≡ true
    → (l.tcps t).closing ≡ false
    → (l.tcps t).deleted ≡ false
    → ClosesOnce t l
unfolding close on_tcp_closed on_timer_closed
close-ClosesOnce t l i j c d = record {
  calls = ground arith;
  again = ground arith;
  after_stream = ground arith;
  after_timer = ground arith;
  kept = ground arith;
  open_timer = ground arith;
  open_stream = ground arith;
  stream_first = ground arith;
  timer_first = ground arith;
}
