-- ===== src/Transport/Window.antt =====
-- What holds of the send window between the steps of the sender.
use go_l2tp_debian.Prelude.{ℕ, ◌≤◌, ◌<◌, ◌≡◌, true, arith}
use go_l2tp_debian.Transport.SlowStart.{
  SlowStart, can_send, on_send, on_ack, on_retransmit, increment_nr, increment_ns, new_slow_start,
}

-- The congestion window and the number of messages in flight stay within the peer's window; the
-- congestion window is never closed.
pub record InWindow (window : ℕ) (s : SlowStart) : Type 0 where
  pub open_ : 1 ≤ s.cwnd
  pub cwnd_le : s.cwnd ≤ window
  pub ntx_le : s.ntx ≤ window
  pub nacks_lt : s.nacks < window

module _ (window : ℕ) (some_window : 1 ≤ window) (fits : window < 65536) where
  pub new_slow_start-InWindow : InWindow window (new_slow_start window)
  unfolding new_slow_start
  new_slow_start-InWindow = ground arith

  pub on_send-InWindow :
      (s : SlowStart) → InWindow window s → can_send s ≡ true → InWindow window (on_send s)
  unfolding on_send can_send
  on_send-InWindow s w c = ground arith

  pub on_ack-InWindow : (s : SlowStart) → InWindow window s → InWindow window (on_ack s window)
  unfolding on_ack
  on_ack-InWindow s w = ground arith

  pub on_retransmit-InWindow :
      (s : SlowStart) → InWindow window s → InWindow window (on_retransmit s)
  unfolding on_retransmit
  on_retransmit-InWindow s w = ground arith

  pub increment_nr-InWindow : (s : SlowStart) → InWindow window s → InWindow window (increment_nr s)
  unfolding increment_nr
  increment_nr-InWindow s w = ground arith

  pub increment_ns-InWindow : (s : SlowStart) → InWindow window s → InWindow window (increment_ns s)
  unfolding increment_ns
  increment_ns-InWindow s w = ground arith
