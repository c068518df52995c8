-- ===== src/Transport/SlowStart.antt =====
-- l2tp/transport.go: `slowStartState`. The fields are uint16 values; each method holds the lock from
-- its first to its last line, so it is one step.
use go_l2tp_debian.Prelude.{ℕ, ◌+◌, ◌-◌, ◌/◌, Bool, ltb, leb, if◌then◌else◌}
use go_l2tp_debian.Prelude.Bytes.{u16}
use go_l2tp_debian.Msg.Message.{ControlMessage, message_ns}
use go_l2tp_debian.Transport.Seq.{seq_increment, seq_compare, is_same, is_before}

pub record SlowStart : Type 0 where
  pub ns : ℕ
  pub nr : ℕ
  pub cwnd : ℕ
  pub thresh : ℕ
  pub nacks : ℕ
  pub ntx : ℕ

unfoldable pub can_send : SlowStart → Bool
can_send s = ltb s.ntx s.cwnd

unfoldable pub on_send : SlowStart → SlowStart
on_send s = record s { ntx = u16 (s.ntx + 1) }

-- the part under `s.cwnd < maxTxWindow`
grow : SlowStart → SlowStart
grow s =
    if ltb s.cwnd s.thresh
    then record s { cwnd = u16 (s.cwnd + 1) }
    else if leb s.cwnd (u16 (s.nacks + 1))
    then record s { nacks = 0; cwnd = u16 (s.cwnd + 1) }
    else record s { nacks = u16 (s.nacks + 1) }

widen : SlowStart → ℕ → SlowStart
unfolding grow
widen s max_tx_window = if ltb s.cwnd max_tx_window then grow s else s

unfoldable pub on_ack : SlowStart → ℕ → SlowStart
unfolding widen
on_ack s max_tx_window =
    let t = widen s max_tx_window in if ltb 0 s.ntx then record t { ntx = t.ntx - 1 } else s

unfoldable pub on_retransmit : SlowStart → SlowStart
on_retransmit s = record s { thresh = s.cwnd / 2; cwnd = 1 }

unfoldable pub increment_nr : SlowStart → SlowStart
increment_nr s = record s { nr = seq_increment s.nr }

unfoldable pub increment_ns : SlowStart → SlowStart
increment_ns s = record s { ns = seq_increment s.ns }

unfoldable pub msg_is_in_sequence : SlowStart → ControlMessage → Bool
msg_is_in_sequence s m = is_same (seq_compare s.nr (message_ns m))

unfoldable pub msg_is_stale : SlowStart → ControlMessage → Bool
msg_is_stale s m = is_before (seq_compare (message_ns m) s.nr)

-- the state that `newTransport` makes, for the window size of the configuration
unfoldable pub new_slow_start : ℕ → SlowStart
new_slow_start window = record { ns = 0; nr = 0; cwnd = 1; thresh = window; nacks = 0; ntx = 0 }
