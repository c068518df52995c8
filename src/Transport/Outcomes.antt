-- ===== src/Transport/Outcomes.antt =====
-- What the parts of a step do to the accounts of the sender.
use go_l2tp_debian.Prelude.{
  ℕ, refl, sym, subst, ◌∙◌, arith, Bool, true, false, none, some, if◌then◌else◌,
}
use go_l2tp_debian.Msg.Message.{ControlMessage}
use go_l2tp_debian.Transport.SlowStart.{on_retransmit}
use go_l2tp_debian.Transport.Window.{on_retransmit-InWindow}
use go_l2tp_debian.Transport.State.{Transport}
use go_l2tp_debian.Transport.Send.{retransmit_on, add_message}
use go_l2tp_debian.Transport.Ack.{process_ack_queue}
use go_l2tp_debian.Transport.AckOrder.{process_ack_queue-settle}
use go_l2tp_debian.Transport.Events.{Outcome, down_on, acks_on}
use go_l2tp_debian.Transport.Flight.{Sound, SameFlight, settle-Sound}

pub on_retransmit-Sound :
    (t : Transport) → Sound t → Sound (record t { slow_start = on_retransmit t.slow_start })
unfolding on_retransmit
on_retransmit-Sound t s = record {
  some_window = s.some_window;
  fits = s.fits;
  in_window =
      on_retransmit-InWindow t.config.tx_window_size s.some_window s.fits t.slow_start s.in_window;
  in_flight = s.in_flight;
}

-- the invariant of the outcomes that go on
abbrev pub GoesOnSound : Outcome → Type 0
GoesOnSound (t, none) = Sound t
GoesOnSound (t, some e) = Unit

pub down_on-Sound : (r : Outcome) → GoesOnSound r → GoesOnSound (down_on r)
unfolding down_on
down_on-Sound (t, none) s = s
down_on-Sound (t, some e) s = tt

pub weaken : (r : Outcome) → Sound r.0 → GoesOnSound r
weaken (t, none) s = s
weaken (t, some e) s = tt

pub goes_on : (r : Outcome) → Sound r.0 → GoesOnSound (down_on r)
goes_on r s = down_on-Sound r (weaken r s)

pub if-Sound :
    (b : Bool) (x y : Outcome) → GoesOnSound x → GoesOnSound y → GoesOnSound (if b then x else y)
if-Sound true x y sx sy = sx
if-Sound false x y sx sy = sy

pub SameFlight-trans : {t u w : Transport} → SameFlight t u → SameFlight u w → SameFlight t w
SameFlight-trans a b = record {
  window_eq = b.window_eq ∙ a.window_eq;
  cwnd_eq = b.cwnd_eq ∙ a.cwnd_eq;
  ntx_eq = b.ntx_eq ∙ a.ntx_eq;
  nacks_eq = b.nacks_eq ∙ a.nacks_eq;
  queue_eq = b.queue_eq ∙ a.queue_eq;
}

pub retransmit_on-Sound : (r : Outcome) → Sound r.0 → Sound (retransmit_on r).0
unfolding retransmit_on
retransmit_on-Sound (t, none) s = on_retransmit-Sound t s
retransmit_on-Sound (t, some e) s = s

pub acks_on-Sound :
    (next : Transport → Outcome)
    → ((u : Transport) → Sound u → Sound (next u).0)
    → (r : Outcome) → Sound r.0
    → Sound (acks_on next r).0
unfolding acks_on
acks_on-Sound next keeps (t, none) s = keeps t s
acks_on-Sound next keeps (t, some e) s = s

pub process_ack_queue-Sound : (t : Transport) (nr : ℕ) → Sound t → Sound (process_ack_queue t nr).0
process_ack_queue-Sound t nr s =
    subst (λ r. Sound r.0) (sym (process_ack_queue-settle t nr))
      (settle-Sound t.ack_queue nr t refl s)

pub add_message-SameFlight :
    (t : Transport) (m : ControlMessage) (hello : Bool) → SameFlight t (add_message t m hello).0
unfolding add_message
add_message-SameFlight t m hello = ground arith
