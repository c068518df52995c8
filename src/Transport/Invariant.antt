-- ===== src/Transport/Invariant.antt =====
-- What every step of the sender's loop keeps, until the transport goes down.
use go_l2tp_debian.Prelude.{
  ℕ, ◌+◌, inl, inr, arith, Bool, true, false, none, some, List, [], ◌∷◌, ◌++◌, leb, Bool-cases,
  if◌then◌else◌,
}
use go_l2tp_debian.Prelude.Result.{Result, ok, err, panic, stuck}
use go_l2tp_debian.Msg.Message.{ControlMessage}
use go_l2tp_debian.Transport.State.{
  TransportConfig, XmitMsg, Transport, put, toggle_ack_timer, reset_hello_timer, started_transport,
  sanitise_config,
}
use go_l2tp_debian.Transport.Send.{
  stamp, write_message, send_message, retransmit_message, process_tx_queue, add_message, send_hello,
  send_hello_message, send_ack, send_explicit_ack,
}
use go_l2tp_debian.Transport.Ack.{process_ack_queue}
use go_l2tp_debian.Transport.Events.{
  NrInd, Event, send_request, send_closed, nr_update, nr_closed, retry, hello_tick, ack_tick,
  Outcome, down_on, update_acks, after_acks, on_retry, on_hello, sender_step,
}
use go_l2tp_debian.Transport.Flight.{
  Sound, SameFlight, SameFlight-Sound, send_message-SameFlight, tx_complete-SameFlight,
  process_tx_loop-Sound,
}
use go_l2tp_debian.Transport.Outcomes.{
  retransmit_on-Sound, acks_on-Sound, process_ack_queue-Sound, add_message-SameFlight, if-Sound,
  goes_on, GoesOnSound, SameFlight-trans,
}

-- The transport that `newTransport` makes has its accounts in order, whatever the configuration.
pub started_transport-Sound :
    (store : ℕ → XmitMsg) (cfg : TransportConfig) → Sound (started_transport store cfg)
unfolding started_transport reset_hello_timer sanitise_config
started_transport-Sound store cfg = ground arith

module _ (accepts_write : ℕ → Bool) where
  write_message-SameFlight :
      (t : Transport) (m : ControlMessage) → SameFlight t (write_message accepts_write t m).0
  unfolding write_message
  write_message-SameFlight t m = ground arith

  send_hello-SameFlight :
      (t : Transport) (r : Result ControlMessage) → SameFlight t (send_hello accepts_write t r).0
  unfolding send_hello
  send_hello-SameFlight t (ok m) =
      SameFlight-trans (add_message-SameFlight t m true)
        (send_message-SameFlight accepts_write (add_message t m true).0 (add_message t m true).1)
  send_hello-SameFlight t (err e) = ground arith
  send_hello-SameFlight t (panic p) = ground arith
  send_hello-SameFlight t stuck = ground arith

  send_ack-SameFlight :
      (t : Transport) (r : Result ControlMessage) → SameFlight t (send_ack accepts_write t r).0
  unfolding send_ack
  send_ack-SameFlight t (ok m) = write_message-SameFlight t (stamp t m false)
  send_ack-SameFlight t (err e) = ground arith
  send_ack-SameFlight t (panic p) = ground arith
  send_ack-SameFlight t stuck = ground arith

  pub send_hello_message-SameFlight :
      (t : Transport) → SameFlight t (send_hello_message accepts_write t).0
  unfolding send_hello_message
  send_hello_message-SameFlight t = send_hello-SameFlight t _

  send_explicit_ack-Sound : (t : Transport) → Sound t → Sound (send_explicit_ack accepts_write t).0
  unfolding send_explicit_ack
  send_explicit_ack-Sound t s = SameFlight-Sound (send_ack-SameFlight t _) s

  retransmit_message-Sound :
      (t : Transport) (id : ℕ) → Sound t → Sound (retransmit_message accepts_write t id).0
  unfolding retransmit_message
  retransmit_message-Sound t id s =
      let m = t.store id in
      let u = record t { store = put t.store id (record m { nretries = m.nretries + 1 }) } in
      let su : Sound u = record {
        some_window = s.some_window;
        fits = s.fits;
        in_window = s.in_window;
        in_flight = s.in_flight;
      } in
      elim (Bool-cases (leb t.config.max_retries (m.nretries + 1))) [
        | inl over ↦ rw over su
        | inr more ↦ rw more (
            retransmit_on-Sound (send_message accepts_write u id)
              (SameFlight-Sound (send_message-SameFlight accepts_write u id) su))
      ]

  process_tx_queue-Sound : (t : Transport) → Sound t → Sound (process_tx_queue accepts_write t).0
  unfolding process_tx_queue
  process_tx_queue-Sound t s = process_tx_loop-Sound accepts_write t.tx_queue t s

  found-Sound :
      (found : Bool) (u : Transport)
      → Sound u
      → Sound (if found then process_tx_queue accepts_write u else (u, none)).0
  found-Sound true u s = process_tx_queue-Sound u s
  found-Sound false u s = s

  update_acks-Sound :
      (is : List NrInd) (t : Transport) → Sound t → Sound (update_acks accepts_write is t).0
  unfolding update_acks
  update_acks-Sound [] t s = s
  update_acks-Sound (i ∷ is) t s =
      let r = process_ack_queue t i.nr in
      acks_on-Sound (λ w. update_acks accepts_write is w) (update_acks-Sound is)
        (if r.1 then process_tx_queue accepts_write r.0 else (r.0, none))
        (found-Sound r.1 r.0 (process_ack_queue-Sound t i.nr s))

  after_acks-SameFlight :
      (is : List NrInd) (t : Transport) → SameFlight t (after_acks accepts_write is (t, none)).0
  unfolding after_acks toggle_ack_timer reset_hello_timer
  after_acks-SameFlight is t = ground arith

  after_acks-Sound :
      (is : List NrInd) (r : Outcome) → Sound r.0 → Sound (after_acks accepts_write is r).0
  unfolding after_acks toggle_ack_timer reset_hello_timer
  after_acks-Sound is (t, none) s = SameFlight-Sound (after_acks-SameFlight is t) s
  after_acks-Sound is (t, some e) s = s

  on_retry-Sound : (id : ℕ) (r : Outcome) → Sound r.0 → Sound (on_retry accepts_write id r).0
  unfolding on_retry
  on_retry-Sound id (t, none) s = s
  on_retry-Sound id (t, some e) s = SameFlight-Sound (tx_complete-SameFlight t id (some e)) s

  on_hello-Sound : (r : Outcome) → Sound r.0 → Sound (on_hello accepts_write r).0
  unfolding on_hello
  on_hello-Sound (t, none) s = record {
    some_window = s.some_window;
    fits = s.fits;
    in_window = s.in_window;
    in_flight = s.in_flight;
  }
  on_hello-Sound (t, some e) s = s

  send_request-Sound :
      (t : Transport) (m : ControlMessage)
      → Sound t
      → GoesOnSound (sender_step accepts_write t (send_request m))
  unfolding sender_step
  send_request-Sound t m s =
      let u = (add_message t m false).0 in
      let su = SameFlight-Sound (add_message-SameFlight t m false) s in
      let w = record u { tx_queue = u.tx_queue ++ (add_message t m false).1 ∷ [] } in
      let sw : Sound w = record {
        some_window = su.some_window;
        fits = su.fits;
        in_window = su.in_window;
        in_flight = su.in_flight;
      } in
      goes_on (process_tx_queue accepts_write w) (process_tx_queue-Sound w sw)

  retry-Sound :
      (t : Transport) (id : ℕ) → Sound t → GoesOnSound (sender_step accepts_write t (retry id))
  unfolding sender_step
  retry-Sound t id s =
      let sent = retransmit_message accepts_write t id in
      let r = on_retry accepts_write id sent in
      if-Sound (t.store id).is_complete (t, none) (down_on r) s
        (goes_on r (on_retry-Sound id sent (retransmit_message-Sound t id s)))

  hello_tick-Sound :
      (t : Transport) → Sound t → GoesOnSound (sender_step accepts_write t hello_tick)
  unfolding sender_step
  hello_tick-Sound t s =
      let sent = send_hello_message accepts_write t in
      let r = on_hello accepts_write sent in
      if-Sound t.hello_in_flight (t, none) (down_on r) s
        (goes_on r (on_hello-Sound sent (SameFlight-Sound (send_hello_message-SameFlight t) s)))

  -- Whatever event the sender's loop handles, and whichever writes the socket takes: if the number
  -- of messages in flight is the length of the queue of unacknowledged messages, and it and the
  -- congestion window fit the peer's window, then all of this holds after the step too, unless the
  -- step takes the transport down.
  pub sender_step-Sound :
      (t : Transport) (ev : Event) → Sound t → GoesOnSound (sender_step accepts_write t ev)
  unfolding sender_step
  sender_step-Sound t (send_request m) s = send_request-Sound t m s
  sender_step-Sound t send_closed s = tt
  sender_step-Sound t (nr_update is) s =
      goes_on (after_acks accepts_write is (update_acks accepts_write is t))
        (after_acks-Sound is (update_acks accepts_write is t) (update_acks-Sound is t s))
  sender_step-Sound t nr_closed s = tt
  sender_step-Sound t (retry id) s = retry-Sound t id s
  sender_step-Sound t hello_tick s = hello_tick-Sound t s
  sender_step-Sound t ack_tick s =
      goes_on (send_explicit_ack accepts_write t) (send_explicit_ack-Sound t s)
