-- ===== src/Transport/Events.antt =====
-- l2tp/transport.go: the loops of the two goroutines, one event at a time.
use go_l2tp_debian.Prelude.{
  ℕ, Bool, true, false, Option, none, some, List, [], ◌∷◌, ◌++◌, ◌==◌, if◌then◌else◌,
}
use go_l2tp_debian.Prelude.Result.{
  Result, Error, ok, err, panic, stuck, shut_down_by_user, receive_path_error, ◌>>=◌,
}
use go_l2tp_debian.Prelude.Bytes.{Bytes}
use go_l2tp_debian.Avp.MsgTypes.{avp_msg_type_ack}
use go_l2tp_debian.Msg.Message.{ControlMessage, message_nr, get_type}
use go_l2tp_debian.Transport.State.{Transport, toggle_ack_timer, reset_hello_timer, tx_complete}
use go_l2tp_debian.Transport.Send.{
  retransmit_message, process_tx_queue, add_message, send_hello_message, send_explicit_ack,
}
use go_l2tp_debian.Transport.Ack.{process_ack_queue}
use go_l2tp_debian.Transport.Receive.{recv_frame, process_rx_queue}

-- `nrInd`
pub record NrInd : Type 0 where
  pub msg_type : ℕ
  pub nr : ℕ

-- what the sender's `select` waits for
pub data Event : Type 0 where
  send_request : ControlMessage → Event
  send_closed : Event
  nr_update : List NrInd → Event
  nr_closed : Event
  retry : ℕ → Event
  hello_tick ack_tick : Event

-- the two loops of `down` that flush a queue
unfoldable pub flush : List ℕ → Transport → Error → Transport
flush [] t e = t
flush (id ∷ ids) t e = flush ids (tx_complete t id (some e)) e

-- `down`, less the closing of the receiver, which is another goroutine's
unfoldable pub down : Transport → Error → Transport
unfolding flush toggle_ack_timer
down t e =
    let u = flush t.tx_queue (record t { tx_queue = [] }) e in
    let w = flush u.ack_queue (record u { ack_queue = [] }) e in
    record (toggle_ack_timer w false) { hello_timer = false }

-- the sender goes on with the state, or is down and returns
abbrev pub Outcome : Type 0
Outcome = Transport × Option Error

unfoldable pub down_on : Outcome → Outcome
unfolding down
down_on (t, none) = (t, none)
down_on (t, some e) = (down t e, some e)

-- is there a message other than an acknowledgement?
unfoldable pub has_message : List NrInd → Bool
has_message [] = false
has_message (i ∷ is) = if i.msg_type == avp_msg_type_ack then has_message is else true

-- a value of the loop has been processed: go on, or return the error
unfoldable pub acks_on : (Transport → Outcome) → Outcome → Outcome
acks_on next (t, none) = next t
acks_on next (t, some e) = (t, some e)

module _ (accepts_write : ℕ → Bool) where
  -- the first loop over the received values
  unfoldable pub update_acks : List NrInd → Transport → Outcome
  unfolding acks_on
  update_acks [] t = (t, none)
  update_acks (i ∷ is) t =
      let (u, found) = process_ack_queue t i.nr in
      acks_on (λ w. update_acks is w)
        (if found then process_tx_queue accepts_write u else (u, none))

  unfoldable pub after_acks : List NrInd → Outcome → Outcome
  unfolding has_message
  after_acks is (t, none) =
      (reset_hello_timer (if has_message is then toggle_ack_timer t true else t), none)
  after_acks is (t, some e) = (t, some e)

  unfoldable pub on_retry : ℕ → Outcome → Outcome
  on_retry id (t, none) = (t, none)
  on_retry id (t, some e) = (tx_complete t id (some e), some e)

  unfoldable pub on_hello : Outcome → Outcome
  on_hello (t, none) = (record t { hello_in_flight = true }, none)
  on_hello (t, some e) = (t, some e)

  -- one round of the sender's loop
  unfoldable pub sender_step : Transport → Event → Outcome
  unfolding down_on update_acks after_acks on_retry on_hello
  sender_step t (send_request m) =
      let (u, id) = add_message t m false in
      down_on (process_tx_queue accepts_write (record u { tx_queue = u.tx_queue ++ id ∷ [] }))
  sender_step t send_closed = down_on (t, some shut_down_by_user)
  sender_step t (nr_update is) = down_on (after_acks is (update_acks is t))
  sender_step t nr_closed = down_on (t, some receive_path_error)
  sender_step t (retry id) =
      if (t.store id).is_complete
      then (t, none)
      else down_on (on_retry id (retransmit_message accepts_write t id))
  sender_step t hello_tick =
      if t.hello_in_flight
      then (t, none)
      else down_on (on_hello (send_hello_message accepts_write t))
  sender_step t ack_tick = down_on (send_explicit_ack accepts_write t)

-- the types and sequence numbers of received messages; a type that cannot be told panics
unfoldable pub rx_indications : List ControlMessage → Result (List NrInd)
rx_indications [] = ok []
rx_indications (m ∷ ms) = do
  t ← get_type m
  is ← rx_indications ms
  ok (record { msg_type = t; nr = message_nr m } ∷ is)

-- One round of the receiver's loop on a frame: the indications that go to the sender, and the state
-- with the receiver's queue processed. A frame that is refused is logged, and an empty list goes to
-- the sender: the search for "failed to parse mandatory AVP" looks for the error's text in that
-- constant, where no text of an error that a frame can cause occurs.
unfoldable pub queue_frame :
    Transport → Result (List ControlMessage) → Result (Transport × List NrInd)
unfolding rx_indications
queue_frame t (ok ms) = do
  is ← rx_indications ms
  ok (process_rx_queue (record t { rx_queue = t.rx_queue ++ ms }), is)
queue_frame t (err e) = ok (process_rx_queue t, [])
queue_frame t (panic p) = panic p
queue_frame t stuck = stuck

unfoldable pub receiver_step : Transport → Bytes → Result (Transport × List NrInd)
unfolding queue_frame
receiver_step t b = queue_frame t (recv_frame t b)
