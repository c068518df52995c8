-- ===== src/Transport/Send.antt =====
-- l2tp/transport.go: sending, retransmitting, and the queue of messages to send.
use go_l2tp_debian.Prelude.{
  ℕ, ◌+◌, Bool, true, false, not, ◌&&◌, Option, none, some, List, [], ◌∷◌, ◌++◌, ltb, leb, ◌==◌,
  if◌then◌else◌,
}
use go_l2tp_debian.Prelude.Result.{
  Result, Error, ok, err, map_ok, ◌>>=◌, write_failed, retries_exhausted, build_failed,
}
use go_l2tp_debian.Avp.Types.{avp_type_message}
use go_l2tp_debian.Avp.MsgTypes.{avp_msg_type_hello, avp_msg_type_ack}
use go_l2tp_debian.Avp.Payload.{Avp, Value}
use go_l2tp_debian.Avp.Encode.{new_avp}
use go_l2tp_debian.Msg.Message.{
  ControlMessage, v2, v3, message_ns, set_transport_seq_num, new_v2_control_message,
  new_v3_control_message,
}
use go_l2tp_debian.Transport.SlowStart.{can_send, on_send, on_retransmit, increment_ns}
use go_l2tp_debian.Transport.State.{
  Transport, put, is_ack, toggle_ack_timer, reset_hello_timer, tx_complete,
}

-- the message with the sequence numbers that `sendMessage1` gives it
unfoldable pub stamp : Transport → ControlMessage → Bool → ControlMessage
stamp t m is_retransmit =
    set_transport_seq_num m (if is_retransmit then message_ns m else t.slow_start.ns)
      t.slow_start.nr

-- a message that is new in the store, and its identifier
unfoldable pub add_message : Transport → ControlMessage → Bool → Transport × ℕ
add_message t m hello = (
  record t {
    store = put t.store t.next_id (record {
      msg = m;
      nretries = 0;
      is_complete = false;
      retry_timer = false;
      is_hello = hello;
    });
    next_id = t.next_id + 1;
  },
  t.next_id,
)

-- `newV3ControlMessage` or `newV2ControlMessage`, for a message of the transport's own
unfoldable pub own_message : Transport → List Avp → Result ControlMessage
own_message t avps =
    let id = t.config.peer_control_conn_id in
    if t.config.is_version3
    then map_ok v3 (new_v3_control_message id avps)
    else map_ok v2 (new_v2_control_message id 0 avps)

-- a round of the loop after the call of `sendMessage` for message `id`
unfoldable pub tx_on :
    (Transport → Transport × Option Error) → ℕ → Transport × Option Error → Transport × Option Error
tx_on next id (t, none) =
    next (record t { ack_queue = t.ack_queue ++ id ∷ []; slow_start = on_send t.slow_start })
tx_on next id (t, some e) = (tx_complete t id (some e), some e)

-- what `retransmitMessage` does after its call of `sendMessage`
unfoldable pub retransmit_on : Transport × Option Error → Transport × Option Error
retransmit_on (t, none) = (record t { slow_start = on_retransmit t.slow_start }, none)
retransmit_on (t, some e) = (t, some e)

module _ (accepts_write : ℕ → Bool) where
  -- The write of `sendMessage1`: a failed write puts nothing on the wire. `toBytes` never fails.
  unfoldable pub write_message : Transport → ControlMessage → Transport × Bool
  write_message t m =
      if accepts_write t.writes
      then (record t { writes = t.writes + 1; wire = t.wire ++ m ∷ [] }, true)
      else (record t { writes = t.writes + 1 }, false)

  -- what `sendMessage` does after a successful write of message `id`
  unfoldable pub after_send : Transport → ℕ → Transport
  after_send t id =
      let m = t.store id in
      let u = reset_hello_timer (toggle_ack_timer t false) in
      record u {
        slow_start =
            if not (is_ack m.msg) && m.nretries == 0
            then increment_ns u.slow_start
            else u.slow_start;
        store = put u.store id (record m { retry_timer = true });
      }

  unfoldable pub send_message : Transport → ℕ → Transport × Option Error
  unfolding stamp write_message after_send
  send_message t id =
      let m = t.store id in
      let stamped = stamp t m.msg (ltb 0 m.nretries) in
      let u = record t { store = put t.store id (record m { msg = stamped }) } in
      let (w, sent) = write_message u stamped in
      if sent then (after_send w id, none) else (w, some write_failed)

  unfoldable pub retransmit_message : Transport → ℕ → Transport × Option Error
  unfolding send_message retransmit_on
  retransmit_message t id =
      let m = t.store id in
      let u = record t { store = put t.store id (record m { nretries = m.nretries + 1 }) } in
      if leb t.config.max_retries (m.nretries + 1)
      then (u, some retries_exhausted)
      else retransmit_on (send_message u id)

  -- the loop of `processTxQueue` over the queue's messages
  unfoldable pub process_tx_loop : List ℕ → Transport → Transport × Option Error
  unfolding tx_on
  process_tx_loop [] t = (t, none)
  process_tx_loop (id ∷ rest) t =
      let sent = send_message (record t { tx_queue = rest }) id in
      if can_send t.slow_start then tx_on (λ u. process_tx_loop rest u) id sent else (t, none)

  unfoldable pub process_tx_queue : Transport → Transport × Option Error
  unfolding process_tx_loop
  process_tx_queue t = process_tx_loop t.tx_queue t

  -- The hello message is sent, and put into no queue.
  unfoldable pub send_hello : Transport → Result ControlMessage → Transport × Option Error
  send_hello t (ok m) = let (u, id) = add_message t m true in send_message u id
  send_hello t (err e) = (t, some (build_failed e))
  send_hello t _ = (t, none)

  unfoldable pub send_hello_message : Transport → Transport × Option Error
  unfolding send_hello own_message
  send_hello_message t = send_hello t (do
    a ← new_avp 0 avp_type_message (Value.msg_type avp_msg_type_hello)
    own_message t (a ∷ []))

  -- `sendMessage1` with no message state: an acknowledgement is not retransmitted
  unfoldable pub send_ack : Transport → Result ControlMessage → Transport × Option Error
  send_ack t (ok m) =
      let (w, sent) = write_message t (stamp t m false) in
      (w, if sent then none else some write_failed)
  send_ack t (err e) = (t, some (build_failed e))
  send_ack t _ = (t, none)

  unfoldable pub send_explicit_ack : Transport → Transport × Option Error
  unfolding send_ack own_message
  send_explicit_ack t =
      let v3_ack = new_avp 0 avp_type_message (Value.msg_type avp_msg_type_ack) >>= λ a.
      own_message t (a ∷ []) in
      send_ack t (if t.config.is_version3 then v3_ack else own_message t [])
