-- ===== src/Tests/TransportRuns.antt =====
-- l2tp/transport.go: the theorems on the transport at concrete inputs.
use go_l2tp_debian.Prelude.{
  ℕ, ◌≡◌, refl, arith, true, false, none, List, [], ◌∷◌, ◌++◌, ltb, if◌then◌else◌, ◌==◌,
}
use go_l2tp_debian.Prelude.Int.{pos, negsuc}
use go_l2tp_debian.Prelude.Result.{shut_down_by_user}
use go_l2tp_debian.Prelude.Bytes.{read_u16}
use go_l2tp_debian.Avp.Info.{DataType, get_avp_info}
use go_l2tp_debian.Avp.Encode.{encode_payload, new_avp}
use go_l2tp_debian.Avp.Payload.{decode_msg_type, to_uint16}
use go_l2tp_debian.Msg.Message.{ControlMessage, v2, new_v3_control_message, get_type, first_type}
use go_l2tp_debian.Transport.Seq.{seq_increment, seq_compare}
use go_l2tp_debian.Transport.SlowStart.{new_slow_start, msg_is_in_sequence, msg_is_stale}
use go_l2tp_debian.Transport.SeqOrder.{distance, advance, seq_compare-distance}
use go_l2tp_debian.Transport.State.{
  XmitMsg, Transport, default_transport_config, reset_hello_timer, sanitise_config,
  started_transport, is_ack,
}
use go_l2tp_debian.Transport.Send.{
  stamp, add_message, own_message, write_message, after_send, send_message, send_hello,
  send_hello_message,
}
use go_l2tp_debian.Transport.Hello.{IsPending, acknowledge, hello_not_acked}
use go_l2tp_debian.Transport.Receive.{can_handle, dequeue_rx_message, process_rx_queue}
use go_l2tp_debian.Transport.Order.{process_rx_queue-blocked, process_rx_queue-done}
use go_l2tp_debian.Transport.Delivery.{Consecutive, process_rx_queue-Consecutive}
use go_l2tp_debian.Transport.Flight.{Sound}
use go_l2tp_debian.Transport.Outcomes.{GoesOnSound}
use go_l2tp_debian.Transport.Invariant.{started_transport-Sound, sender_step-Sound}
use go_l2tp_debian.Transport.Complete.{AllComplete, down-AllComplete}
use go_l2tp_debian.Transport.Events.{send_request, sender_step, down}

-- a HELLO message with this number
abbrev hello_msg : ℕ → ControlMessage
hello_msg n = v2 (record {
  header = record {
    common = record { flags_ver = 0xc802; len = 20 };
    tid = 90;
    sid = 0;
    ns = n;
    nr = 0;
  };
  avps =
      (record {
        header = record { flag_len = 0x8008; vendor_id = 0; avp_type = 0 };
        payload = record { data_type = DataType.msg_id; data_bytes = 0 ∷ 6 ∷ [] };
      })
      ∷ [];
})

abbrev no_messages : ℕ → XmitMsg
no_messages j = record {
  msg = hello_msg j;
  nretries = 0;
  is_complete = false;
  retry_timer = false;
  is_hello = false;
}

abbrev fresh : Transport
fresh = started_transport no_messages default_transport_config

-- messages 0 and 1 wait for an acknowledgement, 2 waits to be sent
abbrev busy : Transport
busy = record fresh { ack_queue = 0 ∷ 1 ∷ []; tx_queue = 2 ∷ [] }

abbrev receiving : List ControlMessage → Transport
receiving ms = record fresh { rx_queue = ms }

seq_compare-distance_example : seq_compare 2 65535 ≡ (
    if distance 2 65535 == 0
    then pos 0
    else if ltb (distance 2 65535) 32768
    then pos 1
    else negsuc 0)
seq_compare-distance_example = seq_compare-distance 2 65535 (omega arith) (omega arith)

fresh-Sound : Sound fresh
fresh-Sound = started_transport-Sound no_messages default_transport_config

sender_step-Sound_example : GoesOnSound (sender_step (λ n. true) fresh (send_request (hello_msg 0)))
sender_step-Sound_example =
    sender_step-Sound (λ n. true) fresh (send_request (hello_msg 0)) fresh-Sound

receiving-Consecutive : Consecutive fresh.slow_start.nr (hello_msg 0 ∷ hello_msg 1 ∷ [])
unfolding started_transport new_slow_start sanitise_config reset_hello_timer seq_compare
    seq_increment is_ack get_type first_type decode_msg_type to_uint16 read_u16 can_handle
    msg_is_in_sequence msg_is_stale
receiving-Consecutive = (refl, refl, (refl, refl, tt))

process_rx_queue-Consecutive_example :
    let t = receiving (hello_msg 0 ∷ hello_msg 1 ∷ []) in
    ((process_rx_queue t).rx_queue ≡ [])
    × ((process_rx_queue t).delivered ≡ t.delivered ++ t.rx_queue)
    × ((process_rx_queue t).slow_start.nr ≡ advance 2 t.slow_start.nr)
process_rx_queue-Consecutive_example =
    process_rx_queue-Consecutive (receiving (hello_msg 0 ∷ hello_msg 1 ∷ [])) receiving-Consecutive

process_rx_queue-done_example :
    let t = receiving (hello_msg 0 ∷ hello_msg 5 ∷ []) in
    dequeue_rx_message (process_rx_queue t) ≡ (process_rx_queue t, none)
process_rx_queue-done_example = process_rx_queue-done (receiving (hello_msg 0 ∷ hello_msg 5 ∷ []))

early-blocked : can_handle (receiving (hello_msg 1 ∷ hello_msg 0 ∷ [])) (hello_msg 1) ≡ false
unfolding started_transport new_slow_start sanitise_config reset_hello_timer seq_compare
    seq_increment is_ack get_type first_type decode_msg_type to_uint16 read_u16 can_handle
    msg_is_in_sequence msg_is_stale
early-blocked = refl

process_rx_queue-blocked_example :
    process_rx_queue (receiving (hello_msg 1 ∷ hello_msg 0 ∷ []))
    ≡ receiving (hello_msg 1 ∷ hello_msg 0 ∷ [])
process_rx_queue-blocked_example =
    process_rx_queue-blocked (receiving (hello_msg 1 ∷ hello_msg 0 ∷ [])) (hello_msg 1)
      (hello_msg 0 ∷ []) refl early-blocked

down-AllComplete_example :
    ((down busy shut_down_by_user).tx_queue ≡ [])
    × ((down busy shut_down_by_user).ack_queue ≡ [])
    × AllComplete (down busy shut_down_by_user) (2 ∷ [])
    × AllComplete (down busy shut_down_by_user) (0 ∷ 1 ∷ [])
    × ((down busy shut_down_by_user).hello_timer ≡ false)
    × ((down busy shut_down_by_user).ack_timer ≡ false)
down-AllComplete_example = down-AllComplete busy shut_down_by_user

-- messages 0 and 1 wait for an acknowledgement, and the next message is number 3
abbrev idle : Transport
idle = record fresh { ack_queue = 0 ∷ 1 ∷ []; next_id = 3 }

hello_is_sent : (send_hello_message (λ n. true) idle).1 ≡ none
unfolding send_hello_message own_message send_hello add_message send_message write_message stamp
    after_send new_avp get_avp_info encode_payload started_transport sanitise_config
    reset_hello_timer new_slow_start new_v3_control_message
hello_is_sent = refl

hello_not_acked_example :
    IsPending ((acknowledge (9 ∷ 4 ∷ []) (send_hello_message (λ n. true) idle).0).store 3)
hello_not_acked_example =
    hello_not_acked (λ n. true) idle (9 ∷ 4 ∷ [])
      (λ e. omega (arith, e), (λ e. omega (arith, e), tt)) hello_is_sent
