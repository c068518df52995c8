-- ===== src/Transport/Receive.antt =====
-- l2tp/transport.go: the receiver's queue, and the early check of a frame.
use go_l2tp_debian.Prelude.{
  ℕ, zero, suc, ◌+◌, Bool, ◌||◌, Option, none, some, List, [], ◌∷◌, ◌++◌, length, take, drop,
  if◌then◌else◌,
}
use go_l2tp_debian.Prelude.Result.{Result, ok, err, invalid_sequence, ◌>>=◌}
use go_l2tp_debian.Prelude.Bytes.{Bytes}
use go_l2tp_debian.Msg.Message.{ControlMessage, message_nr, get_type}
use go_l2tp_debian.Msg.Parse.{parse_message_buffer}
use go_l2tp_debian.Transport.Seq.{seq_increment, seq_compare, is_after}
use go_l2tp_debian.Transport.SlowStart.{increment_nr, msg_is_in_sequence, msg_is_stale}
use go_l2tp_debian.Transport.State.{Transport, is_ack}

-- the check of each message of a frame; the error's text names the message's type
unfoldable pub check_sequence : ℕ → List ControlMessage → Result (List ControlMessage)
check_sequence ns [] = ok []
check_sequence ns (m ∷ ms) =
    let rest = check_sequence ns ms >>= λ l. ok (m ∷ l) in
    if is_after (seq_compare (message_nr m) (seq_increment ns))
    then get_type m >>= (λ t. err invalid_sequence)
    else rest

unfoldable pub recv_frame : Transport → Bytes → Result (List ControlMessage)
unfolding check_sequence
recv_frame t b = do messages ← parse_message_buffer b; check_sequence t.slow_start.ns messages

unfoldable pub can_handle : Transport → ControlMessage → Bool
can_handle t m = msg_is_in_sequence t.slow_start m || msg_is_stale t.slow_start m

-- The loop of `dequeueRxMessage` from index `i`, with a round for each index left. Each round looks
-- at the head of the queue, and removes the message at the index.
unfoldable pub dequeue_at :
    ℕ → ℕ → List ControlMessage → Transport → Transport × Option ControlMessage
dequeue_at left i [] t = (t, none)
dequeue_at zero i (m ∷ ms) t = (t, none)
dequeue_at (suc left) i (m ∷ ms) t =
    let rest = dequeue_at left (i + 1) (m ∷ ms) t in
    if can_handle t m
    then (record t { rx_queue = take i (m ∷ ms) ++ drop (i + 1) (m ∷ ms) }, some m)
    else rest

unfoldable pub dequeue_rx_message : Transport → Transport × Option ControlMessage
unfolding dequeue_at can_handle
dequeue_rx_message t = dequeue_at (length t.rx_queue) 0 t.rx_queue t

-- what `processRxQueue` does with a message that it has taken off the queue
unfoldable pub handle_rx : Transport → ControlMessage → Transport
handle_rx t m =
    if is_ack m
    then t
    else if msg_is_in_sequence t.slow_start m
    then record t { slow_start = increment_nr t.slow_start; delivered = t.delivered ++ m ∷ [] }
    else t

-- the body of the loop, by what was taken off the queue
unfoldable pub rx_on : (Transport → Transport) → Transport × Option ControlMessage → Transport
rx_on next (t, none) = t
rx_on next (t, some m) = next (handle_rx t m)

-- the loop, on fuel
unfoldable pub rx_loop : ℕ → Transport → Transport
unfolding rx_on
rx_loop zero t = t
rx_loop (suc fuel) t = rx_on (λ u. rx_loop fuel u) (dequeue_rx_message t)

-- A round takes a message off the queue, so one round more than there are messages is enough.
unfoldable pub process_rx_queue : Transport → Transport
unfolding rx_loop dequeue_rx_message handle_rx
process_rx_queue t = rx_loop (length t.rx_queue + 1) t
