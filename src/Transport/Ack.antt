-- ===== src/Transport/Ack.antt =====
-- l2tp/transport.go: `processAckQueue`.
use go_l2tp_debian.Prelude.{
  ℕ, zero, suc, ◌+◌, Bool, true, false, none, List, [], ◌∷◌, ◌++◌, length, take, drop, ltb,
  if◌then◌else◌,
}
use go_l2tp_debian.Msg.Message.{message_ns}
use go_l2tp_debian.Transport.Seq.{seq_compare, is_after}
use go_l2tp_debian.Transport.SlowStart.{on_ack}
use go_l2tp_debian.Transport.State.{Transport, tx_complete}

-- does `nr` acknowledge message `id`?
unfoldable pub acks : Transport → ℕ → ℕ → Bool
acks t nr id = is_after (seq_compare nr (message_ns (t.store id).msg))

-- the body of the `if`, for the message at the head of the queue and the index `i`
unfoldable pub take_ack : Transport → ℕ → ℕ → Transport
take_ack t i id =
    tx_complete
      (record t {
        slow_start = on_ack t.slow_start t.config.tx_window_size;
        ack_queue = take i t.ack_queue ++ drop (i + 1) t.ack_queue;
      })
      id none

-- The loop from index `i`, on fuel. Each round looks at the head of the queue; one that removes a
-- message leaves the index as it was.
unfoldable pub ack_on :
    (ℕ → Transport → Bool → Transport × Bool) → ℕ → ℕ → List ℕ → Transport → Bool → Transport × Bool
ack_on next nr i [] t found = (t, found)
ack_on next nr i (id ∷ ids) t found = elim (acks t nr id) [
  | true ↦ next i (take_ack t i id) true
  | false ↦ next (i + 1) t found
]

unfoldable pub ack_loop : ℕ → ℕ → ℕ → Transport → Bool → Transport × Bool
unfolding ack_on
ack_loop zero nr i t found = (t, found)
ack_loop (suc fuel) nr i t found =
    let on = ack_on (λ j u f. ack_loop fuel nr j u f) nr i t.ack_queue t found in
    if ltb i (length t.ack_queue) then on else (t, found)

-- A round shortens the queue or raises the index, so a round for each message is enough.
unfoldable pub process_ack_queue : Transport → ℕ → Transport × Bool
unfolding ack_loop acks take_ack
process_ack_queue t nr = ack_loop (length t.ack_queue) nr 0 t false
