-- ===== src/Transport/Delivery.antt =====
-- What the receiver hands on from a queue in sequence: each message once, in order.
use go_l2tp_debian.Prelude.{
  ℕ, zero, suc, ◌+◌, ◌<◌, ◌≡◌, refl, sym, ◌∙◌, ap, arith, true, false, List, [], ◌∷◌, ◌++◌,
  append_assoc, append-nil, length,
}
use go_l2tp_debian.Msg.Message.{ControlMessage, message_ns}
use go_l2tp_debian.Transport.Seq.{seq_increment, seq_compare, is_same}
use go_l2tp_debian.Transport.SlowStart.{increment_nr, msg_is_in_sequence}
use go_l2tp_debian.Transport.SeqOrder.{advance}
use go_l2tp_debian.Transport.State.{Transport, is_ack}
use go_l2tp_debian.Transport.Receive.{can_handle, handle_rx, rx_on, rx_loop, process_rx_queue}
use go_l2tp_debian.Transport.Order.{head_only, rx_loop-next_round, rx_loop-handled}

-- the numbers of these messages count up from `s`, and none is an acknowledgement
abbrev pub Consecutive : ℕ → List ControlMessage → Type 0
Consecutive s [] = Unit
Consecutive s (m ∷ ms) =
    (is_same (seq_compare s (message_ns m)) ≡ true)
    × (is_ack m ≡ false)
    × Consecutive (seq_increment s) ms

-- the state when the messages are handed on, and the number expected next counts them
abbrev pub deliver : List ControlMessage → Transport → Transport
deliver [] t = t
deliver (m ∷ ms) t = deliver ms (record t {
  rx_queue = ms;
  slow_start = increment_nr t.slow_start;
  delivered = t.delivered ++ m ∷ [];
})

handle_rx-in_sequence :
    (t : Transport) (m : ControlMessage)
    → msg_is_in_sequence t.slow_start m ≡ true
    → is_ack m ≡ false
    → handle_rx t m
      ≡ record t { slow_start = increment_nr t.slow_start; delivered = t.delivered ++ m ∷ [] }
unfolding handle_rx
handle_rx-in_sequence t m h a = rw (handle_rx, a, h)

can_handle-in_sequence :
    (t : Transport) (m : ControlMessage)
    → msg_is_in_sequence t.slow_start m ≡ true
    → can_handle t m ≡ true
unfolding can_handle
can_handle-in_sequence t m h = rw (can_handle, h)

rx_loop-empty : (fuel : ℕ) (t : Transport) → t.rx_queue ≡ [] → rx_loop fuel t ≡ t
unfolding rx_loop rx_on
rx_loop-empty zero t q = refl
rx_loop-empty (suc fuel) t q =
    rx_loop-next_round fuel t ∙ ap (λ l. rx_on (λ u. rx_loop fuel u) (head_only l t)) q

rx_loop-deliver :
    (ms : List ControlMessage) (fuel : ℕ) (t : Transport)
    → t.rx_queue ≡ ms
    → length ms < fuel
    → Consecutive t.slow_start.nr ms
    → rx_loop fuel t ≡ deliver ms t
unfolding msg_is_in_sequence increment_nr
rx_loop-deliver ms zero t q h c = absurd (omega arith)
rx_loop-deliver [] (suc fuel) t q h c = rx_loop-empty (suc fuel) t q
rx_loop-deliver (m ∷ ms) (suc fuel) t q h (s, a, c) =
    let u = record t { rx_queue = ms } in
    rx_loop-handled fuel t m ms q (can_handle-in_sequence t m s)
    ∙ ap (rx_loop fuel) (handle_rx-in_sequence u m s a)
    ∙ rx_loop-deliver ms fuel
        (record u { slow_start = increment_nr t.slow_start; delivered = t.delivered ++ m ∷ [] })
        refl (omega arith) c

advance_first : (k s : ℕ) → advance k (seq_increment s) ≡ seq_increment (advance k s)
advance_first zero s = refl
advance_first (suc k) s = ap seq_increment (advance_first k s)

rx_queue-deliver :
    (ms : List ControlMessage) (t : Transport) → t.rx_queue ≡ ms → (deliver ms t).rx_queue ≡ []
rx_queue-deliver [] t q = q
rx_queue-deliver (m ∷ ms) t q =
    rx_queue-deliver ms
      (record t {
        rx_queue = ms;
        slow_start = increment_nr t.slow_start;
        delivered = t.delivered ++ m ∷ [];
      })
      refl

delivered-deliver :
    (ms : List ControlMessage) (t : Transport) → (deliver ms t).delivered ≡ t.delivered ++ ms
delivered-deliver [] t = sym (append-nil t.delivered)
delivered-deliver (m ∷ ms) t =
    delivered-deliver ms (record t {
      rx_queue = ms;
      slow_start = increment_nr t.slow_start;
      delivered = t.delivered ++ m ∷ [];
    })
    ∙ append_assoc t.delivered (m ∷ []) ms

nr-deliver :
    (ms : List ControlMessage) (t : Transport)
    → (deliver ms t).slow_start.nr ≡ advance (length ms) t.slow_start.nr
unfolding increment_nr
nr-deliver [] t = refl
nr-deliver (m ∷ ms) t =
    nr-deliver ms (record t {
      rx_queue = ms;
      slow_start = increment_nr t.slow_start;
      delivered = t.delivered ++ m ∷ [];
    })
    ∙ advance_first (length ms) t.slow_start.nr

-- When the queue holds messages other than acknowledgements whose numbers count up from the number
-- that is expected, across the wrap too, `processRxQueue` empties the queue, hands every message on,
-- in order, and expects the number after the last.
pub process_rx_queue-Consecutive :
    (t : Transport)
    → Consecutive t.slow_start.nr t.rx_queue
    → ((process_rx_queue t).rx_queue ≡ [])
      × ((process_rx_queue t).delivered ≡ t.delivered ++ t.rx_queue)
      × ((process_rx_queue t).slow_start.nr ≡ advance (length t.rx_queue) t.slow_start.nr)
unfolding process_rx_queue
process_rx_queue-Consecutive t c =
    let q = t.rx_queue in
    let e = rx_loop-deliver q (length q + 1) t refl (omega arith) c in
    (
      ap (λ u. u.rx_queue) e ∙ rx_queue-deliver q t refl,
      ap (λ u. u.delivered) e ∙ delivered-deliver q t,
      ap (λ u. u.slow_start.nr) e ∙ nr-deliver q t,
    )
