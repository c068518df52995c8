-- ===== src/Transport/Order.antt =====
-- What the receiver takes off its queue: the head decides, and the loop runs until it stops.
use go_l2tp_debian.Prelude.{
  ℕ, zero, suc, ◌+◌, ◌<◌, ◌≡◌, inl, inr, refl, ◌∙◌, ap, arith, true, false, Option, none, some,
  List, [], ◌∷◌, length, if◌then◌else◌, Bool-cases,
}
use go_l2tp_debian.Msg.Message.{ControlMessage}
use go_l2tp_debian.Transport.State.{Transport}
use go_l2tp_debian.Transport.Receive.{
  can_handle, dequeue_at, dequeue_rx_message, handle_rx, rx_on, rx_loop, process_rx_queue,
}

dequeue_at-blocked :
    (left i : ℕ) (m : ControlMessage) (ms : List ControlMessage) (t : Transport)
    → can_handle t m ≡ false
    → dequeue_at left i (m ∷ ms) t ≡ (t, none)
unfolding dequeue_at
dequeue_at-blocked zero i m ms t h = refl
dequeue_at-blocked (suc left) i m ms t h = rw (dequeue_at-blocked left (i + 1) m ms t h, h)

-- what `dequeueRxMessage` does: the head of the queue decides
abbrev pub head_only : List ControlMessage → Transport → Transport × Option ControlMessage
head_only [] t = (t, none)
head_only (m ∷ ms) t = if can_handle t m then (record t { rx_queue = ms }, some m) else (t, none)

dequeue_at-head_only :
    (q : List ControlMessage) (t : Transport) → dequeue_at (length q) 0 q t ≡ head_only q t
unfolding dequeue_at
dequeue_at-head_only [] t = refl
dequeue_at-head_only (m ∷ ms) t = elim (Bool-cases (can_handle t m)) [
  | inl now ↦ rw now
  | inr later ↦ rw (later, dequeue_at-blocked (length ms) 1 m ms t later)
]

dequeue_rx_message-head_only : (t : Transport) → dequeue_rx_message t ≡ head_only t.rx_queue t
unfolding dequeue_rx_message
dequeue_rx_message-head_only t = dequeue_at-head_only t.rx_queue t

head_only-blocked :
    (t : Transport) (q ms : List ControlMessage) (m : ControlMessage)
    → q ≡ m ∷ ms
    → can_handle t m ≡ false
    → head_only q t ≡ (t, none)
head_only-blocked t q ms m e h = rw (e, head_only, h)

pub rx_loop-next_round :
    (fuel : ℕ) (t : Transport)
    → rx_loop (suc fuel) t ≡ rx_on (λ u. rx_loop fuel u) (head_only t.rx_queue t)
unfolding rx_loop
rx_loop-next_round fuel t = ap (rx_on (λ u. rx_loop fuel u)) (dequeue_rx_message-head_only t)

-- A message at the head that is neither in sequence nor stale stays there, and nothing behind it is
-- handled, whatever it is.
pub process_rx_queue-blocked :
    (t : Transport) (m : ControlMessage) (ms : List ControlMessage)
    → t.rx_queue ≡ m ∷ ms
    → can_handle t m ≡ false
    → process_rx_queue t ≡ t
unfolding process_rx_queue rx_on
process_rx_queue-blocked t m ms q h =
    ap (λ n. rx_loop n t) {y = suc (length t.rx_queue)} (omega arith)
    ∙ rx_loop-next_round (length t.rx_queue) t
    ∙ ap (rx_on (λ u. rx_loop (length t.rx_queue) u)) (head_only-blocked t t.rx_queue ms m q h)

head_only-handled :
    (t : Transport) (q ms : List ControlMessage) (m : ControlMessage)
    → q ≡ m ∷ ms
    → can_handle t m ≡ true
    → head_only q t ≡ (record t { rx_queue = ms }, some m)
head_only-handled t q ms m e h = rw (e, head_only, h)

pub rx_loop-handled :
    (fuel : ℕ) (t : Transport) (m : ControlMessage) (ms : List ControlMessage)
    → t.rx_queue ≡ m ∷ ms
    → can_handle t m ≡ true
    → rx_loop (suc fuel) t ≡ rx_loop fuel (handle_rx (record t { rx_queue = ms }) m)
unfolding rx_on
rx_loop-handled fuel t m ms q h =
    rx_loop-next_round fuel t
    ∙ ap (rx_on (λ u. rx_loop fuel u)) (head_only-handled t t.rx_queue ms m q h)

rx_queue-handle_rx : (t : Transport) (m : ControlMessage) → (handle_rx t m).rx_queue ≡ t.rx_queue
unfolding handle_rx
rx_queue-handle_rx t m = ground arith

rx_loop-stopped :
    (fuel : ℕ) (t : Transport)
    → head_only t.rx_queue t ≡ (t, none)
    → dequeue_rx_message (rx_loop (suc fuel) t) ≡ (rx_loop (suc fuel) t, none)
unfolding rx_on
rx_loop-stopped fuel t h =
    let e : rx_loop (suc fuel) t ≡ t =
      rx_loop-next_round fuel t ∙ ap (rx_on (λ u. rx_loop fuel u)) h in
    rw e (dequeue_rx_message-head_only t ∙ h)

rx_loop-done :
    (q : List ControlMessage) (fuel : ℕ) (t : Transport)
    → t.rx_queue ≡ q
    → length q < fuel
    → dequeue_rx_message (rx_loop fuel t) ≡ (rx_loop fuel t, none)
rx_loop-done q zero t e h = absurd (omega arith)
rx_loop-done [] (suc fuel) t e h = rx_loop-stopped fuel t (ap (λ l. head_only l t) e)
rx_loop-done (m ∷ ms) (suc fuel) t e h = elim (Bool-cases (can_handle t m)) [
  | inl now ↦ rw (rx_loop-handled fuel t m ms e now) (
      rx_loop-done ms fuel (handle_rx (record t { rx_queue = ms }) m)
        (rx_queue-handle_rx (record t { rx_queue = ms }) m) (omega arith))
  | inr later ↦ rx_loop-stopped fuel t (head_only-blocked t t.rx_queue ms m e later)
]

-- `processRxQueue` runs until `dequeueRxMessage` finds nothing more to take.
pub process_rx_queue-done :
    (t : Transport) → dequeue_rx_message (process_rx_queue t) ≡ (process_rx_queue t, none)
unfolding process_rx_queue
process_rx_queue-done t = rx_loop-done t.rx_queue (length t.rx_queue + 1) t refl (omega arith)
