-- ===== src/Transport/AckOrder.antt =====
-- `processAckQueue` completes the acknowledged messages at the front of the queue.
use go_l2tp_debian.Prelude.{
  ℕ, zero, suc, ◌+◌, ◌≤◌, ◌≡◌, refl, ◌∙◌, ap, arith, Bool, true, false, ◌||◌, none, List, inl, inr,
  [], ◌∷◌, ◌++◌, length, take, drop, ltb, lt→ltb, Bool-cases,
}
use go_l2tp_debian.Transport.SlowStart.{on_ack}
use go_l2tp_debian.Transport.State.{Transport, tx_complete}
use go_l2tp_debian.Transport.Ack.{acks, take_ack, ack_on, ack_loop, process_ack_queue}

-- message `id` leaves the queue `id ∷ ids` as acknowledged
unfoldable pub settle_one : Transport → ℕ → List ℕ → Transport
settle_one t id ids =
    tx_complete
      (record t { slow_start = on_ack t.slow_start t.config.tx_window_size; ack_queue = ids }) id
      none

-- the queue's messages from the front, up to the first that is not acknowledged
unfoldable pub settle : ℕ → List ℕ → Transport → Transport
settle nr [] t = t
settle nr (id ∷ ids) t = elim (acks t nr id) [
  | true ↦ settle nr ids (settle_one t id ids)
  | false ↦ t
]

unfoldable pub front_acked : ℕ → List ℕ → Transport → Bool
front_acked nr [] t = false
front_acked nr (id ∷ ids) t = acks t nr id

pub ack_queue-settle_one :
    (t : Transport) (id : ℕ) (ids : List ℕ) → (settle_one t id ids).ack_queue ≡ ids
unfolding settle_one tx_complete
ack_queue-settle_one t id ids = ground arith

ack_on-behind :
    (next : ℕ → Transport → Bool → Transport × Bool) (nr i id : ℕ) (ids q : List ℕ) (t : Transport)
    (found : Bool)
    → q ≡ id ∷ ids
    → acks t nr id ≡ false
    → ack_on next nr i q t found ≡ next (i + 1) t found
unfolding ack_on
ack_on-behind next nr i id ids q t found e a = rw (e, ack_on, a)

ack_on-reached :
    (next : ℕ → Transport → Bool → Transport × Bool) (nr i id : ℕ) (ids q : List ℕ) (t : Transport)
    (found : Bool)
    → q ≡ id ∷ ids
    → acks t nr id ≡ true
    → ack_on next nr i q t found ≡ next i (take_ack t i id) true
unfolding ack_on
ack_on-reached next nr i id ids q t found e a = rw (e, ack_on, a)

-- while the head is not acknowledged the loop changes nothing
ack_loop-blocked :
    (fuel nr i : ℕ) (t : Transport) (found : Bool) (id : ℕ) (ids : List ℕ)
    → t.ack_queue ≡ id ∷ ids
    → acks t nr id ≡ false
    → ack_loop fuel nr i t found ≡ (t, found)
unfolding ack_loop
ack_loop-blocked zero nr i t found id ids q a = refl
ack_loop-blocked (suc fuel) nr i t found id ids q a =
    let on = ack_on-behind (λ j u f. ack_loop fuel nr j u f) nr i id ids t.ack_queue t found q a in
    elim (Bool-cases (ltb i (length t.ack_queue))) [
      | inl more ↦ rw (more, on) (ack_loop-blocked fuel nr (i + 1) t found id ids q a)
      | inr done ↦ rw done
    ]

take_ack-head :
    (t : Transport) (id : ℕ) (ids : List ℕ)
    → t.ack_queue ≡ id ∷ ids
    → take_ack t 0 id ≡ settle_one t id ids
unfolding take_ack settle_one
take_ack-head t id ids q =
    ap
      (λ rest.
        tx_complete
          (record t { slow_start = on_ack t.slow_start t.config.tx_window_size; ack_queue = rest })
          id none)
      (ap (λ l. take 0 l ++ drop 1 l) q)

or_false : (b : Bool) → b ≡ b || false
or_false true = refl
or_false false = refl

or_true : (b : Bool) → true ≡ b || true
or_true true = refl
or_true false = refl

pub settle-reached :
    (nr id : ℕ) (ids : List ℕ) (t : Transport)
    → acks t nr id ≡ true
    → settle nr (id ∷ ids) t ≡ settle nr ids (settle_one t id ids)
unfolding settle
settle-reached nr id ids t a = rw (settle, a)

pub settle-behind :
    (nr id : ℕ) (ids : List ℕ) (t : Transport) → acks t nr id ≡ false → settle nr (id ∷ ids) t ≡ t
unfolding settle
settle-behind nr id ids t a = rw (settle, a)

ack_loop-empty :
    (fuel nr : ℕ) (t : Transport) (found : Bool)
    → t.ack_queue ≡ []
    → ack_loop fuel nr 0 t found ≡ (t, found)
unfolding ack_loop
ack_loop-empty zero nr t found q = refl
ack_loop-empty (suc fuel) nr t found q =
    let done : ltb 0 (length t.ack_queue) ≡ false = ap (λ l. ltb 0 (length l)) q in rw done

ack_loop-reached :
    (fuel nr : ℕ) (t : Transport) (found : Bool) (id : ℕ) (ids : List ℕ)
    → t.ack_queue ≡ id ∷ ids
    → acks t nr id ≡ true
    → ack_loop (suc fuel) nr 0 t found ≡ ack_loop fuel nr 0 (settle_one t id ids) true
unfolding ack_loop
ack_loop-reached fuel nr t found id ids q a =
    let more : ltb 0 (length t.ack_queue) ≡ true =
      ap (λ l. ltb 0 (length l)) q ∙ lt→ltb 0 (suc (length ids)) (omega arith) in
    let on = ack_on-reached (λ j u f. ack_loop fuel nr j u f) nr 0 id ids t.ack_queue t found q a in
    rw (more, on) (ap (λ u. ack_loop fuel nr 0 u true) (take_ack-head t id ids q))

ack_loop-settle :
    (ids : List ℕ) (nr fuel : ℕ) (t : Transport) (found : Bool)
    → t.ack_queue ≡ ids
    → length ids ≤ fuel
    → ack_loop fuel nr 0 t found ≡ (settle nr ids t, found || front_acked nr ids t)
unfolding settle front_acked
ack_loop-settle [] nr fuel t found q h =
    ack_loop-empty fuel nr t found q ∙ ap (λ b. (t, b)) (or_false found)
ack_loop-settle (id ∷ ids) nr zero t found q h = absurd (omega arith)
ack_loop-settle (id ∷ ids) nr (suc fuel) t found q h =
    let u = settle_one t id ids in
    elim (Bool-cases (acks t nr id)) [
      | inl now ↦
          ack_loop-reached fuel nr t found id ids q now
          ∙ ack_loop-settle ids nr fuel u true (ack_queue-settle_one t id ids) (omega arith)
          ∙ rw (settle-reached nr id ids t now, now)
              (ap (λ b. (settle nr ids u, b)) (or_true found))
      | inr later ↦
          ack_loop-blocked (suc fuel) nr 0 t found id ids q later
          ∙ rw (settle-behind nr id ids t later, later) (ap (λ b. (t, b)) (or_false found))
    ]

pub process_ack_queue-settle :
    (t : Transport) (nr : ℕ)
    → process_ack_queue t nr ≡ (settle nr t.ack_queue t, front_acked nr t.ack_queue t)
unfolding process_ack_queue
process_ack_queue-settle t nr =
    ack_loop-settle t.ack_queue nr (length t.ack_queue) t false refl (omega arith)
