-- ===== src/Transport/Hello.antt =====
-- l2tp/transport.go: what acknowledgements do to a hello message.
use go_l2tp_debian.Prelude.{
  ℕ, ◌≡◌, ◌≢◌, inl, inr, refl, sym, subst, ap, ◌∙◌, ◌+◌, ◌++◌, arith, Bool, true, false, none, List,
  [], ◌∷◌, All, Bool-cases, ltb,
}
use go_l2tp_debian.Prelude.Result.{Result}
use go_l2tp_debian.Avp.Types.{avp_type_message}
use go_l2tp_debian.Avp.MsgTypes.{avp_msg_type_hello}
use go_l2tp_debian.Avp.Info.{get_avp_info}
use go_l2tp_debian.Avp.Payload.{Avp, Value}
use go_l2tp_debian.Avp.Encode.{encode_payload, new_avp}
use go_l2tp_debian.Pppoe.Parse.Ends.{
  Returns, returns_value, returns_error, Returns-bind, Returns-if, Returns-map,
}
use go_l2tp_debian.Msg.Message.{ControlMessage, v2, new_v2_control_message, new_v3_control_message}
use go_l2tp_debian.Transport.State.{
  XmitMsg, Transport, put, tx_complete, toggle_ack_timer, reset_hello_timer,
}
use go_l2tp_debian.Transport.Send.{
  stamp, add_message, own_message, write_message, after_send, send_message, send_hello,
  send_hello_message,
}
use go_l2tp_debian.Transport.Ack.{acks, process_ack_queue}
use go_l2tp_debian.Transport.AckOrder.{
  settle_one, settle, settle-reached, settle-behind, process_ack_queue-settle, ack_queue-settle_one,
}
use go_l2tp_debian.Transport.Invariant.{send_hello_message-SameFlight}

-- message `j` is none of these
abbrev pub NotAmong : ℕ → List ℕ → Type 0
NotAmong j ids = All (λ id. id ≢ j) ids

-- the message waits for an acknowledgement, and its retry timer runs
pub record IsPending (m : XmitMsg) : Type 0 where
  pub uncompleted : m.is_complete ≡ false
  pub retries : m.retry_timer ≡ true

-- message `j` is pending, and stands outside the queue of unacknowledged messages
record Outside (j : ℕ) (t : Transport) : Type 0 where
  unqueued : NotAmong j t.ack_queue
  pending : IsPending (t.store j)

-- the transport after these numbers were acknowledged, one after the other
unfoldable pub acknowledge : List ℕ → Transport → Transport
acknowledge [] t = t
acknowledge (nr ∷ nrs) t = acknowledge nrs (process_ack_queue t nr).0

store-settle_one :
    (t : Transport) (id j : ℕ) (ids : List ℕ) → id ≢ j → (settle_one t id ids).store j ≡ t.store j
unfolding settle_one tx_complete
store-settle_one t id j ids h = ground arith

settle_one-Outside :
    (t : Transport) (id j : ℕ) (ids : List ℕ)
    → id ≢ j
    → NotAmong j ids
    → Outside j t
    → Outside j (settle_one t id ids)
settle_one-Outside t id j ids h hs o = record {
  unqueued = subst (NotAmong j) (sym (ack_queue-settle_one t id ids)) hs;
  pending = subst IsPending (sym (store-settle_one t id j ids h)) o.pending;
}

settle-Outside :
    (ids : List ℕ) (nr j : ℕ) (t : Transport)
    → NotAmong j ids
    → Outside j t
    → Outside j (settle nr ids t)
unfolding settle
settle-Outside [] nr j t h o = o
settle-Outside (id ∷ ids) nr j t (h, hs) o = elim (Bool-cases (acks t nr id)) [
  | inl now ↦
      subst (Outside j) (sym (settle-reached nr id ids t now))
        (settle-Outside ids nr j (settle_one t id ids) hs (settle_one-Outside t id j ids h hs o))
  | inr later ↦ subst (Outside j) (sym (settle-behind nr id ids t later)) o
]

-- An acknowledgement changes no message outside the queue of unacknowledged messages.
process_ack_queue-Outside :
    (t : Transport) (nr j : ℕ) → Outside j t → Outside j (process_ack_queue t nr).0
process_ack_queue-Outside t nr j o =
    subst (λ r. Outside j r.0) (sym (process_ack_queue-settle t nr))
      (settle-Outside t.ack_queue nr j t o.unqueued o)

acknowledge-Outside :
    (nrs : List ℕ) (t : Transport) (j : ℕ) → Outside j t → Outside j (acknowledge nrs t)
unfolding acknowledge
acknowledge-Outside [] t j o = o
acknowledge-Outside (nr ∷ nrs) t j o =
    acknowledge-Outside nrs (process_ack_queue t nr).0 j (process_ack_queue-Outside t nr j o)

put-same : (store : ℕ → XmitMsg) (id : ℕ) (m : XmitMsg) → put store id m id ≡ m
put-same store id m = ground arith

module _ (accepts_write : ℕ → Bool) where
  after_send-IsPending :
      (t : Transport) (id : ℕ)
      → (t.store id).is_complete ≡ false
      → IsPending ((after_send accepts_write t id).store id)
  unfolding after_send
  after_send-IsPending t id new =
      subst IsPending
        (sym (
          put-same (reset_hello_timer (toggle_ack_timer t false)).store id
            (record (t.store id) { retry_timer = true })))
        (record { uncompleted = new; retries = refl })

  -- a message that is new in the store, and was sent without an error
  send_message-IsPending :
      (t : Transport) (id : ℕ)
      → (send_message accepts_write t id).1 ≡ none
      → (t.store id).is_complete ≡ false
      → IsPending ((send_message accepts_write t id).0.store id)
  unfolding send_message write_message
  send_message-IsPending t id sent new =
      let stamped = stamp t (t.store id).msg (ltb 0 (t.store id).nretries) in
      let m : XmitMsg = record (t.store id) { msg = stamped } in
      let w : Transport = record t {
        store = put t.store id m;
        writes = t.writes + 1;
        wire = t.wire ++ stamped ∷ [];
      } in
      elim (Bool-cases (accepts_write t.writes)) [
        | inl taken ↦
            rw taken
              (after_send-IsPending w id (ap (λ x. x.is_complete) (put-same t.store id m) ∙ new))
        | inr refused ↦ absurd (ground arith)
      ]

  send_hello-IsPending :
      (t : Transport) (built : Result ControlMessage)
      → Returns built
      → (send_hello accepts_write t built).1 ≡ none
      → IsPending ((send_hello accepts_write t built).0.store t.next_id)
  unfolding send_hello add_message
  send_hello-IsPending t built (returns_value m) sent =
      send_message-IsPending _ t.next_id sent
        (ap (λ x. x.is_complete) (put-same t.store t.next_id _))
  send_hello-IsPending t built (returns_error e) sent = cc

own_message-Returns : (t : Transport) (avps : List Avp) → Returns (own_message t avps)
unfolding own_message new_v2_control_message new_v3_control_message
own_message-Returns t avps =
    let id = t.config.peer_control_conn_id in
    Returns-if t.config.is_version3 _ _ (returns_value _) (
      Returns-map v2 (new_v2_control_message id 0 avps)
        (Returns-if (ltb 65535 id) _ _ (returns_error _) (returns_value _)))

hello_avp-Returns : Returns (new_avp 0 avp_type_message (Value.msg_type avp_msg_type_hello))
unfolding new_avp get_avp_info encode_payload
hello_avp-Returns = returns_value _

send_hello_message-IsPending :
    (accepts_write : ℕ → Bool) (t : Transport)
    → (send_hello_message accepts_write t).1 ≡ none
    → IsPending ((send_hello_message accepts_write t).0.store t.next_id)
unfolding send_hello_message
send_hello_message-IsPending accepts_write t sent =
    send_hello-IsPending accepts_write t _
      (Returns-bind (new_avp 0 avp_type_message (Value.msg_type avp_msg_type_hello)) _
        hello_avp-Returns (λ a. own_message-Returns t (a ∷ [])))
      sent

-- Where the number that the hello message gets is not in the queue of unacknowledged messages, and
-- sendHelloMessage returns no error: after any sequence of acknowledgements the message is not
-- completed, and its retry timer runs.
pub hello_not_acked :
    (accepts_write : ℕ → Bool) (t : Transport) (nrs : List ℕ)
    → NotAmong t.next_id t.ack_queue
    → (send_hello_message accepts_write t).1 ≡ none
    → IsPending ((acknowledge nrs (send_hello_message accepts_write t).0).store t.next_id)
hello_not_acked accepts_write t nrs new sent =
    let same = send_hello_message-SameFlight accepts_write t in
    let o = acknowledge-Outside nrs (send_hello_message accepts_write t).0 t.next_id (record {
      unqueued = subst (NotAmong t.next_id) (sym same.queue_eq) new;
      pending = send_hello_message-IsPending accepts_write t sent;
    }) in
    o.pending
