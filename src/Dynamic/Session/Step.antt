-- ===== src/Dynamic/Session/Step.antt =====
-- l2tp/l2tp_dynamic_session.go: the session's events, its messages and its loop.
use go_l2tp_debian.Prelude.{ℕ, Option, none, some, List, [], ◌∷◌, ◌==◌, if◌then◌else◌}
use go_l2tp_debian.Prelude.Result.{Result, Error, ok, err, panic, stuck, ◌>>=◌}
use go_l2tp_debian.Prelude.Bytes.{u16}
use go_l2tp_debian.Fsm
use go_l2tp_debian.Avp.MsgTypes.{
  avp_msg_type_icrq, avp_msg_type_icrp, avp_msg_type_iccn, avp_msg_type_cdn,
}
use go_l2tp_debian.Msg.Message.{ControlMessage, V2ControlMessage, v2, v3, get_type, validate}
use go_l2tp_debian.Dynamic.Args.{
  bad_message, unhandled_message, Arg, result_code, error_code, string, message,
  avp_cdn_result_code_general_error, avp_cdn_result_code_admin_disconnect, avp_error_code_bad_value,
}
use go_l2tp_debian.Dynamic.Session.State.{
  SessionState, SessionEvent, tunnelopen, icrq, icrp, iccn, cdn, close, SessionAct, DynamicSession,
  session_table, state_eq, event_eq,
}
use go_l2tp_debian.Dynamic.Session.Act.{Surroundings, fsm_act_close, run_act}

-- what the session's goroutine receives
pub data Input : Type 0 where
  control_message : ControlMessage → Input
  tunnel_up kill user_close : Input

-- the arguments of the event `close` for a message that does not validate
abbrev pub bad_args : ℕ → Error → List Arg
bad_args t e =
    result_code avp_cdn_result_code_general_error
    ∷ error_code avp_error_code_bad_value
    ∷ string (bad_message t e)
    ∷ []

module _ (w : Surroundings) where
  unfoldable pub run_cb :
      (List Arg → DynamicSession → Result DynamicSession)
      → Option SessionAct
      → List Arg
      → DynamicSession
      → Result DynamicSession
  unfolding run_act
  run_cb again none args s = ok s
  run_cb again (some act) args s = run_act w again act args s

  -- `handleEvent` by what the state machine says: the state is set before the callback runs, and
  -- with no transition the session is closed
  unfoldable pub on_transition :
      (List Arg → DynamicSession → Result DynamicSession)
      → List Arg
      → DynamicSession
      → Result (SessionState × Option SessionAct)
      → Result DynamicSession
  unfolding run_cb
  on_transition again args s (ok (next, cb)) = run_cb again cb args (record s { state = next })
  on_transition again args s (err e) = ok (fsm_act_close s)
  on_transition again args s (panic p) = panic p
  on_transition again args s stuck = stuck

  unfoldable pub handle_with :
      (List Arg → DynamicSession → Result DynamicSession)
      → SessionEvent
      → List Arg
      → DynamicSession
      → Result DynamicSession
  unfolding on_transition
  handle_with again e args s = on_transition again args s (Fsm.handle_event s.state session_table e)

  -- `handleEvent`. The only callback that calls it again does so for the event `close`, of which no
  -- callback calls it again: two levels are enough.
  unfoldable pub handle_event : SessionEvent → List Arg → DynamicSession → Result DynamicSession
  unfolding handle_with
  handle_event = handle_with (handle_with (λ args s. stuck) close)

  unfoldable pub close_on : ℕ → Result (Unit {0}) → DynamicSession → Result DynamicSession
  unfolding handle_event
  close_on t (ok u) s = ok s
  close_on t (err e) s = handle_event close (bad_args t e) s
  close_on t (panic p) s = panic p
  close_on t stuck s = stuck

  -- the event that belongs to the type of a message
  unfoldable pub dispatch : ℕ → V2ControlMessage → DynamicSession → Result DynamicSession
  unfolding handle_event
  dispatch t msg s =
      if t == avp_msg_type_icrq
      then handle_event icrq (message msg ∷ []) s
      else if t == avp_msg_type_icrp
      then handle_event icrp (message msg ∷ []) s
      else if t == avp_msg_type_iccn
      then handle_event iccn (message msg ∷ []) s
      else if t == avp_msg_type_cdn
      then handle_event cdn (message msg ∷ []) s
      else handle_event close
          (result_code avp_cdn_result_code_general_error
            ∷ error_code avp_error_code_bad_value
            ∷ string (unhandled_message t)
            ∷ [])
          s

  -- A message that does not validate closes the session; the code then goes on with it.
  unfoldable pub handle_v2_msg : V2ControlMessage → DynamicSession → Result DynamicSession
  unfolding close_on dispatch
  handle_v2_msg msg s =
      let handled : Result DynamicSession = do
        t ← get_type (v2 msg)
        s1 ← close_on t (validate (v2 msg)) s
        dispatch t msg s1
      in if msg.header.sid == u16 s.cfg.session_id then handled else ok s

  -- `handleMsg`: a message of version 3 is logged, and ignored
  unfoldable pub handle_msg : ControlMessage → DynamicSession → Result DynamicSession
  unfolding handle_v2_msg
  handle_msg (v2 m) s = handle_v2_msg m s
  handle_msg (v3 m) s = ok s

  -- one round of `runSession`
  unfoldable pub session_step : Input → DynamicSession → Result DynamicSession
  unfolding handle_msg handle_event
  session_step (control_message m) s = handle_msg m s
  session_step tunnel_up s = handle_event tunnelopen [] s
  session_step kill s = ok (fsm_act_close s)
  session_step user_close s =
      handle_event close (result_code avp_cdn_result_code_admin_disconnect ∷ []) s

  -- the loop, while the session is not closed
  unfoldable pub run_session : List Input → DynamicSession → Result DynamicSession
  unfolding session_step
  run_session [] s = ok s
  run_session (i ∷ is) s =
      let next = session_step i s >>= run_session is in if s.is_closed then ok s else next
