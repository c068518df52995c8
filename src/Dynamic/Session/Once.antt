-- ===== src/Dynamic/Session/Once.antt =====
-- The counts of a session's announcements over its run.
use go_l2tp_debian.Prelude.{ℕ, ◌≡◌, arith, refl, true, Option, none, some, List, [], ◌∷◌, ◌==◌}
use go_l2tp_debian.Prelude.Result.{
  Result, ok, err, panic, stuck, ◌>>=◌, IfOk, IfOk-bind, IfOk-map, IfOk-any, IfOk-if,
}
use go_l2tp_debian.Avp.Types.{avp_type_session_id}
use go_l2tp_debian.Avp.Info.{vendor_id_ietf}
use go_l2tp_debian.Avp.Find.{find_uint16_avp}
use go_l2tp_debian.Msg.Build.{SessionConfig}
use go_l2tp_debian.Msg.Message.{V2ControlMessage, v2, v3, get_type, validate}
use go_l2tp_debian.Prelude.Bytes.{u16}
use go_l2tp_debian.Avp.MsgTypes.{
  avp_msg_type_icrq, avp_msg_type_icrp, avp_msg_type_iccn, avp_msg_type_cdn,
}
use go_l2tp_debian.Dynamic.Args.{
  unhandled_message, Arg, result_code, error_code, string, message,
  avp_cdn_result_code_general_error, avp_error_code_bad_value, fsm_args_to_v2_msg,
}
use go_l2tp_debian.Dynamic.Session.State.{
  SessionState, SessionEvent, tunnelopen, icrq, icrp, iccn, cdn, close, SessionAct, send_icrq,
  on_icrp, on_cdn, send_cdn, close_session, DynamicSession, new_dynamic_session, state_eq, event_eq,
}
use go_l2tp_debian.Dynamic.Session.Act.{Surroundings, fsm_act_on_icrp, run_act}
use go_l2tp_debian.Dynamic.Session.Step.{
  Input, control_message, tunnel_up, kill, user_close, run_cb, on_transition, handle_with,
  handle_event, bad_args, close_on, dispatch, handle_v2_msg, handle_msg, session_step, run_session,
}
use go_l2tp_debian.Dynamic.Session.Counts.{
  Announced, Quiet, Quiet-Announced, fsm_act_close-Quiet, fsm_act_on_cdn-Quiet,
  fsm_act_send_icrq-Quiet, fsm_act_send_cdn-Quiet,
}
use go_l2tp_debian.Dynamic.Session.Moves.{Before, moves, session_table-moves, moves-Before}
use go_l2tp_debian.Dynamic.Session.Up.{Ready, on_session_id-Announced}

module _ (w : Surroundings) where
  module _ (again : List Arg → DynamicSession → Result DynamicSession)
      (again-Announced : (args : List Arg) (s : DynamicSession)
        → Announced s
        → IfOk Announced (again args s)) where
    fsm_act_on_icrp-Announced :
        (args : List Arg) (s : DynamicSession)
        → Ready s
        → IfOk Announced (fsm_act_on_icrp w again args s)
    unfolding fsm_act_on_icrp
    fsm_act_on_icrp-Announced args s a = IfOk-bind Announced (fsm_args_to_v2_msg args) _ (
        IfOk-any _ (fsm_args_to_v2_msg args) (λ m.
          on_session_id-Announced w again again-Announced s
            (find_uint16_avp m.avps vendor_id_ietf avp_type_session_id) a))

    keep_ok-Announced :
        (s : DynamicSession) (m : Result DynamicSession)
        → IfOk (Quiet s) m
        → Announced s
        → IfOk Announced m
    keep_ok-Announced s m q a = IfOk-map (Quiet s) Announced m (λ t p. Quiet-Announced s t p a) q

    run_cb-Announced :
        (cb : Option SessionAct) (args : List Arg) (s : DynamicSession)
        → Before cb s
        → IfOk Announced (run_cb w again cb args s)
    unfolding run_cb run_act
    run_cb-Announced none args s a = a
    run_cb-Announced (some on_icrp) args s a = fsm_act_on_icrp-Announced args s a
    run_cb-Announced (some send_icrq) args s a =
        keep_ok-Announced s _ (fsm_act_send_icrq-Quiet w s) a
    run_cb-Announced (some on_cdn) args s a = keep_ok-Announced s _ (fsm_act_on_cdn-Quiet args s) a
    run_cb-Announced (some send_cdn) args s a =
        keep_ok-Announced s _ (fsm_act_send_cdn-Quiet w args s) a
    run_cb-Announced (some close_session) args s a = Quiet-Announced s _ (fsm_act_close-Quiet s) a

    on_transition-Announced :
        (args : List Arg) (s : DynamicSession) (r : Result (SessionState × Option SessionAct))
        → IfOk (λ out. moves s.state out ≡ true) r
        → Announced s
        → IfOk Announced (on_transition w again args s r)
    unfolding on_transition
    on_transition-Announced args s (ok (next, cb)) m a =
        run_cb-Announced cb args (record s { state = next }) (moves-Before s next cb m a)
    on_transition-Announced args s (err e) m a = Quiet-Announced s _ (fsm_act_close-Quiet s) a
    on_transition-Announced args s (panic p) m a = tt
    on_transition-Announced args s stuck m a = tt

    handle_with-Announced :
        (e : SessionEvent) (args : List Arg) (s : DynamicSession)
        → Announced s
        → IfOk Announced (handle_with w again e args s)
    unfolding handle_with
    handle_with-Announced e args s a =
        on_transition-Announced args s _ (session_table-moves s.state e) a

  handle_event-Announced :
      (e : SessionEvent) (args : List Arg) (s : DynamicSession)
      → Announced s
      → IfOk Announced (handle_event w e args s)
  unfolding handle_event
  handle_event-Announced =
      handle_with-Announced (handle_with w (λ args s. stuck) close)
        (λ args s a. handle_with-Announced (λ args s. stuck) (λ args s a. tt) close args s a)

  close_on-Announced :
      (t : ℕ) (r : Result (Unit {0})) (s : DynamicSession)
      → Announced s
      → IfOk Announced (close_on w t r s)
  unfolding close_on
  close_on-Announced t (ok u) s a = a
  close_on-Announced t (err e) s a = handle_event-Announced close (bad_args t e) s a
  close_on-Announced t (panic p) s a = tt
  close_on-Announced t stuck s a = tt

  dispatch-Announced :
      (t : ℕ) (m : V2ControlMessage) (s : DynamicSession)
      → Announced s
      → IfOk Announced (dispatch w t m s)
  unfolding dispatch
  dispatch-Announced t m s a =
      let close_it =
        handle_event-Announced close
          (result_code avp_cdn_result_code_general_error
            ∷ error_code avp_error_code_bad_value
            ∷ string (unhandled_message t)
            ∷ [])
          s a in
      let by = λ (e : SessionEvent). handle_event-Announced e (message m ∷ []) s a in
      IfOk-if Announced (t == avp_msg_type_icrq) _ _ (by icrq) (
        IfOk-if Announced (t == avp_msg_type_icrp) _ _ (by icrp) (
          IfOk-if Announced (t == avp_msg_type_iccn) _ _ (by iccn)
            (IfOk-if Announced (t == avp_msg_type_cdn) _ _ (by cdn) close_it)))

  handle_v2_msg-Announced :
      (m : V2ControlMessage) (s : DynamicSession)
      → Announced s
      → IfOk Announced (handle_v2_msg w m s)
  unfolding handle_v2_msg
  handle_v2_msg-Announced m s a =
      IfOk-if Announced (m.header.sid == u16 s.cfg.session_id) _ (ok s)
        (IfOk-bind Announced (get_type (v2 m)) _ (
          IfOk-any _ (get_type (v2 m)) (λ t. IfOk-bind Announced _ (dispatch w t m) (
            IfOk-map Announced (λ x. IfOk Announced (dispatch w t m x)) _ (dispatch-Announced t m)
              (close_on-Announced t (validate (v2 m)) s a)))))
        a

  session_step-Announced :
      (i : Input) (s : DynamicSession) → Announced s → IfOk Announced (session_step w i s)
  unfolding session_step handle_msg
  session_step-Announced (control_message (v2 m)) s a = handle_v2_msg-Announced m s a
  session_step-Announced (control_message (v3 m)) s a = a
  session_step-Announced tunnel_up s a = handle_event-Announced tunnelopen [] s a
  session_step-Announced kill s a = Quiet-Announced s _ (fsm_act_close-Quiet s) a
  session_step-Announced user_close s a = handle_event-Announced close _ s a

  loop-Announced :
      (is : List Input) (s : DynamicSession) → Announced s → IfOk Announced (run_session w is s)
  unfolding run_session
  loop-Announced [] s a = a
  loop-Announced (i ∷ is) s a =
      IfOk-if Announced s.is_closed (ok s) (session_step w i s >>= run_session w is) a (
        IfOk-bind Announced (session_step w i s) (run_session w is) (
          IfOk-map Announced (λ t. IfOk Announced (run_session w is t)) (session_step w i s)
            (loop-Announced is) (session_step-Announced i s a)))

  -- Whatever a new session receives and whatever its surroundings answer: if the run ends with a
  -- session, each announcement that it is up has one that it is down, but for the last while it is
  -- established; there is one at most, and none while it waits for its tunnel or its peer.
  pub run_session-Announced :
      (is : List Input) (serial : ℕ) (cfg : SessionConfig)
      → IfOk Announced (run_session w is (new_dynamic_session serial cfg))
  unfolding new_dynamic_session
  run_session-Announced is serial cfg =
      loop-Announced is (new_dynamic_session serial cfg)
        record { pairs = refl; once = omega arith; none_yet = λ h. refl }
