-- ===== src/Dynamic/Tunnel/Step.antt =====
-- l2tp/l2tp_dynamic_tunnel.go: the tunnel's events, its messages and its loop. The version of the
-- tunnel's configuration is 2: `newDynamicTunnel` refuses others.
use go_l2tp_debian.Prelude.{
  ℕ, Bool, true, false, Option, none, some, List, [], ◌∷◌, ◌==◌, if◌then◌else◌,
}
use go_l2tp_debian.Prelude.Result.{Result, Error, ok, err, panic, stuck, ◌>>=◌, map_ok}
use go_l2tp_debian.Prelude.Bytes.{u16}
use go_l2tp_debian.Fsm
use go_l2tp_debian.Avp.MsgTypes.{
  avp_msg_type_sccrq, avp_msg_type_sccrp, avp_msg_type_scccn, avp_msg_type_stopccn,
  avp_msg_type_hello, avp_msg_type_icrq, avp_msg_type_icrp, avp_msg_type_iccn, avp_msg_type_cdn,
}
use go_l2tp_debian.Msg.Message.{ControlMessage, V2ControlMessage, v2, v3, get_type, validate}
use go_l2tp_debian.Context.Links.{Entry}
use go_l2tp_debian.Dynamic.Args.{
  bad_message, unhandled_message, Arg, result_code, error_code, string, message, sockaddr, session,
  avp_stop_ccn_result_code_clear_connection, avp_stop_ccn_result_code_general_error,
  avp_error_code_bad_value,
}
use go_l2tp_debian.Dynamic.Tunnel.State.{
  TunnelState, TunnelEvent, open_event, sccrq, sccrp, scccn, stopccn, newsession, sessionmsg, close,
  TunnelAct, DynamicTunnel, tunnel_table, tunnel_state_eq, tunnel_event_eq,
}
use go_l2tp_debian.Dynamic.Tunnel.Act.{TunnelWorld, fsm_act_close, send_built, run_act}

-- What the tunnel's goroutine receives: on `closeChan`, from the transport, whose channel is closed
-- when the transport is down, on `eventChan`, and on `sendChan`.
pub data TunnelInput : Type 0 where
  user_close receive_closed : TunnelInput
  received : ControlMessage → TunnelInput
  new_session : Entry → TunnelInput
  send_request : V2ControlMessage → TunnelInput

-- the arguments of the event `close` for a message that does not validate
abbrev pub bad_args : ℕ → Error → List Arg
bad_args t e =
    result_code avp_stop_ccn_result_code_general_error
    ∷ error_code avp_error_code_bad_value
    ∷ string (bad_message t e)
    ∷ []

abbrev pub unhandled_args : ℕ → List Arg
unhandled_args t =
    result_code avp_stop_ccn_result_code_general_error
    ∷ error_code avp_error_code_bad_value
    ∷ string (unhandled_message t)
    ∷ []

-- `eventMap`. A HELLO has the empty event, which `handleEvent` ignores.
unfoldable pub event_map : List (ℕ × Option TunnelEvent)
event_map =
    (avp_msg_type_sccrq, some sccrq)
    ∷ (avp_msg_type_sccrp, some sccrp)
    ∷ (avp_msg_type_scccn, some scccn)
    ∷ (avp_msg_type_stopccn, some stopccn)
    ∷ (avp_msg_type_hello, none)
    ∷ (avp_msg_type_icrq, some sessionmsg)
    ∷ (avp_msg_type_icrp, some sessionmsg)
    ∷ (avp_msg_type_iccn, some sessionmsg)
    ∷ (avp_msg_type_cdn, some sessionmsg)
    ∷ []

module _ (w : TunnelWorld) where
  unfoldable pub run_cb :
      (List Arg → DynamicTunnel → Result DynamicTunnel)
      → Option TunnelAct
      → List Arg
      → DynamicTunnel
      → Result DynamicTunnel
  unfolding run_act
  run_cb again none args t = ok t
  run_cb again (some act) args t = run_act w again act args t

  -- `handleEvent` by what the state machine says: the state is set before the callback runs, and
  -- with no transition the tunnel is closed
  unfoldable pub on_transition :
      (List Arg → DynamicTunnel → Result DynamicTunnel)
      → List Arg
      → DynamicTunnel
      → Result (TunnelState × Option TunnelAct)
      → Result DynamicTunnel
  unfolding run_cb
  on_transition again args t (ok (next, cb)) = run_cb again cb args (record t { state = next })
  on_transition again args t (err e) = ok (fsm_act_close t)
  on_transition again args t (panic p) = panic p
  on_transition again args t stuck = stuck

  unfoldable pub handle_with :
      (List Arg → DynamicTunnel → Result DynamicTunnel)
      → TunnelEvent
      → List Arg
      → DynamicTunnel
      → Result DynamicTunnel
  unfolding on_transition
  handle_with again e args t = on_transition again args t (Fsm.handle_event t.state tunnel_table e)

  -- `handleEvent`. The only callback that calls it again does so for the event `close`, of which no
  -- callback calls it again: two levels are enough.
  unfoldable pub handle_event : TunnelEvent → List Arg → DynamicTunnel → Result DynamicTunnel
  unfolding handle_with
  handle_event = handle_with (handle_with (λ args t. stuck) close)

  unfoldable pub close_on : ℕ → Result (Unit {0}) → DynamicTunnel → Result DynamicTunnel
  unfolding handle_event
  close_on n (ok u) t = ok t
  close_on n (err e) t = handle_event close (bad_args n e) t
  close_on n (panic p) t = panic p
  close_on n stuck t = stuck

  -- the loop over `eventMap`, for a message of the type
  unfoldable pub dispatch :
      List (ℕ × Option TunnelEvent) → ℕ → V2ControlMessage → DynamicTunnel → Result DynamicTunnel
  unfolding handle_event
  dispatch [] n m t = handle_event close (unhandled_args n) t
  dispatch ((k, some e) ∷ rest) n m t =
      let later = dispatch rest n m t in
      if n == k then handle_event e (message m ∷ sockaddr ∷ []) t else later
  dispatch ((k, none) ∷ rest) n m t =
      let later = dispatch rest n m t in if n == k then ok t else later

  -- A message that does not validate closes the tunnel; the code then goes on with it.
  unfoldable pub handle_v2_msg : V2ControlMessage → DynamicTunnel → Result DynamicTunnel
  unfolding close_on dispatch event_map
  handle_v2_msg m t =
      let handled : Result DynamicTunnel = do
        n ← get_type (v2 m)
        t1 ← close_on n (validate (v2 m)) t
        dispatch event_map n m t1
      in if m.header.tid == u16 t.cfg.tunnel_id then handled else ok t

  -- `handleMsg`: a message of version 3 is logged, and ignored
  unfoldable pub handle_msg : ControlMessage → DynamicTunnel → Result DynamicTunnel
  unfolding handle_v2_msg
  handle_msg (v2 m) t = handle_v2_msg m t
  handle_msg (v3 m) t = ok t

  -- one round of the loop of `runTunnel`, and whether it goes on
  unfoldable pub tunnel_step : TunnelInput → DynamicTunnel → Result (DynamicTunnel × Bool)
  unfolding handle_msg handle_event send_built
  tunnel_step user_close t =
      map_ok (λ s. (s, false))
        (handle_event close (result_code avp_stop_ccn_result_code_clear_connection ∷ []) t)
  tunnel_step receive_closed t = ok (fsm_act_close t, false)
  tunnel_step (received m) t = map_ok (λ s. (s, true)) (handle_msg m t)
  tunnel_step (new_session e) t =
      map_ok (λ s. (s, true)) (handle_event newsession (session e ∷ []) t)
  tunnel_step (send_request m) t = map_ok (λ r. (r.0, true)) (send_built w (ok m) t)

  unfoldable pub tunnel_loop : List TunnelInput → DynamicTunnel → Result DynamicTunnel
  unfolding tunnel_step
  tunnel_loop [] t = ok t
  tunnel_loop (i ∷ is) t =
      tunnel_step i t >>= λ r. let rest = tunnel_loop is r.0 in if r.1 then rest else ok r.0

  -- `runTunnel`
  unfoldable pub run_tunnel : List TunnelInput → DynamicTunnel → Result DynamicTunnel
  unfolding tunnel_loop handle_event
  run_tunnel is t = handle_event open_event [] t >>= tunnel_loop is
