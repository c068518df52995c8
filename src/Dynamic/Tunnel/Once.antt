-- ===== src/Dynamic/Tunnel/Once.antt =====
-- The counts of a tunnel's announcements over its run.
use go_l2tp_debian.Prelude.{
  ℕ, ◌≡◌, arith, refl, Bool, true, false, Option, none, some, List, [], ◌∷◌, ◌==◌,
}
use go_l2tp_debian.Prelude.Result.{
  Result, ok, err, panic, stuck, map_ok, IfOk, IfOk-bind, IfOk-map, IfOk-then, IfOk-if,
}
use go_l2tp_debian.Prelude.Bytes.{u16}
use go_l2tp_debian.Avp.Types.{avp_type_tunnel_id}
use go_l2tp_debian.Avp.Info.{vendor_id_ietf}
use go_l2tp_debian.Avp.Find.{find_uint16_avp}
use go_l2tp_debian.Msg.Message.{V2ControlMessage, v2, v3, get_type, validate}
use go_l2tp_debian.Msg.Build.{TunnelConfig}
use go_l2tp_debian.Dynamic.Args.{Arg, message, sockaddr, session, fsm_args_to_v2_msg_from}
use go_l2tp_debian.Dynamic.Tunnel.State.{
  TunnelState, TunnelEvent, open_event, newsession, close, TunnelAct, send_sccrq, on_sccrp,
  on_stopccn, link_session, send_stopccn, start_session, forward_session_msg, DynamicTunnel,
  tunnel_state_eq, tunnel_event_eq, new_dynamic_tunnel_state,
}
use go_l2tp_debian.Dynamic.Tunnel.Act.{TunnelWorld, fsm_act_on_sccrp, run_act}
use go_l2tp_debian.Dynamic.Tunnel.Step.{
  TunnelInput, user_close, receive_closed, received, new_session, send_request, event_map, run_cb,
  on_transition, handle_with, handle_event, close_on, bad_args, dispatch, handle_v2_msg, handle_msg,
  tunnel_step, tunnel_loop, run_tunnel,
}
use go_l2tp_debian.Dynamic.Tunnel.Counts.{Kept, Quiet, Quiet-Kept, fsm_act_close-Quiet}
use go_l2tp_debian.Dynamic.Tunnel.Quiet.{
  Sent, send_built-Sent, fsm_act_on_stopccn-Quiet, fsm_act_link_session-Quiet,
  fsm_act_start_session-Quiet, fsm_act_forward_session_msg-Quiet, fsm_act_send_sccrq-Quiet,
  fsm_act_send_stopccn-Quiet,
}
use go_l2tp_debian.Dynamic.Tunnel.Moves.{Before, moves, tunnel_table-moves, moves-Before}
use go_l2tp_debian.Dynamic.Tunnel.Up.{on_tunnel_id-Kept}

module _ (w : TunnelWorld) where
  module _ (again : List Arg → DynamicTunnel → Result DynamicTunnel)
      (again-Kept : (args : List Arg) (t : DynamicTunnel) → Kept t → IfOk Kept (again args t)) where
    keep_ok-Kept :
        (t : DynamicTunnel) (m : Result DynamicTunnel) → IfOk (Quiet t) m → Kept t → IfOk Kept m
    keep_ok-Kept t m q a = IfOk-map (Quiet t) Kept m (λ u p. Quiet-Kept t u p a) q

    run_cb-Kept :
        (cb : Option TunnelAct) (args : List Arg) (t : DynamicTunnel)
        → Before cb t
        → IfOk Kept (run_cb w again cb args t)
    unfolding run_cb run_act fsm_act_on_sccrp
    run_cb-Kept none args t a = a
    run_cb-Kept (some on_sccrp) args t a = IfOk-then Kept (fsm_args_to_v2_msg_from args) _ (λ m.
        on_tunnel_id-Kept w again again-Kept t
          (find_uint16_avp m.avps vendor_id_ietf avp_type_tunnel_id) a)
    run_cb-Kept (some send_sccrq) args t a = keep_ok-Kept t _ (fsm_act_send_sccrq-Quiet w t) a
    run_cb-Kept (some on_stopccn) args t a = Quiet-Kept t _ (fsm_act_on_stopccn-Quiet t) a
    run_cb-Kept (some link_session) args t a =
        keep_ok-Kept t _ (fsm_act_link_session-Quiet args t) a
    run_cb-Kept (some send_stopccn) args t a =
        keep_ok-Kept t _ (fsm_act_send_stopccn-Quiet w args t) a
    run_cb-Kept (some start_session) args t a =
        keep_ok-Kept t _ (fsm_act_start_session-Quiet args t) a
    run_cb-Kept (some forward_session_msg) args t a =
        keep_ok-Kept t _ (fsm_act_forward_session_msg-Quiet args t) a

    on_transition-Kept :
        (args : List Arg) (t : DynamicTunnel) (r : Result (TunnelState × Option TunnelAct))
        → IfOk (λ out. moves t.state out ≡ true) r
        → Kept t
        → IfOk Kept (on_transition w again args t r)
    unfolding on_transition
    on_transition-Kept args t (ok (next, cb)) m a =
        run_cb-Kept cb args (record t { state = next }) (moves-Before t next cb m a)
    on_transition-Kept args t (err e) m a = Quiet-Kept t _ (fsm_act_close-Quiet t) a
    on_transition-Kept args t (panic p) m a = tt
    on_transition-Kept args t stuck m a = tt

    handle_with-Kept :
        (e : TunnelEvent) (args : List Arg) (t : DynamicTunnel)
        → Kept t
        → IfOk Kept (handle_with w again e args t)
    unfolding handle_with
    handle_with-Kept e args t a = on_transition-Kept args t _ (tunnel_table-moves t.state e) a

  handle_event-Kept :
      (e : TunnelEvent) (args : List Arg) (t : DynamicTunnel)
      → Kept t
      → IfOk Kept (handle_event w e args t)
  unfolding handle_event
  handle_event-Kept =
      handle_with-Kept (handle_with w (λ args t. stuck) close)
        (λ args t a. handle_with-Kept (λ args t. stuck) (λ args t a. tt) close args t a)

  close_on-Kept :
      (n : ℕ) (r : Result (Unit {0})) (t : DynamicTunnel) → Kept t → IfOk Kept (close_on w n r t)
  unfolding close_on
  close_on-Kept n (ok u) t a = a
  close_on-Kept n (err e) t a = handle_event-Kept close (bad_args n e) t a
  close_on-Kept n (panic p) t a = tt
  close_on-Kept n stuck t a = tt

  dispatch-Kept :
      (table : List (ℕ × Option TunnelEvent)) (n : ℕ) (m : V2ControlMessage) (t : DynamicTunnel)
      → Kept t
      → IfOk Kept (dispatch w table n m t)
  unfolding dispatch
  dispatch-Kept [] n m t a = handle_event-Kept close _ t a
  dispatch-Kept ((k, some e) ∷ rest) n m t a =
      IfOk-if Kept (n == k) _ _ (handle_event-Kept e (message m ∷ sockaddr ∷ []) t a)
        (dispatch-Kept rest n m t a)
  dispatch-Kept ((k, none) ∷ rest) n m t a =
      IfOk-if Kept (n == k) (ok t) _ a (dispatch-Kept rest n m t a)

  handle_v2_msg-Kept :
      (m : V2ControlMessage) (t : DynamicTunnel) → Kept t → IfOk Kept (handle_v2_msg w m t)
  unfolding handle_v2_msg
  handle_v2_msg-Kept m t a =
      IfOk-if Kept (m.header.tid == u16 t.cfg.tunnel_id) _ (ok t)
        (IfOk-then Kept (get_type (v2 m)) _ (λ n. IfOk-bind Kept _ (dispatch w event_map n m) (
          IfOk-map Kept (λ x. IfOk Kept (dispatch w event_map n m x)) _
            (dispatch-Kept event_map n m) (close_on-Kept n (validate (v2 m)) t a))))
        a

  IfOk-map_ok :
      (b : Bool) (m : Result DynamicTunnel)
      → IfOk Kept m
      → IfOk (λ (r : DynamicTunnel × Bool). Kept r.0) (map_ok (λ s. (s, b)) m)
  IfOk-map_ok b (ok t) h = h
  IfOk-map_ok b (err e) h = tt
  IfOk-map_ok b (panic p) h = tt
  IfOk-map_ok b stuck h = tt

  request_done-Kept :
      (t : DynamicTunnel) (r : Result (DynamicTunnel × Bool))
      → IfOk (Sent t) r
      → Kept t
      → IfOk
          (λ (x : DynamicTunnel × Bool). Kept x.0)
          (map_ok (λ (x : DynamicTunnel × Bool). (x.0, true)) r)
  request_done-Kept t (ok (u, b)) s a = Quiet-Kept t u s.quiet a
  request_done-Kept t (err e) s a = tt
  request_done-Kept t (panic p) s a = tt
  request_done-Kept t stuck s a = tt

  tunnel_step-Kept :
      (i : TunnelInput) (t : DynamicTunnel)
      → Kept t
      → IfOk (λ (r : DynamicTunnel × Bool). Kept r.0) (tunnel_step w i t)
  unfolding tunnel_step handle_msg
  tunnel_step-Kept user_close t a = IfOk-map_ok false _ (handle_event-Kept close _ t a)
  tunnel_step-Kept receive_closed t a = Quiet-Kept t _ (fsm_act_close-Quiet t) a
  tunnel_step-Kept (received (v2 m)) t a = IfOk-map_ok true _ (handle_v2_msg-Kept m t a)
  tunnel_step-Kept (received (v3 m)) t a = a
  tunnel_step-Kept (new_session e) t a =
      IfOk-map_ok true _ (handle_event-Kept newsession (session e ∷ []) t a)
  tunnel_step-Kept (send_request m) t a = request_done-Kept t _ (send_built-Sent w (ok m) t) a

  tunnel_loop-Kept :
      (is : List TunnelInput) (t : DynamicTunnel) → Kept t → IfOk Kept (tunnel_loop w is t)
  unfolding tunnel_loop
  tunnel_loop-Kept [] t a = a
  tunnel_loop-Kept (i ∷ is) t a = IfOk-bind Kept (tunnel_step w i t) _ (
      IfOk-map (λ r. Kept r.0) _ (tunnel_step w i t)
        (λ r k. IfOk-if Kept r.1 (tunnel_loop w is r.0) (ok r.0) (tunnel_loop-Kept is r.0 k) k)
        (tunnel_step-Kept i t a))

  -- Whatever a new tunnel receives and whatever its surroundings answer: if the run ends with a
  -- tunnel, each announcement that it is up has one that it is down, but for the last while it is
  -- established; there is one at most, and none while it waits for its peer; a tunnel that closes is
  -- not established; and its transport was closed once if it closes, and else not at all.
  pub run_tunnel-Kept :
      (is : List TunnelInput) (cfg : TunnelConfig)
      → IfOk Kept (run_tunnel w is (new_dynamic_tunnel_state cfg))
  unfolding run_tunnel new_dynamic_tunnel_state
  run_tunnel-Kept is cfg =
      let t0 = new_dynamic_tunnel_state cfg in
      IfOk-bind Kept (handle_event w open_event [] t0) (tunnel_loop w is) (
        IfOk-map Kept (λ t. IfOk Kept (tunnel_loop w is t)) (handle_event w open_event [] t0)
          (tunnel_loop-Kept is)
          (handle_event-Kept open_event [] t0 record {
            pairs = refl;
            once = omega arith;
            none_yet = λ h. refl;
            closed_down = λ h. refl;
            closed_once = refl;
          }))
