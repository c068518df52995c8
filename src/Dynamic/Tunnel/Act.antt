-- ===== src/Dynamic/Tunnel/Act.antt =====
-- l2tp/l2tp_dynamic_tunnel.go: the callbacks of the tunnel's state machine. What the surroundings
-- answer is a parameter: whether the n-th action succeeds, and the texts.
use go_l2tp_debian.Prelude.{
  ℕ, Bool, true, false, Option, none, some, List, [], ◌∷◌, length, if◌then◌else◌,
}
use go_l2tp_debian.Prelude.Result.{Result, ok, err, panic, stuck, send_on_closed_channel, ◌>>=◌}
use go_l2tp_debian.Prelude.Bytes.{Bytes}
use go_l2tp_debian.Avp.Types.{avp_type_tunnel_id}
use go_l2tp_debian.Avp.Info.{vendor_id_ietf}
use go_l2tp_debian.Avp.Find.{find_uint16_avp}
use go_l2tp_debian.Msg.Message.{V2ControlMessage, v2, validate}
use go_l2tp_debian.Msg.Build.{new_v2_sccrq, new_v2_scccn, new_v2_stopccn}
use go_l2tp_debian.Context.Links.{
  Entry, link_session as link, find_session_by_id, all_sessions, close_all_sessions,
}
use go_l2tp_debian.Dynamic.Args.{
  Text, no_data_plane, Arg, result_code, error_code, string, avp_stop_ccn_result_code_general_error,
  avp_error_code_vendor_specific_error, fsm_args_to_stopccn_result, fsm_args_to_v2_msg_from,
  fsm_args_to_session,
}
use go_l2tp_debian.Dynamic.Tunnel.State.{
  TunnelAct, send_sccrq, on_sccrp, on_stopccn, link_session, send_stopccn, start_session,
  forward_session_msg, TunnelAction, sent, not_sent, connected, data_plane_up, data_plane_failed,
  data_plane_down, session_told, session_killed, forwarded, no_such_session, waited,
  transport_closed, control_plane_closed, tunnel_up, tunnel_down, unlinked, DynamicTunnel,
}

-- The n of `send_ok` and `new_tunnel_ok` is the number of actions before.
pub record TunnelWorld : Type 0 where
  pub send_ok : ℕ → Bool
  pub new_tunnel_ok : ℕ → Bool
  pub render : Text → Bytes

unfoldable pub log : DynamicTunnel → TunnelAction → DynamicTunnel
log t a = record t { trace = a ∷ t.trace }

-- the same action for each of the sessions, in turn
unfoldable pub log_each : (Entry → TunnelAction) → List Entry → DynamicTunnel → DynamicTunnel
unfolding log
log_each f [] t = t
log_each f (e ∷ es) t = log_each f es (log t (f e))

unfoldable pub kill_sessions : DynamicTunnel → DynamicTunnel
unfolding close_all_sessions log_each
kill_sessions t =
    let (es, left) = close_all_sessions t.sessions in
    record (log_each session_killed es t) { sessions = left }

unfoldable pub close_resources : DynamicTunnel → DynamicTunnel
unfolding log
close_resources t =
    log (log (if t.has_dp then log t data_plane_down else t) transport_closed) control_plane_closed

unfoldable pub announce_down : DynamicTunnel → DynamicTunnel
unfolding log
announce_down t =
    if t.is_established then record (log t tunnel_down) { is_established = false } else t

unfoldable pub fsm_act_close : DynamicTunnel → DynamicTunnel
unfolding log kill_sessions close_resources announce_down
fsm_act_close t =
    if t.is_closing
    then t
    else log (announce_down (close_resources (kill_sessions (record t { is_closing = true }))))
        unlinked

-- `fsmActLinkSession`
unfoldable pub fsm_act_link_session : List Arg → DynamicTunnel → Result DynamicTunnel
unfolding fsm_args_to_session
fsm_act_link_session args t = do
  e ← fsm_args_to_session args
  ok (record t { sessions = link e t.sessions })

unfoldable pub fsm_act_start_session : List Arg → DynamicTunnel → Result DynamicTunnel
unfolding fsm_args_to_session log
fsm_act_start_session args t = do
  e ← fsm_args_to_session args
  ok (log (record t { sessions = link e t.sessions }) (session_told e))

unfoldable pub forward_to : V2ControlMessage → Option Entry → DynamicTunnel → DynamicTunnel
unfolding log
forward_to m (some e) t = log t (forwarded e m)
forward_to m none t = log t (no_such_session m.header.sid)

unfoldable pub fsm_act_forward_session_msg : List Arg → DynamicTunnel → Result DynamicTunnel
unfolding fsm_args_to_v2_msg_from forward_to
fsm_act_forward_session_msg args t = do
  m ← fsm_args_to_v2_msg_from args
  ok (forward_to m (find_session_by_id m.header.sid t.sessions) t)

-- The tunnel waits for the timeout, takes what it receives meanwhile, and closes.
unfoldable pub fsm_act_on_stopccn : DynamicTunnel → DynamicTunnel
unfolding log fsm_act_close
fsm_act_on_stopccn t = fsm_act_close (log t waited)

-- a callback that closes the tunnel when the message is not sent
unfoldable pub or_close :
    (DynamicTunnel → Result DynamicTunnel) → DynamicTunnel × Bool → Result DynamicTunnel
unfolding fsm_act_close
or_close next (t, true) = next t
or_close next (t, false) = ok (fsm_act_close t)

unfoldable pub announce_up : DynamicTunnel → DynamicTunnel
unfolding log log_each all_sessions
announce_up t =
    let told = log_each session_told (all_sessions t.sessions.by_name) t in
    log (record told { is_established = true }) tunnel_up

module _ (w : TunnelWorld) where
  -- `xport.send` of a message that validates: the channel is closed once the transport is
  unfoldable pub send_valid :
      Result (Unit {0}) → V2ControlMessage → DynamicTunnel → Result (DynamicTunnel × Bool)
  unfolding log
  send_valid (ok u) m t =
      if t.is_closing
      then panic send_on_closed_channel
      else if w.send_ok (length t.trace)
      then ok (log t (sent m), true)
      else ok (log t (not_sent m), false)
  send_valid (err e) m t = ok (t, false)
  send_valid (panic p) m t = panic p
  send_valid stuck m t = stuck

  -- `sendSccrq`, `sendScccn` and `sendStopccn` on the built message: whether it was sent
  unfoldable pub send_built :
      Result V2ControlMessage → DynamicTunnel → Result (DynamicTunnel × Bool)
  unfolding send_valid
  send_built (ok m) t = send_valid (validate (v2 m)) m t
  send_built (err e) t = ok (t, false)
  send_built (panic p) t = panic p
  send_built stuck t = stuck

  unfoldable pub fsm_act_send_sccrq : DynamicTunnel → Result DynamicTunnel
  unfolding send_built or_close
  fsm_act_send_sccrq t = send_built (new_v2_sccrq t.cfg) t >>= or_close ok

  -- the error of sending is ignored
  unfoldable pub fsm_act_send_stopccn : List Arg → DynamicTunnel → Result DynamicTunnel
  unfolding send_built fsm_act_close fsm_args_to_stopccn_result
  fsm_act_send_stopccn args t =
      let rc = fsm_args_to_stopccn_result w.render args in
      send_built (new_v2_stopccn rc t.cfg) t >>= λ r. ok (fsm_act_close r.0)

  -- `fsmActOnSccrp` from the call of the data plane's `NewTunnel` on, by whether it succeeds; `again`
  -- is `handleEvent` for the event `close`
  unfoldable pub with_data_plane :
      (List Arg → DynamicTunnel → Result DynamicTunnel)
      → Bool
      → DynamicTunnel
      → Result DynamicTunnel
  unfolding log announce_up
  with_data_plane again true t = ok (announce_up (record (log t data_plane_up) { has_dp = true }))
  with_data_plane again false t =
      again
        (result_code avp_stop_ccn_result_code_general_error
          ∷ error_code avp_error_code_vendor_specific_error
          ∷ string no_data_plane
          ∷ [])
        (log t data_plane_failed)

  unfoldable pub start_data_plane :
      (List Arg → DynamicTunnel → Result DynamicTunnel) → DynamicTunnel → Result DynamicTunnel
  unfolding with_data_plane
  start_data_plane again t = with_data_plane again (w.new_tunnel_ok (length t.trace)) t

  -- on the peer's tunnel ID
  unfoldable pub on_tunnel_id :
      (List Arg → DynamicTunnel → Result DynamicTunnel)
      → DynamicTunnel
      → Result ℕ
      → Result DynamicTunnel
  unfolding log send_built or_close start_data_plane
  on_tunnel_id again t (ok ptid) =
      let t1 = log (record t { cfg = record (t.cfg) { peer_tunnel_id = ptid } }) connected in
      send_built (new_v2_scccn t1.cfg) t1 >>= or_close (start_data_plane again)
  on_tunnel_id again t (err e) = again [] t
  on_tunnel_id again t (panic p) = panic p
  on_tunnel_id again t stuck = stuck

  unfoldable pub fsm_act_on_sccrp :
      (List Arg → DynamicTunnel → Result DynamicTunnel)
      → List Arg
      → DynamicTunnel
      → Result DynamicTunnel
  unfolding on_tunnel_id
  fsm_act_on_sccrp again args t = do
    m ← fsm_args_to_v2_msg_from args
    on_tunnel_id again t (find_uint16_avp m.avps vendor_id_ietf avp_type_tunnel_id)

  unfoldable pub run_act :
      (List Arg → DynamicTunnel → Result DynamicTunnel)
      → TunnelAct
      → List Arg
      → DynamicTunnel
      → Result DynamicTunnel
  unfolding fsm_act_send_sccrq fsm_act_on_sccrp fsm_act_on_stopccn fsm_act_link_session
      fsm_act_send_stopccn fsm_act_start_session fsm_act_forward_session_msg
  run_act again send_sccrq args t = fsm_act_send_sccrq t
  run_act again on_sccrp args t = fsm_act_on_sccrp again args t
  run_act again on_stopccn args t = ok (fsm_act_on_stopccn t)
  run_act again link_session args t = fsm_act_link_session args t
  run_act again send_stopccn args t = fsm_act_send_stopccn args t
  run_act again start_session args t = fsm_act_start_session args t
  run_act again forward_session_msg args t = fsm_act_forward_session_msg args t
