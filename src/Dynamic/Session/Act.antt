-- ===== src/Dynamic/Session/Act.antt =====
-- l2tp/l2tp_dynamic_session.go: the callbacks of the session's state machine. What the surroundings
-- answer is a parameter: whether the n-th action succeeds, the name of the interface, the texts, and
-- the configuration of the tunnel.
use go_l2tp_debian.Prelude.{
  ℕ, Bool, true, false, Option, none, some, List, [], ◌∷◌, length, if◌then◌else◌,
}
use go_l2tp_debian.Prelude.Result.{Result, ok, err, panic, stuck, ◌>>=◌}
use go_l2tp_debian.Prelude.Bytes.{Bytes}
use go_l2tp_debian.Avp.Types.{avp_type_session_id, avp_type_result_code}
use go_l2tp_debian.Avp.Info.{vendor_id_ietf}
use go_l2tp_debian.Avp.Payload.{ResultCode}
use go_l2tp_debian.Avp.Find.{find_uint16_avp, find_result_code_avp}
use go_l2tp_debian.Msg.Message.{V2ControlMessage}
use go_l2tp_debian.Msg.Build.{TunnelConfig, new_v2_icrq, new_v2_iccn, new_v2_cdn}
use go_l2tp_debian.Dynamic.Args.{
  Text, no_session_id, Arg, result_code, error_code, string, avp_cdn_result_code_general_error,
  avp_error_code_bad_value, fsm_args_to_cdn_result, fsm_args_to_v2_msg,
}
use go_l2tp_debian.Dynamic.Session.State.{
  SessionAct, send_icrq, on_icrp, on_cdn, send_cdn, close_session, Action, sent, not_sent,
  data_plane_up, data_plane_failed, data_plane_down, interface_named, interface_unnamed, session_up,
  session_down, unlinked, DynamicSession,
}

-- The n of `send_ok`, `new_session_ok` and `interface_name` is the number of actions before.
pub record Surroundings : Type 0 where
  pub send_ok : ℕ → Bool
  pub new_session_ok : ℕ → Bool
  pub interface_name : ℕ → Bool × Bytes
  pub render : Text → Bytes
  pub parent : TunnelConfig

unfoldable pub log : DynamicSession → Action → DynamicSession
log s a = record s { trace = a ∷ s.trace }

-- the part of `fsmActClose` under `ds.established`
unfoldable pub announce_down : DynamicSession → DynamicSession
unfolding log
announce_down s =
    if s.is_established
    then record (log s (session_down s.ifname s.result)) { is_established = false }
    else s

unfoldable pub fsm_act_close : DynamicSession → DynamicSession
unfolding log announce_down
fsm_act_close s =
    let t = announce_down (if s.has_dp then log s data_plane_down else s) in
    record (log t unlinked) { is_closed = true }

-- a result that is set stays
unfoldable pub set_reason : Option ResultCode → ResultCode → Option ResultCode
set_reason none rc = some rc
set_reason (some old) rc = some old

-- `findResultCodeAvp` in `fsmActOnCdn`: an error leaves the result as it is
unfoldable pub peer_reason : Option ResultCode → Result ResultCode → Option ResultCode
unfolding set_reason
peer_reason r (ok rc) = set_reason r rc
peer_reason r _ = r

unfoldable pub fsm_act_on_cdn : List Arg → DynamicSession → Result DynamicSession
unfolding fsm_act_close peer_reason
fsm_act_on_cdn args s = do
  msg ← fsm_args_to_v2_msg args
  let r = peer_reason s.result (find_result_code_avp msg.avps vendor_id_ietf avp_type_result_code)
  ok (fsm_act_close (record s { result = r }))

-- a callback that closes the session when the message cannot be built
unfoldable pub or_close :
    (DynamicSession → DynamicSession) → DynamicSession × Bool → Result DynamicSession
or_close next (s, built) = ok (if built then next s else fsm_act_close s)

unfoldable pub announce_up : DynamicSession → DynamicSession
unfolding log
announce_up s = record (log s (session_up s.ifname)) { is_established = true }

-- from the call of `GetInterfaceName` on, by whether it succeeds: a failure closes the session, and
-- goes on
unfoldable pub with_name : DynamicSession → Bool × Bytes → DynamicSession
unfolding log fsm_act_close announce_up
with_name s (true, name) = announce_up (log (record s { ifname = name }) interface_named)
with_name s (false, name) =
    announce_up (fsm_act_close (log (record s { ifname = name }) interface_unnamed))

module _ (w : Surroundings) where
  unfoldable pub send_message : DynamicSession → V2ControlMessage → DynamicSession
  unfolding log fsm_act_close
  send_message s m =
      if w.send_ok (length s.trace) then log s (sent m) else fsm_act_close (log s (not_sent m))

  -- `sendIcrq`, `sendIccn` and `sendCdn` on the built message. They return the error of building the
  -- message, and none of sending it.
  unfoldable pub send_built :
      DynamicSession → Result V2ControlMessage → Result (DynamicSession × Bool)
  unfolding send_message
  send_built s (ok m) = ok (send_message s m, true)
  send_built s (err e) = ok (s, false)
  send_built s (panic p) = panic p
  send_built s stuck = stuck

  unfoldable pub fsm_act_send_icrq : DynamicSession → Result DynamicSession
  unfolding send_built or_close
  fsm_act_send_icrq s =
      send_built s (new_v2_icrq s.call_serial w.parent.peer_tunnel_id s.cfg) >>= or_close (λ t. t)

  unfoldable pub name_interface : DynamicSession → DynamicSession
  unfolding with_name
  name_interface s = with_name s (w.interface_name (length s.trace))

  -- from the call of the data plane's `NewSession` on, by whether it succeeds
  unfoldable pub with_data_plane : DynamicSession → Bool → DynamicSession
  unfolding log fsm_act_close name_interface
  with_data_plane s true = name_interface (record (log s data_plane_up) { has_dp = true })
  with_data_plane s false = fsm_act_close (log s data_plane_failed)

  unfoldable pub start_data_plane : DynamicSession → DynamicSession
  unfolding with_data_plane
  start_data_plane s = with_data_plane s (w.new_session_ok (length s.trace))

  -- `fsmActOnIcrp` on the peer's session ID; `again` is `handleEvent` for the event `close`
  unfoldable pub on_session_id :
      (List Arg → DynamicSession → Result DynamicSession)
      → DynamicSession
      → Result ℕ
      → Result DynamicSession
  unfolding send_built or_close start_data_plane
  on_session_id again s (ok psid) =
      let t = record s { cfg = record (s.cfg) { peer_session_id = psid } } in
      send_built t (new_v2_iccn w.parent.peer_tunnel_id t.cfg) >>= or_close start_data_plane
  on_session_id again s (err e) =
      again
        (result_code avp_cdn_result_code_general_error
          ∷ error_code avp_error_code_bad_value
          ∷ string no_session_id
          ∷ [])
        s
  on_session_id again s (panic p) = panic p
  on_session_id again s stuck = stuck

  unfoldable pub fsm_act_on_icrp :
      (List Arg → DynamicSession → Result DynamicSession)
      → List Arg
      → DynamicSession
      → Result DynamicSession
  unfolding on_session_id
  fsm_act_on_icrp again args s = do
    msg ← fsm_args_to_v2_msg args
    on_session_id again s (find_uint16_avp msg.avps vendor_id_ietf avp_type_session_id)

  -- an error of `sendCdn` is ignored
  unfoldable pub fsm_act_send_cdn : List Arg → DynamicSession → Result DynamicSession
  unfolding send_built fsm_act_close set_reason
  fsm_act_send_cdn args s =
      let rc = fsm_args_to_cdn_result w.render args in
      let t = record s { result = set_reason s.result rc } in
      send_built t (new_v2_cdn w.parent.peer_tunnel_id rc t.cfg) >>= λ r. ok (fsm_act_close r.0)

  unfoldable pub run_act :
      (List Arg → DynamicSession → Result DynamicSession)
      → SessionAct
      → List Arg
      → DynamicSession
      → Result DynamicSession
  unfolding fsm_act_send_icrq fsm_act_on_icrp fsm_act_on_cdn fsm_act_send_cdn fsm_act_close
  run_act again send_icrq args s = fsm_act_send_icrq s
  run_act again on_icrp args s = fsm_act_on_icrp again args s
  run_act again on_cdn args s = fsm_act_on_cdn args s
  run_act again send_cdn args s = fsm_act_send_cdn args s
  run_act again close_session args s = ok (fsm_act_close s)
