-- ===== src/Tests/DynamicRuns.antt =====
-- l2tp/fsm.go, l2tp/l2tp_dynamic_session.go, l2tp/l2tp_dynamic_tunnel.go: the theorems on the state
-- machines at concrete inputs.
use go_l2tp_debian.Prelude.{◌≡◌, ◌↔◌, refl, true, false, none, some, [], ◌∷◌}
use go_l2tp_debian.Prelude.Result.{Result, ok, IfOk}
use go_l2tp_debian.Fsm
use go_l2tp_debian.Fsm.FirstRow.{Takes, handle_event_iff}
use go_l2tp_debian.Avp.Types.{avp_type_session_id}
use go_l2tp_debian.Avp.Info.{DataType, get_avp_info, vendor_id_ietf}
use go_l2tp_debian.Avp.Find.{find_avp, find_uint16_avp}
use go_l2tp_debian.Avp.Payload.{decode_uint16_data}
use go_l2tp_debian.Avp.Encode.{new_avp, encode_payload}
use go_l2tp_debian.Msg.Message.{V2ControlMessage, v2, new_v2_control_message}
use go_l2tp_debian.Msg.Build.{TunnelConfig, SessionConfig, new_v2_iccn, build_v2_msg, append_all}
use go_l2tp_debian.Dynamic.Args.{message}
use go_l2tp_debian.Dynamic.Session.State.{
  waitreply, established, icrp, on_icrp, DynamicSession, session_table, new_dynamic_session,
  state_eq, event_eq,
}
use go_l2tp_debian.Dynamic.Session.Act.{Surroundings}
use go_l2tp_debian.Dynamic.Session.Step.{
  control_message, tunnel_up, user_close, handle_event, run_session,
}
use go_l2tp_debian.Dynamic.Session.Counts.{Announced}
use go_l2tp_debian.Dynamic.Session.Icrp.{Outcome, handle_event-icrp}
use go_l2tp_debian.Dynamic.Session.Once.{run_session-Announced}
use go_l2tp_debian.Dynamic.Tunnel.State.{new_dynamic_tunnel_state}
use go_l2tp_debian.Dynamic.Tunnel.Step.{received, receive_closed, run_tunnel}
use go_l2tp_debian.Dynamic.Tunnel.Counts.{Kept}
use go_l2tp_debian.Dynamic.Tunnel.Once.{run_tunnel-Kept}

abbrev tunnel_config : TunnelConfig
tunnel_config = record {
  host_name = 104 ∷ [];
  framing_caps = 3;
  tunnel_id = 7;
  peer_tunnel_id = 90;
}

abbrev session_config : SessionConfig
session_config = record { session_id = 5; peer_session_id = 70 }

-- sending fails, the data plane comes up, and the interface has the name `p`
abbrev silent_peer : Surroundings
silent_peer = record {
  send_ok = λ n. false;
  new_session_ok = λ n. true;
  interface_name = λ n. (true, 112 ∷ []);
  render = λ t. [];
  parent = tunnel_config;
}

-- an ICRP with the session ID 70
abbrev icrp_msg : V2ControlMessage
icrp_msg = record {
  header = record {
    common = record { flags_ver = 0xc802; len = 28 };
    tid = 7;
    sid = 5;
    ns = 1;
    nr = 2;
  };
  avps =
      record {
        header = record { flag_len = 0x8008; vendor_id = 0; avp_type = 0 };
        payload = record { data_type = DataType.msg_id; data_bytes = 0 ∷ 11 ∷ [] };
      }
      ∷ record {
        header = record { flag_len = 0x8008; vendor_id = 0; avp_type = 14 };
        payload = record { data_type = DataType.uint16; data_bytes = 0 ∷ 70 ∷ [] };
      }
      ∷ [];
}

abbrev waiting_session : DynamicSession
waiting_session = record {
  state = waitreply;
  is_closed = false;
  is_established = false;
  call_serial = 1;
  ifname = [];
  result = none;
  has_dp = false;
  cfg = session_config;
  trace = [];
}

icrp_msg-session_id : find_uint16_avp icrp_msg.avps vendor_id_ietf avp_type_session_id ≡ ok 70
unfolding find_uint16_avp find_avp decode_uint16_data
icrp_msg-session_id = refl

abbrev built_or : V2ControlMessage → Result V2ControlMessage → V2ControlMessage
built_or m (ok n) = n
built_or m _ = m

abbrev iccn_msg : V2ControlMessage
iccn_msg = built_or icrp_msg (new_v2_iccn 90 session_config)

iccn_msg-built : new_v2_iccn 90 session_config ≡ ok iccn_msg
unfolding new_v2_iccn build_v2_msg new_v2_control_message append_all new_avp get_avp_info
    encode_payload
iccn_msg-built = refl

handle_event_iff_example :
    (Fsm.handle_event waitreply session_table icrp ≡ ok (established, some on_icrp))
    ↔ Takes waitreply icrp (established, some on_icrp) session_table
handle_event_iff_example = handle_event_iff waitreply session_table icrp (established, some on_icrp)

run_session-Announced_example : IfOk Announced (
    run_session silent_peer
      (tunnel_up ∷ control_message (v2 icrp_msg) ∷ user_close ∷ [])
      (new_dynamic_session 1 session_config))
run_session-Announced_example =
    run_session-Announced silent_peer (tunnel_up ∷ control_message (v2 icrp_msg) ∷ user_close ∷ [])
      1 session_config

handle_event-icrp_example :
    (t : DynamicSession) × (handle_event silent_peer icrp (message icrp_msg ∷ []) waiting_session
      ≡ ok t)
    × Outcome false true true t
handle_event-icrp_example =
    handle_event-icrp silent_peer icrp_msg iccn_msg 70 false true true waiting_session
      (record { sends = λ n. refl; makes = λ n. refl; finds = λ n. refl }) refl refl refl
      icrp_msg-session_id iccn_msg-built

run_tunnel-Kept_example : IfOk Kept (
    run_tunnel
      (record { send_ok = λ n. true; new_tunnel_ok = λ n. true; render = λ t. [] })
      (received (v2 icrp_msg) ∷ receive_closed ∷ [])
      (new_dynamic_tunnel_state tunnel_config))
run_tunnel-Kept_example =
    run_tunnel-Kept (record { send_ok = λ n. true; new_tunnel_ok = λ n. true; render = λ t. [] })
      (received (v2 icrp_msg) ∷ receive_closed ∷ []) tunnel_config
