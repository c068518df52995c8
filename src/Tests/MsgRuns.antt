-- ===== src/Tests/MsgRuns.antt =====
-- l2tp/msg.go: the theorems on messages at concrete inputs.
use go_l2tp_debian.Prelude.{◌≡◌, ◌≢◌, ◌↔◌, refl, arith, [], ◌∷◌, ◌++◌, All, drop}
use go_l2tp_debian.Prelude.Result.{ok, stuck, map_ok}
use go_l2tp_debian.Avp.Info.{DataType}
use go_l2tp_debian.Avp.Payload.{Avp, ResultCode}
use go_l2tp_debian.Msg.Spec.{has_avp, v2_hello_msg_spec}
use go_l2tp_debian.Msg.Validate.{validate_avps}
use go_l2tp_debian.Msg.ValidateSpec.{Accepts, HasRequired, IsMap, validate_avps_iff}
use go_l2tp_debian.Msg.Message.{v2, to_bytes}
use go_l2tp_debian.Msg.Parse.{parse_message_buffer}
use go_l2tp_debian.Msg.Build.{
  TunnelConfig, SessionConfig, new_v2_sccrq, new_v2_sccrp, new_v2_scccn, new_v2_stopccn,
  new_v2_hello, new_v2_icrq, new_v2_icrp, new_v2_iccn, new_v2_cdn,
}
use go_l2tp_debian.Msg.Built.{IsSendable}
use go_l2tp_debian.Msg.Steps.{parse_message_buffer_terminates}
use go_l2tp_debian.Msg.RoundTrip.{parse_message_buffer-to_bytes}
use go_l2tp_debian.Msg.Sendable.{
  hello-IsSendable, tunnel_messages-IsSendable, session_messages-IsSendable,
}

abbrev tunnel : TunnelConfig
tunnel = record {
  host_name = 0x6c ∷ 0x61 ∷ 0x63 ∷ [];
  framing_caps = 3;
  tunnel_id = 42;
  peer_tunnel_id = 90;
}

abbrev session : SessionConfig
session = record { session_id = 5; peer_session_id = 77 }

abbrev shutting_down : ResultCode
shutting_down = record { result = 6; err_code = 0; err_msg = 0x62 ∷ 0x79 ∷ 0x65 ∷ [] }

abbrev hello : IsSendable 6 (new_v2_hello tunnel)
hello = hello-IsSendable tunnel (omega arith)

abbrev hello_avp : Avp
hello_avp = record {
  header = record { flag_len = 0x8008; vendor_id = 0; avp_type = 0 };
  payload = record { data_type = DataType.msg_id; data_bytes = 0 ∷ 6 ∷ [] };
}

-- two messages in one frame
parse_message_buffer-to_bytes_example :
    parse_message_buffer (to_bytes (v2 hello.msg) ++ to_bytes (v2 hello.msg))
    ≡ map_ok (λ l. v2 hello.msg ∷ l) (parse_message_buffer (drop 4 (to_bytes (v2 hello.msg))))
parse_message_buffer-to_bytes_example =
    parse_message_buffer-to_bytes (v2 hello.msg) (to_bytes (v2 hello.msg)) hello.is_message

parse_message_buffer_terminates_example : parse_message_buffer (to_bytes (v2 hello.msg)) ≢ stuck
parse_message_buffer_terminates_example = parse_message_buffer_terminates (to_bytes (v2 hello.msg))

v2_hello_msg_spec-IsMap : IsMap v2_hello_msg_spec
unfolding has_avp
v2_hello_msg_spec-IsMap = (refl, tt)

validate_avps_iff_example : (validate_avps (hello_avp ∷ []) v2_hello_msg_spec ≡ ok tt) ↔ (
    All (Accepts v2_hello_msg_spec) (hello_avp ∷ [])
    × HasRequired v2_hello_msg_spec (hello_avp ∷ []))
validate_avps_iff_example =
    validate_avps_iff v2_hello_msg_spec (hello_avp ∷ []) v2_hello_msg_spec-IsMap

tunnel_messages-IsSendable_example :
    IsSendable 1 (new_v2_sccrq tunnel)
    × IsSendable 2 (new_v2_sccrp tunnel)
    × IsSendable 3 (new_v2_scccn tunnel)
    × IsSendable 4 (new_v2_stopccn shutting_down tunnel)
    × IsSendable 6 (new_v2_hello tunnel)
tunnel_messages-IsSendable_example =
    tunnel_messages-IsSendable tunnel shutting_down (omega arith) (omega arith) (omega arith)
      (omega arith) (omega arith)

session_messages-IsSendable_example :
    IsSendable 10 (new_v2_icrq 1 90 session)
    × IsSendable 11 (new_v2_icrp 90 session)
    × IsSendable 12 (new_v2_iccn 90 session)
    × IsSendable 14 (new_v2_cdn 90 shutting_down session)
session_messages-IsSendable_example =
    session_messages-IsSendable 1 90 shutting_down session (omega arith) (omega arith) (omega arith)
      (omega arith) (omega arith) (omega arith)
