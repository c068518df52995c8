-- ===== src/Msg/Build.antt =====
-- l2tp/msg.go: building the messages that the tunnel and session protocols send.
use go_l2tp_debian.Prelude.{ℕ, List, [], ◌∷◌}
use go_l2tp_debian.Prelude.Result.{Result, ok, create_failed, ◌>>=◌, wrap}
use go_l2tp_debian.Prelude.Bytes.{Bytes, u16, u32}
use go_l2tp_debian.Avp.Types.{
  avp_type_message, avp_type_result_code, avp_type_protocol_version, avp_type_framing_cap,
  avp_type_host_name, avp_type_tunnel_id, avp_type_session_id, avp_type_call_serial_number,
  avp_type_connect_speed, avp_type_framing_type,
}
use go_l2tp_debian.Avp.MsgTypes.{
  avp_msg_type_sccrq, avp_msg_type_sccrp, avp_msg_type_scccn, avp_msg_type_stopccn,
  avp_msg_type_hello, avp_msg_type_icrq, avp_msg_type_icrp, avp_msg_type_iccn, avp_msg_type_cdn,
}
use go_l2tp_debian.Avp.Info.{vendor_id_ietf}
use go_l2tp_debian.Avp.Payload.{ResultCode, Value}
use go_l2tp_debian.Avp.Encode.{new_avp}
use go_l2tp_debian.Msg.Message.{V2ControlMessage, append_avp_v2, new_v2_control_message}

-- the fields of `TunnelConfig` that messages carry; identifiers and capabilities are uint32
pub record TunnelConfig : Type 0 where
  pub host_name : Bytes
  pub framing_caps : ℕ
  pub tunnel_id : ℕ
  pub peer_tunnel_id : ℕ

-- the fields of `SessionConfig` that messages carry
pub record SessionConfig : Type 0 where
  pub session_id : ℕ
  pub peer_session_id : ℕ

-- `avpIn`
pub record AvpIn : Type 0 where
  pub typ : ℕ
  pub value : Value

abbrev pub avp_in : ℕ → Value → AvpIn
avp_in t v = record { typ = t; value = v }

-- the loop of `buildV2Msg`
unfoldable pub append_all : V2ControlMessage → List AvpIn → Result V2ControlMessage
append_all m [] = ok m
append_all m (i ∷ rest) = do
  avp ← wrap create_failed (new_avp vendor_id_ietf i.typ i.value)
  append_all (append_avp_v2 m avp) rest

unfoldable pub build_v2_msg : ℕ → ℕ → List AvpIn → Result V2ControlMessage
build_v2_msg ptid psid ins = do msg ← new_v2_control_message ptid psid []; append_all msg ins

abbrev message_avp : ℕ → AvpIn
message_avp t = avp_in avp_type_message (Value.msg_type t)

abbrev version_avp : AvpIn
version_avp = avp_in avp_type_protocol_version (Value.bytes (1 ∷ 0 ∷ []))

unfoldable pub sccrq_avps : TunnelConfig → List AvpIn
sccrq_avps cfg =
    message_avp avp_msg_type_sccrq
    ∷ version_avp
    ∷ avp_in avp_type_host_name (Value.string cfg.host_name)
    ∷ avp_in avp_type_framing_cap (Value.uint32 (u32 cfg.framing_caps))
    ∷ avp_in avp_type_tunnel_id (Value.uint16 (u16 cfg.tunnel_id))
    ∷ []

unfoldable pub new_v2_sccrq : TunnelConfig → Result V2ControlMessage
unfolding sccrq_avps
new_v2_sccrq cfg = build_v2_msg 0 0 (sccrq_avps cfg)

unfoldable pub sccrp_avps : TunnelConfig → List AvpIn
sccrp_avps cfg =
    message_avp avp_msg_type_sccrp
    ∷ version_avp
    ∷ avp_in avp_type_framing_cap (Value.uint32 (u32 cfg.framing_caps))
    ∷ avp_in avp_type_host_name (Value.string cfg.host_name)
    ∷ avp_in avp_type_tunnel_id (Value.uint16 (u16 cfg.tunnel_id))
    ∷ []

unfoldable pub new_v2_sccrp : TunnelConfig → Result V2ControlMessage
unfolding sccrp_avps
new_v2_sccrp cfg = build_v2_msg cfg.peer_tunnel_id 0 (sccrp_avps cfg)

unfoldable pub new_v2_scccn : TunnelConfig → Result V2ControlMessage
new_v2_scccn cfg = build_v2_msg cfg.peer_tunnel_id 0 (message_avp avp_msg_type_scccn ∷ [])

unfoldable pub stopccn_avps : ResultCode → TunnelConfig → List AvpIn
stopccn_avps rc cfg =
    message_avp avp_msg_type_stopccn
    ∷ avp_in avp_type_tunnel_id (Value.uint16 (u16 cfg.tunnel_id))
    ∷ avp_in avp_type_result_code (Value.result_code_ptr rc)
    ∷ []

unfoldable pub new_v2_stopccn : ResultCode → TunnelConfig → Result V2ControlMessage
unfolding stopccn_avps
new_v2_stopccn rc cfg = build_v2_msg cfg.peer_tunnel_id 0 (stopccn_avps rc cfg)

unfoldable pub new_v2_hello : TunnelConfig → Result V2ControlMessage
new_v2_hello cfg = build_v2_msg cfg.peer_tunnel_id 0 (message_avp avp_msg_type_hello ∷ [])

unfoldable pub icrq_avps : ℕ → SessionConfig → List AvpIn
icrq_avps call_serial scfg =
    message_avp avp_msg_type_icrq
    ∷ avp_in avp_type_session_id (Value.uint16 (u16 scfg.session_id))
    ∷ avp_in avp_type_call_serial_number (Value.uint32 call_serial)
    ∷ []

unfoldable pub new_v2_icrq : ℕ → ℕ → SessionConfig → Result V2ControlMessage
unfolding icrq_avps
new_v2_icrq call_serial ptid scfg = build_v2_msg ptid 0 (icrq_avps call_serial scfg)

unfoldable pub icrp_avps : SessionConfig → List AvpIn
icrp_avps scfg =
    message_avp avp_msg_type_icrp
    ∷ avp_in avp_type_session_id (Value.uint16 (u16 scfg.session_id))
    ∷ []

unfoldable pub new_v2_icrp : ℕ → SessionConfig → Result V2ControlMessage
unfolding icrp_avps
new_v2_icrp ptid scfg = build_v2_msg ptid scfg.peer_session_id (icrp_avps scfg)

-- the framing type is `FramingCapSync | FramingCapAsync`, 1 and 2
unfoldable pub iccn_avps : List AvpIn
iccn_avps =
    message_avp avp_msg_type_iccn
    ∷ avp_in avp_type_connect_speed (Value.uint32 0)
    ∷ avp_in avp_type_framing_type (Value.uint32 3)
    ∷ []

unfoldable pub new_v2_iccn : ℕ → SessionConfig → Result V2ControlMessage
unfolding iccn_avps
new_v2_iccn ptid scfg = build_v2_msg ptid scfg.peer_session_id iccn_avps

unfoldable pub cdn_avps : ResultCode → SessionConfig → List AvpIn
cdn_avps rc scfg =
    message_avp avp_msg_type_cdn
    ∷ avp_in avp_type_result_code (Value.result_code_ptr rc)
    ∷ avp_in avp_type_session_id (Value.uint16 (u16 scfg.session_id))
    ∷ []

unfoldable pub new_v2_cdn : ℕ → ResultCode → SessionConfig → Result V2ControlMessage
unfolding cdn_avps
new_v2_cdn ptid rc scfg = build_v2_msg ptid scfg.peer_session_id (cdn_avps rc scfg)
