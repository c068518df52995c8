-- ===== src/Msg/Message.antt =====
-- l2tp/msg.go: the two kinds of control message, and the operations of `controlMessage`.
use go_l2tp_debian.Prelude.{ℕ, ◌+◌, List, [], ◌∷◌, ◌++◌, ltb, ◌==◌, if◌then◌else◌, bit_and}
use go_l2tp_debian.Prelude.Result.{
  Result, ok, err, panic, illegal_version, tid_out_of_range, sid_out_of_range, invalid_message,
  message_type_undecodable, index_out_of_range, stuck, ◌>>=◌,
}
use go_l2tp_debian.Prelude.Bytes.{Bytes, be16, be32, u16, u32}
use go_l2tp_debian.Avp.Types.{avp_type_message}
use go_l2tp_debian.Avp.MsgTypes.{avp_msg_type_ack}
use go_l2tp_debian.Avp.Header.{total_len}
use go_l2tp_debian.Avp.Payload.{Avp, decode_msg_type}
use go_l2tp_debian.Avp.Write.{write_avps}
use go_l2tp_debian.Avp.Find.{avps_length_bytes}
use go_l2tp_debian.Msg.Spec.{get_v2_msg_spec, get_v3_msg_spec}
use go_l2tp_debian.Msg.Validate.{validate_avps}

-- `l2tpCommonHeader`
pub record CommonHeader : Type 0 where
  pub flags_ver : ℕ
  pub len : ℕ

-- `l2tpV2Header`; each field is a uint16
pub record V2Header : Type 0 where
  pub common : CommonHeader
  pub tid : ℕ
  pub sid : ℕ
  pub ns : ℕ
  pub nr : ℕ

-- `l2tpV3Header`; the identifier is a uint32
pub record V3Header : Type 0 where
  pub common : CommonHeader
  pub ccid : ℕ
  pub ns : ℕ
  pub nr : ℕ

pub record V2ControlMessage : Type 0 where
  pub header : V2Header
  pub avps : List Avp

pub record V3ControlMessage : Type 0 where
  pub header : V3Header
  pub avps : List Avp

-- the interface `controlMessage`, by the type behind it
pub data ControlMessage : Type 0 where
  v2 : V2ControlMessage → ControlMessage
  v3 : V3ControlMessage → ControlMessage

pub data ProtocolVersion : Type 0 where
  version3_fallback version2 version3 : ProtocolVersion

abbrev pub common_header_len : ℕ
common_header_len = 4

abbrev pub v2_header_len : ℕ
v2_header_len = 12

abbrev pub v3_header_len : ℕ
v3_header_len = 12

abbrev pub control_message_min_len : ℕ
control_message_min_len = 12

-- `protocolVersion` of the common header
unfoldable pub protocol_version : CommonHeader → Result ProtocolVersion
protocol_version h =
    let v = bit_and 0xf h.flags_ver in
    if v == 2 then ok version2 else if v == 3 then ok version3 else err illegal_version

unfoldable pub message_version : ControlMessage → ProtocolVersion
message_version (v2 m) = version2
message_version (v3 m) = version3

unfoldable pub get_len : ControlMessage → ℕ
get_len (v2 m) = m.header.common.len
get_len (v3 m) = m.header.common.len

abbrev pub message_ns : ControlMessage → ℕ
message_ns (v2 m) = m.header.ns
message_ns (v3 m) = m.header.ns

abbrev pub message_nr : ControlMessage → ℕ
message_nr (v2 m) = m.header.nr
message_nr (v3 m) = m.header.nr

abbrev pub get_avps : ControlMessage → List Avp
get_avps (v2 m) = m.avps
get_avps (v3 m) = m.avps

-- the message type that the first AVP holds, or a panic
type_or_panic : Result ℕ → Result ℕ
type_or_panic (ok t) = ok t
type_or_panic (err e) = panic message_type_undecodable
type_or_panic (panic p) = panic p
type_or_panic stuck = stuck

unfoldable pub first_type : Avp → Result ℕ
unfolding type_or_panic
first_type a =
    let t = type_or_panic (decode_msg_type a) in
    if a.header.avp_type == avp_type_message then t else panic invalid_message

-- a version 2 message with no AVP is an acknowledgement; one of version 3 panics
unfoldable pub v2_get_type : List Avp → Result ℕ
unfolding first_type
v2_get_type [] = ok avp_msg_type_ack
v2_get_type (a ∷ avps) = first_type a

unfoldable pub v3_get_type : List Avp → Result ℕ
unfolding first_type
v3_get_type [] = panic index_out_of_range
v3_get_type (a ∷ avps) = first_type a

unfoldable pub get_type : ControlMessage → Result ℕ
unfolding v2_get_type v3_get_type
get_type (v2 m) = v2_get_type m.avps
get_type (v3 m) = v3_get_type m.avps

abbrev add_len : CommonHeader → Avp → CommonHeader
add_len c a = record c { len = u16 (c.len + u16 (total_len a.header)) }

unfoldable pub append_avp_v2 : V2ControlMessage → Avp → V2ControlMessage
append_avp_v2 m a = record m {
  avps = m.avps ++ a ∷ [];
  header = record (m.header) { common = add_len m.header.common a };
}

unfoldable pub append_avp_v3 : V3ControlMessage → Avp → V3ControlMessage
append_avp_v3 m a = record m {
  avps = m.avps ++ a ∷ [];
  header = record (m.header) { common = add_len m.header.common a };
}

unfoldable pub set_transport_seq_num : ControlMessage → ℕ → ℕ → ControlMessage
set_transport_seq_num (v2 m) s r = v2 (record m { header = record (m.header) { ns = s; nr = r } })
set_transport_seq_num (v3 m) s r = v3 (record m { header = record (m.header) { ns = s; nr = r } })

abbrev pub write_common : CommonHeader → Bytes
write_common c = be16 c.flags_ver ++ be16 c.len

unfoldable pub v2_to_bytes : V2ControlMessage → Bytes
v2_to_bytes m =
    write_common m.header.common
    ++ (be16 m.header.tid
        ++ (be16 m.header.sid ++ (be16 m.header.ns ++ (be16 m.header.nr ++ write_avps m.avps))))

unfoldable pub v3_to_bytes : V3ControlMessage → Bytes
v3_to_bytes m =
    write_common m.header.common
    ++ (be32 m.header.ccid ++ (be16 m.header.ns ++ (be16 m.header.nr ++ write_avps m.avps)))

abbrev pub to_bytes : ControlMessage → Bytes
to_bytes (v2 m) = v2_to_bytes m
to_bytes (v3 m) = v3_to_bytes m

unfoldable pub validate : ControlMessage → Result (Unit {0})
unfolding get_type
validate (v2 m) = do t ← get_type (v2 m); spec ← get_v2_msg_spec t; validate_avps m.avps spec
validate (v3 m) = do t ← get_type (v3 m); spec ← get_v3_msg_spec t; validate_avps m.avps spec

-- `newL2tpV2MessageHeader`
unfoldable pub new_v2_message_header : ℕ → ℕ → ℕ → ℕ → ℕ → V2Header
new_v2_message_header tid sid ns nr payload_bytes = record {
  common = record { flags_ver = 0xc802; len = u16 (v2_header_len + payload_bytes) };
  tid = tid;
  sid = sid;
  ns = ns;
  nr = nr;
}

-- `newL2tpV3MessageHeader`
unfoldable pub new_v3_message_header : ℕ → ℕ → ℕ → ℕ → V3Header
new_v3_message_header ccid ns nr payload_bytes = record {
  common = record { flags_ver = 0xc803; len = u16 (v3_header_len + payload_bytes) };
  ccid = ccid;
  ns = ns;
  nr = nr;
}

abbrev pub v2_tid_sid_max : ℕ
v2_tid_sid_max = 65535

unfoldable pub new_v2_control_message : ℕ → ℕ → List Avp → Result V2ControlMessage
unfolding new_v2_message_header
new_v2_control_message tid sid avps =
    if ltb v2_tid_sid_max tid
    then err tid_out_of_range
    else if ltb v2_tid_sid_max sid
    then err sid_out_of_range
    else ok (record {
      header = new_v2_message_header (u16 tid) (u16 sid) 0 0 (avps_length_bytes avps);
      avps = avps;
    })

unfoldable pub new_v3_control_message : ℕ → List Avp → Result V3ControlMessage
unfolding new_v3_message_header
new_v3_control_message ccid avps =
    ok (record {
      header = new_v3_message_header (u32 ccid) 0 0 (avps_length_bytes avps);
      avps = avps;
    })
