-- ===== src/Msg/Parse.antt =====
-- l2tp/msg.go: reading control messages from a frame.
use go_l2tp_debian.Prelude.{
  ℕ, zero, suc, ◌+◌, ◌-◌, ◌||◌, true, false, List, [], ◌∷◌, ◌++◌, ltb, ◌==◌, length, take, drop,
  if◌then◌else◌,
}
use go_l2tp_debian.Prelude.Result.{
  Result, ok, err, panic, stuck, eof, unexpected_eof, malformed_header, first_avp_not_message,
  slice_bounds, index_out_of_range, unhandled_version, ◌>>=◌, map_ok,
}
use go_l2tp_debian.Prelude.Bytes.{Bytes, from_be16, from_be32, u16}
use go_l2tp_debian.Avp.Types.{avp_type_message}
use go_l2tp_debian.Avp.Payload.{Avp}
use go_l2tp_debian.Avp.Parse.{parse_avp_buffer}
use go_l2tp_debian.Msg.Message.{
  CommonHeader, V2Header, V3Header, V2ControlMessage, V3ControlMessage, ControlMessage, v2, v3,
  ProtocolVersion, version3_fallback, version2, version3, common_header_len, v2_header_len,
  v3_header_len, control_message_min_len, protocol_version,
}

-- `b[lo:hi]` of a slice that has no capacity beyond its length
unfoldable pub slice : Bytes → ℕ → ℕ → Result Bytes
slice b lo hi =
    if ltb hi lo || ltb (length b) hi then panic slice_bounds else ok (take (hi - lo) (drop lo b))

-- `binary.Read` into the headers
unfoldable pub read_common : Bytes → Result (CommonHeader × Bytes)
read_common [] = err eof
read_common (a ∷ b ∷ c ∷ d ∷ rest) =
    ok (record { flags_ver = from_be16 a b; len = from_be16 c d }, rest)
read_common _ = err unexpected_eof

unfoldable pub read_v2_header : Bytes → Result V2Header
read_v2_header [] = err eof
read_v2_header (a ∷ b ∷ c ∷ d ∷ e ∷ f ∷ g ∷ h ∷ i ∷ j ∷ k ∷ l ∷ rest) = ok (record {
  common = record { flags_ver = from_be16 a b; len = from_be16 c d };
  tid = from_be16 e f;
  sid = from_be16 g h;
  ns = from_be16 i j;
  nr = from_be16 k l;
})
read_v2_header _ = err unexpected_eof

unfoldable pub read_v3_header : Bytes → Result V3Header
read_v3_header [] = err eof
read_v3_header (a ∷ b ∷ c ∷ d ∷ e ∷ f ∷ g ∷ h ∷ i ∷ j ∷ k ∷ l ∷ rest) = ok (record {
  common = record { flags_ver = from_be16 a b; len = from_be16 c d };
  ccid = from_be32 e f g h;
  ns = from_be16 i j;
  nr = from_be16 k l;
})
read_v3_header _ = err unexpected_eof

-- the AVPs, checked to begin with the Message Type AVP
unfoldable pub message_first : List Avp → Result (List Avp)
message_first [] = panic index_out_of_range
message_first (a ∷ avps) =
    if a.header.avp_type == avp_type_message then ok (a ∷ avps) else err first_avp_not_message

unfoldable pub read_avps : Bytes → ℕ → ℕ → Result (List Avp)
read_avps b lo hi = do body ← slice b lo hi; avps ← parse_avp_buffer body; message_first avps

-- a message with no AVP is an acknowledgement
unfoldable pub v2_avps : Bytes → ℕ → Result (List Avp)
v2_avps b len = if ltb v2_header_len len then read_avps b v2_header_len len else ok []

unfoldable pub bytes_to_v2_ctl_msg : Bytes → Result V2ControlMessage
bytes_to_v2_ctl_msg b = do
  hdr ← read_v2_header b
  avps ← v2_avps b hdr.common.len
  ok (record { header = hdr; avps = avps })

unfoldable pub bytes_to_v3_ctl_msg : Bytes → Result V3ControlMessage
bytes_to_v3_ctl_msg b = do
  hdr ← read_v3_header b
  avps ← read_avps b v3_header_len hdr.common.len
  ok (record { header = hdr; avps = avps })

-- `protocolVersion` returns no other version, so the last clause is the panic that follows
unfoldable pub read_message : ProtocolVersion → Bytes → Result ControlMessage
read_message version2 b = map_ok v2 (bytes_to_v2_ctl_msg b)
read_message version3 b = map_ok v3 (bytes_to_v3_ctl_msg b)
read_message version3_fallback b = panic unhandled_version

-- the frame of the length that the common header states, from the cursor on
unfoldable pub read_frame : Bytes → CommonHeader → Result ControlMessage
read_frame b h = do ver ← protocol_version h; frame ← slice b 0 h.len; read_message ver frame

-- The rest of a round, with the bytes `r` behind the common header. The length is checked as
-- `h.Len-commonHeaderLen` in uint16, and `Seek` steps on by the whole length from `r`.
unfoldable pub on_common : Bytes → CommonHeader → Bytes → Result (ControlMessage × Bytes)
on_common b h r =
    if ltb (length r) (u16 (h.len + 65536 - common_header_len))
    then err malformed_header
    else map_ok (λ m. (m, drop h.len r)) (read_frame b h)

-- one round of `parseMessageBuffer` on the bytes from the cursor on: the message, and what the next
-- round reads
unfoldable pub message_round : Bytes → Result (ControlMessage × Bytes)
message_round b = do (h, r) ← read_common b; on_common b h r

-- the loop, on fuel
unfoldable pub message_loop : ℕ → Bytes → List ControlMessage → Result (List ControlMessage)
message_loop zero b msgs = if ltb (length b) control_message_min_len then ok msgs else stuck
message_loop (suc fuel) b msgs = elim (ltb (length b) control_message_min_len) [
  | true ↦ ok msgs
  | false ↦ message_round b >>= λ r. message_loop fuel r.1 (msgs ++ r.0 ∷ [])
]

-- A round reads a common header at least, so a round for each byte is enough.
unfoldable pub parse_message_buffer : Bytes → Result (List ControlMessage)
parse_message_buffer b = message_loop (length b) b []
