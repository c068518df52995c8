-- ===== src/Avp/Encode.antt =====
-- l2tp/avp.go: building an AVP from a Go value.
use go_l2tp_debian.Prelude.{ℕ, false, ◌++◌, length}
use go_l2tp_debian.Prelude.Result.{Result, ok, err, unsupported_avp, wrong_data_type, ◌>>=◌}
use go_l2tp_debian.Prelude.Bytes.{Bytes, be16, be32, be64}
use go_l2tp_debian.Avp.Info.{
  DataType, uint16, uint32, uint64, string, bytes, result_code, msg_id, unimplemented, illegal,
  AvpInfo, get_avp_info,
}
use go_l2tp_debian.Avp.Header.{new_avp_header}
use go_l2tp_debian.Avp.Payload.{Avp, ResultCode, Value}

-- an empty message is not written, which is what writing no byte does
unfoldable pub encode_result_code : ResultCode → Bytes
encode_result_code rc = be16 rc.result ++ be16 rc.err_code ++ rc.err_msg

-- `encodePayload` by the data type and the type assertion on the value. No case sets `ok` for
-- `avpDataTypeEmpty`, so that type is refused like a mismatch.
unfoldable pub encode_as : DataType → Value → Result Bytes
encode_as uint16 (Value.uint16 n) = ok (be16 n)
encode_as uint32 (Value.uint32 n) = ok (be32 n)
encode_as uint64 (Value.uint64 n) = ok (be64 n)
encode_as string (Value.string s) = ok s
encode_as bytes (Value.bytes b) = ok b
encode_as msg_id (Value.msg_type n) = ok (be16 n)
encode_as result_code (Value.result_code rc) = ok (encode_result_code rc)
encode_as result_code (Value.result_code_ptr rc) = ok (encode_result_code rc)
encode_as unimplemented _ = err unsupported_avp
encode_as illegal _ = err unsupported_avp
encode_as _ _ = err wrong_data_type

unfoldable pub encode_payload : AvpInfo → Value → Result Bytes
unfolding encode_as encode_result_code
encode_payload info value = encode_as info.data_type value

-- the AVP that `newAvp` builds from the encoded payload
abbrev pub make_avp : AvpInfo → ℕ → ℕ → Bytes → Avp
make_avp info vendor typ buf = record {
  header = new_avp_header info.is_mandatory false (length buf) vendor typ;
  payload = record { data_type = info.data_type; data_bytes = buf };
}

unfoldable pub new_avp : ℕ → ℕ → Value → Result Avp
new_avp vendor typ value = do
  info ← get_avp_info typ vendor
  buf ← encode_payload info value
  ok (make_avp info vendor typ buf)
