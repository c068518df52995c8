-- ===== src/Avp/RoundTrip.antt =====
-- Building an AVP from a value and decoding it again (`newAvp`, `decode`).
use go_l2tp_debian.Prelude.{ℕ, ◌≡◌, arith}
use go_l2tp_debian.Prelude.Result.{ok, >>=-eq-ok}
use go_l2tp_debian.Prelude.Bytes.{Bytes, IsU16, IsU32, IsU64, be16, be32, be64}
use go_l2tp_debian.Avp.Info.{DataType, AvpInfo, get_avp_info}
use go_l2tp_debian.Avp.Payload.{
  AvpPayload, Avp, ResultCode, Value, to_uint16, to_uint32, to_uint64, to_string, to_result_code,
  decode_as, decode,
}
use go_l2tp_debian.Avp.Encode.{encode_result_code, encode_as, encode_payload, make_avp, new_avp}

-- the numbers in a value fit the Go type that holds them
abbrev pub InRange : Value → Type 0
InRange (Value.uint16 n) = IsU16 n
InRange (Value.uint32 n) = IsU32 n
InRange (Value.uint64 n) = IsU64 n
InRange (Value.msg_type n) = IsU16 n
InRange (Value.result_code rc) = IsU16 rc.result × IsU16 rc.err_code
InRange (Value.result_code_ptr rc) = IsU16 rc.result × IsU16 rc.err_code
InRange _ = Unit

-- what decoding gives back: a pointer to a result code becomes the result code
abbrev pub decoded : Value → Value
decoded (Value.result_code_ptr rc) = Value.result_code rc
decoded v = v

to_result_code-encode_result_code :
    (rc : ResultCode) (d : DataType)
    → IsU16 rc.result × IsU16 rc.err_code
    → to_result_code (record { data_type = d; data_bytes = encode_result_code rc }) ≡ ok rc
unfolding to_result_code encode_result_code
to_result_code-encode_result_code rc d h = ground arith

abbrev payload_of : DataType → Bytes → AvpPayload
payload_of d buf = record { data_type = d; data_bytes = buf }

decode_as-encode_as :
    (d : DataType) (value : Value) (buf : Bytes)
    → InRange value
    → encode_as d value ≡ ok buf
    → decode_as d (payload_of d buf) ≡ ok (decoded value)
unfolding decode_as encode_as to_uint16 to_uint32 to_uint64 to_string
decode_as-encode_as DataType.uint16 (Value.uint16 n) buf r e =
    let b : buf ≡ be16 n = cc in rw b (ground arith)
decode_as-encode_as DataType.uint32 (Value.uint32 n) buf r e =
    let b : buf ≡ be32 n = cc in rw b (ground arith)
decode_as-encode_as DataType.uint64 (Value.uint64 n) buf r e =
    let b : buf ≡ be64 n = cc in rw b (ground arith)
decode_as-encode_as DataType.msg_id (Value.msg_type n) buf r e =
    let b : buf ≡ be16 n = cc in rw b (ground arith)
decode_as-encode_as DataType.string (Value.string s) buf r e = cc
decode_as-encode_as DataType.bytes (Value.bytes s) buf r e = cc
decode_as-encode_as DataType.result_code (Value.result_code rc) buf r e =
    let b : buf ≡ encode_result_code rc = cc in
    rw (b, to_result_code-encode_result_code rc DataType.result_code r)
decode_as-encode_as DataType.result_code (Value.result_code_ptr rc) buf r e =
    let b : buf ≡ encode_result_code rc = cc in
    rw (b, to_result_code-encode_result_code rc DataType.result_code r)
decode_as-encode_as _ _ buf r e = ground arith

-- the payload of an AVP that `newAvp` returns, with the steps that led to it
pub new_avp_inv :
    (vendor typ : ℕ) (value : Value) {a : Avp}
    → new_avp vendor typ value ≡ ok a
    → (info : AvpInfo) × (buf : Bytes) × (get_avp_info typ vendor ≡ ok info)
      × (encode_payload info value ≡ ok buf)
      × (make_avp info vendor typ buf ≡ a)
unfolding new_avp
new_avp_inv vendor typ value h =
    let (info, found, h') = >>=-eq-ok (get_avp_info typ vendor) _ h in
    let (buf, encoded, h'') = >>=-eq-ok (encode_payload info value) _ h' in
    (info, buf, found, encoded, ground arith)

-- Decoding an AVP that `newAvp` built gives the value that it was built from; a pointer to a
-- result code comes back as the result code. The numbers in the value fit their Go types.
pub decode-new_avp :
    (vendor typ : ℕ) (value : Value) {a : Avp}
    → InRange value
    → new_avp vendor typ value ≡ ok a
    → decode a ≡ ok (decoded value)
unfolding decode encode_payload
decode-new_avp vendor typ value r h =
    let (info, buf, found, encoded, made) = new_avp_inv vendor typ value h in
    rw (← made) (decode_as-encode_as info.data_type value buf r encoded)
