-- ===== src/Avp/Payload.antt =====
-- l2tp/avp.go: the payload of an AVP, and its decoding to a Go value.
use go_l2tp_debian.Prelude.{ℕ, Bool, true, false, [], ◌∷◌, ltb, length, if◌then◌else◌}
use go_l2tp_debian.Prelude.Result.{
  Result, ok, err, payload_too_long, unhandled_data_type, not_of_data_type, ◌>>=◌, map_ok,
}
use go_l2tp_debian.Prelude.Bytes.{Bytes, read_u16, read_u32, read_u64}
use go_l2tp_debian.Avp.Info.{DataType}
use go_l2tp_debian.Avp.Header.{AvpHeader}

-- `avpPayload`; `data` is a reserved word here
pub record AvpPayload : Type 0 where
  pub data_type : DataType
  pub data_bytes : Bytes

pub record Avp : Type 0 where
  pub header : AvpHeader
  pub payload : AvpPayload

-- `resultCode`
pub record ResultCode : Type 0 where
  pub result : ℕ
  pub err_code : ℕ
  pub err_msg : Bytes

-- The `interface{}` values that AVPs are built from and decoded to, by their dynamic type. `other`
-- is a value of any type that the code does not name. A Go string is its bytes.
pub data Value : Type 0 where
  nil : Value
  uint16 uint32 uint64 msg_type : ℕ → Value
  string bytes : Bytes → Value
  result_code result_code_ptr : ResultCode → Value
  other : Value

unfoldable pub to_uint16 : AvpPayload → Result ℕ
unfolding read_u16
to_uint16 p =
    if ltb 2 (length p.data_bytes)
    then err payload_too_long
    else map_ok (λ r. r.0) (read_u16 p.data_bytes)

unfoldable pub to_uint32 : AvpPayload → Result ℕ
unfolding read_u32
to_uint32 p =
    if ltb 4 (length p.data_bytes)
    then err payload_too_long
    else map_ok (λ r. r.0) (read_u32 p.data_bytes)

unfoldable pub to_uint64 : AvpPayload → Result ℕ
unfolding read_u64
to_uint64 p =
    if ltb 8 (length p.data_bytes)
    then err payload_too_long
    else map_ok (λ r. r.0) (read_u64 p.data_bytes)

unfoldable pub to_string : AvpPayload → Result Bytes
to_string p = ok p.data_bytes

-- the part behind the result code: `errMsg` is `p.data[4:]`, what is left after the error code
unfoldable pub read_error : ℕ → Bytes → Result ResultCode
read_error res [] = ok (record { result = res; err_code = 0; err_msg = [] })
read_error res (x ∷ r) = do
  (code, msg) ← read_u16 (x ∷ r)
  ok (record { result = res; err_code = code; err_msg = msg })

unfoldable pub to_result_code : AvpPayload → Result ResultCode
unfolding read_error read_u16
to_result_code p = do (res, r) ← read_u16 p.data_bytes; read_error res r

-- `avp.decode`, by the payload's data type
unfoldable pub decode_as : DataType → AvpPayload → Result Value
decode_as DataType.empty p = ok Value.nil
decode_as DataType.uint16 p = map_ok Value.uint16 (to_uint16 p)
decode_as DataType.uint32 p = map_ok Value.uint32 (to_uint32 p)
decode_as DataType.uint64 p = map_ok Value.uint64 (to_uint64 p)
decode_as DataType.string p = map_ok Value.string (to_string p)
decode_as DataType.bytes p = ok (Value.bytes p.data_bytes)
decode_as DataType.result_code p = map_ok Value.result_code (to_result_code p)
decode_as DataType.msg_id p = map_ok Value.msg_type (to_uint16 p)
decode_as _ p = err unhandled_data_type

unfoldable pub decode : Avp → Result Value
unfolding decode_as
decode avp = decode_as avp.payload.data_type avp.payload

unfoldable pub same_data_type : DataType → DataType → Bool
same_data_type DataType.empty DataType.empty = true
same_data_type DataType.uint16 DataType.uint16 = true
same_data_type DataType.uint32 DataType.uint32 = true
same_data_type DataType.uint64 DataType.uint64 = true
same_data_type DataType.string DataType.string = true
same_data_type DataType.bytes DataType.bytes = true
same_data_type DataType.result_code DataType.result_code = true
same_data_type DataType.msg_id DataType.msg_id = true
same_data_type DataType.unimplemented DataType.unimplemented = true
same_data_type DataType.illegal DataType.illegal = true
same_data_type DataType.max DataType.max = true
same_data_type _ _ = false

unfoldable pub is_data_type : Avp → DataType → Bool
unfolding same_data_type
is_data_type avp dt = same_data_type avp.payload.data_type dt

unfoldable pub decode_uint16_data : Avp → Result ℕ
unfolding is_data_type to_uint16
decode_uint16_data avp =
    if is_data_type avp DataType.uint16 then to_uint16 avp.payload else err not_of_data_type

unfoldable pub decode_uint32_data : Avp → Result ℕ
unfolding is_data_type to_uint32
decode_uint32_data avp =
    if is_data_type avp DataType.uint32 then to_uint32 avp.payload else err not_of_data_type

unfoldable pub decode_uint64_data : Avp → Result ℕ
unfolding is_data_type to_uint64
decode_uint64_data avp =
    if is_data_type avp DataType.uint64 then to_uint64 avp.payload else err not_of_data_type

unfoldable pub decode_string_data : Avp → Result Bytes
unfolding is_data_type to_string
decode_string_data avp =
    if is_data_type avp DataType.string then to_string avp.payload else err not_of_data_type

unfoldable pub decode_result_code : Avp → Result ResultCode
unfolding is_data_type to_result_code
decode_result_code avp =
    if is_data_type avp DataType.result_code
    then to_result_code avp.payload
    else err not_of_data_type

unfoldable pub decode_msg_type : Avp → Result ℕ
unfolding is_data_type to_uint16
decode_msg_type avp =
    if is_data_type avp DataType.msg_id then to_uint16 avp.payload else err not_of_data_type
