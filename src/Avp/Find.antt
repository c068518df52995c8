-- ===== src/Avp/Find.antt =====
-- l2tp/avp.go: looking an AVP up in a message.
use go_l2tp_debian.Prelude.{ℕ, ◌+◌, ◌&&◌, List, [], ◌∷◌, ◌==◌, if◌then◌else◌}
use go_l2tp_debian.Prelude.Result.{Result, ok, err, avp_not_found, decode_failed, ◌>>=◌, wrap}
use go_l2tp_debian.Prelude.Bytes.{Bytes}
use go_l2tp_debian.Avp.Header.{total_len}
use go_l2tp_debian.Avp.Payload.{
  Avp, ResultCode, decode_uint16_data, decode_uint32_data, decode_uint64_data, decode_string_data,
  decode_result_code,
}

unfoldable pub avps_length_bytes : List Avp → ℕ
avps_length_bytes [] = 0
avps_length_bytes (a ∷ avps) = total_len a.header + avps_length_bytes avps

unfoldable pub find_avp : List Avp → ℕ → ℕ → Result Avp
find_avp [] vendor typ = err avp_not_found
find_avp (a ∷ avps) vendor typ =
    if a.header.vendor_id == vendor && a.header.avp_type == typ
    then ok a
    else find_avp avps vendor typ

unfoldable pub find_uint16_avp : List Avp → ℕ → ℕ → Result ℕ
find_uint16_avp avps vendor typ = do
  avp ← find_avp avps vendor typ
  wrap decode_failed (decode_uint16_data avp)

unfoldable pub find_uint32_avp : List Avp → ℕ → ℕ → Result ℕ
find_uint32_avp avps vendor typ = do
  avp ← find_avp avps vendor typ
  wrap decode_failed (decode_uint32_data avp)

unfoldable pub find_uint64_avp : List Avp → ℕ → ℕ → Result ℕ
find_uint64_avp avps vendor typ = do
  avp ← find_avp avps vendor typ
  wrap decode_failed (decode_uint64_data avp)

-- the data of whatever type: the code makes no check of it here
unfoldable pub find_bytes_avp : List Avp → ℕ → ℕ → Result Bytes
find_bytes_avp avps vendor typ = do avp ← find_avp avps vendor typ; ok avp.payload.data_bytes

unfoldable pub find_string_avp : List Avp → ℕ → ℕ → Result Bytes
find_string_avp avps vendor typ = do
  avp ← find_avp avps vendor typ
  wrap decode_failed (decode_string_data avp)

unfoldable pub find_result_code_avp : List Avp → ℕ → ℕ → Result ResultCode
find_result_code_avp avps vendor typ = do
  avp ← find_avp avps vendor typ
  wrap decode_failed (decode_result_code avp)
