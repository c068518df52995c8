-- ===== src/Config/Convert.antt =====
-- config/config.go: the conversions of a value to the type of a parameter.
use go_l2tp_debian.Prelude.{ℕ, ◌+◌, ◌*◌, ◌%◌, Bool, [], ◌∷◌, ◌==◌, ltb, if◌then◌else◌}
use go_l2tp_debian.Prelude.Int.{pos, negsuc}
use go_l2tp_debian.Prelude.Result.{
  Result, ok, err, ◌>>=◌, map_ok, not_a_bool, not_a_string, not_an_array, value_out_of_range,
  unexpected_type, unknown_name,
}
use go_l2tp_debian.Prelude.Bytes.{Bytes}
use go_l2tp_debian.Prelude.Text.{text}
use go_l2tp_debian.Prelude.Eq.{same, bytes_eq}
use go_l2tp_debian.Config.Types.{
  Value, int64, uint64, bool, string, array, Values, nil, cons, protocol_version_2,
  protocol_version_3, encap_type_udp, encap_type_ip, framing_cap_sync, framing_cap_async,
  pseudowire_type_eth, pseudowire_type_ppp, pseudowire_type_pppac, l2spec_type_none,
  l2spec_type_default,
}

unfoldable pub to_bool : Value → Result Bool
to_bool (bool b) = ok b
to_bool _ = err not_a_bool

-- an `int64` or a `uint64` up to a limit
unfoldable pub to_uint : ℕ → Value → Result ℕ
to_uint limit (int64 (pos n)) = if ltb limit n then err value_out_of_range else ok n
to_uint limit (int64 (negsuc n)) = err value_out_of_range
to_uint limit (uint64 n) = if ltb limit n then err value_out_of_range else ok n
to_uint limit _ = err unexpected_type

unfoldable pub to_byte : Value → Result ℕ
unfolding to_uint
to_byte = to_uint 255

unfoldable pub to_uint16 : Value → Result ℕ
unfolding to_uint
to_uint16 = to_uint 65535

unfoldable pub to_uint32 : Value → Result ℕ
unfolding to_uint
to_uint32 = to_uint 4294967295

unfoldable pub to_string : Value → Result Bytes
to_string (string s) = ok s
to_string _ = err not_a_string

-- in nanoseconds
unfoldable pub to_duration_ms : Value → Result ℕ
unfolding to_uint32
to_duration_ms v = map_ok (λ ms. ms * 1000000) (to_uint32 v)

unfoldable pub version_named : Bytes → Result ℕ
version_named s =
    if same s (text "l2tpv2")
    then ok protocol_version_2
    else if same s (text "l2tpv3")
    then ok protocol_version_3
    else err unknown_name

unfoldable pub to_version : Value → Result ℕ
unfolding to_string version_named
to_version v = to_string v >>= version_named

-- `fc |= cap`, for a flag of one bit
unfoldable pub set_cap : ℕ → ℕ → ℕ
set_cap cap fc = if fc % (2 * cap) == fc % cap then fc + cap else fc

unfoldable pub cap_named : ℕ → Bytes → Result ℕ
unfolding set_cap
cap_named fc s =
    if same s (text "sync")
    then ok (set_cap framing_cap_sync fc)
    else if same s (text "async")
    then ok (set_cap framing_cap_async fc)
    else err unknown_name

-- the loop over the array
unfoldable pub add_caps : ℕ → Values → Result ℕ
unfolding to_string cap_named
add_caps fc nil = ok fc
add_caps fc (cons v vs) = to_string v >>= λ s. cap_named fc s >>= λ fc'. add_caps fc' vs

unfoldable pub to_framing_caps : Value → Result ℕ
unfolding add_caps
to_framing_caps (array vs) = add_caps 0 vs
to_framing_caps _ = err not_an_array

unfoldable pub encap_named : Bytes → Result ℕ
encap_named s =
    if same s (text "udp")
    then ok encap_type_udp
    else if same s (text "ip")
    then ok encap_type_ip
    else err unknown_name

unfoldable pub to_encap_type : Value → Result ℕ
unfolding to_string encap_named
to_encap_type v = to_string v >>= encap_named

unfoldable pub pseudowire_named : Bytes → Result ℕ
pseudowire_named s =
    if same s (text "ppp")
    then ok pseudowire_type_ppp
    else if same s (text "eth")
    then ok pseudowire_type_eth
    else if same s (text "pppac")
    then ok pseudowire_type_pppac
    else err unknown_name

unfoldable pub to_pseudowire_type : Value → Result ℕ
unfolding to_string pseudowire_named
to_pseudowire_type v = to_string v >>= pseudowire_named

unfoldable pub l2spec_named : Bytes → Result ℕ
l2spec_named s =
    if same s (text "none")
    then ok l2spec_type_none
    else if same s (text "default")
    then ok l2spec_type_default
    else err unknown_name

unfoldable pub to_l2spec_type : Value → Result ℕ
unfolding to_string l2spec_named
to_l2spec_type v = to_string v >>= l2spec_named

unfoldable pub to_ccid : Value → Result ℕ
unfolding to_uint32
to_ccid = to_uint32

-- the loop over the array
unfoldable pub each_byte : Values → Result Bytes
unfolding to_byte
each_byte nil = ok []
each_byte (cons v vs) = to_byte v >>= λ b. map_ok (λ bs. b ∷ bs) (each_byte vs)

unfoldable pub to_bytes : Value → Result Bytes
unfolding each_byte
to_bytes (array vs) = each_byte vs
to_bytes _ = err not_an_array
