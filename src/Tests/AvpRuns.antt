-- ===== src/Tests/AvpRuns.antt =====
-- l2tp/avp.go: the theorems on AVPs at concrete inputs.
use go_l2tp_debian.Prelude.{◌≡◌, ◌≢◌, ◌↔◌, refl, arith, [], ◌∷◌, ◌++◌}
use go_l2tp_debian.Prelude.Result.{ok, panic, slice_bounds}
use go_l2tp_debian.Prelude.Bytes.{Bytes}
use go_l2tp_debian.Avp.Info.{DataType, get_avp_info}
use go_l2tp_debian.Avp.Header.{AvpHeader, total_len, new_avp_header, write_header}
use go_l2tp_debian.Avp.Payload.{Avp, Value, decode}
use go_l2tp_debian.Avp.Encode.{encode_payload, new_avp}
use go_l2tp_debian.Avp.Parse.{parse_avp_buffer}
use go_l2tp_debian.Avp.Write.{write_avps}
use go_l2tp_debian.Avp.HeaderFields.{IsHeader}
use go_l2tp_debian.Avp.RoundTrip.{decode-new_avp}
use go_l2tp_debian.Avp.Built.{new_avp-IsWf}
use go_l2tp_debian.Avp.ParseRoundTrip.{IsWf, parse_avp_buffer-write_avps}
use go_l2tp_debian.Avp.ParseSound.{Holds, parse_avp_buffer_iff}
use go_l2tp_debian.Avp.ParseFaults.{Fault, too_short, parse_avp_buffer-Fault}

-- the AVP of a HELLO message
abbrev hello_avp : Avp
hello_avp = record {
  header = record { flag_len = 0x8008; vendor_id = 0; avp_type = 0 };
  payload = record { data_type = DataType.msg_id; data_bytes = 0 ∷ 6 ∷ [] };
}

abbrev hello_bytes : Bytes
hello_bytes = 0x80 ∷ 8 ∷ 0 ∷ 0 ∷ 0 ∷ 0 ∷ 0 ∷ 6 ∷ []

-- it states fewer bytes than a header has
abbrev short_header : AvpHeader
short_header = record { flag_len = 0x8005; vendor_id = 0; avp_type = 0 }

hello_avp-new : new_avp 0 0 (Value.msg_type 6) ≡ ok hello_avp
unfolding new_avp encode_payload get_avp_info new_avp_header
hello_avp-new = refl

parse_avp_buffer_iff_example :
    (parse_avp_buffer hello_bytes ≡ ok (hello_avp ∷ []))
    ↔ (Holds hello_bytes (hello_avp ∷ []) × ((hello_avp ∷ []) ≢ []))
parse_avp_buffer_iff_example = parse_avp_buffer_iff hello_bytes (hello_avp ∷ []) (ground arith)

decode-new_avp_example : decode hello_avp ≡ ok (Value.msg_type 6)
decode-new_avp_example = decode-new_avp 0 0 (Value.msg_type 6) (omega arith) hello_avp-new

hello_avp-IsWf : IsWf hello_avp
hello_avp-IsWf =
    new_avp-IsWf 0 0 (Value.msg_type 6) (omega arith) (omega arith) hello_avp-new (omega arith)

parse_avp_buffer-write_avps_example :
    parse_avp_buffer (write_avps (hello_avp ∷ hello_avp ∷ []) ++ 0 ∷ 0 ∷ [])
    ≡ ok (hello_avp ∷ hello_avp ∷ [])
parse_avp_buffer-write_avps_example =
    parse_avp_buffer-write_avps (hello_avp ∷ hello_avp ∷ []) (0 ∷ 0 ∷ [])
      (hello_avp-IsWf, (hello_avp-IsWf, tt)) (λ e. cc) (omega arith)

short_header-IsHeader : IsHeader short_header
short_header-IsHeader = ground arith

short_header-Fault : Fault short_header (1 ∷ 2 ∷ []) (panic slice_bounds)
unfolding get_avp_info total_len
short_header-Fault = too_short _ refl (omega arith)

parse_avp_buffer-Fault_example :
    parse_avp_buffer (write_header short_header ++ 1 ∷ 2 ∷ []) ≡ panic slice_bounds
parse_avp_buffer-Fault_example =
    parse_avp_buffer-Fault short_header (1 ∷ 2 ∷ []) short_header-IsHeader short_header-Fault
