-- ===== src/Avp/ParseFaults.antt =====
-- How `parseAVPBuffer` fails at the first AVP of a buffer.
use go_l2tp_debian.Prelude.{
  suc, ap, List, ◌+◌, ◌≤◌, ◌<◌, ◌≡◌, ◌∙◌, true, [], ◌++◌, arith, length, length-append,
}
use go_l2tp_debian.Prelude.Result.{
  Result, Error, ok, err, panic, mandatory_avp, avp_exceeds_buffer, slice_bounds, ◌>>=◌,
}
use go_l2tp_debian.Prelude.Bytes.{Bytes}
use go_l2tp_debian.Avp.Info.{AvpInfo, get_avp_info}
use go_l2tp_debian.Avp.Header.{AvpHeader, is_mandatory, total_len, data_len, write_header}
use go_l2tp_debian.Avp.Payload.{Avp}
use go_l2tp_debian.Avp.Parse.{
  append_some, take_data, read_avp, on_info, parse_round, parse_loop, some_avps, parse_avp_buffer,
}
use go_l2tp_debian.Avp.HeaderFields.{IsHeader, read_header-write_header}
use go_l2tp_debian.Avp.ParseSteps.{parse_loop_more, parse_loop_fuel}
use go_l2tp_debian.Avp.ParseSound.{length-write_header}

six : (h : AvpHeader) (r : Bytes) → 6 ≤ length (write_header h ++ r)
six h r = omega (arith, length-append (write_header h) r, length-write_header h)

first_round :
    (b : Bytes)
    → 6 ≤ length b
    → parse_avp_buffer b
      ≡ ((parse_round b >>= λ x. parse_loop (length b) x.1 (append_some [] x.0)) >>= some_avps)
unfolding parse_avp_buffer
first_round b h =
    ap (λ m. m >>= some_avps)
      (parse_loop_fuel (length b) (suc (length b)) b [] (omega arith) (omega arith)
        ∙ parse_loop_more (length b) b [] h)

-- what the first AVP's header `h` says, in front of the bytes `r`
pub data Fault (h : AvpHeader) (r : Bytes) : Result (List Avp) → Type 0 where
  -- the table does not know the AVP, and it is mandatory
  unrecognised :
      (e : Error)
      → get_avp_info h.avp_type h.vendor_id ≡ err e
      → is_mandatory h ≡ true
      → Fault h r (err (mandatory_avp e))
  -- the header states more bytes than are left
  too_long :
      (info : AvpInfo)
      → get_avp_info h.avp_type h.vendor_id ≡ ok info
      → 6 + length r < total_len h
      → Fault h r (err avp_exceeds_buffer)
  -- the header states fewer bytes than it has itself
  too_short :
      (info : AvpInfo)
      → get_avp_info h.avp_type h.vendor_id ≡ ok info
      → total_len h < 6
      → Fault h r (panic slice_bounds)

take_data-too_long :
    (h : AvpHeader) (r : Bytes)
    → 6 + length r < total_len h
    → take_data (data_len h) r ≡ err avp_exceeds_buffer
unfolding take_data data_len
take_data-too_long h r k = ground arith

take_data-too_short :
    (h : AvpHeader) (r : Bytes) → total_len h < 6 → take_data (data_len h) r ≡ panic slice_bounds
unfolding take_data data_len
take_data-too_short h r k = ground arith

-- What `parseAVPBuffer` does at the first AVP of a buffer, whose header's fields fit 16 bits. An AVP
-- that the table does not know and that is mandatory gives an error, and so does a known one whose
-- length passes the end of the buffer. A known AVP whose length field is below six makes the slice
-- of its data panic, whatever stands behind its header.
pub parse_avp_buffer-Fault :
    (h : AvpHeader) (r : Bytes) {out : Result (List Avp)}
    → IsHeader h
    → Fault h r out
    → parse_avp_buffer (write_header h ++ r) ≡ out
unfolding parse_round on_info read_avp
parse_avp_buffer-Fault h r f (unrecognised e k m) =
    first_round (write_header h ++ r) (six h r) ∙ rw (read_header-write_header h r f, k, m)
parse_avp_buffer-Fault h r f (too_long info k l) =
    first_round (write_header h ++ r) (six h r)
    ∙ rw (read_header-write_header h r f, k, take_data-too_long h r l)
parse_avp_buffer-Fault h r f (too_short info k l) =
    first_round (write_header h ++ r) (six h r)
    ∙ rw (read_header-write_header h r f, k, take_data-too_short h r l)
