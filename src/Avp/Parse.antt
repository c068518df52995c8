-- ===== src/Avp/Parse.antt =====
-- l2tp/avp.go: `parseAVPBuffer`. The reader is the list of the bytes that it has left.
use go_l2tp_debian.Prelude.{
  ℕ, zero, suc, true, false, Option, none, some, List, [], ◌∷◌, ◌++◌, ltb, length, take, drop,
  if◌then◌else◌,
}
use go_l2tp_debian.Prelude.Int.{ℤ, pos, negsuc, exceeds}
use go_l2tp_debian.Prelude.Result.{
  Result, ok, err, panic, stuck, mandatory_avp, avp_exceeds_buffer, no_avps, slice_bounds, ◌>>=◌,
}
use go_l2tp_debian.Prelude.Bytes.{Bytes}
use go_l2tp_debian.Avp.Info.{AvpInfo, get_avp_info}
use go_l2tp_debian.Avp.Header.{AvpHeader, avp_header_len, is_mandatory, data_len, read_header}
use go_l2tp_debian.Avp.Payload.{Avp}

-- `b[cursor : cursor+n]`, and the reader moved on by n; a slice of negative length panics
unfoldable pub cut : ℤ → Bytes → Result (Bytes × Bytes)
cut (pos n) r = ok (take n r, drop n r)
cut (negsuc n) r = panic slice_bounds

-- the bounds check, and the slice
unfoldable pub take_data : ℤ → Bytes → Result (Bytes × Bytes)
unfolding cut
take_data n r = if exceeds n (length r) then err avp_exceeds_buffer else cut n r

-- the round from the bounds check on, for an AVP that the table knows
unfoldable pub read_avp : AvpHeader → AvpInfo → Bytes → Result (Option Avp × Bytes)
unfolding take_data
read_avp h info r = do
  (chunk, rest) ← take_data (data_len h) r
  let avp : Avp = record {
    header = h;
    payload = record { data_type = info.data_type; data_bytes = chunk };
  }
  ok (some avp, rest)

-- the round from the lookup's error check on; `continue` leaves the reader behind the header
unfoldable pub on_info : AvpHeader → Bytes → Result AvpInfo → Result (Option Avp × Bytes)
unfolding read_avp
on_info h r (ok info) = read_avp h info r
on_info h r (err e) = if is_mandatory h then err (mandatory_avp e) else ok (none, r)
on_info h r (panic p) = panic p
on_info h r stuck = stuck

-- one round of the loop: the AVP that it appends, if any, and the bytes left
unfoldable pub parse_round : Bytes → Result (Option Avp × Bytes)
unfolding on_info
parse_round b = do (h, r) ← read_header b; on_info h r (get_avp_info h.avp_type h.vendor_id)

abbrev pub append_some : List Avp → Option Avp → List Avp
append_some avps none = avps
append_some avps (some a) = avps ++ a ∷ []

-- the loop, on fuel; `for r.Len() >= avpHeaderLen`
unfoldable pub parse_loop : ℕ → Bytes → List Avp → Result (List Avp)
parse_loop zero b avps = if ltb (length b) avp_header_len then ok avps else stuck
parse_loop (suc fuel) b avps = elim (ltb (length b) avp_header_len) [
  | true ↦ ok avps
  | false ↦ parse_round b >>= λ r. parse_loop fuel r.1 (append_some avps r.0)
]

unfoldable pub some_avps : List Avp → Result (List Avp)
some_avps [] = err no_avps
some_avps (a ∷ avps) = ok (a ∷ avps)

-- A round reads a header at least, so a round for each byte is enough.
unfoldable pub parse_avp_buffer : Bytes → Result (List Avp)
unfolding parse_loop parse_round some_avps
parse_avp_buffer b = parse_loop (length b) b [] >>= some_avps
