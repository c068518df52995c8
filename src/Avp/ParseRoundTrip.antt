-- ===== src/Avp/ParseRoundTrip.antt =====
-- Parsing the bytes of written AVPs gives the AVPs back.
use go_l2tp_debian.Prelude.{
  ℕ, zero, suc, ◌+◌, ◌≤◌, ◌<◌, ◌≡◌, ◌≢◌, refl, sym, ap, ◌∙◌, false, some, List, [], ◌∷◌, ◌++◌,
  append_assoc, append-nil, arith, length, le→ltb, All, length-append, take-append, drop-append,
}
use go_l2tp_debian.Prelude.Int.{pos, exceeds}
use go_l2tp_debian.Prelude.Result.{ok}
use go_l2tp_debian.Prelude.Bytes.{Bytes}
use go_l2tp_debian.Avp.Info.{AvpInfo, get_avp_info}
use go_l2tp_debian.Avp.Header.{data_len, write_header}
use go_l2tp_debian.Avp.Payload.{Avp}
use go_l2tp_debian.Avp.Parse.{cut, read_avp, parse_round, parse_loop, parse_avp_buffer}
use go_l2tp_debian.Avp.ParseSteps.{parse_loop_done, parse_loop_more}
use go_l2tp_debian.Avp.Write.{write_avp, write_avps}
use go_l2tp_debian.Avp.HeaderFields.{IsHeader, read_header-write_header}

-- An AVP as the code builds and parses it: its type is in the table and gives the data type, and
-- the header states the length of the data.
pub record IsWf (a : Avp) : Type 0 where
  pub header_fits : IsHeader a.header
  pub info : AvpInfo
  pub known : get_avp_info a.header.avp_type a.header.vendor_id ≡ ok info
  pub typed : a.payload.data_type ≡ info.data_type
  pub sized : data_len a.header ≡ pos (length a.payload.data_bytes)

read_avp-IsWf :
    (a : Avp) (rest : Bytes) (w : IsWf a)
    → read_avp a.header w.info (a.payload.data_bytes ++ rest) ≡ ok (some a, rest)
unfolding read_avp cut
read_avp-IsWf a rest w =
    let fits : exceeds (pos (length a.payload.data_bytes)) (length (a.payload.data_bytes ++ rest))
        ≡ false =
      le→ltb _ _ (omega (arith, length-append a.payload.data_bytes rest)) in
    rw (
      w.sized,
      fits,
      take-append a.payload.data_bytes rest,
      drop-append a.payload.data_bytes rest,
      ← w.typed,
    )

pub parse_round-write_avp :
    (a : Avp) (rest : Bytes) → IsWf a → parse_round (write_avp a ++ rest) ≡ ok (some a, rest)
unfolding parse_round write_avp
parse_round-write_avp a rest w = simp (
  append_assoc,
  read_header-write_header a.header (a.payload.data_bytes ++ rest) w.header_fits,
  w.known,
  read_avp-IsWf a rest w,
)

pub length-write_avp : (a : Avp) → length (write_avp a) ≡ 6 + length a.payload.data_bytes
unfolding write_avp write_header
length-write_avp a = omega arith

length-split :
    (a : Avp) (avps : List Avp) (rest : Bytes)
    → length (write_avps (a ∷ avps) ++ rest)
      ≡ 6 + length a.payload.data_bytes + length (write_avps avps ++ rest)
unfolding write_avps
length-split a avps rest = omega (
  arith,
  length-append (write_avp a ++ write_avps avps) rest,
  length-append (write_avp a) (write_avps avps),
  length-append (write_avps avps) rest,
  length-write_avp a,
)

-- with enough fuel, and with fewer bytes behind the AVPs than a header takes
pub parse_loop-write_avps :
    (fuel : ℕ) (avps acc : List Avp) (rest : Bytes)
    → All IsWf avps
    → length rest < 6
    → length (write_avps avps ++ rest) ≤ fuel
    → parse_loop fuel (write_avps avps ++ rest) acc ≡ ok (acc ++ avps)
unfolding parse_loop write_avps
parse_loop-write_avps fuel [] acc rest w h enough =
    parse_loop_done fuel rest acc h ∙ ap ok (sym (append-nil acc))
parse_loop-write_avps zero (a ∷ avps) acc rest w h enough =
    absurd (omega (arith, length-split a avps rest))
parse_loop-write_avps (suc fuel) (a ∷ avps) acc rest w h enough =
    let split = length-split a avps rest in
    let assoc = append_assoc (write_avp a) (write_avps avps) rest in
    parse_loop_more fuel _ acc (omega (arith, split))
    ∙ rw (assoc, parse_round-write_avp a (write_avps avps ++ rest) w.0)
        (parse_loop-write_avps fuel avps (acc ++ a ∷ []) rest w.1 h (omega (arith, split))
          ∙ ap ok (append_assoc acc (a ∷ []) avps))

-- `parseAVPBuffer` gives back the AVPs that were written, if there is one, each of them is as the
-- code builds AVPs, and fewer than six bytes stand behind them; those are ignored.
pub parse_avp_buffer-write_avps :
    (avps : List Avp) (rest : Bytes)
    → All IsWf avps
    → avps ≢ []
    → length rest < 6
    → parse_avp_buffer (write_avps avps ++ rest) ≡ ok avps
unfolding parse_avp_buffer
parse_avp_buffer-write_avps [] rest w ne h = absurd (ne refl)
parse_avp_buffer-write_avps (a ∷ avps) rest w ne h = rw (
    parse_loop-write_avps (length (write_avps (a ∷ avps) ++ rest)) (a ∷ avps) [] rest w h
      (omega arith))
