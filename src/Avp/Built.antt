-- ===== src/Avp/Built.antt =====
-- What `newAvp` builds, as bytes on the wire: its length field, and parsing it again.
use go_l2tp_debian.Prelude.{
  ℕ, ◌+◌, ◌%◌, ◌≤◌, ◌≡◌, ◌↔◌, ◌∙◌, sym, ap, Bool, false, arith, length, subst, if◌then◌else◌,
}
use go_l2tp_debian.Prelude.Int.{pos}
use go_l2tp_debian.Prelude.Result.{ok}
use go_l2tp_debian.Prelude.Bytes.{IsU16}
use go_l2tp_debian.Avp.Header.{data_len, new_avp_header}
use go_l2tp_debian.Avp.Payload.{Avp, Value}
use go_l2tp_debian.Avp.Encode.{new_avp}
use go_l2tp_debian.Avp.HeaderFields.{IsHeader, new_avp_header_fields, flag_len-new}
use go_l2tp_debian.Avp.RoundTrip.{new_avp_inv}
use go_l2tp_debian.Avp.ParseRoundTrip.{IsWf}

data_len-new :
    (m : Bool) (n v t : ℕ) → (data_len (new_avp_header m false n v t) ≡ pos n) ↔ (n ≤ 1017)
unfolding data_len
data_len-new m n v t =
    let total = (new_avp_header_fields m false n v t).2 in rw total (ground arith)

IsHeader-new : (m : Bool) (n v t : ℕ) → IsU16 v → IsU16 t → IsHeader (new_avp_header m false n v t)
IsHeader-new m n v t hv ht =
    let fields = new_avp_header_fields m false n v t in
    record {
      flag_len_fits = rw (flag_len-new m false n v t) (flags m);
      vendor_id_fits = rw (fields.3) hv;
      avp_type_fits = rw (fields.4) ht;
    }
  where
    flags :
        (m : Bool)
        → IsU16 ((if m then 0x8000 else 0) + (if false then 0x4000 else 0) + (n + 6) % 1024)
    flags m = ground arith

-- An AVP that `newAvp` returns states the length of its data exactly when the data has at most 1017
-- bytes: nothing refuses longer data, and the ten digits of the length field do not hold more.
pub new_avp_sized_iff :
    (vendor typ : ℕ) (value : Value) {a : Avp}
    → new_avp vendor typ value ≡ ok a
    → (data_len a.header ≡ pos (length a.payload.data_bytes)) ↔ (length a.payload.data_bytes ≤ 1017)
new_avp_sized_iff vendor typ value h =
    let (info, buf, found, encoded, made) = new_avp_inv vendor typ value h in
    rw (← made) (data_len-new info.is_mandatory (length buf) vendor typ)

-- An AVP that `newAvp` returns for 16-bit identifiers, with at most 1017 bytes of data, is one that
-- `parseAVPBuffer` reads back: its type is in the table, with the data type of the payload, the
-- header's fields fit 16 bits, and the length field is the size of the data.
pub new_avp-IsWf :
    (vendor typ : ℕ) (value : Value) {a : Avp}
    → IsU16 vendor
    → IsU16 typ
    → new_avp vendor typ value ≡ ok a
    → length a.payload.data_bytes ≤ 1017
    → IsWf a
new_avp-IsWf vendor typ value {a} hv ht h short =
    let (info, buf, found, encoded, made) = new_avp_inv vendor typ value h in
    let fields = new_avp_header_fields info.is_mandatory false (length buf) vendor typ in
    let type_is : a.header.avp_type ≡ typ = ap (λ x. x.header.avp_type) (sym made) ∙ fields.4 in
    let vendor_is : a.header.vendor_id ≡ vendor =
      ap (λ x. x.header.vendor_id) (sym made) ∙ fields.3 in
    record {
      header_fits =
          subst (λ x. IsHeader x.header) made
            (IsHeader-new info.is_mandatory (length buf) vendor typ hv ht);
      info = info;
      known = rw (type_is, vendor_is) found;
      typed = ap (λ x. x.payload.data_type) (sym made);
      sized = (new_avp_sized_iff vendor typ value h).1 short;
    }
