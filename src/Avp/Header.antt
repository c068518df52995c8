-- ===== src/Avp/Header.antt =====
-- l2tp/avp.go: the AVP header. `FlagLen` holds the flags M and H in its top digits and the length
-- of the whole AVP in its lowest ten.
use go_l2tp_debian.Prelude.{ℕ, ◌+◌, Bool, [], ◌∷◌, ◌++◌, ◌==◌, if◌then◌else◌, bit_and, bit_xor}
use go_l2tp_debian.Prelude.Int.{ℤ, sub_ℕ}
use go_l2tp_debian.Prelude.Result.{Result, ok, err, eof, unexpected_eof}
use go_l2tp_debian.Prelude.Bytes.{Bytes, be16, from_be16, u16}

-- `avpHeader`; each field is a uint16
pub record AvpHeader : Type 0 where
  pub flag_len : ℕ
  pub vendor_id : ℕ
  pub avp_type : ℕ

abbrev pub avp_header_len : ℕ
avp_header_len = 6

unfoldable pub is_mandatory : AvpHeader → Bool
is_mandatory hdr = bit_and 0x8000 hdr.flag_len == 0x8000

unfoldable pub is_hidden : AvpHeader → Bool
is_hidden hdr = bit_and 0x4000 hdr.flag_len == 0x4000

unfoldable pub total_len : AvpHeader → ℕ
total_len hdr = bit_and 0x3ff hdr.flag_len

-- an `int`: negative where the header states a length shorter than itself
unfoldable pub data_len : AvpHeader → ℤ
data_len hdr = sub_ℕ (total_len hdr) avp_header_len

unfoldable pub new_avp_header : Bool → Bool → ℕ → ℕ → ℕ → AvpHeader
new_avp_header mandatory hidden payload_bytes vid typ =
    let m = if mandatory then bit_xor 0 0x8000 else 0 in
    let h = if hidden then bit_xor m 0x4000 else m in
    record {
      flag_len = bit_xor h (u16 (bit_and 0x3ff (payload_bytes + avp_header_len)));
      vendor_id = vid;
      avp_type = typ;
    }

-- `binary.Read` into an `avpHeader`
unfoldable pub read_header : Bytes → Result (AvpHeader × Bytes)
read_header [] = err eof
read_header (a ∷ b ∷ c ∷ d ∷ e ∷ f ∷ rest) =
    ok (
      record { flag_len = from_be16 a b; vendor_id = from_be16 c d; avp_type = from_be16 e f },
      rest,
    )
read_header _ = err unexpected_eof

-- `binary.Write` of an `avpHeader`
unfoldable pub write_header : AvpHeader → Bytes
write_header hdr = be16 hdr.flag_len ++ be16 hdr.vendor_id ++ be16 hdr.avp_type
