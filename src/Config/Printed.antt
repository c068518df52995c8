-- ===== src/Config/Printed.antt =====
-- config/config.go: the conversions on the values that describe a field.
use go_l2tp_debian.Prelude.{
  ℕ, zero, suc, ◌*◌, ◌/◌, ◌%◌, ◌≤◌, ◌<◌, ◌≡◌, ◌⊎◌, inl, inr, arith, refl, ap, ◌∙◌, [], ◌∷◌, All,
}
use go_l2tp_debian.Prelude.Result.{ok, map_ok}
use go_l2tp_debian.Prelude.Bytes.{Bytes, IsByte, IsU16, IsU32}
use go_l2tp_debian.Config.Types.{
  string, array, pseudowire_type_ppp, pseudowire_type_eth, pseudowire_type_pppac,
  protocol_version_2, protocol_version_3, encap_type_udp, encap_type_ip, l2spec_type_none,
  l2spec_type_default,
}
use go_l2tp_debian.Config.Convert.{
  to_byte, to_uint16, to_uint32, to_duration_ms, to_version, to_framing_caps, to_encap_type,
  to_pseudowire_type, to_l2spec_type, to_ccid, each_byte, to_bytes,
}
use go_l2tp_debian.Config.Ranges.{to_uint-int64}
use go_l2tp_debian.Config.Print.{
  number, byte_values, pseudowire_name, version_name, encap_name, l2spec_name, cap_values,
}

-- a whole number of milliseconds in 32 bits
abbrev pub IsMs : ℕ → Type 0
IsMs t = (t % 1000000 ≡ 0) × (t / 1000000 ≤ 4294967295)

pub to_ccid-number : (n : ℕ) → IsU32 n → to_ccid (number n) ≡ ok n
unfolding to_ccid to_uint32
to_ccid-number n h = to_uint-int64 4294967295 n (omega arith)

pub to_uint16-number : (n : ℕ) → IsU16 n → to_uint16 (number n) ≡ ok n
unfolding to_uint16
to_uint16-number n h = to_uint-int64 65535 n (omega arith)

pub to_duration_ms-number : (t : ℕ) → IsMs t → to_duration_ms (number (t / 1000000)) ≡ ok t
unfolding to_duration_ms to_uint32
to_duration_ms-number t (whole, fits) =
    ap (map_ok (λ ms. ms * 1000000)) (to_uint-int64 4294967295 (t / 1000000) fits)
    ∙ ap ok (omega arith)

each_byte-values : (bs : Bytes) → All IsByte bs → each_byte (byte_values bs) ≡ ok bs
unfolding each_byte to_byte
each_byte-values [] h = refl
each_byte-values (b ∷ bs) (hb, hbs) =
    rw (to_uint-int64 255 b (omega arith), each_byte-values bs hbs)

pub to_bytes-values : (bs : Bytes) → All IsByte bs → to_bytes (array (byte_values bs)) ≡ ok bs
unfolding to_bytes
to_bytes-values bs h = each_byte-values bs h

pub to_pseudowire_type-name :
    (t : ℕ)
    → (t ≡ pseudowire_type_ppp) ⊎ ((t ≡ pseudowire_type_eth) ⊎ (t ≡ pseudowire_type_pppac))
    → to_pseudowire_type (string (pseudowire_name t)) ≡ ok t
unfolding to_pseudowire_type
to_pseudowire_type-name t (inl e) = rw e
to_pseudowire_type-name t (inr (inl e)) = rw e
to_pseudowire_type-name t (inr (inr e)) = rw e

pub to_l2spec_type-name :
    (t : ℕ)
    → (t ≡ l2spec_type_none) ⊎ (t ≡ l2spec_type_default)
    → to_l2spec_type (string (l2spec_name t)) ≡ ok t
unfolding to_l2spec_type
to_l2spec_type-name t (inl e) = rw e
to_l2spec_type-name t (inr e) = rw e

pub to_version-name :
    (v : ℕ)
    → (v ≡ protocol_version_2) ⊎ (v ≡ protocol_version_3)
    → to_version (string (version_name v)) ≡ ok v
unfolding to_version
to_version-name v (inl e) = rw e
to_version-name v (inr e) = rw e

pub to_encap_type-name :
    (n : ℕ)
    → (n ≡ encap_type_udp) ⊎ (n ≡ encap_type_ip)
    → to_encap_type (string (encap_name n)) ≡ ok n
unfolding to_encap_type
to_encap_type-name n (inl e) = rw e
to_encap_type-name n (inr e) = rw e

pub to_framing_caps-values : (n : ℕ) → n < 4 → to_framing_caps (array (cap_values n)) ≡ ok n
unfolding to_framing_caps
to_framing_caps-values zero h = refl
to_framing_caps-values (suc zero) h = refl
to_framing_caps-values (suc (suc zero)) h = refl
to_framing_caps-values (suc (suc (suc zero))) h = refl
to_framing_caps-values (suc (suc (suc (suc n)))) h = absurd (omega arith)
