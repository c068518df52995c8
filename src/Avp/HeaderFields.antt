-- ===== src/Avp/HeaderFields.antt =====
-- The fields of the AVP header as numbers, and reading back a written header.
use go_l2tp_debian.Prelude.{
  ℕ, ◌+◌, ◌/◌, ◌%◌, ◌<◌, ◌≡◌, refl, Bool, true, false, ◌++◌, arith, ◌∙◌, ◌==◌, ==_iff, bit_and,
  bit_xor, holds_below, holds_below_at, if◌then◌else◌,
}
use go_l2tp_debian.Prelude.Bits.{bit_and_low10, bit_and_bit14, bit_and_bit15}
use go_l2tp_debian.Prelude.Result.{ok}
use go_l2tp_debian.Prelude.Bytes.{Bytes, IsU16, u16}
use go_l2tp_debian.Avp.Header.{
  AvpHeader, avp_header_len, is_mandatory, is_hidden, total_len, new_avp_header, read_header,
  write_header,
}

-- the header's fields fit their sixteen bits
pub record IsHeader (h : AvpHeader) : Type 0 where
  pub flag_len_fits : IsU16 h.flag_len
  pub vendor_id_fits : IsU16 h.vendor_id
  pub avp_type_fits : IsU16 h.avp_type

pub read_header-write_header :
    (h : AvpHeader) (rest : Bytes)
    → IsHeader h
    → read_header (write_header h ++ rest) ≡ ok (h, rest)
unfolding read_header write_header
read_header-write_header h rest f = ground arith

-- the flags `m` are clear in the ten lowest bits, so `^` adds them to a length
abbrev adds : ℕ → ℕ → Bool
adds m x = bit_xor m x == m + x

xor_low : (m n : ℕ) → holds_below 1024 (adds m) ≡ true → n < 1024 → bit_xor m n ≡ m + n
xor_low m n table h = (==_iff _ _).0 (holds_below_at 1024 n (adds m) table h)

low_len : (n : ℕ) → u16 (bit_and 0x3ff (n + avp_header_len)) ≡ (n + 6) % 1024
low_len n = omega (arith, bit_and_low10 (n + 6))

low_len-lt : (n : ℕ) → (n + 6) % 1024 < 1024
low_len-lt n = omega arith

-- the flags and the length that a new header states, as a sum
pub flag_len-new :
    (m h : Bool) (n v t : ℕ)
    → (new_avp_header m h n v t).flag_len
      ≡ (if m then 0x8000 else 0) + (if h then 0x4000 else 0) + (n + 6) % 1024
unfolding new_avp_header
flag_len-new true true n v t =
    rw (low_len n) (xor_low 0xc000 _ (unfold holds_below in refl) (low_len-lt n))
flag_len-new true false n v t =
    rw (low_len n) (omega (arith, xor_low 0x8000 _ (unfold holds_below in refl) (low_len-lt n)))
flag_len-new false true n v t =
    rw (low_len n) (omega (arith, xor_low 0x4000 _ (unfold holds_below in refl) (low_len-lt n)))
flag_len-new false false n v t =
    rw (low_len n) (xor_low 0 _ (unfold holds_below in refl) (low_len-lt n))

pub is_mandatory_digit : (h : AvpHeader) → is_mandatory h ≡ (h.flag_len / 0x8000 % 2 == 1)
unfolding is_mandatory
is_mandatory_digit h = rw bit_and_bit15 (ground arith)

pub is_hidden_digit : (h : AvpHeader) → is_hidden h ≡ (h.flag_len / 0x4000 % 2 == 1)
unfolding is_hidden
is_hidden_digit h = rw bit_and_bit14 (ground arith)

pub total_len-mod : (h : AvpHeader) → total_len h ≡ h.flag_len % 1024
unfolding total_len
total_len-mod h = bit_and_low10 h.flag_len

-- A new header states what it was built from. Its length field has ten bits, so a payload of more
-- than 1017 bytes is stated modulo 1024.
pub new_avp_header_fields :
    (m h : Bool) (n v t : ℕ)
    → let hdr = new_avp_header m h n v t in
      (is_mandatory hdr ≡ m)
      × (is_hidden hdr ≡ h)
      × (total_len hdr ≡ (n + 6) % 1024)
      × (hdr.vendor_id ≡ v)
      × (hdr.avp_type ≡ t)
new_avp_header_fields m h n v t =
    let hdr : AvpHeader = new_avp_header m h n v t in
    (
      is_mandatory_digit hdr ∙ rw (flag_len-new m h n v t) (digit15 m h),
      is_hidden_digit hdr ∙ rw (flag_len-new m h n v t) (digit14 m h),
      total_len-mod hdr ∙ rw (flag_len-new m h n v t) (low10 m h),
      unfold new_avp_header in refl,
      unfold new_avp_header in refl,
    )
  where
    digit15 :
        (m h : Bool)
        → (((if m then 0x8000 else 0) + (if h then 0x4000 else 0) + (n + 6) % 1024) / 0x8000 % 2
            == 1)
          ≡ m
    digit15 m h = ground arith

    digit14 :
        (m h : Bool)
        → (((if m then 0x8000 else 0) + (if h then 0x4000 else 0) + (n + 6) % 1024) / 0x4000 % 2
            == 1)
          ≡ h
    digit14 m h = ground arith

    low10 :
        (m h : Bool)
        → ((if m then 0x8000 else 0) + (if h then 0x4000 else 0) + (n + 6) % 1024) % 1024
          ≡ (n + 6) % 1024
    low10 m h = ground arith
