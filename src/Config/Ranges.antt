-- ===== src/Config/Ranges.antt =====
-- config/config.go: the integers that the conversions take.
use go_l2tp_debian.Prelude.{
  ℕ, ◌≤◌, ◌≡◌, ◌⊎◌, ◌↔◌, inl, inr, arith, ap, Bool, true, false, ltb, if◌then◌else◌, Bool-cases,
  ltb→le,
}
use go_l2tp_debian.Prelude.Int.{pos, negsuc}
use go_l2tp_debian.Prelude.Result.{ok, err, value_out_of_range}
use go_l2tp_debian.Config.Types.{Value, int64, uint64, bool, string, array, table, other}
use go_l2tp_debian.Config.Convert.{to_uint, to_byte, to_uint16, to_uint32}

-- the integer, as either of the types of TOML
abbrev pub IsInteger : ℕ → Value → Type 0
IsInteger n v = (v ≡ int64 (pos n)) ⊎ (v ≡ uint64 n)

in_range :
    (limit m n : ℕ)
    → (if ltb limit m then err value_out_of_range else ok m) ≡ ok n
    → (m ≡ n) × (n ≤ limit)
in_range limit m n h = elim (Bool-cases (ltb limit m)) [
  | inl above ↦ absurd (refused (ltb limit m) above h)
  | inr below ↦ (
    taken (ltb limit m) below h,
    ground (arith, ltb→le limit m below, taken (ltb limit m) below h),
  )
]
  where
    refused : (b : Bool) → b ≡ true → (if b then err value_out_of_range else ok m) ≡ ok n → ⊥
    refused true e k = cc
    refused false e k = cc

    taken : (b : Bool) → b ≡ false → (if b then err value_out_of_range else ok m) ≡ ok n → m ≡ n
    taken true e k = cc
    taken false e k = cc

to_uint_taken : (limit n : ℕ) (v : Value) → to_uint limit v ≡ ok n → (n ≤ limit) × IsInteger n v
unfolding to_uint
to_uint_taken limit n (int64 (pos m)) h =
    let (e, l) = in_range limit m n h in (l, inl (ap (λ x. int64 (pos x)) e))
to_uint_taken limit n (int64 (negsuc m)) h = cc
to_uint_taken limit n (uint64 m) h = let (e, l) = in_range limit m n h in (l, inr (ap uint64 e))
to_uint_taken limit n (bool b) h = cc
to_uint_taken limit n (string s) h = cc
to_uint_taken limit n (array vs) h = cc
to_uint_taken limit n (table t) h = cc
to_uint_taken limit n (other m) h = cc

pub to_uint-int64 : (limit n : ℕ) → n ≤ limit → to_uint limit (int64 (pos n)) ≡ ok n
unfolding to_uint
to_uint-int64 limit n l = ground arith

pub to_uint-uint64 : (limit n : ℕ) → n ≤ limit → to_uint limit (uint64 n) ≡ ok n
unfolding to_uint
to_uint-uint64 limit n l = ground arith

to_uint_given : (limit n : ℕ) (v : Value) → (n ≤ limit) × IsInteger n v → to_uint limit v ≡ ok n
to_uint_given limit n v (l, inl e) = rw e (to_uint-int64 limit n l)
to_uint_given limit n v (l, inr e) = rw e (to_uint-uint64 limit n l)

pub record Converts (v : Value) (n : ℕ) : Type 0 where
  pub byte : (to_byte v ≡ ok n) ↔ ((n ≤ 255) × IsInteger n v)
  pub uint16 : (to_uint16 v ≡ ok n) ↔ ((n ≤ 65535) × IsInteger n v)
  pub uint32 : (to_uint32 v ≡ ok n) ↔ ((n ≤ 4294967295) × IsInteger n v)

-- toByte, toUint16 and toUint32 each return a number exactly if the value is that number as an int64
-- or a uint64 and it is at most 255, 65535 or 4294967295.
pub conversions-Converts : (v : Value) (n : ℕ) → Converts v n
unfolding to_byte to_uint16 to_uint32
conversions-Converts v n = record {
  byte = (to_uint_taken 255 n v, to_uint_given 255 n v);
  uint16 = (to_uint_taken 65535 n v, to_uint_given 65535 n v);
  uint32 = (to_uint_taken 4294967295 n v, to_uint_given 4294967295 n v);
}
