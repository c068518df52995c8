-- ===== src/Prelude/Bytes.antt =====
-- Byte slices as lists of numbers, and the big-endian integers of encoding/binary.
use Prim.Native.Nat.{ℕ, ◌+◌, ◌*◌, ◌/◌, ◌%◌, ◌<◌}
use mathlib.Core.Path.{◌≡◌}
use mathlib.Core.List.{List, [], ◌∷◌, ◌++◌}
use native.Mathlib.Omega.{arith}
use go_l2tp_debian.Prelude.Result.{Result, ok, err, eof, unexpected_eof}

abbrev pub Bytes : Type 0
Bytes = List ℕ

abbrev pub IsByte : ℕ → Type 0
IsByte b = b < 256

abbrev pub IsU16 : ℕ → Type 0
IsU16 n = n < 65536

abbrev pub IsU32 : ℕ → Type 0
IsU32 n = n < 4294967296

abbrev pub IsU64 : ℕ → Type 0
IsU64 n = n < 18446744073709551616

-- conversions between Go's integer types cut the high digits off
abbrev pub u16 : ℕ → ℕ
u16 n = n % 65536

abbrev pub u32 : ℕ → ℕ
u32 n = n % 4294967296

abbrev pub be16 : ℕ → Bytes
be16 n = (n / 256 % 256) ∷ (n % 256) ∷ []

abbrev pub be32 : ℕ → Bytes
be32 n = be16 (n / 65536) ++ be16 n

abbrev pub be64 : ℕ → Bytes
be64 n = be32 (n / 4294967296) ++ be32 n

abbrev pub from_be16 : ℕ → ℕ → ℕ
from_be16 a b = a * 256 + b

abbrev pub from_be32 : ℕ → ℕ → ℕ → ℕ → ℕ
from_be32 a b c d = from_be16 a b * 65536 + from_be16 c d

-- `binary.Read` of one uint16: the value and what is left; `io.EOF` where there is nothing,
-- `io.ErrUnexpectedEOF` where there is too little
unfoldable pub read_u16 : Bytes → Result (ℕ × Bytes)
read_u16 [] = err eof
read_u16 (a ∷ []) = err unexpected_eof
read_u16 (a ∷ b ∷ rest) = ok (from_be16 a b, rest)

unfoldable pub read_u32 : Bytes → Result (ℕ × Bytes)
read_u32 [] = err eof
read_u32 (a ∷ b ∷ c ∷ d ∷ rest) = ok (from_be32 a b c d, rest)
read_u32 _ = err unexpected_eof

unfoldable pub read_u64 : Bytes → Result (ℕ × Bytes)
read_u64 [] = err eof
read_u64 (a ∷ b ∷ c ∷ d ∷ e ∷ f ∷ g ∷ h ∷ rest) =
    ok (from_be32 a b c d * 4294967296 + from_be32 e f g h, rest)
read_u64 _ = err unexpected_eof

pub from_be16-be16 : (n : ℕ) → IsU16 n → from_be16 (n / 256 % 256) (n % 256) ≡ n
from_be16-be16 n h = omega arith

-- Reading what was written gives the number back, whatever stands behind it.
pub read_u16-be16 : (n : ℕ) (rest : Bytes) → IsU16 n → read_u16 (be16 n ++ rest) ≡ ok (n, rest)
unfolding read_u16
read_u16-be16 n rest h = ground arith

pub read_u32-be32 : (n : ℕ) (rest : Bytes) → IsU32 n → read_u32 (be32 n ++ rest) ≡ ok (n, rest)
unfolding read_u32
read_u32-be32 n rest h = ground arith

pub read_u64-be64 : (n : ℕ) (rest : Bytes) → IsU64 n → read_u64 (be64 n ++ rest) ≡ ok (n, rest)
unfolding read_u64
read_u64-be64 n rest h = ground arith
