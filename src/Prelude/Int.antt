-- ===== src/Prelude/Int.antt =====
-- Go's `int`, where the code subtracts and may fall below zero. `negsuc n` is -(n + 1).
use Prim.Native.Nat.{ℕ, ◌-◌}
use mathlib.Core.Bool.{Bool, false}
use go_l2tp_debian.Prelude.Tests.{ltb, leb, if◌then◌else◌}

pub data ℤ : Type 0 where
  pos : ℕ → ℤ
  negsuc : ℕ → ℤ

-- a - b, as an integer
abbrev pub sub_ℕ : ℕ → ℕ → ℤ
sub_ℕ a b = if leb b a then pos (a - b) else negsuc (b - a - 1)

-- i > n
abbrev pub exceeds : ℤ → ℕ → Bool
exceeds (pos i) n = ltb n i
exceeds (negsuc i) n = false
