-- ===== src/Prelude/Bits.antt =====
-- `&` on native numbers at the masks that the code uses, as arithmetic.
use Prim.Native.Nat.{ℕ, zero, suc, ◌+◌, ◌*◌, ◌/◌, ◌%◌, ◌≤◌, min, bit_and, digits, bit_and-bitwise}
use mathlib.Core.Path.{◌≡◌, refl}
use native.Mathlib.Omega.{arith}

-- `bit_and` by its digits, with as many of them as the first argument counts
abbrev shared : ℕ → ℕ → ℕ → ℕ
shared count x y = digits (λ rest. zero) min count x y

-- two counts that both reach the last digit of `x`
shared_enough : (x y : ℕ) (few many : ℕ) → x ≤ many → x ≤ few → shared few x y ≡ shared many x y
shared_enough zero y zero zero hm hf = refl
shared_enough zero y zero (suc many) hm hf = refl
shared_enough zero y (suc few) zero hm hf = refl
shared_enough zero y (suc few) (suc many) hm hf = refl
shared_enough (suc x) y zero many hm hf = absurd (omega arith)
shared_enough (suc x) y (suc few) zero hm hf = absurd (omega arith)
shared_enough (suc x) y (suc few) (suc many) hm hf =
    let half = shared_enough (suc x / 2) (y / 2) few many (omega arith) (omega arith) in
    omega (arith, half)

zero-bit_and : (y : ℕ) → bit_and 0 y ≡ 0
zero-bit_and y = bit_and-bitwise 0 y

-- the lowest digit of each, and the rest
pub bit_and_halves : (x y : ℕ) → bit_and x y ≡ min (x % 2) (y % 2) + 2 * bit_and (x / 2) (y / 2)
bit_and_halves zero y = omega (arith, zero-bit_and (y / 2), zero-bit_and y)
bit_and_halves (suc x) y =
    let whole = bit_and-bitwise (suc x) y in
    let rest = bit_and-bitwise (suc x / 2) (y / 2) in
    let same = shared_enough (suc x / 2) (y / 2) x (suc x / 2) (omega arith) (omega arith) in
    omega (arith, same, rest, whole)

even_step : (m b : ℕ) → bit_and (m * 2) b ≡ bit_and m (b / 2) * 2
even_step m b =
    let half : m * 2 / 2 ≡ m = omega arith in omega (arith, rw half at (bit_and_halves (m * 2) b))

odd_step : (m b : ℕ) → bit_and (m * 2 + 1) b ≡ bit_and m (b / 2) * 2 + b % 2
odd_step m b =
    let half : (m * 2 + 1) / 2 ≡ m = omega arith in
    omega (arith, rw half at (bit_and_halves (m * 2 + 1) b))

even_steps : (m b : ℕ) → bit_and (m * 2 * 2) b ≡ bit_and m (b / 4) * 4
even_steps m b =
    let quarter : b / 2 / 2 ≡ b / 4 = omega arith in
    omega (arith, even_step (m * 2) b, rw quarter at (even_step m (b / 2)))

odd_steps : (m b : ℕ) → bit_and ((m * 2 + 1) * 2 + 1) b ≡ bit_and m (b / 4) * 4 + b % 4
odd_steps m b =
    let quarter : b / 2 / 2 ≡ b / 4 = omega arith in
    omega (arith, odd_step (m * 2 + 1) b, rw quarter at (odd_step m (b / 2)))

-- `0xf & b`
pub bit_and_low4 : (b : ℕ) → bit_and 0xf b ≡ b % 16
bit_and_low4 b = omega (arith, odd_steps 3 b, odd_steps 0 (b / 4), zero-bit_and (b / 4 / 4))

-- `0x3ff & b`
pub bit_and_low10 : (b : ℕ) → bit_and 0x3ff b ≡ b % 1024
bit_and_low10 b = omega (
  arith,
  odd_steps 0xff b,
  odd_steps 0x3f (b / 4),
  odd_steps 0xf (b / 4 / 4),
  odd_steps 3 (b / 4 / 4 / 4),
  odd_steps 0 (b / 4 / 4 / 4 / 4),
  zero-bit_and (b / 4 / 4 / 4 / 4 / 4),
)

-- `0x4000 & b` and `0x8000 & b` select one digit.
top_digit : (b : ℕ) → bit_and 0x1000 b ≡ b / 0x1000 % 2 * 0x1000
top_digit b = omega (
  arith,
  even_steps 0x400 b,
  even_steps 0x100 (b / 4),
  even_steps 0x40 (b / 4 / 4),
  even_steps 0x10 (b / 4 / 4 / 4),
  even_steps 4 (b / 4 / 4 / 4 / 4),
  even_steps 1 (b / 4 / 4 / 4 / 4 / 4),
  odd_step 0 (b / 4 / 4 / 4 / 4 / 4 / 4),
  zero-bit_and (b / 4 / 4 / 4 / 4 / 4 / 4 / 2),
)

pub bit_and_bit14 : (b : ℕ) → bit_and 0x4000 b ≡ b / 0x4000 % 2 * 0x4000
bit_and_bit14 b = omega (arith, even_steps 0x1000 b, top_digit (b / 4))

pub bit_and_bit15 : (b : ℕ) → bit_and 0x8000 b ≡ b / 0x8000 % 2 * 0x8000
bit_and_bit15 b = omega (arith, even_step 0x4000 b, bit_and_bit14 (b / 2))
