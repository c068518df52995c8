-- ===== src/Transport/SeqOrder.antt =====
-- What the comparison of sequence numbers says.
use go_l2tp_debian.Prelude.{
  ℕ, zero, suc, ◌+◌, ◌-◌, ◌%◌, ◌<◌, ◌≡◌, ◌≢◌, ◌↔◌, arith, ltb, ◌==◌, if◌then◌else◌,
}
use go_l2tp_debian.Prelude.Int.{pos, negsuc}
use go_l2tp_debian.Prelude.Bytes.{IsU16}
use go_l2tp_debian.Transport.Seq.{seq_increment, seq_compare}

-- how far `a` is ahead of `b`, counting up modulo 65536
abbrev pub distance : ℕ → ℕ → ℕ
distance a b = (a + 65536 - b) % 65536

-- The comparison of two 16-bit sequence numbers goes by the distance from the second to the first: equal
-- at 0, after it up to 32767, before it from 32768 on.
pub seq_compare-distance :
    (a b : ℕ)
    → IsU16 a
    → IsU16 b
    → seq_compare a b
      ≡ (if distance a b == 0 then pos 0 else if ltb (distance a b) 32768 then pos 1 else negsuc 0)
unfolding seq_compare
seq_compare-distance a b ha hb = ground arith

-- Equality is equality of the numbers, and of two numbers that are not 32768 apart, one is after
-- the other exactly when the other is before it.
pub seq_compare_order :
    (a b : ℕ)
    → IsU16 a
    → IsU16 b
    → distance a b ≢ 32768
    → ((seq_compare a b ≡ pos 0) ↔ (a ≡ b))
      × ((seq_compare a b ≡ pos 1) ↔ (seq_compare b a ≡ negsuc 0))
unfolding seq_compare
seq_compare_order a b ha hb d =
    ((λ h. ground arith, λ h. ground arith), (λ h. ground arith, λ h. ground arith))

-- Of two numbers that are 32768 apart, each is before the other.
seq_compare_opposite :
    (a b : ℕ)
    → IsU16 a
    → IsU16 b
    → distance a b ≡ 32768
    → (seq_compare a b ≡ negsuc 0) × (seq_compare b a ≡ negsuc 0)
unfolding seq_compare
seq_compare_opposite a b ha hb d = (ground arith, ground arith)

-- `s` incremented `k` times
abbrev pub advance : ℕ → ℕ → ℕ
advance zero s = s
advance (suc k) s = seq_increment (advance k s)

pub advance-mod : (k s : ℕ) → IsU16 s → advance k s ≡ (s + k) % 65536
unfolding seq_increment
advance-mod zero s h = omega arith
advance-mod (suc k) s h = omega (arith, advance-mod k s h)

-- A 16-bit number that is incremented at least once, and at most 32767 times, is after what it was,
-- across the wrap too.
pub advance_is_after : (k s : ℕ) → IsU16 s → 0 < k → k < 32768 → seq_compare (advance k s) s ≡ pos 1
advance_is_after k s h lo hi =
    ground (arith, advance-mod k s h, seq_compare-distance (advance k s) s)
