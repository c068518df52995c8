-- ===== src/Transport/Seq.antt =====
-- l2tp/transport.go: sequence numbers, uint16 values that wrap.
use go_l2tp_debian.Prelude.{ℕ, ◌+◌, ◌-◌, ◌%◌, Bool, false, ltb, leb, ◌==◌, if◌then◌else◌}
use go_l2tp_debian.Prelude.Int.{ℤ, pos, negsuc}
use go_l2tp_debian.Prelude.Bytes.{u16}

unfoldable pub seq_increment : ℕ → ℕ
seq_increment seq_num = u16 ((seq_num + 1) % 65536)

-- The subtraction `seq1 - seq2` is made only where it does not pass zero; the sum wraps.
unfoldable pub seq_compare : ℕ → ℕ → ℤ
seq_compare seq1 seq2 =
    let delta = if leb seq2 seq1 then seq1 - seq2 else u16 (u16 (65535 - seq2 + 1) + seq1) in
    if delta == 0 then pos 0 else if ltb delta 32768 then pos 1 else negsuc 0

-- `> 0`, `== 0` and `== -1` on the result
abbrev pub is_after : ℤ → Bool
is_after (pos n) = ltb 0 n
is_after (negsuc n) = false

abbrev pub is_same : ℤ → Bool
is_same (pos n) = n == 0
is_same (negsuc n) = false

abbrev pub is_before : ℤ → Bool
is_before (pos n) = false
is_before (negsuc n) = n == 0
