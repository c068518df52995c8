-- ===== src/Kpppoed/Daemons.antt =====
-- cmd/kpppoed/kpppoed.go: the daemons of the sessions, and the calls of `terminate` on each.
pub mod Sound
pub mod Kept
pub mod Spawned
pub mod Closing
pub mod Packets
pub mod Runs
use go_l2tp_debian.Prelude.{ℕ, suc, ◌≤◌, List, [], ◌∷◌, ◌==◌, if◌then◌else◌}
use go_l2tp_debian.Kpppoed.State.{Effect, spawn, send, wait, terminate}

-- the calls of `terminate` on the daemon
abbrev pub terminations : ℕ → List Effect → ℕ
terminations d [] = 0
terminations d (terminate x ∷ t) = if x == d then suc (terminations d t) else terminations d t
terminations d (send pkt ∷ t) = terminations d t
terminations d (wait x ∷ t) = terminations d t
terminations d (spawn sid name peer lns ∷ t) = terminations d t
