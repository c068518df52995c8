-- ===== src/Kpppoed/State.antt =====
-- cmd/kpppoed/kpppoed.go: the state of the daemon, what it does to the outside, and what the outside
-- answers. A daemon of the runner is the number of the call of `spawn` that returned it.
use go_l2tp_debian.Prelude.{ℕ, Bool, true, false, Option, List, []}
use go_l2tp_debian.Prelude.Result.{Error}
use go_l2tp_debian.Prelude.Bytes.{Bytes}
use go_l2tp_debian.Prelude.Maps.{Map}
use go_l2tp_debian.Pppoe.Packet.{HwAddr, PppoePacket}

pub record KpppoedConfig : Type 0 where
  pub ac_name : Bytes
  pub if_name : Bytes
  pub services : List Bytes
  pub lns_ip_addr : Bytes

-- `l2tpd` is none for the nil interface
pub record PppoeSession : Type 0 where
  pub is_open : Bool
  pub l2tp_tid : ℕ
  pub l2tp_sid : ℕ
  pub sid : ℕ
  pub peer_hw_addr : HwAddr
  pub l2tpd : Option ℕ

-- what is done to the outside: a call of `spawn` with its arguments, a packet on the connection, the
-- goroutine that waits for a daemon, and the call of `terminate` on one
pub data Effect : Type 0 where
  spawn : ℕ → Bytes → HwAddr → Bytes → Effect
  send : PppoePacket → Effect
  wait : ℕ → Effect
  terminate : ℕ → Effect

-- The goroutine that the first signal starts: not started, or at the end of its work; about to close
-- the connection; or about to close the sessions of these numbers.
pub data Teardown : Type 0 where
  idle : Teardown
  closing_conn : Teardown
  closing : List ℕ → Teardown

-- The effects stand newest first. `draws` counts the calls of `rand.Intn`, `spawns` those of `spawn`.
pub record Application : Type 0 where
  pub sessions : Map ℕ PppoeSession
  pub trace : List Effect
  pub draws : ℕ
  pub spawns : ℕ
  pub conn_open : Bool
  pub shutdown : Bool
  pub teardown : Teardown

-- The configuration, the address of the interface, what `rand.Intn` draws at its n-th call, whether
-- the n-th call of `spawn` returns a daemon, whether the connection takes a packet after so many
-- effects, and the text of an error.
pub record Outside : Type 0 where
  pub config : KpppoedConfig
  pub hw_addr : HwAddr
  pub random : ℕ → ℕ
  pub spawn_succeeds : ℕ → Bool
  pub send_succeeds : ℕ → Bool
  pub message : Error → Bytes

unfoldable pub new_application : Application
new_application = record {
  sessions = [];
  trace = [];
  draws = 0;
  spawns = 0;
  conn_open = true;
  shutdown = false;
  teardown = idle;
}
