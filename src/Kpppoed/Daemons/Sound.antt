-- ===== src/Kpppoed/Daemons/Sound.antt =====
-- cmd/kpppoed/kpppoed.go: an invariant of the sessions and their daemons, and the changes that keep it.
use go_l2tp_debian.Prelude.{
  ℕ, ◌+◌, ◌<◌, ◌≤◌, ◌≡◌, ◌≢◌, arith, refl, true, false, none, some, List, [], ◌∷◌, ==_iff,
}
use go_l2tp_debian.Prelude.Bytes.{Bytes}
use go_l2tp_debian.Prelude.Eq.{nat_eq, same_iff}
use go_l2tp_debian.Prelude.Maps.{Map, lookup, delete, insert, lookup-delete, lookup-insert}
use go_l2tp_debian.Pppoe.Packet.{HwAddr, PppoePacket}
use go_l2tp_debian.Kpppoed.State.{PppoeSession, Effect, spawn, send, wait, terminate}
use go_l2tp_debian.Kpppoed.Daemons.{terminations}

-- Each session is under its own ID and has a daemon of its own, which runs while the session is open;
-- no daemon was ended twice.
pub record Sound (m : Map ℕ PppoeSession) (t : List Effect) (spawns : ℕ) : Type 0 where
  pub keyed : (i : ℕ) (s : PppoeSession) → lookup i m ≡ some s → s.sid ≡ i
  pub present : (i : ℕ) (s : PppoeSession) → lookup i m ≡ some s → s.l2tpd ≢ none
  pub spawned :
      (i : ℕ) (s : PppoeSession) (d : ℕ) → lookup i m ≡ some s → s.l2tpd ≡ some d → d < spawns
  pub own :
      (i j : ℕ) (s r : PppoeSession) (d : ℕ)
      → lookup i m ≡ some s
      → lookup j m ≡ some r
      → s.l2tpd ≡ some d
      → r.l2tpd ≡ some d
      → i ≡ j
  pub running :
      (i : ℕ) (s : PppoeSession) (d : ℕ)
      → lookup i m ≡ some s
      → s.l2tpd ≡ some d
      → s.is_open ≡ true
      → terminations d t ≡ 0
  pub later : (d : ℕ) → spawns ≤ d → terminations d t ≡ 0
  pub once : (d : ℕ) → terminations d t ≤ 1

pub empty-Sound : Sound [] [] 0
unfolding lookup
empty-Sound = record {
  keyed = λ i s h. cc;
  present = λ i s h. cc;
  spawned = λ i s d h. cc;
  own = λ i j s r d h. cc;
  running = λ i s d h. cc;
  later = λ d h. refl;
  once = λ d. omega arith;
}

module _ {m : Map ℕ PppoeSession} {t : List Effect} {n : ℕ} (v : Sound m t n) where
  pub send-Sound : (pkt : PppoePacket) → Sound m (send pkt ∷ t) n
  send-Sound pkt = record {
    keyed = v.keyed;
    present = v.present;
    spawned = v.spawned;
    own = v.own;
    running = v.running;
    later = v.later;
    once = v.once;
  }

  pub wait-Sound : (d : ℕ) → Sound m (wait d ∷ t) n
  wait-Sound d = record {
    keyed = v.keyed;
    present = v.present;
    spawned = v.spawned;
    own = v.own;
    running = v.running;
    later = v.later;
    once = v.once;
  }

  pub spawn-Sound :
      (sid : ℕ) (name : Bytes) (peer : HwAddr) (lns : Bytes)
      → Sound m (spawn sid name peer lns ∷ t) (n + 1)
  spawn-Sound sid name peer lns = record {
    keyed = v.keyed;
    present = v.present;
    spawned = λ i s d h e. ground (arith, v.spawned i s d h e);
    own = v.own;
    running = v.running;
    later = λ d h. v.later d (omega arith);
    once = v.once;
  }

  -- the daemon of no open session is ended
  pub terminate-Sound :
      (x : ℕ)
      → x < n
      → terminations x t ≡ 0
      → ((i : ℕ) (s : PppoeSession) → lookup i m ≡ some s → s.l2tpd ≡ some x → s.is_open ≡ false)
      → Sound m (terminate x ∷ t) n
  terminate-Sound x below fresh idle = record {
    keyed = v.keyed;
    present = v.present;
    spawned = v.spawned;
    own = v.own;
    running = λ i s d h e o. ground (arith, ==_iff x d, v.running i s d h e o, idle i s);
    later = λ d h. ground (arith, ==_iff x d, v.later d h);
    once = λ d. ground (arith, ==_iff x d, v.once d);
  }

  pub delete-Sound : (sid : ℕ) → Sound (delete sid m) t n
  delete-Sound sid = record {
    keyed = λ i s h. ground (arith, lookup-delete i sid m, v.keyed i s);
    present = λ i s h. ground (arith, lookup-delete i sid m, v.present i s);
    spawned = λ i s d h e. ground (arith, lookup-delete i sid m, v.spawned i s d);
    own = λ i j s r d h k e f.
        ground (arith, lookup-delete i sid m, lookup-delete j sid m, v.own i j s r d);
    running = λ i s d h e o. ground (arith, lookup-delete i sid m, v.running i s d);
    later = v.later;
    once = v.once;
  }

  -- a session is changed, but for its ID and daemon, and is not opened
  pub update-Sound :
      (sid : ℕ) (old new : PppoeSession)
      → lookup sid m ≡ some old
      → new.sid ≡ old.sid
      → new.l2tpd ≡ old.l2tpd
      → (new.is_open ≡ true → old.is_open ≡ true)
      → Sound (insert sid new m) t n
  update-Sound sid old new at same_sid same_daemon opened = record {
    keyed = λ i s h.
        ground (arith, lookup-insert i sid new m, same_iff sid i, v.keyed i s, v.keyed sid old);
    present = λ i s h.
        ground (arith, lookup-insert i sid new m, same_iff sid i, v.present i s, v.present sid old);
    spawned = λ i s d h e.
        ground
          (arith, lookup-insert i sid new m, same_iff sid i, v.spawned i s d, v.spawned sid old d);
    own = λ i j s r d h k e f. ground (
      arith,
      lookup-insert i sid new m,
      lookup-insert j sid new m,
      same_iff sid i,
      same_iff sid j,
      v.own i j s r d,
      v.own sid j old r d,
      v.own i sid s old d,
    );
    running = λ i s d h e o.
        ground
          (arith, lookup-insert i sid new m, same_iff sid i, v.running i s d, v.running sid old d);
    later = v.later;
    once = v.once;
  }

  -- a session with a daemon that no other has, and that was not ended
  pub insert-Sound :
      (sid : ℕ) (new : PppoeSession) (x : ℕ)
      → new.sid ≡ sid
      → new.l2tpd ≡ some x
      → x < n
      → terminations x t ≡ 0
      → ((i : ℕ) (s : PppoeSession) → lookup i m ≡ some s → s.l2tpd ≢ some x)
      → Sound (insert sid new m) t n
  insert-Sound sid new x own_sid daemon below fresh unused = record {
    keyed = λ i s h. ground (arith, lookup-insert i sid new m, same_iff sid i, v.keyed i s);
    present = λ i s h. ground (arith, lookup-insert i sid new m, v.present i s);
    spawned = λ i s d h e. ground (arith, lookup-insert i sid new m, v.spawned i s d);
    own = λ i j s r d h k e f. ground (
      arith,
      lookup-insert i sid new m,
      lookup-insert j sid new m,
      same_iff sid i,
      same_iff sid j,
      v.own i j s r d,
      unused i s,
      unused j r,
    );
    running = λ i s d h e o. ground (arith, lookup-insert i sid new m, v.running i s d);
    later = v.later;
    once = v.once;
  }
