-- ===== src/Kpppoed/Daemons/Spawned.antt =====
-- cmd/kpppoed/kpppoed.go: the daemon that a PADR spawns.
use go_l2tp_debian.Prelude.{
  ℕ, ◌+◌, ◌<◌, ◌≡◌, ◌≢◌, arith, refl, Bool, true, false, Option, none, some,
}
use go_l2tp_debian.Prelude.Result.{Error, spawn_failed}
use go_l2tp_debian.Prelude.Bytes.{Bytes}
use go_l2tp_debian.Prelude.Eq.{nat_eq}
use go_l2tp_debian.Prelude.Maps.{lookup, insert}
use go_l2tp_debian.Pppoe.Packet.{PppoePacket}
use go_l2tp_debian.Kpppoed.State.{PppoeSession, send, Application, Outside}
use go_l2tp_debian.Kpppoed.Handlers.{
  Handled, Answer, did, choose_session_id, spawn_for, spawn_l2tpd, spawn_result, new_session,
  wait_for, keep_session, answer_padr, handle_named_padr, pads_for,
}
use go_l2tp_debian.Kpppoed.Daemons.{terminations}
use go_l2tp_debian.Kpppoed.Daemons.Sound.{send-Sound, wait-Sound, spawn-Sound, insert-Sound}
use go_l2tp_debian.Kpppoed.Daemons.Kept.{IsSound, Keeps, Sent, taken, refused, send_packet-Sent}

-- a daemon that was just spawned, or the failure to do so
record Spawned (w : Outside) (daemon : Option ℕ) (app : Application) : Type 0 where
  sound : IsSound app
  failed : daemon ≡ none → (n : ℕ) × (w.spawn_succeeds n ≡ false)
  below : (x : ℕ) → daemon ≡ some x → x < app.spawns
  running : (x : ℕ) → daemon ≡ some x → terminations x app.trace ≡ 0
  unused :
      (x : ℕ)
      → daemon ≡ some x
      → (i : ℕ) (s : PppoeSession) → lookup i app.sessions ≡ some s
      → s.l2tpd ≢ some x

module _ (w : Outside) where
  -- the daemon of the new session
  wait_for-Keeps :
      (pkt : PppoePacket) (sid : ℕ) (daemon : Option ℕ) (app : Application)
      → Spawned w daemon app
      → Keeps w (
          wait_for daemon
            (record app { sessions = insert sid (new_session w pkt sid daemon) app.sessions }))
  unfolding wait_for
  wait_for-Keeps pkt sid none app p = (p.sound.once, p.failed refl)
  wait_for-Keeps pkt sid (some x) app p =
      wait-Sound
        (insert-Sound p.sound sid (new_session w pkt sid (some x)) x refl refl (p.below x refl)
          (p.running x refl) (p.unused x refl))
        x

  keep_session-Keeps :
      (out pkt : PppoePacket) (sid : ℕ) (daemon : Option ℕ) (app : Application) (h : Handled)
      → Spawned w daemon app
      → Sent out app h
      → Keeps w (keep_session w pkt sid daemon h)
  unfolding keep_session
  keep_session-Keeps out pkt sid daemon app h p taken =
      wait_for-Keeps pkt sid daemon (did (send out) app) record {
        sound = send-Sound p.sound out;
        failed = p.failed;
        below = p.below;
        running = p.running;
        unused = p.unused;
      }
  keep_session-Keeps out pkt sid daemon app h p (refused e) = p.sound

  choose_session_id-Sound :
      (app : Application) (e : Option Error) → IsSound app → IsSound (choose_session_id w app e).1
  unfolding choose_session_id
  choose_session_id-Sound app none v = v
  choose_session_id-Sound app (some e) v = v

  spawn_result-Keeps :
      (b : Bool) (pkt : PppoePacket) (name : Bytes) (a : Answer) (daemon : ℕ) (app : Application)
      → w.spawn_succeeds daemon ≡ b
      → Spawned w (some daemon) app
      → Keeps w (answer_padr w pkt name (spawn_result b a daemon app))
  unfolding answer_padr spawn_result
  spawn_result-Keeps true pkt name a daemon app h p =
      keep_session-Keeps (pads_for w pkt name a) pkt a.session_id (some daemon) app _ p
        (send_packet-Sent w (pads_for w pkt name a) app)
  spawn_result-Keeps false pkt name a daemon app h p =
      let failed : Answer = record a { error_reason = some spawn_failed } in
      keep_session-Keeps (pads_for w pkt name failed) pkt a.session_id none app _
        (record {
          sound = p.sound;
          failed = λ e. (daemon, h);
          below = λ x e. cc;
          running = λ x e. cc;
          unused = λ x e. cc;
        })
        (send_packet-Sent w (pads_for w pkt name failed) app)

  answer_padr-Keeps :
      (pkt : PppoePacket) (name : Bytes) (chosen : Answer × Application)
      → IsSound chosen.1
      → Keeps w (answer_padr w pkt name (spawn_l2tpd w pkt chosen))
  unfolding spawn_l2tpd
  answer_padr-Keeps pkt name (a, app) v =
      spawn_result-Keeps (w.spawn_succeeds app.spawns) pkt name a app.spawns
        (did (spawn_for w pkt a.session_id) (record app { spawns = app.spawns + 1 })) refl
        (record {
          sound = spawn-Sound v a.session_id w.config.if_name pkt.src_hw_addr w.config.lns_ip_addr;
          failed = λ e. cc;
          below = λ x e. ground arith;
          running = λ x e. v.later x (ground arith);
          unused = λ x e i s h k. ground (arith, v.spawned i s x h k);
        })

  pub handle_named_padr-Keeps :
      (pkt : PppoePacket) (app : Application) (name : Bytes × Option Error)
      → IsSound app
      → Keeps w (handle_named_padr w pkt app name)
  unfolding handle_named_padr
  handle_named_padr-Keeps pkt app (name, e) v =
      answer_padr-Keeps pkt name (choose_session_id w app e) (choose_session_id-Sound app e v)
