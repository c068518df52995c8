-- ===== src/Kpppoed/Daemons/Closing.antt =====
-- cmd/kpppoed/kpppoed.go: the daemon of a session that is closed.
use go_l2tp_debian.Prelude.{
  ℕ, ◌<◌, ◌≡◌, ◌≢◌, arith, refl, Bool, true, false, Option, none, some, if◌then◌else◌,
}
use go_l2tp_debian.Prelude.Result.{ok}
use go_l2tp_debian.Prelude.Bytes.{Bytes}
use go_l2tp_debian.Prelude.Eq.{nat_eq, same_iff}
use go_l2tp_debian.Prelude.Maps.{lookup, insert, lookup-insert}
use go_l2tp_debian.Pppoe.Packet.{PppoePacket}
use go_l2tp_debian.Pppoe.Build.{new_padt}
use go_l2tp_debian.Kpppoed.State.{PppoeSession, Application, Outside}
use go_l2tp_debian.Kpppoed.Handlers.{
  Handled, mark_closed, tell_peer, send_padt, terminate_l2tpd, close_found, close_pppoe_session,
  padt_found, with_reason, reason_padt,
}
use go_l2tp_debian.Kpppoed.Daemons.{terminations}
use go_l2tp_debian.Kpppoed.Daemons.Sound.{send-Sound, terminate-Sound, update-Sound}
use go_l2tp_debian.Kpppoed.Daemons.Kept.{IsSound, Keeps, Sent, taken, refused, send_packet-Sent}

-- a session that is marked as closed, and its daemon
record Closing (daemon : Option ℕ) (app : Application) : Type 0 where
  sound : IsSound app
  present : daemon ≢ none
  below : (x : ℕ) → daemon ≡ some x → x < app.spawns
  running : (x : ℕ) → daemon ≡ some x → terminations x app.trace ≡ 0
  idle :
      (x : ℕ)
      → daemon ≡ some x
      → (i : ℕ) (s : PppoeSession) → lookup i app.sessions ≡ some s
      → s.l2tpd ≡ some x
      → s.is_open ≡ false

module _ (w : Outside) where
  Sent-Closing :
      (pkt : PppoePacket) (daemon : Option ℕ) (app : Application) (h : Handled)
      → Closing daemon app
      → Sent pkt app h
      → Closing daemon h.1
  Sent-Closing pkt daemon app h c taken = record {
    sound = send-Sound c.sound pkt;
    present = c.present;
    below = c.below;
    running = c.running;
    idle = c.idle;
  }
  Sent-Closing pkt daemon app h c (refused e) = c

  tell_peer-Closing :
      (padt : Bool) (sess : PppoeSession) (reason : Bytes) (daemon : Option ℕ) (app : Application)
      → Closing daemon app
      → Closing daemon (tell_peer w padt sess reason app)
  unfolding tell_peer send_padt
  tell_peer-Closing true sess reason daemon app c =
      let padt = with_reason reason (new_padt w.hw_addr sess.peer_hw_addr sess.sid) in
      Sent-Closing padt daemon app _ c (send_packet-Sent w padt app)
  tell_peer-Closing false sess reason daemon app c = c

  terminate-Keeps :
      (daemon : Option ℕ) (app : Application)
      → Closing daemon app
      → Keeps w (terminate_l2tpd daemon app)
  unfolding terminate_l2tpd
  terminate-Keeps none app c = absurd (c.present refl)
  terminate-Keeps (some x) app c =
      terminate-Sound c.sound x (c.below x refl) (c.running x refl) (c.idle x refl)

  close_open-Keeps :
      (sid : ℕ) (reason : Bytes) (padt : Bool) (app : Application) (sess : PppoeSession) (b : Bool)
      → IsSound app
      → lookup sid app.sessions ≡ some sess
      → sess.is_open ≡ b
      → Keeps w (
          if b
          then terminate_l2tpd sess.l2tpd (
              tell_peer w padt sess reason
                (record app { sessions = insert sid (mark_closed sess) app.sessions }))
          else (ok tt, app))
  close_open-Keeps sid reason padt app sess false v at b = v
  close_open-Keeps sid reason padt app sess true v at b = terminate-Keeps sess.l2tpd _ (
      tell_peer-Closing padt sess reason sess.l2tpd
        (record app { sessions = insert sid (mark_closed sess) app.sessions })
        (record {
          sound = update-Sound v sid sess (mark_closed sess) at refl refl (λ h. cc);
          present = v.present sid sess at;
          below = λ x e. v.spawned sid sess x at e;
          running = λ x e. v.running sid sess x at e b;
          idle = λ x e i s h k. ground (
            arith,
            lookup-insert i sid (mark_closed sess) app.sessions,
            same_iff sid i,
            v.own i sid s sess x,
          );
        }))

  close_found-Keeps :
      (sid : ℕ) (reason : Bytes) (padt : Bool) (app : Application) (found : Option PppoeSession)
      → IsSound app
      → lookup sid app.sessions ≡ found
      → Keeps w (close_found w sid reason padt app found)
  unfolding close_found
  close_found-Keeps sid reason padt app none v at = v
  close_found-Keeps sid reason padt app (some sess) v at =
      close_open-Keeps sid reason padt app sess sess.is_open v at refl

  pub close_pppoe_session-Keeps :
      (sid : ℕ) (reason : Bytes) (padt : Bool) (app : Application)
      → IsSound app
      → Keeps w (close_pppoe_session w sid reason padt app)
  unfolding close_pppoe_session
  close_pppoe_session-Keeps sid reason padt app v =
      close_found-Keeps sid reason padt app (lookup sid app.sessions) v refl

  pub padt_found-Keeps :
      (sid : ℕ) (app : Application) (found : Option PppoeSession)
      → IsSound app
      → Keeps w (padt_found w sid app found)
  unfolding padt_found
  padt_found-Keeps sid app none v = v
  padt_found-Keeps sid app (some sess) v = close_pppoe_session-Keeps sid reason_padt false app v
