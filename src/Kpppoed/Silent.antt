-- ===== src/Kpppoed/Silent.antt =====
-- cmd/kpppoed/kpppoed.go: what the handlers keep: the point of the shutdown, and the packets that are sent if
-- the connection is closed.
pub mod Events
pub mod Runs
use go_l2tp_debian.Prelude.{
  ℕ, ◌≡◌, Bool, true, false, Option, none, some, List, [], ◌∷◌, ◌==◌, ◌&&◌, length, if◌then◌else◌,
}
use go_l2tp_debian.Prelude.Result.{Result, Error, ok, err, panic, stuck, write_failed, spawn_failed}
use go_l2tp_debian.Prelude.Bytes.{Bytes}
use go_l2tp_debian.Prelude.Eq.{nat_eq}
use go_l2tp_debian.Prelude.Maps.{lookup}
use go_l2tp_debian.Pppoe.Packet.{
  PppoePacket, validate, pppoe_code_padi, pppoe_code_pado, pppoe_code_padr, pppoe_code_pads,
  pppoe_code_padt,
}
use go_l2tp_debian.Pppoe.Build.{new_pado, new_padt}
use go_l2tp_debian.Kpppoed.State.{
  PppoeSession, Teardown, Effect, spawn, send, wait, terminate, Application, Outside,
}
use go_l2tp_debian.Kpppoed.Handlers.{
  Handled, Answer, did, send_validated, send_packet, offer, handle_padi, choose_session_id,
  spawn_result, spawn_l2tpd, wait_for, keep_session, answer_padr, handle_named_padr, handle_padr,
  tell_peer, send_padt, terminate_l2tpd, close_found, close_pppoe_session, padt_found, handle_padt,
  handle_packet, get_packet_service_name, pads_for, append_echoed_tags, with_reason, reason_padt,
}
use go_l2tp_debian.Kpppoed.Run.{closed}

-- the packets that were sent, newest first
abbrev pub packets_sent : List Effect → List PppoePacket
packets_sent [] = []
packets_sent (send pkt ∷ t) = pkt ∷ packets_sent t
packets_sent (wait d ∷ t) = packets_sent t
packets_sent (terminate d ∷ t) = packets_sent t
packets_sent (spawn sid name peer lns ∷ t) = packets_sent t

module _ (w : Outside) (l : List PppoePacket) (silent : Bool) (t : Teardown) where
  -- The shutdown is at this point; and if kpppoed is to be silent, the connection is closed, and these
  -- packets were sent.
  abbrev pub IsKept : Application → Type 0
  IsKept app =
      (silent ≡ true → (app.conn_open ≡ false) × (packets_sent app.trace ≡ l)) × (app.teardown ≡ t)

  refused_if :
      (pkt : PppoePacket) (app : Application) (c b : Bool)
      → (silent ≡ true → c ≡ false)
      → IsKept app
      → IsKept
          (if◌then◌else◌ {A = Handled}
            (c && b)
            (ok tt, did (send pkt) app)
            (err write_failed, app)).1
  refused_if pkt app true true e q = (λ on. absurd (let off = e on in cc), q.1)
  refused_if pkt app true false e q = q
  refused_if pkt app false b e q = q

  send_validated-IsKept :
      (pkt : PppoePacket) (app : Application) (r : Result (Unit {0}))
      → IsKept app
      → IsKept (send_validated w pkt app r).1
  unfolding send_validated
  send_validated-IsKept pkt app (ok u) q =
      refused_if pkt app app.conn_open (w.send_succeeds (length app.trace)) (λ on. (q.0 on).0) q
  send_validated-IsKept pkt app (err e) q = q
  send_validated-IsKept pkt app (panic p) q = q
  send_validated-IsKept pkt app stuck q = q

  send_packet-IsKept :
      (pkt : PppoePacket) (app : Application) → IsKept app → IsKept (send_packet w pkt app).1
  unfolding send_packet
  send_packet-IsKept pkt app q = send_validated-IsKept pkt app (validate pkt) q

  offer-IsKept :
      (pkt : PppoePacket) (app : Application) (name : Bytes × Option Error)
      → IsKept app
      → IsKept (offer w pkt app name).1
  unfolding offer
  offer-IsKept pkt app (name, some e) q = q
  offer-IsKept pkt app (name, none) q =
      send_packet-IsKept
        (append_echoed_tags pkt (new_pado w.hw_addr pkt.src_hw_addr name w.config.ac_name)) app q

  wait_for-IsKept :
      (daemon : Option ℕ) (app : Application) → IsKept app → IsKept (wait_for daemon app).1
  unfolding wait_for
  wait_for-IsKept none app q = q
  wait_for-IsKept (some d) app q = q

  keep_session-IsKept :
      (pkt : PppoePacket) (sid : ℕ) (daemon : Option ℕ) (h : Handled)
      → IsKept h.1
      → IsKept (keep_session w pkt sid daemon h).1
  unfolding keep_session
  keep_session-IsKept pkt sid daemon (ok u, app) q = wait_for-IsKept daemon _ q
  keep_session-IsKept pkt sid daemon (err e, app) q = q
  keep_session-IsKept pkt sid daemon (panic p, app) q = q
  keep_session-IsKept pkt sid daemon (stuck, app) q = q

  spawn_result-IsKept :
      (b : Bool) (pkt : PppoePacket) (name : Bytes) (a : Answer) (d : ℕ) (app : Application)
      → IsKept app
      → IsKept (answer_padr w pkt name (spawn_result b a d app)).1
  unfolding spawn_result answer_padr
  spawn_result-IsKept true pkt name a d app q =
      keep_session-IsKept pkt a.session_id (some d) (send_packet w (pads_for w pkt name a) app)
        (send_packet-IsKept (pads_for w pkt name a) app q)
  spawn_result-IsKept false pkt name a d app q =
      let failed : Answer = record a { error_reason = some spawn_failed } in
      keep_session-IsKept pkt a.session_id none (send_packet w (pads_for w pkt name failed) app)
        (send_packet-IsKept (pads_for w pkt name failed) app q)

  named-IsKept :
      (pkt : PppoePacket) (app : Application) (name : Bytes × Option Error)
      → IsKept app
      → IsKept (handle_named_padr w pkt app name).1
  unfolding handle_named_padr choose_session_id spawn_l2tpd
  named-IsKept pkt app (name, none) q =
      spawn_result-IsKept (w.spawn_succeeds app.spawns) pkt name _ app.spawns _ q
  named-IsKept pkt app (name, some e) q =
      spawn_result-IsKept (w.spawn_succeeds app.spawns) pkt name _ app.spawns _ q

  tell_peer-IsKept :
      (padt : Bool) (sess : PppoeSession) (reason : Bytes) (app : Application)
      → IsKept app
      → IsKept (tell_peer w padt sess reason app)
  unfolding tell_peer send_padt
  tell_peer-IsKept true sess reason app q =
      send_packet-IsKept (with_reason reason (new_padt w.hw_addr sess.peer_hw_addr sess.sid)) app q
  tell_peer-IsKept false sess reason app q = q

  terminate-IsKept :
      (daemon : Option ℕ) (app : Application) → IsKept app → IsKept (terminate_l2tpd daemon app).1
  unfolding terminate_l2tpd
  terminate-IsKept none app q = q
  terminate-IsKept (some d) app q = q

  pub if-IsKept :
      (b : Bool) (h k : Handled)
      → IsKept h.1
      → IsKept k.1
      → IsKept (if◌then◌else◌ {A = Handled} b h k).1
  if-IsKept true h k p q = p
  if-IsKept false h k p q = q

  close_found-IsKept :
      (sid : ℕ) (reason : Bytes) (padt : Bool) (app : Application) (found : Option PppoeSession)
      → IsKept app
      → IsKept (close_found w sid reason padt app found).1
  unfolding close_found
  close_found-IsKept sid reason padt app none q = q
  close_found-IsKept sid reason padt app (some sess) q =
      if-IsKept sess.is_open _ _
        (terminate-IsKept sess.l2tpd _ (tell_peer-IsKept padt sess reason _ q)) q

  pub close-IsKept :
      (sid : ℕ) (reason : Bytes) (padt : Bool) (app : Application)
      → IsKept app
      → IsKept (close_pppoe_session w sid reason padt app).1
  unfolding close_pppoe_session
  close-IsKept sid reason padt app q =
      close_found-IsKept sid reason padt app (lookup sid app.sessions) q

  padt_found-IsKept :
      (sid : ℕ) (app : Application) (found : Option PppoeSession)
      → IsKept app
      → IsKept (padt_found w sid app found).1
  unfolding padt_found
  padt_found-IsKept sid app none q = q
  padt_found-IsKept sid app (some sess) q = close-IsKept sid reason_padt false app q

  pub handle_packet-IsKept :
      (pkt : PppoePacket) (app : Application) → IsKept app → IsKept (handle_packet w pkt app).1
  unfolding handle_packet handle_padi handle_padr handle_padt
  handle_packet-IsKept pkt app q =
      let name = get_packet_service_name w.config pkt in
      if-IsKept (pkt.code == pppoe_code_padi) _ _ (offer-IsKept pkt app name q) (
        if-IsKept (pkt.code == pppoe_code_padr) _ _ (named-IsKept pkt app name q) (
          if-IsKept (pkt.code == pppoe_code_padt) _ _
            (padt_found-IsKept pkt.session_id app (lookup pkt.session_id app.sessions) q)
            (if-IsKept (pkt.code == pppoe_code_pado) _ _ q
              (if-IsKept (pkt.code == pppoe_code_pads) _ _ q q))))
