-- ===== src/Kpppoed/Silent/Events.antt =====
-- cmd/kpppoed/kpppoed.go: what the handling of the events keeps, but for a signal and the shutdown.
use go_l2tp_debian.Prelude.{ℕ, Bool, true, Option, none, some, List, [], ◌∷◌}
use go_l2tp_debian.Prelude.Result.{Result, ok, err, panic, stuck}
use go_l2tp_debian.Prelude.Eq.{nat_eq}
use go_l2tp_debian.Prelude.Maps.{lookup}
use go_l2tp_debian.Pppoe.Packet.{PppoePacket}
use go_l2tp_debian.Pppoe.Parse.{parse_packet_buffer}
use go_l2tp_debian.Kpppoed.State.{PppoeSession, Teardown, Application, Outside}
use go_l2tp_debian.Kpppoed.Handlers.{Handled, reason_exited, reason_down}
use go_l2tp_debian.Kpppoed.Run.{
  AppEvent, signal, l2tp_complete, received, l2tp_session_up, l2tp_session_down, closed, Step,
  then_do, teardown_step, on_l2tp_complete, handle_each, on_parsed, on_l2tp_up, up_found,
  on_l2tp_down, down_found, handle_app_event, in_buffer,
}
use go_l2tp_debian.Kpppoed.Silent.{IsKept, close-IsKept, handle_packet-IsKept}

-- an event that neither a signal nor the shutdown is
abbrev pub IsOther : AppEvent → Type 0
IsOther signal = ⊥
IsOther teardown_step = ⊥
IsOther _ = Unit {0}

module _ (w : Outside) (l : List PppoePacket) (silent : Bool) (t : Teardown) where
  then_do-IsKept :
      (h : Handled) (next : Step)
      → IsKept w l silent t h.1
      → ((app : Application) → IsKept w l silent t app → IsKept w l silent t (next app).1)
      → IsKept w l silent t (then_do h next).1
  unfolding then_do
  then_do-IsKept (ok u, app) next q f = f app q
  then_do-IsKept (err e, app) next q f = f app q
  then_do-IsKept (panic p, app) next q f = q
  then_do-IsKept (stuck, app) next q f = q

  handle_each-IsKept :
      (pkts : List PppoePacket) (app : Application)
      → IsKept w l silent t app
      → IsKept w l silent t (handle_each w pkts app).1
  unfolding handle_each
  handle_each-IsKept [] app q = q
  handle_each-IsKept (pkt ∷ pkts) app q =
      then_do-IsKept _ (handle_each w pkts) (handle_packet-IsKept w l silent t pkt app q)
        (handle_each-IsKept pkts)

  on_parsed-IsKept :
      (r : Result (List PppoePacket)) (app : Application)
      → IsKept w l silent t app
      → IsKept w l silent t (on_parsed w r app).1
  unfolding on_parsed
  on_parsed-IsKept (ok pkts) app q = handle_each-IsKept pkts app q
  on_parsed-IsKept (err e) app q = q
  on_parsed-IsKept (panic p) app q = q
  on_parsed-IsKept stuck app q = q

  up_found-IsKept :
      (sid tid lsid : ℕ) (app : Application) (found : Option PppoeSession)
      → IsKept w l silent t app
      → IsKept w l silent t (up_found w sid tid lsid app found).1
  unfolding up_found
  up_found-IsKept sid tid lsid app none q = q
  up_found-IsKept sid tid lsid app (some sess) q = q

  down_found-IsKept :
      (app : Application) (found : Option PppoeSession)
      → IsKept w l silent t app
      → IsKept w l silent t (down_found w app found).1
  unfolding down_found
  down_found-IsKept app none q = q
  down_found-IsKept app (some sess) q = close-IsKept w l silent t sess.sid reason_down true app q

  pub other-IsKept :
      (ev : AppEvent) (app : Application)
      → IsOther ev
      → IsKept w l silent t app
      → IsKept w l silent t (handle_app_event w ev app).1
  unfolding handle_app_event on_l2tp_complete on_l2tp_up on_l2tp_down
  other-IsKept signal app o q = absurd o
  other-IsKept teardown_step app o q = absurd o
  other-IsKept (l2tp_complete sid) app o q =
      then_do-IsKept _ _ (close-IsKept w l silent t sid reason_exited true app q) (λ app' q'. q')
  other-IsKept (received frame) app o q =
      on_parsed-IsKept (parse_packet_buffer (in_buffer frame)) app q
  other-IsKept (l2tp_session_up sid tid lsid) app o q =
      up_found-IsKept sid tid lsid app (lookup sid app.sessions) q
  other-IsKept (l2tp_session_down sid) app o q = down_found-IsKept app (lookup sid app.sessions) q
  other-IsKept closed app o q = q
