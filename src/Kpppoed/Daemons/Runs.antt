-- ===== src/Kpppoed/Daemons/Runs.antt =====
-- cmd/kpppoed/kpppoed.go: the invariant of the daemons through the event loop.
use go_l2tp_debian.Prelude.{
  ℕ, ◌≡◌, refl, Bool, true, false, Option, none, some, List, [], ◌∷◌, if◌then◌else◌,
}
use go_l2tp_debian.Prelude.Result.{Result, ok, err, panic, stuck}
use go_l2tp_debian.Prelude.Eq.{nat_eq}
use go_l2tp_debian.Prelude.Maps.{lookup}
use go_l2tp_debian.Pppoe.Packet.{PppoePacket}
use go_l2tp_debian.Pppoe.Parse.Ends.{
  Returns, returns_value, returns_error, parse_packet_buffer-Returns,
}
use go_l2tp_debian.Kpppoed.State.{
  PppoeSession, Teardown, idle, closing_conn, closing, Application, Outside, new_application,
}
use go_l2tp_debian.Kpppoed.Handlers.{Handled, reason_shutdown, reason_exited, reason_down}
use go_l2tp_debian.Kpppoed.Run.{
  AppEvent, signal, l2tp_complete, received, l2tp_session_up, l2tp_session_down, closed, Step,
  then_do, on_teardown_step, teardown_step, on_signal, on_l2tp_complete, handle_each, on_parsed,
  on_l2tp_up, up_found, down_found, on_l2tp_down, handle_app_event, run, on_l2tp_established,
  in_buffer,
}
use go_l2tp_debian.Kpppoed.Daemons.Sound.{empty-Sound, delete-Sound, update-Sound}
use go_l2tp_debian.Kpppoed.Daemons.Kept.{IsSound, Keeps}
use go_l2tp_debian.Kpppoed.Daemons.Closing.{close_pppoe_session-Keeps}
use go_l2tp_debian.Kpppoed.Daemons.Packets.{handle_packet-Keeps}

module _ (w : Outside) where
  then_do-Keeps :
      (h : Handled) (next : Step)
      → Keeps w h
      → ((app : Application) → IsSound app → Keeps w (next app))
      → Keeps w (then_do h next)
  unfolding then_do
  then_do-Keeps (ok u, app) next k f = f app k
  then_do-Keeps (err e, app) next k f = f app k
  then_do-Keeps (panic p, app) next k f = k
  then_do-Keeps (stuck, app) next k f = k

  on_teardown_step-Keeps :
      (t : Teardown) (app : Application) → IsSound app → Keeps w (on_teardown_step w t app)
  unfolding on_teardown_step
  on_teardown_step-Keeps idle app v = v
  on_teardown_step-Keeps closing_conn app v = v
  on_teardown_step-Keeps (closing []) app v = v
  on_teardown_step-Keeps (closing (sid ∷ sids)) app v =
      close_pppoe_session-Keeps w sid reason_shutdown true _ v

  handle_each-Keeps :
      (pkts : List PppoePacket) (app : Application) → IsSound app → Keeps w (handle_each w pkts app)
  unfolding handle_each
  handle_each-Keeps [] app v = v
  handle_each-Keeps (pkt ∷ pkts) app v =
      then_do-Keeps _ (handle_each w pkts) (handle_packet-Keeps w pkt app v)
        (handle_each-Keeps pkts)

  on_parsed-Keeps :
      (r : Result (List PppoePacket)) (app : Application)
      → Returns r
      → IsSound app
      → Keeps w (on_parsed w r app)
  unfolding on_parsed
  on_parsed-Keeps r app (returns_value pkts) v = handle_each-Keeps pkts app v
  on_parsed-Keeps r app (returns_error e) v = v

  on_signal-Keeps :
      (b : Bool) (app : Application)
      → IsSound app
      → Keeps w (
          if b
          then (ok tt, app)
          else (ok tt, record app { shutdown = true; teardown = closing_conn }))
  on_signal-Keeps true app v = v
  on_signal-Keeps false app v = v

  up_found-Keeps :
      (sid tid lsid : ℕ) (app : Application) (found : Option PppoeSession)
      → IsSound app
      → lookup sid app.sessions ≡ found
      → Keeps w (up_found w sid tid lsid app found)
  unfolding up_found on_l2tp_established
  up_found-Keeps sid tid lsid app none v e = v
  up_found-Keeps sid tid lsid app (some sess) v e =
      update-Sound v sid sess (on_l2tp_established sess tid lsid) e refl refl (λ h. h)

  down_found-Keeps :
      (app : Application) (found : Option PppoeSession)
      → IsSound app
      → Keeps w (down_found w app found)
  unfolding down_found
  down_found-Keeps app none v = v
  down_found-Keeps app (some sess) v = close_pppoe_session-Keeps w sess.sid reason_down true app v

  handle_app_event-Keeps :
      (ev : AppEvent) (app : Application) → IsSound app → Keeps w (handle_app_event w ev app)
  unfolding handle_app_event on_signal on_l2tp_complete on_l2tp_up on_l2tp_down
  handle_app_event-Keeps signal app v = on_signal-Keeps app.shutdown app v
  handle_app_event-Keeps teardown_step app v = on_teardown_step-Keeps app.teardown app v
  handle_app_event-Keeps (l2tp_complete sid) app v =
      then_do-Keeps _ _ (close_pppoe_session-Keeps w sid reason_exited true app v)
        (λ app' v'. delete-Sound v' sid)
  handle_app_event-Keeps (received frame) app v =
      on_parsed-Keeps _ app (parse_packet_buffer-Returns (in_buffer frame)) v
  handle_app_event-Keeps (l2tp_session_up sid tid lsid) app v =
      up_found-Keeps sid tid lsid app (lookup sid app.sessions) v refl
  handle_app_event-Keeps (l2tp_session_down sid) app v =
      down_found-Keeps app (lookup sid app.sessions) v
  handle_app_event-Keeps closed app v = v

  loop-Keeps : (evs : List AppEvent) (app : Application) → IsSound app → Keeps w (run w evs app)
  unfolding run
  loop-Keeps [] app v = v
  loop-Keeps (closed ∷ evs) app v = v
  loop-Keeps (signal ∷ evs) app v =
      then_do-Keeps _ (run w evs) (handle_app_event-Keeps signal app v) (loop-Keeps evs)
  loop-Keeps (teardown_step ∷ evs) app v =
      then_do-Keeps _ (run w evs) (handle_app_event-Keeps teardown_step app v) (loop-Keeps evs)
  loop-Keeps (l2tp_complete sid ∷ evs) app v =
      then_do-Keeps _ (run w evs) (handle_app_event-Keeps (l2tp_complete sid) app v)
        (loop-Keeps evs)
  loop-Keeps (received frame ∷ evs) app v =
      then_do-Keeps _ (run w evs) (handle_app_event-Keeps (received frame) app v) (loop-Keeps evs)
  loop-Keeps (l2tp_session_up sid tid lsid ∷ evs) app v =
      then_do-Keeps _ (run w evs) (handle_app_event-Keeps (l2tp_session_up sid tid lsid) app v)
        (loop-Keeps evs)
  loop-Keeps (l2tp_session_down sid ∷ evs) app v =
      then_do-Keeps _ (run w evs) (handle_app_event-Keeps (l2tp_session_down sid) app v)
        (loop-Keeps evs)

-- Whatever a new kpppoed receives and whatever its surroundings answer: the loop ends by a panic
-- only where the surroundings let some call of spawn fail, and no daemon is ended twice. If it does
-- not panic, each session is under its own ID and has a daemon that was spawned, that no other
-- session has, and that was not ended while the session is open.
pub run-Keeps : (w : Outside) (evs : List AppEvent) → Keeps w (run w evs new_application)
unfolding new_application
run-Keeps w evs = loop-Keeps w evs new_application empty-Sound
