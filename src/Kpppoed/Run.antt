-- ===== src/Kpppoed/Run.antt =====
-- cmd/kpppoed/kpppoed.go: the event loop of the daemon. An event is what one of the loop's channels
-- gives, or a step of the goroutine that the first signal starts, which runs beside the loop: it closes
-- the connection, and then one session in each step, in the order of the map.
use go_l2tp_debian.Prelude.{
  ℕ, zero, suc, true, false, Option, none, some, List, [], ◌∷◌, ◌++◌, take, if◌then◌else◌,
}
use go_l2tp_debian.Prelude.Result.{Result, ok, err, panic, stuck}
use go_l2tp_debian.Prelude.Bytes.{Bytes}
use go_l2tp_debian.Prelude.Eq.{nat_eq}
use go_l2tp_debian.Prelude.Maps.{Map, lookup, insert, delete}
use go_l2tp_debian.Pppoe.Packet.{PppoePacket}
use go_l2tp_debian.Pppoe.Parse.{parse_packet_buffer}
use go_l2tp_debian.Kpppoed.State.{
  PppoeSession, Teardown, idle, closing_conn, closing, Application, Outside,
}
use go_l2tp_debian.Kpppoed.Handlers.{
  Handled, close_pppoe_session, handle_packet, reason_shutdown, reason_exited, reason_down,
}

-- `teardown_step` is a step of the goroutine, and `closed` the closing of `closeChan`
pub data AppEvent : Type 0 where
  signal : AppEvent
  teardown_step : AppEvent
  l2tp_complete : ℕ → AppEvent
  received : Bytes → AppEvent
  l2tp_session_up : ℕ → ℕ → ℕ → AppEvent
  l2tp_session_down : ℕ → AppEvent
  closed : AppEvent

abbrev pub Step : Type 0
Step = Application → Handled

-- what follows, unless the program has ended
unfoldable pub then_do : Handled → Step → Handled
then_do (ok u, app) next = next app
then_do (err e, app) next = next app
then_do (panic p, app) next = (panic p, app)
then_do (stuck, app) next = (stuck, app)

unfoldable pub session_ids : Map ℕ PppoeSession → List ℕ
session_ids [] = []
session_ids ((sid, sess) ∷ m) = sid ∷ session_ids m

-- the frame in the buffer of 1500 bytes, all of which is parsed
unfoldable pub zeros : ℕ → Bytes
zeros zero = []
zeros (suc n) = 0 ∷ zeros n

unfoldable pub in_buffer : Bytes → Bytes
unfolding zeros
in_buffer frame = take 1500 (frame ++ zeros 1500)

unfoldable pub on_l2tp_established : PppoeSession → ℕ → ℕ → PppoeSession
on_l2tp_established sess tid sid = record sess { l2tp_tid = tid; l2tp_sid = sid }

unfoldable pub on_signal : Step
on_signal app =
    if app.shutdown
    then (ok tt, app)
    else (ok tt, record app { shutdown = true; teardown = closing_conn })

module _ (w : Outside) where
  -- No session is recorded once the connection is closed, so that the sessions of the loop are those
  -- that it finds at its start.
  unfoldable pub on_teardown_step : Teardown → Step
  unfolding close_pppoe_session session_ids
  on_teardown_step idle app = (ok tt, app)
  on_teardown_step closing_conn app =
      (ok tt, record app { conn_open = false; teardown = closing (session_ids app.sessions) })
  on_teardown_step (closing []) app = (ok tt, record app { teardown = idle })
  on_teardown_step (closing (sid ∷ sids)) app =
      close_pppoe_session w sid reason_shutdown true (record app { teardown = closing sids })

  abbrev forget : ℕ → Step
  forget sid app = (ok tt, record app { sessions = delete sid app.sessions })

  unfoldable pub on_l2tp_complete : ℕ → Step
  unfolding close_pppoe_session then_do delete
  on_l2tp_complete sid app = then_do (close_pppoe_session w sid reason_exited true app) (forget sid)

  unfoldable pub handle_each : List PppoePacket → Step
  unfolding handle_packet then_do
  handle_each [] app = (ok tt, app)
  handle_each (pkt ∷ pkts) app = then_do (handle_packet w pkt app) (handle_each pkts)

  unfoldable pub on_parsed : Result (List PppoePacket) → Step
  unfolding handle_each
  on_parsed (ok pkts) app = handle_each pkts app
  on_parsed (err e) app = (ok tt, app)
  on_parsed (panic p) app = (panic p, app)
  on_parsed stuck app = (stuck, app)

  unfoldable pub up_found : ℕ → ℕ → ℕ → Application → Option PppoeSession → Handled
  unfolding insert on_l2tp_established
  up_found sid tid lsid app none = (ok tt, app)
  up_found sid tid lsid app (some sess) =
      (ok tt, record app { sessions = insert sid (on_l2tp_established sess tid lsid) app.sessions })

  unfoldable pub on_l2tp_up : ℕ → ℕ → ℕ → Step
  unfolding lookup up_found
  on_l2tp_up sid tid lsid app = up_found sid tid lsid app (lookup sid app.sessions)

  unfoldable pub down_found : Application → Option PppoeSession → Handled
  unfolding close_pppoe_session
  down_found app none = (ok tt, app)
  down_found app (some sess) = close_pppoe_session w sess.sid reason_down true app

  unfoldable pub on_l2tp_down : ℕ → Step
  unfolding lookup down_found
  on_l2tp_down sid app = down_found app (lookup sid app.sessions)

  unfoldable pub handle_app_event : AppEvent → Step
  unfolding on_signal on_teardown_step on_l2tp_complete on_parsed on_l2tp_up on_l2tp_down
      parse_packet_buffer in_buffer
  handle_app_event signal app = on_signal app
  handle_app_event teardown_step app = on_teardown_step app.teardown app
  handle_app_event (l2tp_complete sid) app = on_l2tp_complete sid app
  handle_app_event (received frame) app = on_parsed (parse_packet_buffer (in_buffer frame)) app
  handle_app_event (l2tp_session_up sid tid lsid) app = on_l2tp_up sid tid lsid app
  handle_app_event (l2tp_session_down sid) app = on_l2tp_down sid app
  handle_app_event closed app = (ok tt, app)

  -- the loop returns on the closing of `closeChan`
  unfoldable pub run : List AppEvent → Step
  unfolding handle_app_event then_do
  run [] app = (ok tt, app)
  run (closed ∷ evs) app = (ok tt, app)
  run (ev ∷ evs) app = then_do (handle_app_event ev app) (run evs)
