-- ===== src/Kpppoed/Silent/Runs.antt =====
-- cmd/kpppoed/kpppoed.go: the packets that are sent once the connection is closed after a signal.
use go_l2tp_debian.Prelude.{◌≡◌, refl, Bool, ◌++◌, if◌then◌else◌, All, true, false, List, [], ◌∷◌}
use go_l2tp_debian.Prelude.Result.{ok, err, panic, stuck}
use go_l2tp_debian.Pppoe.Packet.{PppoePacket}
use go_l2tp_debian.Kpppoed.State.{Teardown, idle, closing_conn, closing, Application, Outside}
use go_l2tp_debian.Kpppoed.Handlers.{Handled, reason_shutdown}
use go_l2tp_debian.Kpppoed.Run.{
  AppEvent, signal, l2tp_complete, received, l2tp_session_up, l2tp_session_down, closed, Step,
  then_do, on_teardown_step, teardown_step, session_ids, on_signal, handle_app_event, run,
}
use go_l2tp_debian.Kpppoed.Silent.{packets_sent, IsKept, close-IsKept}
use go_l2tp_debian.Kpppoed.Silent.Events.{IsOther, other-IsKept}

-- an event that is no step of the shutdown
abbrev IsOfLoop : AppEvent → Type 0
IsOfLoop teardown_step = ⊥
IsOfLoop _ = Unit {0}

module _ (w : Outside) (l : List PppoePacket) where
  -- the connection is closed, and these packets were sent
  abbrev IsSilent : Application → Type 0
  IsSilent app = (app.conn_open ≡ false) × (packets_sent app.trace ≡ l)

  other-IsSilent :
      (ev : AppEvent) (app : Application)
      → IsOther ev
      → IsSilent app
      → IsSilent (handle_app_event w ev app).1
  other-IsSilent ev app o q = (other-IsKept w l true app.teardown ev app o (λ on. q, refl)).0 refl

  on_teardown_step-IsSilent :
      (t : Teardown) (app : Application) → IsSilent app → IsSilent (on_teardown_step w t app).1
  unfolding on_teardown_step
  on_teardown_step-IsSilent idle app q = q
  on_teardown_step-IsSilent closing_conn app q = (refl, q.1)
  on_teardown_step-IsSilent (closing []) app q = q
  on_teardown_step-IsSilent (closing (sid ∷ sids)) app q =
      (close-IsKept w l true (closing sids) sid reason_shutdown true _ (λ on. q, refl)).0 refl

  signal-IsSilent :
      (b : Bool) (app : Application)
      → IsSilent app
      → IsSilent
          (if◌then◌else◌ {A = Handled} b
            (ok tt, app)
            (ok tt, record app { shutdown = true; teardown = closing_conn })).1
  signal-IsSilent true app q = q
  signal-IsSilent false app q = q

  event-IsSilent :
      (ev : AppEvent) (app : Application) → IsSilent app → IsSilent (handle_app_event w ev app).1
  unfolding handle_app_event on_signal
  event-IsSilent signal app q = signal-IsSilent app.shutdown app q
  event-IsSilent teardown_step app q = on_teardown_step-IsSilent app.teardown app q
  event-IsSilent (l2tp_complete sid) app q = other-IsSilent (l2tp_complete sid) app tt q
  event-IsSilent (received frame) app q = other-IsSilent (received frame) app tt q
  event-IsSilent (l2tp_session_up sid tid lsid) app q =
      other-IsSilent (l2tp_session_up sid tid lsid) app tt q
  event-IsSilent (l2tp_session_down sid) app q = other-IsSilent (l2tp_session_down sid) app tt q
  event-IsSilent closed app q = q

  then_do-IsSilent :
      (h : Handled) (next : Step)
      → IsSilent h.1
      → ((app : Application) → IsSilent app → IsSilent (next app).1)
      → IsSilent (then_do h next).1
  unfolding then_do
  then_do-IsSilent (ok u, app) next q f = f app q
  then_do-IsSilent (err e, app) next q f = f app q
  then_do-IsSilent (panic p, app) next q f = q
  then_do-IsSilent (stuck, app) next q f = q

  run-IsSilent :
      (evs : List AppEvent) (app : Application) → IsSilent app → IsSilent (run w evs app).1
  unfolding run
  run-IsSilent [] app q = q
  run-IsSilent (closed ∷ evs) app q = q
  run-IsSilent (signal ∷ evs) app q =
      then_do-IsSilent _ (run w evs) (event-IsSilent signal app q) (run-IsSilent evs)
  run-IsSilent (teardown_step ∷ evs) app q =
      then_do-IsSilent _ (run w evs) (event-IsSilent teardown_step app q) (run-IsSilent evs)
  run-IsSilent (l2tp_complete sid ∷ evs) app q =
      then_do-IsSilent _ (run w evs) (event-IsSilent (l2tp_complete sid) app q) (run-IsSilent evs)
  run-IsSilent (received frame ∷ evs) app q =
      then_do-IsSilent _ (run w evs) (event-IsSilent (received frame) app q) (run-IsSilent evs)
  run-IsSilent (l2tp_session_up sid tid lsid ∷ evs) app q =
      then_do-IsSilent _ (run w evs) (event-IsSilent (l2tp_session_up sid tid lsid) app q)
        (run-IsSilent evs)
  run-IsSilent (l2tp_session_down sid ∷ evs) app q =
      then_do-IsSilent _ (run w evs) (event-IsSilent (l2tp_session_down sid) app q)
        (run-IsSilent evs)

module _ (w : Outside) where
  -- the shutdown is about to close the connection
  abbrev IsWaiting : Application → Type 0
  IsWaiting app = IsKept w [] false closing_conn app

  then_do-same :
      (h : Handled) (f g : Step)
      → IsWaiting h.1
      → ((app : Application)
          → IsWaiting app
          → packets_sent (f app).1.trace ≡ packets_sent (g app).1.trace)
      → packets_sent (then_do h f).1.trace ≡ packets_sent (then_do h g).1.trace
  unfolding then_do
  then_do-same (ok u, app) f g q same = same app q
  then_do-same (err e, app) f g q same = same app q
  then_do-same (panic p, app) f g q same = refl
  then_do-same (stuck, app) f g q same = refl

  signal-IsWaiting : (app : Application) → IsWaiting app → IsWaiting (on_signal app).1
  unfolding on_signal
  signal-IsWaiting app q = go app.shutdown
    where
      go :
          (b : Bool)
          → IsWaiting
              (if◌then◌else◌ {A = Handled} b
                (ok tt, app)
                (ok tt, record app { shutdown = true; teardown = closing_conn })).1
      go true = q
      go false = (q.0, refl)

  -- once the connection is closed, what follows sends nothing
  after_close :
      (evs : List AppEvent) (app : Application)
      → app.teardown ≡ closing_conn
      → packets_sent (run w (teardown_step ∷ evs) app).1.trace ≡ packets_sent app.trace
  unfolding run handle_app_event on_teardown_step
  after_close evs app about = rw about (
      let l = packets_sent app.trace in
      (run-IsSilent w l evs
        (record app { conn_open = false; teardown = closing (session_ids app.sessions) })
        (refl, refl)).1)

  cut_run :
      (before after : List AppEvent) (app : Application)
      → All IsOfLoop before
      → IsWaiting app
      → packets_sent (run w (before ++ teardown_step ∷ after) app).1.trace
        ≡ packets_sent (run w before app).1.trace
  unfolding run handle_app_event
  cut_run [] after app o q = after_close after app q.1
  cut_run (closed ∷ before) after app o q = refl
  cut_run (teardown_step ∷ before) after app (o, os) q = absurd o
  cut_run (signal ∷ before) after app (o, os) q =
      then_do-same (on_signal app) _ _ (signal-IsWaiting app q)
        (λ app' q'. cut_run before after app' os q')
  cut_run (l2tp_complete sid ∷ before) after app (o, os) q =
      then_do-same (handle_app_event w (l2tp_complete sid) app) _ _
        (other-IsKept w [] false closing_conn (l2tp_complete sid) app tt q)
        (λ app' q'. cut_run before after app' os q')
  cut_run (received frame ∷ before) after app (o, os) q =
      then_do-same (handle_app_event w (received frame) app) _ _
        (other-IsKept w [] false closing_conn (received frame) app tt q)
        (λ app' q'. cut_run before after app' os q')
  cut_run (l2tp_session_up sid tid lsid ∷ before) after app (o, os) q =
      then_do-same (handle_app_event w (l2tp_session_up sid tid lsid) app) _ _
        (other-IsKept w [] false closing_conn (l2tp_session_up sid tid lsid) app tt q)
        (λ app' q'. cut_run before after app' os q')
  cut_run (l2tp_session_down sid ∷ before) after app (o, os) q =
      then_do-same (handle_app_event w (l2tp_session_down sid) app) _ _
        (other-IsKept w [] false closing_conn (l2tp_session_down sid) app tt q)
        (λ app' q'. cut_run before after app' os q')

  -- From the first signal on, whatever the loop handles until the goroutine of the shutdown takes
  -- its first step, and whatever events and steps follow this step: the packets that are sent are
  -- those that were sent before the step. It closes the connection before the sessions, so that none
  -- of the PADTs for them goes out.
  pub run-closed_silent :
      (before after : List AppEvent) (app : Application)
      → app.shutdown ≡ false
      → All IsOfLoop before
      → packets_sent (run w (signal ∷ before ++ teardown_step ∷ after) app).1.trace
        ≡ packets_sent (run w (signal ∷ before) app).1.trace
  unfolding run handle_app_event on_signal
  run-closed_silent before after app going o =
      then_do-same (on_signal app) _ _ (first app.shutdown going)
        (λ app' q'. cut_run before after app' o q')
    where
      first :
          (b : Bool)
          → b ≡ false
          → IsWaiting
              (if◌then◌else◌ {A = Handled} b
                (ok tt, app)
                (ok tt, record app { shutdown = true; teardown = closing_conn })).1
      first true e = absurd (let off = e in cc)
      first false e = (λ on. cc, refl)
