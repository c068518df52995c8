-- ===== src/Dynamic/Session/Moves.antt =====
-- Which transitions of the table leave the states that wait.
use go_l2tp_debian.Prelude.{◌≡◌, refl, Bool, true, false, ◌&&◌, ◌||◌, not, Option, none, some}
use go_l2tp_debian.Prelude.Result.{IfOk}
use go_l2tp_debian.Fsm
use go_l2tp_debian.Dynamic.Session.State.{
  SessionState, waittunnel, waitreply, established, dead, SessionEvent, tunnelopen, icrq, icrp,
  iccn, cdn, close, SessionAct, send_icrq, on_icrp, on_cdn, send_cdn, close_session, DynamicSession,
  session_table, state_eq, event_eq,
}
use go_l2tp_debian.Dynamic.Session.Counts.{is_waiting, Announced}
use go_l2tp_debian.Dynamic.Session.Up.{Ready}

-- what a callback needs of the session it runs on
abbrev pub Before : Option SessionAct → DynamicSession → Type 0
Before (some on_icrp) s = Ready s
Before _ s = Announced s

-- A transition to a waiting state starts from one, and one that runs `on_icrp` leaves them.
abbrev pub leaves : Option SessionAct → Bool
leaves (some on_icrp) = true
leaves _ = false

abbrev pub moves : SessionState → SessionState × Option SessionAct → Bool
moves st (next, cb) =
    (is_waiting st || not (is_waiting next))
    && (not (leaves cb) || is_waiting st && not (is_waiting next))

pub session_table-moves :
    (st : SessionState) (e : SessionEvent)
    → IfOk (λ out. moves st out ≡ true) (Fsm.handle_event st session_table e)
unfolding Fsm.handle_event Fsm.matches Fsm.has_event
session_table-moves waittunnel tunnelopen = refl
session_table-moves waittunnel icrq = tt
session_table-moves waittunnel icrp = tt
session_table-moves waittunnel iccn = tt
session_table-moves waittunnel cdn = tt
session_table-moves waittunnel close = refl
session_table-moves waitreply tunnelopen = tt
session_table-moves waitreply icrq = refl
session_table-moves waitreply icrp = refl
session_table-moves waitreply iccn = refl
session_table-moves waitreply cdn = refl
session_table-moves waitreply close = refl
session_table-moves established tunnelopen = tt
session_table-moves established icrq = refl
session_table-moves established icrp = refl
session_table-moves established iccn = refl
session_table-moves established cdn = refl
session_table-moves established close = refl
session_table-moves dead tunnelopen = tt
session_table-moves dead icrq = tt
session_table-moves dead icrp = tt
session_table-moves dead iccn = tt
session_table-moves dead cdn = tt
session_table-moves dead close = tt

waits_before : (x y b : Bool) → (x || not y) && (not b || x && not y) ≡ true → y ≡ true → x ≡ true
waits_before true y b m h = refl
waits_before false false b m h = h
waits_before false true b m h = m

waits_left : (x y : Bool) → (x || not y) && (x && not y) ≡ true → (x ≡ true) × (y ≡ false)
waits_left true false m = (refl, refl)
waits_left true true m = cc
waits_left false false m = cc
waits_left false true m = cc

stays-Announced :
    (s : DynamicSession) (next : SessionState) (b : Bool)
    → (is_waiting s.state || not (is_waiting next))
        && (not b || is_waiting s.state && not (is_waiting next))
      ≡ true
    → Announced s
    → Announced (record s { state = next })
stays-Announced s next b m a = record {
  pairs = a.pairs;
  once = a.once;
  none_yet = λ h. a.none_yet (waits_before (is_waiting s.state) (is_waiting next) b m h);
}

pub moves-Before :
    (s : DynamicSession) (next : SessionState) (cb : Option SessionAct)
    → moves s.state (next, cb) ≡ true
    → Announced s
    → Before cb (record s { state = next })
moves-Before s next (some on_icrp) m a =
    let (before, after) = waits_left (is_waiting s.state) (is_waiting next) m in
    record { pairs = a.pairs; zero = a.none_yet before; moved = after }
moves-Before s next (some on_cdn) m a = stays-Announced s next false m a
moves-Before s next (some send_icrq) m a = stays-Announced s next false m a
moves-Before s next (some send_cdn) m a = stays-Announced s next false m a
moves-Before s next (some close_session) m a = stays-Announced s next false m a
moves-Before s next none m a = stays-Announced s next false m a
