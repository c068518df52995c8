-- ===== src/Dynamic/Session/State.antt =====
-- l2tp/l2tp_dynamic_session.go: the state of a session, and the table of its state machine.
use go_l2tp_debian.Prelude.{
  ℕ, ◌≡◌, refl, Bool, Option, none, some, List, [], ◌∷◌, ◌==◌, if◌then◌else◌,
}
use go_l2tp_debian.Prelude.Bytes.{Bytes}
use go_l2tp_debian.Prelude.Eq.{Eq, code_iff}
use go_l2tp_debian.Fsm.{EventDesc}
use go_l2tp_debian.Avp.Payload.{ResultCode}
use go_l2tp_debian.Msg.Message.{V2ControlMessage}
use go_l2tp_debian.Msg.Build.{SessionConfig}

-- the names of the states
pub data SessionState : Type 0 where
  waittunnel waitreply established dead : SessionState

pub data SessionEvent : Type 0 where
  tunnelopen icrq icrp iccn cdn close : SessionEvent

-- the callbacks
pub data SessionAct : Type 0 where
  send_icrq on_icrp on_cdn send_cdn close_session : SessionAct

-- What a session does to its surroundings. A message is sent, or the sending fails.
pub data Action : Type 0 where
  sent not_sent : V2ControlMessage → Action
  data_plane_up data_plane_failed data_plane_down : Action
  interface_named interface_unnamed : Action
  session_up : Bytes → Action
  session_down : Bytes → Option ResultCode → Action
  unlinked : Action

-- `dynamicSession`, less its channels. The result is kept as the code that its text is made of; the
-- text is never empty once it is made. `trace` holds what the session has done, the latest first.
pub record DynamicSession : Type 0 where
  pub state : SessionState
  pub is_closed : Bool
  pub is_established : Bool
  pub call_serial : ℕ
  pub ifname : Bytes
  pub result : Option ResultCode
  pub has_dp : Bool
  pub cfg : SessionConfig
  pub trace : List Action

abbrev state_code : SessionState → ℕ
state_code waittunnel = 0
state_code waitreply = 1
state_code established = 2
state_code dead = 3

abbrev state_of : ℕ → SessionState
state_of n =
    if n == 0
    then waittunnel
    else if n == 1
    then waitreply
    else if n == 2
    then established
    else dead

pub state_of_code : (s : SessionState) → state_of (state_code s) ≡ s
state_of_code waittunnel = refl
state_of_code waitreply = refl
state_of_code established = refl
state_of_code dead = refl

instance abbrev pub state_eq : Eq SessionState
state_eq = record {
  beq = λ a b. state_code a == state_code b;
  beq_iff = code_iff state_code state_of state_of_code;
}

abbrev event_code : SessionEvent → ℕ
event_code tunnelopen = 0
event_code icrq = 1
event_code icrp = 2
event_code iccn = 3
event_code cdn = 4
event_code close = 5

abbrev event_of : ℕ → SessionEvent
event_of n =
    if n == 0
    then tunnelopen
    else if n == 1
    then icrq
    else if n == 2
    then icrp
    else if n == 3
    then iccn
    else if n == 4
    then cdn
    else close

pub event_of_code : (e : SessionEvent) → event_of (event_code e) ≡ e
event_of_code tunnelopen = refl
event_of_code icrq = refl
event_of_code icrp = refl
event_of_code iccn = refl
event_of_code cdn = refl
event_of_code close = refl

instance abbrev pub event_eq : Eq SessionEvent
event_eq = record {
  beq = λ a b. event_code a == event_code b;
  beq_iff = code_iff event_code event_of event_of_code;
}

abbrev pub Row : Type 0
Row = EventDesc SessionState SessionEvent SessionAct

abbrev row : SessionState → List SessionEvent → SessionAct → SessionState → Row
row s es act t = record { from_state = s; events = es; cb = some act; to_state = t }

-- the table of `newDynamicSession`
abbrev pub session_table : List Row
session_table =
    row waittunnel (tunnelopen ∷ []) send_icrq waitreply
    ∷ row waittunnel (close ∷ []) close_session dead
    ∷ row waitreply (icrp ∷ []) on_icrp established
    ∷ row waitreply (iccn ∷ []) close_session dead
    ∷ row waitreply (cdn ∷ []) on_cdn dead
    ∷ row waitreply (icrq ∷ close ∷ []) send_cdn dead
    ∷ row established (cdn ∷ []) on_cdn dead
    ∷ row established (icrq ∷ icrp ∷ iccn ∷ close ∷ []) send_cdn dead
    ∷ []

unfoldable pub new_dynamic_session : ℕ → SessionConfig → DynamicSession
new_dynamic_session serial cfg = record {
  state = waittunnel;
  is_closed = Bool.false;
  is_established = Bool.false;
  call_serial = serial;
  ifname = [];
  result = none;
  has_dp = Bool.false;
  cfg = cfg;
  trace = [];
}
