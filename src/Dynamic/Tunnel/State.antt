-- ===== src/Dynamic/Tunnel/State.antt =====
-- l2tp/l2tp_dynamic_tunnel.go: the state of a tunnel, and the table of its state machine.
use go_l2tp_debian.Prelude.{
  ℕ, ◌≡◌, refl, Bool, false, Option, none, some, List, [], ◌∷◌, ◌==◌, if◌then◌else◌,
}
use go_l2tp_debian.Prelude.Eq.{Eq, code_iff}
use go_l2tp_debian.Fsm.{EventDesc}
use go_l2tp_debian.Msg.Message.{V2ControlMessage}
use go_l2tp_debian.Msg.Build.{TunnelConfig}
use go_l2tp_debian.Context.Links.{Entry, Links, no_links}

-- the names of the states
pub data TunnelState : Type 0 where
  idle waitctlreply established dead : TunnelState

pub data TunnelEvent : Type 0 where
  open_event sccrq sccrp scccn stopccn newsession sessionmsg close : TunnelEvent

-- the callbacks
pub data TunnelAct : Type 0 where
  send_sccrq on_sccrp on_stopccn link_session : TunnelAct
  send_stopccn start_session forward_session_msg : TunnelAct

-- What a tunnel does to its surroundings. A message is sent, or the sending fails.
pub data TunnelAction : Type 0 where
  sent not_sent : V2ControlMessage → TunnelAction
  connected data_plane_up data_plane_failed data_plane_down : TunnelAction
  session_told session_killed : Entry → TunnelAction
  forwarded : Entry → V2ControlMessage → TunnelAction
  no_such_session : ℕ → TunnelAction
  waited transport_closed control_plane_closed : TunnelAction
  tunnel_up tunnel_down unlinked : TunnelAction

-- `dynamicTunnel`, less its channels and locks. The peer's ID is kept once: the transport's copy is
-- set with that of the configuration. The transport is closed when `is_closing` is set. `trace` holds
-- what the tunnel has done, the latest first.
pub record DynamicTunnel : Type 0 where
  pub state : TunnelState
  pub is_closing : Bool
  pub is_established : Bool
  pub has_dp : Bool
  pub cfg : TunnelConfig
  pub sessions : Links
  pub trace : List TunnelAction

abbrev tunnel_state_code : TunnelState → ℕ
tunnel_state_code idle = 0
tunnel_state_code waitctlreply = 1
tunnel_state_code established = 2
tunnel_state_code dead = 3

abbrev tunnel_state_of : ℕ → TunnelState
tunnel_state_of n =
    if n == 0 then idle else if n == 1 then waitctlreply else if n == 2 then established else dead

pub tunnel_state_of_code : (x : TunnelState) → tunnel_state_of (tunnel_state_code x) ≡ x
tunnel_state_of_code idle = refl
tunnel_state_of_code waitctlreply = refl
tunnel_state_of_code established = refl
tunnel_state_of_code dead = refl

instance abbrev pub tunnel_state_eq : Eq TunnelState
tunnel_state_eq = record {
  beq = λ a b. tunnel_state_code a == tunnel_state_code b;
  beq_iff = code_iff tunnel_state_code tunnel_state_of tunnel_state_of_code;
}

abbrev tunnel_event_code : TunnelEvent → ℕ
tunnel_event_code open_event = 0
tunnel_event_code sccrq = 1
tunnel_event_code sccrp = 2
tunnel_event_code scccn = 3
tunnel_event_code stopccn = 4
tunnel_event_code newsession = 5
tunnel_event_code sessionmsg = 6
tunnel_event_code close = 7

abbrev tunnel_event_of : ℕ → TunnelEvent
tunnel_event_of n =
    if n == 0
    then open_event
    else if n == 1
    then sccrq
    else if n == 2
    then sccrp
    else if n == 3
    then scccn
    else if n == 4
    then stopccn
    else if n == 5
    then newsession
    else if n == 6
    then sessionmsg
    else close

pub tunnel_event_of_code : (x : TunnelEvent) → tunnel_event_of (tunnel_event_code x) ≡ x
tunnel_event_of_code open_event = refl
tunnel_event_of_code sccrq = refl
tunnel_event_of_code sccrp = refl
tunnel_event_of_code scccn = refl
tunnel_event_of_code stopccn = refl
tunnel_event_of_code newsession = refl
tunnel_event_of_code sessionmsg = refl
tunnel_event_of_code close = refl

instance abbrev pub tunnel_event_eq : Eq TunnelEvent
tunnel_event_eq = record {
  beq = λ a b. tunnel_event_code a == tunnel_event_code b;
  beq_iff = code_iff tunnel_event_code tunnel_event_of tunnel_event_of_code;
}

abbrev pub TunnelRow : Type 0
TunnelRow = EventDesc TunnelState TunnelEvent TunnelAct

abbrev row : TunnelState → List TunnelEvent → Option TunnelAct → TunnelState → TunnelRow
row s es act t = record { from_state = s; events = es; cb = act; to_state = t }

-- the table of `newDynamicTunnel`
abbrev pub tunnel_table : List TunnelRow
tunnel_table =
    row idle (open_event ∷ []) (some send_sccrq) waitctlreply
    ∷ row waitctlreply (sccrp ∷ []) (some on_sccrp) established
    ∷ row waitctlreply (stopccn ∷ []) (some on_stopccn) dead
    ∷ row waitctlreply (newsession ∷ []) (some link_session) waitctlreply
    ∷ row waitctlreply (sessionmsg ∷ []) none waitctlreply
    ∷ row waitctlreply (sccrq ∷ scccn ∷ close ∷ []) (some send_stopccn) dead
    ∷ row established (stopccn ∷ []) (some on_stopccn) dead
    ∷ row established (newsession ∷ []) (some start_session) established
    ∷ row established (sessionmsg ∷ []) (some forward_session_msg) established
    ∷ row established (sccrq ∷ sccrp ∷ scccn ∷ close ∷ []) (some send_stopccn) dead
    ∷ []

unfoldable pub new_dynamic_tunnel_state : TunnelConfig → DynamicTunnel
new_dynamic_tunnel_state cfg = record {
  state = idle;
  is_closing = false;
  is_established = false;
  has_dp = false;
  cfg = cfg;
  sessions = no_links;
  trace = [];
}
