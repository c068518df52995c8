-- ===== src/Dynamic/Tunnel/Moves.antt =====
-- Which transitions of the table leave the states that wait.
use go_l2tp_debian.Prelude.{
  ◌≡◌, arith, refl, Bool, true, false, not, ◌&&◌, ◌||◌, Option, none, some,
}
use go_l2tp_debian.Prelude.Result.{IfOk}
use go_l2tp_debian.Fsm
use go_l2tp_debian.Dynamic.Tunnel.State.{
  TunnelState, idle, waitctlreply, established, dead, TunnelEvent, open_event, sccrq, sccrp, scccn,
  stopccn, newsession, sessionmsg, close, TunnelAct, send_sccrq, on_sccrp, on_stopccn, link_session,
  send_stopccn, start_session, forward_session_msg, DynamicTunnel, tunnel_table, tunnel_state_eq,
  tunnel_event_eq,
}
use go_l2tp_debian.Dynamic.Tunnel.Counts.{ups, is_waiting, Kept}

-- a tunnel that was not announced, and waits no more
pub record Ready (t : DynamicTunnel) : Type 0 where
  pub kept : Kept t
  pub zero : ups t.trace ≡ 0
  pub moved : is_waiting t.state ≡ false

-- what a callback needs of the tunnel it runs on
abbrev pub Before : Option TunnelAct → DynamicTunnel → Type 0
Before (some on_sccrp) t = Ready t
Before _ t = Kept t

-- A transition to a waiting state starts from one, and one that runs `on_sccrp` leaves them.
abbrev pub leaves : Option TunnelAct → Bool
leaves (some on_sccrp) = true
leaves _ = false

abbrev pub moves : TunnelState → TunnelState × Option TunnelAct → Bool
moves st (next, cb) =
    (is_waiting st || not (is_waiting next))
    && (not (leaves cb) || is_waiting st && not (is_waiting next))

pub tunnel_table-moves :
    (st : TunnelState) (e : TunnelEvent)
    → IfOk (λ out. moves st out ≡ true) (Fsm.handle_event st tunnel_table e)
unfolding Fsm.handle_event Fsm.matches Fsm.has_event
tunnel_table-moves idle open_event = refl
tunnel_table-moves idle sccrq = tt
tunnel_table-moves idle sccrp = tt
tunnel_table-moves idle scccn = tt
tunnel_table-moves idle stopccn = tt
tunnel_table-moves idle newsession = tt
tunnel_table-moves idle sessionmsg = tt
tunnel_table-moves idle close = tt
tunnel_table-moves waitctlreply open_event = tt
tunnel_table-moves waitctlreply sccrq = refl
tunnel_table-moves waitctlreply sccrp = refl
tunnel_table-moves waitctlreply scccn = refl
tunnel_table-moves waitctlreply stopccn = refl
tunnel_table-moves waitctlreply newsession = refl
tunnel_table-moves waitctlreply sessionmsg = refl
tunnel_table-moves waitctlreply close = refl
tunnel_table-moves established open_event = tt
tunnel_table-moves established sccrq = refl
tunnel_table-moves established sccrp = refl
tunnel_table-moves established scccn = refl
tunnel_table-moves established stopccn = refl
tunnel_table-moves established newsession = refl
tunnel_table-moves established sessionmsg = refl
tunnel_table-moves established close = refl
tunnel_table-moves dead open_event = tt
tunnel_table-moves dead sccrq = tt
tunnel_table-moves dead sccrp = tt
tunnel_table-moves dead scccn = tt
tunnel_table-moves dead stopccn = tt
tunnel_table-moves dead newsession = tt
tunnel_table-moves dead sessionmsg = tt
tunnel_table-moves dead close = tt

stays-Kept :
    (t : DynamicTunnel) (next : TunnelState) (b : Bool)
    → (is_waiting t.state || not (is_waiting next))
        && (not b || is_waiting t.state && not (is_waiting next))
      ≡ true
    → Kept t
    → Kept (record t { state = next })
stays-Kept t next b m a = record {
  pairs = a.pairs;
  once = a.once;
  none_yet = λ h. a.none_yet (ground (arith, m, h));
  closed_down = a.closed_down;
  closed_once = a.closed_once;
}

pub moves-Before :
    (t : DynamicTunnel) (next : TunnelState) (cb : Option TunnelAct)
    → moves t.state (next, cb) ≡ true
    → Kept t
    → Before cb (record t { state = next })
moves-Before t next (some on_sccrp) m a = record {
  kept = stays-Kept t next true m a;
  zero = a.none_yet (ground (arith, m));
  moved = ground (arith, m);
}
moves-Before t next (some on_stopccn) m a = stays-Kept t next false m a
moves-Before t next (some send_sccrq) m a = stays-Kept t next false m a
moves-Before t next (some link_session) m a = stays-Kept t next false m a
moves-Before t next (some send_stopccn) m a = stays-Kept t next false m a
moves-Before t next (some start_session) m a = stays-Kept t next false m a
moves-Before t next (some forward_session_msg) m a = stays-Kept t next false m a
moves-Before t next none m a = stays-Kept t next false m a
