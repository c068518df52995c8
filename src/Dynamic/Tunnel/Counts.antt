-- ===== src/Dynamic/Tunnel/Counts.antt =====
-- How often a tunnel has been announced as up and as down, and its transport closed.
use go_l2tp_debian.Prelude.{
  ℕ, ◌+◌, ◌≤◌, ◌≡◌, arith, refl, subst, ◌∙◌, Bool, true, false, List, [], ◌∷◌, if◌then◌else◌,
}
use go_l2tp_debian.Context.Links.{Entry, all_sessions}
use go_l2tp_debian.Dynamic.Tunnel.State.{
  TunnelState, idle, waitctlreply, established, dead, TunnelAction, session_killed, tunnel_up,
  tunnel_down, transport_closed, unlinked, DynamicTunnel,
}
use go_l2tp_debian.Dynamic.Tunnel.Act.{
  log, log_each, kill_sessions, close_resources, announce_down, fsm_act_close,
}

abbrev pub ups : List TunnelAction → ℕ
ups [] = 0
ups (tunnel_up ∷ rest) = 1 + ups rest
ups (_ ∷ rest) = ups rest

abbrev pub downs : List TunnelAction → ℕ
downs [] = 0
downs (tunnel_down ∷ rest) = 1 + downs rest
downs (_ ∷ rest) = downs rest

abbrev pub closes : List TunnelAction → ℕ
closes [] = 0
closes (transport_closed ∷ rest) = 1 + closes rest
closes (_ ∷ rest) = closes rest

abbrev pub one_if : Bool → ℕ
one_if b = if b then 1 else 0

-- the tunnel still waits for its peer
abbrev pub is_waiting : TunnelState → Bool
is_waiting idle = true
is_waiting waitctlreply = true
is_waiting established = false
is_waiting dead = false

-- Each announcement that the tunnel is up has one that it is down, but for the last while the tunnel
-- is established. There is one at most, and none while the tunnel waits. A tunnel that closes is not
-- established, and its transport is closed once, and before that not at all.
pub record Kept (t : DynamicTunnel) : Type 0 where
  pub pairs : ups t.trace ≡ downs t.trace + one_if t.is_established
  pub once : ups t.trace ≤ 1
  pub none_yet : is_waiting t.state ≡ true → ups t.trace ≡ 0
  pub closed_down : t.is_closing ≡ true → t.is_established ≡ false
  pub closed_once : closes t.trace ≡ one_if t.is_closing

-- a change of the tunnel with no announcement that it is up
pub record Quiet (s t : DynamicTunnel) : Type 0 where
  pub ups_eq : ups t.trace ≡ ups s.trace
  pub balance :
      ups s.trace ≡ downs s.trace + one_if s.is_established
      → ups t.trace ≡ downs t.trace + one_if t.is_established
  pub state_same : t.state ≡ s.state
  pub down_kept :
      (s.is_closing ≡ true → s.is_established ≡ false)
      → t.is_closing ≡ true
      → t.is_established ≡ false
  pub closes_kept : closes s.trace ≡ one_if s.is_closing → closes t.trace ≡ one_if t.is_closing

pub Quiet-Kept : (s t : DynamicTunnel) → Quiet s t → Kept s → Kept t
Quiet-Kept s t q a = record {
  pairs = q.balance a.pairs;
  once = omega (arith, q.ups_eq, a.once);
  none_yet = λ h. q.ups_eq ∙ a.none_yet (subst (λ x. is_waiting x ≡ true) q.state_same h);
  closed_down = q.down_kept a.closed_down;
  closed_once = q.closes_kept a.closed_once;
}

pub Quiet-trans : (s t u : DynamicTunnel) → Quiet s t → Quiet t u → Quiet s u
Quiet-trans s t u p q = record {
  ups_eq = q.ups_eq ∙ p.ups_eq;
  balance = λ h. q.balance (p.balance h);
  state_same = q.state_same ∙ p.state_same;
  down_kept = λ h. q.down_kept (p.down_kept h);
  closes_kept = λ h. q.closes_kept (p.closes_kept h);
}

-- actions on sessions count for nothing
pub record Uncounted (s t : DynamicTunnel) : Type 0 where
  pub ups_eq : ups t.trace ≡ ups s.trace
  pub downs_eq : downs t.trace ≡ downs s.trace
  pub closes_eq : closes t.trace ≡ closes s.trace
  pub state_eq : t.state ≡ s.state
  pub closing_eq : t.is_closing ≡ s.is_closing
  pub established_eq : t.is_established ≡ s.is_established

pub log_each-Uncounted :
    (f : Entry → TunnelAction)
    → ((e : Entry) (l : List TunnelAction)
        → (ups (f e ∷ l) ≡ ups l) × (downs (f e ∷ l) ≡ downs l) × (closes (f e ∷ l) ≡ closes l))
    → (es : List Entry) (t : DynamicTunnel) → Uncounted t (log_each f es t)
unfolding log_each log
log_each-Uncounted f h [] t = record {
  ups_eq = refl;
  downs_eq = refl;
  closes_eq = refl;
  state_eq = refl;
  closing_eq = refl;
  established_eq = refl;
}
log_each-Uncounted f h (e ∷ es) t =
    let u = log_each-Uncounted f h es (log t (f e)) in
    let (a, b, c) = h e t.trace in
    record {
      ups_eq = u.ups_eq ∙ a;
      downs_eq = u.downs_eq ∙ b;
      closes_eq = u.closes_eq ∙ c;
      state_eq = u.state_eq;
      closing_eq = u.closing_eq;
      established_eq = u.established_eq;
    }

kill_sessions-Uncounted : (t : DynamicTunnel) → Uncounted t (kill_sessions t)
unfolding kill_sessions
kill_sessions-Uncounted t =
    let u =
      log_each-Uncounted session_killed (λ e l. (refl, refl, refl))
        (all_sessions t.sessions.by_name) t in
    record {
      ups_eq = u.ups_eq;
      downs_eq = u.downs_eq;
      closes_eq = u.closes_eq;
      state_eq = u.state_eq;
      closing_eq = u.closing_eq;
      established_eq = u.established_eq;
    }

-- closing a tunnel that is not closing yet, once its sessions are killed
close_rest-Quiet :
    (t u : DynamicTunnel)
    → t.is_closing ≡ false
    → Uncounted (record t { is_closing = true }) u
    → Quiet t (log (announce_down (close_resources u)) unlinked)
unfolding announce_down close_resources log
close_rest-Quiet t u not_yet u_eq = record {
  ups_eq = ground (arith, u_eq.ups_eq);
  balance = λ h. ground (arith, u_eq.ups_eq, u_eq.downs_eq, u_eq.established_eq);
  state_same = ground (arith, u_eq.state_eq);
  down_kept = λ h k. ground arith;
  closes_kept = λ h. ground (arith, u_eq.closes_eq, u_eq.closing_eq);
}

pub same-Quiet : (t : DynamicTunnel) → Quiet t t
same-Quiet t = record {
  ups_eq = refl;
  balance = λ h. h;
  state_same = refl;
  down_kept = λ h. h;
  closes_kept = λ h. h;
}

unless_closing-Quiet :
    (t u : DynamicTunnel) (b : Bool) → (b ≡ false → Quiet t u) → Quiet t (if b then t else u)
unless_closing-Quiet t u true h = same-Quiet t
unless_closing-Quiet t u false h = h refl

pub fsm_act_close-Quiet : (t : DynamicTunnel) → Quiet t (fsm_act_close t)
unfolding fsm_act_close
fsm_act_close-Quiet t = unless_closing-Quiet t _ t.is_closing (λ h.
    close_rest-Quiet t (kill_sessions (record t { is_closing = true })) h
      (kill_sessions-Uncounted (record t { is_closing = true })))
