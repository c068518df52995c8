-- ===== src/Dynamic/Session/Up.antt =====
-- The steps that announce a session as up.
use go_l2tp_debian.Prelude.{
  length, ℕ, ◌+◌, ◌≡◌, arith, refl, sym, subst, ◌∙◌, Bool, true, false, List, ◌∷◌,
}
use go_l2tp_debian.Prelude.Result.{Result, ok, err, panic, stuck, IfOk, IfOk-bind, IfOk-map}
use go_l2tp_debian.Prelude.Bytes.{Bytes}
use go_l2tp_debian.Msg.Build.{new_v2_iccn, SessionConfig}
use go_l2tp_debian.Dynamic.Args.{Arg}
use go_l2tp_debian.Dynamic.Session.State.{
  Action, data_plane_up, interface_named, interface_unnamed, data_plane_failed, DynamicSession,
  state_eq, event_eq,
}
use go_l2tp_debian.Dynamic.Session.Act.{
  Surroundings, log, send_built, or_close, announce_up, name_interface, with_name, with_data_plane,
  start_data_plane, on_session_id,
}
use go_l2tp_debian.Dynamic.Session.Counts.{
  ups, downs, one_if, is_waiting, Announced, Quiet, Quiet-Announced, fsm_act_close-Quiet,
  send_built-Quiet,
}

-- a session that was not announced, and waits no more
pub record Ready (s : DynamicSession) : Type 0 where
  pub pairs : ups s.trace ≡ downs s.trace + one_if s.is_established
  pub zero : ups s.trace ≡ 0
  pub moved : is_waiting s.state ≡ false

Quiet-Ready : (s t : DynamicSession) → Quiet s t → Ready s → Ready t
Quiet-Ready s t q a = record {
  pairs = q.balance a.pairs;
  zero = q.ups_eq ∙ a.zero;
  moved = subst (λ x. is_waiting x ≡ false) (sym q.state_same) a.moved;
}

Ready-Announced : (s : DynamicSession) → Ready s → Announced s
Ready-Announced s a = record {
  pairs = a.pairs;
  once = omega (arith, a.zero);
  none_yet = λ h. a.zero;
}

announce_up-Announced : (s : DynamicSession) → Ready s → Announced (announce_up s)
unfolding announce_up log
announce_up-Announced s a = record {
  pairs = omega (arith, a.pairs, a.zero);
  once = omega (arith, a.zero);
  none_yet = λ h. cc (h, a.moved);
}

-- what neither announces nor changes the state
log_renamed-Quiet :
    (s : DynamicSession) (name : Bytes) (a : Action)
    → ups (a ∷ s.trace) ≡ ups s.trace
    → downs (a ∷ s.trace) ≡ downs s.trace
    → Quiet s (log (record s { ifname = name }) a)
unfolding log
log_renamed-Quiet s name a u d = record {
  ups_eq = u;
  balance = λ h. omega (arith, h, u, d);
  state_same = refl;
}

with_name-Announced : (s : DynamicSession) (x : Bool × Bytes) → Ready s → Announced (with_name s x)
unfolding with_name log
with_name-Announced s (true, name) a =
    announce_up-Announced _ (Quiet-Ready s _ (log_renamed-Quiet s name interface_named refl refl) a)
with_name-Announced s (false, name) a =
    let t = log (record s { ifname = name }) interface_unnamed in
    let q = log_renamed-Quiet s name interface_unnamed refl refl in
    announce_up-Announced _ (Quiet-Ready t _ (fsm_act_close-Quiet t) (Quiet-Ready s t q a))

module _ (w : Surroundings) where
  with_data_plane-Announced :
      (s : DynamicSession) (b : Bool) → Ready s → Announced (with_data_plane w s b)
  unfolding with_data_plane log name_interface
  with_data_plane-Announced s true a =
      let t : DynamicSession = record (log s data_plane_up) { has_dp = true } in
      with_name-Announced t (w.interface_name (length t.trace))
        record { pairs = a.pairs; zero = a.zero; moved = a.moved }
  with_data_plane-Announced s false a =
      let t = log s data_plane_failed in
      Quiet-Announced t _ (fsm_act_close-Quiet t)
        (Ready-Announced t record { pairs = a.pairs; zero = a.zero; moved = a.moved })

  start_built-Announced :
      (x : DynamicSession × Bool) → Ready x.0 → IfOk Announced (or_close (start_data_plane w) x)
  unfolding or_close start_data_plane
  start_built-Announced (s, true) a = with_data_plane-Announced s _ a
  start_built-Announced (s, false) a =
      Quiet-Announced s _ (fsm_act_close-Quiet s) (Ready-Announced s a)

  module _ (again : List Arg → DynamicSession → Result DynamicSession)
      (again-Announced : (args : List Arg) (s : DynamicSession)
        → Announced s
        → IfOk Announced (again args s)) where
    pub on_session_id-Announced :
        (s : DynamicSession) (r : Result ℕ) → Ready s → IfOk Announced (on_session_id w again s r)
    unfolding on_session_id
    on_session_id-Announced s (ok psid) a =
        let cfg : SessionConfig = record (s.cfg) { peer_session_id = psid } in
        let t : DynamicSession = record s { cfg = cfg } in
        let m = new_v2_iccn w.parent.peer_tunnel_id cfg in
        let start : Ready t = record { pairs = a.pairs; zero = a.zero; moved = a.moved } in
        IfOk-bind Announced (send_built w t m) (or_close (start_data_plane w)) (
          IfOk-map (λ x. Quiet t x.0) (λ x. IfOk Announced (or_close (start_data_plane w) x))
            (send_built w t m) (λ x q. start_built-Announced x (Quiet-Ready t x.0 q start))
            (send_built-Quiet w t m))
    on_session_id-Announced s (err e) a = again-Announced _ s (Ready-Announced s a)
    on_session_id-Announced s (panic p) a = tt
    on_session_id-Announced s stuck a = tt
