-- ===== src/Dynamic/Session/Counts.antt =====
-- How often a session has been announced as up and as down.
use go_l2tp_debian.Prelude.{
  ℕ, ◌+◌, ◌≤◌, ◌≡◌, arith, refl, subst, ◌∙◌, Bool, true, false, Option, List, [], ◌∷◌,
  if◌then◌else◌,
}
use go_l2tp_debian.Prelude.Result.{
  Result, ok, err, panic, stuck, IfOk, IfOk-bind, IfOk-map, IfOk-any,
}
use go_l2tp_debian.Avp.Types.{avp_type_result_code}
use go_l2tp_debian.Avp.Info.{vendor_id_ietf}
use go_l2tp_debian.Avp.Find.{find_result_code_avp}
use go_l2tp_debian.Msg.Build.{new_v2_icrq, new_v2_cdn}
use go_l2tp_debian.Avp.Payload.{ResultCode}
use go_l2tp_debian.Msg.Message.{V2ControlMessage}
use go_l2tp_debian.Dynamic.Args.{Arg, fsm_args_to_v2_msg, fsm_args_to_cdn_result}
use go_l2tp_debian.Dynamic.Session.State.{
  SessionState, waittunnel, waitreply, established, dead, Action, session_up, session_down,
  DynamicSession,
}
use go_l2tp_debian.Dynamic.Session.Act.{
  Surroundings, log, announce_down, fsm_act_close, set_reason, peer_reason, fsm_act_on_cdn,
  send_message, send_built, or_close, fsm_act_send_icrq, fsm_act_send_cdn,
}

abbrev pub ups : List Action → ℕ
ups [] = 0
ups (session_up n ∷ rest) = 1 + ups rest
ups (_ ∷ rest) = ups rest

abbrev pub downs : List Action → ℕ
downs [] = 0
downs (session_down n r ∷ rest) = 1 + downs rest
downs (_ ∷ rest) = downs rest

abbrev pub one_if : Bool → ℕ
one_if b = if b then 1 else 0

-- the session still waits for its tunnel or for its peer
abbrev pub is_waiting : SessionState → Bool
is_waiting waittunnel = true
is_waiting waitreply = true
is_waiting established = false
is_waiting dead = false

-- Each announcement that the session is up has one that it is down, but for the last while the
-- session is established. There is one at most, and none while the session waits.
pub record Announced (s : DynamicSession) : Type 0 where
  pub pairs : ups s.trace ≡ downs s.trace + one_if s.is_established
  pub once : ups s.trace ≤ 1
  pub none_yet : is_waiting s.state ≡ true → ups s.trace ≡ 0

-- a change of the session with no announcement that it is up
pub record Quiet (s t : DynamicSession) : Type 0 where
  pub ups_eq : ups t.trace ≡ ups s.trace
  pub balance :
      ups s.trace ≡ downs s.trace + one_if s.is_established
      → ups t.trace ≡ downs t.trace + one_if t.is_established
  pub state_same : t.state ≡ s.state

pub Quiet-Announced : (s t : DynamicSession) → Quiet s t → Announced s → Announced t
Quiet-Announced s t q a = record {
  pairs = q.balance a.pairs;
  once = omega (arith, q.ups_eq, a.once);
  none_yet = λ h. q.ups_eq ∙ a.none_yet (subst (λ x. is_waiting x ≡ true) q.state_same h);
}

pub Quiet-trans : (s t u : DynamicSession) → Quiet s t → Quiet t u → Quiet s u
Quiet-trans s t u p q = record {
  ups_eq = q.ups_eq ∙ p.ups_eq;
  balance = λ h. q.balance (p.balance h);
  state_same = q.state_same ∙ p.state_same;
}

pub fsm_act_close-Quiet : (s : DynamicSession) → Quiet s (fsm_act_close s)
unfolding fsm_act_close announce_down log
fsm_act_close-Quiet s = record {
  ups_eq = ground arith;
  balance = λ h. ground arith;
  state_same = ground arith;
}

pub set_result-Quiet :
    (s : DynamicSession) (r : Option ResultCode) → Quiet s (record s { result = r })
set_result-Quiet s r = record { ups_eq = refl; balance = λ h. h; state_same = refl }

pub fsm_act_on_cdn-Quiet :
    (args : List Arg) (s : DynamicSession) → IfOk (Quiet s) (fsm_act_on_cdn args s)
unfolding fsm_act_on_cdn
fsm_act_on_cdn-Quiet args s = IfOk-bind (Quiet s) (fsm_args_to_v2_msg args) _ (
    IfOk-any _ (fsm_args_to_v2_msg args) (λ m.
      let t = record s {
        result =
            peer_reason s.result (find_result_code_avp m.avps vendor_id_ietf avp_type_result_code);
      } in
      Quiet-trans s t (fsm_act_close t) (set_result-Quiet s t.result) (fsm_act_close-Quiet t)))

pub or_close-Quiet :
    (s : DynamicSession) (x : DynamicSession × Bool)
    → Quiet s x.0
    → IfOk (Quiet s) (or_close (λ t. t) x)
unfolding or_close
or_close-Quiet s (t, true) q = q
or_close-Quiet s (t, false) q = Quiet-trans s t (fsm_act_close t) q (fsm_act_close-Quiet t)

module _ (w : Surroundings) where
  send_message-Quiet : (s : DynamicSession) (m : V2ControlMessage) → Quiet s (send_message w s m)
  unfolding send_message log fsm_act_close announce_down
  send_message-Quiet s m = record {
    ups_eq = ground arith;
    balance = λ h. ground arith;
    state_same = ground arith;
  }

  pub send_built-Quiet :
      (s : DynamicSession) (r : Result V2ControlMessage)
      → IfOk (λ x. Quiet s x.0) (send_built w s r)
  unfolding send_built
  send_built-Quiet s (ok m) = send_message-Quiet s m
  send_built-Quiet s (err e) = set_result-Quiet s s.result
  send_built-Quiet s (panic p) = tt
  send_built-Quiet s stuck = tt

  pub fsm_act_send_icrq-Quiet : (s : DynamicSession) → IfOk (Quiet s) (fsm_act_send_icrq w s)
  unfolding fsm_act_send_icrq
  fsm_act_send_icrq-Quiet s =
      let m = new_v2_icrq s.call_serial w.parent.peer_tunnel_id s.cfg in
      IfOk-bind (Quiet s) (send_built w s m) (or_close (λ t. t)) (
        IfOk-map (λ x. Quiet s x.0) (λ x. IfOk (Quiet s) (or_close (λ t. t) x)) (send_built w s m)
          (or_close-Quiet s) (send_built-Quiet s m))

  pub fsm_act_send_cdn-Quiet :
      (args : List Arg) (s : DynamicSession) → IfOk (Quiet s) (fsm_act_send_cdn w args s)
  unfolding fsm_act_send_cdn
  fsm_act_send_cdn-Quiet args s =
      let rc = fsm_args_to_cdn_result w.render args in
      let t = record s { result = set_reason s.result rc } in
      let m = new_v2_cdn w.parent.peer_tunnel_id rc t.cfg in
      IfOk-bind (Quiet s) (send_built w t m) (λ r. ok (fsm_act_close r.0))
        (IfOk-map (λ x. Quiet t x.0) (λ x. Quiet s (fsm_act_close x.0)) (send_built w t m)
          (λ x q.
            Quiet-trans s t (fsm_act_close x.0) (set_result-Quiet s t.result)
              (Quiet-trans t x.0 (fsm_act_close x.0) q (fsm_act_close-Quiet x.0)))
          (send_built-Quiet t m))
