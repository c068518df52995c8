-- ===== src/Dynamic/Tunnel/Quiet.antt =====
-- The callbacks that announce nothing.
use go_l2tp_debian.Prelude.{
  ◌≡◌, arith, refl, ◌∙◌, Bool, true, false, Option, none, some, List, ◌∷◌, length,
}
use go_l2tp_debian.Prelude.Result.{
  Result, ok, err, panic, stuck, IfOk, IfOk-bind, IfOk-map, IfOk-then, IfOk-test,
}
use go_l2tp_debian.Msg.Message.{V2ControlMessage, v2, validate}
use go_l2tp_debian.Msg.Build.{new_v2_sccrq, new_v2_stopccn}
use go_l2tp_debian.Context.Links.{Entry, Links, link_session as link}
use go_l2tp_debian.Dynamic.Args.{
  Arg, fsm_args_to_stopccn_result, fsm_args_to_v2_msg_from, fsm_args_to_session,
}
use go_l2tp_debian.Dynamic.Tunnel.State.{
  TunnelAction, sent, not_sent, forwarded, no_such_session, session_told, waited, DynamicTunnel,
}
use go_l2tp_debian.Dynamic.Tunnel.Act.{
  TunnelWorld, log, fsm_act_close, fsm_act_link_session, fsm_act_start_session, forward_to,
  fsm_act_forward_session_msg, fsm_act_on_stopccn, or_close, send_valid, send_built,
  fsm_act_send_sccrq, fsm_act_send_stopccn,
}
use go_l2tp_debian.Dynamic.Tunnel.Counts.{
  ups, downs, closes, Quiet, Quiet-trans, same-Quiet, fsm_act_close-Quiet,
}

-- an action that counts for nothing
pub log-Quiet :
    (t : DynamicTunnel) (a : TunnelAction)
    → (ups (a ∷ t.trace) ≡ ups t.trace)
      × (downs (a ∷ t.trace) ≡ downs t.trace)
      × (closes (a ∷ t.trace) ≡ closes t.trace)
    → Quiet t (log t a)
unfolding log
log-Quiet t a (u, d, c) = record {
  ups_eq = u;
  balance = λ h. omega (arith, h, u, d);
  state_same = refl;
  down_kept = λ h. h;
  closes_kept = λ h. c ∙ h;
}

pub close_after-Quiet : (s t : DynamicTunnel) → Quiet s t → Quiet s (fsm_act_close t)
close_after-Quiet s t q = Quiet-trans s t (fsm_act_close t) q (fsm_act_close-Quiet t)

pub fsm_act_on_stopccn-Quiet : (t : DynamicTunnel) → Quiet t (fsm_act_on_stopccn t)
unfolding fsm_act_on_stopccn
fsm_act_on_stopccn-Quiet t =
    close_after-Quiet t (log t waited) (log-Quiet t waited (refl, refl, refl))

linked-Quiet : (t : DynamicTunnel) (l : Links) → Quiet t (record t { sessions = l })
linked-Quiet t l = record {
  ups_eq = refl;
  balance = λ h. h;
  state_same = refl;
  down_kept = λ h. h;
  closes_kept = λ h. h;
}

pub fsm_act_link_session-Quiet :
    (args : List Arg) (t : DynamicTunnel) → IfOk (Quiet t) (fsm_act_link_session args t)
unfolding fsm_act_link_session
fsm_act_link_session-Quiet args t =
    IfOk-then (Quiet t) (fsm_args_to_session args) _ (λ e. linked-Quiet t (link e t.sessions))

pub fsm_act_start_session-Quiet :
    (args : List Arg) (t : DynamicTunnel) → IfOk (Quiet t) (fsm_act_start_session args t)
unfolding fsm_act_start_session
fsm_act_start_session-Quiet args t = IfOk-then (Quiet t) (fsm_args_to_session args) _ (λ e.
    let u = record t { sessions = link e t.sessions } in
    Quiet-trans t u (log u (session_told e)) (linked-Quiet t (link e t.sessions))
      (log-Quiet u (session_told e) (refl, refl, refl)))

forward_to-Quiet :
    (m : V2ControlMessage) (o : Option Entry) (t : DynamicTunnel) → Quiet t (forward_to m o t)
unfolding forward_to
forward_to-Quiet m (some e) t = log-Quiet t (forwarded e m) (refl, refl, refl)
forward_to-Quiet m none t = log-Quiet t (no_such_session m.header.sid) (refl, refl, refl)

pub fsm_act_forward_session_msg-Quiet :
    (args : List Arg) (t : DynamicTunnel) → IfOk (Quiet t) (fsm_act_forward_session_msg args t)
unfolding fsm_act_forward_session_msg
fsm_act_forward_session_msg-Quiet args t =
    IfOk-then (Quiet t) (fsm_args_to_v2_msg_from args) _ (λ m. forward_to-Quiet m _ t)

-- What sending does: when the message is sent, the tunnel was not closing.
pub record Sent (t : DynamicTunnel) (r : DynamicTunnel × Bool) : Type 0 where
  pub quiet : Quiet t r.0
  pub not_closing : r.1 ≡ true → r.0.is_closing ≡ false

module _ (w : TunnelWorld) where
  send_valid-Sent :
      (r : Result (Unit {0})) (m : V2ControlMessage) (t : DynamicTunnel)
      → IfOk (Sent t) (send_valid w r m t)
  unfolding send_valid log
  send_valid-Sent (ok u) m t =
      IfOk-test (Sent t) t.is_closing _ _ (λ h. tt)
        (λ c.
          IfOk-test (Sent t) (w.send_ok (length t.trace)) _ _
            (λ h. record { quiet = log-Quiet t (sent m) (refl, refl, refl); not_closing = λ k. c })
            (λ h. record {
              quiet = log-Quiet t (not_sent m) (refl, refl, refl);
              not_closing = λ k. c;
            }))
  send_valid-Sent (err e) m t = record { quiet = same-Quiet t; not_closing = λ k. cc }
  send_valid-Sent (panic p) m t = tt
  send_valid-Sent stuck m t = tt

  pub send_built-Sent :
      (r : Result V2ControlMessage) (t : DynamicTunnel) → IfOk (Sent t) (send_built w r t)
  unfolding send_built
  send_built-Sent (ok m) t = send_valid-Sent (validate (v2 m)) m t
  send_built-Sent (err e) t = record { quiet = same-Quiet t; not_closing = λ k. cc }
  send_built-Sent (panic p) t = tt
  send_built-Sent stuck t = tt

  or_close-Quiet :
      (t : DynamicTunnel) (r : DynamicTunnel × Bool) → Sent t r → IfOk (Quiet t) (or_close ok r)
  unfolding or_close
  or_close-Quiet t (u, true) s = s.quiet
  or_close-Quiet t (u, false) s = close_after-Quiet t u s.quiet

  pub fsm_act_send_sccrq-Quiet : (t : DynamicTunnel) → IfOk (Quiet t) (fsm_act_send_sccrq w t)
  unfolding fsm_act_send_sccrq
  fsm_act_send_sccrq-Quiet t =
      let r = send_built w (new_v2_sccrq t.cfg) t in
      IfOk-bind (Quiet t) r (or_close ok) (
        IfOk-map (Sent t) (λ x. IfOk (Quiet t) (or_close ok x)) r (or_close-Quiet t)
          (send_built-Sent (new_v2_sccrq t.cfg) t))

  pub fsm_act_send_stopccn-Quiet :
      (args : List Arg) (t : DynamicTunnel) → IfOk (Quiet t) (fsm_act_send_stopccn w args t)
  unfolding fsm_act_send_stopccn
  fsm_act_send_stopccn-Quiet args t =
      let m = new_v2_stopccn (fsm_args_to_stopccn_result w.render args) t.cfg in
      IfOk-bind (Quiet t) (send_built w m t) (λ r. ok (fsm_act_close r.0))
        (IfOk-map (Sent t) (λ x. Quiet t (fsm_act_close x.0)) (send_built w m t)
          (λ x s. close_after-Quiet t x.0 s.quiet) (send_built-Sent m t))
