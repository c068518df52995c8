-- ===== src/Dynamic/Tunnel/Up.antt =====
-- The steps that announce a tunnel as up.
use go_l2tp_debian.Prelude.{ℕ, ◌≡◌, arith, refl, subst, sym, ◌∙◌, Bool, true, false, List, []}
use go_l2tp_debian.Prelude.Result.{Result, ok, err, panic, stuck, IfOk, IfOk-bind, IfOk-map}
use go_l2tp_debian.Msg.Build.{TunnelConfig, new_v2_scccn}
use go_l2tp_debian.Context.Links.{all_sessions}
use go_l2tp_debian.Dynamic.Args.{Arg}
use go_l2tp_debian.Dynamic.Tunnel.State.{
  connected, data_plane_up, data_plane_failed, session_told, DynamicTunnel, tunnel_state_eq,
  tunnel_event_eq,
}
use go_l2tp_debian.Dynamic.Tunnel.Act.{
  TunnelWorld, log, or_close, announce_up, send_built, with_data_plane, start_data_plane,
  on_tunnel_id,
}
use go_l2tp_debian.Dynamic.Tunnel.Counts.{
  is_waiting, Kept, Quiet, Quiet-Kept, log_each-Uncounted, fsm_act_close-Quiet,
}
use go_l2tp_debian.Dynamic.Tunnel.Quiet.{Sent, log-Quiet, send_built-Sent}
use go_l2tp_debian.Dynamic.Tunnel.Moves.{Ready}

Quiet-Ready : (s t : DynamicTunnel) → Quiet s t → Ready s → Ready t
Quiet-Ready s t q a = record {
  kept = Quiet-Kept s t q a.kept;
  zero = q.ups_eq ∙ a.zero;
  moved = subst (λ x. is_waiting x ≡ false) (sym q.state_same) a.moved;
}

announce_up-Kept : (t : DynamicTunnel) → Ready t → t.is_closing ≡ false → Kept (announce_up t)
unfolding announce_up log
announce_up-Kept t a not_closing =
    let u =
      log_each-Uncounted session_told (λ e l. (refl, refl, refl)) (all_sessions t.sessions.by_name)
        t in
    let k = a.kept in
    record {
      pairs = omega (arith, u.ups_eq, u.downs_eq, k.pairs, a.zero);
      once = omega (arith, u.ups_eq, a.zero);
      none_yet = λ h. cc (h, u.state_eq, a.moved);
      closed_down = λ h. cc (h, u.closing_eq, not_closing);
      closed_once = cc (u.closes_eq, u.closing_eq, k.closed_once);
    }

-- fields that the counts do not read
with_cfg : (t : DynamicTunnel) (cfg : TunnelConfig) → Ready t → Ready (record t { cfg = cfg })
with_cfg t cfg a =
    let k = a.kept in
    record {
      kept = record {
        pairs = k.pairs;
        once = k.once;
        none_yet = k.none_yet;
        closed_down = k.closed_down;
        closed_once = k.closed_once;
      };
      zero = a.zero;
      moved = a.moved;
    }

with_dp : (t : DynamicTunnel) → Ready t → Ready (record t { has_dp = true })
with_dp t a =
    let k = a.kept in
    record {
      kept = record {
        pairs = k.pairs;
        once = k.once;
        none_yet = k.none_yet;
        closed_down = k.closed_down;
        closed_once = k.closed_once;
      };
      zero = a.zero;
      moved = a.moved;
    }

module _ (w : TunnelWorld) where
  module _ (again : List Arg → DynamicTunnel → Result DynamicTunnel)
      (again-Kept : (args : List Arg) (t : DynamicTunnel) → Kept t → IfOk Kept (again args t)) where
    with_data_plane-Kept :
        (b : Bool) (t : DynamicTunnel)
        → Ready t
        → t.is_closing ≡ false
        → IfOk Kept (with_data_plane w again b t)
    unfolding with_data_plane log
    with_data_plane-Kept true t a c =
        let u : DynamicTunnel = record (log t data_plane_up) { has_dp = true } in
        let q = log-Quiet t data_plane_up (refl, refl, refl) in
        let r = Quiet-Ready t (log t data_plane_up) q a in
        announce_up-Kept u (with_dp (log t data_plane_up) r) c
    with_data_plane-Kept false t a c =
        again-Kept _ (log t data_plane_failed)
          (Quiet-Kept t _ (log-Quiet t data_plane_failed (refl, refl, refl)) a.kept)

    start_built-Kept :
        (s : DynamicTunnel) (r : DynamicTunnel × Bool)
        → Ready s
        → Sent s r
        → IfOk Kept (or_close (start_data_plane w again) r)
    unfolding or_close start_data_plane
    start_built-Kept s (t, true) a sent_it =
        with_data_plane-Kept _ t (Quiet-Ready s t sent_it.quiet a) (sent_it.not_closing refl)
    start_built-Kept s (t, false) a sent_it =
        Quiet-Kept t _ (fsm_act_close-Quiet t) (Quiet-Kept s t sent_it.quiet a.kept)

    pub on_tunnel_id-Kept :
        (t : DynamicTunnel) (r : Result ℕ) → Ready t → IfOk Kept (on_tunnel_id w again t r)
    unfolding on_tunnel_id
    on_tunnel_id-Kept t (ok ptid) a =
        let cfg : TunnelConfig = record (t.cfg) { peer_tunnel_id = ptid } in
        let t0 : DynamicTunnel = record t { cfg = cfg } in
        let t1 = log t0 connected in
        let r1 = Quiet-Ready t0 t1 (log-Quiet t0 connected (refl, refl, refl)) (with_cfg t cfg a) in
        IfOk-bind Kept (send_built w (new_v2_scccn cfg) t1) (or_close (start_data_plane w again)) (
          IfOk-map (Sent t1) (λ x. IfOk Kept (or_close (start_data_plane w again) x))
            (send_built w (new_v2_scccn cfg) t1) (λ x s. start_built-Kept t1 x r1 s)
            (send_built-Sent w (new_v2_scccn cfg) t1))
    on_tunnel_id-Kept t (err e) a = again-Kept [] t a.kept
    on_tunnel_id-Kept t (panic p) a = tt
    on_tunnel_id-Kept t stuck a = tt
