-- ===== src/Dynamic/Session/Icrp.antt =====
-- What an ICRP does to a session that waits for it.
use go_l2tp_debian.Prelude.{
  ℕ, ◌≡◌, arith, refl, ap, subst, sym, ◌∙◌, Bool, true, false, not, ◌&&◌, some, List, [], ◌∷◌,
  length, if◌then◌else◌,
}
use go_l2tp_debian.Prelude.Result.{Result, ok, stuck, ◌>>=◌}
use go_l2tp_debian.Prelude.Bytes.{Bytes}
use go_l2tp_debian.Fsm
use go_l2tp_debian.Avp.Types.{avp_type_session_id}
use go_l2tp_debian.Avp.Info.{vendor_id_ietf}
use go_l2tp_debian.Avp.Find.{find_uint16_avp}
use go_l2tp_debian.Msg.Message.{V2ControlMessage}
use go_l2tp_debian.Msg.Build.{new_v2_iccn}
use go_l2tp_debian.Dynamic.Args.{Arg, message, fsm_args_to_v2_msg}
use go_l2tp_debian.Dynamic.Session.State.{
  waitreply, established, icrp, close, on_icrp, data_plane_up, DynamicSession, session_table,
  state_eq, event_eq,
}
use go_l2tp_debian.Dynamic.Session.Act.{
  Surroundings, log, announce_down, announce_up, fsm_act_close, with_name, name_interface,
  with_data_plane, start_data_plane, send_message, send_built, or_close, on_session_id,
  fsm_act_on_icrp, run_act,
}
use go_l2tp_debian.Dynamic.Session.Step.{run_cb, on_transition, handle_with, handle_event}

-- surroundings that always answer the same
pub record Answers (w : Surroundings) (send new found : Bool) : Type 0 where
  pub sends : (n : ℕ) → w.send_ok n ≡ send
  pub makes : (n : ℕ) → w.new_session_ok n ≡ new
  pub finds : (n : ℕ) → (w.interface_name n).0 ≡ found

-- the session is established where the data plane is, and closed where anything failed
pub record Outcome (send new found : Bool) (t : DynamicSession) : Type 0 where
  pub up : t.is_established ≡ new
  pub closed : t.is_closed ≡ not (send && new && found)

send_closes :
    (w : Surroundings) (send : Bool) (s : DynamicSession) (m : V2ControlMessage)
    → ((n : ℕ) → w.send_ok n ≡ send)
    → s.is_closed ≡ false
    → s.is_established ≡ false
    → ((send_message w s m).is_closed ≡ not send) × ((send_message w s m).is_established ≡ false)
unfolding send_message fsm_act_close announce_down log
send_closes w send s m h c e = ground (arith, h (length s.trace))

with_name-closes :
    (s : DynamicSession) (x : Bool × Bytes)
    → ((with_name s x).is_closed ≡ (if x.0 then s.is_closed else true))
      × ((with_name s x).is_established ≡ true)
unfolding with_name fsm_act_close announce_up announce_down log
with_name-closes s (true, name) = (refl, refl)
with_name-closes s (false, name) = (refl, refl)

with_data_plane-Outcome :
    (w : Surroundings) (send new found : Bool) (s : DynamicSession)
    → Answers w send new found
    → s.is_closed ≡ not send
    → s.is_established ≡ false
    → Outcome send new found (with_data_plane w s new)
unfolding with_data_plane name_interface fsm_act_close announce_down log
with_data_plane-Outcome w send true found s a c e =
    let u : DynamicSession = record (log s data_plane_up) { has_dp = true } in
    let (x, y) = with_name-closes u (w.interface_name (length u.trace)) in
    record { up = y; closed = ground (arith, x, a.finds (length u.trace), c) }
with_data_plane-Outcome w send false found s a c e = record {
  up = ground (arith, e);
  closed = ground arith;
}

icrp_taken :
    (s : DynamicSession)
    → s.state ≡ waitreply
    → Fsm.handle_event s.state session_table icrp ≡ ok (established, some on_icrp)
unfolding Fsm.handle_event Fsm.matches Fsm.has_event
icrp_taken s h = ap (λ st. Fsm.handle_event st session_table icrp) h

module _ (w : Surroundings) (m iccn : V2ControlMessage) (psid : ℕ) where
  on_session_id-built :
      (again : List Arg → DynamicSession → Result DynamicSession) (s : DynamicSession)
      → new_v2_iccn w.parent.peer_tunnel_id (record (s.cfg) { peer_session_id = psid }) ≡ ok iccn
      → on_session_id w again s (ok psid)
        ≡ ok (
            start_data_plane w
              (send_message w (record s { cfg = record (s.cfg) { peer_session_id = psid } }) iccn))
  unfolding on_session_id send_built or_close
  on_session_id-built again s built =
      let t : DynamicSession = record s { cfg = record (s.cfg) { peer_session_id = psid } } in
      ap (λ r. send_built w t r >>= or_close (start_data_plane w)) built

  on_icrp-built :
      (again : List Arg → DynamicSession → Result DynamicSession) (s : DynamicSession)
      → find_uint16_avp m.avps vendor_id_ietf avp_type_session_id ≡ ok psid
      → new_v2_iccn w.parent.peer_tunnel_id (record (s.cfg) { peer_session_id = psid }) ≡ ok iccn
      → fsm_act_on_icrp w again (message m ∷ []) s
        ≡ ok (
            start_data_plane w
              (send_message w (record s { cfg = record (s.cfg) { peer_session_id = psid } }) iccn))
  unfolding fsm_act_on_icrp fsm_args_to_v2_msg
  on_icrp-built again s found built =
      ap (on_session_id w again s) found ∙ on_session_id-built again s built

  handle_event-built :
      (s : DynamicSession)
      → s.state ≡ waitreply
      → find_uint16_avp m.avps vendor_id_ietf avp_type_session_id ≡ ok psid
      → new_v2_iccn w.parent.peer_tunnel_id (record (s.cfg) { peer_session_id = psid }) ≡ ok iccn
      → handle_event w icrp (message m ∷ []) s
        ≡ ok (
            start_data_plane w (
              send_message w
                (record s { state = established; cfg = record (s.cfg) { peer_session_id = psid } })
                iccn))
  unfolding handle_event handle_with on_transition run_cb run_act
  handle_event-built s waits found built =
      let again = handle_with w (λ args t. stuck) close in
      ap (on_transition w again (message m ∷ []) s) (icrp_taken s waits)
      ∙ on_icrp-built again (record s { state = established }) found built

  -- A session that waits for an ICRP, is neither closed nor established, gets one with a session ID,
  -- and can build its ICCN: where the surroundings always answer the same, it ends up established
  -- exactly if the data plane's session is made, and closed exactly if the sending, the making of
  -- the session or the search for the interface's name fails.
  pub handle_event-icrp :
      (send new found : Bool) (s : DynamicSession)
      → Answers w send new found
      → s.state ≡ waitreply
      → s.is_closed ≡ false
      → s.is_established ≡ false
      → find_uint16_avp m.avps vendor_id_ietf avp_type_session_id ≡ ok psid
      → new_v2_iccn w.parent.peer_tunnel_id (record (s.cfg) { peer_session_id = psid }) ≡ ok iccn
      → (t : DynamicSession) × (handle_event w icrp (message m ∷ []) s ≡ ok t)
        × Outcome send new found t
  unfolding start_data_plane
  handle_event-icrp send new found s a waits closed down psid_found built =
      let u : DynamicSession = record s {
        state = established;
        cfg = record (s.cfg) { peer_session_id = psid };
      } in
      let (c, e) = send_closes w send u iccn a.sends closed down in
      let v = send_message w u iccn in
      (
        start_data_plane w v,
        handle_event-built s waits psid_found built,
        subst (λ b. Outcome send new found (with_data_plane w v b)) (sym (a.makes (length v.trace)))
            (with_data_plane-Outcome w send new found v a c e),
      )
