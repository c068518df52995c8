-- ===== src/Kpppoed/Handlers.antt =====
-- cmd/kpppoed/kpppoed.go: what the daemon does on a discovery packet, and the closing of a session. A
-- handler returns its result with the state; `panic` is that of a goroutine too, which ends the
-- program.
use go_l2tp_debian.Prelude.{
  ℕ, zero, suc, ◌+◌, ◌%◌, Bool, true, false, Option, none, some, List, [], ◌∷◌, ◌==◌, ◌&&◌, length,
  if◌then◌else◌,
}
use go_l2tp_debian.Prelude.Result.{
  Result, Error, ok, err, panic, stuck, nil_dereference, write_failed, validate_failed,
  unavailable_service, session_space_exhausted, session_id_failed, spawn_failed,
  unrecognised_session, unexpected_packet, unhandled_code,
}
use go_l2tp_debian.Prelude.Bytes.{Bytes}
use go_l2tp_debian.Prelude.Text.{text}
use go_l2tp_debian.Prelude.Eq.{same, nat_eq, bytes_eq}
use go_l2tp_debian.Prelude.Maps.{Map, lookup, insert}
use go_l2tp_debian.Pppoe.Packet.{
  PppoeTag, PppoePacket, find_tag, validate, pppoe_code_padi, pppoe_code_pado, pppoe_code_padr,
  pppoe_code_pads, pppoe_code_padt, pppoe_tag_type_service_name, pppoe_tag_type_host_uniq,
  pppoe_tag_type_relay_session_id,
}
use go_l2tp_debian.Pppoe.Build.{
  add_tag, add_service_name_error_tag, add_generic_error_tag, new_pado, new_pads, new_padt,
}
use go_l2tp_debian.Kpppoed.State.{
  KpppoedConfig, PppoeSession, Effect, spawn, send, wait, terminate, Application, Outside,
}

abbrev pub Handled : Type 0
Handled = Result (Unit {0}) × Application

-- the session ID and the reason for an error, before PADS is made
pub record Answer : Type 0 where
  pub session_id : ℕ
  pub error_reason : Option Error

-- the loop over the configured services
unfoldable pub offers : List Bytes → Bytes → Bool
offers [] requested = false
offers (sn ∷ sns) requested = if same sn requested then true else offers sns requested

unfoldable pub map_service_name : KpppoedConfig → Bytes → Bytes × Option Error
unfolding offers
map_service_name config [] = ([], none)
map_service_name config (c ∷ cs) =
    (c ∷ cs, if offers config.services (c ∷ cs) then none else some unavailable_service)

-- the name that is returned with or without an error
unfoldable pub service_name_of_tag : KpppoedConfig → Result PppoeTag → Bytes × Option Error
unfolding map_service_name
service_name_of_tag config (ok tag) = map_service_name config tag.data_bytes
service_name_of_tag config (err e) = ([], some e)
service_name_of_tag config _ = ([], none)

unfoldable pub get_packet_service_name : KpppoedConfig → PppoePacket → Bytes × Option Error
unfolding find_tag service_name_of_tag
get_packet_service_name config pkt =
    service_name_of_tag config (find_tag pppoe_tag_type_service_name pkt.tags)

unfoldable pub echo_tag : ℕ → Result PppoeTag → PppoePacket → PppoePacket
unfolding add_tag
echo_tag typ (ok tag) out = add_tag typ tag.data_bytes out
echo_tag typ _ out = out

unfoldable pub append_echoed_tags : PppoePacket → PppoePacket → PppoePacket
unfolding find_tag echo_tag
append_echoed_tags pkt out =
    echo_tag pppoe_tag_type_relay_session_id (find_tag pppoe_tag_type_relay_session_id pkt.tags)
      (echo_tag pppoe_tag_type_host_uniq (find_tag pppoe_tag_type_host_uniq pkt.tags) out)

-- the body of the loop of `genSessionID`, with what the rest of the loop returns
unfoldable pub unless_session : ℕ → ℕ → Option PppoeSession → Result ℕ × ℕ → Result ℕ × ℕ
unless_session sid draws none rest = (ok sid, draws)
unless_session sid draws (some sess) rest = rest

-- the loop with so many tries left: the result, and the calls of `rand.Intn` made
unfoldable pub gen_loop : (ℕ → ℕ) → Map ℕ PppoeSession → ℕ → ℕ → Result ℕ × ℕ
unfolding lookup unless_session
gen_loop random sessions draws zero = (err session_space_exhausted, draws)
gen_loop random sessions draws (suc tries) =
    let rest = gen_loop random sessions (draws + 1) tries in
    let sid = 1 + random draws % 65534 in unless_session sid (draws + 1) (lookup sid sessions) rest

unfoldable pub gen_session_id : (ℕ → ℕ) → Application → Result ℕ × ℕ
unfolding gen_loop
gen_session_id random app = gen_loop random app.sessions app.draws 100

abbrev pub reason_shutdown : Bytes
reason_shutdown = text "application shutdown due to signal"

abbrev pub reason_exited : Bytes
reason_exited = text "l2tp daemon exited"

abbrev pub reason_down : Bytes
reason_down = text "l2tp session went down"

abbrev pub reason_padt : Bytes
reason_padt = text "peer sent PADT"

-- the generic error tag of a PADT, where there is a reason
unfoldable pub with_reason : Bytes → PppoePacket → PppoePacket
unfolding add_tag
with_reason [] padt = padt
with_reason (c ∷ cs) padt = add_generic_error_tag (c ∷ cs) padt

abbrev pub did : Effect → Application → Application
did e app = record app { trace = e ∷ app.trace }

abbrev pub mark_closed : PppoeSession → PppoeSession
mark_closed sess = record sess { is_open = false }

-- the goroutine that waits for the new session's daemon
unfoldable pub wait_for : Option ℕ → Application → Handled
wait_for none app = (panic nil_dereference, app)
wait_for (some daemon) app = (ok tt, did (wait daemon) app)

-- the goroutine that ends a session's daemon
unfoldable pub terminate_l2tpd : Option ℕ → Application → Handled
terminate_l2tpd none app = (panic nil_dereference, app)
terminate_l2tpd (some daemon) app = (ok tt, did (terminate daemon) app)

-- the session ID, or the reason that there is none
unfoldable pub answer_of : Result ℕ → Answer
answer_of (ok sid) = record { session_id = sid; error_reason = none }
answer_of (err e) = record { session_id = 0; error_reason = some (session_id_failed e) }
answer_of _ = record { session_id = 0; error_reason = none }

-- by whether `spawn` returned a daemon
unfoldable pub spawn_result : Bool → Answer → ℕ → Application → Answer × Option ℕ × Application
spawn_result true a daemon app = (a, some daemon, app)
spawn_result false a daemon app = (record a { error_reason = some spawn_failed }, none, app)

module _ (w : Outside) where
  -- by what `Validate` returns
  unfoldable pub send_validated : PppoePacket → Application → Result (Unit {0}) → Handled
  send_validated pkt app (ok u) =
      if app.conn_open && w.send_succeeds (length app.trace)
      then (ok tt, did (send pkt) app)
      else (err write_failed, app)
  send_validated pkt app (err e) = (err (validate_failed e), app)
  send_validated pkt app (panic p) = (panic p, app)
  send_validated pkt app stuck = (stuck, app)

  unfoldable pub send_packet : PppoePacket → Application → Handled
  unfolding validate send_validated
  send_packet pkt app = send_validated pkt app (validate pkt)

  unfoldable pub offer : PppoePacket → Application → Bytes × Option Error → Handled
  unfolding new_pado append_echoed_tags send_packet
  offer pkt app (name, some e) = (err e, app)
  offer pkt app (name, none) =
      let pado = new_pado w.hw_addr pkt.src_hw_addr name w.config.ac_name in
      send_packet (append_echoed_tags pkt pado) app

  unfoldable pub handle_padi : PppoePacket → Application → Handled
  unfolding get_packet_service_name offer
  handle_padi pkt app = offer pkt app (get_packet_service_name w.config pkt)

  -- `sessionID` and `errorReason` after the service name and `genSessionID`
  unfoldable pub choose_session_id : Application → Option Error → Answer × Application
  unfolding gen_session_id answer_of
  choose_session_id app (some e) = (record { session_id = 0; error_reason = some e }, app)
  choose_session_id app none =
      let (result, draws) = gen_session_id w.random app in
      (answer_of result, record app { draws = draws })

  abbrev pub spawn_for : PppoePacket → ℕ → Effect
  spawn_for pkt sid = spawn sid w.config.if_name pkt.src_hw_addr w.config.lns_ip_addr

  -- the call of `spawn`, `errorReason` after it, and the daemon
  unfoldable pub spawn_l2tpd : PppoePacket → Answer × Application → Answer × Option ℕ × Application
  unfolding spawn_result
  spawn_l2tpd pkt (a, app) =
      spawn_result (w.spawn_succeeds app.spawns) a app.spawns
        (did (spawn_for pkt a.session_id) (record app { spawns = app.spawns + 1 }))

  unfoldable pub with_error : Option Error → PppoePacket → PppoePacket
  unfolding add_tag
  with_error none pads = pads
  with_error (some e) pads = add_service_name_error_tag (w.message e) pads

  abbrev pub pads_for : PppoePacket → Bytes → Answer → PppoePacket
  pads_for pkt name a =
      with_error a.error_reason
        (append_echoed_tags pkt (new_pads w.hw_addr pkt.src_hw_addr name a.session_id))

  abbrev pub new_session : PppoePacket → ℕ → Option ℕ → PppoeSession
  new_session pkt sid daemon = record {
    is_open = true;
    l2tp_tid = 0;
    l2tp_sid = 0;
    sid = sid;
    peer_hw_addr = pkt.src_hw_addr;
    l2tpd = daemon;
  }

  -- by what `sendPacket` returns
  unfoldable pub keep_session : PppoePacket → ℕ → Option ℕ → Handled → Handled
  unfolding wait_for insert
  keep_session pkt sid daemon (ok u, app) =
      wait_for daemon
        (record app { sessions = insert sid (new_session pkt sid daemon) app.sessions })
  keep_session pkt sid daemon (r, app) = (r, app)

  unfoldable pub answer_padr : PppoePacket → Bytes → Answer × Option ℕ × Application → Handled
  unfolding send_packet keep_session append_echoed_tags new_pads with_error
  answer_padr pkt name (a, daemon, app) =
      keep_session pkt a.session_id daemon (send_packet (pads_for pkt name a) app)

  unfoldable pub handle_named_padr : PppoePacket → Application → Bytes × Option Error → Handled
  unfolding choose_session_id spawn_l2tpd answer_padr
  handle_named_padr pkt app (name, e) =
      answer_padr pkt name (spawn_l2tpd pkt (choose_session_id app e))

  unfoldable pub handle_padr : PppoePacket → Application → Handled
  unfolding get_packet_service_name handle_named_padr
  handle_padr pkt app = handle_named_padr pkt app (get_packet_service_name w.config pkt)

  unfoldable pub send_padt : PppoeSession → Bytes → Application → Handled
  unfolding new_padt with_reason send_packet
  send_padt sess reason app =
      send_packet (with_reason reason (new_padt w.hw_addr sess.peer_hw_addr sess.sid)) app

  -- with `sendPADT`, whose error is logged
  unfoldable pub tell_peer : Bool → PppoeSession → Bytes → Application → Application
  unfolding send_padt
  tell_peer true sess reason app = (send_padt sess reason app).1
  tell_peer false sess reason app = app

  unfoldable pub close_found : ℕ → Bytes → Bool → Application → Option PppoeSession → Handled
  unfolding insert tell_peer terminate_l2tpd
  close_found sid reason padt app none = (ok tt, app)
  close_found sid reason padt app (some sess) =
      if sess.is_open
      then terminate_l2tpd sess.l2tpd (
          tell_peer padt sess reason
            (record app { sessions = insert sid (mark_closed sess) app.sessions }))
      else (ok tt, app)

  unfoldable pub close_pppoe_session : ℕ → Bytes → Bool → Application → Handled
  unfolding lookup close_found
  close_pppoe_session sid reason padt app =
      close_found sid reason padt app (lookup sid app.sessions)

  unfoldable pub padt_found : ℕ → Application → Option PppoeSession → Handled
  unfolding close_pppoe_session
  padt_found sid app none = (err unrecognised_session, app)
  padt_found sid app (some sess) = close_pppoe_session sid reason_padt false app

  unfoldable pub handle_padt : PppoePacket → Application → Handled
  unfolding lookup padt_found
  handle_padt pkt app = padt_found pkt.session_id app (lookup pkt.session_id app.sessions)

  unfoldable pub handle_packet : PppoePacket → Application → Handled
  unfolding handle_padi handle_padr handle_padt
  handle_packet pkt app =
      if pkt.code == pppoe_code_padi
      then handle_padi pkt app
      else if pkt.code == pppoe_code_padr
      then handle_padr pkt app
      else if pkt.code == pppoe_code_padt
      then handle_padt pkt app
      else if pkt.code == pppoe_code_pado
      then (err unexpected_packet, app)
      else if pkt.code == pppoe_code_pads
      then (err unexpected_packet, app)
      else (err unhandled_code, app)
