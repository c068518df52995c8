-- ===== src/Kpppoed/Replies.antt =====
-- cmd/kpppoed/kpppoed.go: the packets that answer PADI and PADR, and what a refused PADR leaves.
use go_l2tp_debian.Prelude.{
  ℕ, zero, suc, ◌+◌, ◌<◌, ◌%◌, ◌≡◌, ◌≢◌, arith, refl, true, Option, none, some, List, [], ◌∷◌, ◌++◌,
  length, subst, sym, ap, ◌∙◌, append-nil, append_assoc,
}
use go_l2tp_debian.Prelude.Result.{Result, Error, ok, err, panic, stuck}
use go_l2tp_debian.Prelude.Bytes.{Bytes}
use go_l2tp_debian.Prelude.Eq.{nat_eq, bytes_eq}
use go_l2tp_debian.Prelude.Maps.{Map, lookup, insert}
use go_l2tp_debian.Pppoe.Packet.{
  PppoeTag, PppoePacket, find_tag, validate, check_mandatory_tag, pppoe_tag_type_service_name_error,
  pppoe_tag_type_host_uniq, pppoe_tag_type_relay_session_id,
}
use go_l2tp_debian.Pppoe.Build.{add_tag, new_pado, new_pads}
use go_l2tp_debian.Kpppoed.State.{PppoeSession, send, wait, Application, Outside}
use go_l2tp_debian.Kpppoed.Handlers.{
  Handled, unless_session, gen_loop, gen_session_id, answer_of, Answer, append_echoed_tags,
  echo_tag, with_error, pads_for, new_session, did, send_validated, send_packet, spawn_for,
  spawn_result, spawn_l2tpd, get_packet_service_name, choose_session_id, keep_session, wait_for,
  answer_padr, handle_named_padr, handle_padr,
}

-- the packet with more tags behind its own
abbrev extend : PppoePacket → List PppoeTag → PppoePacket
extend out rest = record out { tags = out.tags ++ rest }

-- the tag of such a type is found where one was added last
found_last :
    (typ : ℕ) (bytes : Bytes) (tags : List PppoeTag)
    → check_mandatory_tag (find_tag typ (tags ++ record { typ = typ; data_bytes = bytes } ∷ []))
      ≡ ok tt
unfolding find_tag check_mandatory_tag
found_last typ bytes [] = ground arith
found_last typ bytes (tag ∷ tags) = ground (arith, found_last typ bytes tags)

echo_tag-extend :
    (typ : ℕ) (r : Result PppoeTag) (out : PppoePacket)
    → (rest : List PppoeTag) × (echo_tag typ r out ≡ extend out rest)
unfolding echo_tag add_tag
echo_tag-extend typ (ok tag) out = (record { typ = typ; data_bytes = tag.data_bytes } ∷ [], refl)
echo_tag-extend typ (err e) out =
    ([], ap (λ ts. record out { tags = ts }) (sym (append-nil out.tags)))
echo_tag-extend typ (panic p) out =
    ([], ap (λ ts. record out { tags = ts }) (sym (append-nil out.tags)))
echo_tag-extend typ stuck out =
    ([], ap (λ ts. record out { tags = ts }) (sym (append-nil out.tags)))

append_echoed_tags-extend :
    (pkt out : PppoePacket)
    → (rest : List PppoeTag) × (append_echoed_tags pkt out ≡ extend out rest)
unfolding append_echoed_tags
append_echoed_tags-extend pkt out =
    let (a, ea) =
      echo_tag-extend pppoe_tag_type_host_uniq (find_tag pppoe_tag_type_host_uniq pkt.tags) out in
    let (b, eb) =
      echo_tag-extend pppoe_tag_type_relay_session_id
        (find_tag pppoe_tag_type_relay_session_id pkt.tags) (extend out a) in
    (
      a ++ b,
      ap
            (echo_tag pppoe_tag_type_relay_session_id
              (find_tag pppoe_tag_type_relay_session_id pkt.tags))
            ea
          ∙ eb
          ∙ ap (λ ts. record out { tags = ts }) (append_assoc out.tags a b),
    )

module _ (w : Outside) (pkt : PppoePacket) where
  pado-valid :
      (name : Bytes)
      → validate (append_echoed_tags pkt (new_pado w.hw_addr pkt.src_hw_addr name w.config.ac_name))
        ≡ ok tt
  unfolding validate new_pado add_tag
  pado-valid name =
      let out = new_pado w.hw_addr pkt.src_hw_addr name w.config.ac_name in
      let (rest, e) = append_echoed_tags-extend pkt out in
      subst (λ q. validate q ≡ ok tt) (sym e) (ground arith)

  pads-valid :
      (name : Bytes) (sid : ℕ) (reason : Option Error)
      → sid ≢ 0
      → validate (pads_for w pkt name (record { session_id = sid; error_reason = reason })) ≡ ok tt
  unfolding validate new_pads add_tag with_error
  pads-valid name zero reason h = absurd (h refl)
  pads-valid name (suc sid) none h =
      let (rest, e) =
        append_echoed_tags-extend pkt (new_pads w.hw_addr pkt.src_hw_addr name (suc sid)) in
      subst (λ q. validate q ≡ ok tt) (sym e) (ground arith)
  pads-valid name (suc sid) (some x) h =
      let (rest, e) =
        append_echoed_tags-extend pkt (new_pads w.hw_addr pkt.src_hw_addr name (suc sid)) in
      subst (λ q. validate (add_tag pppoe_tag_type_service_name_error (w.message x) q) ≡ ok tt)
        (sym e) (ground arith)

  -- the error tag makes up for the session ID
  pads-error-valid :
      (name : Bytes) (x : Error)
      → validate (pads_for w pkt name (record { session_id = 0; error_reason = some x })) ≡ ok tt
  unfolding validate new_pads add_tag with_error
  pads-error-valid name x =
      let out = new_pads w.hw_addr pkt.src_hw_addr name 0 in
      let (rest, e) = append_echoed_tags-extend pkt out in
      subst (λ q. validate (add_tag pppoe_tag_type_service_name_error (w.message x) q) ≡ ok tt)
        (sym e)
        (ground
          (arith, found_last pppoe_tag_type_service_name_error (w.message x) (out.tags ++ rest)))

module _ (w : Outside) where
  send_packet-taken :
      (pkt : PppoePacket) (app : Application)
      → validate pkt ≡ ok tt
      → app.conn_open ≡ true
      → w.send_succeeds (length app.trace) ≡ true
      → send_packet w pkt app ≡ (ok tt, did (send pkt) app)
  unfolding send_packet send_validated
  send_packet-taken pkt app valid opened takes = rw (valid, opened, takes)

  spawn_l2tpd-succeeds :
      (pkt : PppoePacket) (a : Answer) (app : Application)
      → w.spawn_succeeds app.spawns ≡ true
      → spawn_l2tpd w pkt (a, app) ≡ (
        a,
        some app.spawns,
        did (spawn_for w pkt a.session_id) (record app { spawns = app.spawns + 1 }),
      )
  unfolding spawn_l2tpd spawn_result
  spawn_l2tpd-succeeds pkt a app succeeds = rw succeeds

-- the state after a PADR was answered by this PADS, with a daemon
abbrev pub with_session : Outside → PppoePacket → Bytes → Answer → Application → Application
with_session w pkt name a app = record app {
  sessions = insert a.session_id (new_session w pkt a.session_id (some app.spawns)) app.sessions;
  trace = wait app.spawns ∷ send (pads_for w pkt name a) ∷ spawn_for w pkt a.session_id ∷ app.trace;
  spawns = app.spawns + 1;
}

-- A PADR whose service name is refused, where spawn returns a daemon and the open connection takes
-- the packet: a PADS with session ID 0 and the error is sent, and yet a daemon is spawned, waited
-- for, and recorded with an open session under ID 0, in place of a session that stood there.
pub handle_padr-refused :
    (w : Outside) (pkt : PppoePacket) (app : Application) (name : Bytes) (e : Error)
    → get_packet_service_name w.config pkt ≡ (name, some e)
    → app.conn_open ≡ true
    → w.spawn_succeeds app.spawns ≡ true
    → w.send_succeeds (suc (length app.trace)) ≡ true
    → handle_padr w pkt app
      ≡ (ok tt, with_session w pkt name (record { session_id = 0; error_reason = some e }) app)
unfolding handle_padr handle_named_padr choose_session_id answer_padr keep_session wait_for
handle_padr-refused w pkt app name e refused opened succeeds takes =
    let a : Answer = record { session_id = 0; error_reason = some e } in
    rw (
      refused,
      spawn_l2tpd-succeeds w pkt a app succeeds,
      send_packet-taken w (pads_for w pkt name a)
          (did (spawn_for w pkt 0) (record app { spawns = app.spawns + 1 }))
          (pads-error-valid w pkt name e) opened takes,
    )

-- a session ID of 16 bits that no session has
pub record FreshId (sid : ℕ) (sessions : Map ℕ PppoeSession) : Type 0 where
  pub unused : lookup sid sessions ≡ none
  pub above : 0 < sid
  pub below : sid < 65535

unless_session-fresh :
    (x draws : ℕ) (sessions : Map ℕ PppoeSession) (found : Option PppoeSession)
    (rest : Result ℕ × ℕ) (sid n : ℕ)
    → lookup x sessions ≡ found
    → 0 < x
    → x < 65535
    → (rest ≡ (ok sid, n) → FreshId sid sessions)
    → unless_session x draws found rest ≡ (ok sid, n)
    → FreshId sid sessions
unfolding unless_session
unless_session-fresh x draws sessions none rest sid n free above below later got =
    subst (λ y. FreshId y sessions) (cc) (record { unused = free; above = above; below = below })
unless_session-fresh x draws sessions (some sess) rest sid n free above below later got = later got

gen_loop-FreshId :
    (random : ℕ → ℕ) (sessions : Map ℕ PppoeSession) (draws tries sid n : ℕ)
    → gen_loop random sessions draws tries ≡ (ok sid, n)
    → FreshId sid sessions
unfolding gen_loop
gen_loop-FreshId random sessions draws zero sid n got = cc
gen_loop-FreshId random sessions draws (suc tries) sid n got =
    let x = 1 + random draws % 65534 in
    unless_session-fresh x (draws + 1) sessions (lookup x sessions)
      (gen_loop random sessions (draws + 1) tries) sid n refl (omega arith) (omega arith)
      (gen_loop-FreshId random sessions (draws + 1) tries sid n) got

-- the outcome of an accepted PADR
pub record Accepted (w : Outside) (pkt : PppoePacket) (name : Bytes) (sid draws : ℕ)
    (app : Application) (h : Handled) : Type 0 where
  pub fresh : FreshId sid app.sessions
  pub outcome : h ≡ (
    ok tt,
    with_session w pkt name
        (record { session_id = sid; error_reason = none })
        (record app { draws = draws }),
  )

-- A PADR whose service name is accepted, where genSessionID returns an ID, spawn a daemon, and the
-- open connection takes the packet: the ID is above 0, below 65535 and no session's. A PADS with it
-- is sent, an open session is recorded under it with the daemon, and the daemon is waited for;
-- nothing else changes but the counts of draws and of spawns.
pub handle_padr-Accepted :
    (w : Outside) (pkt : PppoePacket) (app : Application) (name : Bytes) (sid draws : ℕ)
    → get_packet_service_name w.config pkt ≡ (name, none)
    → gen_session_id w.random app ≡ (ok sid, draws)
    → app.conn_open ≡ true
    → w.spawn_succeeds app.spawns ≡ true
    → w.send_succeeds (suc (length app.trace)) ≡ true
    → Accepted w pkt name sid draws app (handle_padr w pkt app)
unfolding handle_padr handle_named_padr choose_session_id answer_padr keep_session wait_for
    gen_session_id answer_of
handle_padr-Accepted w pkt app name sid draws accepted got opened succeeds takes =
    let fresh = gen_loop-FreshId w.random app.sessions app.draws 100 sid draws got in
    let a : Answer = record { session_id = sid; error_reason = none } in
    let drawn = record app { draws = draws } in
    record {
      fresh = fresh;
      outcome = rw (
        accepted,
        got,
        spawn_l2tpd-succeeds w pkt a drawn succeeds,
        send_packet-taken w (pads_for w pkt name a)
            (did (spawn_for w pkt sid) (record drawn { spawns = app.spawns + 1 }))
            (pads-valid w pkt name sid none (λ z. ground (arith, fresh.above))) opened takes,
      );
    }
