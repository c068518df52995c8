-- ===== src/Transport/Complete.antt =====
-- Completing a message: its `onComplete` is called once, and going down completes what is queued.
use go_l2tp_debian.Prelude.{
  ℕ, ◌≤◌, ◌<◌, ◌≡◌, refl, subst, ◌∙◌, arith, Bool, true, false, Option, some, List, [], ◌∷◌, All,
  if◌then◌else◌,
}
use go_l2tp_debian.Prelude.Result.{Error}
use go_l2tp_debian.Transport.State.{
  TransportConfig, Transport, toggle_ack_timer, tx_complete, sanitise_config,
}
use go_l2tp_debian.Transport.Events.{flush, down}

-- A message that is completed stays so when another, or the same, is completed.
is_complete-tx_complete :
    (t : Transport) (id j : ℕ) (e : Option Error)
    → (t.store j).is_complete ≡ true
    → ((tx_complete t id e).store j).is_complete ≡ true
unfolding tx_complete
is_complete-tx_complete t id j e h = ground arith

completes :
    (t : Transport) (id : ℕ) (e : Option Error) → ((tx_complete t id e).store id).is_complete ≡ true
unfolding tx_complete
completes t id e = ground arith

if_true : {A : Type 0} (b : Bool) (x y : A) → b ≡ true → (if b then x else y) ≡ x
if_true true x y h = refl
if_true false x y h = ground arith

tx_complete_done :
    (t : Transport) (id : ℕ) (e : Option Error)
    → (t.store id).is_complete ≡ true
    → tx_complete t id e ≡ t
unfolding tx_complete
tx_complete_done t id e h = if_true (t.store id).is_complete _ _ h

-- The first completion of a message counts: a second one, with whatever result, changes nothing.
pub tx_complete-twice :
    (t : Transport) (id : ℕ) (e f : Option Error)
    → tx_complete (tx_complete t id e) id f ≡ tx_complete t id e
tx_complete-twice t id e f = tx_complete_done (tx_complete t id e) id f (completes t id e)

queues-tx_complete :
    (t : Transport) (id : ℕ) (e : Option Error)
    → ((tx_complete t id e).tx_queue ≡ t.tx_queue) × ((tx_complete t id e).ack_queue ≡ t.ack_queue)
unfolding tx_complete
queues-tx_complete t id e = (ground arith, ground arith)

queues-flush :
    (ids : List ℕ) (t : Transport) (e : Error)
    → ((flush ids t e).tx_queue ≡ t.tx_queue) × ((flush ids t e).ack_queue ≡ t.ack_queue)
unfolding flush
queues-flush [] t e = (refl, refl)
queues-flush (id ∷ ids) t e =
    let (tx, ack) = queues-flush ids (tx_complete t id (some e)) e in
    let (tx1, ack1) = queues-tx_complete t id (some e) in (tx ∙ tx1, ack ∙ ack1)

is_complete-flush :
    (ids : List ℕ) (t : Transport) (e : Error) (j : ℕ)
    → (t.store j).is_complete ≡ true
    → ((flush ids t e).store j).is_complete ≡ true
unfolding flush
is_complete-flush [] t e j h = h
is_complete-flush (id ∷ ids) t e j h =
    is_complete-flush ids (tx_complete t id (some e)) e j
      (is_complete-tx_complete t id j (some e) h)

-- the messages of `ids` are complete in `t`
abbrev pub AllComplete : Transport → List ℕ → Type 0
AllComplete t ids = All (λ id. (t.store id).is_complete ≡ true) ids

AllComplete-flush : (ids : List ℕ) (t : Transport) (e : Error) → AllComplete (flush ids t e) ids
unfolding flush
AllComplete-flush [] t e = tt
AllComplete-flush (id ∷ ids) t e =
    let u = tx_complete t id (some e) in
    (is_complete-flush ids u e id (completes t id (some e)), AllComplete-flush ids u e)

AllComplete-flush_more :
    (ids js : List ℕ) (t : Transport) (e : Error)
    → AllComplete t ids
    → AllComplete (flush js t e) ids
AllComplete-flush_more [] js t e a = tt
AllComplete-flush_more (id ∷ ids) js t e (h, a) =
    (is_complete-flush js t e id h, AllComplete-flush_more ids js t e a)

-- When the transport goes down, both of the sender's queues are emptied, every message that stood in
-- one of them is completed, and no timer of the transport runs.
pub down-AllComplete :
    (t : Transport) (e : Error)
    → ((down t e).tx_queue ≡ [])
      × ((down t e).ack_queue ≡ [])
      × AllComplete (down t e) t.tx_queue
      × AllComplete (down t e) t.ack_queue
      × ((down t e).hello_timer ≡ false)
      × ((down t e).ack_timer ≡ false)
unfolding down toggle_ack_timer
down-AllComplete t e =
    let t0 = record t { tx_queue = [] } in
    let u = flush t.tx_queue t0 e in
    let u0 = record u { ack_queue = [] } in
    let w = flush u.ack_queue u0 e in
    let qu = queues-flush t.tx_queue t0 e in
    let qw = queues-flush u.ack_queue u0 e in
    (
      qw.0 ∙ qu.0,
      qw.1,
      AllComplete-flush_more t.tx_queue u.ack_queue u0 e (AllComplete-flush t.tx_queue t0 e),
      subst (AllComplete w) qu.1 (AllComplete-flush u.ack_queue u0 e),
      refl,
      refl,
    )

-- Sanitising leaves no zero where a zero would mean that nothing is ever sent or retried, keeps the
-- window in 16 bits, and a second time changes nothing.
pub sanitise_config_lem :
    (cfg : TransportConfig)
    → (1 ≤ (sanitise_config cfg).tx_window_size)
      × ((sanitise_config cfg).tx_window_size < 65536)
      × (1 ≤ (sanitise_config cfg).max_retries)
      × (1 ≤ (sanitise_config cfg).retry_timeout)
      × (1 ≤ (sanitise_config cfg).ack_timeout)
      × (sanitise_config (sanitise_config cfg) ≡ sanitise_config cfg)
unfolding sanitise_config
sanitise_config_lem cfg =
    (ground arith, ground arith, ground arith, ground arith, ground arith, ground arith)
