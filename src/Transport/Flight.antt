-- ===== src/Transport/Flight.antt =====
-- The sender's accounts: how many messages are in flight, and that they fit the peer's window.
use go_l2tp_debian.Prelude.{
  ℕ, suc, ◌≤◌, ◌<◌, ◌≡◌, inl, inr, sym, subst, ◌∙◌, ap, arith, Bool, true, Option, none, some, List,
  [], ◌∷◌, ◌++◌, length, length-append, Bool-cases,
}
use go_l2tp_debian.Prelude.Result.{Error}
use go_l2tp_debian.Transport.SlowStart.{can_send, on_send, on_ack, increment_ns}
use go_l2tp_debian.Transport.Window.{InWindow, on_send-InWindow, on_ack-InWindow}
use go_l2tp_debian.Transport.State.{Transport, toggle_ack_timer, reset_hello_timer, tx_complete}
use go_l2tp_debian.Transport.Send.{write_message, after_send, send_message, tx_on, process_tx_loop}
use go_l2tp_debian.Transport.Ack.{acks}
use go_l2tp_debian.Transport.AckOrder.{
  settle, settle_one, settle-reached, settle-behind, ack_queue-settle_one,
}

-- The count of messages in flight is the length of the queue of messages that wait for an
-- acknowledgement, and the peer's window bounds it.
pub record Sound (t : Transport) : Type 0 where
  pub some_window : 1 ≤ t.config.tx_window_size
  pub fits : t.config.tx_window_size < 65536
  pub in_window : InWindow t.config.tx_window_size t.slow_start
  pub in_flight : t.slow_start.ntx ≡ length t.ack_queue

-- what `Sound` looks at is the same in the two states
pub record SameFlight (t u : Transport) : Type 0 where
  pub window_eq : u.config.tx_window_size ≡ t.config.tx_window_size
  pub cwnd_eq : u.slow_start.cwnd ≡ t.slow_start.cwnd
  pub ntx_eq : u.slow_start.ntx ≡ t.slow_start.ntx
  pub nacks_eq : u.slow_start.nacks ≡ t.slow_start.nacks
  pub queue_eq : u.ack_queue ≡ t.ack_queue

pub SameFlight-Sound : {t u : Transport} → SameFlight t u → Sound t → Sound u
SameFlight-Sound {t} {u} same s = record {
  some_window = omega arith;
  fits = omega arith;
  in_window = ground arith;
  in_flight = same.ntx_eq ∙ s.in_flight ∙ ap length (sym same.queue_eq);
}

pub tx_complete-SameFlight :
    (t : Transport) (id : ℕ) (e : Option Error) → SameFlight t (tx_complete t id e)
unfolding tx_complete
tx_complete-SameFlight t id e = ground arith

-- a message at the head leaves the queue, and the flight
settle_one-Sound :
    (t : Transport) (id : ℕ) (ids : List ℕ)
    → t.ack_queue ≡ id ∷ ids
    → Sound t
    → Sound (settle_one t id ids)
unfolding settle_one on_ack
settle_one-Sound t id ids q s =
    let n : length t.ack_queue ≡ suc (length ids) = ap length q in
    let w = t.config.tx_window_size in
    let u : Transport = record t {
      slow_start = on_ack t.slow_start t.config.tx_window_size;
      ack_queue = ids;
    } in
    let sound : Sound u = record {
      some_window = s.some_window;
      fits = s.fits;
      in_window = on_ack-InWindow w s.some_window s.fits t.slow_start s.in_window;
      in_flight = ground (arith, n, s.in_flight);
    } in
    SameFlight-Sound (tx_complete-SameFlight u id none) sound

pub settle-Sound :
    (ids : List ℕ) (nr : ℕ) (t : Transport) → t.ack_queue ≡ ids → Sound t → Sound (settle nr ids t)
unfolding settle
settle-Sound [] nr t q s = s
settle-Sound (id ∷ ids) nr t q s = elim (Bool-cases (acks t nr id)) [
  | inl now ↦ subst Sound (sym (settle-reached nr id ids t now)) (
      settle-Sound ids nr (settle_one t id ids) (ack_queue-settle_one t id ids)
        (settle_one-Sound t id ids q s))
  | inr later ↦ subst Sound (sym (settle-behind nr id ids t later)) s
]

on_sent-Sound :
    (t : Transport) (id : ℕ)
    → Sound t
    → can_send t.slow_start ≡ true
    → Sound (record t { ack_queue = t.ack_queue ++ id ∷ []; slow_start = on_send t.slow_start })
unfolding on_send can_send
on_sent-Sound t id s c = record {
  some_window = s.some_window;
  fits = s.fits;
  in_window =
      on_send-InWindow t.config.tx_window_size s.some_window s.fits t.slow_start s.in_window c;
  in_flight = ground (arith, s.in_flight, length-append t.ack_queue (id ∷ []));
}

same_can_send :
    {t u : Transport} → SameFlight t u → can_send t.slow_start ≡ true → can_send u.slow_start ≡ true
unfolding can_send
same_can_send same c = ground arith

tx_on-Sound :
    (next : Transport → Transport × Option Error) (id : ℕ)
    → ((u : Transport) → Sound u → Sound (next u).0)
    → (r : Transport × Option Error) → Sound r.0
    → can_send r.0.slow_start ≡ true
    → Sound (tx_on next id r).0
unfolding tx_on
tx_on-Sound next id keeps (t, none) s c = keeps _ (on_sent-Sound t id s c)
tx_on-Sound next id keeps (t, some e) s c =
    SameFlight-Sound (tx_complete-SameFlight t id (some e)) s

module _ (accepts_write : ℕ → Bool) where
  pub send_message-SameFlight :
      (t : Transport) (id : ℕ) → SameFlight t (send_message accepts_write t id).0
  unfolding send_message write_message after_send increment_ns reset_hello_timer toggle_ack_timer
  send_message-SameFlight t id = ground arith

  pub process_tx_loop-Sound :
      (ids : List ℕ) (t : Transport) → Sound t → Sound (process_tx_loop accepts_write ids t).0
  unfolding process_tx_loop
  process_tx_loop-Sound [] t s = s
  process_tx_loop-Sound (id ∷ ids) t s =
      let u = record t { tx_queue = ids } in
      let same = send_message-SameFlight u id in
      let su : Sound u = record {
        some_window = s.some_window;
        fits = s.fits;
        in_window = s.in_window;
        in_flight = s.in_flight;
      } in
      elim (Bool-cases (can_send t.slow_start)) [
        | inl open_ ↦ rw open_ (
            tx_on-Sound (λ v. process_tx_loop accepts_write ids v) id (process_tx_loop-Sound ids)
              (send_message accepts_write u id) (SameFlight-Sound same su)
              (same_can_send same open_))
        | inr closed ↦ rw closed s
      ]
