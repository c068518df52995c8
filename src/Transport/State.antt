-- ===== src/Transport/State.antt =====
-- l2tp/transport.go: the state of a transport. A message for transmission is shared by the queues
-- and by its retry timer, so the queues hold identifiers and the messages stand in a store. What
-- the transport does to its surroundings is kept in order: the messages written to the socket, the
-- calls of `onComplete`, and the messages handed to the receiver's channel. Whether the socket takes
-- the n-th write is a parameter.
use go_l2tp_debian.Prelude.{
  ℕ, ◌*◌, ◌^◌, ◌%◌, Bool, true, false, Option, List, [], ◌∷◌, ◌++◌, ltb, ◌==◌, if◌then◌else◌,
}
use go_l2tp_debian.Prelude.Int.{ℤ, pos, sub_ℕ}
use go_l2tp_debian.Prelude.Result.{Result, Error, ok, err, nil_control_plane}
use go_l2tp_debian.Avp.MsgTypes.{avp_msg_type_ack}
use go_l2tp_debian.Msg.Message.{ControlMessage, get_type}
use go_l2tp_debian.Transport.SlowStart.{SlowStart, new_slow_start}

-- `xmitMsg`, less its channel; `is_hello` says which function `onComplete` is
pub record XmitMsg : Type 0 where
  pub msg : ControlMessage
  pub nretries : ℕ
  pub is_complete : Bool
  pub retry_timer : Bool
  pub is_hello : Bool

-- `transportConfig`; a duration is its number of nanoseconds
pub record TransportConfig : Type 0 where
  pub hello_timeout : ℕ
  pub tx_window_size : ℕ
  pub max_retries : ℕ
  pub retry_timeout : ℕ
  pub ack_timeout : ℕ
  pub is_version3 : Bool
  pub peer_control_conn_id : ℕ

-- `transport`; a timer is whether it runs
pub record Transport : Type 0 where
  pub slow_start : SlowStart
  pub config : TransportConfig
  pub hello_timer : Bool
  pub ack_timer : Bool
  pub hello_in_flight : Bool
  pub rx_queue : List ControlMessage
  pub tx_queue : List ℕ
  pub ack_queue : List ℕ
  pub store : ℕ → XmitMsg
  pub next_id : ℕ
  pub writes : ℕ
  pub wire : List ControlMessage
  pub completed : List (ℕ × Option Error)
  pub delivered : List ControlMessage

abbrev pub put : (ℕ → XmitMsg) → ℕ → XmitMsg → ℕ → XmitMsg
put store id m j = if j == id then m else store j

abbrev pub default_transport_config : TransportConfig
default_transport_config = record {
  hello_timeout = 0;
  tx_window_size = 4;
  max_retries = 3;
  retry_timeout = 1000000000;
  ack_timeout = 100000000;
  is_version3 = true;
  peer_control_conn_id = 0;
}

-- a value of zero is replaced; a uint16 is never above 65535
unfoldable pub sanitise_config : TransportConfig → TransportConfig
sanitise_config cfg = record cfg {
  tx_window_size =
      if cfg.tx_window_size == 0
      then default_transport_config.tx_window_size
      else if ltb 65535 cfg.tx_window_size
      then default_transport_config.tx_window_size
      else cfg.tx_window_size;
  retry_timeout =
      if cfg.retry_timeout == 0 then default_transport_config.retry_timeout else cfg.retry_timeout;
  ack_timeout =
      if cfg.ack_timeout == 0 then default_transport_config.ack_timeout else cfg.ack_timeout;
  max_retries =
      if cfg.max_retries == 0 then default_transport_config.max_retries else cfg.max_retries;
}

-- A message whose type cannot be told panics in Go. Every message on a send path has passed
-- `validate`, or is built by the transport, so the type is known there.
unfoldable pub is_ack : ControlMessage → Bool
is_ack m = elim (get_type m) [ ok t ↦ t == avp_msg_type_ack | _ ↦ false ]

-- an int64, which wraps around
unfoldable pub scale_retry_timeout : TransportConfig → XmitMsg → ℤ
scale_retry_timeout cfg m =
    let word = cfg.retry_timeout * 2 ^ m.nretries % 2 ^ 64 in
    if ltb word (2 ^ 63) then pos word else sub_ℕ word (2 ^ 64)

unfoldable pub toggle_ack_timer : Transport → Bool → Transport
toggle_ack_timer t enable = record t { ack_timer = enable }

unfoldable pub reset_hello_timer : Transport → Transport
reset_hello_timer t = if ltb 0 t.config.hello_timeout then record t { hello_timer = true } else t

-- the transport of `newTransport`; the first two arguments are the message store before any message,
-- and the configuration that is asked for
unfoldable pub started_transport : (ℕ → XmitMsg) → TransportConfig → Transport
unfolding sanitise_config new_slow_start reset_hello_timer
started_transport store cfg =
    let c = sanitise_config cfg in
    reset_hello_timer (record {
      slow_start = new_slow_start c.tx_window_size;
      config = c;
      hello_timer = false;
      ack_timer = false;
      hello_in_flight = false;
      rx_queue = [];
      tx_queue = [];
      ack_queue = [];
      store = store;
      next_id = 0;
      writes = 0;
      wire = [];
      completed = [];
      delivered = [];
    })

-- whether there is a control plane is the first argument
unfoldable pub new_transport : Bool → (ℕ → XmitMsg) → TransportConfig → Result Transport
unfolding started_transport
new_transport has_control_plane store cfg =
    if has_control_plane then ok (started_transport store cfg) else err nil_control_plane

-- `txComplete`: `onComplete` is called the first time only
unfoldable pub tx_complete : Transport → ℕ → Option Error → Transport
tx_complete t id e =
    let m = t.store id in
    let done = record t {
      store = put t.store id (record m { is_complete = true; retry_timer = false });
      completed = t.completed ++ (id, e) ∷ [];
      hello_in_flight = if m.is_hello then false else t.hello_in_flight;
    } in
    if m.is_complete then t else done
