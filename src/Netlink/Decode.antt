-- ===== src/Netlink/Decode.antt =====
-- internal/nll2tp/nll2tp.go: the information on a session. The accessors of the attribute decoder are
-- parameters: an accessor that fails stops the decoder.
use go_l2tp_debian.Prelude.{
  ℕ, Bool, false, not, Option, none, some, List, [], ◌∷◌, ◌==◌, if◌then◌else◌,
}
use go_l2tp_debian.Prelude.Result.{Result, ok, err, ◌>>=◌, map_ok, nil_config}
use go_l2tp_debian.Prelude.Bytes.{Bytes}
use go_l2tp_debian.Netlink.Attributes.{
  SessionConfig, attr_conn_id, attr_peer_conn_id, attr_session_id, attr_peer_session_id,
  attr_ifname, attr_cookie, attr_peer_cookie, attr_send_seq, attr_recv_seq, attr_lns_mode,
  attr_using_ipsec, attr_recv_timeout, attr_stats, attr_tx_packets, attr_tx_bytes, attr_tx_errors,
  attr_rx_packets, attr_rx_bytes, attr_rx_errors, attr_rx_seq_discards, attr_rx_oos_packets,
  cmd_session_get,
}
use go_l2tp_debian.Netlink.Conn.{Kernel, Conn, Exchange, Message, request, after, session_ids}

pub record SessionStatistics : Type 0 where
  pub tx_packet_count : ℕ
  pub tx_bytes : ℕ
  pub tx_error_count : ℕ
  pub rx_packet_count : ℕ
  pub rx_bytes : ℕ
  pub rx_error_count : ℕ
  pub rx_seq_discard_count : ℕ
  pub rx_oos_count : ℕ

pub record SessionInfo : Type 0 where
  pub tid : ℕ
  pub ptid : ℕ
  pub sid : ℕ
  pub psid : ℕ
  pub if_name : Bytes
  pub local_cookie : Bytes
  pub peer_cookie : Bytes
  pub send_seq : Bool
  pub recv_seq : Bool
  pub lns_mode : Bool
  pub using_ipsec : Bool
  pub reorder_timeout : ℕ
  pub statistics : SessionStatistics

abbrev pub zero_statistics : SessionStatistics
zero_statistics = record {
  tx_packet_count = 0;
  tx_bytes = 0;
  tx_error_count = 0;
  rx_packet_count = 0;
  rx_bytes = 0;
  rx_error_count = 0;
  rx_seq_discard_count = 0;
  rx_oos_count = 0;
}

abbrev pub zero_info : SessionInfo
zero_info = record {
  tid = 0;
  ptid = 0;
  sid = 0;
  psid = 0;
  if_name = [];
  local_cookie = [];
  peer_cookie = [];
  send_seq = false;
  recv_seq = false;
  lns_mode = false;
  using_ipsec = false;
  reorder_timeout = 0;
  statistics = zero_statistics;
}

-- `netlink.AttributeDecoder`: the attributes of a message, each with its type and data, and what the
-- accessors read of the data
pub record Decoder : Type 0 where
  pub attributes : Bytes → Result (List (ℕ × Bytes))
  pub uint8 : Bytes → Result ℕ
  pub uint32 : Bytes → Result ℕ
  pub uint64 : Bytes → Result ℕ
  pub string : Bytes → Result Bytes

module _ (d : Decoder) where
  -- one round of the loop of `decode`
  unfoldable pub decode_statistic : ℕ → Bytes → SessionStatistics → Result SessionStatistics
  decode_statistic typ b s =
      if typ == attr_tx_packets
      then map_ok (λ x. record s { tx_packet_count = x }) (d.uint64 b)
      else if typ == attr_tx_bytes
      then map_ok (λ x. record s { tx_bytes = x }) (d.uint64 b)
      else if typ == attr_tx_errors
      then map_ok (λ x. record s { tx_error_count = x }) (d.uint64 b)
      else if typ == attr_rx_packets
      then map_ok (λ x. record s { rx_packet_count = x }) (d.uint64 b)
      else if typ == attr_rx_bytes
      then map_ok (λ x. record s { rx_bytes = x }) (d.uint64 b)
      else if typ == attr_rx_errors
      then map_ok (λ x. record s { rx_error_count = x }) (d.uint64 b)
      else if typ == attr_rx_seq_discards
      then map_ok (λ x. record s { rx_seq_discard_count = x }) (d.uint64 b)
      else if typ == attr_rx_oos_packets
      then map_ok (λ x. record s { rx_oos_count = x }) (d.uint64 b)
      else ok s

  unfoldable pub decode_statistics : List (ℕ × Bytes) → SessionStatistics → Result SessionStatistics
  unfolding decode_statistic
  decode_statistics [] s = ok s
  decode_statistics ((typ, b) ∷ rest) s =
      decode_statistic typ b s >>= λ s'. decode_statistics rest s'

  -- `Nested`
  unfoldable pub nested_statistics : Bytes → SessionStatistics → Result SessionStatistics
  unfolding decode_statistics
  nested_statistics b s = d.attributes b >>= λ l. decode_statistics l s

  abbrev pub flag : Bytes → Result Bool
  flag b = map_ok (λ x. not (x == 0)) (d.uint8 b)

  -- one round of the loop of `sessionInfo_decode`
  unfoldable pub decode_attribute : ℕ → Bytes → SessionInfo → Result SessionInfo
  unfolding nested_statistics
  decode_attribute typ b info =
      if typ == attr_conn_id
      then map_ok (λ x. record info { tid = x }) (d.uint32 b)
      else if typ == attr_peer_conn_id
      then map_ok (λ x. record info { ptid = x }) (d.uint32 b)
      else if typ == attr_session_id
      then map_ok (λ x. record info { sid = x }) (d.uint32 b)
      else if typ == attr_peer_session_id
      then map_ok (λ x. record info { psid = x }) (d.uint32 b)
      else if typ == attr_ifname
      then map_ok (λ x. record info { if_name = x }) (d.string b)
      else if typ == attr_cookie
      then ok (record info { local_cookie = b })
      else if typ == attr_peer_cookie
      then ok (record info { peer_cookie = b })
      else if typ == attr_send_seq
      then map_ok (λ x. record info { send_seq = x }) (flag b)
      else if typ == attr_recv_seq
      then map_ok (λ x. record info { recv_seq = x }) (flag b)
      else if typ == attr_lns_mode
      then map_ok (λ x. record info { lns_mode = x }) (flag b)
      else if typ == attr_using_ipsec
      then map_ok (λ x. record info { using_ipsec = x }) (flag b)
      else if typ == attr_recv_timeout
      then map_ok (λ x. record info { reorder_timeout = x }) (d.uint64 b)
      else if typ == attr_stats
      then map_ok (λ x. record info { statistics = x }) (nested_statistics b info.statistics)
      else ok info

  unfoldable pub decode_attributes : List (ℕ × Bytes) → SessionInfo → Result SessionInfo
  unfolding decode_attribute
  decode_attributes [] info = ok info
  decode_attributes ((typ, b) ∷ rest) info =
      decode_attribute typ b info >>= λ info'. decode_attributes rest info'

  unfoldable pub session_info_decode : Bytes → Result SessionInfo
  unfolding decode_attributes
  session_info_decode b = d.attributes b >>= λ l. decode_attributes l zero_info

  -- The loop of `GetSessionInfo` over the answer: of a message of the command, the attributes are taken
  -- apart, and dropped by a switch with no case.
  unfoldable pub read_messages : List Message → SessionInfo → Result SessionInfo
  read_messages [] info = ok info
  read_messages (m ∷ ms) info =
      let rest = read_messages ms info in
      if m.command == cmd_session_get then (d.attributes m.content >>= λ l. rest) else rest

  unfoldable pub get_session_info : Kernel → Option SessionConfig → Conn → Exchange SessionInfo
  unfolding request after read_messages
  get_session_info k none c = (err nil_config, c)
  get_session_info k (some config) c =
      after (λ ms. read_messages ms zero_info)
        (request k cmd_session_get false (session_ids config) c)
