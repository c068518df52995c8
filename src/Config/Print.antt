-- ===== src/Config/Print.antt =====
-- config/config.go: the tables of TOML that describe configurations, independently of the loader: some
-- of the keys, in any order, each with the value that the configuration gives it.
use go_l2tp_debian.Prelude.{ℕ, ◌/◌, List, [], ◌∷◌, ◌==◌, if◌then◌else◌}
use go_l2tp_debian.Prelude.Int.{pos}
use go_l2tp_debian.Prelude.Bytes.{Bytes}
use go_l2tp_debian.Prelude.Text.{text}
use go_l2tp_debian.Config.Types.{
  Value, int64, bool, string, array, table, Values, nil, cons, Table, end, entry, SessionConfig,
  TunnelConfig, pseudowire_type_ppp, pseudowire_type_eth, protocol_version_2, encap_type_udp,
  l2spec_type_none,
}

abbrev pub number : ℕ → Value
number n = int64 (pos n)

abbrev pub byte_values : Bytes → Values
byte_values [] = nil
byte_values (b ∷ bs) = cons (number b) (byte_values bs)

abbrev pub pseudowire_name : ℕ → Bytes
pseudowire_name t =
    if t == pseudowire_type_ppp
    then text "ppp"
    else if t == pseudowire_type_eth
    then text "eth"
    else text "pppac"

abbrev pub version_name : ℕ → Bytes
version_name v = if v == protocol_version_2 then text "l2tpv2" else text "l2tpv3"

abbrev pub encap_name : ℕ → Bytes
encap_name e = if e == encap_type_udp then text "udp" else text "ip"

abbrev pub l2spec_name : ℕ → Bytes
l2spec_name t = if t == l2spec_type_none then text "none" else text "default"

abbrev pub cap_values : ℕ → Values
cap_values fc =
    if fc == 0
    then nil
    else if fc == 1
    then cons (string (text "sync")) nil
    else if fc == 2
    then cons (string (text "async")) nil
    else cons (string (text "sync")) (cons (string (text "async")) nil)

pub data SessionKey : Type 0 where
  sid psid pseudowire seqnum reorder_timeout cookie peer_cookie interface_name l2spec_type :
      SessionKey
  pppoe_session_id pppoe_peer_mac : SessionKey

abbrev pub session_key_name : SessionKey → Bytes
session_key_name sid = text "sid"
session_key_name psid = text "psid"
session_key_name pseudowire = text "pseudowire"
session_key_name seqnum = text "seqnum"
session_key_name reorder_timeout = text "reorder_timeout"
session_key_name cookie = text "cookie"
session_key_name peer_cookie = text "peer_cookie"
session_key_name interface_name = text "interface_name"
session_key_name l2spec_type = text "l2spec_type"
session_key_name pppoe_session_id = text "pppoe_session_id"
session_key_name pppoe_peer_mac = text "pppoe_peer_mac"

abbrev pub session_value : SessionConfig → SessionKey → Value
session_value c sid = number c.session_id
session_value c psid = number c.peer_session_id
session_value c pseudowire = string (pseudowire_name c.pseudowire)
session_value c seqnum = bool c.seq_num
session_value c reorder_timeout = number (c.reorder_timeout / 1000000)
session_value c cookie = array (byte_values c.cookie)
session_value c peer_cookie = array (byte_values c.peer_cookie)
session_value c interface_name = string c.interface_name
session_value c l2spec_type = string (l2spec_name c.l2spec_type)
session_value c pppoe_session_id = number c.pppoe_session_id
session_value c pppoe_peer_mac = array (byte_values c.pppoe_peer_mac)

abbrev pub session_table : SessionConfig → List SessionKey → Table
session_table c [] = end
session_table c (k ∷ ks) = entry (session_key_name k) (session_value c k) (session_table c ks)

-- a session with its keys in the file
pub record SessionTree : Type 0 where
  pub name : Bytes
  pub keys : List SessionKey
  pub config : SessionConfig

abbrev pub sessions_table : List SessionTree → Table
sessions_table [] = end
sessions_table (x ∷ xs) = entry x.name (table (session_table x.config x.keys)) (sessions_table xs)

pub data TunnelKey : Type 0 where
  local peer encap version tid ptid window_size hello_timeout retry_timeout : TunnelKey
  max_retries host_name framing_caps sessions : TunnelKey

-- a tunnel with its keys in the file, and its sessions
pub record TunnelTree : Type 0 where
  pub name : Bytes
  pub keys : List TunnelKey
  pub config : TunnelConfig
  pub children : List SessionTree

abbrev pub tunnel_key_name : TunnelKey → Bytes
tunnel_key_name local = text "local"
tunnel_key_name peer = text "peer"
tunnel_key_name encap = text "encap"
tunnel_key_name version = text "version"
tunnel_key_name tid = text "tid"
tunnel_key_name ptid = text "ptid"
tunnel_key_name window_size = text "window_size"
tunnel_key_name hello_timeout = text "hello_timeout"
tunnel_key_name retry_timeout = text "retry_timeout"
tunnel_key_name max_retries = text "max_retries"
tunnel_key_name host_name = text "host_name"
tunnel_key_name framing_caps = text "framing_caps"
tunnel_key_name sessions = text "session"

abbrev pub tunnel_value : TunnelTree → TunnelKey → Value
tunnel_value t local = string t.config.local
tunnel_value t peer = string t.config.peer
tunnel_value t encap = string (encap_name t.config.encap)
tunnel_value t version = string (version_name t.config.version)
tunnel_value t tid = number t.config.tunnel_id
tunnel_value t ptid = number t.config.peer_tunnel_id
tunnel_value t window_size = number t.config.window_size
tunnel_value t hello_timeout = number (t.config.hello_timeout / 1000000)
tunnel_value t retry_timeout = number (t.config.retry_timeout / 1000000)
tunnel_value t max_retries = number t.config.max_retries
tunnel_value t host_name = string t.config.host_name
tunnel_value t framing_caps = array (cap_values t.config.framing_caps)
tunnel_value t sessions = table (sessions_table t.children)

abbrev pub tunnel_table : TunnelTree → List TunnelKey → Table
tunnel_table t [] = end
tunnel_table t (k ∷ ks) = entry (tunnel_key_name k) (tunnel_value t k) (tunnel_table t ks)

abbrev pub tunnels_table : List TunnelTree → Table
tunnels_table [] = end
tunnels_table (t ∷ ts) = entry t.name (table (tunnel_table t t.keys)) (tunnels_table ts)
