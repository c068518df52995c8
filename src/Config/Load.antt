-- ===== src/Config/Load.antt =====
-- config/config.go: the loops over the tables of sessions, of tunnels, and of the whole file. The
-- custom parser is a parameter: a state, which the parser's calls change and nothing else does. Go
-- leaves open in which order `range` visits a map: a table holds the entries in the order of the visit,
-- and the order of the tunnels and of the sessions that are loaded is that of the visit.
use go_l2tp_debian.Prelude.{ℕ, false, List, [], ◌∷◌, ◌++◌, ◌==◌, length, if◌then◌else◌}
use go_l2tp_debian.Prelude.Result.{
  Result, ok, err, ◌>>=◌, map_ok, wrap, not_named, parameter_failed, session_failed, tunnel_failed,
  tunnels_failed, unrecognised_parameter,
}
use go_l2tp_debian.Prelude.Bytes.{Bytes}
use go_l2tp_debian.Prelude.Text.{text}
use go_l2tp_debian.Prelude.Eq.{same, bytes_eq}
use go_l2tp_debian.Config.Types.{
  Value, table, Table, end, entry, SessionConfig, TunnelConfig, NamedSession, NamedTunnel,
}
use go_l2tp_debian.Config.Convert.{
  to_bool, to_uint16, to_string, to_duration_ms, to_version, to_framing_caps, to_encap_type,
  to_pseudowire_type, to_l2spec_type, to_ccid, to_bytes,
}

-- `ConfigParser`, with the names of the tunnel and of the session
pub record ConfigParser : Type 1 where
  pub State : Type 0
  pub parse_parameter : Bytes → Value → State → Result State
  pub parse_tunnel_parameter : Bytes → Bytes → Value → State → Result State
  pub parse_session_parameter : Bytes → Bytes → Bytes → Value → State → Result State

abbrev pub nil_custom_parser : ConfigParser
nil_custom_parser = record {
  State = Unit {0};
  parse_parameter = λ key v s. err unrecognised_parameter;
  parse_tunnel_parameter = λ tunnel key v s. err unrecognised_parameter;
  parse_session_parameter = λ tunnel session key v s. err unrecognised_parameter;
}

-- the zero value of `l2tp.SessionConfig`
abbrev pub zero_session_config : SessionConfig
zero_session_config = record {
  session_id = 0;
  peer_session_id = 0;
  pseudowire = 0;
  seq_num = false;
  reorder_timeout = 0;
  cookie = [];
  peer_cookie = [];
  interface_name = [];
  l2spec_type = 0;
  pppoe_session_id = 0;
  pppoe_peer_mac = 0 ∷ 0 ∷ 0 ∷ 0 ∷ 0 ∷ 0 ∷ [];
}

-- the configuration of a new tunnel, which names both framings
abbrev pub zero_tunnel_config : TunnelConfig
zero_tunnel_config = record {
  local = [];
  peer = [];
  encap = 0;
  version = 0;
  tunnel_id = 0;
  peer_tunnel_id = 0;
  window_size = 0;
  hello_timeout = 0;
  retry_timeout = 0;
  max_retries = 0;
  host_name = [];
  framing_caps = 3;
}

-- `Config`, less the custom parser
pub record LoadedConfig : Type 0 where
  pub whole_map : Table
  pub tunnels : List NamedTunnel

-- The error of the conversion, and that of the length, are those of an `err` of the case's own, which
-- the test behind the switch does not read.
unfoldable pub set_pppoe_peer_mac : Result Bytes → SessionConfig → SessionConfig
set_pppoe_peer_mac (ok mac) c = if length mac == 6 then record c { pppoe_peer_mac = mac } else c
set_pppoe_peer_mac _ c = c

-- here too
unfoldable pub set_max_retries : Result ℕ → TunnelConfig → TunnelConfig
set_max_retries (ok u) c = record c { max_retries = u }
set_max_retries _ c = c

-- the cases of the switch that are not the default
pub data Switch (C : Type 0) : Type 0 where
  known : Result C → Switch C
  unknown : Switch C

unfoldable pub session_switch : Bytes → Value → SessionConfig → Switch SessionConfig
unfolding to_bool to_uint16 to_string to_duration_ms to_pseudowire_type to_l2spec_type to_ccid
    to_bytes set_pppoe_peer_mac
session_switch k v c =
    if same k (text "sid")
    then known (map_ok (λ x. record c { session_id = x }) (to_ccid v))
    else if same k (text "psid")
    then known (map_ok (λ x. record c { peer_session_id = x }) (to_ccid v))
    else if same k (text "pseudowire")
    then known (map_ok (λ x. record c { pseudowire = x }) (to_pseudowire_type v))
    else if same k (text "seqnum")
    then known (map_ok (λ x. record c { seq_num = x }) (to_bool v))
    else if same k (text "reorder_timeout")
    then known (map_ok (λ x. record c { reorder_timeout = x }) (to_duration_ms v))
    else if same k (text "cookie")
    then known (map_ok (λ x. record c { cookie = x }) (to_bytes v))
    else if same k (text "peer_cookie")
    then known (map_ok (λ x. record c { peer_cookie = x }) (to_bytes v))
    else if same k (text "interface_name")
    then known (map_ok (λ x. record c { interface_name = x }) (to_string v))
    else if same k (text "l2spec_type")
    then known (map_ok (λ x. record c { l2spec_type = x }) (to_l2spec_type v))
    else if same k (text "pppoe_session_id")
    then known (map_ok (λ x. record c { pppoe_session_id = x }) (to_uint16 v))
    else if same k (text "pppoe_peer_mac")
    then known (ok (set_pppoe_peer_mac (to_bytes v) c))
    else unknown

-- all of the switch but the sessions and the default
unfoldable pub tunnel_switch : Bytes → Value → TunnelConfig → Switch TunnelConfig
unfolding to_uint16 to_string to_duration_ms to_version to_framing_caps to_encap_type to_ccid
    set_max_retries
tunnel_switch k v c =
    if same k (text "local")
    then known (map_ok (λ x. record c { local = x }) (to_string v))
    else if same k (text "peer")
    then known (map_ok (λ x. record c { peer = x }) (to_string v))
    else if same k (text "encap")
    then known (map_ok (λ x. record c { encap = x }) (to_encap_type v))
    else if same k (text "version")
    then known (map_ok (λ x. record c { version = x }) (to_version v))
    else if same k (text "tid")
    then known (map_ok (λ x. record c { tunnel_id = x }) (to_ccid v))
    else if same k (text "ptid")
    then known (map_ok (λ x. record c { peer_tunnel_id = x }) (to_ccid v))
    else if same k (text "window_size")
    then known (map_ok (λ x. record c { window_size = x }) (to_uint16 v))
    else if same k (text "hello_timeout")
    then known (map_ok (λ x. record c { hello_timeout = x }) (to_duration_ms v))
    else if same k (text "retry_timeout")
    then known (map_ok (λ x. record c { retry_timeout = x }) (to_duration_ms v))
    else if same k (text "max_retries")
    then known (ok (set_max_retries (to_uint16 v) c))
    else if same k (text "host_name")
    then known (map_ok (λ x. record c { host_name = x }) (to_string v))
    else if same k (text "framing_caps")
    then known (map_ok (λ x. record c { framing_caps = x }) (to_framing_caps v))
    else unknown

module _ (p : ConfigParser) where
  open p use {State, parse_parameter, parse_tunnel_parameter, parse_session_parameter}

  -- one round of the loop over a session's table
  unfoldable pub on_session_switch :
      Bytes
      → Bytes
      → Bytes
      → Value
      → SessionConfig
      → State
      → Switch SessionConfig
      → Result (SessionConfig × State)
  on_session_switch tunnel name k v c s (known r) = map_ok (λ c'. (c', s)) r
  on_session_switch tunnel name k v c s unknown =
      map_ok (λ s'. (c, s')) (parse_session_parameter tunnel name k v s)

  unfoldable pub session_loop :
      Bytes → Bytes → Table → SessionConfig × State → Result (SessionConfig × State)
  unfolding session_switch on_session_switch
  session_loop tunnel name end (c, s) = ok (c, s)
  session_loop tunnel name (entry k v rest) (c, s) =
      wrap parameter_failed (on_session_switch tunnel name k v c s (session_switch k v c)) >>= λ cs.
      session_loop tunnel name rest cs

  unfoldable pub new_session_config : Bytes → Bytes → Table → State → Result (NamedSession × State)
  unfolding session_loop
  new_session_config tunnel name scfg s =
      map_ok (λ cs. (record { name = name; config = cs.0 }, cs.1))
        (session_loop tunnel name scfg (zero_session_config, s))

  -- the loop of `loadSessions`
  unfoldable pub sessions_loop : Bytes → Table → State → Result (List NamedSession × State)
  unfolding new_session_config
  sessions_loop tunnel end s = ok ([], s)
  sessions_loop tunnel (entry name (table smap) rest) s =
      wrap session_failed (new_session_config tunnel name smap s) >>= λ ns.
      map_ok (λ out. (ns.0 ∷ out.0, out.1)) (sessions_loop tunnel rest ns.1)
  sessions_loop tunnel (entry name _ rest) s = err not_named

  unfoldable pub load_sessions : Bytes → Value → State → Result (List NamedSession × State)
  unfolding sessions_loop
  load_sessions tunnel (table sessions) s = sessions_loop tunnel sessions s
  load_sessions tunnel _ s = err not_named

  unfoldable pub on_tunnel_switch :
      Bytes → Value → NamedTunnel → State → Switch TunnelConfig → Result (NamedTunnel × State)
  unfolding load_sessions
  on_tunnel_switch k v nt s (known r) = map_ok (λ c. (record nt { config = c }, s)) r
  on_tunnel_switch k v nt s unknown =
      if same k (text "session")
      then map_ok (λ out. (record nt { sessions = out.0 }, out.1)) (load_sessions nt.name v s)
      else map_ok (λ s'. (nt, s')) (parse_tunnel_parameter nt.name k v s)

  unfoldable pub tunnel_loop : Table → NamedTunnel × State → Result (NamedTunnel × State)
  unfolding tunnel_switch on_tunnel_switch
  tunnel_loop end (nt, s) = ok (nt, s)
  tunnel_loop (entry k v rest) (nt, s) =
      wrap parameter_failed (on_tunnel_switch k v nt s (tunnel_switch k v nt.config)) >>= λ ns.
      tunnel_loop rest ns

  unfoldable pub new_tunnel_config : Bytes → Table → State → Result (NamedTunnel × State)
  unfolding tunnel_loop
  new_tunnel_config name tcfg s =
      tunnel_loop tcfg (record { name = name; config = zero_tunnel_config; sessions = [] }, s)

  unfoldable pub load_tunnels : Table → State → Result (List NamedTunnel × State)
  unfolding new_tunnel_config
  load_tunnels end s = ok ([], s)
  load_tunnels (entry name (table tmap) rest) s =
      wrap tunnel_failed (new_tunnel_config name tmap s) >>= λ nt.
      map_ok (λ out. (nt.0 ∷ out.0, out.1)) (load_tunnels rest nt.1)
  load_tunnels (entry name _ rest) s = err not_named

  -- the value of the key `tunnel`, with the tunnels so far
  unfoldable pub tunnels_of : Value → List NamedTunnel × State → Result (List NamedTunnel × State)
  unfolding load_tunnels
  tunnels_of (table end) (ts, s) = err not_named
  tunnels_of (table (entry k v rest)) (ts, s) =
      map_ok (λ out. (ts ++ out.0, out.1)) (wrap tunnels_failed (load_tunnels (entry k v rest) s))
  tunnels_of _ (ts, s) = err not_named

  -- the loop of `newConfig`
  unfoldable pub config_loop : Table → List NamedTunnel × State → Result (List NamedTunnel × State)
  unfolding tunnels_of
  config_loop end (ts, s) = ok (ts, s)
  config_loop (entry k v rest) (ts, s) =
      (if same k (text "tunnel")
        then tunnels_of v (ts, s)
        else map_ok (λ s'. (ts, s')) (parse_parameter k v s))
      >>= λ out. config_loop rest out

  unfoldable pub new_config : Table → State → Result (LoadedConfig × State)
  unfolding config_loop
  new_config tree s =
      map_ok (λ out. (record { whole_map = tree; tunnels = out.0 }, out.1))
        (config_loop tree ([], s))
