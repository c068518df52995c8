-- ===== src/Config/RoundTrip.antt =====
-- config/config.go: loading the tables that describe configurations.
use go_l2tp_debian.Prelude.{◌<◌, ◌≡◌, ◌⊎◌, refl, ap, ◌∙◌, List, [], ◌∷◌, length, All}
use go_l2tp_debian.Prelude.Result.{ok}
use go_l2tp_debian.Prelude.Bytes.{Bytes, IsByte, IsU16, IsU32}
use go_l2tp_debian.Prelude.Text.{text}
use go_l2tp_debian.Config.Types.{
  table, Table, end, entry, SessionConfig, NamedTunnel, pseudowire_type_ppp, pseudowire_type_eth,
  pseudowire_type_pppac, protocol_version_2, protocol_version_3, encap_type_udp, encap_type_ip,
  l2spec_type_none, l2spec_type_default,
}
use go_l2tp_debian.Config.Convert.{to_bool, to_string}
use go_l2tp_debian.Config.Load.{
  ConfigParser, zero_session_config, zero_tunnel_config, known, set_pppoe_peer_mac, set_max_retries,
  session_switch, tunnel_switch, on_session_switch, session_loop, new_session_config, sessions_loop,
  load_sessions, on_tunnel_switch, tunnel_loop, new_tunnel_config, load_tunnels, tunnels_of,
  config_loop, new_config,
}
use go_l2tp_debian.Config.Print.{
  SessionKey, SessionTree, TunnelKey, TunnelTree, session_key_name, session_value, session_table,
  sessions_table, tunnel_key_name, tunnel_value, tunnel_table, tunnels_table, sid, psid, pseudowire,
  seqnum, reorder_timeout, cookie, peer_cookie, interface_name, l2spec_type, pppoe_session_id,
  pppoe_peer_mac, local, peer, encap, version, tid, ptid, window_size, hello_timeout, retry_timeout,
  max_retries, host_name, framing_caps, sessions,
}
use go_l2tp_debian.Config.Chosen.{
  chosen_session, chosen_named, said_sessions, said_tunnels, chosen_session-step, chosen_named-step,
}
use go_l2tp_debian.Config.Printed.{
  to_ccid-number, to_uint16-number, to_duration_ms-number, to_bytes-values, to_pseudowire_type-name,
  to_l2spec_type-name, to_version-name, to_encap_type-name, to_framing_caps-values, IsMs,
}

-- the value that a key of the table stands for has the size of its field
abbrev FitsKey : SessionConfig → SessionKey → Type 0
FitsKey c sid = IsU32 c.session_id
FitsKey c psid = IsU32 c.peer_session_id
FitsKey c pseudowire =
    (c.pseudowire ≡ pseudowire_type_ppp)
    ⊎ ((c.pseudowire ≡ pseudowire_type_eth) ⊎ (c.pseudowire ≡ pseudowire_type_pppac))
FitsKey c seqnum = Unit {0}
FitsKey c reorder_timeout = IsMs c.reorder_timeout
FitsKey c cookie = All IsByte c.cookie
FitsKey c peer_cookie = All IsByte c.peer_cookie
FitsKey c interface_name = Unit {0}
FitsKey c l2spec_type = (c.l2spec_type ≡ l2spec_type_none) ⊎ (c.l2spec_type ≡ l2spec_type_default)
FitsKey c pppoe_session_id = IsU16 c.pppoe_session_id
FitsKey c pppoe_peer_mac = All IsByte c.pppoe_peer_mac × (length c.pppoe_peer_mac ≡ 6)

abbrev pub FitsSession : SessionTree → Type 0
FitsSession x = All (FitsKey x.config) x.keys

abbrev FitsTunnelKey : TunnelTree → TunnelKey → Type 0
FitsTunnelKey t local = Unit {0}
FitsTunnelKey t peer = Unit {0}
FitsTunnelKey t encap = (t.config.encap ≡ encap_type_udp) ⊎ (t.config.encap ≡ encap_type_ip)
FitsTunnelKey t version =
    (t.config.version ≡ protocol_version_2) ⊎ (t.config.version ≡ protocol_version_3)
FitsTunnelKey t tid = IsU32 t.config.tunnel_id
FitsTunnelKey t ptid = IsU32 t.config.peer_tunnel_id
FitsTunnelKey t window_size = IsU16 t.config.window_size
FitsTunnelKey t hello_timeout = IsMs t.config.hello_timeout
FitsTunnelKey t retry_timeout = IsMs t.config.retry_timeout
FitsTunnelKey t max_retries = IsU16 t.config.max_retries
FitsTunnelKey t host_name = Unit {0}
FitsTunnelKey t framing_caps = t.config.framing_caps < 4
FitsTunnelKey t sessions = All FitsSession t.children

abbrev pub FitsTunnel : TunnelTree → Type 0
FitsTunnel t = All (FitsTunnelKey t) t.keys

session_switch-key :
    (k : SessionKey) (c old : SessionConfig)
    → FitsKey c k
    → session_switch (session_key_name k) (session_value c k) old
      ≡ known (ok (chosen_session (k ∷ []) c old))
unfolding session_switch to_bool to_string set_pppoe_peer_mac
session_switch-key sid c old f = rw (to_ccid-number c.session_id f)
session_switch-key psid c old f = rw (to_ccid-number c.peer_session_id f)
session_switch-key pseudowire c old f = rw (to_pseudowire_type-name c.pseudowire f)
session_switch-key seqnum c old f = refl
session_switch-key reorder_timeout c old f = rw (to_duration_ms-number c.reorder_timeout f)
session_switch-key cookie c old f = rw (to_bytes-values c.cookie f)
session_switch-key peer_cookie c old f = rw (to_bytes-values c.peer_cookie f)
session_switch-key interface_name c old f = refl
session_switch-key l2spec_type c old f = rw (to_l2spec_type-name c.l2spec_type f)
session_switch-key pppoe_session_id c old f = rw (to_uint16-number c.pppoe_session_id f)
session_switch-key pppoe_peer_mac c old (f, six) = rw (to_bytes-values c.pppoe_peer_mac f, six)

module _ (p : ConfigParser) where
  open p use {State}

  session_loop-table :
      (tunnel name : Bytes) (ks : List SessionKey) (c old : SessionConfig) (s : State)
      → All (FitsKey c) ks
      → session_loop p tunnel name (session_table c ks) (old, s) ≡ ok (chosen_session ks c old, s)
  unfolding session_loop on_session_switch
  session_loop-table tunnel name [] c old s f = refl
  session_loop-table tunnel name (k ∷ ks) c old s (f, fs) =
      rw (session_switch-key k c old f)
        (session_loop-table tunnel name ks c (chosen_session (k ∷ []) c old) s fs)
      ∙ ap (λ x. ok (x, s)) (chosen_session-step k ks c old)

  sessions_loop-table :
      (tunnel : Bytes) (xs : List SessionTree) (s : State)
      → All FitsSession xs
      → sessions_loop p tunnel (sessions_table xs) s ≡ ok (said_sessions xs, s)
  unfolding sessions_loop new_session_config
  sessions_loop-table tunnel [] s f = refl
  sessions_loop-table tunnel (x ∷ xs) s (f, fs) = rw (
    session_loop-table tunnel x.name x.keys x.config zero_session_config s f,
    sessions_loop-table tunnel xs s fs,
  )

  tunnel_key-step :
      (k : TunnelKey) (t : TunnelTree) (old : NamedTunnel) (s : State)
      → FitsTunnelKey t k
      → on_tunnel_switch p
          (tunnel_key_name k)
          (tunnel_value t k)
          old
          s
          (tunnel_switch (tunnel_key_name k) (tunnel_value t k) old.config)
        ≡ ok (chosen_named (k ∷ []) t old, s)
  unfolding on_tunnel_switch tunnel_switch to_string set_max_retries load_sessions
  tunnel_key-step local t old s f = refl
  tunnel_key-step peer t old s f = refl
  tunnel_key-step encap t old s f = rw (to_encap_type-name t.config.encap f)
  tunnel_key-step version t old s f = rw (to_version-name t.config.version f)
  tunnel_key-step tid t old s f = rw (to_ccid-number t.config.tunnel_id f)
  tunnel_key-step ptid t old s f = rw (to_ccid-number t.config.peer_tunnel_id f)
  tunnel_key-step window_size t old s f = rw (to_uint16-number t.config.window_size f)
  tunnel_key-step hello_timeout t old s f = rw (to_duration_ms-number t.config.hello_timeout f)
  tunnel_key-step retry_timeout t old s f = rw (to_duration_ms-number t.config.retry_timeout f)
  tunnel_key-step max_retries t old s f = rw (to_uint16-number t.config.max_retries f)
  tunnel_key-step host_name t old s f = refl
  tunnel_key-step framing_caps t old s f = rw (to_framing_caps-values t.config.framing_caps f)
  tunnel_key-step sessions t old s f = rw (sessions_loop-table old.name t.children s f)

  tunnel_loop-table :
      (ks : List TunnelKey) (t : TunnelTree) (old : NamedTunnel) (s : State)
      → All (FitsTunnelKey t) ks
      → tunnel_loop p (tunnel_table t ks) (old, s) ≡ ok (chosen_named ks t old, s)
  unfolding tunnel_loop
  tunnel_loop-table [] t old s f = refl
  tunnel_loop-table (k ∷ ks) t old s (f, fs) =
      rw (tunnel_key-step k t old s f) (tunnel_loop-table ks t (chosen_named (k ∷ []) t old) s fs)
      ∙ ap (λ x. ok (x, s)) (chosen_named-step k ks t old)

  load_tunnels-table :
      (ts : List TunnelTree) (s : State)
      → All FitsTunnel ts
      → load_tunnels p (tunnels_table ts) s ≡ ok (said_tunnels ts, s)
  unfolding load_tunnels new_tunnel_config
  load_tunnels-table [] s f = refl
  load_tunnels-table (t ∷ ts) s (f, fs) =
      let old : NamedTunnel = record {
        name = t.name;
        config = zero_tunnel_config;
        sessions = [];
      } in
      rw (tunnel_loop-table t.keys t old s f, load_tunnels-table ts s fs)

-- a file with these tunnels
abbrev pub tunnel_file : List TunnelTree → Table
tunnel_file ts = entry (text "tunnel") (table (tunnels_table ts)) end

-- newConfig on the tree of one or more tunnels with their sessions, each with some of its keys in
-- any order, where the values of these keys fit their parameters, gives these tunnels and sessions
-- in the order of the visit: each has the values of its keys and, where a key is missing, the value
-- that a new configuration has. The custom parser's state is left as it was.
pub new_config-table :
    (p : ConfigParser) (t : TunnelTree) (ts : List TunnelTree) (s : p.State)
    → All FitsTunnel (t ∷ ts)
    → new_config p (tunnel_file (t ∷ ts)) s
      ≡ ok (record { whole_map = tunnel_file (t ∷ ts); tunnels = said_tunnels (t ∷ ts) }, s)
unfolding new_config config_loop tunnels_of
new_config-table p t ts s f = rw (load_tunnels-table p (t ∷ ts) s f)
