-- ===== src/Config/Chosen.antt =====
-- config/config.go: what a table that has some of the keys makes of a configuration: these keys' fields
-- are set, and the others are left as they are.
use go_l2tp_debian.Prelude.{◌≡◌, refl, Bool, true, false, ◌||◌, List, [], ◌∷◌, if◌then◌else◌}
use go_l2tp_debian.Config.Types.{SessionConfig, TunnelConfig, NamedSession, NamedTunnel}
use go_l2tp_debian.Config.Load.{zero_session_config, zero_tunnel_config}
use go_l2tp_debian.Config.Print.{
  SessionKey, SessionTree, TunnelKey, TunnelTree, sid, psid, pseudowire, seqnum, reorder_timeout,
  cookie, peer_cookie, interface_name, l2spec_type, pppoe_session_id, pppoe_peer_mac, local, peer,
  encap, version, tid, ptid, window_size, hello_timeout, retry_timeout, max_retries, host_name,
  framing_caps, sessions,
}

-- whether a key is there
abbrev pub has {ℓ} : {K : Type ℓ} → (K → Bool) → List K → Bool
has is [] = false
has is (k ∷ ks) = is k || has is ks

-- a field after the table with these keys: the new value if its key is there
abbrev pub chosen {ℓ κ} : {A : Type ℓ} {K : Type κ} → (K → Bool) → List K → A → A → A
chosen is ks new old = if has is ks then new else old

abbrev pub is_sid : SessionKey → Bool
is_sid sid = true
is_sid _ = false

abbrev pub is_psid : SessionKey → Bool
is_psid psid = true
is_psid _ = false

abbrev pub is_pseudowire : SessionKey → Bool
is_pseudowire pseudowire = true
is_pseudowire _ = false

abbrev pub is_seqnum : SessionKey → Bool
is_seqnum seqnum = true
is_seqnum _ = false

abbrev pub is_reorder_timeout : SessionKey → Bool
is_reorder_timeout reorder_timeout = true
is_reorder_timeout _ = false

abbrev pub is_cookie : SessionKey → Bool
is_cookie cookie = true
is_cookie _ = false

abbrev pub is_peer_cookie : SessionKey → Bool
is_peer_cookie peer_cookie = true
is_peer_cookie _ = false

abbrev pub is_interface_name : SessionKey → Bool
is_interface_name interface_name = true
is_interface_name _ = false

abbrev pub is_l2spec_type : SessionKey → Bool
is_l2spec_type l2spec_type = true
is_l2spec_type _ = false

abbrev pub is_pppoe_session_id : SessionKey → Bool
is_pppoe_session_id pppoe_session_id = true
is_pppoe_session_id _ = false

abbrev pub is_pppoe_peer_mac : SessionKey → Bool
is_pppoe_peer_mac pppoe_peer_mac = true
is_pppoe_peer_mac _ = false

abbrev pub is_local : TunnelKey → Bool
is_local local = true
is_local _ = false

abbrev pub is_peer : TunnelKey → Bool
is_peer peer = true
is_peer _ = false

abbrev pub is_encap : TunnelKey → Bool
is_encap encap = true
is_encap _ = false

abbrev pub is_version : TunnelKey → Bool
is_version version = true
is_version _ = false

abbrev pub is_tid : TunnelKey → Bool
is_tid tid = true
is_tid _ = false

abbrev pub is_ptid : TunnelKey → Bool
is_ptid ptid = true
is_ptid _ = false

abbrev pub is_window_size : TunnelKey → Bool
is_window_size window_size = true
is_window_size _ = false

abbrev pub is_hello_timeout : TunnelKey → Bool
is_hello_timeout hello_timeout = true
is_hello_timeout _ = false

abbrev pub is_retry_timeout : TunnelKey → Bool
is_retry_timeout retry_timeout = true
is_retry_timeout _ = false

abbrev pub is_max_retries : TunnelKey → Bool
is_max_retries max_retries = true
is_max_retries _ = false

abbrev pub is_host_name : TunnelKey → Bool
is_host_name host_name = true
is_host_name _ = false

abbrev pub is_framing_caps : TunnelKey → Bool
is_framing_caps framing_caps = true
is_framing_caps _ = false

abbrev pub is_sessions : TunnelKey → Bool
is_sessions sessions = true
is_sessions _ = false

abbrev pub chosen_session : List SessionKey → SessionConfig → SessionConfig → SessionConfig
chosen_session ks c old = record {
  session_id = chosen is_sid ks c.session_id old.session_id;
  peer_session_id = chosen is_psid ks c.peer_session_id old.peer_session_id;
  pseudowire = chosen is_pseudowire ks c.pseudowire old.pseudowire;
  seq_num = chosen is_seqnum ks c.seq_num old.seq_num;
  reorder_timeout = chosen is_reorder_timeout ks c.reorder_timeout old.reorder_timeout;
  cookie = chosen is_cookie ks c.cookie old.cookie;
  peer_cookie = chosen is_peer_cookie ks c.peer_cookie old.peer_cookie;
  interface_name = chosen is_interface_name ks c.interface_name old.interface_name;
  l2spec_type = chosen is_l2spec_type ks c.l2spec_type old.l2spec_type;
  pppoe_session_id = chosen is_pppoe_session_id ks c.pppoe_session_id old.pppoe_session_id;
  pppoe_peer_mac = chosen is_pppoe_peer_mac ks c.pppoe_peer_mac old.pppoe_peer_mac;
}

abbrev pub chosen_tunnel : List TunnelKey → TunnelConfig → TunnelConfig → TunnelConfig
chosen_tunnel ks c old = record {
  local = chosen is_local ks c.local old.local;
  peer = chosen is_peer ks c.peer old.peer;
  encap = chosen is_encap ks c.encap old.encap;
  version = chosen is_version ks c.version old.version;
  tunnel_id = chosen is_tid ks c.tunnel_id old.tunnel_id;
  peer_tunnel_id = chosen is_ptid ks c.peer_tunnel_id old.peer_tunnel_id;
  window_size = chosen is_window_size ks c.window_size old.window_size;
  hello_timeout = chosen is_hello_timeout ks c.hello_timeout old.hello_timeout;
  retry_timeout = chosen is_retry_timeout ks c.retry_timeout old.retry_timeout;
  max_retries = chosen is_max_retries ks c.max_retries old.max_retries;
  host_name = chosen is_host_name ks c.host_name old.host_name;
  framing_caps = chosen is_framing_caps ks c.framing_caps old.framing_caps;
}

-- what the file says of a session, and of a tunnel
abbrev pub said_session : SessionTree → NamedSession
said_session x = record {
  name = x.name;
  config = chosen_session x.keys x.config zero_session_config;
}

abbrev pub said_sessions : List SessionTree → List NamedSession
said_sessions [] = []
said_sessions (x ∷ xs) = said_session x ∷ said_sessions xs

-- a tunnel after the table with these keys
abbrev pub chosen_named : List TunnelKey → TunnelTree → NamedTunnel → NamedTunnel
chosen_named ks t old = record {
  name = old.name;
  config = chosen_tunnel ks t.config old.config;
  sessions = chosen is_sessions ks (said_sessions t.children) old.sessions;
}

abbrev pub said_tunnel : TunnelTree → NamedTunnel
said_tunnel t =
    chosen_named t.keys t (record { name = t.name; config = zero_tunnel_config; sessions = [] })

abbrev pub said_tunnels : List TunnelTree → List NamedTunnel
said_tunnels [] = []
said_tunnels (t ∷ ts) = said_tunnel t ∷ said_tunnels ts

if_step :
    {A : Type 0} (b h : Bool) (new old : A)
    → (if h then new else if b || false then new else old) ≡ (if b || h then new else old)
if_step true true new old = refl
if_step true false new old = refl
if_step false true new old = refl
if_step false false new old = refl

-- one key first, and then the others
chosen-step :
    {A K : Type 0} (is : K → Bool) (k : K) (ks : List K) (new old : A)
    → chosen is ks new (chosen is (k ∷ []) new old) ≡ chosen is (k ∷ ks) new old
chosen-step is k ks new old = if_step (is k) (has is ks) new old

pub chosen_session-step :
    (k : SessionKey) (ks : List SessionKey) (c old : SessionConfig)
    → chosen_session ks c (chosen_session (k ∷ []) c old) ≡ chosen_session (k ∷ ks) c old
chosen_session-step k ks c old = rw (
  chosen-step is_sid k ks c.session_id old.session_id,
  chosen-step is_psid k ks c.peer_session_id old.peer_session_id,
  chosen-step is_pseudowire k ks c.pseudowire old.pseudowire,
  chosen-step is_seqnum k ks c.seq_num old.seq_num,
  chosen-step is_reorder_timeout k ks c.reorder_timeout old.reorder_timeout,
  chosen-step is_cookie k ks c.cookie old.cookie,
  chosen-step is_peer_cookie k ks c.peer_cookie old.peer_cookie,
  chosen-step is_interface_name k ks c.interface_name old.interface_name,
  chosen-step is_l2spec_type k ks c.l2spec_type old.l2spec_type,
  chosen-step is_pppoe_session_id k ks c.pppoe_session_id old.pppoe_session_id,
  chosen-step is_pppoe_peer_mac k ks c.pppoe_peer_mac old.pppoe_peer_mac,
)

pub chosen_named-step :
    (k : TunnelKey) (ks : List TunnelKey) (t : TunnelTree) (old : NamedTunnel)
    → chosen_named ks t (chosen_named (k ∷ []) t old) ≡ chosen_named (k ∷ ks) t old
chosen_named-step k ks t old = rw (
  chosen-step is_local k ks t.config.local old.config.local,
  chosen-step is_peer k ks t.config.peer old.config.peer,
  chosen-step is_encap k ks t.config.encap old.config.encap,
  chosen-step is_version k ks t.config.version old.config.version,
  chosen-step is_tid k ks t.config.tunnel_id old.config.tunnel_id,
  chosen-step is_ptid k ks t.config.peer_tunnel_id old.config.peer_tunnel_id,
  chosen-step is_window_size k ks t.config.window_size old.config.window_size,
  chosen-step is_hello_timeout k ks t.config.hello_timeout old.config.hello_timeout,
  chosen-step is_retry_timeout k ks t.config.retry_timeout old.config.retry_timeout,
  chosen-step is_max_retries k ks t.config.max_retries old.config.max_retries,
  chosen-step is_host_name k ks t.config.host_name old.config.host_name,
  chosen-step is_framing_caps k ks t.config.framing_caps old.config.framing_caps,
  chosen-step is_sessions k ks (said_sessions t.children) old.sessions,
)
