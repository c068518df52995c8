-- ===== src/Netlink/Conn.antt =====
-- internal/nll2tp/nll2tp.go: the requests on a connection. What MarshalAttributes returns, and what
-- the kernel answers after so many requests, are parameters.
use go_l2tp_debian.Prelude.{
  ℕ, Bool, true, false, not, Option, none, some, List, [], ◌∷◌, ◌++◌, ◌==◌, length, if◌then◌else◌,
}
use go_l2tp_debian.Prelude.Int.{ℤ, pos, negsuc}
use go_l2tp_debian.Prelude.Result.{
  Result, ok, err, panic, stuck, ◌>>=◌, ◌>>◌, nil_config, bad_fd, bad_address, bad_port,
  send_on_closed_channel, unexpected_address_length,
}
use go_l2tp_debian.Prelude.Bytes.{Bytes, u32}
use go_l2tp_debian.Context.Create.{require}
use go_l2tp_debian.Netlink.Attributes.{
  Attribute, attr, uint16, uint32, raw, TunnelConfig, SessionConfig, tunnel_create_attr,
  session_create_attr, attr_fd, attr_ip_saddr, attr_ip_daddr, attr_ip6_saddr, attr_ip6_daddr,
  attr_udp_sport, attr_udp_dport, attr_conn_id, attr_session_id, cmd_tunnel_create,
  cmd_tunnel_delete, cmd_session_create, cmd_session_delete, encaptype_udp, is_set,
}

-- `genetlink.Message`
pub record Message : Type 0 where
  pub command : ℕ
  pub version : ℕ
  pub content : Bytes

-- `msgRequest`; the flags are those of a request, with or without that of an acknowledgement
pub record MsgRequest : Type 0 where
  pub msg : Message
  pub family : ℕ
  pub acknowledge : Bool

-- the family, and whether `Close` was not called; the requests stand newest first
pub record Conn : Type 0 where
  pub family_id : ℕ
  pub family_version : ℕ
  pub is_open : Bool
  pub requests : List MsgRequest

pub record Kernel : Type 0 where
  pub marshal : List Attribute → Result Bytes
  pub answer : List MsgRequest → Result (List Message)

abbrev pub Exchange : Type 0 → Type 0
Exchange A = Result A × Conn

-- `Close`, which closes the channel of requests
unfoldable pub close : Conn → Conn
close c = record c { is_open = false }

-- by whether there is an error before the exchange
unfoldable pub exchange_of : {A B : Type 0} → Result A → (A → Conn → Exchange B) → Conn → Exchange B
exchange_of (ok a) next c = next a c
exchange_of (err e) next c = (err e, c)
exchange_of (panic p) next c = (panic p, c)
exchange_of stuck next c = (stuck, c)

-- what is done with the answer to the exchange
unfoldable pub after : {A B : Type 0} → (A → Result B) → Exchange A → Exchange B
after f (r, c) = (r >>= f, c)

abbrev pub acknowledged : Exchange (List Message) → Exchange (Unit {0})
acknowledged = after (λ msgs. ok tt)

unfoldable pub address_attrs : Bytes → Bytes → Result (List Attribute)
address_attrs local peer =
    if length local == 4
    then ok (attr attr_ip_saddr (raw local) ∷ attr attr_ip_daddr (raw peer) ∷ [])
    else if length local == 16
    then ok (attr attr_ip6_saddr (raw local) ∷ attr attr_ip6_daddr (raw peer) ∷ [])
    else panic unexpected_address_length

unfoldable pub check_ports : ℕ → ℕ → TunnelConfig → Result (Unit {0})
check_ports local peer config =
    if config.encap == encaptype_udp
    then require (not (local == 0)) bad_port >> require (not (peer == 0)) bad_port
    else ok tt

unfoldable pub given : Option TunnelConfig → Result TunnelConfig
given none = err nil_config
given (some config) = ok config

-- the attributes of `CreateStaticTunnel`
unfoldable pub static_attrs : Bytes → ℕ → Bytes → ℕ → Option TunnelConfig → Result (List Attribute)
unfolding tunnel_create_attr address_attrs check_ports given
static_attrs local local_port peer peer_port c = do
  config ← given c
  _ ← require (is_set local) bad_address
  _ ← require (is_set peer) bad_address
  _ ← require (length local == length peer) bad_address
  _ ← check_ports local_port peer_port config
  attrs ← tunnel_create_attr (some config)
  addrs ← address_attrs local peer
  ok (
      attrs
      ++ addrs
      ++ attr attr_udp_sport (uint16 local_port) ∷ attr attr_udp_dport (uint16 peer_port) ∷ [])

abbrev pub session_ids : SessionConfig → List Attribute
session_ids config =
    attr attr_conn_id (uint32 config.tid) ∷ attr attr_session_id (uint32 config.sid) ∷ []

module _ (k : Kernel) where
  -- with `runConn`, which hands the request to the kernel, and its answer back
  unfoldable pub execute : Message → Bool → Conn → Exchange (List Message)
  execute msg ack c =
      if c.is_open
      then (let asked =
            record { msg = msg; family = c.family_id; acknowledge = ack } ∷ c.requests in
          (k.answer asked, record c { requests = asked }))
      else (panic send_on_closed_channel, c)

  -- a message of the command, with the attributes
  unfoldable pub request : ℕ → Bool → List Attribute → Conn → Exchange (List Message)
  unfolding exchange_of execute
  request command ack attrs c =
      exchange_of (k.marshal attrs)
        (λ b. execute (record { command = command; version = c.family_version; content = b }) ack) c

  unfoldable pub create_tunnel : List Attribute → Conn → Exchange (Unit {0})
  unfolding request after
  create_tunnel attrs c = acknowledged (request cmd_tunnel_create true attrs c)

  unfoldable pub create_managed_tunnel : ℤ → Option TunnelConfig → Conn → Exchange (Unit {0})
  unfolding tunnel_create_attr create_tunnel exchange_of
  create_managed_tunnel (negsuc n) config c = (err bad_fd, c)
  create_managed_tunnel (pos fd) config c =
      exchange_of (tunnel_create_attr config)
        (λ attrs. create_tunnel (attrs ++ attr attr_fd (uint32 (u32 fd)) ∷ [])) c

  unfoldable pub create_static_tunnel :
      Bytes → ℕ → Bytes → ℕ → Option TunnelConfig → Conn → Exchange (Unit {0})
  unfolding static_attrs create_tunnel exchange_of
  create_static_tunnel local local_port peer peer_port config c =
      exchange_of (static_attrs local local_port peer peer_port config) create_tunnel c

  unfoldable pub delete_tunnel : Option TunnelConfig → Conn → Exchange (Unit {0})
  unfolding request after
  delete_tunnel none c = (err nil_config, c)
  delete_tunnel (some config) c =
      acknowledged (request cmd_tunnel_delete true (attr attr_conn_id (uint32 config.tid) ∷ []) c)

  unfoldable pub create_session : Option SessionConfig → Conn → Exchange (Unit {0})
  unfolding session_create_attr request after exchange_of
  create_session config c =
      exchange_of (session_create_attr config)
        (λ attrs c'. acknowledged (request cmd_session_create true attrs c')) c

  unfoldable pub delete_session : Option SessionConfig → Conn → Exchange (Unit {0})
  unfolding request after
  delete_session none c = (err nil_config, c)
  delete_session (some config) c =
      acknowledged (request cmd_session_delete true (session_ids config) c)
