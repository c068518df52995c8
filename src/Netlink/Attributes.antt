-- ===== src/Netlink/Attributes.antt =====
-- internal/nll2tp/const.go, internal/nll2tp/nll2tp.go: attributes, and those of the requests that
-- create tunnels and sessions.
use go_l2tp_debian.Prelude.{
  ℕ, ◌%◌, Bool, true, false, not, Option, none, some, List, [], ◌∷◌, ◌++◌, ◌==◌, ◌&&◌, ◌||◌, ltb,
  length, if◌then◌else◌,
}
use go_l2tp_debian.Prelude.Result.{
  Result, ok, err, ◌>>=◌, ◌>>◌, nil_config, zero_id, bad_version, bad_encap, id_too_large,
  bad_pseudowire, bad_cookie_length, bad_l2spec,
}
use go_l2tp_debian.Prelude.Bytes.{Bytes, u16}
use go_l2tp_debian.Context.Create.{require}

abbrev pub attr_pw_type : ℕ
attr_pw_type = 1

abbrev pub attr_encap_type : ℕ
attr_encap_type = 2

abbrev pub attr_l2spec_type : ℕ
attr_l2spec_type = 5

abbrev pub attr_l2spec_len : ℕ
attr_l2spec_len = 6

abbrev pub attr_proto_version : ℕ
attr_proto_version = 7

abbrev pub attr_ifname : ℕ
attr_ifname = 8

abbrev pub attr_conn_id : ℕ
attr_conn_id = 9

abbrev pub attr_peer_conn_id : ℕ
attr_peer_conn_id = 10

abbrev pub attr_session_id : ℕ
attr_session_id = 11

abbrev pub attr_peer_session_id : ℕ
attr_peer_session_id = 12

abbrev pub attr_cookie : ℕ
attr_cookie = 15

abbrev pub attr_peer_cookie : ℕ
attr_peer_cookie = 16

abbrev pub attr_debug : ℕ
attr_debug = 17

abbrev pub attr_recv_seq : ℕ
attr_recv_seq = 18

abbrev pub attr_send_seq : ℕ
attr_send_seq = 19

abbrev pub attr_lns_mode : ℕ
attr_lns_mode = 20

abbrev pub attr_using_ipsec : ℕ
attr_using_ipsec = 21

abbrev pub attr_recv_timeout : ℕ
attr_recv_timeout = 22

abbrev pub attr_fd : ℕ
attr_fd = 23

abbrev pub attr_ip_saddr : ℕ
attr_ip_saddr = 24

abbrev pub attr_ip_daddr : ℕ
attr_ip_daddr = 25

abbrev pub attr_udp_sport : ℕ
attr_udp_sport = 26

abbrev pub attr_udp_dport : ℕ
attr_udp_dport = 27

abbrev pub attr_stats : ℕ
attr_stats = 30

abbrev pub attr_ip6_saddr : ℕ
attr_ip6_saddr = 31

abbrev pub attr_ip6_daddr : ℕ
attr_ip6_daddr = 32

abbrev pub attr_tx_packets : ℕ
attr_tx_packets = 1

abbrev pub attr_tx_bytes : ℕ
attr_tx_bytes = 2

abbrev pub attr_tx_errors : ℕ
attr_tx_errors = 3

abbrev pub attr_rx_packets : ℕ
attr_rx_packets = 4

abbrev pub attr_rx_bytes : ℕ
attr_rx_bytes = 5

abbrev pub attr_rx_seq_discards : ℕ
attr_rx_seq_discards = 6

abbrev pub attr_rx_oos_packets : ℕ
attr_rx_oos_packets = 7

abbrev pub attr_rx_errors : ℕ
attr_rx_errors = 8

abbrev pub cmd_tunnel_create : ℕ
cmd_tunnel_create = 1

abbrev pub cmd_tunnel_delete : ℕ
cmd_tunnel_delete = 2

abbrev pub cmd_session_create : ℕ
cmd_session_create = 5

abbrev pub cmd_session_delete : ℕ
cmd_session_delete = 6

abbrev pub cmd_session_get : ℕ
cmd_session_get = 8

abbrev pub pwtype_none : ℕ
pwtype_none = 0

abbrev pub pwtype_eth_vlan : ℕ
pwtype_eth_vlan = 4

abbrev pub pwtype_eth : ℕ
pwtype_eth = 5

abbrev pub l2spectype_none : ℕ
l2spectype_none = 0

abbrev pub l2spectype_default : ℕ
l2spectype_default = 1

abbrev pub encaptype_udp : ℕ
encaptype_udp = 0

abbrev pub encaptype_ip : ℕ
encaptype_ip = 1

-- The data of an attribute, by the function of nlenc that makes it. `name` is `nlenc.Bytes`, and `raw`
-- is a slice that is used as it stands.
pub data AttrData : Type 0 where
  uint8 uint16 uint32 uint64 : ℕ → AttrData
  raw name : Bytes → AttrData

pub record Attribute : Type 0 where
  pub typ : ℕ
  pub payload : AttrData

abbrev pub attr : ℕ → AttrData → Attribute
attr typ payload = record { typ = typ; payload = payload }

pub record TunnelConfig : Type 0 where
  pub tid : ℕ
  pub ptid : ℕ
  pub version : ℕ
  pub encap : ℕ
  pub debug_flags : ℕ

pub record SessionConfig : Type 0 where
  pub tid : ℕ
  pub ptid : ℕ
  pub sid : ℕ
  pub psid : ℕ
  pub pseudowire_type : ℕ
  pub send_seq : Bool
  pub recv_seq : Bool
  pub is_lns : Bool
  pub reorder_timeout : ℕ
  pub local_cookie : Bytes
  pub peer_cookie : Bytes
  pub if_name : Bytes
  pub l2spec_type : ℕ

-- the list that `tunnelCreateAttr` returns
abbrev pub tunnel_attrs : TunnelConfig → List Attribute
tunnel_attrs c =
    attr attr_conn_id (uint32 c.tid)
    ∷ attr attr_peer_conn_id (uint32 c.ptid)
    ∷ attr attr_proto_version (uint8 (c.version % 256))
    ∷ attr attr_encap_type (uint16 (u16 c.encap))
    ∷ attr attr_debug (uint32 c.debug_flags)
    ∷ []

-- the checks that are made of version 2 only
unfoldable pub check_v2 : TunnelConfig → Result (Unit {0})
check_v2 c =
    require (not (ltb 65535 c.tid)) id_too_large
    >> require (not (ltb 65535 c.ptid)) id_too_large
    >> require (c.encap == encaptype_udp) bad_encap

unfoldable pub check_tunnel : TunnelConfig → Result (Unit {0})
unfolding check_v2
check_tunnel c =
    require (not (c.tid == 0)) zero_id
    >> require (not (c.ptid == 0)) zero_id
    >> require (not (ltb c.version 2) && not (ltb 3 c.version)) bad_version
    >> require (c.encap == encaptype_udp || c.encap == encaptype_ip) bad_encap
    >> (if c.version == 2 then check_v2 c else ok tt)

unfoldable pub tunnel_create_attr : Option TunnelConfig → Result (List Attribute)
unfolding check_tunnel
tunnel_create_attr none = err nil_config
tunnel_create_attr (some c) = check_tunnel c >> ok (tunnel_attrs c)

-- a cookie of 4 or 8 bytes, or none
unfoldable pub cookie_fits : Bytes → Bool
cookie_fits [] = true
cookie_fits (b ∷ bs) = length (b ∷ bs) == 4 || length (b ∷ bs) == 8

unfoldable pub check_session : SessionConfig → Result (Unit {0})
unfolding cookie_fits
check_session c =
    require (not (c.tid == 0)) zero_id
    >> require (not (c.ptid == 0)) zero_id
    >> require (not (c.sid == 0)) zero_id
    >> require (not (c.psid == 0)) zero_id
    >> require (not (c.pseudowire_type == pwtype_none)) bad_pseudowire
    >> require (cookie_fits c.local_cookie) bad_cookie_length
    >> require (cookie_fits c.peer_cookie) bad_cookie_length

-- an attribute that is appended if the test holds
abbrev pub attr_if : Bool → Attribute → List Attribute
attr_if true a = a ∷ []
attr_if false a = []

abbrev pub is_set : Bytes → Bool
is_set [] = false
is_set (b ∷ bs) = true

-- VLAN pseudowires use the driver for Ethernet
unfoldable pub pw_type_attr : ℕ → Attribute
pw_type_attr t =
    if t == pwtype_eth_vlan
    then attr attr_pw_type (uint16 pwtype_eth)
    else attr attr_pw_type (uint16 (u16 t))

-- all attributes but those of the sublayer; the peer's cookie goes under the type of the local one
unfoldable pub session_attrs : SessionConfig → List Attribute
unfolding pw_type_attr
session_attrs c =
    attr attr_conn_id (uint32 c.tid)
    ∷ attr attr_peer_conn_id (uint32 c.ptid)
    ∷ attr attr_session_id (uint32 c.sid)
    ∷ attr attr_peer_session_id (uint32 c.psid)
    ∷ pw_type_attr c.pseudowire_type
    ∷ (attr_if c.send_seq (attr attr_send_seq (uint8 1))
        ++ attr_if c.recv_seq (attr attr_recv_seq (uint8 1))
        ++ attr_if ((c.send_seq || c.recv_seq) && c.is_lns) (attr attr_lns_mode (uint8 1))
        ++ attr_if (ltb 0 c.reorder_timeout) (attr attr_recv_timeout (uint64 c.reorder_timeout))
        ++ attr_if (is_set c.local_cookie) (attr attr_cookie (raw c.local_cookie))
        ++ attr_if (is_set c.peer_cookie) (attr attr_cookie (raw c.peer_cookie))
        ++ attr_if (is_set c.if_name) (attr attr_ifname (name c.if_name)))

unfoldable pub l2spec_attrs : ℕ → Result (List Attribute)
l2spec_attrs t =
    if t == l2spectype_none
    then ok (attr attr_l2spec_type (uint8 (t % 256)) ∷ attr attr_l2spec_len (uint8 0) ∷ [])
    else if t == l2spectype_default
    then ok (attr attr_l2spec_type (uint8 (t % 256)) ∷ attr attr_l2spec_len (uint8 4) ∷ [])
    else err bad_l2spec

unfoldable pub session_create_attr : Option SessionConfig → Result (List Attribute)
unfolding check_session session_attrs l2spec_attrs
session_create_attr none = err nil_config
session_create_attr (some c) = do
  _ ← check_session c
  l2spec ← l2spec_attrs c.l2spec_type
  ok (session_attrs c ++ l2spec)
