-- ===== src/Config/Types.antt =====
-- config/config.go, l2tp/const.go: the values of a parsed TOML tree, and the configurations made of
-- them. Times are in nanoseconds, as `time.Duration`.
use go_l2tp_debian.Prelude.{ℕ, Bool, List}
use go_l2tp_debian.Prelude.Int.{ℤ}
use go_l2tp_debian.Prelude.Bytes.{Bytes}

-- What `ToMap` puts in an `interface{}`. The entries of a map stand in the order in which `range` gives
-- them. `other` is any other type of TOML: a float, or a date.
mutual
  pub data Value : Type 0 where
    int64 : ℤ → Value
    uint64 : ℕ → Value
    bool : Bool → Value
    string : Bytes → Value
    array : Values → Value
    table : Table → Value
    other : ℕ → Value

  pub data Values : Type 0 where
    nil : Values
    cons : Value → Values → Values

  pub data Table : Type 0 where
    end : Table
    entry : Bytes → Value → Table → Table

abbrev pub protocol_version_2 : ℕ
protocol_version_2 = 2

abbrev pub protocol_version_3 : ℕ
protocol_version_3 = 3

abbrev pub encap_type_udp : ℕ
encap_type_udp = 0

abbrev pub encap_type_ip : ℕ
encap_type_ip = 1

abbrev pub framing_cap_sync : ℕ
framing_cap_sync = 1

abbrev pub framing_cap_async : ℕ
framing_cap_async = 2

abbrev pub pseudowire_type_eth : ℕ
pseudowire_type_eth = 5

abbrev pub pseudowire_type_ppp : ℕ
pseudowire_type_ppp = 7

abbrev pub pseudowire_type_pppac : ℕ
pseudowire_type_pppac = 8

abbrev pub l2spec_type_none : ℕ
l2spec_type_none = 0

abbrev pub l2spec_type_default : ℕ
l2spec_type_default = 1

pub record SessionConfig : Type 0 where
  pub session_id : ℕ
  pub peer_session_id : ℕ
  pub pseudowire : ℕ
  pub seq_num : Bool
  pub reorder_timeout : ℕ
  pub cookie : Bytes
  pub peer_cookie : Bytes
  pub interface_name : Bytes
  pub l2spec_type : ℕ
  pub pppoe_session_id : ℕ
  pub pppoe_peer_mac : Bytes

pub record TunnelConfig : Type 0 where
  pub local : Bytes
  pub peer : Bytes
  pub encap : ℕ
  pub version : ℕ
  pub tunnel_id : ℕ
  pub peer_tunnel_id : ℕ
  pub window_size : ℕ
  pub hello_timeout : ℕ
  pub retry_timeout : ℕ
  pub max_retries : ℕ
  pub host_name : Bytes
  pub framing_caps : ℕ

pub record NamedSession : Type 0 where
  pub name : Bytes
  pub config : SessionConfig

pub record NamedTunnel : Type 0 where
  pub name : Bytes
  pub config : TunnelConfig
  pub sessions : List NamedSession
