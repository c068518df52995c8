-- ===== src/Context/Create.antt =====
-- l2tp/l2tp.go, l2tp/l2tp_static.go, l2tp/l2tp_quiescent.go, l2tp/l2tp_dynamic_tunnel.go: the
-- creation of tunnels. Whether the data plane and the sockets can be opened is a parameter.
pub mod Fresh
pub mod Outcome
use go_l2tp_debian.Prelude.{
  ℕ, zero, suc, Option, none, some, List, [], ◌∷◌, Bool, true, false, not, ◌&&◌, ◌||◌, ◌==◌, ltb,
  if◌then◌else◌,
}
use go_l2tp_debian.Prelude.Result.{
  Result, Error, ok, err, panic, stuck, ◌>>=◌, ◌>>◌, wrap, nil_config, name_taken, id_taken,
  no_host_name, config_out_of_range, no_address, unrecognised_encapsulation, address_failed,
  id_failed, version_unsupported, socket_failed,
}
use go_l2tp_debian.Prelude.Bytes.{Bytes}
use go_l2tp_debian.Context.Links.{
  Entry, Links, link_tunnel, unlink_tunnel, find_tunnel_by_name, find_tunnel_by_id,
}
use go_l2tp_debian.Context.Alloc.{alloc_tid}
use go_l2tp_debian.Context.Address.{UdpAddr, Sockaddr, new_udp_address_pair, new_ip_address_pair}

-- `EncapType`, whose other values are refused
pub data EncapType : Type 0 where
  encap_type_udp encap_type_ip : EncapType
  other_encap_type : ℕ → EncapType

-- the fields of `TunnelConfig` that the creation of a tunnel reads
pub record TunnelSettings : Type 0 where
  pub local : Bytes
  pub peer : Bytes
  pub encap : EncapType
  pub version : ℕ
  pub tunnel_id : ℕ
  pub peer_tunnel_id : ℕ
  pub host_name : Bytes

-- `os.Hostname`, `net.ResolveUDPAddr`, `rand.Uint32`, and whether the data plane and the sockets of the
-- new tunnel can be opened. `object` is the new object.
pub record World : Type 0 where
  pub os_hostname : Option Bytes
  pub resolve : Bytes → Option UdpAddr
  pub random : ℕ → ℕ
  pub opens : Bool
  pub object : ℕ

-- a check that returns an error unless the test holds
abbrev pub require : Bool → Error → Result (Unit {0})
require true e = ok tt
require false e = err e

abbrev pub is_set : Bytes → Bool
is_set [] = false
is_set (c ∷ cs) = true

abbrev pub is_none : Option Entry → Bool
is_none none = true
is_none (some e) = false

-- IP encapsulation is for version 3 only
unfoldable pub encap_fits : TunnelSettings → Bool
encap_fits cfg = elim cfg.encap [ encap_type_ip ↦ cfg.version == 3 | _ ↦ true ]

-- the value behind a pointer to a configuration
unfoldable pub given : Option TunnelSettings → Result TunnelSettings
given none = err nil_config
given (some cfg) = ok cfg

unfoldable pub quiescent_ids_fit : TunnelSettings → Bool
quiescent_ids_fit cfg =
    not (cfg.tunnel_id == 0)
    && not (cfg.peer_tunnel_id == 0)
    && (not (cfg.version == 2)
        || not (ltb 65535 cfg.tunnel_id) && not (ltb 65535 cfg.peer_tunnel_id))

unfoldable pub address_pair :
    (Bytes → Option UdpAddr) → TunnelSettings → Result (Sockaddr × Sockaddr)
unfolding new_udp_address_pair new_ip_address_pair
address_pair resolve cfg = wrap address_failed (elim cfg.encap [
  | encap_type_udp ↦ new_udp_address_pair resolve cfg.local cfg.peer
  | encap_type_ip ↦ new_ip_address_pair resolve cfg.local cfg.tunnel_id cfg.peer cfg.peer_tunnel_id
  | other_encap_type n ↦ err unrecognised_encapsulation
])

-- A tunnel that cannot be opened is closed again, which unlinks it. One that can is linked.
unfoldable pub open_tunnel : Bool → Links → Entry → Result Entry × Links
unfolding link_tunnel unlink_tunnel
open_tunnel true l e = (ok e, link_tunnel e l)
open_tunnel false l e = (err socket_failed, unlink_tunnel e l)

-- the end of the creation, by what its checks return
unfoldable pub create : Bool → Links → Result Entry → Result Entry × Links
unfolding open_tunnel
create opens l (ok e) = open_tunnel opens l e
create opens l (err x) = (err x, l)
create opens l (panic p) = (panic p, l)
create opens l stuck = (stuck, l)

module _ (w : World) where
  unfoldable pub static_checks : Bytes → Option TunnelSettings → Links → Result Entry
  unfolding given find_tunnel_by_name find_tunnel_by_id address_pair
  static_checks name c l = do
    cfg ← given c
    _ ← require (is_none (find_tunnel_by_name name l)) name_taken
    _ ← require (cfg.version == 3) version_unsupported
    _ ← require (not (cfg.tunnel_id == 0) && not (cfg.peer_tunnel_id == 0)) config_out_of_range
    _ ← require (is_set cfg.local) no_address
    _ ← require (is_set cfg.peer) no_address
    _ ← require (is_none (find_tunnel_by_id cfg.tunnel_id l)) id_taken
    _ ← address_pair w.resolve cfg
    ok (record { name = name; id = cfg.tunnel_id; object = w.object })

  unfoldable pub new_static_tunnel : Bytes → Option TunnelSettings → Links → Result Entry × Links
  unfolding static_checks create
  new_static_tunnel name c l = create w.opens l (static_checks name c l)

  unfoldable pub quiescent_checks : Bytes → Option TunnelSettings → Links → Result Entry
  unfolding given find_tunnel_by_name find_tunnel_by_id encap_fits quiescent_ids_fit address_pair
  quiescent_checks name c l = do
    cfg ← given c
    _ ← require (is_none (find_tunnel_by_name name l)) name_taken
    _ ← require (encap_fits cfg) version_unsupported
    _ ← require (quiescent_ids_fit cfg) config_out_of_range
    _ ← require (is_set cfg.local) no_address
    _ ← require (is_set cfg.peer) no_address
    _ ← require (is_none (find_tunnel_by_id cfg.tunnel_id l)) id_taken
    _ ← address_pair w.resolve cfg
    ok (record { name = name; id = cfg.tunnel_id; object = w.object })

  unfoldable pub new_quiescent_tunnel : Bytes → Option TunnelSettings → Links → Result Entry × Links
  unfolding quiescent_checks create
  new_quiescent_tunnel name c l = create w.opens l (quiescent_checks name c l)

  unfoldable pub with_host_name : Bytes → Result (Unit {0})
  with_host_name [] = elim w.os_hostname [ none ↦ err no_host_name | some h ↦ ok tt ]
  with_host_name (c ∷ cs) = ok tt

  -- the ID of the configuration, or one that is drawn
  unfoldable pub choose_id : ℕ → ℕ → Links → Result ℕ
  unfolding alloc_tid find_tunnel_by_id
  choose_id version zero l = wrap id_failed (alloc_tid w.random version l)
  choose_id version (suc n) l =
      if is_none (find_tunnel_by_id (suc n) l) then ok (suc n) else err id_taken

  -- the last check is that of `newDynamicTunnel`
  unfoldable pub dynamic_checks : Bytes → Option TunnelSettings → Links → Result Entry
  unfolding given find_tunnel_by_name with_host_name encap_fits choose_id address_pair
  dynamic_checks name c l = do
    cfg ← given c
    _ ← require (is_none (find_tunnel_by_name name l)) name_taken
    _ ← with_host_name cfg.host_name
    _ ← require (encap_fits cfg) version_unsupported
    _ ← require (not (cfg.version == 2) || not (ltb 65535 cfg.tunnel_id)) config_out_of_range
    _ ← require (cfg.peer_tunnel_id == 0) config_out_of_range
    _ ← require (is_set cfg.peer) no_address
    id ← choose_id cfg.version cfg.tunnel_id l
    _ ← address_pair w.resolve (record cfg { tunnel_id = id })
    _ ← require (cfg.version == 2) version_unsupported
    ok (record { name = name; id = id; object = w.object })

  unfoldable pub new_dynamic_tunnel : Bytes → Option TunnelSettings → Links → Result Entry × Links
  unfolding dynamic_checks create
  new_dynamic_tunnel name c l = create w.opens l (dynamic_checks name c l)
