-- ===== src/DataPlane.antt =====
-- l2tp/nl_dataplane.go: the data plane on generic netlink.
pub mod Blind
pub mod Opens
use go_l2tp_debian.Prelude.{
  ℕ, ◌/◌, Bool, false, Option, none, some, List, [], ◌∷◌, ◌==◌, if◌then◌else◌,
}
use go_l2tp_debian.Prelude.Int.{ℤ, pos, negsuc}
use go_l2tp_debian.Prelude.Result.{Result, ok, err, panic, stuck, ◌>>=◌, map_ok}
use go_l2tp_debian.Prelude.Bytes.{Bytes, u16}
use go_l2tp_debian.Config.Types.{
  TunnelConfig, SessionConfig, pseudowire_type_ppp, pseudowire_type_pppac,
}
use go_l2tp_debian.Context.Address.{Sockaddr, inet4, inet6, l2tp_ip, l2tp_ip6}
use go_l2tp_debian.Netlink.Attributes as Nl
use go_l2tp_debian.Netlink.Conn.{
  Kernel, Conn, Exchange, after, create_managed_tunnel, create_static_tunnel, create_session,
  delete_tunnel, delete_session,
}
use go_l2tp_debian.Netlink.Decode.{Decoder, SessionInfo, get_session_info}

-- an address and a port; the Go error is for other types of socket address
unfoldable pub sockaddr_addr_port : Sockaddr → Bytes × ℕ
sockaddr_addr_port (inet4 port addr) = (addr, u16 port)
sockaddr_addr_port (inet6 port addr) = (addr, u16 port)
sockaddr_addr_port (l2tp_ip conn_id addr) = (addr, 0)
sockaddr_addr_port (l2tp_ip6 conn_id addr) = (addr, 0)

unfoldable pub tunnel_cfg_to_nl : TunnelConfig → Nl.TunnelConfig
tunnel_cfg_to_nl cfg = record {
  tid = cfg.tunnel_id;
  ptid = cfg.peer_tunnel_id;
  version = cfg.version;
  encap = cfg.encap;
  debug_flags = 0;
}

-- PPP/AC is a PPP pseudowire in the kernel
unfoldable pub nl_pseudowire : ℕ → ℕ
nl_pseudowire t = if t == pseudowire_type_pppac then pseudowire_type_ppp else t

unfoldable pub session_cfg_to_nl : ℕ → ℕ → SessionConfig → Nl.SessionConfig
unfolding nl_pseudowire
session_cfg_to_nl tid ptid cfg = record {
  tid = tid;
  ptid = ptid;
  sid = cfg.session_id;
  psid = cfg.peer_session_id;
  pseudowire_type = nl_pseudowire cfg.pseudowire;
  send_seq = cfg.seq_num;
  recv_seq = cfg.seq_num;
  is_lns = false;
  reorder_timeout = cfg.reorder_timeout / 1000000;
  local_cookie = cfg.cookie;
  peer_cookie = cfg.peer_cookie;
  if_name = cfg.interface_name;
  l2spec_type = cfg.l2spec_type;
}

-- `nlSessionDataPlane`
pub record SessionDataPlane : Type 0 where
  pub cfg : Nl.SessionConfig
  pub interface_name : Bytes

pub record Statistics : Type 0 where
  pub tx_packets : ℕ
  pub tx_bytes : ℕ
  pub tx_errors : ℕ
  pub rx_packets : ℕ
  pub rx_bytes : ℕ
  pub rx_errors : ℕ

abbrev pub statistics_of : SessionInfo → Statistics
statistics_of info = record {
  tx_packets = info.statistics.tx_packet_count;
  tx_bytes = info.statistics.tx_bytes;
  tx_errors = info.statistics.tx_error_count;
  rx_packets = info.statistics.rx_packet_count;
  rx_bytes = info.statistics.rx_bytes;
  rx_errors = info.statistics.rx_error_count;
}

module _ (k : Kernel) where
  -- by whether there is a socket
  unfoldable pub open_tunnel :
      ℤ → Sockaddr → Sockaddr → Nl.TunnelConfig → Conn → Exchange (Unit {0})
  unfolding create_managed_tunnel create_static_tunnel sockaddr_addr_port
  open_tunnel (pos fd) sal sap nlcfg c = create_managed_tunnel k (pos fd) (some nlcfg) c
  open_tunnel (negsuc n) sal sap nlcfg c =
      let (la, lp) = sockaddr_addr_port sal in
      let (ra, rp) = sockaddr_addr_port sap in create_static_tunnel k la lp ra rp (some nlcfg) c

  unfoldable pub new_tunnel :
      TunnelConfig → Sockaddr → Sockaddr → ℤ → Conn → Exchange Nl.TunnelConfig
  unfolding open_tunnel tunnel_cfg_to_nl after
  new_tunnel tcfg sal sap fd c =
      after (λ u. ok (tunnel_cfg_to_nl tcfg)) (open_tunnel fd sal sap (tunnel_cfg_to_nl tcfg) c)

  unfoldable pub new_session : ℕ → ℕ → SessionConfig → Conn → Exchange SessionDataPlane
  unfolding create_session session_cfg_to_nl after
  new_session tid ptid scfg c =
      let nlcfg = session_cfg_to_nl tid ptid scfg in
      after (λ u. ok (record { cfg = nlcfg; interface_name = [] }))
        (create_session k (some nlcfg) c)

  unfoldable pub tunnel_down : Nl.TunnelConfig → Conn → Exchange (Unit {0})
  unfolding delete_tunnel
  tunnel_down cfg c = delete_tunnel k (some cfg) c

  unfoldable pub session_down : SessionDataPlane → Conn → Exchange (Unit {0})
  unfolding delete_session
  session_down sdp c = delete_session k (some sdp.cfg) c

module _ (d : Decoder) (k : Kernel) where
  unfoldable pub get_statistics : SessionDataPlane → Conn → Exchange Statistics
  unfolding get_session_info after
  get_statistics sdp c =
      after (λ info. ok (statistics_of info)) (get_session_info d k (some sdp.cfg) c)

  -- by the name so far: the name, with the session
  unfoldable pub name_or_ask : SessionDataPlane → Bytes → Conn → Exchange (Bytes × SessionDataPlane)
  unfolding get_session_info after
  name_or_ask sdp (b ∷ bs) c = (ok (b ∷ bs, sdp), c)
  name_or_ask sdp [] c =
      after (λ info. ok (info.if_name, record sdp { interface_name = info.if_name }))
        (get_session_info d k (some sdp.cfg) c)

  unfoldable pub get_interface_name : SessionDataPlane → Conn → Exchange (Bytes × SessionDataPlane)
  unfolding name_or_ask
  get_interface_name sdp c = name_or_ask sdp sdp.interface_name c
