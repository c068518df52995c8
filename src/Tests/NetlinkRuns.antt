-- ===== src/Tests/NetlinkRuns.antt =====
-- internal/nll2tp/nll2tp.go, l2tp/nl_dataplane.go: the theorems on netlink at concrete inputs.
use go_l2tp_debian.Prelude.{◌≡◌, ◌↔◌, refl, true, false, some, List, [], ◌∷◌, ◌++◌}
use go_l2tp_debian.Prelude.Int.{negsuc}
use go_l2tp_debian.Prelude.Result.{ok}
use go_l2tp_debian.Prelude.Text.{text}
use go_l2tp_debian.Pppoe.Parse.Ends.{Returns, returns_value}
use go_l2tp_debian.Context.Address.{Sockaddr, inet4}
use go_l2tp_debian.Config.Load.{zero_tunnel_config}
use go_l2tp_debian.Netlink.Attributes.{
  Attribute, TunnelConfig, SessionConfig, tunnel_create_attr, session_create_attr, session_attrs,
  tunnel_attrs, attr, attr_l2spec_type, attr_l2spec_len, uint8, attr_peer_cookie, cmd_session_get,
}
use go_l2tp_debian.Netlink.Conn.{Kernel, Conn}
use go_l2tp_debian.Netlink.Decode.{Decoder, zero_info}
use go_l2tp_debian.Netlink.Accepts.{TunnelMade, tunnel_create_attr_iff}
use go_l2tp_debian.Netlink.Sessions.{
  FitsSession, NoneOf, session_create_attr_iff, session_create_attr-no_peer_cookie,
}
use go_l2tp_debian.DataPlane.{
  SessionDataPlane, statistics_of, get_statistics, get_interface_name, new_tunnel,
}
use go_l2tp_debian.DataPlane.Blind.{get_statistics-zero}
use go_l2tp_debian.DataPlane.Opens.{new_tunnel-Returns}

abbrev tunnel : TunnelConfig
tunnel = record { tid = 1; ptid = 2; version = 3; encap = 1; debug_flags = 0 }

abbrev session : SessionConfig
session = record {
  tid = 1;
  ptid = 2;
  sid = 3;
  psid = 4;
  pseudowire_type = 5;
  send_seq = true;
  recv_seq = true;
  is_lns = false;
  reorder_timeout = 1500;
  local_cookie = 1 ∷ 2 ∷ 3 ∷ 4 ∷ [];
  peer_cookie = 5 ∷ 6 ∷ 7 ∷ 8 ∷ [];
  if_name = text "l2tpeth0";
  l2spec_type = 1;
}

tunnel_create_attr_iff_example :
    (tunnel_create_attr (some tunnel) ≡ ok (tunnel_attrs tunnel))
    ↔ TunnelMade (some tunnel) (tunnel_attrs tunnel)
tunnel_create_attr_iff_example = tunnel_create_attr_iff (some tunnel) (tunnel_attrs tunnel)

session_create_attr_iff_example :
    ((attrs : List Attribute) × (session_create_attr (some session) ≡ ok attrs))
    ↔ FitsSession session
session_create_attr_iff_example = session_create_attr_iff session

abbrev sublayer : List Attribute
sublayer = attr attr_l2spec_type (uint8 1) ∷ attr attr_l2spec_len (uint8 4) ∷ []

session_made : session_create_attr (some session) ≡ ok (session_attrs session ++ sublayer)
unfolding session_create_attr
session_made = refl

session_create_attr-no_peer_cookie_example :
    NoneOf attr_peer_cookie (session_attrs session ++ sublayer)
session_create_attr-no_peer_cookie_example =
    session_create_attr-no_peer_cookie session (session_attrs session ++ sublayer) session_made

-- a kernel that answers each request by the information on a session
abbrev kernel : Kernel
kernel = record {
  marshal = λ l. ok (1 ∷ []);
  answer =
      λ requests. ok (record { command = cmd_session_get; version = 1; content = 9 ∷ [] } ∷ []);
}

abbrev decoder : Decoder
decoder = record {
  attributes = λ b. ok ((8, text "l2tpeth0") ∷ []);
  uint8 = λ b. ok 1;
  uint32 = λ b. ok 1;
  uint64 = λ b. ok 1;
  string = λ b. ok b;
}

abbrev conn : Conn
conn = record { family_id = 20; family_version = 1; is_open = true; requests = [] }

abbrev plane : SessionDataPlane
plane = record { cfg = session; interface_name = [] }

statistics_given : (get_statistics decoder kernel plane conn).0 ≡ ok (statistics_of zero_info)
unfolding get_statistics
statistics_given = refl

name_given : (get_interface_name decoder kernel plane conn).0 ≡ ok ([], plane)
unfolding get_interface_name
name_given = refl

get_statistics-zero_example :
    (statistics_of zero_info ≡ statistics_of zero_info) × (plane.interface_name ≡ [])
get_statistics-zero_example =
    get_statistics-zero decoder kernel plane conn (statistics_of zero_info) [] plane
      statistics_given name_given

abbrev address : Sockaddr
address = inet4 1701 (127 ∷ 0 ∷ 0 ∷ 1 ∷ [])

new_tunnel-Returns_example :
    Returns (new_tunnel kernel zero_tunnel_config address address (negsuc 0) conn).0
new_tunnel-Returns_example =
    new_tunnel-Returns kernel zero_tunnel_config address address (negsuc 0) conn
      (λ l. returns_value (1 ∷ []))
      (λ l.
        returns_value (record { command = cmd_session_get; version = 1; content = 9 ∷ [] } ∷ []))
      refl refl
