-- ===== src/Tests/ConfigRuns.antt =====
-- config/config.go: the theorems on the loader at concrete inputs.
use go_l2tp_debian.Prelude.{ℕ, ◌≡◌, ◌≢◌, refl, arith, inl, inr, true, [], ◌∷◌, length}
use go_l2tp_debian.Prelude.Int.{pos}
use go_l2tp_debian.Prelude.Result.{ok}
use go_l2tp_debian.Prelude.Bytes.{Bytes}
use go_l2tp_debian.Prelude.Text.{text}
use go_l2tp_debian.Config.Types.{int64, bool}
use go_l2tp_debian.Config.Convert.{to_uint16, to_bytes}
use go_l2tp_debian.Config.Load.{
  nil_custom_parser, zero_session_config, zero_tunnel_config, known, session_switch, tunnel_switch,
  new_config,
}
use go_l2tp_debian.Config.Ranges.{Converts, conversions-Converts}
use go_l2tp_debian.Config.Ignored.{bad_values_ignored}
use go_l2tp_debian.Config.Print.{
  SessionTree, TunnelTree, cookie, reorder_timeout, pppoe_peer_mac, sid, pseudowire, sessions, peer,
  version, tid, hello_timeout,
}
use go_l2tp_debian.Config.Chosen.{said_tunnel, said_tunnels}
use go_l2tp_debian.Config.RoundTrip.{FitsSession, FitsTunnel, tunnel_file, new_config-table}

conversions-Converts_example : Converts (int64 (pos 300)) 300
conversions-Converts_example = conversions-Converts (int64 (pos 300)) 300

no_retries : (n : ℕ) → to_uint16 (bool true) ≢ ok n
unfolding to_uint16
no_retries n h = cc

no_mac : (mac : Bytes) → to_bytes (bool true) ≡ ok mac → length mac ≢ 6
unfolding to_bytes
no_mac mac h = cc

bad_values_ignored_example :
    (tunnel_switch (text "max_retries") (bool true) zero_tunnel_config
      ≡ known (ok zero_tunnel_config))
    × (session_switch (text "pppoe_peer_mac") (bool true) zero_session_config
        ≡ known (ok zero_session_config))
bad_values_ignored_example =
    bad_values_ignored (bool true) (bool true) zero_tunnel_config zero_session_config no_retries
      no_mac

-- some keys, the ID behind the cookie
abbrev session : SessionTree
session = record {
  name = text "s1";
  keys = cookie ∷ reorder_timeout ∷ pppoe_peer_mac ∷ sid ∷ pseudowire ∷ [];
  config = record zero_session_config {
    session_id = 5;
    pseudowire = 5;
    reorder_timeout = 1500000000;
    cookie = 18 ∷ 233 ∷ 84 ∷ 15 ∷ [];
    pppoe_peer_mac = 2 ∷ 66 ∷ 148 ∷ 209 ∷ 78 ∷ 154 ∷ [];
  };
}

abbrev tunnel : TunnelTree
tunnel = record {
  name = text "t1";
  keys = sessions ∷ peer ∷ version ∷ tid ∷ hello_timeout ∷ [];
  config = record zero_tunnel_config {
    peer = text "127.0.0.1:5001";
    version = 3;
    tunnel_id = 412;
    hello_timeout = 7500000000;
  };
  children = session ∷ [];
}

session_fits : FitsSession session
session_fits = (
  (omega arith, (omega arith, (omega arith, (omega arith, tt)))),
  (
    (omega arith, omega arith),
    (
      (
        (
          omega arith,
          (omega arith, (omega arith, (omega arith, (omega arith, (omega arith, tt))))),
        ),
        refl,
      ),
      (omega arith, (inr (inl refl), tt)),
    ),
  ),
)

tunnel_fits : FitsTunnel tunnel
tunnel_fits =
    ((session_fits, tt), (tt, (inr refl, (omega arith, ((omega arith, omega arith), tt)))))

new_config-table_example :
    new_config nil_custom_parser (tunnel_file (tunnel ∷ [])) tt
    ≡ ok
        (record { whole_map = tunnel_file (tunnel ∷ []); tunnels = said_tunnels (tunnel ∷ []) }, tt)
new_config-table_example = new_config-table nil_custom_parser tunnel [] tt (tunnel_fits, tt)

-- the keys that are missing keep the values of a new tunnel
said_tunnel_lem : (said_tunnel tunnel).config.framing_caps ≡ 3
said_tunnel_lem = refl
