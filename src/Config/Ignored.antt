-- ===== src/Config/Ignored.antt =====
-- config/config.go: the two parameters whose errors stand in an `err` of their own.
use go_l2tp_debian.Prelude.{ℕ, ◌≡◌, ◌≢◌, arith, refl, ap, length}
use go_l2tp_debian.Prelude.Result.{Result, ok, err, panic, stuck}
use go_l2tp_debian.Prelude.Bytes.{Bytes}
use go_l2tp_debian.Prelude.Text.{text}
use go_l2tp_debian.Config.Types.{Value, SessionConfig, TunnelConfig}
use go_l2tp_debian.Config.Convert.{to_uint16, to_bytes}
use go_l2tp_debian.Config.Load.{
  known, set_pppoe_peer_mac, set_max_retries, session_switch, tunnel_switch,
}

retries_ignored : (r : Result ℕ) (c : TunnelConfig) → ((n : ℕ) → r ≢ ok n) → set_max_retries r c ≡ c
unfolding set_max_retries
retries_ignored (ok n) c h = absurd (h n refl)
retries_ignored (err e) c h = refl
retries_ignored (panic p) c h = refl
retries_ignored stuck c h = refl

mac_ignored :
    (r : Result Bytes) (c : SessionConfig)
    → ((mac : Bytes) → r ≡ ok mac → length mac ≢ 6)
    → set_pppoe_peer_mac r c ≡ c
unfolding set_pppoe_peer_mac
mac_ignored (ok mac) c h = ground (arith, h mac refl)
mac_ignored (err e) c h = refl
mac_ignored (panic p) c h = refl
mac_ignored stuck c h = refl

-- A max_retries that toUint16 refuses, and a pppoe_peer_mac that toBytes refuses or that has not six
-- bytes, give no error, and leave the configuration as it was.
pub bad_values_ignored :
    (v u : Value) (tc : TunnelConfig) (sc : SessionConfig)
    → ((n : ℕ) → to_uint16 v ≢ ok n)
    → ((mac : Bytes) → to_bytes u ≡ ok mac → length mac ≢ 6)
    → (tunnel_switch (text "max_retries") v tc ≡ known (ok tc))
      × (session_switch (text "pppoe_peer_mac") u sc ≡ known (ok sc))
unfolding tunnel_switch session_switch
bad_values_ignored v u tc sc h k = (
  ap (λ c. known (ok c)) (retries_ignored (to_uint16 v) tc h),
  ap (λ c. known (ok c)) (mac_ignored (to_bytes u) sc k),
)
