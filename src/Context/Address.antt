-- ===== src/Context/Address.antt =====
-- l2tp/l2tp.go: socket addresses. What `net.ResolveUDPAddr` makes of a text is a parameter.
use go_l2tp_debian.Prelude.{ℕ, Option, none, some, [], ◌∷◌}
use go_l2tp_debian.Prelude.Result.{
  Result, ok, err, ◌>>=◌, wrap, resolve_failed, unhandled_address_family, address_failed,
}
use go_l2tp_debian.Prelude.Bytes.{Bytes}

-- `net.UDPAddr`: what `To4` and `To16` of its IP return, and its port
pub record UdpAddr : Type 0 where
  pub to_4 : Option Bytes
  pub to_16 : Option Bytes
  pub port : ℕ

-- `unix.Sockaddr`, by its dynamic type: with a port, or with a connection ID
pub data Sockaddr : Type 0 where
  inet4 inet6 l2tp_ip l2tp_ip6 : ℕ → Bytes → Sockaddr

abbrev zeros_4 : Bytes
zeros_4 = 0 ∷ 0 ∷ 0 ∷ 0 ∷ []

abbrev zeros_16 : Bytes
zeros_16 = 0 ∷ 0 ∷ 0 ∷ 0 ∷ 0 ∷ 0 ∷ 0 ∷ 0 ∷ 0 ∷ 0 ∷ 0 ∷ 0 ∷ 0 ∷ 0 ∷ 0 ∷ 0 ∷ []

-- the address of the family, in the first case for four bytes and in the second for sixteen
unfoldable pub of_family :
    (ℕ → Bytes → Sockaddr)
    → (ℕ → Bytes → Sockaddr)
    → ℕ
    → Option Bytes
    → Option Bytes
    → Result Sockaddr
of_family v4 v6 n (some b) b16 = ok (v4 n b)
of_family v4 v6 n none (some b) = ok (v6 n b)
of_family v4 v6 n none none = err unhandled_address_family

unfoldable pub new_udp_tunnel_address : Option UdpAddr → Result Sockaddr
unfolding of_family
new_udp_tunnel_address none = err resolve_failed
new_udp_tunnel_address (some u) = of_family inet4 inet6 u.port u.to_4 u.to_16

unfoldable pub new_ip_tunnel_address : Option UdpAddr → ℕ → Result Sockaddr
unfolding of_family
new_ip_tunnel_address none ccid = err resolve_failed
new_ip_tunnel_address (some u) ccid = of_family l2tp_ip l2tp_ip6 ccid u.to_4 u.to_16

-- the zero value that fits the address of the peer
unfoldable pub any_udp_address : Sockaddr → Result Sockaddr
any_udp_address (inet4 p a) = ok (inet4 0 zeros_4)
any_udp_address (inet6 p a) = ok (inet6 0 zeros_16)
any_udp_address _ = err unhandled_address_family

unfoldable pub any_ip_address : Sockaddr → Result Sockaddr
any_ip_address (l2tp_ip c a) = ok (l2tp_ip 0 zeros_4)
any_ip_address (l2tp_ip6 c a) = ok (l2tp_ip6 0 zeros_16)
any_ip_address _ = err unhandled_address_family

module _ (resolve : Bytes → Option UdpAddr) where
  unfoldable pub local_udp_address : Bytes → Sockaddr → Result Sockaddr
  unfolding new_udp_tunnel_address any_udp_address
  local_udp_address [] sap = any_udp_address sap
  local_udp_address (c ∷ cs) sap = wrap address_failed (new_udp_tunnel_address (resolve (c ∷ cs)))

  unfoldable pub new_udp_address_pair : Bytes → Bytes → Result (Sockaddr × Sockaddr)
  unfolding new_udp_tunnel_address local_udp_address
  new_udp_address_pair local remote = do
    sap ← wrap address_failed (new_udp_tunnel_address (resolve remote))
    sal ← local_udp_address local sap
    ok (sal, sap)

  unfoldable pub local_ip_address : Bytes → ℕ → Sockaddr → Result Sockaddr
  unfolding new_ip_tunnel_address any_ip_address
  local_ip_address [] ccid sap = any_ip_address sap
  local_ip_address (c ∷ cs) ccid sap =
      wrap address_failed (new_ip_tunnel_address (resolve (c ∷ cs)) ccid)

  unfoldable pub new_ip_address_pair : Bytes → ℕ → Bytes → ℕ → Result (Sockaddr × Sockaddr)
  unfolding new_ip_tunnel_address local_ip_address
  new_ip_address_pair local ccid remote pccid = do
    sap ← wrap address_failed (new_ip_tunnel_address (resolve remote) pccid)
    sal ← local_ip_address local ccid sap
    ok (sal, sap)
