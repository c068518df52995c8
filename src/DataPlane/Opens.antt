-- ===== src/DataPlane/Opens.antt =====
-- l2tp/nl_dataplane.go: how the creation of a tunnel in the kernel ends.
use go_l2tp_debian.Prelude.{
  ℕ, ◌≡◌, ◌⊎◌, inl, inr, Bool, true, false, not, some, List, ◌==◌, ◌&&◌, ◌||◌, ltb, length,
}
use go_l2tp_debian.Prelude.Int.{ℤ, pos, negsuc}
use go_l2tp_debian.Prelude.Result.{Result, Error, ◌>>◌}
use go_l2tp_debian.Prelude.Bytes.{Bytes}
use go_l2tp_debian.Pppoe.Parse.Ends.{
  Returns, returns_value, returns_error, Returns-bind, Returns-if,
}
use go_l2tp_debian.Config.Types.{TunnelConfig}
use go_l2tp_debian.Context.Address.{Sockaddr, inet4, inet6, l2tp_ip, l2tp_ip6}
use go_l2tp_debian.Context.Create.{require}
use go_l2tp_debian.Netlink.Attributes as Nl
use go_l2tp_debian.Netlink.Attributes.{Attribute, tunnel_create_attr, check_tunnel, check_v2}
use go_l2tp_debian.Netlink.Conn.{
  Kernel, MsgRequest, Conn, Exchange, exchange_of, after, execute, request, create_tunnel,
  create_managed_tunnel, create_static_tunnel, static_attrs, address_attrs, check_ports, given,
}
use go_l2tp_debian.DataPlane.{open_tunnel, new_tunnel, sockaddr_addr_port, tunnel_cfg_to_nl}

-- the array that the type of the address has
abbrev pub HasSize : Sockaddr → Type 0
HasSize (inet4 port addr) = length addr ≡ 4
HasSize (inet6 port addr) = length addr ≡ 16
HasSize (l2tp_ip conn_id addr) = length addr ≡ 4
HasSize (l2tp_ip6 conn_id addr) = length addr ≡ 16

size_known :
    (sa : Sockaddr)
    → HasSize sa
    → (length (sockaddr_addr_port sa).0 ≡ 4) ⊎ (length (sockaddr_addr_port sa).0 ≡ 16)
unfolding sockaddr_addr_port
size_known (inet4 port addr) h = inl h
size_known (inet6 port addr) h = inr h
size_known (l2tp_ip conn_id addr) h = inl h
size_known (l2tp_ip6 conn_id addr) h = inr h

require-Returns : (b : Bool) (e : Error) → Returns (require b e)
require-Returns true e = returns_value tt
require-Returns false e = returns_error e

seq-Returns :
    {A : Type 0} (m : Result (Unit {0})) (n : Result A) → Returns m → Returns n → Returns (m >> n)
seq-Returns m n h k = Returns-bind m (λ u. n) h (λ u. k)

check_v2-Returns : (c : Nl.TunnelConfig) → Returns (check_v2 c)
unfolding check_v2
check_v2-Returns c =
    seq-Returns _ _
      (seq-Returns _ _ (require-Returns (not (ltb 65535 c.tid)) _)
        (require-Returns (not (ltb 65535 c.ptid)) _))
      (require-Returns (c.encap == 0) _)

check_tunnel-Returns : (c : Nl.TunnelConfig) → Returns (check_tunnel c)
unfolding check_tunnel
check_tunnel-Returns c =
    seq-Returns _ _
      (seq-Returns _ _
        (seq-Returns _ _
          (seq-Returns _ _ (require-Returns (not (c.tid == 0)) _)
            (require-Returns (not (c.ptid == 0)) _))
          (require-Returns (not (ltb c.version 2) && not (ltb 3 c.version)) _))
        (require-Returns (c.encap == 0 || c.encap == 1) _))
      (Returns-if (c.version == 2) _ _ (check_v2-Returns c) (returns_value tt))

tunnel_create_attr-Returns : (c : Nl.TunnelConfig) → Returns (tunnel_create_attr (some c))
unfolding tunnel_create_attr
tunnel_create_attr-Returns c = seq-Returns _ _ (check_tunnel-Returns c) (returns_value _)

address_attrs-Returns :
    (local peer : Bytes)
    → (length local ≡ 4) ⊎ (length local ≡ 16)
    → Returns (address_attrs local peer)
unfolding address_attrs
address_attrs-Returns local peer (inl e) = rw e (returns_value _)
address_attrs-Returns local peer (inr e) = rw e (returns_value _)

check_ports-Returns : (lp pp : ℕ) (c : Nl.TunnelConfig) → Returns (check_ports lp pp c)
unfolding check_ports
check_ports-Returns lp pp c =
    Returns-if (c.encap == 0) _ _
      (seq-Returns _ _ (require-Returns (not (lp == 0)) _) (require-Returns (not (pp == 0)) _))
      (returns_value tt)

static_attrs-Returns :
    (local : Bytes) (lp : ℕ) (peer : Bytes) (pp : ℕ) (c : Nl.TunnelConfig)
    → (length local ≡ 4) ⊎ (length local ≡ 16)
    → Returns (static_attrs local lp peer pp (some c))
unfolding static_attrs given
static_attrs-Returns local lp peer pp c size =
    Returns-bind (require (Nl.is_set local) _) _ (require-Returns (Nl.is_set local) _) (λ a.
      Returns-bind (require (Nl.is_set peer) _) _ (require-Returns (Nl.is_set peer) _) (λ b.
        Returns-bind (require (length local == length peer) _) _
          (require-Returns (length local == length peer) _)
          (λ x. Returns-bind (check_ports lp pp c) _ (check_ports-Returns lp pp c) (λ y.
            Returns-bind (tunnel_create_attr (some c)) _ (tunnel_create_attr-Returns c) (λ attrs.
              Returns-bind (address_attrs local peer) _ (address_attrs-Returns local peer size)
                (λ addrs. returns_value _))))))

module _ (k : Kernel) (marshals : (l : List Attribute) → Returns (k.marshal l))
    (answers : (l : List MsgRequest) → Returns (k.answer l)) where
  exchange_of-Returns :
      {A B : Type 0} (r : Result A) (next : A → Conn → Exchange B) (c : Conn)
      → Returns r
      → ((a : A) → Returns (next a c).0)
      → Returns (exchange_of r next c).0
  unfolding exchange_of
  exchange_of-Returns r next c (returns_value a) h = h a
  exchange_of-Returns r next c (returns_error e) h = returns_error e

  create_tunnel-Returns :
      (attrs : List Attribute) (c : Conn) → c.is_open ≡ true → Returns (create_tunnel k attrs c).0
  unfolding create_tunnel request execute after
  create_tunnel-Returns attrs c opened =
      Returns-bind _ _
        (exchange_of-Returns (k.marshal attrs) _ c (marshals attrs) (λ b. simp opened (answers _)))
        (λ ms. returns_value tt)

  open_tunnel-Returns :
      (fd : ℤ) (sal sap : Sockaddr) (nlcfg : Nl.TunnelConfig) (c : Conn)
      → HasSize sal
      → c.is_open ≡ true
      → Returns (open_tunnel k fd sal sap nlcfg c).0
  unfolding open_tunnel create_managed_tunnel create_static_tunnel
  open_tunnel-Returns (pos fd) sal sap nlcfg c size opened =
      exchange_of-Returns (tunnel_create_attr (some nlcfg)) _ c (tunnel_create_attr-Returns nlcfg)
        (λ attrs. create_tunnel-Returns _ c opened)
  open_tunnel-Returns (negsuc n) sal sap nlcfg c size opened =
      let (la, lp) = sockaddr_addr_port sal in
      let (ra, rp) = sockaddr_addr_port sap in
      exchange_of-Returns (static_attrs la lp ra rp (some nlcfg)) _ c
        (static_attrs-Returns la lp ra rp nlcfg (size_known sal size))
        (λ attrs. create_tunnel-Returns attrs c opened)

-- NewTunnel of the netlink data plane returns, with or without an error, and does not panic, if
-- marshalling and the kernel return, the connection is open, and the local address has the size of
-- its type.
pub new_tunnel-Returns :
    (k : Kernel) (tcfg : TunnelConfig) (sal sap : Sockaddr) (fd : ℤ) (c : Conn)
    → ((l : List Attribute) → Returns (k.marshal l))
    → ((l : List MsgRequest) → Returns (k.answer l))
    → HasSize sal
    → c.is_open ≡ true
    → Returns (new_tunnel k tcfg sal sap fd c).0
unfolding new_tunnel after
new_tunnel-Returns k tcfg sal sap fd c marshals answers size opened =
    Returns-bind (open_tunnel k fd sal sap (tunnel_cfg_to_nl tcfg) c).0 _
      (open_tunnel-Returns k marshals answers fd sal sap (tunnel_cfg_to_nl tcfg) c size opened)
      (λ u. returns_value _)
