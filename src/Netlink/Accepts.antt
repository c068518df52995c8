-- ===== src/Netlink/Accepts.antt =====
-- internal/nll2tp/nll2tp.go: which tunnel configurations become attributes.
use go_l2tp_debian.Prelude.{
  ◌≤◌, ◌≡◌, ◌≢◌, ◌⊎◌, ◌↔◌, ◌∷◌, [], ◌==◌, ◌%◌, arith, refl, ap, ◌∙◌, subst, inl, inr, ℕ,
  if◌then◌else◌, Option, none, some, List,
}
use go_l2tp_debian.Prelude.Result.{ok, >>=-eq-ok}
use go_l2tp_debian.Prelude.Bytes.{u16}
use go_l2tp_debian.Netlink.Attributes.{
  AttrData, uint8, uint16, uint32, Attribute, attr, TunnelConfig, tunnel_attrs, check_v2,
  check_tunnel, tunnel_create_attr,
}

-- what the checks ask of a tunnel
pub record FitsTunnel (c : TunnelConfig) : Type 0 where
  pub tid_set : c.tid ≢ 0
  pub ptid_set : c.ptid ≢ 0
  pub version_known : (c.version ≡ 2) ⊎ (c.version ≡ 3)
  pub encap_known : c.encap ≤ 1
  pub v2_small : c.version ≡ 2 → (c.tid ≤ 65535) × ((c.ptid ≤ 65535) × (c.encap ≡ 0))

check_tunnel_fits : (c : TunnelConfig) → check_tunnel c ≡ ok tt → FitsTunnel c
unfolding check_tunnel check_v2
check_tunnel_fits c h = record {
  tid_set = ground arith;
  ptid_set = ground arith;
  version_known = ground arith;
  encap_known = ground arith;
  v2_small = λ e. ground arith;
}

fits_check_tunnel : (c : TunnelConfig) → FitsTunnel c → check_tunnel c ≡ ok tt
unfolding check_tunnel check_v2
fits_check_tunnel c f = ground (arith, f.v2_small)

-- what a list of attributes gives for a type, each time that it occurs
abbrev payloads : ℕ → List Attribute → List AttrData
payloads typ [] = []
payloads typ (a ∷ attrs) =
    if a.typ == typ then a.payload ∷ payloads typ attrs else payloads typ attrs

abbrev types_of : List Attribute → List ℕ
types_of [] = []
types_of (a ∷ attrs) = a.typ ∷ types_of attrs

-- What the kernel reads, by the numbers of linux/l2tp.h: the connection ID (9), the peer's (10), the
-- protocol version (7), the encapsulation type (2) and the debug flags (17), once each and in this
-- order, and each with the configuration's own value.
pub record Carries (c : TunnelConfig) (attrs : List Attribute) : Type 0 where
  pub types : types_of attrs ≡ 9 ∷ 10 ∷ 7 ∷ 2 ∷ 17 ∷ []
  pub conn_id : payloads 9 attrs ≡ uint32 c.tid ∷ []
  pub peer_conn_id : payloads 10 attrs ≡ uint32 c.ptid ∷ []
  pub proto_version : payloads 7 attrs ≡ uint8 c.version ∷ []
  pub encap_type : payloads 2 attrs ≡ uint16 c.encap ∷ []
  pub debug : payloads 17 attrs ≡ uint32 c.debug_flags ∷ []

-- the configuration is given and fits, and the attributes carry it
abbrev pub TunnelMade : Option TunnelConfig → List Attribute → Type 0
TunnelMade config attrs = (c : TunnelConfig) × (config ≡ some c) × FitsTunnel c × Carries c attrs

-- the version and the encapsulation of a configuration that fits are not cut
version_uncut : (c : TunnelConfig) → FitsTunnel c → c.version % 256 ≡ c.version
version_uncut c f = elim f.version_known [ inl two ↦ rw two | inr three ↦ rw three ]

encap_uncut : (c : TunnelConfig) → FitsTunnel c → u16 c.encap ≡ c.encap
encap_uncut c f = omega (arith, f.encap_known)

tunnel_attrs-Carries : (c : TunnelConfig) → FitsTunnel c → Carries c (tunnel_attrs c)
tunnel_attrs-Carries c f = record {
  types = refl;
  conn_id = refl;
  peer_conn_id = refl;
  proto_version = ap (λ v. uint8 v ∷ []) (version_uncut c f);
  encap_type = ap (λ v. uint16 v ∷ []) (encap_uncut c f);
  debug = refl;
}

-- five attributes of these types
abbrev attrs_with : AttrData → AttrData → AttrData → AttrData → AttrData → List Attribute
attrs_with x1 x2 x3 x4 x5 = attr 9 x1 ∷ attr 10 x2 ∷ attr 7 x3 ∷ attr 2 x4 ∷ attr 17 x5 ∷ []

carried_payloads :
    (c : TunnelConfig) (x1 x2 x3 x4 x5 : AttrData)
    → FitsTunnel c
    → Carries c (attrs_with x1 x2 x3 x4 x5)
    → attrs_with x1 x2 x3 x4 x5 ≡ tunnel_attrs c
carried_payloads c x1 x2 x3 x4 x5 f k =
    let p1 : x1 ∷ [] ≡ uint32 c.tid ∷ [] = k.conn_id in
    let p2 : x2 ∷ [] ≡ uint32 c.ptid ∷ [] = k.peer_conn_id in
    let p3 : x3 ∷ [] ≡ uint8 c.version ∷ [] = k.proto_version in
    let p4 : x4 ∷ [] ≡ uint16 c.encap ∷ [] = k.encap_type in
    let p5 : x5 ∷ [] ≡ uint32 c.debug_flags ∷ [] = k.debug in
    let v = version_uncut c f in let e = encap_uncut c f in cc

five_types :
    (a1 a2 a3 a4 a5 : Attribute)
    → a1.typ ∷ a2.typ ∷ a3.typ ∷ a4.typ ∷ a5.typ ∷ [] ≡ 9 ∷ 10 ∷ 7 ∷ 2 ∷ 17 ∷ []
    → a1 ∷ a2 ∷ a3 ∷ a4 ∷ a5 ∷ []
      ≡ attrs_with a1.payload a2.payload a3.payload a4.payload a5.payload
five_types a1 a2 a3 a4 a5 e =
    let t1 : a1.typ ≡ 9 = cc in
    let t2 : a2.typ ≡ 10 = cc in
    let t3 : a3.typ ≡ 7 = cc in
    let t4 : a4.typ ≡ 2 = cc in let t5 : a5.typ ≡ 17 = cc in rw (t1, t2, t3, t4, t5)

-- the list is read back from its types and from what it gives for each
carried :
    (c : TunnelConfig) (attrs : List Attribute)
    → FitsTunnel c
    → Carries c attrs
    → attrs ≡ tunnel_attrs c
carried c [] f k = let e = k.types in cc
carried c (a1 ∷ []) f k = let e = k.types in cc
carried c (a1 ∷ a2 ∷ []) f k = let e = k.types in cc
carried c (a1 ∷ a2 ∷ a3 ∷ []) f k = let e = k.types in cc
carried c (a1 ∷ a2 ∷ a3 ∷ a4 ∷ []) f k = let e = k.types in cc
carried c (a1 ∷ a2 ∷ a3 ∷ a4 ∷ a5 ∷ []) f k =
    let e = five_types a1 a2 a3 a4 a5 k.types in
    e
    ∙ carried_payloads c a1.payload a2.payload a3.payload a4.payload a5.payload f
        (subst (Carries c) e k)
carried c (a1 ∷ a2 ∷ a3 ∷ a4 ∷ a5 ∷ a6 ∷ attrs) f k = let e = k.types in cc

tunnel_taken :
    (config : Option TunnelConfig) (attrs : List Attribute)
    → tunnel_create_attr config ≡ ok attrs
    → TunnelMade config attrs
unfolding tunnel_create_attr
tunnel_taken none attrs h = cc
tunnel_taken (some c) attrs h =
    let (u, checked, made) = >>=-eq-ok (check_tunnel c) (λ u. ok (tunnel_attrs c)) h in
    let fits = check_tunnel_fits c checked in
    let given : tunnel_attrs c ≡ attrs = cc in
    (c, refl, fits, subst (Carries c) given (tunnel_attrs-Carries c fits))

tunnel_given : (c : TunnelConfig) → FitsTunnel c → tunnel_create_attr (some c) ≡ ok (tunnel_attrs c)
unfolding tunnel_create_attr
tunnel_given c f = rw (fits_check_tunnel c f)

-- tunnelCreateAttr returns a list of attributes exactly if a configuration is given, it fits, and
-- the list carries it. It fits if both IDs are nonzero, the version is 2 or 3, the encapsulation is
-- UDP or IP, and with version 2 the IDs have 16 bits and the encapsulation is UDP. The list carries
-- it if it has one attribute of each of the kernel's numbers 9, 10, 7, 2 and 17, in this order,
-- which hold the tunnel's ID, the peer's ID, the version, the encapsulation and the debug flags,
-- uncut.
pub tunnel_create_attr_iff :
    (config : Option TunnelConfig) (attrs : List Attribute)
    → (tunnel_create_attr config ≡ ok attrs) ↔ TunnelMade config attrs
tunnel_create_attr_iff config attrs =
    (tunnel_taken config attrs, λ (c, e, f, k). rw (e, carried c attrs f k) (tunnel_given c f))
