-- ===== src/Netlink/Sessions.antt =====
-- internal/nll2tp/nll2tp.go: which session configurations become attributes, and which types those
-- have.
use go_l2tp_debian.Prelude.{
  ℕ, zero, suc, ◌≡◌, ◌≢◌, ◌≤◌, ◌⊎◌, ◌↔◌, inl, inr, arith, refl, sym, subst, Bool, true, false, some,
  List, [], ◌∷◌, ◌++◌, ◌==◌, ◌&&◌, ◌||◌, ltb, length,
}
use go_l2tp_debian.Prelude.Result.{ok, ◌>>=◌, >>=-eq-ok, IfOk, IfOk-if}
use go_l2tp_debian.Prelude.Bytes.{Bytes}
use go_l2tp_debian.Netlink.Attributes.{
  Attribute, SessionConfig, cookie_fits, check_session, session_attrs, l2spec_attrs,
  session_create_attr, pw_type_attr, attr_peer_cookie, attr_if, is_set,
}

-- the lengths that a cookie may have
abbrev pub CookieLength : Bytes → Type 0
CookieLength b = (length b ≡ 0) ⊎ ((length b ≡ 4) ⊎ (length b ≡ 8))

cookie_fits_taken : (b : Bytes) → cookie_fits b ≡ true → CookieLength b
unfolding cookie_fits
cookie_fits_taken [] h = inl refl
cookie_fits_taken (x ∷ xs) h = inr (ground arith)

cookie_fits_given : (b : Bytes) → CookieLength b → cookie_fits b ≡ true
unfolding cookie_fits
cookie_fits_given [] h = refl
cookie_fits_given (x ∷ xs) h = ground arith

-- what the checks ask of a session
pub record FitsSession (c : SessionConfig) : Type 0 where
  pub tid_set : c.tid ≢ 0
  pub ptid_set : c.ptid ≢ 0
  pub sid_set : c.sid ≢ 0
  pub psid_set : c.psid ≢ 0
  pub pseudowire_set : c.pseudowire_type ≢ 0
  pub local_cookie_fits : CookieLength c.local_cookie
  pub peer_cookie_fits : CookieLength c.peer_cookie
  pub l2spec_known : c.l2spec_type ≤ 1

check_session_fits :
    (c : SessionConfig) → check_session c ≡ ok tt → c.l2spec_type ≤ 1 → FitsSession c
unfolding check_session
check_session_fits c h k = record {
  tid_set = ground arith;
  ptid_set = ground arith;
  sid_set = ground arith;
  psid_set = ground arith;
  pseudowire_set = ground arith;
  local_cookie_fits = cookie_fits_taken c.local_cookie (ground arith);
  peer_cookie_fits = cookie_fits_taken c.peer_cookie (ground arith);
  l2spec_known = k;
}

fits_check_session : (c : SessionConfig) → FitsSession c → check_session c ≡ ok tt
unfolding check_session
fits_check_session c f = ground (
  arith,
  cookie_fits_given c.local_cookie f.local_cookie_fits,
  cookie_fits_given c.peer_cookie f.peer_cookie_fits,
)

l2spec_taken : (t : ℕ) (l : List Attribute) → l2spec_attrs t ≡ ok l → t ≤ 1
unfolding l2spec_attrs
l2spec_taken t l h = ground arith

l2spec_given : (t : ℕ) → t ≤ 1 → (l : List Attribute) × (l2spec_attrs t ≡ ok l)
unfolding l2spec_attrs
l2spec_given zero h = (_, refl)
l2spec_given (suc zero) h = (_, refl)
l2spec_given (suc (suc t)) h = absurd (omega arith)

-- the attributes of a session that fits
pub record SessionAttrs (c : SessionConfig) (attrs : List Attribute) : Type 0 where
  pub fits : FitsSession c
  pub sublayer : List Attribute
  pub sublayer_made : l2spec_attrs c.l2spec_type ≡ ok sublayer
  pub made : attrs ≡ session_attrs c ++ sublayer

session_taken :
    (c : SessionConfig) (attrs : List Attribute)
    → session_create_attr (some c) ≡ ok attrs
    → SessionAttrs c attrs
unfolding session_create_attr
session_taken c attrs h =
    let (u, checked, later) =
      >>=-eq-ok (check_session c)
        (λ u. l2spec_attrs c.l2spec_type >>= λ l. ok (session_attrs c ++ l)) h in
    let (l, l_made, e) =
      >>=-eq-ok (l2spec_attrs c.l2spec_type) (λ l. ok (session_attrs c ++ l)) later in
    record {
      fits = check_session_fits c checked (l2spec_taken c.l2spec_type l l_made);
      sublayer = l;
      sublayer_made = l_made;
      made = cc;
    }

session_given :
    (c : SessionConfig)
    → FitsSession c
    → (attrs : List Attribute) × (session_create_attr (some c) ≡ ok attrs)
unfolding session_create_attr
session_given c f =
    let (l, l_made) = l2spec_given c.l2spec_type f.l2spec_known in
    (session_attrs c ++ l, rw (fits_check_session c f, l_made))

-- sessionCreateAttr returns attributes for a configuration exactly if its four IDs and its
-- pseudowire type are nonzero, each cookie is empty or has 4 or 8 bytes, and the sublayer type is
-- none or default.
pub session_create_attr_iff :
    (c : SessionConfig)
    → ((attrs : List Attribute) × (session_create_attr (some c) ≡ ok attrs)) ↔ FitsSession c
session_create_attr_iff c = (λ (attrs, h). (session_taken c attrs h).fits, session_given c)

-- the type of none of the attributes
abbrev pub NoneOf : ℕ → List Attribute → Type 0
NoneOf t [] = Unit {0}
NoneOf t (a ∷ l) = (a.typ ≢ t) × NoneOf t l

NoneOf-append : (t : ℕ) (l k : List Attribute) → NoneOf t l → NoneOf t k → NoneOf t (l ++ k)
NoneOf-append t [] k h j = j
NoneOf-append t (a ∷ l) k h j = (h.0, NoneOf-append t l k h.1 j)

NoneOf-if : (t : ℕ) (b : Bool) (a : Attribute) → a.typ ≢ t → NoneOf t (attr_if b a)
NoneOf-if t true a h = (h, tt)
NoneOf-if t false a h = tt

sublayer-NoneOf : (t : ℕ) → IfOk (NoneOf attr_peer_cookie) (l2spec_attrs t)
unfolding l2spec_attrs
sublayer-NoneOf t =
    IfOk-if _ (t == 0) _ _ (omega arith, (omega arith, tt))
      (IfOk-if _ (t == 1) _ _ (omega arith, (omega arith, tt)) tt)

pw_type-typ : (t : ℕ) → (pw_type_attr t).typ ≢ attr_peer_cookie
unfolding pw_type_attr
pw_type-typ t = ground arith

session_attrs-NoneOf : (c : SessionConfig) → NoneOf attr_peer_cookie (session_attrs c)
unfolding session_attrs
session_attrs-NoneOf c =
    let t = attr_peer_cookie in
    let join = NoneOf-append t in
    (
      omega arith,
      (
        omega arith,
        (
          omega arith,
          (
            omega arith,
            (
              pw_type-typ c.pseudowire_type,
              join _ _
                  (join _ _
                    (join _ _
                      (join _ _
                        (join _ _
                          (join _ _ (NoneOf-if t c.send_seq _ (omega arith))
                            (NoneOf-if t c.recv_seq _ (omega arith)))
                          (NoneOf-if t ((c.send_seq || c.recv_seq) && c.is_lns) _ (omega arith)))
                        (NoneOf-if t (ltb 0 c.reorder_timeout) _ (omega arith)))
                      (NoneOf-if t (is_set c.local_cookie) _ (omega arith)))
                    (NoneOf-if t (is_set c.peer_cookie) _ (omega arith)))
                  (NoneOf-if t (is_set c.if_name) _ (omega arith)),
            ),
          ),
        ),
      ),
    )

-- None of the attributes that sessionCreateAttr returns for a configuration has the type of the
-- peer's cookie, whatever cookie is configured.
pub session_create_attr-no_peer_cookie :
    (c : SessionConfig) (attrs : List Attribute)
    → session_create_attr (some c) ≡ ok attrs
    → NoneOf attr_peer_cookie attrs
session_create_attr-no_peer_cookie c attrs h =
    let made = session_taken c attrs h in
    subst (NoneOf attr_peer_cookie) (sym made.made) (
      NoneOf-append attr_peer_cookie (session_attrs c) made.sublayer (session_attrs-NoneOf c)
        (subst (IfOk (NoneOf attr_peer_cookie)) made.sublayer_made (sublayer-NoneOf c.l2spec_type)))
