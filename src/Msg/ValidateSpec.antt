-- ===== src/Msg/ValidateSpec.antt =====
-- When `validateAvps` accepts a message.
use go_l2tp_debian.Prelude.{
  ℕ, ◌≡◌, ◌↔◌, ◌⊎◌, inl, inr, refl, sym, ◌∙◌, ap, Bool, true, false, ◌&&◌, ◌||◌, Option, none, some,
  List, [], ◌∷◌, arith, ◌==◌, ==_iff, if◌then◌else◌, All, Bool-cases, &&_iff, subst,
}
use go_l2tp_debian.Prelude.Result.{
  Result, ok, err, missing_avp, decode_failed, >>=-eq-ok, wrap, wrap-eq-ok,
}
use go_l2tp_debian.Avp.Header.{is_mandatory}
use go_l2tp_debian.Avp.Payload.{Avp, Value, decode}
use go_l2tp_debian.Msg.Spec.{AvpSpec, must_exist, may_exist, MsgSpec, has_avp}
use go_l2tp_debian.Msg.Validate.{
  Seen, unseen, set_seen, mark, check_avp, check_avps, all_seen, validate_avps,
}

-- An AVP that the specification names decodes; any other is optional.
pub data Accepts (spec : MsgSpec) (a : Avp) : Type 0 where
  unnamed : has_avp spec a.header.avp_type ≡ none → is_mandatory a.header ≡ false → Accepts spec a
  named :
      (s : AvpSpec) (v : Value)
      → has_avp spec a.header.avp_type ≡ some s
      → decode a ≡ ok v
      → Accepts spec a

abbrev pub Occurs : ℕ → List Avp → Type 0
Occurs t [] = ⊥
Occurs t (a ∷ avps) = (a.header.avp_type ≡ t) ⊎ Occurs t avps

-- each AVP that must exist occurs
abbrev pub HasRequired : MsgSpec → List Avp → Type 0
HasRequired [] avps = Unit
HasRequired ((t, must_exist) ∷ spec) avps = Occurs t avps × HasRequired spec avps
HasRequired ((t, may_exist) ∷ spec) avps = HasRequired spec avps

-- the list stands for a map: each entry is the one that a lookup finds
abbrev pub IsMap : MsgSpec → Type 0
IsMap spec = All (λ e. has_avp spec e.0 ≡ some e.1) spec

-- the keys that the second loop has set
abbrev is_must : Option AvpSpec → Bool
is_must (some must_exist) = true
is_must _ = false

marked : MsgSpec → List Avp → ℕ → Bool
marked spec [] t = false
marked spec (a ∷ avps) t =
    (is_must (has_avp spec a.header.avp_type) && t == a.header.avp_type) || marked spec avps t

mark_all : MsgSpec → List Avp → Seen → Seen
mark_all spec avps [] = []
mark_all spec avps ((u, b) ∷ seen) = (u, b || marked spec avps u) ∷ mark_all spec avps seen

abbrev mark_some : Option AvpSpec → ℕ → Seen → Seen
mark_some none t seen = seen
mark_some (some s) t seen = mark s t seen

mark_all-nil : (spec : MsgSpec) (seen : Seen) → mark_all spec [] seen ≡ seen
unfolding mark_all marked
mark_all-nil spec [] = refl
mark_all-nil spec ((u, b) ∷ seen) = ground (arith, mark_all-nil spec seen)

mark_all-cons :
    (spec : MsgSpec) (a : Avp) (avps : List Avp) (o : Option AvpSpec) (seen : Seen)
    → has_avp spec a.header.avp_type ≡ o
    → mark_all spec avps (mark_some o a.header.avp_type seen) ≡ mark_all spec (a ∷ avps) seen
unfolding mark_all set_seen marked
mark_all-cons spec a avps none [] e = refl
mark_all-cons spec a avps (some must_exist) [] e = refl
mark_all-cons spec a avps (some may_exist) [] e = refl
mark_all-cons spec a avps none ((u, b) ∷ seen) e =
    ground (arith, mark_all-cons spec a avps none seen e)
mark_all-cons spec a avps (some must_exist) ((u, b) ∷ seen) e =
    ground (arith, mark_all-cons spec a avps (some must_exist) seen e)
mark_all-cons spec a avps (some may_exist) ((u, b) ∷ seen) e =
    ground (arith, mark_all-cons spec a avps (some may_exist) seen e)

-- one round of the second loop
check_avp-ok :
    (spec : MsgSpec) (a : Avp) (o : Option AvpSpec) (seen seen' : Seen)
    → has_avp spec a.header.avp_type ≡ o
    → (check_avp o a seen ≡ ok seen')
      ↔ (Accepts spec a × (seen' ≡ mark_some o a.header.avp_type seen))
unfolding check_avp
check_avp-ok spec a none seen seen' e = (sound, complete)
  where
    sound : check_avp none a seen ≡ ok seen' → Accepts spec a × (seen' ≡ seen)
    sound h = elim (Bool-cases (is_mandatory a.header)) [
      | inl m ↦ cc (rw (m, check_avp) at h)
      | inr m ↦ let same = rw (m, check_avp) at h in (unnamed e m, cc (same))
    ]

    complete : Accepts spec a × (seen' ≡ seen) → check_avp none a seen ≡ ok seen'
    complete (unnamed n m, same) = rw (m, same)
    complete (named s v n d, same) = cc
check_avp-ok spec a (some s) seen seen' e = (sound, complete)
  where
    sound :
        check_avp (some s) a seen ≡ ok seen'
        → Accepts spec a × (seen' ≡ mark s a.header.avp_type seen)
    sound h =
        let (v, decodes, made) = >>=-eq-ok (wrap decode_failed (decode a)) _ h in
        (named s v e (wrap-eq-ok decode_failed (decode a) decodes), cc (made))

    complete :
        Accepts spec a × (seen' ≡ mark s a.header.avp_type seen)
        → check_avp (some s) a seen ≡ ok seen'
    complete (unnamed n m, same) = cc
    complete (named s' v n d, same) = rw (d, same)

check_avps_sound :
    (spec : MsgSpec) (avps : List Avp) (seen seen' : Seen)
    → check_avps spec avps seen ≡ ok seen'
    → All (Accepts spec) avps × (seen' ≡ mark_all spec avps seen)
unfolding check_avps
check_avps_sound spec [] seen seen' h = (tt, cc (h, mark_all-nil spec seen))
check_avps_sound spec (a ∷ avps) seen seen' h =
    let o : Option AvpSpec = has_avp spec a.header.avp_type in
    let (s, this, later) = >>=-eq-ok (check_avp o a seen) _ h in
    let (good, made) = (check_avp-ok spec a o seen s refl).0 this in
    let (rest, end) = check_avps_sound spec avps s seen' later in
    ((good, rest), end ∙ rw made (mark_all-cons spec a avps o seen refl))

check_avps_complete :
    (spec : MsgSpec) (avps : List Avp) (seen : Seen)
    → All (Accepts spec) avps
    → check_avps spec avps seen ≡ ok (mark_all spec avps seen)
unfolding check_avps
check_avps_complete spec [] seen g = rw (mark_all-nil spec seen)
check_avps_complete spec (a ∷ avps) seen (g, rest) =
    let o : Option AvpSpec = has_avp spec a.header.avp_type in
    let next : Seen = mark_some o a.header.avp_type seen in
    rw ((check_avp-ok spec a o seen next refl).1 (g, refl))
      (check_avps_complete spec avps next rest ∙ ap ok (mark_all-cons spec a avps o seen refl))

marked-Occurs :
    (spec : MsgSpec) (avps : List Avp) (t : ℕ)
    → has_avp spec t ≡ some must_exist
    → (marked spec avps t ≡ true) ↔ Occurs t avps
unfolding marked
marked-Occurs spec [] t h = (λ e. cc, λ e. absurd e)
marked-Occurs spec (a ∷ avps) t h = elim (Bool-cases (t == a.header.avp_type)) [
  | inl same ↦
      let t≡ : t ≡ a.header.avp_type = (==_iff _ _).0 same in
      let must : has_avp spec a.header.avp_type ≡ some must_exist =
        subst (λ u. has_avp spec u ≡ some must_exist) t≡ h in
      rw (same, must) (λ e. inl (sym t≡), λ e. refl)
  | inr other ↦
      let ih = marked-Occurs spec avps t h in
      rw other (elim (Bool-cases (is_must (has_avp spec a.header.avp_type))) [
        | inl m ↦ rw m (
          λ e. inr (ih.0 e),
          λ e. elim e [ inl same ↦ absurd (ground arith) | inr later ↦ ih.1 later ],
        )
        | inr m ↦ rw m (
          λ e. inr (ih.0 e),
          λ e. elim e [ inl same ↦ absurd (ground arith) | inr later ↦ ih.1 later ],
        )
      ])
]

all_seen-HasRequired :
    (spec rest : MsgSpec) (avps : List Avp)
    → All (λ e. has_avp spec e.0 ≡ some e.1) rest
    → (all_seen (mark_all spec avps (unseen rest)) ≡ true) ↔ HasRequired rest avps
unfolding all_seen unseen mark_all
all_seen-HasRequired spec [] avps w = (λ e. tt, λ e. refl)
all_seen-HasRequired spec ((t, must_exist) ∷ rest) avps w =
    let (to, from) = &&_iff (marked spec avps t) (all_seen (mark_all spec avps (unseen rest))) in
    let here = marked-Occurs spec avps t w.0 in
    let later = all_seen-HasRequired spec rest avps w.1 in
    (λ e. (here.0 (to e).0, later.0 (to e).1), λ e. from (here.1 e.0, later.1 e.1))
all_seen-HasRequired spec ((t, may_exist) ∷ rest) avps w = all_seen-HasRequired spec rest avps w.1

-- `validateAvps` accepts a list of AVPs exactly when each AVP that the specification names decodes,
-- each other AVP is optional, and each AVP that must exist occurs, in any order.
pub validate_avps_iff :
    (spec : MsgSpec) (avps : List Avp)
    → IsMap spec
    → (validate_avps avps spec ≡ ok tt) ↔ (All (Accepts spec) avps × HasRequired spec avps)
unfolding validate_avps
validate_avps_iff spec avps w = (sound, complete)
  where
    final : Bool → Result (Unit {0})
    final b = if b then ok tt else err missing_avp

    final-true : (b : Bool) → final b ≡ ok tt → b ≡ true
    final-true true h = refl
    final-true false h = cc

    required : (all_seen (mark_all spec avps (unseen spec)) ≡ true) ↔ HasRequired spec avps
    required = all_seen-HasRequired spec spec avps w

    sound : validate_avps avps spec ≡ ok tt → All (Accepts spec) avps × HasRequired spec avps
    sound h =
        let (seen, ran, ended) =
          >>=-eq-ok (check_avps spec avps (unseen spec)) (λ s. final (all_seen s)) h in
        let (good, made) = check_avps_sound spec avps (unseen spec) seen ran in
        (good, required.0 (ap all_seen (sym made) ∙ final-true (all_seen seen) ended))

    complete : All (Accepts spec) avps × HasRequired spec avps → validate_avps avps spec ≡ ok tt
    complete (good, has) = rw (check_avps_complete spec avps (unseen spec) good, required.1 has)
