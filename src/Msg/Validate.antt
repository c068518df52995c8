-- ===== src/Msg/Validate.antt =====
-- l2tp/msg.go: `validateAvps`.
use go_l2tp_debian.Prelude.{
  ℕ, Bool, true, false, ◌&&◌, Option, none, some, List, [], ◌∷◌, ◌==◌, if◌then◌else◌,
}
use go_l2tp_debian.Prelude.Result.{
  Result, ok, err, missing_avp, unexpected_avp, decode_failed, ◌>>=◌, wrap,
}
use go_l2tp_debian.Avp.Header.{is_mandatory}
use go_l2tp_debian.Avp.Payload.{Avp, decode}
use go_l2tp_debian.Msg.Spec.{AvpSpec, must_exist, may_exist, MsgSpec, has_avp}

-- the map `seen`
abbrev pub Seen : Type 0
Seen = List (ℕ × Bool)

-- the first loop: an entry for each AVP that must exist
unfoldable pub unseen : MsgSpec → Seen
unseen [] = []
unseen ((t, must_exist) ∷ spec) = (t, false) ∷ unseen spec
unseen ((t, may_exist) ∷ spec) = unseen spec

-- `seen[t] = true`; the second loop sets no key that the first has not made
unfoldable pub set_seen : ℕ → Seen → Seen
set_seen t [] = []
set_seen t ((u, b) ∷ seen) = (u, (if u == t then true else b)) ∷ set_seen t seen

abbrev pub mark : AvpSpec → ℕ → Seen → Seen
mark must_exist t seen = set_seen t seen
mark may_exist t seen = seen

-- one round of the second loop
unfoldable pub check_avp : Option AvpSpec → Avp → Seen → Result Seen
check_avp none a seen = if is_mandatory a.header then err unexpected_avp else ok seen
check_avp (some s) a seen = do v ← wrap decode_failed (decode a); ok (mark s a.header.avp_type seen)

unfoldable pub check_avps : MsgSpec → List Avp → Seen → Result Seen
unfolding check_avp
check_avps spec [] seen = ok seen
check_avps spec (a ∷ avps) seen = do
  seen' ← check_avp (has_avp spec a.header.avp_type) a seen
  check_avps spec avps seen'

-- The third loop. Go visits a map in any order: which missing AVP the message names is left open
-- here.
unfoldable pub all_seen : Seen → Bool
all_seen [] = true
all_seen ((t, b) ∷ seen) = b && all_seen seen

unfoldable pub validate_avps : List Avp → MsgSpec → Result (Unit {0})
unfolding check_avps unseen set_seen all_seen
validate_avps avps spec = do
  seen ← check_avps spec avps (unseen spec)
  if all_seen seen then ok tt else err missing_avp
