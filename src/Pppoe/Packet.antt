-- ===== src/Pppoe/Packet.antt =====
-- pppoe/const.go, pppoe/pppoe.go: packets, their tags, and what makes them valid.
use go_l2tp_debian.Prelude.{ℕ, Bool, true, false, List, [], ◌∷◌, ◌==◌, ltb, length, if◌then◌else◌}
use go_l2tp_debian.Prelude.Result.{
  Result, ok, err, ◌>>=◌, ◌>>◌, no_tag, unrecognised_code, nonzero_session_id, zero_session_id,
  too_few_tags, missing_mandatory_tag,
}
use go_l2tp_debian.Prelude.Bytes.{Bytes}

-- `[6]byte`
pub record HwAddr : Type 0 where
  pub b0 : ℕ
  pub b1 : ℕ
  pub b2 : ℕ
  pub b3 : ℕ
  pub b4 : ℕ
  pub b5 : ℕ

pub record PppoeTag : Type 0 where
  pub typ : ℕ
  pub data_bytes : Bytes

pub record PppoePacket : Type 0 where
  pub src_hw_addr : HwAddr
  pub dst_hw_addr : HwAddr
  pub code : ℕ
  pub session_id : ℕ
  pub tags : List PppoeTag

abbrev pub pppoe_code_padi : ℕ
pppoe_code_padi = 9

abbrev pub pppoe_code_pado : ℕ
pppoe_code_pado = 7

abbrev pub pppoe_code_padr : ℕ
pppoe_code_padr = 25

abbrev pub pppoe_code_pads : ℕ
pppoe_code_pads = 101

abbrev pub pppoe_code_padt : ℕ
pppoe_code_padt = 167

abbrev pub pppoe_tag_type_service_name : ℕ
pppoe_tag_type_service_name = 257

abbrev pub pppoe_tag_type_ac_name : ℕ
pppoe_tag_type_ac_name = 258

abbrev pub pppoe_tag_type_host_uniq : ℕ
pppoe_tag_type_host_uniq = 259

abbrev pub pppoe_tag_type_ac_cookie : ℕ
pppoe_tag_type_ac_cookie = 260

abbrev pub pppoe_tag_type_relay_session_id : ℕ
pppoe_tag_type_relay_session_id = 272

abbrev pub pppoe_tag_type_service_name_error : ℕ
pppoe_tag_type_service_name_error = 513

abbrev pub pppoe_tag_type_ac_system_error : ℕ
pppoe_tag_type_ac_system_error = 514

abbrev pub pppoe_tag_type_generic_error : ℕ
pppoe_tag_type_generic_error = 515

unfoldable pub find_tag : ℕ → List PppoeTag → Result PppoeTag
find_tag typ [] = err no_tag
find_tag typ (tag ∷ tags) = let rest = find_tag typ tags in if tag.typ == typ then ok tag else rest

pub record PacketSpec : Type 0 where
  pub zero_session_id : Bool
  pub mandatory_tags : List ℕ

-- the specification of a packet's code, which for PADS depends on the session ID
unfoldable pub packet_spec : ℕ → ℕ → Result PacketSpec
packet_spec code sid =
    if code == pppoe_code_padi
    then ok (record { zero_session_id = true; mandatory_tags = pppoe_tag_type_service_name ∷ [] })
    else if code == pppoe_code_pado
    then ok (record {
      zero_session_id = true;
      mandatory_tags = pppoe_tag_type_service_name ∷ pppoe_tag_type_ac_name ∷ [];
    })
    else if code == pppoe_code_padr
    then ok (record { zero_session_id = true; mandatory_tags = pppoe_tag_type_service_name ∷ [] })
    else if code == pppoe_code_padt
    then ok (record { zero_session_id = false; mandatory_tags = [] })
    else if code == pppoe_code_pads
    then if sid == 0
      then ok (record {
        zero_session_id = true;
        mandatory_tags = pppoe_tag_type_service_name_error ∷ [];
      })
      else ok
          (record { zero_session_id = false; mandatory_tags = pppoe_tag_type_service_name ∷ [] })
    else err unrecognised_code

unfoldable pub check_session_id : Bool → ℕ → Result (Unit {0})
check_session_id true sid = if sid == 0 then ok tt else err nonzero_session_id
check_session_id false sid = if sid == 0 then err zero_session_id else ok tt

-- the loop over the mandatory tags
unfoldable pub check_mandatory_tag : Result PppoeTag → Result (Unit {0})
check_mandatory_tag (ok tag) = ok tt
check_mandatory_tag _ = err missing_mandatory_tag

unfoldable pub check_mandatory_tags : List ℕ → List PppoeTag → Result (Unit {0})
unfolding find_tag check_mandatory_tag
check_mandatory_tags [] tags = ok tt
check_mandatory_tags (typ ∷ typs) tags =
    check_mandatory_tag (find_tag typ tags) >> check_mandatory_tags typs tags

unfoldable pub validate : PppoePacket → Result (Unit {0})
unfolding packet_spec check_session_id check_mandatory_tags
validate p = do
  spec ← packet_spec p.code p.session_id
  _ ← check_session_id spec.zero_session_id p.session_id
  if ltb (length p.tags) (length spec.mandatory_tags)
      then err too_few_tags
      else check_mandatory_tags spec.mandatory_tags p.tags
