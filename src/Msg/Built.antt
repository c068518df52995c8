-- ===== src/Msg/Built.antt =====
-- What `buildV2Msg` makes of AVPs that the message's specification names.
use go_l2tp_debian.Prelude.{
  ℕ, ◌+◌, ◌*◌, ◌≤◌, ◌<◌, ◌≡◌, ◌⊎◌, inl, inr, refl, sym, ap, ◌∙◌, false, some, List, [], ◌∷◌, ◌++◌,
  append_assoc, append-nil, arith, length, length-append, All, subst, if◌then◌else◌, ltb, le→ltb,
}
use go_l2tp_debian.Prelude.Result.{Result, ok, err, not_of_data_type, map_ok-eq-ok}
use go_l2tp_debian.Prelude.Bytes.{IsU16, u16}
use go_l2tp_debian.Avp.Header.{total_len, data_len}
use go_l2tp_debian.Avp.Payload.{
  AvpPayload, Avp, Value, decode_as, to_uint16, to_uint32, to_uint64, to_string, to_result_code,
  same_data_type, decode, decode_msg_type,
}
use go_l2tp_debian.Avp.Info.{DataType}
use go_l2tp_debian.Avp.Encode.{new_avp}
use go_l2tp_debian.Avp.Write.{write_avp, write_avps}
use go_l2tp_debian.Avp.Find.{avps_length_bytes}
use go_l2tp_debian.Avp.RoundTrip.{InRange, decoded, decode-new_avp, new_avp_inv}
use go_l2tp_debian.Avp.ParseRoundTrip.{IsWf, length-write_avp}
use go_l2tp_debian.Avp.Built.{new_avp-IsWf}
use go_l2tp_debian.Msg.Spec.{AvpSpec, must_exist, may_exist, MsgSpec, has_avp, get_v2_msg_spec}
use go_l2tp_debian.Msg.ValidateSpec.{Accepts, named, Occurs, HasRequired, IsMap, validate_avps_iff}
use go_l2tp_debian.Avp.HeaderFields.{new_avp_header_fields}
use go_l2tp_debian.Msg.Message.{
  get_type, first_type, validate, V2ControlMessage, v2, append_avp_v2, new_v2_control_message,
  new_v2_message_header,
}
use go_l2tp_debian.Msg.Build.{AvpIn, avp_in, append_all, build_v2_msg}
use go_l2tp_debian.Msg.RoundTrip.{IsMessage}

-- An input to the builder that the specification names, whose value fits the AVP's data type and
-- the AVP's length field.
pub record IsGood (spec : MsgSpec) (i : AvpIn) : Type 0 where
  pub avp : Avp
  pub built : new_avp 0 i.typ i.value ≡ ok avp
  pub short : length avp.payload.data_bytes ≤ 1017
  pub typ_fits : IsU16 i.typ
  pub in_range : InRange i.value
  pub use_of : AvpSpec
  pub is_named : has_avp spec i.typ ≡ some use_of

abbrev pub avps_of : (spec : MsgSpec) (ins : List AvpIn) → All (IsGood spec) ins → List Avp
avps_of spec [] g = []
avps_of spec (i ∷ ins) g = g.0.avp ∷ avps_of spec ins g.1

-- the message that holds these AVPs
abbrev pub v2_message : ℕ → ℕ → List Avp → V2ControlMessage
v2_message tid sid avps = record {
  header = record {
    common = record { flags_ver = 0xc802; len = 12 + length (write_avps avps) };
    tid = tid;
    sid = sid;
    ns = 0;
    nr = 0;
  };
  avps = avps;
}

pub IsWf-good : (spec : MsgSpec) (i : AvpIn) (g : IsGood spec i) → IsWf g.avp
IsWf-good spec i g = new_avp-IsWf 0 i.typ i.value (omega arith) g.typ_fits g.built g.short

IsWf-avps_of :
    (spec : MsgSpec) (ins : List AvpIn) (g : All (IsGood spec) ins) → All IsWf (avps_of spec ins g)
IsWf-avps_of spec [] g = tt
IsWf-avps_of spec (i ∷ ins) g = (IsWf-good spec i g.0, IsWf-avps_of spec ins g.1)

write_avps-append : (xs ys : List Avp) → write_avps (xs ++ ys) ≡ write_avps xs ++ write_avps ys
unfolding write_avps
write_avps-append [] ys = refl
write_avps-append (x ∷ xs) ys =
    ap (λ b. write_avp x ++ b) (write_avps-append xs ys)
    ∙ sym (append_assoc (write_avp x) (write_avps xs) (write_avps ys))

length-write_avps_nil : length (write_avps []) ≡ 0
unfolding write_avps
length-write_avps_nil = refl

length-write_avps_cons :
    (a : Avp) (avps : List Avp)
    → length (write_avps (a ∷ avps)) ≡ 6 + length a.payload.data_bytes + length (write_avps avps)
unfolding write_avps
length-write_avps_cons a avps =
    omega (arith, length-append (write_avp a) (write_avps avps), length-write_avp a)

-- no AVP takes more than 1023 bytes
length-avps_of-le :
    (spec : MsgSpec) (ins : List AvpIn) (g : All (IsGood spec) ins)
    → length (write_avps (avps_of spec ins g)) ≤ 1023 * length ins
length-avps_of-le spec [] g = unfold write_avps in omega arith
length-avps_of-le spec (i ∷ ins) (g, gs) = omega (
  arith,
  length-write_avps_cons g.avp (avps_of spec ins gs),
  length-avps_of-le spec ins gs,
  g.short,
)

length-write_avps-concat :
    (acc : List Avp) (a : Avp)
    → length (write_avps (acc ++ a ∷ []))
      ≡ length (write_avps acc) + 6 + length a.payload.data_bytes
unfolding write_avps
length-write_avps-concat acc a = omega (
  arith,
  ap length (write_avps-append acc (a ∷ [])),
  length-append (write_avps acc) (write_avps (a ∷ [])),
  length-write_avps_cons a [],
)

total_len-sized : (a : Avp) → IsWf a → total_len a.header ≡ 6 + length a.payload.data_bytes
unfolding data_len
total_len-sized a w = ground (arith, w.sized)

append_avp_v2-v2_message :
    (tid sid : ℕ) (acc : List Avp) (a : Avp)
    → IsWf a
    → 12 + length (write_avps (acc ++ a ∷ [])) < 65536
    → append_avp_v2 (v2_message tid sid acc) a ≡ v2_message tid sid (acc ++ a ∷ [])
unfolding append_avp_v2
append_avp_v2-v2_message tid sid acc a w h =
    let size = length-write_avps-concat acc a in
    let len : u16 (12 + length (write_avps acc) + u16 (total_len a.header))
        ≡ 12 + length (write_avps (acc ++ a ∷ [])) =
      omega (arith, total_len-sized a w) in
    rw len

append_all-good :
    (spec : MsgSpec) (tid sid : ℕ) (ins : List AvpIn) (g : All (IsGood spec) ins) (acc : List Avp)
    → 12 + length (write_avps (acc ++ avps_of spec ins g)) < 65536
    → append_all (v2_message tid sid acc) ins ≡ ok (v2_message tid sid (acc ++ avps_of spec ins g))
unfolding append_all
append_all-good spec tid sid [] g acc h = ap (λ x. ok (v2_message tid sid x)) (sym (append-nil acc))
append_all-good spec tid sid (i ∷ ins) (g, gs) acc h =
    let assoc = append_assoc acc (g.avp ∷ []) (avps_of spec ins gs) in
    let fits = subst (λ x. 12 + length (write_avps x) < 65536) (sym assoc) h in
    let split = ap length (write_avps-append (acc ++ g.avp ∷ []) (avps_of spec ins gs)) in
    let part = length-append (write_avps (acc ++ g.avp ∷ [])) (write_avps (avps_of spec ins gs)) in
    rw
      (
        g.built,
        append_avp_v2-v2_message tid sid acc g.avp (IsWf-good spec i g)
            (omega (arith, split, part)),
      )
      (append_all-good spec tid sid ins gs (acc ++ g.avp ∷ []) fits
        ∙ ap (λ x. ok (v2_message tid sid x)) assoc)

pub build_v2_msg-good :
    (spec : MsgSpec) (tid sid : ℕ) (ins : List AvpIn) (g : All (IsGood spec) ins)
    → IsU16 tid
    → IsU16 sid
    → 12 + length (write_avps (avps_of spec ins g)) < 65536
    → build_v2_msg tid sid ins ≡ ok (v2_message tid sid (avps_of spec ins g))
unfolding build_v2_msg new_v2_control_message new_v2_message_header avps_length_bytes write_avps
build_v2_msg-good spec tid sid ins g ht hs h =
    let t : ltb 65535 tid ≡ false = le→ltb _ _ (omega arith) in
    let s : ltb 65535 sid ≡ false = le→ltb _ _ (omega arith) in
    let tid_same : u16 tid ≡ tid = omega arith in
    let sid_same : u16 sid ≡ sid = omega arith in
    rw (t, s, tid_same, sid_same) (append_all-good spec tid sid ins g [] h)

-- each AVP that must exist is among the inputs
abbrev pub OccursIn : ℕ → List AvpIn → Type 0
OccursIn t [] = ⊥
OccursIn t (i ∷ ins) = (i.typ ≡ t) ⊎ OccursIn t ins

abbrev pub RequiredIn : MsgSpec → List AvpIn → Type 0
RequiredIn [] ins = Unit
RequiredIn ((t, must_exist) ∷ spec) ins = OccursIn t ins × RequiredIn spec ins
RequiredIn ((t, may_exist) ∷ spec) ins = RequiredIn spec ins

avp_type-good : (spec : MsgSpec) (i : AvpIn) (g : IsGood spec i) → g.avp.header.avp_type ≡ i.typ
avp_type-good spec i g =
    let (info, buf, found, encoded, made) = new_avp_inv 0 i.typ i.value g.built in
    ap (λ a. a.header.avp_type) (sym made)
    ∙ (new_avp_header_fields info.is_mandatory false (length buf) 0 i.typ).4

Occurs-avps_of :
    (spec : MsgSpec) (t : ℕ) (ins : List AvpIn) (g : All (IsGood spec) ins)
    → OccursIn t ins
    → Occurs t (avps_of spec ins g)
Occurs-avps_of spec t [] g h = h
Occurs-avps_of spec t (i ∷ ins) (g, gs) (inl e) = inl (avp_type-good spec i g ∙ e)
Occurs-avps_of spec t (i ∷ ins) (g, gs) (inr h) = inr (Occurs-avps_of spec t ins gs h)

HasRequired-avps_of :
    (spec part : MsgSpec) (ins : List AvpIn) (g : All (IsGood spec) ins)
    → RequiredIn part ins
    → HasRequired part (avps_of spec ins g)
HasRequired-avps_of spec [] ins g h = tt
HasRequired-avps_of spec ((t, must_exist) ∷ part) ins g (h, hs) =
    (Occurs-avps_of spec t ins g h, HasRequired-avps_of spec part ins g hs)
HasRequired-avps_of spec ((t, may_exist) ∷ part) ins g h = HasRequired-avps_of spec part ins g h

Accepts-avps_of :
    (spec : MsgSpec) (ins : List AvpIn) (g : All (IsGood spec) ins)
    → All (Accepts spec) (avps_of spec ins g)
Accepts-avps_of spec [] g = tt
Accepts-avps_of spec (i ∷ ins) (g, gs) = (
  named g.use_of (decoded i.value) (ap (has_avp spec) (avp_type-good spec i g) ∙ g.is_named)
      (decode-new_avp 0 i.typ i.value g.in_range g.built),
  Accepts-avps_of spec ins gs,
)

decode_msg_type-decode :
    (a : Avp) (t : ℕ) → decode a ≡ ok (Value.msg_type t) → decode_msg_type a ≡ ok t
unfolding decode decode_msg_type
decode_msg_type-decode a t h = go a.payload.data_type a.payload h
  where
    go :
        (d : DataType) (p : AvpPayload)
        → decode_as d p ≡ ok (Value.msg_type t)
        → (if same_data_type d DataType.msg_id then to_uint16 p else err not_of_data_type) ≡ ok t
    go DataType.msg_id p h = let (n, e, k) = map_ok-eq-ok Value.msg_type (to_uint16 p) h in e ∙ cc
    go DataType.uint16 p h = let (n, e, k) = map_ok-eq-ok Value.uint16 (to_uint16 p) h in cc
    go DataType.uint32 p h = let (n, e, k) = map_ok-eq-ok Value.uint32 (to_uint32 p) h in cc
    go DataType.uint64 p h = let (n, e, k) = map_ok-eq-ok Value.uint64 (to_uint64 p) h in cc
    go DataType.string p h = let (n, e, k) = map_ok-eq-ok Value.string (to_string p) h in cc
    go DataType.result_code p h =
        let (n, e, k) = map_ok-eq-ok Value.result_code (to_result_code p) h in cc
    go _ p h = cc

first_type-ok :
    (a : Avp) (t : ℕ) → a.header.avp_type ≡ 0 → decode_msg_type a ≡ ok t → first_type a ≡ ok t
unfolding first_type
first_type-ok a t e d = rw (d, e)

-- A message that passes the checks of the sender, and whose type is `t`.
pub record IsSendable (t : ℕ) (r : Result V2ControlMessage) : Type 0 where
  pub msg : V2ControlMessage
  pub is_built : r ≡ ok msg
  pub has_type : get_type (v2 msg) ≡ ok t
  pub is_valid : validate (v2 msg) ≡ ok tt
  pub is_message : IsMessage (v2 msg)

module _ (t : ℕ) (spec : MsgSpec) (rest : List AvpIn) where
  abbrev typed_ins : List AvpIn
  typed_ins = avp_in 0 (Value.msg_type t) ∷ rest

  pub build_v2_msg-IsSendable :
      (tid sid : ℕ)
      → get_v2_msg_spec t ≡ ok spec
      → IsMap spec
      → All (IsGood spec) typed_ins
      → RequiredIn spec typed_ins
      → length rest ≤ 60
      → IsU16 tid
      → IsU16 sid
      → IsSendable t (build_v2_msg tid sid typed_ins)
  build_v2_msg-IsSendable tid sid has_spec map g req few ht hs = record {
    msg = v2_message tid sid (avps_of spec typed_ins g);
    is_built = build_v2_msg-good spec tid sid typed_ins g ht hs small;
    has_type = type_is;
    is_valid =
        unfold validate in
        rw (type_is, has_spec)
          ((validate_avps_iff spec (avps_of spec typed_ins g) map).1
            (Accepts-avps_of spec typed_ins g, HasRequired-avps_of spec spec typed_ins g req));
    is_message = (
      record {
        flags_fit = omega arith;
        version_is = refl;
        tid_fits = ht;
        sid_fits = hs;
        ns_fits = omega arith;
        nr_fits = omega arith;
      },
      record {
        avps_wf = IsWf-avps_of spec typed_ins g;
        type_first = avp_type-good spec _ g.0;
        len_is = refl;
        len_fits = small;
      },
    );
  }
    where
      small : 12 + length (write_avps (avps_of spec typed_ins g)) < 65536
      small = omega (arith, length-avps_of-le spec typed_ins g)

      type_is : get_type (v2 (v2_message tid sid (avps_of spec typed_ins g))) ≡ ok t
      type_is =
          unfold get_type in
          first_type-ok g.0.avp t (avp_type-good spec _ g.0) (
            decode_msg_type-decode g.0.avp t
              (decode-new_avp 0 0 (Value.msg_type t) g.0.in_range g.0.built))
