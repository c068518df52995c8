-- ===== src/Pppoe/Parse/Ends.antt =====
-- pppoe/pppoe.go: how the loops that parse end.
use go_l2tp_debian.Prelude.{
  ℕ, zero, suc, ◌<◌, arith, List, [], ◌∷◌, length, take, drop, length-drop, ltb, if◌then◌else◌,
  Bool, true, false, ◌==◌, ◌≡◌, inl, inr, Bool-cases,
}
use go_l2tp_debian.Prelude.Result.{
  Result, Error, tags_failed, packet_invalid, packet_failed, malformed_tag, malformed_packet,
  missing_mandatory_tag, unrecognised_code, nonzero_session_id, zero_session_id, too_few_tags, ok,
  err, panic, stuck, ◌>>=◌, wrap, map_ok,
}
use go_l2tp_debian.Prelude.Bytes.{Bytes, from_be16}
use go_l2tp_debian.Pppoe.Packet.{
  pppoe_code_padi, pppoe_code_pado, pppoe_code_padr, pppoe_code_pads, pppoe_code_padt, PppoePacket,
  PppoeTag, find_tag, packet_spec, check_session_id, check_mandatory_tag, check_mandatory_tags,
  validate,
}
use go_l2tp_debian.Pppoe.Build.{eth_type_discovery}
use go_l2tp_debian.Pppoe.Parse.{
  packet_of, slice_to, tag_loop, new_tag_list_from_buffer, PppoeHeader, with_tags, known_code,
  new_packet_from_buffer, parse_payload, packet_loop, parse_packet_buffer,
}

-- a value or an error: no panic, and no lack of fuel
pub data Returns {A : Type 0} : Result A → Type 0 where
  returns_value : (a : A) → Returns (ok a)
  returns_error : (e : Error) → Returns (err e)

pub Returns-bind :
    {A B : Type 0} (m : Result A) (f : A → Result B)
    → Returns m
    → ((a : A) → Returns (f a))
    → Returns (m >>= f)
Returns-bind m f (returns_value a) h = h a
Returns-bind m f (returns_error e) h = returns_error e

Returns-wrap : {A : Type 0} (g : Error → Error) (m : Result A) → Returns m → Returns (wrap g m)
Returns-wrap g m (returns_value a) = returns_value a
Returns-wrap g m (returns_error e) = returns_error (g e)

pub Returns-map : {A B : Type 0} (g : A → B) (m : Result A) → Returns m → Returns (map_ok g m)
Returns-map g m (returns_value a) = returns_value (g a)
Returns-map g m (returns_error e) = returns_error e

pub Returns-if :
    {A : Type 0} (b : Bool) (x y : Result A) → Returns x → Returns y → Returns (if b then x else y)
Returns-if true x y h k = h
Returns-if false x y h k = k

-- a slice that a test has found to be within the bounds
checked_slice :
    {A : Type 0} (n : ℕ) (rest : Bytes) (e : Error) (use_it : Bytes → Result A)
    → ((bs : Bytes) → Returns (use_it bs))
    → Returns (if ltb (length rest) n then err e else (slice_to n rest >>= use_it))
unfolding slice_to
checked_slice n rest e use_it h = elim (Bool-cases (ltb (length rest) n)) [
  | inl beyond ↦ rw beyond (returns_error e)
  | inr within ↦ rw within (h (take n rest))
]

tag_loop-Returns : (fuel : ℕ) (buf : Bytes) → length buf < fuel → Returns (tag_loop fuel buf)
unfolding tag_loop
tag_loop-Returns zero buf h = absurd (omega (arith, h))
tag_loop-Returns (suc fuel) (t1 ∷ t2 ∷ l1 ∷ l2 ∷ rest) h =
    checked_slice (from_be16 l1 l2) rest malformed_tag _ (λ bytes.
      Returns-map _ (tag_loop fuel (drop (from_be16 l1 l2) rest)) (
        tag_loop-Returns fuel (drop (from_be16 l1 l2) rest)
          (omega (arith, h, length-drop (from_be16 l1 l2) rest))))
tag_loop-Returns (suc fuel) [] h = returns_value []
tag_loop-Returns (suc fuel) (a ∷ []) h = returns_value []
tag_loop-Returns (suc fuel) (a ∷ b ∷ []) h = returns_value []
tag_loop-Returns (suc fuel) (a ∷ b ∷ c ∷ []) h = returns_value []

tag_checked : (r : Result PppoeTag) → Returns (check_mandatory_tag r)
unfolding check_mandatory_tag
tag_checked (ok tag) = returns_value tt
tag_checked (err e) = returns_error missing_mandatory_tag
tag_checked (panic p) = returns_error missing_mandatory_tag
tag_checked stuck = returns_error missing_mandatory_tag

check_mandatory_tags-Returns :
    (typs : List ℕ) (tags : List PppoeTag) → Returns (check_mandatory_tags typs tags)
unfolding check_mandatory_tags
check_mandatory_tags-Returns [] tags = returns_value tt
check_mandatory_tags-Returns (typ ∷ typs) tags =
    Returns-bind (check_mandatory_tag (find_tag typ tags)) _ (tag_checked (find_tag typ tags))
      (λ u. check_mandatory_tags-Returns typs tags)

packet_spec-Returns : (code sid : ℕ) → Returns (packet_spec code sid)
unfolding packet_spec
packet_spec-Returns code sid = Returns-if (code == pppoe_code_padi) _ _ (returns_value _) (
    Returns-if (code == pppoe_code_pado) _ _ (returns_value _) (
      Returns-if (code == pppoe_code_padr) _ _ (returns_value _) (
        Returns-if (code == pppoe_code_padt) _ _ (returns_value _) (
          Returns-if (code == pppoe_code_pads) _ _
            (Returns-if (sid == 0) _ _ (returns_value _) (returns_value _))
            (returns_error unrecognised_code)))))

check_session_id-Returns : (b : Bool) (sid : ℕ) → Returns (check_session_id b sid)
unfolding check_session_id
check_session_id-Returns true sid =
    Returns-if (sid == 0) _ _ (returns_value tt) (returns_error nonzero_session_id)
check_session_id-Returns false sid =
    Returns-if (sid == 0) _ _ (returns_error zero_session_id) (returns_value tt)

pub validate-Returns : (p : PppoePacket) → Returns (validate p)
unfolding validate
validate-Returns p =
    Returns-bind (packet_spec p.code p.session_id) _ (packet_spec-Returns p.code p.session_id)
      (λ spec.
        Returns-bind (check_session_id spec.zero_session_id p.session_id) _
          (check_session_id-Returns spec.zero_session_id p.session_id)
          (λ u.
            Returns-if (ltb (length p.tags) (length spec.mandatory_tags)) _ _
              (returns_error too_few_tags)
              (check_mandatory_tags-Returns spec.mandatory_tags p.tags)))

new_packet-Returns :
    (h : PppoeHeader) (payload : Bytes) → Returns (new_packet_from_buffer h payload)
unfolding new_packet_from_buffer new_tag_list_from_buffer with_tags
new_packet-Returns h payload =
    Returns-if (known_code h.code) _ _
      (Returns-bind (wrap tags_failed (new_tag_list_from_buffer payload)) (with_tags h)
        (Returns-wrap tags_failed (new_tag_list_from_buffer payload)
          (tag_loop-Returns (suc (length payload)) payload (omega arith)))
        (λ tags.
          Returns-bind (wrap packet_invalid (validate (packet_of h tags))) _
            (Returns-wrap packet_invalid _ (validate-Returns (packet_of h tags)))
            (λ u. returns_value (packet_of h tags))))
      (returns_error unrecognised_code)

-- the payload lies within what is left
parse_payload-Returns :
    (h : PppoeHeader) (rest : Bytes) (later : Result (List PppoePacket))
    → ltb (length rest) h.len ≡ false
    → Returns later
    → Returns (parse_payload h rest later)
unfolding parse_payload slice_to
parse_payload-Returns h rest later within l =
    Returns-if (h.ether_type == eth_type_discovery) _ later
      (rw within (
        Returns-bind (wrap packet_failed (new_packet_from_buffer h (take h.len rest))) _
          (Returns-wrap packet_failed _ (new_packet-Returns h (take h.len rest)))
          (λ p. Returns-map _ later l)))
      l

checked_payload :
    (h : PppoeHeader) (rest : Bytes) (later : Result (List PppoePacket))
    → Returns later
    → Returns (if ltb (length rest) h.len then err malformed_packet else parse_payload h rest later)
checked_payload h rest later l = elim (Bool-cases (ltb (length rest) h.len)) [
  | inl beyond ↦ rw beyond (returns_error malformed_packet)
  | inr within ↦ rw within (parse_payload-Returns h rest later within l)
]

packet_loop-Returns : (fuel : ℕ) (b : Bytes) → length b < fuel → Returns (packet_loop fuel b)
unfolding packet_loop
packet_loop-Returns zero b h = absurd (omega (arith, h))
packet_loop-Returns (suc fuel)
      (d0 ∷ d1 ∷ d2 ∷ d3 ∷ d4 ∷ d5 ∷ s0 ∷ s1 ∷ s2 ∷ s3 ∷ s4 ∷ s5 ∷ e1 ∷ e2 ∷ ver ∷ code ∷ i1 ∷ i2
        ∷ l1 ∷ l2 ∷ rest)
      h =
    checked_payload
      (record {
        dst_hw_addr = record { b0 = d0; b1 = d1; b2 = d2; b3 = d3; b4 = d4; b5 = d5 };
        src_hw_addr = record { b0 = s0; b1 = s1; b2 = s2; b3 = s3; b4 = s4; b5 = s5 };
        ether_type = from_be16 e1 e2;
        code = code;
        session_id = from_be16 i1 i2;
        len = from_be16 l1 l2;
      })
      rest (packet_loop fuel (drop (from_be16 l1 l2) rest))
      (packet_loop-Returns fuel (drop (from_be16 l1 l2) rest)
        (omega (arith, h, length-drop (from_be16 l1 l2) rest)))
packet_loop-Returns (suc fuel) [] h = returns_value []
packet_loop-Returns (suc fuel) (a0 ∷ []) h = returns_value []
packet_loop-Returns (suc fuel) (a0 ∷ a1 ∷ []) h = returns_value []
packet_loop-Returns (suc fuel) (a0 ∷ a1 ∷ a2 ∷ []) h = returns_value []
packet_loop-Returns (suc fuel) (a0 ∷ a1 ∷ a2 ∷ a3 ∷ []) h = returns_value []
packet_loop-Returns (suc fuel) (a0 ∷ a1 ∷ a2 ∷ a3 ∷ a4 ∷ []) h = returns_value []
packet_loop-Returns (suc fuel) (a0 ∷ a1 ∷ a2 ∷ a3 ∷ a4 ∷ a5 ∷ []) h = returns_value []
packet_loop-Returns (suc fuel) (a0 ∷ a1 ∷ a2 ∷ a3 ∷ a4 ∷ a5 ∷ a6 ∷ []) h = returns_value []
packet_loop-Returns (suc fuel) (a0 ∷ a1 ∷ a2 ∷ a3 ∷ a4 ∷ a5 ∷ a6 ∷ a7 ∷ []) h = returns_value []
packet_loop-Returns (suc fuel) (a0 ∷ a1 ∷ a2 ∷ a3 ∷ a4 ∷ a5 ∷ a6 ∷ a7 ∷ a8 ∷ []) h =
    returns_value []
packet_loop-Returns (suc fuel) (a0 ∷ a1 ∷ a2 ∷ a3 ∷ a4 ∷ a5 ∷ a6 ∷ a7 ∷ a8 ∷ a9 ∷ []) h =
    returns_value []
packet_loop-Returns (suc fuel) (a0 ∷ a1 ∷ a2 ∷ a3 ∷ a4 ∷ a5 ∷ a6 ∷ a7 ∷ a8 ∷ a9 ∷ a10 ∷ []) h =
    returns_value []
packet_loop-Returns (suc fuel) (a0 ∷ a1 ∷ a2 ∷ a3 ∷ a4 ∷ a5 ∷ a6 ∷ a7 ∷ a8 ∷ a9 ∷ a10 ∷ a11 ∷ [])
      h =
    returns_value []
packet_loop-Returns (suc fuel)
      (a0 ∷ a1 ∷ a2 ∷ a3 ∷ a4 ∷ a5 ∷ a6 ∷ a7 ∷ a8 ∷ a9 ∷ a10 ∷ a11 ∷ a12 ∷ []) h =
    returns_value []
packet_loop-Returns (suc fuel)
      (a0 ∷ a1 ∷ a2 ∷ a3 ∷ a4 ∷ a5 ∷ a6 ∷ a7 ∷ a8 ∷ a9 ∷ a10 ∷ a11 ∷ a12 ∷ a13 ∷ []) h =
    returns_value []
packet_loop-Returns (suc fuel)
      (a0 ∷ a1 ∷ a2 ∷ a3 ∷ a4 ∷ a5 ∷ a6 ∷ a7 ∷ a8 ∷ a9 ∷ a10 ∷ a11 ∷ a12 ∷ a13 ∷ a14 ∷ []) h =
    returns_value []
packet_loop-Returns (suc fuel)
      (a0 ∷ a1 ∷ a2 ∷ a3 ∷ a4 ∷ a5 ∷ a6 ∷ a7 ∷ a8 ∷ a9 ∷ a10 ∷ a11 ∷ a12 ∷ a13 ∷ a14 ∷ a15 ∷ []) h =
    returns_value []
packet_loop-Returns (suc fuel)
      (a0 ∷ a1 ∷ a2 ∷ a3 ∷ a4 ∷ a5 ∷ a6 ∷ a7 ∷ a8 ∷ a9 ∷ a10 ∷ a11 ∷ a12 ∷ a13 ∷ a14 ∷ a15 ∷ a16
        ∷ [])
      h =
    returns_value []
packet_loop-Returns (suc fuel)
      (a0 ∷ a1 ∷ a2 ∷ a3 ∷ a4 ∷ a5 ∷ a6 ∷ a7 ∷ a8 ∷ a9 ∷ a10 ∷ a11 ∷ a12 ∷ a13 ∷ a14 ∷ a15 ∷ a16
        ∷ a17 ∷ [])
      h =
    returns_value []
packet_loop-Returns (suc fuel)
      (a0 ∷ a1 ∷ a2 ∷ a3 ∷ a4 ∷ a5 ∷ a6 ∷ a7 ∷ a8 ∷ a9 ∷ a10 ∷ a11 ∷ a12 ∷ a13 ∷ a14 ∷ a15 ∷ a16
        ∷ a17 ∷ a18 ∷ [])
      h =
    returns_value []

-- ParsePacketBuffer returns packets or an error on every buffer: its loops end, and no slice of a
-- tag's data or of a packet's payload passes the end of what is left, which would be a panic.
pub parse_packet_buffer-Returns : (b : Bytes) → Returns (parse_packet_buffer b)
unfolding parse_packet_buffer
parse_packet_buffer-Returns b = packet_loop-Returns (suc (length b)) b (omega arith)
