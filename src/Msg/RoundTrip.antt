-- ===== src/Msg/RoundTrip.antt =====
-- Reading the bytes of a written message gives the message back (`toBytes`, `parseMessageBuffer`).
use go_l2tp_debian.Prelude.{
  ℕ, suc, ◌+◌, ◌-◌, ◌≤◌, ◌≡◌, ◌≢◌, refl, sym, ap, ◌∙◌, false, List, [], ◌∷◌, ◌++◌, append-nil,
  arith, length, ltb, le→ltb, lt→ltb, drop, length-drop, length-append, take-append, take-length,
  drop-append_add, drop-drop, All, bit_and,
}
use go_l2tp_debian.Prelude.Result.{ok, map_ok}
use go_l2tp_debian.Prelude.Bytes.{Bytes, IsU16, IsU32, u16}
use go_l2tp_debian.Avp.Payload.{Avp}
use go_l2tp_debian.Avp.Parse.{parse_avp_buffer}
use go_l2tp_debian.Avp.Write.{write_avp, write_avps}
use go_l2tp_debian.Avp.ParseRoundTrip.{IsWf, length-write_avp, parse_avp_buffer-write_avps}
use go_l2tp_debian.Msg.Message.{
  CommonHeader, V2Header, V3Header, V2ControlMessage, V3ControlMessage, ControlMessage, v2, v3,
  protocol_version, v2_to_bytes, v3_to_bytes, to_bytes, common_header_len,
}
use go_l2tp_debian.Msg.Parse.{
  slice, read_common, read_v2_header, read_v3_header, message_first, read_avps, v2_avps,
  bytes_to_v2_ctl_msg, bytes_to_v3_ctl_msg, read_message, read_frame, on_common, message_round,
  message_loop, parse_message_buffer,
}
use go_l2tp_debian.Msg.Steps.{message_loop_more, message_loop_fuel, message_loop_acc}

-- the fields of the headers fit, and the version is the header's
pub record IsV2Header (h : V2Header) : Type 0 where
  pub flags_fit : IsU16 h.common.flags_ver
  pub version_is : bit_and 0xf h.common.flags_ver ≡ 2
  pub tid_fits : IsU16 h.tid
  pub sid_fits : IsU16 h.sid
  pub ns_fits : IsU16 h.ns
  pub nr_fits : IsU16 h.nr

pub record IsV3Header (h : V3Header) : Type 0 where
  pub flags_fit : IsU16 h.common.flags_ver
  pub version_is : bit_and 0xf h.common.flags_ver ≡ 3
  pub ccid_fits : IsU32 h.ccid
  pub ns_fits : IsU16 h.ns
  pub nr_fits : IsU16 h.nr

-- the first AVP, if there is one, is the message type
abbrev pub MessageFirst : List Avp → Type 0
MessageFirst [] = Unit
MessageFirst (a ∷ avps) = a.header.avp_type ≡ 0

-- what both kinds of message have in common: the AVPs, and the length field that counts them
pub record IsBody (len : ℕ) (avps : List Avp) : Type 0 where
  pub avps_wf : All IsWf avps
  pub type_first : MessageFirst avps
  pub len_is : len ≡ 12 + length (write_avps avps)
  pub len_fits : IsU16 len

-- A message as the code builds it. One of version 3 has an AVP.
abbrev pub IsMessage : ControlMessage → Type 0
IsMessage (v2 m) = IsV2Header m.header × IsBody m.header.common.len m.avps
IsMessage (v3 m) = IsV3Header m.header × IsBody m.header.common.len m.avps × (m.avps ≢ [])

length-v2_to_bytes :
    (m : V2ControlMessage) → length (v2_to_bytes m) ≡ 12 + length (write_avps m.avps)
unfolding v2_to_bytes
length-v2_to_bytes m = omega arith

length-v3_to_bytes :
    (m : V3ControlMessage) → length (v3_to_bytes m) ≡ 12 + length (write_avps m.avps)
unfolding v3_to_bytes
length-v3_to_bytes m = omega arith

write_avps_pos : (a : Avp) (avps : List Avp) → 6 ≤ length (write_avps (a ∷ avps))
unfolding write_avps
write_avps_pos a avps =
    omega (arith, length-append (write_avp a) (write_avps avps), length-write_avp a)

-- the body of a frame whose header takes twelve bytes
slice_body :
    (b body : Bytes) (len : ℕ)
    → drop 12 b ≡ body
    → length b ≡ 12 + length body
    → len ≡ 12 + length body
    → slice b 12 len ≡ ok body
unfolding slice
slice_body b body len d s l =
    let low : ltb len 12 ≡ false = le→ltb _ _ (omega arith) in
    let high : ltb (length b) len ≡ false = le→ltb _ _ (omega arith) in
    let size : len - 12 ≡ length body = omega arith in rw (low, high, d, size, take-length body)

read_avps_body :
    (b : Bytes) (len : ℕ) (avps : List Avp)
    → drop 12 b ≡ write_avps avps
    → length b ≡ 12 + length (write_avps avps)
    → IsBody len avps
    → avps ≢ []
    → read_avps b 12 len ≡ ok avps
unfolding read_avps message_first
read_avps_body b len [] d s w ne = absurd (ne refl)
read_avps_body b len (a ∷ avps) d s w ne =
    let parsed : parse_avp_buffer (write_avps (a ∷ avps)) ≡ ok (a ∷ avps) =
      ap parse_avp_buffer (sym (append-nil (write_avps (a ∷ avps))))
      ∙ parse_avp_buffer-write_avps (a ∷ avps) [] w.avps_wf ne (omega arith) in
    rw (slice_body b (write_avps (a ∷ avps)) len d s w.len_is, parsed, w.type_first)

bytes_to_v2_ctl_msg-v2_to_bytes :
    (m : V2ControlMessage)
    → IsV2Header m.header
    → IsBody m.header.common.len m.avps
    → bytes_to_v2_ctl_msg (v2_to_bytes m) ≡ ok m
unfolding bytes_to_v2_ctl_msg
bytes_to_v2_ctl_msg-v2_to_bytes m h w = rw (header, avps_read m.avps refl)
  where
    header : read_v2_header (v2_to_bytes m) ≡ ok m.header
    header = unfold read_v2_header v2_to_bytes in ground arith

    body : drop 12 (v2_to_bytes m) ≡ write_avps m.avps
    body = unfold v2_to_bytes in refl

    avps_read :
        (l : List Avp) → m.avps ≡ l → v2_avps (v2_to_bytes m) m.header.common.len ≡ ok m.avps
    avps_read [] e =
        let len : m.header.common.len ≡ 12 = w.len_is ∙ rw e (unfold write_avps in refl) in
        unfold v2_avps in rw (len, e)
    avps_read (a ∷ l) e =
        unfold v2_avps in
        rw
          (lt→ltb 12 m.header.common.len
            (omega (arith, w.len_is, ap (λ x. length (write_avps x)) e, write_avps_pos a l)))
          (read_avps_body _ _ m.avps body (length-v2_to_bytes m) w (λ n. cc))

bytes_to_v3_ctl_msg-v3_to_bytes :
    (m : V3ControlMessage)
    → IsV3Header m.header
    → IsBody m.header.common.len m.avps
    → m.avps ≢ []
    → bytes_to_v3_ctl_msg (v3_to_bytes m) ≡ ok m
unfolding bytes_to_v3_ctl_msg
bytes_to_v3_ctl_msg-v3_to_bytes m h w ne =
    rw (header, read_avps_body _ _ m.avps body (length-v3_to_bytes m) w ne)
  where
    header : read_v3_header (v3_to_bytes m) ≡ ok m.header
    header = unfold read_v3_header v3_to_bytes in ground arith

    body : drop 12 (v3_to_bytes m) ≡ write_avps m.avps
    body = unfold v3_to_bytes in refl

message_common : ControlMessage → CommonHeader
message_common (v2 m) = m.header.common
message_common (v3 m) = m.header.common

length-to_bytes : (m : ControlMessage) → IsMessage m → length (to_bytes m) ≡ (message_common m).len
unfolding message_common
length-to_bytes (v2 m) (h, w) = omega (arith, length-v2_to_bytes m, w.len_is)
length-to_bytes (v3 m) (h, w, ne) = omega (arith, length-v3_to_bytes m, w.len_is)

len-ge :
    (m : ControlMessage)
    → IsMessage m
    → (12 ≤ (message_common m).len) × IsU16 (message_common m).len
unfolding message_common
len-ge (v2 m) (h, w) = omega (arith, w.len_is, w.len_fits)
len-ge (v3 m) (h, w, ne) = omega (arith, w.len_is, w.len_fits)

read_common-to_bytes :
    (m : ControlMessage) (rest : Bytes)
    → IsMessage m
    → read_common (to_bytes m ++ rest) ≡ ok (message_common m, drop 4 (to_bytes m ++ rest))
unfolding read_common v2_to_bytes v3_to_bytes message_common
read_common-to_bytes (v2 m) rest (h, w) = ground (arith, h.flags_fit, w.len_fits)
read_common-to_bytes (v3 m) rest (h, w, ne) = ground (arith, h.flags_fit, w.len_fits)

slice-to_bytes : (b rest : Bytes) (len : ℕ) → length b ≡ len → slice (b ++ rest) 0 len ≡ ok b
unfolding slice
slice-to_bytes b rest len e =
    let high : ltb (length (b ++ rest)) len ≡ false =
      le→ltb _ _ (omega (arith, length-append b rest)) in
    let size : len - 0 ≡ length b = omega arith in
    let low : ltb len 0 ≡ false = le→ltb _ _ (omega arith) in
    rw (low, high, size, take-append b rest)

read_frame-to_bytes :
    (m : ControlMessage) (rest : Bytes)
    → IsMessage m
    → read_frame (to_bytes m ++ rest) (message_common m) ≡ ok m
unfolding read_frame protocol_version read_message message_common
read_frame-to_bytes (v2 m) rest (h, w) = rw (
  h.version_is,
  slice-to_bytes (v2_to_bytes m) rest _ (length-to_bytes (v2 m) (h, w)),
  bytes_to_v2_ctl_msg-v2_to_bytes m h w,
)
read_frame-to_bytes (v3 m) rest (h, w, ne) = rw (
  h.version_is,
  slice-to_bytes (v3_to_bytes m) rest _ (length-to_bytes (v3 m) (h, w, ne)),
  bytes_to_v3_ctl_msg-v3_to_bytes m h w ne,
)

-- the round steps four bytes too far
message_round-to_bytes :
    (m : ControlMessage) (rest : Bytes)
    → IsMessage m
    → message_round (to_bytes m ++ rest) ≡ ok (m, drop 4 rest)
unfolding message_round on_common
message_round-to_bytes m rest w =
    let size = length-to_bytes m w in
    let (low, fits) = len-ge m w in
    let b : Bytes = to_bytes m ++ rest in
    let total = length-append (to_bytes m) rest in
    let within : ltb (length (drop 4 b)) (u16 ((message_common m).len + 65536 - common_header_len))
        ≡ false =
      le→ltb _ _ (omega (arith, length-drop 4 b)) in
    let next : drop (message_common m).len (drop 4 b) ≡ drop 4 rest =
      drop-drop _ 4 b
      ∙ ap (λ n. drop n b) (omega (arith, size))
      ∙ drop-append_add 4 (to_bytes m) rest in
    rw (read_common-to_bytes m rest w, within, read_frame-to_bytes m rest w, next)

-- Reading a frame that begins with a written message gives that message, and then the messages of
-- what follows it with its first four bytes left out. So a frame of one message is read back, and
-- a second message behind it is not read from its beginning.
pub parse_message_buffer-to_bytes :
    (m : ControlMessage) (rest : Bytes)
    → IsMessage m
    → parse_message_buffer (to_bytes m ++ rest)
      ≡ map_ok (λ l. m ∷ l) (parse_message_buffer (drop 4 rest))
unfolding parse_message_buffer
parse_message_buffer-to_bytes m rest w =
    let b : Bytes = to_bytes m ++ rest in
    let total = length-append (to_bytes m) rest in
    let size = length-to_bytes m w in
    let (low, fits) = len-ge m w in
    let left = length-drop 4 rest in
    message_loop_fuel (length b) (suc (length b)) b [] (omega arith) (omega arith)
    ∙ message_loop_more (length b) b [] (omega arith)
    ∙ rw (message_round-to_bytes m rest w) (
        message_loop_acc (length b) (drop 4 rest) (m ∷ [])
        ∙ ap (map_ok (λ l. m ∷ l)) (
            message_loop_fuel (length b) (length (drop 4 rest)) (drop 4 rest) [] (omega arith)
              (omega arith)))

-- a frame of one message
pub parse_message_buffer-one :
    (m : ControlMessage) → IsMessage m → parse_message_buffer (to_bytes m) ≡ ok (m ∷ [])
unfolding parse_message_buffer message_loop
parse_message_buffer-one m w =
    ap parse_message_buffer (sym (append-nil (to_bytes m))) ∙ parse_message_buffer-to_bytes m [] w
