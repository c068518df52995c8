-- ===== src/Pppoe/Parse.antt =====
-- pppoe/pppoe.go: the parsing of packets. The loops run on fuel: each round takes four bytes, or
-- twenty, at least, so the length of the buffer is enough.
pub mod RoundTrip
pub mod Ends
use go_l2tp_debian.Prelude.{
  ℕ, zero, suc, ◌+◌, Bool, List, [], ◌∷◌, ◌==◌, ◌||◌, ltb, length, take, drop, if◌then◌else◌,
}
use go_l2tp_debian.Prelude.Result.{
  Result, Error, ok, err, panic, stuck, slice_bounds, ◌>>=◌, ◌>>◌, wrap, map_ok, unrecognised_code,
  malformed_tag, malformed_packet, tags_failed, packet_invalid, packet_failed,
}
use go_l2tp_debian.Prelude.Bytes.{Bytes, from_be16}
use go_l2tp_debian.Pppoe.Packet.{
  HwAddr, PppoeTag, PppoePacket, pppoe_code_padi, pppoe_code_pado, pppoe_code_padr, pppoe_code_pads,
  pppoe_code_padt, validate,
}
use go_l2tp_debian.Pppoe.Build.{eth_type_discovery}

-- The slice of the first `n` bytes of what is left. Go panics past the capacity of the buffer, which
-- may be more than its length: here a slice past the end of what is left is a panic.
unfoldable pub slice_to : ℕ → Bytes → Result Bytes
slice_to n rest = if ltb (length rest) n then panic slice_bounds else ok (take n rest)

-- the loop of `newTagListFromBuffer`: what is left is less than four bytes, or starts with a header
unfoldable pub tag_loop : ℕ → Bytes → Result (List PppoeTag)
unfolding slice_to
tag_loop zero buf = stuck
tag_loop (suc fuel) (t1 ∷ t2 ∷ l1 ∷ l2 ∷ rest) =
    let len = from_be16 l1 l2 in
    let later = tag_loop fuel (drop len rest) in
    if ltb (length rest) len
    then err malformed_tag
    else (slice_to len rest >>= λ bytes.
        map_ok (λ tags. record { typ = from_be16 t1 t2; data_bytes = bytes } ∷ tags) later)
tag_loop (suc fuel) buf = ok []

unfoldable pub new_tag_list_from_buffer : Bytes → Result (List PppoeTag)
unfolding tag_loop
new_tag_list_from_buffer buf = tag_loop (suc (length buf)) buf

-- `pppoeHeader`, less the version and type, which nothing reads
pub record PppoeHeader : Type 0 where
  pub dst_hw_addr : HwAddr
  pub src_hw_addr : HwAddr
  pub ether_type : ℕ
  pub code : ℕ
  pub session_id : ℕ
  pub len : ℕ

unfoldable pub known_code : ℕ → Bool
known_code c =
    c == pppoe_code_padi
    || c == pppoe_code_pado
    || c == pppoe_code_padr
    || c == pppoe_code_pads
    || c == pppoe_code_padt

abbrev pub packet_of : PppoeHeader → List PppoeTag → PppoePacket
packet_of h tags = record {
  src_hw_addr = h.src_hw_addr;
  dst_hw_addr = h.dst_hw_addr;
  code = h.code;
  session_id = h.session_id;
  tags = tags;
}

unfoldable pub with_tags : PppoeHeader → List PppoeTag → Result PppoePacket
unfolding validate
with_tags h tags = wrap packet_invalid (validate (packet_of h tags)) >> ok (packet_of h tags)

unfoldable pub new_packet_from_buffer : PppoeHeader → Bytes → Result PppoePacket
unfolding known_code new_tag_list_from_buffer with_tags
new_packet_from_buffer h payload =
    if known_code h.code
    then wrap tags_failed (new_tag_list_from_buffer payload) >>= with_tags h
    else err unrecognised_code

-- the rest of a round of `ParsePacketBuffer`, with what the later rounds return: a frame of another
-- type is skipped
unfoldable pub parse_payload :
    PppoeHeader → Bytes → Result (List PppoePacket) → Result (List PppoePacket)
unfolding new_packet_from_buffer slice_to
parse_payload h rest later =
    if h.ether_type == eth_type_discovery
    then (slice_to h.len rest >>= λ payload.
        wrap packet_failed (new_packet_from_buffer h payload) >>= λ p. map_ok (λ ps. p ∷ ps) later)
    else later

unfoldable pub packet_loop : ℕ → Bytes → Result (List PppoePacket)
unfolding parse_payload
packet_loop zero b = stuck
packet_loop (suc fuel)
      (d0 ∷ d1 ∷ d2 ∷ d3 ∷ d4 ∷ d5 ∷ s0 ∷ s1 ∷ s2 ∷ s3 ∷ s4 ∷ s5 ∷ e1 ∷ e2 ∷ ver ∷ code ∷ i1 ∷ i2
        ∷ l1 ∷ l2 ∷ rest) =
    let h : PppoeHeader = record {
      dst_hw_addr = record { b0 = d0; b1 = d1; b2 = d2; b3 = d3; b4 = d4; b5 = d5 };
      src_hw_addr = record { b0 = s0; b1 = s1; b2 = s2; b3 = s3; b4 = s4; b5 = s5 };
      ether_type = from_be16 e1 e2;
      code = code;
      session_id = from_be16 i1 i2;
      len = from_be16 l1 l2;
    } in
    let later = packet_loop fuel (drop (from_be16 l1 l2) rest) in
    if ltb (length rest) (from_be16 l1 l2) then err malformed_packet else parse_payload h rest later
packet_loop (suc fuel) b = ok []

unfoldable pub parse_packet_buffer : Bytes → Result (List PppoePacket)
unfolding packet_loop
parse_packet_buffer b = packet_loop (suc (length b)) b
