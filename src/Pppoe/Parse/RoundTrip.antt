-- ===== src/Pppoe/Parse/RoundTrip.antt =====
-- pppoe/pppoe.go: the parsing of packets that were written.
use go_l2tp_debian.Prelude.{
  ℕ, zero, suc, ◌/◌, ◌%◌, ◌<◌, ◌≡◌, arith, refl, ap, ◌∙◌, true, false, List, [], ◌∷◌, ◌++◌, ltb,
  length, All, length-append, take-append, drop-append,
}
use go_l2tp_debian.Prelude.Result.{Result, ok, map_ok, >>=-eq-ok}
use go_l2tp_debian.Prelude.Bytes.{Bytes, IsU16, u16, from_be16, from_be16-be16}
use go_l2tp_debian.Pppoe.Packet.{HwAddr, PppoeTag, PppoePacket, PacketSpec, packet_spec, validate}
use go_l2tp_debian.Pppoe.Build.{eth_type_discovery, tag_bytes, tag_list_bytes, hw_bytes, to_bytes}
use go_l2tp_debian.Pppoe.Parse.{
  tag_loop, new_tag_list_from_buffer, PppoeHeader, known_code, with_tags, new_packet_from_buffer,
  parse_payload, packet_loop, parse_packet_buffer,
}

pub record TagFits (tag : PppoeTag) : Type 0 where
  pub typ_fits : IsU16 tag.typ
  pub data_fits : IsU16 (length tag.data_bytes)

-- The fields have the sizes of their Go types, and the tags the length that the header can say.
pub record Fits (p : PppoePacket) : Type 0 where
  pub session_id_fits : IsU16 p.session_id
  pub tags_fit : All TagFits p.tags
  pub length_fits : IsU16 (length (tag_list_bytes p.tags))
  pub valid : validate p ≡ ok tt

ltb_append : (xs ys : Bytes) → ltb (length (xs ++ ys)) (length xs) ≡ false
ltb_append xs ys = ground (arith, length-append xs ys)

tag_loop-step :
    (fuel t1 t2 l1 l2 : ℕ) (bytes rest : Bytes)
    → from_be16 l1 l2 ≡ length bytes
    → tag_loop (suc fuel) (t1 ∷ t2 ∷ l1 ∷ l2 ∷ bytes ++ rest)
      ≡ map_ok
          (λ tags. record { typ = from_be16 t1 t2; data_bytes = bytes } ∷ tags)
          (tag_loop fuel rest)
unfolding tag_loop
tag_loop-step fuel t1 t2 l1 l2 bytes rest h =
    rw (h, ltb_append bytes rest, take-append bytes rest, drop-append bytes rest)

tag_loop-bytes :
    (fuel : ℕ) (tags : List PppoeTag)
    → All TagFits tags
    → length (tag_list_bytes tags) < fuel
    → tag_loop fuel (tag_list_bytes tags) ≡ ok tags
unfolding tag_loop tag_list_bytes tag_bytes
tag_loop-bytes zero tags f h = absurd (omega (arith, h))
tag_loop-bytes (suc fuel) [] f h = refl
tag_loop-bytes (suc fuel) (tag ∷ tags) (f, fs) h =
    let n = length tag.data_bytes in
    let len_eq : from_be16 (u16 n / 256 % 256) (u16 n % 256) ≡ n = omega (arith, f.data_fits) in
    let typ_eq : from_be16 (tag.typ / 256 % 256) (tag.typ % 256) ≡ tag.typ =
      from_be16-be16 tag.typ f.typ_fits in
    let shorter : length (tag_list_bytes tags) < fuel =
      omega (arith, h, length-append tag.data_bytes (tag_list_bytes tags)) in
    tag_loop-step fuel (tag.typ / 256 % 256) (tag.typ % 256) (u16 n / 256 % 256) (u16 n % 256)
      tag.data_bytes (tag_list_bytes tags) len_eq
    ∙ rw (tag_loop-bytes fuel tags fs shorter, typ_eq)

spec_known :
    (code sid : ℕ) (spec : PacketSpec) → packet_spec code sid ≡ ok spec → known_code code ≡ true
unfolding packet_spec known_code
spec_known code sid spec h = ground arith

known_code_valid : (p : PppoePacket) → validate p ≡ ok tt → known_code p.code ≡ true
unfolding validate
known_code_valid p h =
    let (spec, found, rest) = >>=-eq-ok (packet_spec p.code p.session_id) _ h in
    spec_known p.code p.session_id spec found

header_of : PppoePacket → PppoeHeader
header_of p = record {
  dst_hw_addr = p.dst_hw_addr;
  src_hw_addr = p.src_hw_addr;
  ether_type = eth_type_discovery;
  code = p.code;
  session_id = p.session_id;
  len = length (tag_list_bytes p.tags);
}

new_packet-bytes :
    (p : PppoePacket) → Fits p → new_packet_from_buffer (header_of p) (tag_list_bytes p.tags) ≡ ok p
unfolding new_packet_from_buffer new_tag_list_from_buffer with_tags header_of
new_packet-bytes p f = rw (
  known_code_valid p f.valid,
  tag_loop-bytes (suc (length (tag_list_bytes p.tags))) p.tags f.tags_fit (omega arith),
  f.valid,
)

parse_payload-bytes :
    (p : PppoePacket) (more : Bytes) (later : Result (List PppoePacket))
    → Fits p
    → parse_payload (header_of p) (tag_list_bytes p.tags ++ more) later
      ≡ map_ok (λ ps. p ∷ ps) later
unfolding parse_payload header_of
parse_payload-bytes p more later f = rw (
  ltb_append (tag_list_bytes p.tags) more,
  take-append (tag_list_bytes p.tags) more,
  new_packet-bytes p f,
)

packet_loop-step :
    (fuel : ℕ) (dst src : HwAddr) (e1 e2 ver code i1 i2 l1 l2 : ℕ) (payload more : Bytes)
    → from_be16 l1 l2 ≡ length payload
    → packet_loop
        (suc fuel)
        (hw_bytes dst ++ hw_bytes src ++ e1 ∷ e2 ∷ ver ∷ code ∷ i1 ∷ i2 ∷ l1 ∷ l2 ∷ payload ++ more)
      ≡ parse_payload
          (record {
            dst_hw_addr = dst;
            src_hw_addr = src;
            ether_type = from_be16 e1 e2;
            code = code;
            session_id = from_be16 i1 i2;
            len = from_be16 l1 l2;
          })
          (payload ++ more)
          (packet_loop fuel more)
unfolding packet_loop
packet_loop-step fuel dst src e1 e2 ver code i1 i2 l1 l2 payload more h =
    rw (h, ltb_append payload more, drop-append payload more)

pub packet_loop-bytes :
    (fuel : ℕ) (p : PppoePacket) (more : Bytes)
    → Fits p
    → packet_loop (suc fuel) (to_bytes p ++ more) ≡ map_ok (λ ps. p ∷ ps) (packet_loop fuel more)
unfolding to_bytes header_of
packet_loop-bytes fuel p more f =
    let n = length (tag_list_bytes p.tags) in
    let sid = p.session_id in
    let len_eq : from_be16 (u16 n / 256 % 256) (u16 n % 256) ≡ n = omega (arith, f.length_fits) in
    packet_loop-step fuel p.dst_hw_addr p.src_hw_addr 136 99 17 p.code (sid / 256 % 256) (sid % 256)
      (u16 n / 256 % 256) (u16 n % 256) (tag_list_bytes p.tags) more len_eq
    ∙ rw (len_eq, from_be16-be16 sid f.session_id_fits)
        (parse_payload-bytes p more (packet_loop fuel more) f)

-- one packet behind the other
abbrev pub all_bytes : List PppoePacket → Bytes
all_bytes [] = []
all_bytes (p ∷ ps) = to_bytes p ++ all_bytes ps

some_bytes : (p : PppoePacket) (more : Bytes) → length more < length (to_bytes p ++ more)
unfolding to_bytes
some_bytes p more = omega (arith, length-append (tag_list_bytes p.tags) more)

packet_loop-all_bytes :
    (fuel : ℕ) (ps : List PppoePacket)
    → All Fits ps
    → length (all_bytes ps) < fuel
    → packet_loop fuel (all_bytes ps) ≡ ok ps
unfolding packet_loop
packet_loop-all_bytes zero ps f h = absurd (omega (arith, h))
packet_loop-all_bytes (suc fuel) [] f h = refl
packet_loop-all_bytes (suc fuel) (p ∷ ps) (f, fs) h =
    packet_loop-bytes fuel p (all_bytes ps) f
    ∙ ap (map_ok (λ qs. p ∷ qs))
        (packet_loop-all_bytes fuel ps fs (omega (arith, h, some_bytes p (all_bytes ps))))

-- ParsePacketBuffer on valid packets written one behind the other gives the packets back, where
-- session IDs, tag types and the lengths of the tags' data and of all of a packet's tags have 16
-- bits.
pub parse_packet_buffer-to_bytes :
    (ps : List PppoePacket) → All Fits ps → parse_packet_buffer (all_bytes ps) ≡ ok ps
unfolding parse_packet_buffer
parse_packet_buffer-to_bytes ps f =
    packet_loop-all_bytes (suc (length (all_bytes ps))) ps f (omega arith)
