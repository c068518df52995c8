-- ===== src/Pppoe/Build.antt =====
-- pppoe/pppoe.go: the making of packets and tags, and their bytes.
pub mod Valid
use go_l2tp_debian.Prelude.{ℕ, List, [], ◌∷◌, ◌++◌, length}
use go_l2tp_debian.Prelude.Bytes.{Bytes, u16, be16}
use go_l2tp_debian.Pppoe.Packet.{
  HwAddr, PppoeTag, PppoePacket, pppoe_code_padi, pppoe_code_pado, pppoe_code_padr, pppoe_code_pads,
  pppoe_code_padt, pppoe_tag_type_service_name, pppoe_tag_type_ac_name, pppoe_tag_type_host_uniq,
  pppoe_tag_type_ac_cookie, pppoe_tag_type_service_name_error, pppoe_tag_type_ac_system_error,
  pppoe_tag_type_generic_error,
}

abbrev pub eth_type_discovery : ℕ
eth_type_discovery = 34915

-- `AddTag`: `appendTag` of `newTag`
unfoldable pub add_tag : ℕ → Bytes → PppoePacket → PppoePacket
add_tag typ bytes p = record p { tags = p.tags ++ record { typ = typ; data_bytes = bytes } ∷ [] }

abbrev pub add_service_name_tag : Bytes → PppoePacket → PppoePacket
add_service_name_tag = add_tag pppoe_tag_type_service_name

abbrev pub add_ac_name_tag : Bytes → PppoePacket → PppoePacket
add_ac_name_tag = add_tag pppoe_tag_type_ac_name

abbrev pub add_host_uniq_tag : Bytes → PppoePacket → PppoePacket
add_host_uniq_tag = add_tag pppoe_tag_type_host_uniq

abbrev pub add_ac_cookie_tag : Bytes → PppoePacket → PppoePacket
add_ac_cookie_tag = add_tag pppoe_tag_type_ac_cookie

abbrev pub add_service_name_error_tag : Bytes → PppoePacket → PppoePacket
add_service_name_error_tag = add_tag pppoe_tag_type_service_name_error

abbrev pub add_ac_system_error_tag : Bytes → PppoePacket → PppoePacket
add_ac_system_error_tag = add_tag pppoe_tag_type_ac_system_error

abbrev pub add_generic_error_tag : Bytes → PppoePacket → PppoePacket
add_generic_error_tag = add_tag pppoe_tag_type_generic_error

abbrev empty_packet : HwAddr → HwAddr → ℕ → ℕ → PppoePacket
empty_packet src dst code sid = record {
  src_hw_addr = src;
  dst_hw_addr = dst;
  code = code;
  session_id = sid;
  tags = [];
}

abbrev pub broadcast : HwAddr
broadcast = record { b0 = 255; b1 = 255; b2 = 255; b3 = 255; b4 = 255; b5 = 255 }

unfoldable pub new_padi : HwAddr → Bytes → PppoePacket
unfolding add_tag
new_padi src name = add_service_name_tag name (empty_packet src broadcast pppoe_code_padi 0)

unfoldable pub new_pado : HwAddr → HwAddr → Bytes → Bytes → PppoePacket
unfolding add_tag
new_pado src dst name ac =
    add_ac_name_tag ac (add_service_name_tag name (empty_packet src dst pppoe_code_pado 0))

unfoldable pub new_padr : HwAddr → HwAddr → Bytes → PppoePacket
unfolding add_tag
new_padr src dst name = add_service_name_tag name (empty_packet src dst pppoe_code_padr 0)

unfoldable pub new_pads : HwAddr → HwAddr → Bytes → ℕ → PppoePacket
unfolding add_tag
new_pads src dst name sid = add_service_name_tag name (empty_packet src dst pppoe_code_pads sid)

unfoldable pub new_padt : HwAddr → HwAddr → ℕ → PppoePacket
new_padt src dst sid = empty_packet src dst pppoe_code_padt sid

-- `toBytes` of a tag: the length of the data is cut to 16 bits
unfoldable pub tag_bytes : PppoeTag → Bytes
tag_bytes tag = be16 tag.typ ++ be16 (u16 (length tag.data_bytes)) ++ tag.data_bytes

unfoldable pub tag_list_bytes : List PppoeTag → Bytes
unfolding tag_bytes
tag_list_bytes [] = []
tag_list_bytes (tag ∷ tags) = tag_bytes tag ++ tag_list_bytes tags

abbrev pub hw_bytes : HwAddr → Bytes
hw_bytes a = a.b0 ∷ a.b1 ∷ a.b2 ∷ a.b3 ∷ a.b4 ∷ a.b5 ∷ []

-- `ToBytes` of a packet: the length of the tags is cut to 16 bits
unfoldable pub to_bytes : PppoePacket → Bytes
unfolding tag_list_bytes
to_bytes p =
    let encoded = tag_list_bytes p.tags in
    hw_bytes p.dst_hw_addr
    ++ hw_bytes p.src_hw_addr
    ++ be16 eth_type_discovery
    ++ 17 ∷ p.code ∷ be16 p.session_id
    ++ be16 (u16 (length encoded))
    ++ encoded
