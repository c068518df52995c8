-- ===== src/Tests/PppoeRuns.antt =====
-- pppoe/pppoe.go: the theorems on the codec at concrete inputs.
use go_l2tp_debian.Prelude.{◌≡◌, arith, [], ◌∷◌}
use go_l2tp_debian.Prelude.Result.{ok}
use go_l2tp_debian.Pppoe.Packet.{HwAddr, PppoePacket}
use go_l2tp_debian.Pppoe.Build.{new_padi, tag_list_bytes, add_tag, broadcast}
use go_l2tp_debian.Pppoe.Build.Valid.{MadeValid, new_packets-MadeValid}
use go_l2tp_debian.Pppoe.Parse.{parse_packet_buffer}
use go_l2tp_debian.Pppoe.Parse.RoundTrip.{Fits, all_bytes, parse_packet_buffer-to_bytes}
use go_l2tp_debian.Pppoe.Parse.Ends.{Returns, parse_packet_buffer-Returns}

abbrev host : HwAddr
host = record { b0 = 2; b1 = 0; b2 = 0; b3 = 0; b4 = 0; b5 = 1 }

abbrev padi : PppoePacket
padi = new_padi host (97 ∷ 98 ∷ [])

padi-Fits : Fits padi
unfolding new_padi add_tag tag_list_bytes
padi-Fits = record {
  session_id_fits = omega arith;
  tags_fit = (record { typ_fits = omega arith; data_fits = omega arith }, tt);
  length_fits = omega arith;
  valid = (new_packets-MadeValid host broadcast (97 ∷ 98 ∷ []) [] 1).padi;
}

parse_packet_buffer-to_bytes_example :
    parse_packet_buffer (all_bytes (padi ∷ padi ∷ [])) ≡ ok (padi ∷ padi ∷ [])
parse_packet_buffer-to_bytes_example =
    parse_packet_buffer-to_bytes (padi ∷ padi ∷ []) (padi-Fits, (padi-Fits, tt))

parse_packet_buffer-Returns_example : Returns (parse_packet_buffer (1 ∷ 2 ∷ 3 ∷ []))
parse_packet_buffer-Returns_example = parse_packet_buffer-Returns (1 ∷ 2 ∷ 3 ∷ [])

new_packets-MadeValid_example : MadeValid host broadcast (97 ∷ []) (98 ∷ []) 6
new_packets-MadeValid_example = new_packets-MadeValid host broadcast (97 ∷ []) (98 ∷ []) 6
