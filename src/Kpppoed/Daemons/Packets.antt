-- ===== src/Kpppoed/Daemons/Packets.antt =====
-- cmd/kpppoed/kpppoed.go: the invariant of the daemons through the handlers of the packets.
use go_l2tp_debian.Prelude.{Bool, true, false, ◌==◌, if◌then◌else◌}
use go_l2tp_debian.Prelude.Eq.{nat_eq}
use go_l2tp_debian.Prelude.Maps.{lookup}
use go_l2tp_debian.Pppoe.Packet.{
  PppoePacket, pppoe_code_padi, pppoe_code_pado, pppoe_code_padr, pppoe_code_pads, pppoe_code_padt,
}
use go_l2tp_debian.Kpppoed.State.{Application, Outside}
use go_l2tp_debian.Kpppoed.Handlers.{
  Handled, handle_padi, handle_padr, handle_padt, handle_packet, get_packet_service_name,
}
use go_l2tp_debian.Kpppoed.Daemons.Kept.{IsSound, Keeps, offer-Keeps}
use go_l2tp_debian.Kpppoed.Daemons.Spawned.{handle_named_padr-Keeps}
use go_l2tp_debian.Kpppoed.Daemons.Closing.{padt_found-Keeps}

module _ (w : Outside) where
  if-Keeps : (b : Bool) (h k : Handled) → Keeps w h → Keeps w k → Keeps w (if b then h else k)
  if-Keeps true h k x y = x
  if-Keeps false h k x y = y

  pub handle_packet-Keeps :
      (pkt : PppoePacket) (app : Application) → IsSound app → Keeps w (handle_packet w pkt app)
  unfolding handle_packet handle_padi handle_padr handle_padt
  handle_packet-Keeps pkt app v =
      let name = get_packet_service_name w.config pkt in
      if-Keeps (pkt.code == pppoe_code_padi) _ _ (offer-Keeps w pkt app name v) (
        if-Keeps (pkt.code == pppoe_code_padr) _ _ (handle_named_padr-Keeps w pkt app name v) (
          if-Keeps (pkt.code == pppoe_code_padt) _ _
            (padt_found-Keeps w pkt.session_id app (lookup pkt.session_id app.sessions) v)
            (if-Keeps (pkt.code == pppoe_code_pado) _ _ v
              (if-Keeps (pkt.code == pppoe_code_pads) _ _ v v))))
