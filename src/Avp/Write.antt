-- ===== src/Avp/Write.antt =====
-- l2tp/msg.go: how `toBytes` writes the AVPs of a message, the header and then the data of each.
use go_l2tp_debian.Prelude.{List, [], ◌∷◌, ◌++◌}
use go_l2tp_debian.Prelude.Bytes.{Bytes}
use go_l2tp_debian.Avp.Header.{write_header}
use go_l2tp_debian.Avp.Payload.{Avp}

unfoldable pub write_avp : Avp → Bytes
write_avp a = write_header a.header ++ a.payload.data_bytes

unfoldable pub write_avps : List Avp → Bytes
write_avps [] = []
write_avps (a ∷ avps) = write_avp a ++ write_avps avps
