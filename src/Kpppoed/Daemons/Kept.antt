-- ===== src/Kpppoed/Daemons/Kept.antt =====
-- cmd/kpppoed/kpppoed.go: the invariant of the daemons, and the packets that are sent.
use go_l2tp_debian.Prelude.{
  ℕ, ◌≤◌, ◌≡◌, Bool, true, false, Option, none, some, ◌&&◌, length, if◌then◌else◌,
}
use go_l2tp_debian.Prelude.Result.{
  Result, Error, ok, err, panic, stuck, write_failed, validate_failed,
}
use go_l2tp_debian.Prelude.Bytes.{Bytes}
use go_l2tp_debian.Pppoe.Packet.{PppoePacket, validate}
use go_l2tp_debian.Pppoe.Build.{new_pado}
use go_l2tp_debian.Pppoe.Parse.Ends.{Returns, returns_value, returns_error, validate-Returns}
use go_l2tp_debian.Kpppoed.State.{send, Application, Outside}
use go_l2tp_debian.Kpppoed.Handlers.{
  Handled, did, send_validated, send_packet, offer, append_echoed_tags,
}
use go_l2tp_debian.Kpppoed.Daemons.{terminations}
use go_l2tp_debian.Kpppoed.Daemons.Sound.{Sound, send-Sound}

abbrev pub IsSound : Application → Type 0
IsSound app = Sound app.sessions app.trace app.spawns

-- The invariant holds, or the program has ended by a panic: then some call of `spawn` failed, and no
-- daemon was ended twice.
abbrev pub Keeps : Outside → Handled → Type 0
Keeps w (ok u, app) = IsSound app
Keeps w (err e, app) = IsSound app
Keeps w (panic p, app) =
    ((d : ℕ) → terminations d app.trace ≤ 1) × ((n : ℕ) × (w.spawn_succeeds n ≡ false))
Keeps w (stuck, app) = ⊥

-- a packet was sent, or an error returned
pub data Sent (pkt : PppoePacket) (app : Application) : Handled → Type 0 where
  taken : Sent pkt app (ok tt, did (send pkt) app)
  refused : (e : Error) → Sent pkt app (err e, app)

if-Sent :
    (pkt : PppoePacket) (app : Application) (b : Bool) (e : Error)
    → Sent pkt app (if b then (ok tt, did (send pkt) app) else (err e, app))
if-Sent pkt app true e = taken
if-Sent pkt app false e = refused e

module _ (w : Outside) where
  send_validated-Sent :
      (pkt : PppoePacket) (app : Application) (r : Result (Unit {0}))
      → Returns r
      → Sent pkt app (send_validated w pkt app r)
  unfolding send_validated
  send_validated-Sent pkt app r (returns_value u) =
      if-Sent pkt app (app.conn_open && w.send_succeeds (length app.trace)) write_failed
  send_validated-Sent pkt app r (returns_error e) = refused (validate_failed e)

  pub send_packet-Sent :
      (pkt : PppoePacket) (app : Application) → Sent pkt app (send_packet w pkt app)
  unfolding send_packet
  send_packet-Sent pkt app = send_validated-Sent pkt app (validate pkt) (validate-Returns pkt)

  Sent-Keeps :
      (pkt : PppoePacket) (app : Application) (h : Handled)
      → IsSound app
      → Sent pkt app h
      → Keeps w h
  Sent-Keeps pkt app h v taken = send-Sound v pkt
  Sent-Keeps pkt app h v (refused e) = v

  pub offer-Keeps :
      (pkt : PppoePacket) (app : Application) (name : Bytes × Option Error)
      → IsSound app
      → Keeps w (offer w pkt app name)
  unfolding offer
  offer-Keeps pkt app (name, some e) v = v
  offer-Keeps pkt app (name, none) v =
      (let pado =
          append_echoed_tags pkt (new_pado w.hw_addr pkt.src_hw_addr name w.config.ac_name) in
        Sent-Keeps pado app _ v (send_packet-Sent pado app))
