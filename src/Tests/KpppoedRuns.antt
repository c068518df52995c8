-- ===== src/Tests/KpppoedRuns.antt =====
-- cmd/kpppoed/: the theorems on the daemon at concrete inputs.
use go_l2tp_debian.Prelude.{◌≡◌, refl, true, false, ◌++◌, none, some, List, [], ◌∷◌}
use go_l2tp_debian.Prelude.Result.{ok, unavailable_service}
use go_l2tp_debian.Prelude.Text.{text}
use go_l2tp_debian.Pppoe.Packet.{HwAddr, PppoePacket}
use go_l2tp_debian.Pppoe.Build.{new_padr, broadcast, to_bytes}
use go_l2tp_debian.Kpppoed.State.{Application, KpppoedConfig, Outside, new_application}
use go_l2tp_debian.Kpppoed.Handlers.{get_packet_service_name, gen_session_id, handle_padr}
use go_l2tp_debian.Kpppoed.Run.{
  AppEvent, received, signal, teardown_step, l2tp_session_down, l2tp_complete, run,
}
use go_l2tp_debian.Kpppoed.Daemons.Kept.{Keeps}
use go_l2tp_debian.Kpppoed.Daemons.Runs.{run-Keeps}
use go_l2tp_debian.Kpppoed.Replies.{
  Accepted, with_session, handle_padr-Accepted, handle_padr-refused,
}
use go_l2tp_debian.Kpppoed.Silent.{packets_sent}
use go_l2tp_debian.Kpppoed.Silent.Runs.{run-closed_silent}

abbrev host : HwAddr
host = record { b0 = 2; b1 = 0; b2 = 0; b3 = 0; b4 = 0; b5 = 1 }

abbrev config : KpppoedConfig
config = record {
  ac_name = text "ac";
  if_name = text "eth0";
  services = text "serviceA" ∷ text "serviceB" ∷ [];
  lns_ip_addr = text "1.2.3.4:1701";
}

abbrev outside : Outside
outside = record {
  config = config;
  hw_addr = host;
  random = λ n. n;
  spawn_succeeds = λ n. true;
  send_succeeds = λ n. true;
  message = λ e. text "not available";
}

abbrev padr : PppoePacket
padr = new_padr broadcast host (text "serviceB")

abbrev other_padr : PppoePacket
other_padr = new_padr broadcast host (text "serviceC")

abbrev events : List AppEvent
events =
    received (to_bytes padr)
    ∷ l2tp_session_down 1
    ∷ signal
    ∷ teardown_step
    ∷ l2tp_complete 1
    ∷ teardown_step
    ∷ []

padr_named : get_packet_service_name config padr ≡ (text "serviceB", none)
unfolding get_packet_service_name new_padr
padr_named = refl

other_padr_named :
    get_packet_service_name config other_padr ≡ (text "serviceC", some unavailable_service)
unfolding get_packet_service_name new_padr
other_padr_named = refl

first_id : gen_session_id outside.random new_application ≡ (ok 1, 1)
unfolding gen_session_id new_application
first_id = refl

conn_is_open : new_application.conn_open ≡ true
unfolding new_application
conn_is_open = refl

-- a kpppoed with an open session
abbrev serving : Application
serving = record new_application {
  sessions =
      (
        1,
        record {
          is_open = true;
          l2tp_tid = 0;
          l2tp_sid = 0;
          sid = 1;
          peer_hw_addr = host;
          l2tpd = some 0;
        },
      )
      ∷ [];
  spawns = 1;
}

goes_on : serving.shutdown ≡ false
unfolding new_application
goes_on = refl

run-Keeps_example : Keeps outside (run outside events new_application)
run-Keeps_example = run-Keeps outside events

handle_padr-Accepted_example :
    Accepted outside padr
      (text "serviceB")
      1
      1
      new_application
      (handle_padr outside padr new_application)
handle_padr-Accepted_example =
    handle_padr-Accepted outside padr new_application (text "serviceB") 1 1 padr_named first_id
      conn_is_open refl refl

handle_padr-refused_example : handle_padr outside other_padr new_application ≡ (
  ok tt,
  with_session outside other_padr
      (text "serviceC")
      (record { session_id = 0; error_reason = some unavailable_service })
      new_application,
)
handle_padr-refused_example =
    handle_padr-refused outside other_padr new_application (text "serviceC") unavailable_service
      other_padr_named conn_is_open refl refl

-- a PADR that is handled before the connection is closed
abbrev late : List AppEvent
late = received (to_bytes padr) ∷ []

run-closed_silent_example :
    packets_sent
      (run outside (signal ∷ late ++ teardown_step ∷ teardown_step ∷ events) serving).1.trace
    ≡ packets_sent (run outside (signal ∷ late) serving).1.trace
run-closed_silent_example =
    run-closed_silent outside late (teardown_step ∷ events) serving goes_on (tt, tt)
