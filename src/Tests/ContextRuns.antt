-- ===== src/Tests/ContextRuns.antt =====
-- l2tp/l2tp.go: the theorems on the context at concrete inputs.
use go_l2tp_debian.Prelude.{◌+◌, refl, inl, inr, none, some, true, List, [], ◌∷◌, IsIn, arith}
use go_l2tp_debian.Prelude.Eq.{nat_eq, bytes_eq}
use go_l2tp_debian.Context.Links.Refine.{
  Command, link, unlink, close_all, Refines, run_directory, run_links, run_links-Refines,
}
use go_l2tp_debian.Context.Links.{
  Entry, Links, no_links, link_tunnel, find_tunnel_by_name, find_tunnel_by_id,
}
use go_l2tp_debian.Context.Links.Facts.{Consistent, no_links-Consistent, link-Consistent}
use go_l2tp_debian.Context.Alloc.{alloc_tid}
use go_l2tp_debian.Context.Alloc.Fresh.{Allocates, alloc_tid-Allocates}
use go_l2tp_debian.Context.Events.{
  handle_user_event, unregister_event_handler, handle_user_event-unregister,
}
use go_l2tp_debian.Context.Create.{
  encap_type_udp, TunnelSettings, World, new_static_tunnel, new_quiescent_tunnel,
  new_dynamic_tunnel,
}
use go_l2tp_debian.Context.Create.Outcome.{Created, new_tunnel-Created}

-- an address of the loopback interface, for every text
abbrev loopback : World
loopback = record {
  os_hostname = some (104 ∷ []);
  resolve = λ text. some (record { to_4 = some (127 ∷ 0 ∷ 0 ∷ 1 ∷ []); to_16 = none; port = 1701 });
  random = λ n. n;
  opens = true;
  object = 1;
}

abbrev settings : TunnelSettings
settings = record {
  local = 97 ∷ [];
  peer = 98 ∷ [];
  encap = encap_type_udp;
  version = 3;
  tunnel_id = 7;
  peer_tunnel_id = 0;
  host_name = [];
}

abbrev first_entry : Entry
first_entry = record { name = 116 ∷ []; id = 7; object = 0 }

abbrev one_link : Links
one_link = link_tunnel first_entry no_links

one_link-Consistent : Consistent one_link
unfolding find_tunnel_by_name find_tunnel_by_id
one_link-Consistent = link-Consistent first_entry no_links refl refl no_links-Consistent

alloc_tid-Allocates_example :
    Allocates (λ n. n + 7) 2 one_link 10 (alloc_tid (λ n. n + 7) 2 one_link)
alloc_tid-Allocates_example = alloc_tid-Allocates (λ n. n + 7) 2 one_link (inl refl)

new_tunnel-Created_example :
    Created one_link (117 ∷ []) (new_static_tunnel loopback (117 ∷ []) (some settings) one_link)
    × Created one_link
        (117 ∷ [])
        (new_quiescent_tunnel loopback (117 ∷ []) (some settings) one_link)
    × Created one_link (117 ∷ []) (new_dynamic_tunnel loopback (117 ∷ []) (some settings) one_link)
new_tunnel-Created_example = new_tunnel-Created loopback (117 ∷ []) (some settings) one_link

handle_user_event-unregister_example :
    IsIn 2 (handle_user_event (unregister_event_handler 2 (1 ∷ 2 ∷ 3 ∷ [])))
unfolding handle_user_event
handle_user_event-unregister_example =
    handle_user_event-unregister 2 2 (1 ∷ 2 ∷ 3 ∷ []) (inr (inl refl))

abbrev entry_a : Entry
entry_a = record { name = 97 ∷ []; id = 1; object = 0 }

abbrev entry_b : Entry
entry_b = record { name = 98 ∷ []; id = 2; object = 1 }

abbrev commands : List Command
commands = link entry_a ∷ link entry_b ∷ unlink entry_a ∷ close_all ∷ []

run_links-Refines_example :
    Refines (run_directory commands (λ n. none)) (run_links commands no_links)
run_links-Refines_example =
    run_links-Refines commands
      ((refl, λ n x h. cc), ((refl, λ n x h. ground arith), (refl, (tt, tt))))
