-- ===== src/Context/Links.antt =====
-- l2tp/l2tp.go: the two maps that a context keeps of its tunnels, and a tunnel of its sessions. The
-- code for tunnels and the code for sessions are the same, but for the names.
pub mod Facts
pub mod CloseAll
pub mod Refine
use go_l2tp_debian.Prelude.{ℕ, Option, List, [], ◌∷◌}
use go_l2tp_debian.Prelude.Bytes.{Bytes}
use go_l2tp_debian.Prelude.Eq.{nat_eq, bytes_eq}
use go_l2tp_debian.Prelude.Maps.{Map, lookup, delete, insert}

-- A tunnel or a session, by what the maps read of it: its name, and the ID of its configuration.
-- `object` tells objects apart.
pub record Entry : Type 0 where
  pub name : Bytes
  pub id : ℕ
  pub object : ℕ

-- `tunnelsByName` and `tunnelsByID`, or `sessionsByName` and `sessionsByID`
pub record Links : Type 0 where
  pub by_name : Map Bytes Entry
  pub by_id : Map ℕ Entry

abbrev pub no_links : Links
no_links = record { by_name = []; by_id = [] }

unfoldable pub link_tunnel : Entry → Links → Links
unfolding insert
link_tunnel e l = record { by_name = insert e.name e l.by_name; by_id = insert e.id e l.by_id }

unfoldable pub unlink_tunnel : Entry → Links → Links
unfolding delete
unlink_tunnel e l = record { by_name = delete e.name l.by_name; by_id = delete e.id l.by_id }

unfoldable pub find_tunnel_by_name : Bytes → Links → Option Entry
unfolding lookup
find_tunnel_by_name name l = lookup name l.by_name

unfoldable pub find_tunnel_by_id : ℕ → Links → Option Entry
unfolding lookup
find_tunnel_by_id id l = lookup id l.by_id

abbrev pub link_session : Entry → Links → Links
link_session = link_tunnel

abbrev pub unlink_session : Entry → Links → Links
unlink_session = unlink_tunnel

abbrev pub find_session_by_name : Bytes → Links → Option Entry
find_session_by_name = find_tunnel_by_name

abbrev pub find_session_by_id : ℕ → Links → Option Entry
find_session_by_id = find_tunnel_by_id

-- `Close` of the context and `closeAllSessions`: the loop over the map by name takes each entry out
-- of both maps. It returns the entries, which are closed, or killed, after it.
unfoldable pub all_sessions : Map Bytes Entry → List Entry
all_sessions [] = []
all_sessions ((n, e) ∷ m) = e ∷ all_sessions m

unfoldable pub delete_ids : List Entry → Map ℕ Entry → Map ℕ Entry
unfolding delete
delete_ids [] m = m
delete_ids (e ∷ es) m = delete_ids es (delete e.id m)

unfoldable pub close_all_sessions : Links → List Entry × Links
unfolding all_sessions delete_ids
close_all_sessions l =
    let es = all_sessions l.by_name in (es, record { by_name = []; by_id = delete_ids es l.by_id })
