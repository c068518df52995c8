-- ===== src/Context/Links/Refine.antt =====
-- l2tp/l2tp.go: the two maps as one directory by name, whose entries have IDs of their own.
use go_l2tp_debian.Prelude.{
  ℕ, ◌≡◌, ◌≢◌, arith, refl, Option, none, some, List, [], ◌∷◌, if◌then◌else◌,
}
use go_l2tp_debian.Prelude.Bytes.{Bytes}
use go_l2tp_debian.Prelude.Eq.{nat_eq, bytes_eq, same, same_iff}
use go_l2tp_debian.Prelude.Maps.{lookup}
use go_l2tp_debian.Context.Links.{
  Entry, Links, no_links, link_tunnel, unlink_tunnel, find_tunnel_by_name, find_tunnel_by_id,
  close_all_sessions,
}
use go_l2tp_debian.Context.Links.Facts.{
  Consistent, find_by_name-link, find_by_id-link, find_by_name-unlink, find_by_id-unlink,
}
use go_l2tp_debian.Context.Links.CloseAll.{close_all_sessions-Closed}

-- what the maps promise: an entry for some of the names
abbrev pub Directory : Type 0
Directory = Bytes → Option Entry

pub data Command : Type 0 where
  link unlink : Entry → Command
  close_all : Command

abbrev pub on_directory : Command → Directory → Directory
on_directory (link e) s = λ n. if same e.name n then some e else s n
on_directory (unlink e) s = λ n. if same e.name n then none else s n
on_directory close_all s = λ n. none

abbrev pub on_links : Command → Links → Links
on_links (link e) l = link_tunnel e l
on_links (unlink e) l = unlink_tunnel e l
on_links close_all l = (close_all_sessions l).1

-- what the callers see to: a new entry has a name and an ID that no other has, and only an entry of
-- the directory is taken out
abbrev pub Allowed : Command → Directory → Type 0
Allowed (link e) s = (s e.name ≡ none) × ((n : Bytes) (x : Entry) → s n ≡ some x → x.id ≢ e.id)
Allowed (unlink e) s = s e.name ≡ some e
Allowed close_all s = Unit {0}

abbrev pub AllAllowed : List Command → Directory → Type 0
AllAllowed [] s = Unit {0}
AllAllowed (c ∷ cs) s = Allowed c s × AllAllowed cs (on_directory c s)

abbrev pub run_directory : List Command → Directory → Directory
run_directory [] s = s
run_directory (c ∷ cs) s = run_directory cs (on_directory c s)

abbrev pub run_links : List Command → Links → Links
run_links [] l = l
run_links (c ∷ cs) l = run_links cs (on_links c l)

-- the maps find what the directory holds
pub record Refines (s : Directory) (l : Links) : Type 0 where
  pub keyed : (n : Bytes) (e : Entry) → s n ≡ some e → e.name ≡ n
  pub by_name : (n : Bytes) → find_tunnel_by_name n l ≡ s n
  pub found :
      (i : ℕ) (e : Entry) → find_tunnel_by_id i l ≡ some e → (e.id ≡ i) × (s e.name ≡ some e)
  pub listed : (e : Entry) → s e.name ≡ some e → find_tunnel_by_id e.id l ≡ some e

no_links-Refines : Refines (λ n. none) no_links
unfolding find_tunnel_by_name find_tunnel_by_id lookup
no_links-Refines = record {
  keyed = λ n e h. cc;
  by_name = λ n. refl;
  found = λ i e h. cc;
  listed = λ e h. cc;
}

module _ (s : Directory) (l : Links) (r : Refines s l) where
  link-Refines :
      (e : Entry) → Allowed (link e) s → Refines (on_directory (link e) s) (link_tunnel e l)
  link-Refines e (free, fresh) = record {
    keyed = λ n x h. ground (arith, same_iff e.name n, r.keyed n x);
    by_name = λ n. ground (arith, find_by_name-link n e l, r.by_name n);
    found = λ i x h.
        ground (arith, find_by_id-link i e l, same_iff e.id i, same_iff e.name x.name, r.found i x);
    listed = λ x h. ground (
      arith,
      find_by_id-link x.id e l,
      same_iff e.id x.id,
      same_iff e.name x.name,
      r.listed x,
      fresh x.name x,
    );
  }

  unlink-Refines :
      (e : Entry) → Allowed (unlink e) s → Refines (on_directory (unlink e) s) (unlink_tunnel e l)
  unlink-Refines e held = record {
    keyed = λ n x h. ground (arith, same_iff e.name n, r.keyed n x);
    by_name = λ n. ground (arith, find_by_name-unlink n e l, r.by_name n);
    found = λ i x h. ground (
      arith,
      find_by_id-unlink i e l,
      same_iff e.id i,
      same_iff e.name x.name,
      r.found i x,
      r.listed e,
    );
    listed = λ x h. ground (
      arith,
      find_by_id-unlink x.id e l,
      same_iff e.id x.id,
      same_iff e.name x.name,
      r.listed x,
      r.listed e,
    );
  }

  Refines-Consistent : Consistent l
  Refines-Consistent = record {
    named = λ n e h. ground (arith, r.by_name n, r.keyed n e, r.listed e);
    numbered = λ i e h. ground (arith, r.found i e, r.by_name e.name);
  }

  close_all-Refines : Refines (λ n. none) (close_all_sessions l).1
  close_all-Refines =
      let shut = close_all_sessions-Closed l Refines-Consistent in
      record {
        keyed = λ n e h. cc;
        by_name = shut.no_name;
        found = λ i e h. ground (arith, shut.no_id i);
        listed = λ e h. cc;
      }

command-Refines :
    (c : Command) (s : Directory) (l : Links)
    → Refines s l
    → Allowed c s
    → Refines (on_directory c s) (on_links c l)
command-Refines (link e) s l r a = link-Refines s l r e a
command-Refines (unlink e) s l r a = unlink-Refines s l r e a
command-Refines close_all s l r a = close_all-Refines s l r

run-Refines :
    (cs : List Command) (s : Directory) (l : Links)
    → Refines s l
    → AllAllowed cs s
    → Refines (run_directory cs s) (run_links cs l)
run-Refines [] s l r a = r
run-Refines (c ∷ cs) s l r (a, as_) =
    run-Refines cs (on_directory c s) (on_links c l) (command-Refines c s l r a) as_

-- The two maps refine a directory by name: after any sequence of links, unlinks and closings of all
-- from the empty maps, in which an entry that is linked has a name and an ID that no other has, and
-- one that is unlinked is held, the map by name finds what the directory holds, and the map by ID
-- finds exactly the directory's entries, each by its own ID.
pub run_links-Refines :
    (cs : List Command)
    → AllAllowed cs (λ n. none)
    → Refines (run_directory cs (λ n. none)) (run_links cs no_links)
run_links-Refines cs a = run-Refines cs (λ n. none) no_links no_links-Refines a
