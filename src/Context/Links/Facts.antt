-- ===== src/Context/Links/Facts.antt =====
-- l2tp/l2tp.go: the two maps after each operation.
use go_l2tp_debian.Prelude.{ℕ, ◌≡◌, arith, none, some, if◌then◌else◌}
use go_l2tp_debian.Prelude.Bytes.{Bytes}
use go_l2tp_debian.Prelude.Eq.{nat_eq, bytes_eq, same, same_iff}
use go_l2tp_debian.Prelude.Maps.{lookup, lookup-delete, lookup-insert}
use go_l2tp_debian.Context.Links.{
  Entry, Links, no_links, link_tunnel, unlink_tunnel, find_tunnel_by_name, find_tunnel_by_id,
}

-- each map finds an entry under its own key, and what one finds the other finds
pub record Consistent (l : Links) : Type 0 where
  pub named :
      (n : Bytes) (e : Entry)
      → find_tunnel_by_name n l ≡ some e
      → (e.name ≡ n) × (find_tunnel_by_id e.id l ≡ some e)
  pub numbered :
      (i : ℕ) (e : Entry)
      → find_tunnel_by_id i l ≡ some e
      → (e.id ≡ i) × (find_tunnel_by_name e.name l ≡ some e)

pub find_by_name-link :
    (n : Bytes) (e : Entry) (l : Links)
    → find_tunnel_by_name n (link_tunnel e l)
      ≡ (if same e.name n then some e else find_tunnel_by_name n l)
unfolding find_tunnel_by_name link_tunnel
find_by_name-link n e l = lookup-insert n e.name e l.by_name

pub find_by_id-link :
    (i : ℕ) (e : Entry) (l : Links)
    → find_tunnel_by_id i (link_tunnel e l)
      ≡ (if same e.id i then some e else find_tunnel_by_id i l)
unfolding find_tunnel_by_id link_tunnel
find_by_id-link i e l = lookup-insert i e.id e l.by_id

pub find_by_name-unlink :
    (n : Bytes) (e : Entry) (l : Links)
    → find_tunnel_by_name n (unlink_tunnel e l)
      ≡ (if same e.name n then none else find_tunnel_by_name n l)
unfolding find_tunnel_by_name unlink_tunnel
find_by_name-unlink n e l = lookup-delete n e.name l.by_name

pub find_by_id-unlink :
    (i : ℕ) (e : Entry) (l : Links)
    → find_tunnel_by_id i (unlink_tunnel e l)
      ≡ (if same e.id i then none else find_tunnel_by_id i l)
unfolding find_tunnel_by_id unlink_tunnel
find_by_id-unlink i e l = lookup-delete i e.id l.by_id

pub link-Consistent :
    (e : Entry) (l : Links)
    → find_tunnel_by_name e.name l ≡ none
    → find_tunnel_by_id e.id l ≡ none
    → Consistent l
    → Consistent (link_tunnel e l)
link-Consistent e l fresh_name fresh_id c = record {
  named = λ n x found. ground (
    arith,
    find_by_name-link n e l,
    find_by_id-link x.id e l,
    c.named n x,
    same_iff e.name n,
    same_iff e.id x.id,
  );
  numbered = λ i x found. ground (
    arith,
    find_by_id-link i e l,
    find_by_name-link x.name e l,
    c.numbered i x,
    same_iff e.id i,
    same_iff e.name x.name,
  );
}

pub unlink-Consistent :
    (e : Entry) (l : Links)
    → find_tunnel_by_name e.name l ≡ some e
    → Consistent l
    → Consistent (unlink_tunnel e l)
unlink-Consistent e l linked c = record {
  named = λ n x found. ground (
    arith,
    find_by_name-unlink n e l,
    find_by_id-unlink x.id e l,
    c.named n x,
    c.named e.name e,
    same_iff e.name n,
    same_iff e.id x.id,
  );
  numbered = λ i x found. ground (
    arith,
    find_by_id-unlink i e l,
    find_by_name-unlink x.name e l,
    c.numbered i x,
    c.named e.name e,
    same_iff e.id i,
    same_iff e.name x.name,
  );
}

pub no_links-Consistent : Consistent no_links
unfolding find_tunnel_by_name find_tunnel_by_id lookup
no_links-Consistent = record { named = λ n e found. cc; numbered = λ i e found. cc }
