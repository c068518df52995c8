-- ===== src/Context/Links/CloseAll.antt =====
-- l2tp/l2tp.go: the two maps after everything is closed.
use go_l2tp_debian.Prelude.{
  ℕ, ◌≡◌, ◌⊎◌, inl, inr, arith, refl, subst, Option, none, some, List, [], ◌∷◌, if◌then◌else◌, Bool,
  true, false, IsIn,
}
use go_l2tp_debian.Prelude.Bytes.{Bytes}
use go_l2tp_debian.Prelude.Eq.{nat_eq, bytes_eq, same, same_iff}
use go_l2tp_debian.Prelude.Maps.{Map, lookup, delete, lookup-delete}
use go_l2tp_debian.Context.Links.{
  Entry, Links, find_tunnel_by_name, find_tunnel_by_id, all_sessions, delete_ids,
  close_all_sessions,
}
use go_l2tp_debian.Context.Links.Facts.{Consistent}

delete_ids-absent :
    (i : ℕ) (es : List Entry) (m : Map ℕ Entry)
    → lookup i m ≡ none
    → lookup i (delete_ids es m) ≡ none
unfolding delete_ids
delete_ids-absent i [] m h = h
delete_ids-absent i (e ∷ es) m h =
    delete_ids-absent i es (delete e.id m) (ground (arith, lookup-delete i e.id m))

delete_ids-listed :
    (e : Entry) (es : List Entry) (m : Map ℕ Entry)
    → IsIn e es
    → lookup e.id (delete_ids es m) ≡ none
unfolding delete_ids
delete_ids-listed e [] m l = absurd l
delete_ids-listed e (x ∷ xs) m (inl eq) =
    delete_ids-absent e.id xs (delete x.id m)
      (ground (arith, lookup-delete e.id x.id m, same_iff x.id e.id))
delete_ids-listed e (x ∷ xs) m (inr l) = delete_ids-listed e xs (delete x.id m) l

if_some :
    (b : Bool) (x e : Entry) (r : Option Entry)
    → (if b then some x else r) ≡ some e
    → (e ≡ x) ⊎ (r ≡ some e)
if_some true x e r h = inl (cc h)
if_some false x e r h = inr h

found_listed :
    (n : Bytes) (e : Entry) (m : Map Bytes Entry) → lookup n m ≡ some e → IsIn e (all_sessions m)
unfolding lookup all_sessions
found_listed n e [] h = cc
found_listed n e ((j, x) ∷ m) h = elim (if_some (same j n) x e (lookup n m) h) [
  | inl eq ↦ inl eq
  | inr later ↦ inr (found_listed n e m later)
]

-- what is left, and what was closed
pub record Closed (l : Links) (out : List Entry × Links) : Type 0 where
  pub no_name : (n : Bytes) → find_tunnel_by_name n out.1 ≡ none
  pub no_id : (i : ℕ) → find_tunnel_by_id i out.1 ≡ none
  pub all_closed : (i : ℕ) (e : Entry) → find_tunnel_by_id i l ≡ some e → IsIn e out.0

no_id_left :
    (l : Links) (i : ℕ) (o : Option Entry)
    → Consistent l
    → find_tunnel_by_id i l ≡ o
    → lookup i (delete_ids (all_sessions l.by_name) l.by_id) ≡ none
unfolding find_tunnel_by_id find_tunnel_by_name
no_id_left l i none c h = delete_ids-absent i (all_sessions l.by_name) l.by_id h
no_id_left l i (some e) c h =
    let (at, named) = c.numbered i e h in
    subst (λ j. lookup j (delete_ids (all_sessions l.by_name) l.by_id) ≡ none) at
      (delete_ids-listed e (all_sessions l.by_name) l.by_id (found_listed e.name e l.by_name named))

-- Where the map by name and the map by ID are in step, both find nothing after closeAllSessions, and
-- each entry that the map by ID found is among those that are closed.
pub close_all_sessions-Closed : (l : Links) → Consistent l → Closed l (close_all_sessions l)
unfolding close_all_sessions find_tunnel_by_name find_tunnel_by_id lookup
close_all_sessions-Closed l c = record {
  no_name = λ n. refl;
  no_id = λ i. no_id_left l i (find_tunnel_by_id i l) c refl;
  all_closed = λ i e h. found_listed e.name e l.by_name (c.numbered i e h).1;
}
