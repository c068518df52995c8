-- ===== src/Context/Create/Outcome.antt =====
-- What the creation of a tunnel does to the maps of the context, and what it returns.
use go_l2tp_debian.Prelude.{ℕ, ◌≡◌, ◌≢◌, arith, refl, Option, Bool, true, false}
use go_l2tp_debian.Prelude.Result.{Result, ok, err, panic, stuck, IfOk}
use go_l2tp_debian.Prelude.Bytes.{Bytes}
use go_l2tp_debian.Prelude.Eq.{nat_eq, bytes_eq, same_iff}
use go_l2tp_debian.Context.Links.{Entry, Links, link_tunnel, find_tunnel_by_name, find_tunnel_by_id}
use go_l2tp_debian.Context.Links.Facts.{
  Consistent, find_by_name-unlink, find_by_id-unlink, link-Consistent,
}
use go_l2tp_debian.Context.Create.{
  new_quiescent_tunnel, new_dynamic_tunnel, World, TunnelSettings, open_tunnel, create,
  new_static_tunnel,
}
use go_l2tp_debian.Context.Create.Fresh.{
  Fresh, static_checks-Fresh, quiescent_checks-Fresh, dynamic_checks-Fresh,
}

-- the maps find what they found before
pub record SameFinds (l m : Links) : Type 0 where
  pub same_names : (n : Bytes) → find_tunnel_by_name n m ≡ find_tunnel_by_name n l
  pub same_ids : (i : ℕ) → find_tunnel_by_id i m ≡ find_tunnel_by_id i l

-- The tunnel is returned and linked, and its name and ID were free; or none is returned, and the maps
-- find what they found before.
pub data Created (l : Links) (name : Bytes) : Result Entry × Links → Type 0 where
  linked : (e : Entry) → Fresh l name e → Created l name (ok e, link_tunnel e l)
  refused :
      (r : Result Entry) (m : Links)
      → ((e : Entry) → r ≢ ok e)
      → SameFinds l m
      → Created l name (r, m)

create-Created :
    (opens : Bool) (l : Links) (name : Bytes) (r : Result Entry)
    → IfOk (Fresh l name) r
    → Created l name (create opens l r)
unfolding create open_tunnel
create-Created true l name (ok e) f = linked e f
create-Created false l name (ok e) f =
    refused _ _ (λ x h. cc)
      record {
        same_names =
            λ n. ground (arith, find_by_name-unlink n e l, f.free_name, f.named, same_iff e.name n);
        same_ids = λ i. ground (arith, find_by_id-unlink i e l, f.free_id, same_iff e.id i);
      }
create-Created opens l name (err x) f =
    refused _ _ (λ e h. cc) record { same_names = λ n. refl; same_ids = λ i. refl }
create-Created opens l name (panic p) f =
    refused _ _ (λ e h. cc) record { same_names = λ n. refl; same_ids = λ i. refl }
create-Created opens l name stuck f =
    refused _ _ (λ e h. cc) record { same_names = λ n. refl; same_ids = λ i. refl }

-- The creation of a static, quiescent or dynamic tunnel has one of two outcomes: the tunnel is
-- returned and linked, and its name and ID were free; or none is returned, and the maps find what
-- they found before.
pub new_tunnel-Created :
    (w : World) (name : Bytes) (c : Option TunnelSettings) (l : Links)
    → Created l name (new_static_tunnel w name c l)
      × Created l name (new_quiescent_tunnel w name c l)
      × Created l name (new_dynamic_tunnel w name c l)
unfolding new_static_tunnel new_quiescent_tunnel new_dynamic_tunnel
new_tunnel-Created w name c l = (
  create-Created w.opens l name _ (static_checks-Fresh w name c l),
  create-Created w.opens l name _ (quiescent_checks-Fresh w name c l),
  create-Created w.opens l name _ (dynamic_checks-Fresh w name c l),
)

Created-Consistent :
    (l : Links) (name : Bytes) (out : Result Entry × Links)
    → Created l name out
    → Consistent l
    → Consistent out.1
Created-Consistent l name out (linked e f) c =
    link-Consistent e l (cc (f.named, f.free_name)) f.free_id c
Created-Consistent l name out (refused r m none_made s) c = record {
  named = λ n e h. ground (arith, s.same_names n, s.same_ids e.id, c.named n e);
  numbered = λ i e h. ground (arith, s.same_ids i, s.same_names e.name, c.numbered i e);
}

-- Where the map by name and the map by ID find each entry under its own key and find the same
-- entries, they do so after the creation of a tunnel of each kind, whatever comes of it.
pub new_tunnel-Consistent :
    (w : World) (name : Bytes) (c : Option TunnelSettings) (l : Links)
    → Consistent l
    → Consistent (new_static_tunnel w name c l).1
      × Consistent (new_quiescent_tunnel w name c l).1
      × Consistent (new_dynamic_tunnel w name c l).1
new_tunnel-Consistent w name c l h =
    let (s, q, d) = new_tunnel-Created w name c l in
    (
      Created-Consistent l name _ s h,
      Created-Consistent l name _ q h,
      Created-Consistent l name _ d h,
    )
