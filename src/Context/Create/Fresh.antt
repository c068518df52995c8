-- ===== src/Context/Create/Fresh.antt =====
-- What the creation of a tunnel does to the maps of the context.
use go_l2tp_debian.Prelude.{
  ℕ, zero, suc, ◌≡◌, refl, Option, none, some, Bool, true, false, not, ◌&&◌, ◌||◌, ◌==◌, ltb,
  if◌then◌else◌,
}
use go_l2tp_debian.Prelude.Result.{
  Result, Error, ok, err, ◌>>=◌, IfOk, IfOk-bind, IfOk-map, IfOk-then, IfOk-wrap, id_failed,
  id_taken, name_taken, version_unsupported, config_out_of_range, no_address,
}
use go_l2tp_debian.Prelude.Bytes.{Bytes}
use go_l2tp_debian.Prelude.Eq.{nat_eq, bytes_eq}
use go_l2tp_debian.Context.Links.{Entry, Links, find_tunnel_by_name, find_tunnel_by_id}
use go_l2tp_debian.Context.Alloc.{alloc_tid}
use go_l2tp_debian.Context.Alloc.Fresh.{alloc_loop-Free}
use go_l2tp_debian.Context.Create.{
  quiescent_checks, dynamic_checks, World, TunnelSettings, with_host_name, encap_fits,
  quiescent_ids_fit, is_set, address_pair, require, is_none, given, choose_id, static_checks,
}

-- the name and the ID are free
pub record Fresh (l : Links) (name : Bytes) (e : Entry) : Type 0 where
  pub named : e.name ≡ name
  pub free_name : find_tunnel_by_name name l ≡ none
  pub free_id : find_tunnel_by_id e.id l ≡ none

-- what follows a check that holds
IfOk-require :
    {A : Type 0} (P : A → Type 0) (b : Bool) (x : Error) (m : Result A)
    → (b ≡ true → IfOk P m)
    → IfOk P (require b x >>= λ _. m)
IfOk-require P true x m h = h refl
IfOk-require P false x m h = tt

is_none_eq : (o : Option Entry) → is_none o ≡ true → o ≡ none
is_none_eq none h = refl
is_none_eq (some e) h = cc

given_id-free :
    (l : Links) (n : ℕ) (o : Option Entry)
    → find_tunnel_by_id n l ≡ o
    → IfOk (λ id. find_tunnel_by_id id l ≡ none) (if is_none o then ok n else err id_taken)
given_id-free l n none h = h
given_id-free l n (some e) h = tt

choose_id-free :
    (w : World) (version n : ℕ) (l : Links)
    → IfOk (λ id. find_tunnel_by_id id l ≡ none) (choose_id w version n l)
unfolding choose_id alloc_tid
choose_id-free w version zero l =
    IfOk-wrap (λ id. find_tunnel_by_id id l ≡ none) id_failed (alloc_tid w.random version l)
      (alloc_loop-Free w.random version l 10)
choose_id-free w version (suc n) l = given_id-free l (suc n) (find_tunnel_by_id (suc n) l) refl

fresh :
    (l : Links) (name : Bytes) (e : Entry)
    → e.name ≡ name
    → find_tunnel_by_name name l ≡ none
    → find_tunnel_by_id e.id l ≡ none
    → Fresh l name e
fresh l name e h n i = record { named = h; free_name = n; free_id = i }

module _ (w : World) where
  pub static_checks-Fresh :
      (name : Bytes) (c : Option TunnelSettings) (l : Links)
      → IfOk (Fresh l name) (static_checks w name c l)
  unfolding static_checks
  static_checks-Fresh name c l =
      let need = IfOk-require (Fresh l name) in
      IfOk-then (Fresh l name) (given c) _ (λ cfg.
        need (is_none (find_tunnel_by_name name l)) name_taken _ (λ free_name.
          need (cfg.version == 3) version_unsupported _ (λ _.
            need (not (cfg.tunnel_id == 0) && not (cfg.peer_tunnel_id == 0)) config_out_of_range _
              (λ _. need (is_set cfg.local) no_address _ (λ _.
                need (is_set cfg.peer) no_address _ (λ _.
                  need (is_none (find_tunnel_by_id cfg.tunnel_id l)) id_taken _ (λ free_id.
                    IfOk-then (Fresh l name) (address_pair w.resolve cfg) _ (λ _.
                      fresh l name _ refl (is_none_eq _ free_name) (is_none_eq _ free_id)))))))))

  pub quiescent_checks-Fresh :
      (name : Bytes) (c : Option TunnelSettings) (l : Links)
      → IfOk (Fresh l name) (quiescent_checks w name c l)
  unfolding quiescent_checks
  quiescent_checks-Fresh name c l =
      let need = IfOk-require (Fresh l name) in
      IfOk-then (Fresh l name) (given c) _ (λ cfg.
        need (is_none (find_tunnel_by_name name l)) name_taken _ (λ free_name.
          need (encap_fits cfg) version_unsupported _ (λ _.
            need (quiescent_ids_fit cfg) config_out_of_range _ (λ _.
              need (is_set cfg.local) no_address _ (λ _. need (is_set cfg.peer) no_address _ (λ _.
                need (is_none (find_tunnel_by_id cfg.tunnel_id l)) id_taken _ (λ free_id.
                  IfOk-then (Fresh l name) (address_pair w.resolve cfg) _ (λ _.
                    fresh l name _ refl (is_none_eq _ free_name) (is_none_eq _ free_id)))))))))

  pub dynamic_checks-Fresh :
      (name : Bytes) (c : Option TunnelSettings) (l : Links)
      → IfOk (Fresh l name) (dynamic_checks w name c l)
  unfolding dynamic_checks
  dynamic_checks-Fresh name c l =
      let need = IfOk-require (Fresh l name) in
      IfOk-then (Fresh l name) (given c) _ (λ cfg.
        need (is_none (find_tunnel_by_name name l)) name_taken _ (λ free_name.
          IfOk-then (Fresh l name) (with_host_name w cfg.host_name) _ (λ _.
            need (encap_fits cfg) version_unsupported _ (λ _.
              need (not (cfg.version == 2) || not (ltb 65535 cfg.tunnel_id)) config_out_of_range _
                (λ _. need (cfg.peer_tunnel_id == 0) config_out_of_range _ (λ _.
                  need (is_set cfg.peer) no_address _ (λ _.
                    IfOk-bind (Fresh l name) (choose_id w cfg.version cfg.tunnel_id l) _ (
                      IfOk-map (λ id. find_tunnel_by_id id l ≡ none) _
                        (choose_id w cfg.version cfg.tunnel_id l)
                        (λ id free_id.
                          IfOk-then (Fresh l name)
                            (address_pair w.resolve (record cfg { tunnel_id = id })) _
                            (λ _.
                              need (cfg.version == 2) version_unsupported _
                                (λ _. fresh l name _ refl (is_none_eq _ free_name) free_id)))
                        (choose_id-free w cfg.version cfg.tunnel_id l)))))))))
