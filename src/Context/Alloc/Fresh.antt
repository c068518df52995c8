-- ===== src/Context/Alloc/Fresh.antt =====
-- l2tp/l2tp.go: which ID a context or a tunnel picks.
use go_l2tp_debian.Prelude.{
  ℕ, zero, suc, ◌<◌, ◌≡◌, ◌≢◌, ◌⊎◌, inl, inr, arith, refl, subst, sym, Option, none, some, ◌==◌,
  if◌then◌else◌,
}
use go_l2tp_debian.Prelude.Result.{Result, ok, err, panic, stuck, IfOk, id_space_exhausted}
use go_l2tp_debian.Prelude.Bytes.{u16, u32}
use go_l2tp_debian.Context.Links.{Entry, Links, find_tunnel_by_id}
use go_l2tp_debian.Context.Alloc.{
  generate_control_conn_id, unless_taken, try_id, alloc_loop, alloc_tid,
}

-- The IDs of a version: what is drawn, less its upper bits.
abbrev pub id_of : ℕ → ℕ → ℕ
id_of version random = if version == 2 then u16 random else u32 random

pub record Drawn (random : ℕ → ℕ) (version : ℕ) (l : Links) (k id : ℕ) : Type 0 where
  pub draw : ℕ
  pub draw_lt : draw < k
  pub id_drawn : id ≡ id_of version (random draw)
  pub fresh : find_tunnel_by_id id l ≡ none
  pub before_taken : (j : ℕ) → j < draw → find_tunnel_by_id (id_of version (random j)) l ≢ none

abbrev pub AllTaken : (ℕ → ℕ) → ℕ → Links → ℕ → Type 0
AllTaken random version l k =
    (j : ℕ) → j < k → find_tunnel_by_id (id_of version (random j)) l ≢ none

abbrev pub Allocates : (ℕ → ℕ) → ℕ → Links → ℕ → Result ℕ → Type 0
Allocates random version l k r =
    (r ≡ err id_space_exhausted) × AllTaken random version l k
    ⊎ ((id : ℕ) × (r ≡ ok id) × Drawn random version l k id)

generate_id :
    (version random : ℕ)
    → (version ≡ 2) ⊎ (version ≡ 3)
    → generate_control_conn_id version random ≡ ok (id_of version random)
unfolding generate_control_conn_id
generate_id version random v = ground arith

below_suc :
    (P : ℕ → Type 0) (k : ℕ) → P 0 → ((j : ℕ) → j < k → P (suc j)) → (j : ℕ) → j < suc k → P j
below_suc P k p0 ps zero h = p0
below_suc P k p0 ps (suc j) h = ps j (omega (arith, h))

step :
    (random : ℕ → ℕ) (version : ℕ) (l : Links) (k : ℕ) (rest : Result ℕ) (o : Option Entry)
    → find_tunnel_by_id (id_of version (random 0)) l ≡ o
    → Allocates (λ n. random (suc n)) version l k rest
    → Allocates random version l (suc k) (unless_taken (id_of version (random 0)) o rest)
unfolding unless_taken
step random version l k rest none f a = inr (
  id_of version (random 0),
  refl,
  record {
    draw = 0;
    draw_lt = omega arith;
    id_drawn = refl;
    fresh = f;
    before_taken = λ j h. absurd (omega (arith, h));
  },
)
step random version l k rest (some e) f (inl (r, t)) =
    inl (
      r,
      below_suc (λ j. find_tunnel_by_id (id_of version (random j)) l ≢ none) k (λ n. cc (f, n)) t,
    )
step random version l k rest (some e) f (inr (id, r, d)) = inr (
  id,
  r,
  record {
    draw = suc d.draw;
    draw_lt = omega (arith, d.draw_lt);
    id_drawn = d.id_drawn;
    fresh = d.fresh;
    before_taken =
        below_suc (λ j. find_tunnel_by_id (id_of version (random j)) l ≢ none) d.draw
          (λ n. cc (f, n)) d.before_taken;
  },
)

alloc_loop-Allocates :
    (random : ℕ → ℕ) (version : ℕ) (l : Links) (k : ℕ)
    → (version ≡ 2) ⊎ (version ≡ 3)
    → Allocates random version l k (alloc_loop random version l k)
unfolding alloc_loop try_id
alloc_loop-Allocates random version l zero v = inl (refl, λ j h. absurd (omega (arith, h)))
alloc_loop-Allocates random version l (suc k) v =
    let ih = alloc_loop-Allocates (λ n. random (suc n)) version l k v in
    subst
      (λ g.
        Allocates random version l (suc k)
          (try_id l g (alloc_loop (λ n. random (suc n)) version l k)))
      (sym (generate_id version (random 0) v))
      (step random version l k _ (find_tunnel_by_id (id_of version (random 0)) l) refl ih)

-- For version 2 or 3, allocTid returns the first of ten drawn numbers, cut to the size of the
-- version's IDs, that no tunnel has; or, if all ten are taken, the error that the ID space is
-- exhausted.
pub alloc_tid-Allocates :
    (random : ℕ → ℕ) (version : ℕ) (l : Links)
    → (version ≡ 2) ⊎ (version ≡ 3)
    → Allocates random version l 10 (alloc_tid random version l)
unfolding alloc_tid
alloc_tid-Allocates random version l = alloc_loop-Allocates random version l 10

abbrev Free : Links → ℕ → Type 0
Free l id = find_tunnel_by_id id l ≡ none

unless_taken-Free :
    (l : Links) (id : ℕ) (o : Option Entry) (rest : Result ℕ)
    → find_tunnel_by_id id l ≡ o
    → IfOk (Free l) rest
    → IfOk (Free l) (unless_taken id o rest)
unfolding unless_taken
unless_taken-Free l id none rest f h = f
unless_taken-Free l id (some e) rest f h = h

try_id-Free : (l : Links) (r rest : Result ℕ) → IfOk (Free l) rest → IfOk (Free l) (try_id l r rest)
unfolding try_id
try_id-Free l (ok id) rest h = unless_taken-Free l id (find_tunnel_by_id id l) rest refl h
try_id-Free l (err e) rest h = tt
try_id-Free l (panic p) rest h = tt
try_id-Free l stuck rest h = tt

-- for any version
pub alloc_loop-Free :
    (random : ℕ → ℕ) (version : ℕ) (l : Links) (k : ℕ)
    → IfOk (λ id. find_tunnel_by_id id l ≡ none) (alloc_loop random version l k)
unfolding alloc_loop
alloc_loop-Free random version l zero = tt
alloc_loop-Free random version l (suc k) =
    try_id-Free l _ _ (alloc_loop-Free (λ n. random (suc n)) version l k)
