-- ===== src/Context/Alloc.antt =====
-- l2tp/l2tp.go: IDs and serial numbers. What `rand.Uint32` returns at its n-th call is a parameter.
pub mod Fresh
use go_l2tp_debian.Prelude.{
  ℕ, zero, suc, ◌+◌, ◌<◌, ◌≤◌, ◌≡◌, ◌≢◌, ◌⊎◌, inl, inr, ◌^◌, arith, refl, Option, none, some, List,
  [], ◌∷◌, ◌==◌, if◌then◌else◌, Bool,
}
use go_l2tp_debian.Prelude.Result.{
  Result, Error, ok, err, panic, stuck, unhandled_version_error, id_failed, id_space_exhausted,
}
use go_l2tp_debian.Prelude.Bytes.{u16, u32}
use go_l2tp_debian.Context.Links.{Entry, Links, find_tunnel_by_id}

-- `generateControlConnID` on what `rand.Uint32` returns
unfoldable pub generate_control_conn_id : ℕ → ℕ → Result ℕ
generate_control_conn_id version random =
    if version == 2
    then ok (u16 random)
    else if version == 3
    then ok (u32 random)
    else err unhandled_version_error

-- the body of the loop, with what the rest of the loop returns
unfoldable pub unless_taken : ℕ → Option Entry → Result ℕ → Result ℕ
unless_taken id none rest = ok id
unless_taken id (some e) rest = rest

unfoldable pub try_id : Links → Result ℕ → Result ℕ → Result ℕ
unfolding unless_taken find_tunnel_by_id
try_id l (ok id) rest = unless_taken id (find_tunnel_by_id id l) rest
try_id l (err e) rest = err (id_failed e)
try_id l (panic p) rest = panic p
try_id l stuck rest = stuck

-- the loop, with so many tries left
unfoldable pub alloc_loop : (ℕ → ℕ) → ℕ → Links → ℕ → Result ℕ
unfolding try_id generate_control_conn_id
alloc_loop random version l zero = err id_space_exhausted
alloc_loop random version l (suc k) =
    let rest = alloc_loop (λ n. random (suc n)) version l k in
    try_id l (generate_control_conn_id version (random 0)) rest

unfoldable pub alloc_tid : (ℕ → ℕ) → ℕ → Links → Result ℕ
unfolding alloc_loop
alloc_tid random version l = alloc_loop random version l 10

abbrev pub alloc_sid : (ℕ → ℕ) → ℕ → Links → Result ℕ
alloc_sid = alloc_tid

-- the field `callSerial` before, and after with what is returned
unfoldable pub alloc_call_serial : ℕ → ℕ
alloc_call_serial serial = u32 (serial + 1)
