-- ===== src/Fsm.antt =====
-- l2tp/fsm.go: a state machine from a table of transitions. A callback is named by a value, which
-- the user of the table runs: here `handle_event` returns it with the new state.
pub mod FirstRow
use go_l2tp_debian.Prelude.{Bool, ◌&&◌, ◌||◌, true, false, Option, List, [], ◌∷◌, if◌then◌else◌}
use go_l2tp_debian.Prelude.Result.{Result, ok, err, no_transition}
use go_l2tp_debian.Prelude.Eq.{Eq, same}

-- `eventDesc`; states and events are strings in Go
pub record EventDesc {ℓ κ μ} (S : Type ℓ) (E : Type κ) (C : Type μ) : Type (ℓ ⊔ κ ⊔ μ) where
  pub from_state : S
  pub events : List E
  pub cb : Option C
  pub to_state : S

-- the inner loop
unfoldable pub has_event {κ} : {E : Type κ} ⦃eqe : Eq E⦄ → E → List E → Bool
has_event e [] = false
has_event e (x ∷ xs) = same e x || has_event e xs

module _ {ℓ κ μ} {S : Type ℓ} {E : Type κ} {C : Type μ} ⦃eqs : Eq S⦄ ⦃eqe : Eq E⦄ where
  unfoldable pub matches : S → E → EventDesc S E C → Bool
  matches current e row = same current row.from_state && has_event e row.events

  -- `handleEvent` on the current state and the table: the next state, and the callback to run
  unfoldable pub handle_event : S → List (EventDesc S E C) → E → Result (S × Option C)
  handle_event current [] e = err no_transition
  handle_event current (row ∷ table) e =
      if matches current e row then ok (row.to_state, row.cb) else handle_event current table e
