-- ===== src/Fsm/FirstRow.antt =====
-- Which row of its table a state machine takes.
use go_l2tp_debian.Prelude.{
  ◌≡◌, ◌↔◌, ◌⊎◌, inl, inr, ap, sym, arith, true, Option, List, [], ◌∷◌, Bool-cases, IsIn,
}
use go_l2tp_debian.Prelude.Result.{ok}
use go_l2tp_debian.Prelude.Eq.{Eq, same_iff}
use go_l2tp_debian.Fsm.{EventDesc, has_event, matches, handle_event}

has_event_iff :
    {E : Type 0} ⦃eqe : Eq E⦄ (e : E) (xs : List E) → (has_event e xs ≡ true) ↔ IsIn e xs
unfolding has_event
has_event_iff e [] = (λ h. cc, λ h. absurd h)
has_event_iff e (x ∷ xs) = ground (arith, has_event_iff e xs, same_iff e x)

module _ {S E C : Type 0} ⦃eqs : Eq S⦄ ⦃eqe : Eq E⦄ where
  -- the row is for the state and lists the event
  abbrev pub Fits : S → E → EventDesc S E C → Type 0
  Fits current e row = (current ≡ row.from_state) × IsIn e row.events

  -- The rows before it do not fit, and the row that fits leads to `out`.
  pub data Takes (current : S) (e : E) (out : S × Option C) : List (EventDesc S E C) → Type 0 where
    here :
        {row : EventDesc S E C} {table : List (EventDesc S E C)}
        → Fits current e row
        → out ≡ (row.to_state, row.cb)
        → Takes current e out (row ∷ table)
    later :
        {row : EventDesc S E C} {table : List (EventDesc S E C)}
        → ¬ Fits current e row
        → Takes current e out table
        → Takes current e out (row ∷ table)

  matches_iff :
      (current : S) (e : E) (row : EventDesc S E C)
      → (matches current e row ≡ true) ↔ Fits current e row
  unfolding matches
  matches_iff current e row =
      ground (arith, has_event_iff e row.events, same_iff current row.from_state)

  Takes-cases :
      {current : S} {e : E} {out : S × Option C} {row : EventDesc S E C}
      {table : List (EventDesc S E C)}
      → Takes current e out (row ∷ table)
      → (Fits current e row × (out ≡ (row.to_state, row.cb)))
        ⊎ ((¬ Fits current e row) × Takes current e out table)
  Takes-cases (here f o) = inl (f, o)
  Takes-cases (later n t) = inr (n, t)

  -- `handleEvent` takes the first row of the table that is for the current state and lists the
  -- event, and moves to that row's target with that row's callback.
  pub handle_event_iff :
      (current : S) (table : List (EventDesc S E C)) (e : E) (out : S × Option C)
      → (handle_event current table e ≡ ok out) ↔ Takes current e out table
  unfolding handle_event
  handle_event_iff current [] e out = (λ h. cc, λ t. elim t [ ])
  handle_event_iff current (row ∷ table) e out =
      let rest = handle_event_iff current table e out in
      let fits = matches_iff current e row in
      elim (Bool-cases (matches current e row)) [
        | inl now ↦ rw now (
          λ h. here (fits.0 now) (cc),
          λ t. elim (Takes-cases t) [
            | inl (f, o) ↦ ap ok (sym o)
            | inr (n, u) ↦ absurd (n (fits.0 now))
          ],
        )
        | inr other ↦ rw other (
          λ h. later (λ f. cc (fits.1 f)) (rest.0 h),
          λ t. elim (Takes-cases t) [ inl (f, o) ↦ cc (fits.1 f) | inr (n, u) ↦ rest.1 u ],
        )
      ]
