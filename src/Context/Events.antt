-- ===== src/Context/Events.antt =====
-- l2tp/l2tp.go: the handlers of user events.
use go_l2tp_debian.Prelude.{
  ℕ, ◌≡◌, refl, List, [], ◌∷◌, ◌++◌, if◌then◌else◌, Bool, true, false, IsIn, IsIn-append, ap, subst,
  sym,
}
use go_l2tp_debian.Prelude.Eq.{same, nat_eq}

-- A handler is a number: Go compares the interface values.
unfoldable pub register_event_handler : ℕ → List ℕ → List ℕ
register_event_handler h hs = hs ++ h ∷ []

-- `UnregisterEventHandler`, with all of the handlers: at the first that is equal, they are put before
-- those behind it
unfoldable pub unregister_loop : List ℕ → ℕ → List ℕ → List ℕ
unregister_loop all h [] = all
unregister_loop all h (x ∷ xs) =
    let rest = unregister_loop all h xs in if same x h then all ++ xs else rest

unfoldable pub unregister_event_handler : ℕ → List ℕ → List ℕ
unfolding unregister_loop
unregister_event_handler h hs = unregister_loop hs h hs

-- the handlers that `handleUserEvent` calls, in order
unfoldable pub handle_user_event : List ℕ → List ℕ
handle_user_event [] = []
handle_user_event (h ∷ hs) = h ∷ handle_user_event hs

calls_all : (hs : List ℕ) → handle_user_event hs ≡ hs
unfolding handle_user_event
calls_all [] = refl
calls_all (h ∷ hs) = ap (λ t. h ∷ t) (calls_all hs)

if-IsIn :
    (k : ℕ) (b : Bool) (xs ys : List ℕ) → IsIn k xs → IsIn k ys → IsIn k (if b then xs else ys)
if-IsIn k true xs ys l m = l
if-IsIn k false xs ys l m = m

still_listed : (h k : ℕ) (all hs : List ℕ) → IsIn k all → IsIn k (unregister_loop all h hs)
unfolding unregister_loop
still_listed h k all [] l = l
still_listed h k all (x ∷ xs) l =
    if-IsIn k (same x h) (all ++ xs) (unregister_loop all h xs) (IsIn-append k all xs l)
      (still_listed h k all xs l)

-- A handler that user events reach is still reached after UnregisterEventHandler was called with it,
-- or with another.
pub handle_user_event-unregister :
    (h k : ℕ) (hs : List ℕ)
    → IsIn k (handle_user_event hs)
    → IsIn k (handle_user_event (unregister_event_handler h hs))
unfolding unregister_event_handler
handle_user_event-unregister h k hs l =
    subst (IsIn k) (sym (calls_all (unregister_loop hs h hs)))
      (still_listed h k hs hs (subst (IsIn k) (calls_all hs) l))
