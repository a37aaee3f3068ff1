-- ===== src/Base/Events.antt =====
-- Programs that react to events: a handler gives the next state and the calls that it makes.
use mathlib.Core.Path.{◌≡◌, refl}
use mathlib.Core.Bool.{Bool, true, false, ◌||◌}
use mathlib.Core.Logic.{inl, inr}
use mathlib.Core.List.{List, [], ◌∷◌, ◌++◌, append_assoc}
use arinc_615a_cli_tool_suit.Base.Tests.{Bool-cases}

pub or_true : (b : Bool) → b || true ≡ true
or_true true = refl
or_true false = refl

pub or_left : (a b : Bool) → a ≡ true → a || b ≡ true
or_left a b h = rw h refl

-- Some call is of the kind that is asked for.
module _ {A : Type 0} (kind : A → Bool) where
  unfoldable pub any_of : List A → Bool
  any_of [] = false
  any_of (a ∷ actions) = kind a || any_of actions

  pub any_of-front :
      (front actions : List A) → any_of front ≡ true → any_of (front ++ actions) ≡ true
  unfolding any_of
  any_of-front [] actions h = cc
  any_of-front (a ∷ front) actions h = elim (Bool-cases (kind a)) [
    | inl e ↦ rw e refl
    | inr e ↦ rw e (any_of-front front actions (rw e at h))
  ]

  pub any_of-behind :
      (w : Bool) (front actions : List A)
      → w || any_of actions ≡ true
      → w || any_of (front ++ actions) ≡ true
  unfolding any_of
  any_of-behind w [] actions h = h
  any_of-behind true (a ∷ front) actions h = refl
  any_of-behind false (a ∷ front) actions h =
      rw (any_of-behind false front actions h) (or_true (kind a))

  pub any_of-join :
      (front actions : List A) → any_of (front ++ actions) ≡ any_of front || any_of actions
  unfolding any_of
  any_of-join [] actions = refl
  any_of-join (a ∷ front) actions = elim (Bool-cases (kind a)) [
    | inl e ↦ rw e refl
    | inr e ↦ rw e (any_of-join front actions)
  ]

  pub any_of-append :
      (front actions : List A)
      → any_of front ≡ false
      → any_of actions ≡ false
      → any_of (front ++ actions) ≡ false
  any_of-append front actions h k = rw (any_of-join front actions, h, k) refl

  pub any_of-none : ((a : A) → kind a ≡ false) → (actions : List A) → any_of actions ≡ false
  unfolding any_of
  any_of-none h [] = refl
  any_of-none h (a ∷ actions) = rw (h a) (any_of-none h actions)

-- What is found in the calls, in their order.
module _ {A B : Type 0} (found_in : A → List B) where
  unfoldable pub collect : List A → List B
  collect [] = []
  collect (a ∷ actions) = found_in a ++ collect actions

  pub collect-append :
      (front actions : List A) → collect (front ++ actions) ≡ collect front ++ collect actions
  unfolding collect
  collect-append [] actions = refl
  collect-append (a ∷ front) actions = rw (collect-append front actions) (simp append_assoc)

-- The events one after the other, and all calls in their order.
module _ {E S A : Type 0} (handle : E → S → S × List A) where
  unfoldable pub run_events : List E → S → S × List A
  run_events [] s = (s, [])
  run_events (e ∷ events) s =
      let outcome = handle e s in
      let rest = run_events events outcome.0 in (rest.0, outcome.1 ++ rest.1)

  -- Where each handler leaves something to wait for or makes a call that is the last, any sequence of
  -- events does.
  pub run_events_waits :
      (waits : S → Bool) (last : A → Bool)
      → ((e : E) (s : S)
          → waits s ≡ true
          → waits (handle e s).0 || any_of last (handle e s).1 ≡ true)
      → (events : List E) (s : S) → waits s ≡ true
      → waits (run_events events s).0 || any_of last (run_events events s).1 ≡ true
  unfolding run_events
  run_events_waits waits last law [] s h = or_left _ _ h
  run_events_waits waits last law (e ∷ events) s h = elim (Bool-cases (waits (handle e s).0)) [
    | inl w ↦
        any_of-behind last _ (handle e s).1 _
          (run_events_waits waits last law events (handle e s).0 w)
    | inr w ↦
        let done : any_of last (handle e s).1 ≡ true = rw w at (law e s h) in
        rw (any_of-front last (handle e s).1 _ done) (or_true _)
  ]
