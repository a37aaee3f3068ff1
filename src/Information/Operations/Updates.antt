-- ===== src/Information/Operations/Updates.antt =====
-- A change of one load or file of a status.
use arinc_615a_cli_tool_suit.Base.{
  All, List, Option-cases, [], ap, arith, inl, inr, length, length-append, map, refl, suc, zero, ℕ,
  ◌++◌, ◌∷◌, ◌≡◌, ◌≤◌,
}
use arinc_615a_cli_tool_suit.Information.Operations.{find_by_name, find_or_add}

unfoldable pub update_at {ℓ} : {A : Type ℓ} → ℕ → (A → A) → List A → List A
update_at n f [] = []
update_at zero f (a ∷ items) = f a ∷ items
update_at (suc n) f (a ∷ items) = a ∷ update_at n f items

pub length-update_at {ℓ} :
    {A : Type ℓ} (n : ℕ) (f : A → A) (items : List A) → length (update_at n f items) ≡ length items
unfolding update_at
length-update_at n f [] = refl
length-update_at zero f (a ∷ items) = refl
length-update_at (suc n) f (a ∷ items) = ap suc (length-update_at n f items)

-- A change that keeps a property of the elements.
module _ {A : Type 0} (P : A → Type 0) (f : A → A) (keeps : (a : A) → P a → P (f a)) where
  All-update_at : (n : ℕ) (items : List A) → All P items → All P (update_at n f items)
  unfolding update_at
  All-update_at n [] h = h
  All-update_at zero (a ∷ items) h = (keeps a h.0, h.1)
  All-update_at (suc n) (a ∷ items) h = (h.0, All-update_at n items h.1)

  -- The element behind the others is changed: it need not have the property before.
  All-update_new :
      (fresh : A) (items : List A)
      → P (f fresh)
      → All P items
      → All P (update_at (length items) f (items ++ fresh ∷ []))
  unfolding update_at
  All-update_new fresh [] k h = (k, tt)
  All-update_new fresh (a ∷ items) k h = (h.0, All-update_new fresh items k h.1)

  pub update_new :
      (fresh : A) (items : List A)
      → P (f fresh)
      → All P items
      → All P (update_at (length items) f (items ++ fresh ∷ []))
        × (length (update_at (length items) f (items ++ fresh ∷ [])) ≤ suc (length items))
  update_new fresh items k h = (
    All-update_new fresh items k h,
    omega (
      arith,
      length-update_at (length items) f (items ++ fresh ∷ []),
      length-append items (fresh ∷ []),
    ),
  )

  -- The element with a name is changed, and added before where there is none.
  pub update_found :
      (name_of : A → List ℕ) (fresh : A) (items : List A)
      → P (f fresh)
      → All P items
      → let outcome = find_or_add name_of fresh items in
        All P (update_at outcome.1 f outcome.0)
        × (length (update_at outcome.1 f outcome.0) ≤ suc (length items))
  unfolding find_or_add
  update_found name_of fresh items k h =
      elim (Option-cases (find_by_name name_of (name_of fresh) items)) [
        | inl e ↦ rw (find_or_add, e) (update_new fresh items k h)
        | inr (n, e) ↦
            rw (find_or_add, e) (All-update_at n items h, omega (arith, length-update_at n f items))
      ]

-- A change of all elements.
pub All-map :
    {A : Type 0} (P : A → Type 0) (f : A → A) (items : List A)
    → ((a : A) → P a → P (f a))
    → All P items
    → All P (map f items) × (length (map f items) ≡ length items)
All-map P f [] keeps h = (tt, refl)
All-map P f (a ∷ items) keeps h =
    let rest = All-map P f items keeps h.1 in ((keeps a h.0, rest.0), ap suc rest.1)
