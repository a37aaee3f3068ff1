-- ===== src/Base/Lists.antt =====
-- Sequences measured by native numbers, under the library's names, and the calls of the C++
-- standard library on strings: `find` of a character, `substr`, `starts_with`.
use Prim.Native.Nat.{ℕ, zero, suc, ◌+◌, ◌-◌, ◌<◌, ◌≤◌}
use mathlib.Core.Path.{◌≡◌, refl, ap}
use mathlib.Core.Logic.{◌≢◌, ◌⊎◌, inl, inr}
use mathlib.Core.Bool.{Bool, true, false, ◌&&◌}
use mathlib.Core.List.{List, [], ◌∷◌, ◌++◌}
use mathlib.Core.Option
use mathlib.Core.Option.{Option, none, some}
use native.Mathlib.Omega.{arith}
use arinc_615a_cli_tool_suit.Base.Tests.{◌==◌, if◌then◌else◌}

module _ {ℓ} {A : Type ℓ} where
  abbrev pub length : List A → ℕ
  length [] = 0
  length (x ∷ xs) = suc (length xs)

  abbrev pub take : ℕ → List A → List A
  take zero xs = []
  take (suc n) [] = []
  take (suc n) (x ∷ xs) = x ∷ take n xs

  abbrev pub drop : ℕ → List A → List A
  drop zero xs = xs
  drop (suc n) [] = []
  drop (suc n) (x ∷ xs) = drop n xs

  abbrev pub replicate : ℕ → A → List A
  replicate zero a = []
  replicate (suc n) a = a ∷ replicate n a

  abbrev pub is_empty : List A → Bool
  is_empty [] = true
  is_empty (x ∷ xs) = false

  abbrev pub All {κ} : (A → Type κ) → List A → Type κ
  All P [] = Unit {κ}
  All P (x ∷ xs) = P x × All P xs

  pub length-append : (xs ys : List A) → length (xs ++ ys) ≡ length xs + length ys
  length-append [] ys = omega arith
  length-append (x ∷ xs) ys = omega (arith, length-append xs ys)

  pub take-append-drop : (n : ℕ) (xs : List A) → take n xs ++ drop n xs ≡ xs
  take-append-drop zero xs = refl
  take-append-drop (suc n) [] = refl
  take-append-drop (suc n) (x ∷ xs) = ap (◌∷◌ x) (take-append-drop n xs)

  pub take-append : (xs ys : List A) → take (length xs) (xs ++ ys) ≡ xs
  take-append [] ys = refl
  take-append (x ∷ xs) ys = ap (◌∷◌ x) (take-append xs ys)

  pub drop-append : (xs ys : List A) → drop (length xs) (xs ++ ys) ≡ ys
  drop-append [] ys = refl
  drop-append (x ∷ xs) ys = drop-append xs ys

  pub drop-append_behind : (a : A) (xs ys : List A) → drop (suc (length xs)) (xs ++ a ∷ ys) ≡ ys
  drop-append_behind a [] ys = refl
  drop-append_behind a (x ∷ xs) ys = drop-append_behind a xs ys

  pub length-drop : (n : ℕ) (xs : List A) → length (drop n xs) ≤ length xs
  length-drop zero xs = omega arith
  length-drop (suc n) [] = omega arith
  length-drop (suc n) (x ∷ xs) = omega (arith, length-drop n xs)

  pub length-replicate : (n : ℕ) (a : A) → length (replicate n a) ≡ n
  length-replicate zero a = refl
  length-replicate (suc n) a = ap suc (length-replicate n a)

  pub drop-replicate : (n m : ℕ) (a : A) → drop n (replicate m a) ≡ replicate (m - n) a
  drop-replicate zero m a = let e : m - 0 ≡ m = omega arith in rw e
  drop-replicate (suc n) zero a = let e : 0 - suc n ≡ 0 = omega arith in rw e
  drop-replicate (suc n) (suc m) a =
      let e : suc m - suc n ≡ m - n = omega arith in rw e (drop-replicate n m a)

  pub length-take : (n : ℕ) (xs : List A) → n ≤ length xs → length (take n xs) ≡ n
  length-take zero xs h = refl
  length-take (suc n) [] h = absurd (omega arith)
  length-take (suc n) (x ∷ xs) h = ap suc (length-take n xs (omega arith))

  pub All-append {κ} :
      (P : A → Type κ) (front back : List A) → All P front → All P back → All P (front ++ back)
  All-append P [] back f b = b
  All-append P (a ∷ front) back f b = (f.0, All-append P front back f.1 b)

pub Option-cases {ℓ} : {A : Type ℓ} (o : Option A) → (o ≡ none) ⊎ ((a : A) × (o ≡ some a))
Option-cases none = inl refl
Option-cases (some a) = inr (a, refl)

-- `std::string_view::find` of one character.
unfoldable pub find : ℕ → List ℕ → Option ℕ
find c [] = none
find c (x ∷ xs) = if x == c then some 0 else Option.map suc (find c xs)

pub find_first :
    (c : ℕ) (xs ys : List ℕ) → All (λ x. x ≢ c) xs → find c (xs ++ c ∷ ys) ≡ some (length xs)
unfolding find
find_first c [] ys h = ground arith
find_first c (x ∷ xs) ys h = ground (arith, find_first c xs ys h.1)

pub find_absent : (c : ℕ) (xs : List ℕ) → All (λ x. x ≢ c) xs → find c xs ≡ none
unfolding find
find_absent c [] h = refl
find_absent c (x ∷ xs) h = ground (arith, find_absent c xs h.1)

-- What stands before the first occurrence holds no other, and the rest begins behind it.
pub find_sound :
    (c : ℕ) (xs : List ℕ) (n : ℕ)
    → find c xs ≡ some n
    → All (λ x. x ≢ c) (take n xs) × (xs ≡ take n xs ++ c ∷ drop (suc n) xs) × (n < length xs)
unfolding find
find_sound c [] n e = ground arith
find_sound c (x ∷ xs) zero e = ground arith
find_sound c (x ∷ xs) (suc n) e = ground (arith, find_sound c xs n)

-- Equality of two strings.
unfoldable pub str_eq : List ℕ → List ℕ → Bool
str_eq [] [] = true
str_eq [] (y ∷ ys) = false
str_eq (x ∷ xs) [] = false
str_eq (x ∷ xs) (y ∷ ys) = x == y && str_eq xs ys

pub str_eq_refl : (xs : List ℕ) → str_eq xs xs ≡ true
unfolding str_eq
str_eq_refl [] = refl
str_eq_refl (x ∷ xs) = ground (arith, str_eq_refl xs)

pub str_eq→eq : (xs ys : List ℕ) → str_eq xs ys ≡ true → xs ≡ ys
unfolding str_eq
str_eq→eq [] [] h = refl
str_eq→eq [] (y ∷ ys) h = cc
str_eq→eq (x ∷ xs) [] h = cc
str_eq→eq (x ∷ xs) (y ∷ ys) h = ground (arith, str_eq→eq xs ys)

-- `std::string_view::starts_with`.
unfoldable pub starts_with : List ℕ → List ℕ → Bool
starts_with xs [] = true
starts_with [] (p ∷ ps) = false
starts_with (x ∷ xs) (p ∷ ps) = x == p && starts_with xs ps

pub starts_with-append : (ps xs : List ℕ) → starts_with (ps ++ xs) ps ≡ true
unfolding starts_with
starts_with-append [] [] = refl
starts_with-append [] (x ∷ xs) = refl
starts_with-append (p ∷ ps) xs = ground (arith, starts_with-append ps xs)

-- `substr` around a position, where there is one: else two empty strings.
abbrev pub cut_at : List ℕ → Option ℕ → List ℕ × List ℕ
cut_at text none = ([], [])
cut_at text (some n) = (take n text, drop (suc n) text)

pub cut_at-find :
    (c : ℕ) (xs ys : List ℕ)
    → All (λ x. x ≢ c) xs
    → cut_at (xs ++ c ∷ ys) (find c (xs ++ c ∷ ys)) ≡ (xs, ys)
cut_at-find c xs ys h =
    rw (find_first c xs ys h) (rw (take-append xs (c ∷ ys), drop-append_behind c xs ys))

-- A text is put together again from the two parts, unless there was nothing to cut at.
pub cut_at_sound :
    (c : ℕ) (text : List ℕ) (o : Option ℕ)
    → find c text ≡ o
    → 0 < length (cut_at text o).0
    → text ≡ (cut_at text o).0 ++ c ∷ (cut_at text o).1
cut_at_sound c text none e h = absurd (omega arith)
cut_at_sound c text (some n) e h = (find_sound c text n e).1
