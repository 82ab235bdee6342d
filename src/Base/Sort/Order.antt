-- ===== src/Base/Sort/Order.antt =====
-- What is first in a sorted list among the elements that pass a test.
use mathlib.Core.List.{List, [], ◌∷◌}
use mathlib.Core.Path.{◌≡◌, subst}
use mathlib.Core.Bool.{Bool, true}
use mathlib.Core.Logic.{◌⊎◌, inl, inr}
use mathlib.Core.Option.{some}
use native.Mathlib.Omega.{arith}
use buildbee.Base.Tests.{if◌then◌else◌, Bool-cases}
use buildbee.Base.Lists.{first, All}
use buildbee.Base.Sort.{insert_by, sort_by}

module _ {A : Type 0} (le : A → A → Bool) (total : (a b : A) → (le a b ≡ true) ⊎ (le b a ≡ true))
    (trans : (a b c : A) → le a b ≡ true → le b c ≡ true → le a c ≡ true) where
  abbrev Below : A → List A → Type 0
  Below a xs = All (λ x. le a x ≡ true) xs

  abbrev IsSorted : List A → Type 0
  IsSorted [] = Unit
  IsSorted (x ∷ xs) = Below x xs × IsSorted xs

  Below-all : (a b : A) (xs : List A) → le a b ≡ true → Below b xs → Below a xs
  Below-all a b [] h hs = tt
  Below-all a b (x ∷ xs) h hs = (trans a b x h hs.0, Below-all a b xs h hs.1)

  All-insert_by :
      (P : A → Type 0) (a : A) (xs : List A) → P a → All P xs → All P (insert_by le a xs)
  unfolding insert_by
  All-insert_by P a [] h hs = (h, tt)
  All-insert_by P a (x ∷ xs) h hs = elim (Bool-cases (le a x)) [
    | inl y ↦ rw y (h, hs)
    | inr n ↦ rw n (hs.0, All-insert_by P a xs h hs.1)
  ]

  insert_by-IsSorted : (a : A) (xs : List A) → IsSorted xs → IsSorted (insert_by le a xs)
  unfolding insert_by
  insert_by-IsSorted a [] h = (tt, tt)
  insert_by-IsSorted a (x ∷ xs) h = elim (Bool-cases (le a x)) [
    | inl y ↦ rw y ((y, Below-all a x xs y h.0), h)
    | inr n ↦
        let back : le x a ≡ true = elim (total a x) [ inl e ↦ ground (arith, e, n) | inr e ↦ e ] in
        rw n (All-insert_by (λ z. le x z ≡ true) a xs back h.0, insert_by-IsSorted a xs h.1)
  ]

  sort_by-IsSorted : (xs : List A) → IsSorted (sort_by le xs)
  unfolding sort_by
  sort_by-IsSorted [] = tt
  sort_by-IsSorted (x ∷ xs) = insert_by-IsSorted x (sort_by le xs) (sort_by-IsSorted xs)

  All-insert_back :
      (P : A → Type 0) (a : A) (xs : List A) → All P (insert_by le a xs) → P a × All P xs
  unfolding insert_by
  All-insert_back P a [] h = h
  All-insert_back P a (x ∷ xs) h = elim (Bool-cases (le a x)) [
    | inl y ↦ subst (λ b. All P (if b then a ∷ x ∷ xs else x ∷ insert_by le a xs)) y h
    | inr n ↦
        let k = subst (λ b. All P (if b then a ∷ x ∷ xs else x ∷ insert_by le a xs)) n h in
        let r = All-insert_back P a xs k.1 in (r.0, (k.0, r.1))
  ]

  -- What holds of all elements of the sorted list holds of those of the list.
  pub All-sort_back : (P : A → Type 0) (xs : List A) → All P (sort_by le xs) → All P xs
  unfolding sort_by
  All-sort_back P [] h = tt
  All-sort_back P (x ∷ xs) h =
      let r = All-insert_back P x (sort_by le xs) h in (r.0, All-sort_back P xs r.1)

  abbrev Least : (A → Bool) → A → List A → Type 0
  Least p y xs = All (λ x. p x ≡ true → le y x ≡ true) xs

  le_self : (a : A) → le a a ≡ true
  le_self a = elim (total a a) [ inl h ↦ h | inr h ↦ h ]

  Below-Least : (p : A → Bool) (y : A) (xs : List A) → Below y xs → Least p y xs
  Below-Least p y [] h = tt
  Below-Least p y (x ∷ xs) h = (λ _. h.0, Below-Least p y xs h.1)

  first-Least :
      (p : A → Bool) (y : A) (xs : List A) → IsSorted xs → first p xs ≡ some y → Least p y xs
  unfolding first
  first-Least p y [] s h = tt
  first-Least p y (x ∷ xs) s h = elim (Bool-cases (p x)) [
    | inl e ↦
        let same : x ≡ y = ground (arith, e, h) in
        subst (λ z. Least p z (x ∷ xs)) same (Below-Least p x (x ∷ xs) (le_self x, s.0))
    | inr n ↦ (λ e. ground (arith, e, n), first-Least p y xs s.1 (ground (arith, n, h)))
  ]

  -- The first that passes in the sorted list comes before all that pass.
  pub first-sort :
      (p : A → Bool) (y : A) (xs : List A) → first p (sort_by le xs) ≡ some y → Least p y xs
  first-sort p y xs h =
      All-sort_back (λ x. p x ≡ true → le y x ≡ true) xs
        (first-Least p y (sort_by le xs) (sort_by-IsSorted xs) h)
