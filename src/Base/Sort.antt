-- ===== src/Base/Sort.antt =====
-- `ORDER BY` as insertion sort, by a Boolean `le` on rows.
pub mod Order
use mathlib.Core.List.{List, [], ◌∷◌}
use mathlib.Core.Path.{◌≡◌, refl, sym, subst}
use mathlib.Core.Bool.{Bool, true, ◌||◌}
use mathlib.Core.Logic.{◌⊎◌, inl, inr}
use native.Mathlib.Omega.{arith}
use buildbee.Base.Tests.{if◌then◌else◌, Bool-cases}
use buildbee.Base.Lists.{exists, All}

module _ {ℓ} {A : Type ℓ} (le : A → A → Bool) where
  unfoldable pub insert_by : A → List A → List A
  insert_by a [] = a ∷ []
  insert_by a (x ∷ xs) = if le a x then a ∷ x ∷ xs else x ∷ insert_by a xs

  unfoldable pub sort_by : List A → List A
  unfolding insert_by
  sort_by [] = []
  sort_by (x ∷ xs) = insert_by x (sort_by xs)

  exists-insert :
      (p : A → Bool) (a : A) (xs : List A) → exists p (insert_by a xs) ≡ (p a || exists p xs)
  unfolding insert_by exists
  exists-insert p a [] = refl
  exists-insert p a (x ∷ xs) = ground (arith, exists-insert p a xs)

  -- Sorting neither adds nor drops rows.
  pub exists-sort : (p : A → Bool) (xs : List A) → exists p (sort_by xs) ≡ exists p xs
  unfolding sort_by exists
  exists-sort p [] = refl
  exists-sort p (x ∷ xs) = ground (arith, exists-insert p x (sort_by xs), exists-sort p xs)

  All-insert {κ} : (P : A → Type κ) (a : A) (xs : List A) → P a → All P xs → All P (insert_by a xs)
  unfolding insert_by
  All-insert P a [] h hs = (h, tt)
  All-insert P a (x ∷ xs) h hs = elim (Bool-cases (le a x)) [
    | inl y ↦ rw y (h, hs)
    | inr n ↦ rw n (hs.0, All-insert P a xs h hs.1)
  ]

  pub All-sort {κ} : (P : A → Type κ) (xs : List A) → All P xs → All P (sort_by xs)
  unfolding sort_by
  All-sort P [] h = tt
  All-sort P (x ∷ xs) h = All-insert P x (sort_by xs) h.0 (All-sort P xs h.1)

-- The first of the sorted rows comes before every row, in a total order.
module _ {A : Type 0} (le : A → A → Bool) (total : (a b : A) → (le a b ≡ true) ⊎ (le b a ≡ true))
    (trans : (a b c : A) → le a b ≡ true → le b c ≡ true → le a c ≡ true) where
  abbrev Before : A → List A → Type 0
  Before a xs = All (λ x. le a x ≡ true) xs

  abbrev Leads : List A → List A → Type 0
  Leads [] xs = xs ≡ []
  Leads (y ∷ ys) xs = Before y xs

  before_self : (a : A) → le a a ≡ true
  before_self a = elim (total a a) [ inl h ↦ h | inr h ↦ h ]

  Before-all : (a b : A) (xs : List A) → le a b ≡ true → Before b xs → Before a xs
  Before-all a b [] h hs = tt
  Before-all a b (x ∷ xs) h hs = (trans a b x h hs.0, Before-all a b xs h hs.1)

  insert-Leads : (a : A) (zs xs : List A) → Leads zs xs → Leads (insert_by le a zs) (a ∷ xs)
  unfolding insert_by
  insert-Leads a [] xs h = (before_self a, subst (Before a) (sym h) tt)
  insert-Leads a (y ∷ ys) xs h = elim (Bool-cases (le a y)) [
    | inl e ↦ rw e (before_self a, Before-all a y xs e h)
    | inr n ↦ rw n (elim (total a y) [ inl e ↦ ground (arith, e, n) | inr e ↦ (e, h) ])
  ]

  sort-Leads : (xs : List A) → Leads (sort_by le xs) xs
  unfolding sort_by
  sort-Leads [] = refl
  sort-Leads (x ∷ xs) = insert-Leads x (sort_by le xs) xs (sort-Leads xs)

  pub sort-least : (y : A) (ys xs : List A) → sort_by le xs ≡ y ∷ ys → Before y xs
  sort-least y ys xs h = subst (λ zs. Leads zs xs) h (sort-Leads xs)

  pub sort-none : (xs : List A) → sort_by le xs ≡ [] → xs ≡ []
  sort-none xs h = subst (λ zs. Leads zs xs) h (sort-Leads xs)
