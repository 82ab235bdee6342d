-- ===== src/Base/Lists.antt =====
-- Lists measured and cut by native numbers, under the library's names, and tests on lists.
use Prim.Native.Nat.{ℕ, zero, suc, ◌+◌, ◌≤◌}
use mathlib.Core.Path.{◌≡◌, refl, subst}
use mathlib.Core.Bool.{Bool, true, false, ◌||◌}
use mathlib.Core.List.{List, [], ◌∷◌, ◌++◌}
use mathlib.Core.Option.{Option, none, some}
use native.Mathlib.Omega.{arith}
use mathlib.Core.Logic.{◌⊎◌, inl, inr}
use buildbee.Base.Tests.{if◌then◌else◌, Bool-cases}

module _ {ℓ} {A : Type ℓ} where
  abbrev pub length : List A → ℕ
  length [] = 0
  length (x ∷ xs) = suc (length xs)

  abbrev pub take : ℕ → List A → List A
  take zero xs = []
  take (suc n) [] = []
  take (suc n) (x ∷ xs) = x ∷ take n xs

  abbrev pub drop : ℕ → List A → List A
  drop zero xs = xs
  drop (suc n) [] = []
  drop (suc n) (x ∷ xs) = drop n xs

  abbrev pub is_empty : List A → Bool
  is_empty [] = true
  is_empty (x ∷ xs) = false

  -- The elements that pass a Boolean test, in order.
  unfoldable pub keep : (A → Bool) → List A → List A
  keep p [] = []
  keep p (x ∷ xs) = if p x then x ∷ keep p xs else keep p xs

  -- The first element that passes.
  unfoldable pub first : (A → Bool) → List A → Option A
  first p [] = none
  first p (x ∷ xs) = if p x then some x else first p xs

  unfoldable pub exists : (A → Bool) → List A → Bool
  exists p [] = false
  exists p (x ∷ xs) = p x || exists p xs

  -- How many elements pass.
  unfoldable pub count_if : (A → Bool) → List A → ℕ
  count_if p [] = 0
  count_if p (x ∷ xs) = if p x then suc (count_if p xs) else count_if p xs

  -- A predicate that holds of every element.
  abbrev pub All {κ} : (A → Type κ) → List A → Type κ
  All P [] = Unit
  All P (x ∷ xs) = P x × All P xs

  pub length-append : (xs ys : List A) → length (xs ++ ys) ≡ length xs + length ys
  length-append [] ys = omega arith
  length-append (x ∷ xs) ys = omega (arith, length-append xs ys)

  pub length-take_le : (n : ℕ) (xs : List A) → length (take n xs) ≤ n
  length-take_le zero xs = omega arith
  length-take_le (suc n) [] = omega arith
  length-take_le (suc n) (x ∷ xs) = omega (arith, length-take_le n xs)

  pub take-append-drop : (n : ℕ) (xs : List A) → take n xs ++ drop n xs ≡ xs
  take-append-drop zero xs = refl
  take-append-drop (suc n) [] = refl
  take-append-drop (suc n) (x ∷ xs) = rw (take-append-drop n xs)

  pub keep-append : (p : A → Bool) (xs ys : List A) → keep p (xs ++ ys) ≡ keep p xs ++ keep p ys
  unfolding keep
  keep-append p [] ys = refl
  keep-append p (x ∷ xs) ys = ground (arith, keep-append p xs ys)

-- What holds of every row holds of those that a test keeps, with the test, and the other way round.
module _ {A : Type 0} (p : A → Bool) where
  pub keep-All :
      (P : A → Type 0) (xs : List A) → All P xs → All (λ x. (p x ≡ true) × P x) (keep p xs)
  unfolding keep
  keep-All P [] h = tt
  keep-All P (x ∷ xs) h = elim (Bool-cases (p x)) [
    | inl e ↦ rw e ((e, h.0), keep-All P xs h.1)
    | inr e ↦ rw e (keep-All P xs h.1)
  ]

  abbrev IfKept : (A → Type 0) → A → Type 0
  IfKept Q x = p x ≡ true → Q x

  unkept : (Q : A → Type 0) (x : A) → p x ≡ false → IfKept Q x
  unkept Q x e y = ground arith

  pub keep-All_back : (Q : A → Type 0) (xs : List A) → All Q (keep p xs) → All (IfKept Q) xs
  unfolding keep
  keep-All_back Q [] h = tt
  keep-All_back Q (x ∷ xs) h = elim (Bool-cases (p x)) [
    | inl e ↦
        let k = subst (λ b. All Q (if b then x ∷ keep p xs else keep p xs)) e h in
        (λ y. k.0, keep-All_back Q xs k.1)
    | inr e ↦
        let k = subst (λ b. All Q (if b then x ∷ keep p xs else keep p xs)) e h in
        (unkept Q x e, keep-All_back Q xs k)
  ]

-- A predicate that holds of some element.
abbrev pub Any : {A : Type 0} → (A → Type 0) → List A → Type 0
Any P [] = ⊥
Any P (x ∷ xs) = P x ⊎ Any P xs

abbrev In : {A : Type 0} → List A → A → Type 0
In xs q = Any (λ x. x ≡ q) xs

In-within : {A : Type 0} (ps xs : List A) → ((q : A) → In xs q → In ps q) → All (In ps) xs
In-within ps [] f = tt
In-within ps (x ∷ xs) f = (f x (inl refl), In-within ps xs (λ q h. f q (inr h)))

pub Any-self : {A : Type 0} (ps : List A) → All (λ q. Any (λ x. x ≡ q) ps) ps
Any-self ps = In-within ps ps (λ q h. h)

-- The first element that passes a test passes it, and has what all elements have.
pub first-All :
    {A : Type 0} (P : A → Type 0) (p : A → Bool) (y : A) (xs : List A)
    → All P xs
    → first p xs ≡ some y
    → P y × (p y ≡ true)
unfolding first
first-All P p y [] h e = ground (arith, e)
first-All P p y (x ∷ xs) h e = elim (Bool-cases (p x)) [
  | inl t ↦
      let same : x ≡ y = ground (arith, t, e) in (subst P same h.0, subst (λ z. p z ≡ true) same t)
  | inr n ↦ first-All P p y xs h.1 (ground (arith, n, e))
]
