-- ===== src/Store/Rows/Picked.antt =====
-- Rows that are picked by a list of keys, and how many they are.
use buildbee.Base.{
  ◌+◌, ◌≤◌, ◌≡◌, ◌⊎◌, refl, sym, subst, Bool, true, false, not, ◌&&◌, none, some, List, [], ◌∷◌,
  arith, All, count_if, exists, length, Bool-cases, inl, inr, keep,
}
use buildbee.Text.{Text, text_eq, text_eq-true}
use buildbee.Store.Rows.{find_row, find_row_key}
use buildbee.Store.Rows.Keyed.{IsKeyed}

-- No key stands in the list twice.
abbrev pub Distinct : List Text → Type 0
Distinct [] = Unit
Distinct (i ∷ is) = (exists (text_eq i) is ≡ false) × Distinct is

pub length-keep : {A : Type 0} (p : A → Bool) (xs : List A) → length (keep p xs) ≡ count_if p xs
unfolding keep count_if
length-keep p [] = refl
length-keep p (x ∷ xs) = ground (arith, length-keep p xs)

-- What holds of every key in the list holds of one that stands there.
pub All-named :
    (P : Text → Type 0) (i : Text) (is : List Text) → exists (text_eq i) is ≡ true → All P is → P i
unfolding exists
All-named P i [] h a = ground (arith, h)
All-named P i (k ∷ is) h a = elim (Bool-cases (text_eq i k)) [
  | inl y ↦ subst P (sym (text_eq-true i k y)) a.0
  | inr n ↦ All-named P i is (ground (arith, h, n)) a.1
]

module _ {A : Type 0} (key : A → Text) where
  none_by_key :
      (i : Text) (r : A → Bool) (xs : List A)
      → find_row key i xs ≡ none
      → count_if (λ x. text_eq (key x) i && r x) xs ≡ 0
  unfolding find_row count_if
  none_by_key i r [] h = refl
  none_by_key i r (x ∷ xs) h = ground (arith, h, none_by_key i r xs)

  -- With distinct keys a key is that of one row at most.
  one_by_key :
      (i : Text) (r : A → Bool) (xs : List A)
      → IsKeyed key xs
      → (count_if (λ x. text_eq (key x) i && r x) xs ≡ 0)
        ⊎ ((count_if (λ x. text_eq (key x) i && r x) xs ≡ 1)
            × (x : A) × (find_row key i xs ≡ some x)
            × (r x ≡ true))
  unfolding find_row count_if
  one_by_key i r [] h = inl refl
  one_by_key i r (x ∷ xs) h = elim (Bool-cases (text_eq (key x) i)) [
    | inl y ↦
        let gone = none_by_key i r xs (ground (arith, h.0, text_eq-true (key x) i y)) in
        elim (Bool-cases (r x)) [
          | inl t ↦ inr (ground (arith, y, t, gone), x, ground (arith, y), t)
          | inr f ↦ inl (ground (arith, y, f, gone))
        ]
    | inr n ↦ elim (one_by_key i r xs h.1) [
      | inl z ↦ inl (ground (arith, n, z))
      | inr (c, f, e, t) ↦ inr (ground (arith, n, c), f, ground (arith, n, e), t)
    ]
  ]

  abbrev pub named : List Text → A → Bool
  named is x = exists (text_eq (key x)) is

  split_first :
      (i : Text) (is : List Text) (q : A → Bool) (xs : List A)
      → count_if (λ x. named (i ∷ is) x && q x) xs
        ≡ count_if (λ x. text_eq (key x) i && (q x && not (named is x))) xs
          + count_if (λ x. named is x && q x) xs
  unfolding count_if exists
  split_first i is q [] = refl
  split_first i is q (x ∷ xs) = ground (arith, split_first i is q xs)

  nobody : (q : A → Bool) (xs : List A) → count_if (λ x. named [] x && q x) xs ≡ 0
  unfolding count_if exists
  nobody q [] = refl
  nobody q (x ∷ xs) = nobody q xs

  picked-bound :
      (is : List Text) (q : A → Bool) (xs : List A)
      → IsKeyed key xs
      → count_if (λ x. named is x && q x) xs ≤ length is
  picked-bound [] q xs h = let none_there = nobody q xs in omega (arith, none_there)
  picked-bound (i ∷ is) q xs h =
      let split = split_first i is q xs in
      let rest = picked-bound is q xs h in
      elim (one_by_key i (λ x. q x && not (named is x)) xs h) [
        | inl z ↦ omega (arith, split, rest, z)
        | inr (c, _, _, _) ↦ omega (arith, split, rest, c)
      ]

  -- Where as many rows are picked as there are keys, every key picks one, and no key stands twice.
  pub picked-all :
      (is : List Text) (q : A → Bool) (xs : List A)
      → IsKeyed key xs
      → count_if (λ x. named is x && q x) xs ≡ length is
      → Distinct is × All (λ i. (x : A) × (find_row key i xs ≡ some x) × (q x ≡ true)) is
  picked-all [] q xs h n = (tt, tt)
  picked-all (i ∷ is) q xs h n =
      let split = split_first i is q xs in
      let rest = picked-bound is q xs h in
      elim (one_by_key i (λ x. q x && not (named is x)) xs h) [
        | inl z ↦ let bad : ⊥ = omega (arith, split, rest, z, n) in elim bad [ ]
        | inr (c, x, e, t) ↦
            let (distinct, found) = picked-all is q xs h (omega (arith, split, c, n)) in
            let new : exists (text_eq i) is ≡ false =
              subst (λ k. exists (text_eq k) is ≡ false) (find_row_key key i x xs e)
                (ground (arith, t)) in
            ((new, distinct), ((x, e, ground (arith, t)), found))
      ]
