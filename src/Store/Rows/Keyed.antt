-- ===== src/Store/Rows/Keyed.antt =====
-- Primary keys: no two rows of a table have one key.
use buildbee.Base.{
  ◌≡◌, refl, Bool, false, none, some, List, [], ◌∷◌, arith, All, Bool-cases, inl, inr,
}
use buildbee.Text.{Text, text_eq, text_eq_iff, text_eq_refl}
use buildbee.Store.Rows.{find_row, update_row, update_where}

module _ {A : Type 0} (key : A → Text) where
  abbrev pub IsKeyed : List A → Type 0
  IsKeyed [] = Unit
  IsKeyed (x ∷ xs) = (find_row key (key x) xs ≡ none) × IsKeyed xs

  abbrev Found : List A → A → Type 0
  Found ys x = find_row key (key x) ys ≡ some x

  not_first :
      (x : A) (i : Text) (y : A) (xs : List A)
      → find_row key (key x) xs ≡ none
      → find_row key i xs ≡ some y
      → text_eq (key x) i ≡ false
  not_first x i y xs h e = ground (arith, text_eq_iff (key x) i)

  Found-below :
      (x : A) (xs ys : List A)
      → find_row key (key x) xs ≡ none
      → All (Found xs) ys
      → All (Found (x ∷ xs)) ys
  unfolding find_row
  Found-below x xs [] h hs = tt
  Found-below x xs (y ∷ ys) h hs =
      (ground (arith, not_first x (key y) y xs h hs.0), Found-below x xs ys h hs.1)

  -- Every row of a table is the one found under its key.
  pub IsKeyed-Found : (xs : List A) → IsKeyed xs → All (Found xs) xs
  unfolding find_row
  IsKeyed-Found [] h = tt
  IsKeyed-Found (x ∷ xs) h =
      (ground (arith, text_eq_refl (key x)), Found-below x xs xs h.0 (IsKeyed-Found xs h.1))

  find_row-absent_update :
      (i j : Text) (f : A → A) (xs : List A)
      → ((x : A) → key (f x) ≡ key x)
      → find_row key j xs ≡ none
      → find_row key j (update_row key i f xs) ≡ none
  unfolding find_row update_row
  find_row-absent_update i j f [] keeps h = refl
  find_row-absent_update i j f (x ∷ xs) keeps h =
      ground (arith, keeps x, find_row-absent_update i j f xs keeps)

  -- An update that leaves the keys alone leaves them distinct.
  pub IsKeyed-update :
      (i : Text) (f : A → A) (xs : List A)
      → ((x : A) → key (f x) ≡ key x)
      → IsKeyed xs
      → IsKeyed (update_row key i f xs)
  unfolding update_row
  IsKeyed-update i f [] keeps h = tt
  IsKeyed-update i f (x ∷ xs) keeps h =
      let below = find_row-absent_update i (key x) f xs keeps h.0 in
      let rest = IsKeyed-update i f xs keeps h.1 in
      elim (Bool-cases (text_eq (key x) i)) [
        | inl e ↦ rw e (rw (keeps x) below, rest)
        | inr e ↦ rw e (below, rest)
      ]

  find_row-absent_where :
      (p : A → Bool) (j : Text) (f : A → A) (xs : List A)
      → ((x : A) → key (f x) ≡ key x)
      → find_row key j xs ≡ none
      → find_row key j (update_where key p f xs) ≡ none
  unfolding find_row update_where
  find_row-absent_where p j f [] keeps h = refl
  find_row-absent_where p j f (x ∷ xs) keeps h =
      ground (arith, keeps x, find_row-absent_where p j f xs keeps)

  pub IsKeyed-update_where :
      (p : A → Bool) (f : A → A) (xs : List A)
      → ((x : A) → key (f x) ≡ key x)
      → IsKeyed xs
      → IsKeyed (update_where key p f xs)
  unfolding update_where
  IsKeyed-update_where p f [] keeps h = tt
  IsKeyed-update_where p f (x ∷ xs) keeps h =
      let below = find_row-absent_where p (key x) f xs keeps h.0 in
      let rest = IsKeyed-update_where p f xs keeps h.1 in
      elim (Bool-cases (p x)) [
        | inl e ↦ rw e (rw (keeps x) below, rest)
        | inr e ↦ rw e (below, rest)
      ]
