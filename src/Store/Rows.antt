-- ===== src/Store/Rows.antt =====
-- Tables as lists of rows with a key: SELECT and UPDATE by key, and their laws.
pub mod Keyed
pub mod Picked
use buildbee.Base.{
  ◌≡◌, refl, Bool, true, false, ◌||◌, Option, none, some, List, [], ◌∷◌, ◌++◌, map, arith, exists,
  first, if◌then◌else◌, Bool-cases, inl, inr, ap, ◌∙◌, sym,
}
use mathlib.Core.Option
use buildbee.Text.{Text, text_eq, text_eq_iff}

module _ {A : Type 0} (key : A → Text) where
  -- SELECT ... WHERE id = $1
  unfoldable pub find_row : Text → List A → Option A
  find_row i [] = none
  find_row i (x ∷ xs) = if text_eq (key x) i then some x else find_row i xs

  -- UPDATE ... WHERE id = $1
  unfoldable pub update_row : Text → (A → A) → List A → List A
  update_row i f [] = []
  update_row i f (x ∷ xs) = (if text_eq (key x) i then f x else x) ∷ update_row i f xs

  -- An update by key changes what is found under that key, and nothing else.
  pub find_row-update :
      (i j : Text) (f : A → A) (xs : List A)
      → ((x : A) → key (f x) ≡ key x)
      → find_row j (update_row i f xs)
        ≡ (if text_eq i j then Option.map f (find_row j xs) else find_row j xs)
  unfolding find_row update_row
  find_row-update i j f [] keeps = elim (Bool-cases (text_eq i j)) [ inl e ↦ rw e | inr e ↦ rw e ]
  find_row-update i j f (x ∷ xs) keeps = ground (
    arith,
    keeps x,
    text_eq_iff (key x) i,
    text_eq_iff (key x) j,
    text_eq_iff (key (f x)) j,
    text_eq_iff i j,
    find_row-update i j f xs keeps,
  )

  -- UPDATE ... WHERE a condition holds
  unfoldable pub update_where : (A → Bool) → (A → A) → List A → List A
  update_where p f [] = []
  update_where p f (x ∷ xs) = (if p x then f x else x) ∷ update_where p f xs

  -- What is found under a key after such an update: the old row, or the new one where it matched.
  pub find_row-update_where :
      (p : A → Bool) (j : Text) (f : A → A) (xs : List A)
      → ((x : A) → key (f x) ≡ key x)
      → find_row j (update_where p f xs) ≡ Option.map (λ x. if p x then f x else x) (find_row j xs)
  unfolding find_row update_where
  find_row-update_where p j f [] keeps = refl
  find_row-update_where p j f (x ∷ xs) keeps =
      ground (arith, keeps x, find_row-update_where p j f xs keeps)

  -- A row is found under its own key.
  pub find_row_key : (i : Text) (x : A) (xs : List A) → find_row i xs ≡ some x → key x ≡ i
  unfolding find_row
  find_row_key i x [] h = cc
  find_row_key i x (y ∷ ys) h = ground (arith, text_eq_iff (key y) i, find_row_key i x ys)
