-- ===== src/Store/Keeps/Steps.antt =====
-- Sequences of statements that have returned: what each of their first steps did.
use buildbee.Base.{◌≡◌, refl, ap, sym, ◌∙◌, subst, Bool, true, false, Option, none, some}
use buildbee.Base.Result.{Error, Result, ok, err, ok_inj}
use buildbee.Store.{with_result, Work, W, found, gets, ◌>>=◌, ◌>>◌, refuse}
use buildbee.Store.Keeps.{returned, bind_ok}

module _ {A : Type 0} where
  -- A guard that was passed.
  pub passed :
      (b : Bool) (e : Error) (m : W A) (w w' : Work) (a : A)
      → (refuse b e >> m) w ≡ returned a w'
      → (b ≡ false) × (m w ≡ returned a w')
  unfolding refuse ◌>>=◌
  passed true e m w w' a h = cc
  passed false e m w w' a h = (refl, h)

  pub same_row : (a b : A) → some a ≡ some b → a ≡ b
  same_row a b h = cc

  pub found-at :
      (o : Option A) (w w' : Work) (a : A) → found o w ≡ returned a w' → (o ≡ some a) × (w' ≡ w)
  unfolding found
  found-at none w w' a h = cc
  found-at (some x) w w' a h = (ap (λ p. some p.0) (ok_inj h), sym (ap (λ p. p.1) (ok_inj h)))

module _ {A B : Type 0} where
  -- A row that was found.
  pub found_row :
      (m : W A) (o : Option A) (f : A → W B) (w w' : Work) (b : B)
      → m w ≡ found o w
      → (m >>= f) w ≡ returned b w'
      → (a : A) × (o ≡ some a) × (f a w ≡ returned b w')
  found_row m o f w w' b q h =
      let (x, hx, h1) = bind_ok m f w w' b h in
      let (e, same) = found-at o w x.1 x.0 (sym q ∙ hx) in
      (x.0, e, subst (λ v. f x.0 v ≡ returned b w') same h1)

  -- A question about the state.
  pub asked :
      (q : Work → A) (f : A → W B) (w w' : Work) (b : B)
      → (gets q >>= f) w ≡ returned b w'
      → f (q w) w ≡ returned b w'
  unfolding gets ◌>>=◌
  asked q f w w' b h = h

-- A result that was not an error.
pub with_result_lem :
    {A : Type 0} (r : Result A) (w w' : Work) (a : A)
    → with_result r w ≡ returned a w'
    → (r ≡ ok a) × (w' ≡ w)
unfolding with_result
with_result_lem (err e) w w' a h = cc
with_result_lem (ok x) w w' a h = (ap (λ p. ok p.0) (ok_inj h), sym (ap (λ p. p.1) (ok_inj h)))
