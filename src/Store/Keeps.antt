-- ===== src/Store/Keeps.antt =====
-- Operations after which the database has only grown, one rule for each way to build an operation.
pub mod Runs
pub mod Tables
pub mod Chat
pub mod Checks
pub mod Routines
pub mod Steps
pub mod Projects
pub mod Attach
use buildbee.Base.{
  ℕ, suc, ◌≡◌, refl, sym, ap, ◌∙◌, subst, Bool, true, false, Option, none, some, List, [], ◌∷◌,
  arith, if◌then◌else◌,
}
use buildbee.Base.Result.{
  Error, Result, ok, err, not_found, conflict, invalid, no_actor, unavailable, ok_inj,
}
use buildbee.Store.{
  Work, Db, W, pure, fail, with_result, found, gets, changes_work, new_id, ◌>>=◌, refuse, on_nil,
  each, attempt, or_none, caught,
}
use buildbee.Store.Grows.{RoutinesFollow-refl, Grows, Grows-refl, Grows-trans, RunsFollow-refl}

-- When `m` returns, what it leaves has grown from what it began with.
pub record Keeps {A : Type 0} (m : W A) : Type 0 where
  pub at : (w w' : Work) (a : A) → m w ≡ ok (a, w') → Grows w w'

abbrev pub returned : {A : Type 0} → A → Work → Result (A × Work)
returned a w = ok (a, w)

-- An operation that returned the state it began with.
pub same_state : {A : Type 0} (w w' : Work) (a b : A) → returned a w ≡ returned b w' → Grows w w'
same_state w w' a b h = subst (Grows w) (ap (λ p. p.1) (ok_inj h)) (Grows-refl w)

refused : {A : Type 0} {P : Type 0} (e : Error) (a : A) → err e ≡ ok a → P
refused e a h = cc

module _ {A : Type 0} where
  pub Keeps-pure : (a : A) → Keeps (pure a)
  unfolding pure
  Keeps-pure a = record { at = λ w w' b h. same_state w w' a b h }

  pub Keeps-fail : (e : Error) → Keeps (fail {A = A} e)
  unfolding fail
  Keeps-fail e = record { at = λ w w' b h. refused e (b, w') h }

  pub Keeps-with_result : (r : Result A) → Keeps (with_result r)
  unfolding with_result
  Keeps-with_result (ok a) = record { at = λ w w' b h. same_state w w' a b h }
  Keeps-with_result (err e) = record { at = λ w w' b h. refused e (b, w') h }

  pub Keeps-gets : (f : Work → A) → Keeps (gets f)
  unfolding gets
  Keeps-gets f = record { at = λ w w' b h. same_state w w' (f w) b h }

  pub found-same : (o : Option A) (w w' : Work) (a : A) → found o w ≡ ok (a, w') → Grows w w'
  unfolding found
  found-same none w w' a h = refused not_found (a, w') h
  found-same (some b) w w' a h = same_state w w' b a h

  caught-same : (w w' : Work) (e : Error) (o : Option A) → caught w e ≡ ok (o, w') → Grows w w'
  caught-same w w' not_found o h = same_state w w' none o h
  caught-same w w' conflict o h = refused conflict (o, w') h
  caught-same w w' invalid o h = refused invalid (o, w') h
  caught-same w w' no_actor o h = refused no_actor (o, w') h
  caught-same w w' unavailable o h = refused unavailable (o, w') h

  abbrev or_none_of : Work → Result (A × Work) → Result (Option A × Work)
  or_none_of w (err e) = caught w e
  or_none_of w (ok x) = ok (some x.0, x.1)

  abbrev attempt_of : Work → Result (A × Work) → Result (Option A × Work)
  attempt_of w (err e) = ok (none, w)
  attempt_of w (ok x) = ok (some x.0, x.1)

  or_none-at :
      (m : W A) (km : Keeps m) (w w' : Work) (o : Option A) (r : Result (A × Work))
      → m w ≡ r
      → or_none_of w r ≡ returned o w'
      → Grows w w'
  or_none-at m km w w' o (err e) q h = caught-same w w' e o h
  or_none-at m km w w' o (ok x) q h = subst (Grows w) (ap (λ p. p.1) (ok_inj h)) (km.at w x.1 x.0 q)

  pub Keeps-or_none : (m : W A) → Keeps m → Keeps (or_none m)
  unfolding or_none
  Keeps-or_none m km = record { at = λ w w' o h. or_none-at m km w w' o (m w) refl h }

  attempt-at :
      (m : W A) (km : Keeps m) (w w' : Work) (o : Option A) (r : Result (A × Work))
      → m w ≡ r
      → attempt_of w r ≡ returned o w'
      → Grows w w'
  attempt-at m km w w' o (err e) q h = same_state w w' none o h
  attempt-at m km w w' o (ok x) q h = subst (Grows w) (ap (λ p. p.1) (ok_inj h)) (km.at w x.1 x.0 q)

  pub Keeps-attempt : (m : W A) → Keeps m → Keeps (attempt m)
  unfolding attempt
  Keeps-attempt m km = record { at = λ w w' o h. attempt-at m km w w' o (m w) refl h }

  pub Keeps-if : (b : Bool) (m n : W A) → Keeps m → Keeps n → Keeps (if b then m else n)
  Keeps-if true m n km kn = km
  Keeps-if false m n km kn = kn

module _ {A B : Type 0} where
  bind-at :
      (m : W A) (f : A → W B) (w : Work) (w' : Work) (b : B) (r : Result (A × Work))
      → m w ≡ r
      → elim r [ err e ↦ err e | ok x ↦ f x.0 x.1 ] ≡ ok (b, w')
      → (x : A × Work) × (m w ≡ ok x) × (f x.0 x.1 ≡ ok (b, w'))
  bind-at m f w w' b (err e) q h = refused e (b, w') h
  bind-at m f w w' b (ok x) q h = (x, q, h)

  -- A sequence that returns has returned from both parts.
  pub bind_ok :
      (m : W A) (f : A → W B) (w w' : Work) (b : B)
      → (m >>= f) w ≡ ok (b, w')
      → (x : A × Work) × (m w ≡ ok x) × (f x.0 x.1 ≡ ok (b, w'))
  unfolding ◌>>=◌
  bind_ok m f w w' b h = bind-at m f w w' b (m w) refl h

  pub Keeps-bind : (m : W A) (f : A → W B) → Keeps m → ((a : A) → Keeps (f a)) → Keeps (m >>= f)
  Keeps-bind m f km kf = record {
    at = λ w w' b h.
        let (x, hm, hf) = bind_ok m f w w' b h in
        Grows-trans w x.1 w' (km.at w x.1 x.0 hm) ((kf x.0).at x.1 w' b hf);
  }

  pub Keeps-on_nil :
      (o : Option A) (m : W B) (f : A → W B)
      → Keeps m
      → ((a : A) → Keeps (f a))
      → Keeps (on_nil o m f)
  unfolding on_nil
  Keeps-on_nil none m f km kf = km
  Keeps-on_nil (some a) m f km kf = kf a

pub refuse_ok :
    (b : Bool) (e : Error) (w w' : Work) (u : Unit {0})
    → refuse b e w ≡ ok (u, w')
    → (b ≡ false) × (w' ≡ w)
unfolding refuse
refuse_ok true e w w' u h = refused e (u, w') h
refuse_ok false e w w' u h = (refl, sym (ap (λ p. p.1) (ok_inj h)))

pub Keeps-refuse : (b : Bool) (e : Error) → Keeps (refuse b e)
Keeps-refuse b e = record {
  at = λ w w' u h. subst (Grows w) (sym (refuse_ok b e w w' u h).1) (Grows-refl w);
}

pub Keeps-changes : (f : Work → Work) → ((w : Work) → Grows w (f w)) → Keeps (changes_work f)
unfolding changes_work
Keeps-changes f g = record { at = λ w w' u h. subst (Grows w) (ap (λ p. p.1) (ok_inj h)) (g w) }

pub Keeps-new_id : Keeps new_id
unfolding new_id
Keeps-new_id = record {
  at = λ w w' u h. subst (Grows w) (ap (λ p. p.1) (ok_inj h)) (record {
    clock = refl;
    log = ([], refl);
    numbers = λ n. n;
    emitted = ([], refl);
    runs = RunsFollow-refl w.st.runs;
    keyed = λ k. k;
    routines = RoutinesFollow-refl w.now w.st.routines;
  });
}

each-at :
    {A : Type 0} (f : A → W (Unit {0})) (kf : (a : A) → Keeps (f a)) (xs : List A) (w w' : Work)
    (u : Unit {0})
    → each f xs w ≡ ok (u, w')
    → Grows w w'
unfolding each ◌>>=◌
each-at f kf [] w w' u h = same_state w w' tt u h
each-at f kf (a ∷ rest) w w' u h =
    let (x, hm, hf) = bind_ok (f a) (λ _. each f rest) w w' u h in
    Grows-trans w x.1 w' ((kf a).at w x.1 x.0 hm) (each-at f kf rest x.1 w' u hf)

pub Keeps-each :
    {A : Type 0} (f : A → W (Unit {0})) (xs : List A) → ((a : A) → Keeps (f a)) → Keeps (each f xs)
Keeps-each f xs kf = record { at = λ w w' u h. each-at f kf xs w w' u h }

pub ruleset monad_rules = (
  Keeps-pure, Keeps-fail, Keeps-with_result, Keeps-gets, Keeps-or_none, Keeps-attempt, Keeps-if,
  Keeps-bind, Keeps-on_nil, Keeps-refuse, Keeps-new_id, Keeps-each,
)
