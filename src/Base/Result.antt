-- ===== src/Base/Result.antt =====
-- What an operation returns: a value, or one of the errors of internal/store/store.go (ErrNotFound,
-- ErrConflict, ErrInvalid) and internal/core/core.go (ErrNoActor, ErrUnavailable), their messages
-- left out.
use mathlib.Core.Path.{◌≡◌, refl}
use mathlib.Core.Bool.{Bool, true, false}

pub data Error : Type 0 where
  not_found conflict invalid no_actor unavailable : Error

pub data Result {ℓ} (A : Type ℓ) : Type ℓ where
  ok : A → Result A
  err : Error → Result A

-- `if !b { return e }`
abbrev pub guard : Bool → Error → Result (Unit {0})
guard true e = ok tt
guard false e = err e

pub ok_inj {ℓ} : {A : Type ℓ} {a b : A} → ok a ≡ ok b → a ≡ b
ok_inj h = cc

infixl 5 ◌and_then◌
unfoldable pub ◌and_then◌ {ℓ} : {A B : Type ℓ} → Result A → (A → Result B) → Result B
(ok a) and_then f = f a
(err e) and_then f = err e

pub and_then_ok {ℓ} :
    {A B : Type ℓ} (m : Result A) (f : A → Result B) (b : B)
    → m and_then f ≡ ok b
    → (a : A) × (m ≡ ok a) × (f a ≡ ok b)
unfolding ◌and_then◌
and_then_ok (ok a) f b h = (a, refl, h)
and_then_ok (err e) f b h = cc

unfoldable pub deny : Bool → Error → Result (Unit {0})
deny true e = err e
deny false e = ok tt

pub deny_ok : (b : Bool) (e : Error) (u : Unit {0}) → deny b e ≡ ok u → b ≡ false
unfolding deny
deny_ok true e u h = cc
deny_ok false e u h = refl
