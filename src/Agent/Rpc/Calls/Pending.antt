-- ===== src/Agent/Rpc/Calls/Pending.antt =====
-- The map of a conn's pending calls.
use buildbee.Base.{
  ℕ, suc, ◌+◌, ◌≤◌, ◌≡◌, refl, Bool, true, ◌||◌, none, some, List, [], ◌∷◌, ◌++◌, arith, exists,
  count_if, All, ◌==◌, ==_iff,
}
use buildbee.Text.{Text, text_eq, text_eq_iff}
use buildbee.Text.Decimal.{decimal}
use buildbee.Agent.Rpc.{Response, lookup, delete, all_fail}

-- The call waits under its own number.
abbrev pub IsNamed : Text × ℕ → Type 0
IsNamed p = p.0 ≡ decimal p.1

abbrev pub for_call : ℕ → Text × ℕ → Bool
for_call n p = p.1 == n

abbrev pub to_call : ℕ → ℕ × Response → Bool
to_call n a = a.0 == n

pub delete-All : (key : Text) (ps : List (Text × ℕ)) → All IsNamed ps → All IsNamed (delete key ps)
unfolding delete
delete-All key [] h = tt
delete-All key (p ∷ ps) h = ground (arith, h, delete-All key ps)

pub delete-count :
    (key : Text) (n : ℕ) (ps : List (Text × ℕ))
    → count_if (for_call n) (delete key ps) ≤ count_if (for_call n) ps
unfolding delete count_if
delete-count key n [] = omega arith
delete-count key n (p ∷ ps) = ground (arith, delete-count key n ps)

-- The call that is found is taken out.
pub delete-found :
    (key : Text) (n : ℕ) (ps : List (Text × ℕ))
    → lookup key ps ≡ some n
    → suc (count_if (for_call n) (delete key ps)) ≤ count_if (for_call n) ps
unfolding delete lookup count_if
delete-found key n [] h = ground (arith, h)
delete-found key n (p ∷ ps) h =
    ground (arith, h, delete-count key n ps, delete-found key n ps, ==_iff p.1 n)

pub delete-missing : (key : Text) (ps : List (Text × ℕ)) → lookup key ps ≡ none → delete key ps ≡ ps
unfolding delete lookup
delete-missing key [] h = refl
delete-missing key (p ∷ ps) h = ground (arith, h, delete-missing key ps)

pub lookup-IsNamed :
    (key : Text) (n : ℕ) (ps : List (Text × ℕ))
    → All IsNamed ps
    → lookup key ps ≡ some n
    → decimal n ≡ key
unfolding lookup
lookup-IsNamed key n [] h e = ground (arith, e)
lookup-IsNamed key n (p ∷ ps) h e =
    ground (arith, e, h.0, text_eq_iff p.0 key, lookup-IsNamed key n ps h.1)

-- A call waits still when another key is deleted.
pub delete-waits :
    (key : Text) (n : ℕ) (ps : List (Text × ℕ))
    → All IsNamed ps
    → exists (for_call n) ps ≡ true
    → (exists (for_call n) (delete key ps) || text_eq (decimal n) key) ≡ true
unfolding delete exists
delete-waits key n [] h e = ground (arith, e)
delete-waits key n (p ∷ ps) h e = ground (
  arith,
  e,
  h.0,
  ==_iff p.1 n,
  text_eq_iff p.0 key,
  text_eq_iff (decimal n) key,
  delete-waits key n ps h.1,
)

pub all_fail-count :
    (reason : Text) (n : ℕ) (ps : List (Text × ℕ)) (xs : List (ℕ × Response))
    → count_if (to_call n) (all_fail reason ps ++ xs)
      ≡ count_if (for_call n) ps + count_if (to_call n) xs
unfolding count_if
all_fail-count reason n [] xs = omega arith
all_fail-count reason n (p ∷ ps) xs = ground (arith, all_fail-count reason n ps xs)

pub all_fail-exists :
    (reason : Text) (n : ℕ) (ps : List (Text × ℕ)) (xs : List (ℕ × Response))
    → exists (to_call n) (all_fail reason ps ++ xs)
      ≡ (exists (for_call n) ps || exists (to_call n) xs)
unfolding exists
all_fail-exists reason n [] xs = refl
all_fail-exists reason n (p ∷ ps) xs = ground (arith, all_fail-exists reason n ps xs)
