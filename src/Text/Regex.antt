-- ===== src/Text/Regex.antt =====
-- Regular expressions of package regexp, as internal/core/projects.go uses them: a text is matched
-- as a whole, byte by byte. The classes are ASCII, so that bytes serve for characters.
use buildbee.Base.{
  ℕ, zero, suc, ◌≡◌, refl, Bool, true, false, ◌&&◌, ◌||◌, [], ◌∷◌, arith, if◌then◌else◌, Bool-cases,
  inl, inr,
}
use buildbee.Text.{Text}

pub data Regex : Type 0 where
  nothing nothing_more : Regex
  one : (ℕ → Bool) → Regex
  followed_by either : Regex → Regex → Regex
  many : Regex → Regex

unfoldable pub nullable : Regex → Bool
nullable nothing = false
nullable nothing_more = true
nullable (one p) = false
nullable (followed_by r s) = nullable r && nullable s
nullable (either r s) = nullable r || nullable s
nullable (many r) = true

-- What is left to match after one byte.
unfoldable pub after_byte : ℕ → Regex → Regex
after_byte c nothing = nothing
after_byte c nothing_more = nothing
after_byte c (one p) = if p c then nothing_more else nothing
after_byte c (followed_by r s) =
    if nullable r
    then either (followed_by (after_byte c r) s) (after_byte c s)
    else followed_by (after_byte c r) s
after_byte c (either r s) = either (after_byte c r) (after_byte c s)
after_byte c (many r) = followed_by (after_byte c r) (many r)

unfoldable pub matches : Regex → Text → Bool
matches r [] = nullable r
matches r (c ∷ s) = matches (after_byte c r) s

-- r+, r? and r{n}, r{0,n}
abbrev pub some_of : Regex → Regex
some_of r = followed_by r (many r)

abbrev pub maybe : Regex → Regex
maybe r = either nothing_more r

abbrev pub times : ℕ → Regex → Regex
times zero r = nothing_more
times (suc n) r = followed_by r (times n r)

abbrev pub at_most : ℕ → Regex → Regex
at_most zero r = nothing_more
at_most (suc n) r = maybe (followed_by r (at_most n r))

matches-nothing : (s : Text) → matches nothing s ≡ false
unfolding matches nullable after_byte
matches-nothing [] = refl
matches-nothing (c ∷ s) = matches-nothing s

matches-nothing_then : (r : Regex) (s : Text) → matches (followed_by nothing r) s ≡ false
unfolding matches nullable after_byte
matches-nothing_then r [] = refl
matches-nothing_then r (c ∷ s) = matches-nothing_then r s

-- A text that matches a class and then something is not empty, and begins in that class.
pub matches-first :
    (p : ℕ → Bool) (r : Regex) (c : ℕ) (s : Text)
    → matches (followed_by (one p) r) (c ∷ s) ≡ true
    → p c ≡ true
unfolding matches nullable after_byte
matches-first p r c s h = elim (Bool-cases (p c)) [
  | inl y ↦ y
  | inr n ↦ ground (arith, rw n at h, n, matches-nothing_then r s)
]
