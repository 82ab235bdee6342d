-- ===== src/Text/Urls.antt =====
-- validRepoURL and imageRef of internal/core/projects.go.
use buildbee.Base.{
  ℕ, Bool, false, ◌&&◌, ◌||◌, List, [], ◌∷◌, leb, ltb, exists, ◌==◌, length, if◌then◌else◌,
}
use buildbee.Text.{Text, bytes, has_prefix}
use buildbee.Text.Sanitize.{contains}
use buildbee.Text.Regex.{
  Regex, one, followed_by, many, nothing_more, some_of, maybe, times, at_most, matches,
}

abbrev lower_letter : ℕ → Bool
lower_letter c = leb b'a' c && leb c b'z'

abbrev upper_letter : ℕ → Bool
upper_letter c = leb b'A' c && leb c b'Z'

abbrev digit : ℕ → Bool
digit c = leb b'0' c && leb c b'9'

abbrev letter_or_digit : ℕ → Bool
letter_or_digit c = lower_letter c || upper_letter c || digit c

-- One of these bytes.
unfoldable pub in_set : Text → ℕ → Bool
unfolding exists
in_set set c = exists (λ d. d == c) set

abbrev lit : ℕ → Regex
lit c = one (λ d. d == c)

abbrev literal : Text → Regex
literal [] = nothing_more
literal (c ∷ s) = followed_by (lit c) (literal s)

-- scpRepo
unfoldable pub scp_repo : Regex
unfolding in_set
scp_repo = followed_by (some_of (one (λ c. letter_or_digit c || in_set (bytes "._-") c))) (
    followed_by (lit b'@') (
      followed_by (some_of (one (λ c. letter_or_digit c || in_set (bytes ".-") c))) (
        followed_by (lit b':')
          (some_of (one (λ c. letter_or_digit c || in_set (bytes "._~/-") c))))))

-- [a-z0-9]
abbrev pub name_start : ℕ → Bool
name_start c = lower_letter c || digit c

unfoldable pub name_rest : Regex
unfolding in_set
name_rest = many (one (λ c. name_start c || in_set (bytes "._-") c))

-- What imageRef takes after its first byte.
unfoldable pub image_rest : Regex
unfolding in_set name_rest
image_rest = followed_by name_rest (
    followed_by (maybe (followed_by (lit b':') (followed_by (one digit) (at_most 4 (one digit))))) (
      followed_by (many (followed_by (lit b'/') (followed_by (one name_start) name_rest))) (
        followed_by
          (maybe (
            followed_by (lit b':') (
              followed_by (one (λ c. letter_or_digit c || (c == b'_')))
                (at_most 127 (one (λ c. letter_or_digit c || in_set (bytes "._-") c))))))
          (maybe (
            followed_by (literal (bytes "@sha256:"))
              (times 64 (one (λ c. (leb b'a' c && leb c b'f') || digit c))))))))

-- imageRef
abbrev pub image_ref : Regex
image_ref = followed_by (one name_start) image_rest

abbrev remotes : List Text
remotes =
    bytes "https://"
    ∷ bytes "http://"
    ∷ bytes "ssh://"
    ∷ bytes "git://"
    ∷ bytes "file://"
    ∷ bytes "/"
    ∷ []

-- The loop over the prefixes.
unfoldable pub by_prefix : List Text → Text → Bool
unfolding has_prefix matches scp_repo
by_prefix [] u = matches scp_repo u
by_prefix (p ∷ ps) u = if has_prefix u p then ltb (length p) (length u) else by_prefix ps u

-- What git could read as an option or as a remote helper, or has white space in it.
unfoldable pub unsafe_for_git : Text → Bool
unfolding exists contains has_prefix in_set
unsafe_for_git u =
    exists (in_set (32 ∷ 9 ∷ 13 ∷ 10 ∷ [])) u || has_prefix u (bytes "-") || contains u (bytes "::")

-- validRepoURL
unfoldable pub valid_repo_url : Text → Bool
unfolding unsafe_for_git by_prefix
valid_repo_url u = if unsafe_for_git u then false else by_prefix remotes u
