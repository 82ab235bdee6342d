-- ===== src/Text/Sanitize.antt =====
-- internal/httpapi/sanitize.go: JSON's escape of U+0000 is replaced before a body is decoded.
pub mod Clean
use buildbee.Base.{
  ℕ, zero, suc, ◌+◌, ◌%◌, Bool, true, false, ◌&&◌, ◌||◌, List, [], ◌∷◌, ◌++◌, ◌==◌, if◌then◌else◌,
}
use buildbee.Text.{Text, bytes, has_prefix}

abbrev pub nul_escape : Text
nul_escape = 92 ∷ bytes "u0000"

abbrev pub nul_symbol : Text
nul_symbol = 92 ∷ bytes "u2400"

-- bytes.Contains(s, p)
unfoldable pub contains : Text → Text → Bool
contains [] p = has_prefix [] p
contains (c ∷ s) p = has_prefix (c ∷ s) p || contains s p

-- The loop of `evenBackslashesBefore`, over raw[:i] read backwards.
unfoldable pub backslashes : Text → ℕ
backslashes [] = 0
backslashes (c ∷ before) = if c == 92 then suc (backslashes before) else 0

unfoldable pub even_backslashes_before : Text → Bool
unfolding backslashes
even_backslashes_before before = backslashes before % 2 == 0

-- The loop of `sanitizeJSON`: `before` is raw[:i] read backwards, and the next `skip` bytes belong
-- to an escape that is written already (`i += len(nulEscape)`).
unfoldable pub sanitize_from : Text → ℕ → Text → Text
sanitize_from before skip [] = []
sanitize_from before (suc skip) (c ∷ s) = sanitize_from (c ∷ before) skip s
sanitize_from before zero (c ∷ s) =
    let hit = nul_symbol ++ sanitize_from (c ∷ before) 5 s in
    let miss = c ∷ sanitize_from (c ∷ before) 0 s in
    if (c == 92) && has_prefix (c ∷ s) nul_escape && even_backslashes_before before
    then hit
    else miss

-- sanitizeJSON
unfoldable pub sanitize_json : Text → Text
sanitize_json raw = if contains raw nul_escape then sanitize_from [] 0 raw else raw
