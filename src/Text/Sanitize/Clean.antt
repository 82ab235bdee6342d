-- ===== src/Text/Sanitize/Clean.antt =====
-- What sanitizeJSON leaves behind.
use buildbee.Base.{
  ℕ, ◌≡◌, ◌≢◌, refl, Bool, true, false, ◌&&◌, ◌||◌, [], ◌∷◌, arith, ◌==◌, All, Bool-cases, inl, inr,
  ◌∙◌,
}
use buildbee.Text.{Text, bytes, has_prefix}
use buildbee.Text.Sanitize.{
  nul_escape, contains, even_backslashes_before, backslashes, sanitize_from, sanitize_json,
}

-- Is there, in a text that follows `before`, an escape of U+0000 that a JSON decoder would read?
pub real_escape : Text → Text → Bool
real_escape before [] = false
real_escape before (c ∷ s) =
    (has_prefix (c ∷ s) nul_escape && even_backslashes_before before) || real_escape (c ∷ before) s

escape_of_contains :
    (before s : Text) → contains s nul_escape ≡ false → real_escape before s ≡ false
unfolding contains real_escape
escape_of_contains before [] h = refl
escape_of_contains before (c ∷ s) h = ground (arith, escape_of_contains (c ∷ before) s)

sanitize_from_none : (before s : Text) → real_escape before s ≡ false → sanitize_from before 0 s ≡ s
unfolding sanitize_from real_escape
sanitize_from_none before [] h = refl
sanitize_from_none before (c ∷ s) h = ground (arith, sanitize_from_none (c ∷ before) s)

-- The test for an escape at all is only a short cut.
sanitize_json_loop : (raw : Text) → sanitize_json raw ≡ sanitize_from [] 0 raw
unfolding sanitize_json
sanitize_json_loop raw = elim (Bool-cases (contains raw nul_escape)) [
  | inl e ↦ rw e
  | inr e ↦ rw (e, sanitize_from_none [] raw (escape_of_contains [] raw e))
]

-- Where the loop's output goes on with a word that has no backslash, so does its input.
prefix_back :
    (before s p : Text)
    → All (λ y. y ≢ 92) p
    → has_prefix (sanitize_from before 0 s) p ≡ true
    → has_prefix s p ≡ true
unfolding has_prefix sanitize_from
prefix_back before [] [] a h = refl
prefix_back before (c ∷ s) [] a h = refl
prefix_back before [] (y ∷ ys) a h = h
prefix_back before (c ∷ s) (y ∷ ys) a h = ground (arith, a.0, prefix_back (c ∷ before) s ys a.1)

-- The test at which the loop replaces an escape.
abbrev replaces : Text → ℕ → Text → Bool
replaces before c s = (c == 92) && has_prefix (c ∷ s) nul_escape && even_backslashes_before before

-- A byte that is copied begins no escape in the output that it did not begin in the input.
copied :
    (out before : Text) (c : ℕ) (s : Text)
    → backslashes out ≡ backslashes before
    → replaces before c s ≡ false
    → real_escape (c ∷ out) (sanitize_from (c ∷ before) 0 s) ≡ false
    → real_escape out (sanitize_from before 0 (c ∷ s)) ≡ false
unfolding sanitize_from real_escape even_backslashes_before has_prefix
copied out before c s e no_hit rest =
    ground (arith, prefix_back (c ∷ before) s (bytes "u0000") (omega arith))

-- An escape that is replaced leaves none in its place.
replaced :
    (out before : Text) (c c1 c2 c3 c4 c5 : ℕ) (t : Text)
    → replaces before c (c1 ∷ c2 ∷ c3 ∷ c4 ∷ c5 ∷ t) ≡ true
    → ((out' : Text)
        → backslashes out' ≡ 0
        → real_escape out' (sanitize_from (c5 ∷ c4 ∷ c3 ∷ c2 ∷ c1 ∷ c ∷ before) 0 t) ≡ false)
    → real_escape out (sanitize_from before 0 (c ∷ c1 ∷ c2 ∷ c3 ∷ c4 ∷ c5 ∷ t)) ≡ false
unfolding sanitize_from real_escape has_prefix
replaced out before c c1 c2 c3 c4 c5 t hit rest =
    rw hit (rest (48 ∷ 48 ∷ 52 ∷ 50 ∷ 117 ∷ 92 ∷ out) (unfold backslashes in refl))

escape_bytes :
    (before : Text) (c c1 c2 c3 c4 c5 : ℕ) (t : Text)
    → replaces before c (c1 ∷ c2 ∷ c3 ∷ c4 ∷ c5 ∷ t) ≡ true
    → c5 ≢ 92
unfolding has_prefix
escape_bytes before c c1 c2 c3 c4 c5 t hit = ground arith

clean_from :
    (out before s : Text)
    → backslashes out ≡ backslashes before
    → real_escape out (sanitize_from before 0 s) ≡ false
unfolding backslashes
clean_from out before (c ∷ c1 ∷ c2 ∷ c3 ∷ c4 ∷ c5 ∷ t) e =
    elim (Bool-cases (replaces before c (c1 ∷ c2 ∷ c3 ∷ c4 ∷ c5 ∷ t))) [
      | inl hit ↦
          replaced out before c c1 c2 c3 c4 c5 t hit λ out' z.
            clean_from out' _ t (ground (arith, escape_bytes before c c1 c2 c3 c4 c5 t hit))
      | inr miss ↦
          copied out before c (c1 ∷ c2 ∷ c3 ∷ c4 ∷ c5 ∷ t) e miss
            (clean_from (c ∷ out) (c ∷ before) (c1 ∷ c2 ∷ c3 ∷ c4 ∷ c5 ∷ t) (ground arith))
    ]
clean_from out before [] e = unfold sanitize_from real_escape in refl
clean_from out before (c ∷ s) e =
    copied out before c s e (unfold has_prefix in ground arith)
      (clean_from (c ∷ out) (c ∷ before) s (ground arith))

-- The output of sanitizeJSON holds no `\u0000` behind an even number of backslashes, so none that a
-- JSON decoder reads as the character U+0000.
pub sanitize_json_clean : (raw : Text) → real_escape [] (sanitize_json raw) ≡ false
sanitize_json_clean raw = rw (sanitize_json_loop raw) (clean_from [] [] raw refl)

-- A second pass of sanitizeJSON changes nothing, nor does the first on a text without such an
-- escape.
pub sanitize_json_idempotent :
    (raw : Text)
    → (sanitize_json (sanitize_json raw) ≡ sanitize_json raw)
      × (real_escape [] raw ≡ false → sanitize_json raw ≡ raw)
sanitize_json_idempotent raw = (
  sanitize_json_loop (sanitize_json raw)
      ∙ sanitize_from_none [] (sanitize_json raw) (sanitize_json_clean raw),
  λ h. sanitize_json_loop raw ∙ sanitize_from_none [] raw h,
)
