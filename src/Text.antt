-- ===== src/Text.antt =====
-- Go strings as the bytes they are made of, and the string helpers of internal/core/core.go and
-- internal/core/runs.go that check what people and agents send: `text`, `truncate`, `validCommit`.
--
-- `strings.TrimSpace`, `strings.ToLower`, `strings.ToUpper` and `utf8.RuneCountInString` are written
-- out for UTF-8. Case mapping changes the ASCII letters and the four other characters whose mapping
-- is an ASCII letter, so it is exact wherever the result is compared with an ASCII word.
pub mod Decimal
pub mod Regex
pub mod Urls
pub mod Truncate
pub mod Sanitize
use buildbee.Base.{
  ℕ, zero, suc, ◌+◌, ◌-◌, ◌≤◌, ◌<◌, ◌≡◌, refl, ◌↔◌, Bool, true, false, not, ◌&&◌, ◌||◌, Option,
  none, some, List, [], ◌∷◌, ◌++◌, map, reverse, arith, ltb, leb, ◌==◌, if◌then◌else◌, length, take,
  is_empty, String, code, exists, ==_iff,
}
use buildbee.Base.Result.{Result, ok, err, invalid}
use Prim.Native.String

abbrev pub Text : Type 0
Text = List ℕ

-- The bytes of an ASCII literal.
abbrev pub bytes : String → Text
bytes String.[] = []
bytes (String.◌∷◌ c s) = code c ∷ bytes s

-- a == b
unfoldable pub text_eq : Text → Text → Bool
text_eq [] [] = true
text_eq [] (y ∷ ys) = false
text_eq (x ∷ xs) [] = false
text_eq (x ∷ xs) (y ∷ ys) = (x == y) && text_eq xs ys

pub text_eq-true : (a b : Text) → text_eq a b ≡ true → a ≡ b
unfolding text_eq
text_eq-true [] [] h = refl
text_eq-true [] (y ∷ ys) h = ground arith
text_eq-true (x ∷ xs) [] h = ground arith
text_eq-true (x ∷ xs) (y ∷ ys) h = ground (arith, text_eq-true xs ys)

pub text_eq_refl : (a : Text) → text_eq a a ≡ true
unfolding text_eq
text_eq_refl [] = refl
text_eq_refl (x ∷ xs) = ground (arith, text_eq_refl xs)

-- Which of the two answers stands, as an equation or its negation.
pub text_eq_iff : (a b : Text) → (text_eq a b ≡ true) ↔ (a ≡ b)
text_eq_iff a b = (text_eq-true a b, λ e. rw e (text_eq_refl b))

-- strings.HasPrefix(s, p)
unfoldable pub has_prefix : Text → Text → Bool
has_prefix s [] = true
has_prefix [] (y ∷ ys) = false
has_prefix (x ∷ xs) (y ∷ ys) = (x == y) && has_prefix xs ys

-- Is `s` one of the words?
unfoldable pub one_of : Text → List Text → Bool
unfolding exists
one_of s ws = exists (text_eq s) ws

-- The width in bytes of the white space that a text begins with, 0 if it begins with none:
-- `unicode.IsSpace` on the first character.
unfoldable pub space_width : Text → ℕ
space_width [] = 0
space_width (a ∷ []) = if (leb 9 a && leb a 13) || (a == 32) then 1 else 0
space_width (a ∷ b ∷ []) =
    if (leb 9 a && leb a 13) || (a == 32)
    then 1
    else if (a == 0xC2) && ((b == 0x85) || (b == 0xA0))
    then 2
    else 0
space_width (a ∷ b ∷ c ∷ _) =
    if (leb 9 a && leb a 13) || (a == 32)
    then 1
    else if (a == 0xC2) && ((b == 0x85) || (b == 0xA0))
    then 2
    else if ((a == 0xE1) && (b == 0x9A) && (c == 0x80))
        || ((a == 0xE2) && (b == 0x80) && (leb c 0x8A || (c == 0xA8) || (c == 0xA9) || (c == 0xAF)))
        || ((a == 0xE2) && (b == 0x81) && (c == 0x9F))
        || ((a == 0xE3) && (b == 0x80) && (c == 0x80))
    then 3
    else 0

-- The same for the white space that a text ends with, read backwards.
unfoldable pub space_width_back : Text → ℕ
unfolding space_width
space_width_back [] = 0
space_width_back (a ∷ []) = space_width (a ∷ [])
space_width_back (b ∷ a ∷ []) =
    if space_width (b ∷ []) == 1 then 1 else if space_width (a ∷ b ∷ []) == 2 then 2 else 0
space_width_back (c ∷ b ∷ a ∷ _) =
    if space_width (c ∷ []) == 1
    then 1
    else if space_width (b ∷ c ∷ []) == 2
    then 2
    else if space_width (a ∷ b ∷ c ∷ []) == 3
    then 3
    else 0

-- Drop white space from the front, `width` telling how much there is; `skip` bytes belong to a
-- character that is dropped already.
unfoldable pub drop_spaces : (Text → ℕ) → ℕ → Text → Text
drop_spaces width skip [] = []
drop_spaces width (suc k) (c ∷ s) = drop_spaces width k s
drop_spaces width zero (c ∷ s) =
    let rest = drop_spaces width (width (c ∷ s) - 1) s in if width (c ∷ s) == 0 then c ∷ s else rest

-- strings.TrimSpace(s)
unfoldable pub trim_space : Text → Text
unfolding drop_spaces space_width space_width_back
trim_space s = reverse (drop_spaces space_width_back 0 (reverse (drop_spaces space_width 0 s)))

-- strings.ToLower(s) and strings.ToUpper(s), exact where the result is ASCII.
unfoldable pub to_lower : Text → Text
to_lower [] = []
to_lower (a ∷ []) = (if leb b'A' a && leb a b'Z' then a + 32 else a) ∷ []
to_lower (a ∷ b ∷ []) =
    let rest = to_lower (b ∷ []) in
    if (a == 0xC4) && (b == 0xB0)
    then b'i' ∷ []
    else (if leb b'A' a && leb a b'Z' then a + 32 else a) ∷ rest
to_lower (a ∷ b ∷ c ∷ s) =
    let rest = to_lower (b ∷ c ∷ s) in
    let past_two = b'i' ∷ to_lower (c ∷ s) in
    let past_three = b'k' ∷ to_lower s in
    if (a == 0xC4) && (b == 0xB0)
    then past_two
    else if (a == 0xE2) && (b == 0x84) && (c == 0xAA)
    then past_three
    else (if leb b'A' a && leb a b'Z' then a + 32 else a) ∷ rest

unfoldable pub to_upper : Text → Text
to_upper [] = []
to_upper (a ∷ []) = (if leb b'a' a && leb a b'z' then a - 32 else a) ∷ []
to_upper (a ∷ b ∷ s) =
    let rest = to_upper (b ∷ s) in
    let dotless = b'I' ∷ to_upper s in
    let long_s = b'S' ∷ to_upper s in
    if (a == 0xC4) && (b == 0xB1)
    then dotless
    else if (a == 0xC5) && (b == 0xBF)
    then long_s
    else (if leb b'a' a && leb a b'z' then a - 32 else a) ∷ rest

-- strings.EqualFold(s, w) for an ASCII word w.
unfoldable pub equal_fold : Text → Text → Bool
unfolding to_lower text_eq
equal_fold s w = text_eq (to_lower s) (to_lower w)

-- utf8.RuneStart(b): b is not a continuation byte.
abbrev pub rune_start : ℕ → Bool
rune_start b = not (leb 0x80 b && leb b 0xBF)

-- utf8.RuneCountInString(s), for valid UTF-8.
unfoldable pub rune_count : Text → ℕ
rune_count [] = 0
rune_count (b ∷ s) = (if rune_start b then 1 else 0) + rune_count s

-- utf8.RuneStart(s[i]); the end of the text counts as a boundary.
unfoldable pub starts_at : Text → ℕ → Bool
starts_at [] i = true
starts_at (b ∷ t) zero = rune_start b
starts_at (b ∷ t) (suc i) = starts_at t i

-- The loop of `truncate`: `cut` moves back until s[cut] starts a character.
unfoldable pub cut_back : Text → ℕ → ℕ
cut_back s zero = zero
cut_back s (suc cut) = let back = cut_back s cut in if starts_at s (suc cut) then suc cut else back

-- core.truncate, and truncateUTF8 of internal/httpapi/sanitize.go.
unfoldable pub truncate : Text → ℕ → Text
truncate s max = if leb (length s) max then s else take (cut_back s max) s

-- core.text: the trimmed text, or a refusal.
unfoldable pub check_text : Text → Bool → ℕ → Result Text
check_text s needed max =
    let t = trim_space s in
    if needed && is_empty t
    then err invalid
    else if ltb max (rune_count t)
    then err invalid
    else ok t

-- The characters that `validCommit` accepts.
abbrev pub hex_digit : ℕ → Bool
hex_digit c = (leb b'0' c && leb c b'9') || (leb b'a' c && leb c b'f') || (leb b'A' c && leb c b'F')

-- validCommit's loop: no character that is not a hex digit.
unfoldable pub all_hex : Text → Bool
all_hex [] = true
all_hex (c ∷ s) = hex_digit c && all_hex s

-- core.validCommit
unfoldable pub valid_commit : Text → Bool
unfolding all_hex
valid_commit c = if ltb 64 (length c) then false else all_hex c
