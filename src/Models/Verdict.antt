-- ===== src/Models/Verdict.antt =====
-- ParseVerdict of internal/models/models.go.
use buildbee.Base.{
  ◌≡◌, refl, Bool, true, false, Option, none, some, List, [], ◌∷◌, ◌++◌, reverse, arith, ◌==◌,
  if◌then◌else◌, drop, exists,
}
use buildbee.Text.{Text, bytes, has_prefix, one_of, trim_space, to_upper}
use buildbee.Models.Records.{Verdict, no_verdict, approve, changes}

-- strings.Split(s, "\n"): the first line, and the lines behind it.
unfoldable pub first_line : Text → Text
first_line [] = []
first_line (c ∷ s) = if c == 10 then [] else c ∷ first_line s

unfoldable pub lines_after : Text → List Text
unfolding first_line
lines_after [] = []
lines_after (c ∷ s) = if c == 10 then first_line s ∷ lines_after s else lines_after s

unfoldable pub split_lines : Text → List Text
unfolding first_line lines_after
split_lines s = first_line s ∷ lines_after s

-- strings.Trim(s, set), for a set of ASCII characters.
unfoldable pub trim_front : Text → Text → Text
unfolding exists
trim_front set [] = []
trim_front set (c ∷ s) = if exists (◌==◌ c) set then trim_front set s else c ∷ s

unfoldable pub trim_set : Text → Text → Text
unfolding trim_front
trim_set set s = reverse (trim_front set (reverse (trim_front set s)))

abbrev pub marks : Text
marks = bytes "*_`#> "

abbrev pub end_marks : Text
end_marks = bytes "*_`. "

abbrev pub verdict_prefix : Text
verdict_prefix = bytes "VERDICT:"

abbrev pub approve_words : List Text
approve_words = bytes "APPROVE" ∷ bytes "APPROVED" ∷ []

abbrev pub changes_words : List Text
changes_words =
    bytes "REQUEST_CHANGES"
    ∷ bytes "REQUEST CHANGES"
    ∷ bytes "CHANGES_REQUESTED"
    ∷ bytes "CHANGES REQUESTED"
    ∷ []

-- The verdict that one line gives, if it gives one: the body of ParseVerdict's loop.
unfoldable pub verdict_of_line : Text → Option Verdict
unfolding has_prefix one_of trim_set trim_space to_upper
verdict_of_line raw =
    let line = to_upper (trim_set marks (trim_space raw)) in
    let word = trim_set end_marks (trim_space (drop 8 line)) in
    if has_prefix line verdict_prefix
    then (if one_of word approve_words
        then some approve
        else if one_of word changes_words
        then some changes
        else none)
    else none

-- `verdict = ...` where the line gives one.
abbrev pub verdict_or : Option Verdict → Verdict → Verdict
verdict_or none v = v
verdict_or (some w) v = w

unfoldable pub verdict_loop : Verdict → List Text → Verdict
verdict_loop v [] = v
verdict_loop v (line ∷ lines) = verdict_loop (verdict_or (verdict_of_line line) v) lines

-- ParseVerdict
unfoldable pub parse_verdict : Text → Verdict
unfolding verdict_loop split_lines verdict_of_line
parse_verdict summary = verdict_loop no_verdict (split_lines summary)

first_line-append : (a b : Text) → first_line (a ++ 10 ∷ b) ≡ first_line a
unfolding first_line
first_line-append [] b = refl
first_line-append (c ∷ a) b = ground (arith, first_line-append a b)

lines_after-append : (a b : Text) → lines_after (a ++ 10 ∷ b) ≡ lines_after a ++ split_lines b
unfolding lines_after split_lines
lines_after-append [] b = refl
lines_after-append (c ∷ a) b = ground (arith, lines_after-append a b, first_line-append a b)

verdict_loop-append :
    (v : Verdict) (xs ys : List Text)
    → verdict_loop v (xs ++ ys) ≡ verdict_loop (verdict_loop v xs) ys
unfolding verdict_loop
verdict_loop-append v [] ys = refl
verdict_loop-append v (x ∷ xs) ys = verdict_loop-append (verdict_or (verdict_of_line x) v) xs ys

-- Does a line of the text give a verdict?
abbrev pub gives_verdict : Text → Bool
gives_verdict line = elim (verdict_of_line line) [ none ↦ false | some v ↦ true ]

verdict_loop_given :
    (v w : Verdict) (xs : List Text)
    → (exists gives_verdict xs ≡ true → verdict_loop v xs ≡ verdict_loop w xs)
      × (exists gives_verdict xs ≡ false → verdict_loop v xs ≡ v)
unfolding verdict_loop exists
verdict_loop_given v w [] = ground arith
verdict_loop_given v w (x ∷ xs) = ground (
  arith,
  verdict_loop_given (verdict_or (verdict_of_line x) v) (verdict_or (verdict_of_line x) w) xs,
)

-- The last verdict counts: with a verdict behind a line break the text before it does not matter,
-- and without one the text behind it does not.
pub parse_verdict-append :
    (a b : Text)
    → (exists gives_verdict (split_lines b) ≡ true → parse_verdict (a ++ 10 ∷ b) ≡ parse_verdict b)
      × (exists gives_verdict (split_lines b) ≡ false
          → parse_verdict (a ++ 10 ∷ b) ≡ parse_verdict a)
unfolding parse_verdict
parse_verdict-append a b =
    let split : split_lines (a ++ 10 ∷ b) ≡ split_lines a ++ split_lines b =
      unfold split_lines in rw (first_line-append a b, lines_after-append a b) in
    rw (split, verdict_loop-append no_verdict (split_lines a) (split_lines b))
      (verdict_loop_given (verdict_loop no_verdict (split_lines a)) no_verdict (split_lines b))
