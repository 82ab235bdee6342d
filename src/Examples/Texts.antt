-- ===== src/Examples/Texts.antt =====
-- Texts, statuses and verdicts at concrete inputs.
use buildbee.Base.{
  ℕ, ◌≤◌, ◌<◌, ◌≡◌, ◌≢◌, ◌↔◌, ◌⊎◌, refl, true, false, some, [], ◌∷◌, ◌++◌, take, length, exists,
}
use buildbee.Text.{Text, bytes, truncate, starts_at, trim_space, to_lower}
use buildbee.Text.Truncate.{truncate_lem}
use buildbee.Text.Sanitize.{sanitize_json}
use buildbee.Text.Sanitize.Clean.{real_escape, sanitize_json_clean, sanitize_json_idempotent}
use buildbee.Models.Status.{
  succeeded, in_progress, token, steer, parse_run_status, parse_task_status,
  normalize_run_event_kind, run_status_word, task_status_word, event_kind_word,
}
use buildbee.Models.Status.Words.{parse_status_iff, normalize_run_event_kind_iff}
use buildbee.Models.Verdict.{parse_verdict, split_lines, gives_verdict, parse_verdict-append}

-- "é!" in UTF-8
abbrev accented : Text
accented = 195 ∷ 169 ∷ 33 ∷ []

accented-starts : starts_at accented 0 ≡ true
unfolding starts_at
accented-starts = refl

truncate_example :
    ((length accented ≤ 1) × (truncate accented 1 ≡ accented))
    ⊎ ((1 < length accented)
        × ((k : ℕ) × (truncate accented 1 ≡ take k accented)
            × (k ≤ 1)
            × (starts_at accented k ≡ true)
            × ((i : ℕ) → i ≤ 1 → starts_at accented i ≡ true → i ≤ k)))
truncate_example = truncate_lem accented 1 accented-starts

abbrev escaped_nul : Text
escaped_nul = 34 ∷ 92 ∷ bytes "u0000" ++ 34 ∷ []

clean_example : real_escape [] (sanitize_json escaped_nul) ≡ false
clean_example = sanitize_json_clean escaped_nul

idempotent_example :
    (sanitize_json (sanitize_json escaped_nul) ≡ sanitize_json escaped_nul)
    × (real_escape [] escaped_nul ≡ false → sanitize_json escaped_nul ≡ escaped_nul)
idempotent_example = sanitize_json_idempotent escaped_nul

abbrev padded : Text
padded = bytes " succeeded "

status_example :
    ((parse_run_status padded ≡ some succeeded) ↔ (trim_space padded ≡ run_status_word succeeded))
    × ((parse_task_status padded ≡ some in_progress)
        ↔ (trim_space padded ≡ task_status_word in_progress))
status_example = parse_status_iff padded succeeded in_progress

abbrev shouted : Text
shouted = bytes " TOKEN "

kind_example :
    (normalize_run_event_kind shouted ≡ some token)
    ↔ ((token ≢ steer) × (to_lower (trim_space shouted) ≡ event_kind_word token))
kind_example = normalize_run_event_kind_iff shouted token

abbrev approved_line : Text
approved_line = bytes "VERDICT: APPROVE"

abbrev refused_line : Text
refused_line = bytes "VERDICT: REQUEST_CHANGES"

verdict_example :
    (exists gives_verdict (split_lines refused_line) ≡ true
      → parse_verdict (approved_line ++ 10 ∷ refused_line) ≡ parse_verdict refused_line)
    × (exists gives_verdict (split_lines refused_line) ≡ false
        → parse_verdict (approved_line ++ 10 ∷ refused_line) ≡ parse_verdict approved_line)
verdict_example = parse_verdict-append approved_line refused_line
