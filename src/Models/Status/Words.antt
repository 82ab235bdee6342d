-- ===== src/Models/Status/Words.antt =====
-- The parsers read back the words of the vocabularies, and nothing else.
use buildbee.Base.{◌≡◌, ◌≢◌, refl, ◌↔◌, inl, inr, Bool-cases, some, List, [], ◌∷◌, arith, ◌∙◌, ap}
use buildbee.Text.{Text, text_eq, text_eq-true, trim_space, to_lower}
use buildbee.Models.Status.{
  RunStatus, pending, TaskStatus, open_task, EventKind, token, steer, run_status_word,
  task_status_word, event_kind_word, match_word, parse_run_status, parse_task_status,
  normalize_run_event_kind, run_statuses, task_statuses, worker_event_kinds,
}

match_word-word :
    {A : Type 0} (word : A → Text) (xs : List A) (s : Text) (a : A)
    → match_word word xs s ≡ some a
    → s ≡ word a
unfolding match_word
match_word-word word [] s a h = cc
match_word-word word (x ∷ xs) s a h = elim (Bool-cases (text_eq s (word x))) [
  | inl e ↦ text_eq-true s (word x) e ∙ ap word (ground (arith, e))
  | inr e ↦ match_word-word word xs s a (rw e at h)
]

run_status_read :
    (r : RunStatus) → match_word run_status_word run_statuses (run_status_word r) ≡ some r
unfolding match_word text_eq
run_status_read pending = refl
run_status_read _ = refl

task_status_read :
    (t : TaskStatus) → match_word task_status_word task_statuses (task_status_word t) ≡ some t
unfolding match_word text_eq
task_status_read open_task = refl
task_status_read _ = refl

event_kind_read :
    (k : EventKind)
    → k ≢ steer
    → match_word event_kind_word worker_event_kinds (event_kind_word k) ≡ some k
unfolding match_word text_eq
event_kind_read steer h = absurd (h refl)
event_kind_read token h = refl
event_kind_read _ h = refl

-- `steer` is no case of the switch.
worker_kinds_no_steer : (s : Text) → match_word event_kind_word worker_event_kinds s ≢ some steer
unfolding match_word
worker_kinds_no_steer s = ground arith

-- A text is read as a Run's or a Task's status exactly when it is the status's word, white space
-- around it aside.
pub parse_status_iff :
    (s : Text) (r : RunStatus) (t : TaskStatus)
    → ((parse_run_status s ≡ some r) ↔ (trim_space s ≡ run_status_word r))
      × ((parse_task_status s ≡ some t) ↔ (trim_space s ≡ task_status_word t))
unfolding parse_run_status parse_task_status
parse_status_iff s r t = (
  (match_word-word run_status_word run_statuses (trim_space s) r, λ e. rw e (run_status_read r)),
  (match_word-word task_status_word task_statuses (trim_space s) t, λ e. rw e (task_status_read t)),
)

-- A worker's event is taken under the kind that its text names, in any case and with any white
-- space around it, and never as a person's steering message.
pub normalize_run_event_kind_iff :
    (s : Text) (k : EventKind)
    → (normalize_run_event_kind s ≡ some k)
      ↔ ((k ≢ steer) × (to_lower (trim_space s) ≡ event_kind_word k))
unfolding normalize_run_event_kind
normalize_run_event_kind_iff s k = (
  λ h. (
    λ e. worker_kinds_no_steer (to_lower (trim_space s)) (h ∙ ap some e),
    match_word-word event_kind_word worker_event_kinds (to_lower (trim_space s)) k h,
  ),
  λ h. rw h.1 (event_kind_read k h.0),
)
