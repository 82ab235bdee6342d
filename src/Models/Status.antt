-- ===== src/Models/Status.antt =====
-- The status vocabularies of internal/models/models.go.
pub mod Words
use buildbee.Base.{
  ◌≡◌, refl, arith, Bool, true, false, ◌||◌, Option, none, some, List, [], ◌∷◌, if◌then◌else◌,
}
use buildbee.Text.{Text, bytes, text_eq, one_of, trim_space, to_lower}

-- TaskStatus
pub data TaskStatus : Type 0 where
  open_task in_progress done canceled_task : TaskStatus

-- RunStatus
pub data RunStatus : Type 0 where
  pending running succeeded failed canceled : RunStatus

-- HandoffStatus
pub data HandoffStatus : Type 0 where
  open_handoff complete : HandoffStatus

-- PipelineStatus
pub data PipelineStatus : Type 0 where
  pipeline_pending pipeline_success pipeline_failure : PipelineStatus

-- RunKind. "" stands for no kind yet in CreateRun only, and is an `Option` there.
pub data RunKind : Type 0 where
  plan build review merge : RunKind

-- The kinds of a RunEvent.
pub data EventKind : Type 0 where
  token thought plan_event tool_call tool_result usage status log steer : EventKind

-- The constants' values.
abbrev pub task_status_word : TaskStatus → Text
task_status_word open_task = bytes "open"
task_status_word in_progress = bytes "in_progress"
task_status_word done = bytes "done"
task_status_word canceled_task = bytes "canceled"

abbrev pub run_status_word : RunStatus → Text
run_status_word pending = bytes "pending"
run_status_word running = bytes "running"
run_status_word succeeded = bytes "succeeded"
run_status_word failed = bytes "failed"
run_status_word canceled = bytes "canceled"

abbrev pub run_kind_word : RunKind → Text
run_kind_word plan = bytes "plan"
run_kind_word build = bytes "build"
run_kind_word review = bytes "review"
run_kind_word merge = bytes "merge"

abbrev pub pipeline_status_word : PipelineStatus → Text
pipeline_status_word pipeline_pending = bytes "pending"
pipeline_status_word pipeline_success = bytes "success"
pipeline_status_word pipeline_failure = bytes "failure"

abbrev pub event_kind_word : EventKind → Text
event_kind_word token = bytes "token"
event_kind_word thought = bytes "thought"
event_kind_word plan_event = bytes "plan"
event_kind_word tool_call = bytes "tool_call"
event_kind_word tool_result = bytes "tool_result"
event_kind_word usage = bytes "usage"
event_kind_word status = bytes "status"
event_kind_word log = bytes "log"
event_kind_word steer = bytes "steer"

abbrev pub task_statuses : List TaskStatus
task_statuses = open_task ∷ in_progress ∷ done ∷ canceled_task ∷ []

abbrev pub run_statuses : List RunStatus
run_statuses = pending ∷ running ∷ succeeded ∷ failed ∷ canceled ∷ []

-- What a worker may append: all kinds but `steer`.
abbrev pub worker_event_kinds : List EventKind
worker_event_kinds =
    token ∷ thought ∷ plan_event ∷ tool_call ∷ tool_result ∷ usage ∷ status ∷ log ∷ []

-- The `switch` of the parsers: the first case whose word is the text.
unfoldable pub match_word : {A : Type 0} → (A → Text) → List A → Text → Option A
match_word word [] s = none
match_word word (a ∷ rest) s = if text_eq s (word a) then some a else match_word word rest s

-- ParseTaskStatus
unfoldable pub parse_task_status : Text → Option TaskStatus
unfolding match_word
parse_task_status s = match_word task_status_word task_statuses (trim_space s)

-- ParseRunStatus
unfoldable pub parse_run_status : Text → Option RunStatus
unfolding match_word
parse_run_status s = match_word run_status_word run_statuses (trim_space s)

-- NormalizeRunEventKind
unfoldable pub normalize_run_event_kind : Text → Option EventKind
unfolding match_word
normalize_run_event_kind kind =
    match_word event_kind_word worker_event_kinds (to_lower (trim_space kind))

abbrev pub success_words : List Text
success_words =
    bytes "success"
    ∷ bytes "succeeded"
    ∷ bytes "pass"
    ∷ bytes "passed"
    ∷ bytes "completed"
    ∷ bytes "neutral"
    ∷ bytes "skipped"
    ∷ []

abbrev pub failure_words : List Text
failure_words =
    bytes "failure"
    ∷ bytes "failed"
    ∷ bytes "error"
    ∷ bytes "fail"
    ∷ bytes "cancelled"
    ∷ bytes "canceled"
    ∷ bytes "timed_out"
    ∷ bytes "action_required"
    ∷ bytes "startup_failure"
    ∷ []

abbrev pub pending_words : List Text
pending_words =
    bytes "pending"
    ∷ bytes "queued"
    ∷ bytes "in_progress"
    ∷ bytes "requested"
    ∷ bytes "waiting"
    ∷ []
    ∷ []

-- ParsePipelineStatus
unfoldable pub parse_pipeline_status : Text → Option PipelineStatus
unfolding one_of
parse_pipeline_status s =
    let w = to_lower (trim_space s) in
    if one_of w success_words
    then some pipeline_success
    else if one_of w failure_words
    then some pipeline_failure
    else if one_of w pending_words
    then some pipeline_pending
    else none

-- RunStatus.Terminal
unfoldable pub terminal : RunStatus → Bool
terminal succeeded = true
terminal failed = true
terminal canceled = true
terminal _ = false

-- RunStatus.CanBecome
unfoldable pub can_become : RunStatus → RunStatus → Bool
can_become pending running = true
can_become pending failed = true
can_become pending canceled = true
can_become running succeeded = true
can_become running failed = true
can_become running canceled = true
can_become _ _ = false

-- a == b on statuses and kinds.
unfoldable pub same_status : RunStatus → RunStatus → Bool
same_status pending pending = true
same_status running running = true
same_status succeeded succeeded = true
same_status failed failed = true
same_status canceled canceled = true
same_status _ _ = false

pub same_status-true : (a b : RunStatus) → same_status a b ≡ true → a ≡ b
unfolding same_status
same_status-true pending pending h = refl
same_status-true running running h = refl
same_status-true succeeded succeeded h = refl
same_status-true failed failed h = refl
same_status-true canceled canceled h = refl
same_status-true _ _ h = ground (arith, h)

unfoldable pub same_kind : RunKind → RunKind → Bool
same_kind plan plan = true
same_kind build build = true
same_kind review review = true
same_kind merge merge = true
same_kind _ _ = false

-- t.Status == TaskDone || t.Status == TaskCanceled
unfoldable pub closed_task : TaskStatus → Bool
closed_task done = true
closed_task canceled_task = true
closed_task _ = false

-- RunKindForRole
unfoldable pub run_kind_for_role : Text → RunKind
run_kind_for_role role =
    if text_eq (to_lower role) (bytes "scout")
    then plan
    else if text_eq (to_lower role) (bytes "sentry")
    then review
    else build
