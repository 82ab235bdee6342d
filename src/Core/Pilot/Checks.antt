-- ===== src/Core/Pilot/Checks.antt =====
-- `reviewed` and `ciState` of internal/core/autopilot.go: may an approved Task be merged?
pub mod Green
pub mod Approval
use buildbee.Base.{
  Bool, true, false, not, ◌&&◌, ◌||◌, Option, none, some, List, [], ◌∷◌, ◌++◌, first, keep, exists,
  is_empty, ltb, if◌then◌else◌,
}
use buildbee.Text.{Text, bytes, text_eq, trim_space, equal_fold}
use buildbee.Models.Status.{
  RunStatus, RunKind, PipelineStatus, pipeline_pending, pipeline_success, pipeline_failure, build,
  review, merge, succeeded, same_kind, same_status, terminal,
}
use buildbee.Models.Records.{Time, Verdict, no_verdict, approve, changes, Task, Run, Pipeline}
use buildbee.Core.Thread.{join_texts}

abbrev pub approves : Verdict → Bool
approves no_verdict = false
approves approve = true
approves changes = false

abbrev pub not_before : Run → Option Run → Bool
not_before rev none = true
not_before rev (some built) = not (ltb rev.created_at built.created_at)

-- reviewed
unfoldable pub reviewed : Run → Option Run → Task → Bool
reviewed rev built task =
    if not (is_empty rev.commit) && not (is_empty task.head_commit)
    then text_eq rev.commit task.head_commit
    else not_before rev built

abbrev merging : Run → Bool
merging r = same_kind r.kind merge && not (terminal r.status)

abbrev pub succeeded_as : RunKind → Run → Bool
succeeded_as kind r = same_status r.status succeeded && same_kind r.kind kind

abbrev pub last_of : RunKind → List Run → Option Run
last_of kind runs = first (succeeded_as kind) runs

abbrev pub approved_by : Option Run → Option Run → Task → Bool
approved_by none built task = false
approved_by (some rev) built task = approves rev.verdict && reviewed rev built task

-- The loop of `tryMerge` and what follows it: is the latest work approved, on a Task that nobody is
-- merging yet? `runs` are the Task's, the newest first.
unfoldable pub merge_in_progress : List Run → Bool
unfolding exists
merge_in_progress runs = exists merging runs

unfoldable pub approved : List Run → Task → Bool
unfolding first
approved runs task = approved_by (last_of review runs) (last_of build runs) task

abbrev before_start : Option Run → Pipeline → Bool
before_start none p = false
before_start (some b) p = elim b.started_at [ none ↦ false | some t ↦ ltb p.updated_at t ]

-- The `switch` of `ciState`: is this check about the latest push?
unfoldable pub counts : Task → Option Run → Pipeline → Bool
counts task built p =
    if not (is_empty p.commit) && not (is_empty task.head_commit)
    then equal_fold p.commit task.head_commit
    else not (before_start built p)

-- `latest[p.Name] = p`, in a map written as a list.
unfoldable pub keep_latest : Pipeline → List Pipeline → List Pipeline
keep_latest p [] = p ∷ []
keep_latest p (cur ∷ rest) =
    if text_eq cur.name p.name
    then (if ltb cur.updated_at p.updated_at then p else cur) ∷ rest
    else cur ∷ keep_latest p rest

-- The first loop of `ciState`.
unfoldable pub latest_checks : Task → Option Run → List Pipeline → List Pipeline → List Pipeline
latest_checks task built [] latest = latest
latest_checks task built (p ∷ ps) latest =
    latest_checks task built ps (if counts task built p then keep_latest p latest else latest)

abbrev pub is_failure : PipelineStatus → Bool
is_failure pipeline_failure = true
is_failure pipeline_pending = false
is_failure pipeline_success = false

abbrev pub is_pending : PipelineStatus → Bool
is_pending pipeline_pending = true
is_pending pipeline_failure = false
is_pending pipeline_success = false

abbrev pub failure_text : Pipeline → Text
failure_text p = trim_space (p.name ++ bytes " " ++ p.external_url)

unfoldable pub names_of : List Pipeline → List Text
names_of [] = []
names_of (p ∷ ps) = if is_pending p.status then p.name ∷ names_of ps else names_of ps

abbrev judged : Option Pipeline → List Pipeline → PipelineStatus × Text
judged (some p) latest = (pipeline_failure, failure_text p)
judged none latest = (
  if exists (λ p. is_pending p.status) latest then pipeline_pending else pipeline_success,
  join_texts (bytes ", ") (names_of latest),
)

-- The second loop of `ciState`. Go ranges over the map in any order; here in that of the list.
unfoldable pub judge : List Pipeline → PipelineStatus × Text
unfolding first exists
judge [] = (pipeline_pending, bytes "waiting for CI on the latest push")
judge (p ∷ ps) = judged (first (λ q. is_failure q.status) (p ∷ ps)) (p ∷ ps)

-- ciState, on the Task's checks, the newest first.
unfoldable pub ci_state : List Pipeline → Task → Option Run → PipelineStatus × Text
unfolding judge
ci_state [] task built = (pipeline_success, bytes "no CI")
ci_state (p ∷ ps) task built = judge (latest_checks task built (p ∷ ps) [])
