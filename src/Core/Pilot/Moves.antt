-- ===== src/Core/Pilot/Moves.antt =====
-- internal/core/autopilot.go: sending a Task back, asking people, merging, and what a CI result or an
-- answered Decision sets off.
use buildbee.Base.{
  ℕ, Bool, true, false, not, ◌&&◌, ◌||◌, none, List, [], ◌∷◌, ◌++◌, exists, count_if, is_empty, ltb,
  take, if◌then◌else◌,
}
use buildbee.Text.{Text, bytes, text_eq, truncate, trim_space, equal_fold}
use buildbee.Text.Decimal.{decimal}
use buildbee.Models.Status.{
  PipelineStatus, pipeline_pending, pipeline_success, pipeline_failure, build, succeeded, same_kind,
  same_status, terminal, closed_task,
}
use buildbee.Models.Verdict.{first_line}
use buildbee.Models.Members.{is_nil}
use buildbee.Models.Records.{
  Action, no_action, merge_action, permission_action, merge_auto, merge_approval, str, Project,
  Task, Run, Decision, Pipeline,
}
use buildbee.Store.{W, pure, ◌>>=◌, ◌>>◌}
use buildbee.Store.Runs.{list_runs}
use buildbee.Store.Tables.{get_task, get_project, list_decisions, list_pipelines, unanswered}
use buildbee.Core.Work.{Who, Notice, named, log_activity, notify_people, task_href}
use buildbee.Core.Decide.{NewDecision, open_decision}
use buildbee.Core.Queue.{queue_merge}
use buildbee.Core.Pilot.Checks.{merge_in_progress, approved, last_of, ci_state}
use buildbee.Core.Pilot.Handoff.{pass_on}

-- maxRounds
abbrev pub max_rounds : ℕ
max_rounds = 3

-- firstNonEmpty of two
abbrev pub first_nonempty : Text → Text → Text
first_nonempty a b = if is_empty a then b else a

abbrev pub run_notice : Text → Task → Text → Text → Text → Notice
run_notice project_id task kind title body = record {
  project_id = project_id;
  kind = kind;
  title = title;
  body = body;
  href = task_href project_id task.id;
}

abbrev pub is_merge : Action → Bool
is_merge no_action = false
is_merge merge_action = true
is_merge permission_action = false

-- Is a merge question about the Task open?
abbrev pub asks_to_merge : Text → Decision → Bool
asks_to_merge task_id d = text_eq d.task_id task_id && is_merge d.action && unanswered d

abbrev pub merge_question : Text → List Text → Text → Task → NewDecision
merge_question prompt options recommendation task = record {
  prompt = prompt;
  recommendation = recommendation;
  assignee = [];
  task_id = task.id;
  options = options;
  action = merge_action;
  commit = task.head_commit;
  run_id = [];
}

-- askToMerge
unfoldable pub ask_to_merge : Project → Task → Text → List Text → Text → W (Unit {0})
unfolding exists
ask_to_merge proj task prompt options recommendation = list_decisions proj.id >>= λ ds.
    if exists (asks_to_merge task.id) ds
    then pure tt
    else open_decision proj.id (named (bytes "autopilot")) none
        (merge_question prompt options recommendation task)
      >> pure tt

abbrev building : Run → Bool
building r = same_kind r.kind build && not (terminal r.status)

abbrev built : Run → Bool
built r = same_kind r.kind build && same_status r.status succeeded

abbrev quoted : Text → Text
quoted s = 34 ∷ s ++ 34 ∷ []

abbrev still_not_ready : ℕ → Task → Text → Text
still_not_ready builds task why =
    bytes "The Builder has tried "
    ++ decimal builds
    ++ bytes " times on "
    ++ quoted task.title
    ++ bytes " ("
    ++ first_nonempty task.pr_url task.branch
    ++ bytes ") and it is still not ready: "
    ++ truncate (first_line why) 200
    ++ bytes ". Merge it anyway?"

-- sendBack: nothing while a build is queued or running; back to the Builder for fewer than
-- maxRounds builds; then a question.
unfoldable pub send_back : Project → Task → Text → Text → W (Unit {0})
unfolding exists count_if
send_back proj task from_role why = list_runs task.id >>= λ runs.
    if exists building runs
    then pure tt
    else if ltb (count_if built runs) max_rounds
    then pass_on proj task from_role (bytes "builder") why
    else ask_to_merge proj task (still_not_ready (count_if built runs) task why)
        (bytes "merge" ∷ bytes "stop" ∷ []) (bytes "stop")

abbrev approved_question : Task → Text
approved_question task =
    bytes "Sentry approved "
    ++ quoted task.title
    ++ bytes " ("
    ++ first_nonempty task.pr_url task.branch
    ++ bytes ", commit "
    ++ take 12 task.head_commit
    ++ bytes ") and CI passed. Merge it?"

-- The end of `tryMerge`: the work is approved and CI agrees.
unfoldable pub merge_now : Project → Task → W (Unit {0})
merge_now proj task = elim proj.merge_policy [
  | merge_auto ↦ queue_merge task (named (bytes "autopilot"))
  | merge_approval ↦
      ask_to_merge proj task (approved_question task) (bytes "merge" ∷ bytes "not yet" ∷ [])
        (bytes "merge")
]

-- The `switch` of `tryMerge` on the state of CI.
unfoldable pub on_ci : Project → Task → PipelineStatus × Text → W (Unit {0})
on_ci proj task ci = elim ci.0 [
  | pipeline_failure ↦ send_back proj task (bytes "sentry") (bytes "CI failed: " ++ ci.1)
  | pipeline_pending ↦
      log_activity proj.id (named (bytes "autopilot")) (bytes "task") (bytes "waiting_for_ci")
        task.id ((bytes "checks", str ci.1) ∷ [])
  | pipeline_success ↦ merge_now proj task
]

-- tryMerge
unfoldable pub try_merge : Project → Task → W (Unit {0})
try_merge proj task =
    if not (is_nil task.merged_at) || is_empty task.branch
    then pure tt
    else list_runs task.id >>= λ runs.
        if merge_in_progress runs || not (approved runs task)
        then pure tt
        else list_pipelines task.id >>= λ ps.
            on_ci proj task (ci_state ps task (last_of build runs))

-- A Task that nothing is left to do on: no branch, merged, done or canceled.
abbrev pub settled : Task → Bool
settled task = is_empty task.branch || not (is_nil task.merged_at) || closed_task task.status

unfoldable pub react : Project → Task → Pipeline → W (Unit {0})
react proj task p = elim p.status [
  | pipeline_failure ↦
      send_back proj task (bytes "sentry")
        (bytes "CI failed: " ++ trim_space (p.name ++ bytes " " ++ p.external_url))
  | pipeline_success ↦ try_merge proj task
  | pipeline_pending ↦ pure tt
]

-- onPipeline
unfoldable pub on_pipeline : Task → Pipeline → W (Unit {0})
on_pipeline task p =
    if settled task
    then pure tt
    else get_project task.project_id >>= λ proj.
        if not proj.auto_run then pure tt else react proj task p

-- Does the answer say to merge a Task?
abbrev pub says_merge : Decision → Bool
says_merge d =
    is_merge d.action
    && equal_fold (trim_space d.answer) (bytes "merge")
    && not (is_empty d.task_id)

-- Was new work pushed after the question was asked?
abbrev pub outdated : Decision → Task → Bool
outdated d task = not (is_empty d.commit) && not (text_eq d.commit task.head_commit)

abbrev pub short_sha : Text → Text
short_sha c = take 12 c

-- onDecision
unfoldable pub on_decision : Decision → Who → W (Unit {0})
on_decision d by =
    if not (says_merge d)
    then pure tt
    else get_task d.task_id >>= λ task.
        if settled task
        then pure tt
        else if outdated d task
        then notify_people task.project_id none (
            run_notice task.project_id task (bytes "run")
              (bytes "Not merged: " ++ task.title ++ bytes " changed after the merge was approved")
              (bytes "Approved "
                ++ short_sha d.commit
                ++ bytes ", now "
                ++ short_sha task.head_commit))
        else list_runs task.id >>= λ runs.
            if merge_in_progress runs then pure tt else queue_merge task by
