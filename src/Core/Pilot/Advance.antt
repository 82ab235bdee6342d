-- ===== src/Core/Pilot/Advance.antt =====
-- `advance` of internal/core/autopilot.go: what follows when a Run has finished.
use buildbee.Base.{
  Bool, not, ◌&&◌, ◌||◌, Option, none, some, [], ◌∷◌, ◌++◌, drop, length, is_empty, if◌then◌else◌,
}
use buildbee.Text.{Text, bytes, text_eq, truncate, to_upper, has_prefix}
use buildbee.Models.Status.{
  pending, running, succeeded, failed, canceled, plan, build, review, merge, done, same_kind,
  same_status, closed_task, run_kind_word,
}
use buildbee.Models.Records.{Time, no_verdict, approve, changes, str, Project, Member, Task, Run}
use buildbee.Store.{W, pure, ◌>>=◌, ◌>>◌, each}
use buildbee.Store.Tables.{
  get_task, get_project, update_task, list_handoffs, complete_handoff, is_open,
}
use buildbee.Core.Work.{named, the_time, log_activity, notify_people}
use buildbee.Core.Thread.{note, bot_of, blank_line}
use buildbee.Core.Pilot.Handoff.{pass_on}
use buildbee.Core.Pilot.Moves.{first_nonempty, run_notice, short_sha, send_back, try_merge}

-- closeHandoffsTo
unfoldable pub close_handoffs_to : Text → Text → W (Unit {0})
close_handoffs_to task_id member_id =
    if is_empty member_id
    then pure tt
    else list_handoffs task_id >>= λ hs. the_time >>= λ now.
        each
          (λ h.
            if text_eq h.to_member_id member_id && is_open h.status
            then complete_handoff h.id now >> pure tt
            else pure tt)
          hs

abbrev commit_part : Run → Text
commit_part r = if is_empty r.commit then [] else bytes " at " ++ short_sha r.commit

abbrev pr_part : Run → Text
pr_part r = if is_empty r.pr_url then [] else bytes " (" ++ r.pr_url ++ bytes ")"

-- strings.TrimPrefix
abbrev trim_prefix : Text → Text → Text
trim_prefix s p = if has_prefix s p then drop (length p) s else s

-- resultNote
unfoldable pub result_note : Run → Text
result_note r = elim r.kind [
  | build ↦
      if is_empty r.branch
      then r.summary
      else bytes "Pushed "
        ++ r.branch
        ++ commit_part r
        ++ pr_part r
        ++ bytes "."
        ++ blank_line
        ++ r.summary
  | merge ↦ bytes "Merged " ++ trim_prefix r.detail (bytes "merged ") ++ bytes "."
  | plan ↦ r.summary
  | review ↦ r.summary
]

-- titleCase of a kind's word
abbrev title_case : Text → Text
title_case [] = []
title_case (c ∷ s) = to_upper (c ∷ []) ++ s

-- What `advance` does for a Run that did not succeed.
unfoldable pub on_failure : Project → Task → Option Member → Run → W (Unit {0})
on_failure proj task speaker r = elim r.status [
  | failed ↦
      note task speaker (bytes "Failed: " ++ r.detail)
      >> notify_people proj.id none (
          run_notice proj.id task (bytes "run")
            (title_case (run_kind_word r.kind) ++ bytes " Run failed on " ++ task.title) r.detail)
  | pending ↦ pure tt
  | running ↦ pure tt
  | succeeded ↦ pure tt
  | canceled ↦ pure tt
]

abbrev merged_task : Task → Time → Task
merged_task task now = record task { status = done; merged_at = some now; updated_at = now }

-- A merge Run succeeded.
unfoldable pub on_merged : Project → Task → W (Unit {0})
on_merged proj task = the_time >>= λ now.
    update_task (merged_task task now)
    >> log_activity proj.id (named (bytes "autopilot")) (bytes "task") (bytes "merged") task.id
        ((bytes "branch", str task.branch) ∷ (bytes "pr_url", str task.pr_url) ∷ [])
    >> notify_people proj.id none (
        run_notice proj.id task (bytes "merged") (bytes "Merged: " ++ task.title)
          (first_nonempty task.pr_url task.branch))

-- The Task with the work that a build pushed.
unfoldable pub pushed : Run → Task → Time → Task
pushed r task now = record task {
  branch = r.branch;
  updated_at = now;
  head_commit = first_nonempty r.commit task.head_commit;
  pr_url = first_nonempty r.pr_url task.pr_url;
}

abbrev pushes : Project → Run → Bool
pushes proj r =
    same_kind r.kind build && not (is_empty r.branch) && not (text_eq r.branch proj.default_branch)

-- Records what a build pushed, and returns the Task as it then stands.
unfoldable pub record_push : Project → Run → Task → W Task
record_push proj r task =
    if pushes proj r
    then (the_time >>= λ now. update_task (pushed r task now) >> pure (pushed r task now))
    else pure task

unfoldable pub on_verdict : Project → Task → Run → W (Unit {0})
on_verdict proj task r = elim r.verdict [
  | approve ↦ try_merge proj task
  | changes ↦
      send_back proj task (bytes "sentry")
        (bytes "Sentry asked for changes:" ++ blank_line ++ r.summary)
  | no_verdict ↦ notify_people proj.id none (
      run_notice proj.id task (bytes "run")
        (bytes "Sentry's review of " ++ task.title ++ bytes " has no verdict")
        (truncate r.summary 500))
]

-- The `switch` at the end of `advance`.
unfoldable pub next_step : Project → Task → Run → W (Unit {0})
next_step proj task r = elim r.kind [
  | plan ↦
      pass_on proj task (bytes "scout") (bytes "builder")
        (bytes "Scout's plan:" ++ blank_line ++ r.summary)
  | build ↦
      if is_empty task.branch
      then notify_people proj.id none (
          run_notice proj.id task (bytes "run") (bytes "Builder changed nothing for " ++ task.title)
            (truncate r.summary 500))
      else pass_on proj task (bytes "builder") (bytes "sentry") (
          bytes "Please review branch "
          ++ task.branch
          ++ bytes ". The Builder's summary:"
          ++ blank_line
          ++ r.summary)
  | review ↦ on_verdict proj task r
  | merge ↦ pure tt
]

-- What `advance` does for a Run that succeeded.
unfoldable pub on_success : Project → Task → Option Member → Run → W (Unit {0})
on_success proj task speaker r =
    close_handoffs_to task.id r.bot_member_id
    >> note task speaker (result_note r)
    >> (if same_kind r.kind merge
        then on_merged proj task
        else record_push proj r task >>= λ t.
            if not proj.auto_run || closed_task t.status then pure tt else next_step proj t r)

-- advance
unfoldable pub advance : Run → W (Unit {0})
advance r = get_task r.task_id >>= λ task. get_project r.project_id >>= λ proj.
    bot_of r >>= λ speaker.
    if same_status r.status succeeded
    then on_success proj task speaker r
    else on_failure proj task speaker r
