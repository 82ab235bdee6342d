-- ===== src/Examples/Merges.antt =====
-- A Task that autopilot moves on to a merge, at a concrete database.
use buildbee.Base.{keep, exists, first, ◌≡◌, ◌⊎◌, refl, [], ◌∷◌}
use buildbee.Base.Result.{Result, ok, err}
use buildbee.Base.Sort.{sort_by}
use buildbee.Text.{bytes, text_eq}
use buildbee.Models.Status.{review, pipeline_success, same_status, same_kind}
use buildbee.Models.Records.{approve, Task, Run}
use buildbee.Store.{Work, ◌>>=◌, new_id, gets, changes_work, pure, found}
use buildbee.Store.Rows.{find_row, update_row}
use buildbee.Store.Runs.{list_runs, insert_run, get_run, change_run, append_run_event}
use buildbee.Store.Tables.{list_pipelines, insert_activity}
use buildbee.Core.Work.{run_event, emit, log_activity}
use buildbee.Core.Queue.{queue_merge}
use buildbee.Core.Pilot.Checks.{merge_in_progress, approved, reviewed, ci_state}
use buildbee.Store.Keeps.{returned}
use buildbee.Core.Pilot.Moves.{try_merge, on_ci, merge_now}
use buildbee.Core.Pilot.Gate.{IsReady, AllPassed, runs_of, ci_of, try_merge_lem}
use buildbee.Examples.Sample.{hive, task, done_run, db, start}

abbrev pushed_task : Task
pushed_task = record task { branch = bytes "cache" }

abbrev a_build : Run
a_build = record done_run { branch = bytes "cache" }

abbrev a_review : Run
a_review = record done_run { id = bytes "r4"; kind = review; verdict = approve; created_at = 2 }

abbrev reviewed_start : Work
reviewed_start = record start { st = record db { runs = a_review ∷ a_build ∷ [] } }

abbrev work_of : Result (Unit {0} × Work) → Work
work_of (ok r) = r.1
work_of (err e) = start

abbrev merging_now : Work
merging_now = work_of (try_merge hive pushed_task reviewed_start)

merge_returns : try_merge hive pushed_task reviewed_start ≡ returned tt merging_now
unfolding try_merge ◌>>=◌ list_runs list_pipelines keep sort_by exists first merge_in_progress
    approved reviewed same_status same_kind on_ci ci_state merge_now queue_merge new_id gets
    insert_run find_row text_eq changes_work pure run_event append_run_event get_run found
    change_run update_row emit log_activity insert_activity
merge_returns = refl

try_merge_example :
    (merging_now ≡ reviewed_start)
    ⊎ (IsReady pushed_task (runs_of pushed_task reviewed_start)
        × (on_ci hive pushed_task (ci_of pushed_task reviewed_start) reviewed_start
            ≡ returned tt merging_now)
        × ((ci_of pushed_task reviewed_start).0 ≡ pipeline_success
            → AllPassed pushed_task reviewed_start))
try_merge_example = try_merge_lem hive pushed_task reviewed_start merging_now tt merge_returns
