-- ===== src/Core/Ci.antt =====
-- internal/core/runs.go: the CI checks that are reported for a Task.
use buildbee.Base.{
  Bool, true, false, not, Option, none, some, [], ◌∷◌, ◌++◌, is_empty, if◌then◌else◌,
}
use buildbee.Base.Result.{invalid, Result, ok, err, ◌and_then◌, deny}
use buildbee.Text.{Text, bytes, text_eq, trim_space, to_lower, check_text, valid_commit}
use buildbee.Models.Status.{
  PipelineStatus, pipeline_pending, pipeline_success, pipeline_failure, pipeline_status_word,
  parse_pipeline_status,
}
use buildbee.Models.Records.{Time, str, Task, Pipeline}
use buildbee.Store.{W, pure, fail, with_result, new_id, ◌>>=◌, ◌>>◌, refuse, on_nil, attempt}
use buildbee.Store.Tables.{get_task, insert_pipeline, get_pipeline, update_pipeline, get_artifact}
use buildbee.Core.Work.{Actor, who_of, the_time, log_activity, member, notify_people, task_href}
use buildbee.Core.Pilot.Moves.{on_pipeline}

-- NewPipeline
pub record NewPipeline : Type 0 where
  pub name : Text
  pub status : Text
  pub external_url : Text
  pub artifact_id : Text
  pub commit : Text

-- NewPipeline with its fields checked.
pub record CheckedPipeline : Type 0 where
  pub name : Text
  pub status : PipelineStatus
  pub commit : Text

unfoldable pub status_ok : Option PipelineStatus → Result PipelineStatus
status_ok none = err invalid
status_ok (some s) = ok s

-- What RecordPipeline checks before its transaction.
unfoldable pub check_pipeline : NewPipeline → Result CheckedPipeline
check_pipeline new = check_text new.name true 200 and_then λ name.
    status_ok (parse_pipeline_status new.status) and_then λ status.
    let commit = to_lower (trim_space new.commit) in
    deny (not (valid_commit commit)) invalid and_then λ _.
    ok (record { name = name; status = status; commit = commit })

abbrev pub is_failure : PipelineStatus → Bool
is_failure pipeline_failure = true
is_failure pipeline_success = false
is_failure pipeline_pending = false

-- pipelineRecorded
unfoldable pub pipeline_recorded : Actor → Task → Pipeline → Text → W (Unit {0})
pipeline_recorded a task p action = member a task.project_id false >>= λ m.
    log_activity task.project_id (who_of m a) (bytes "pipeline") action p.id (
      (bytes "task_id", str task.id)
      ∷ (bytes "name", str p.name)
      ∷ (bytes "status", str (pipeline_status_word p.status))
      ∷ [])
    >> (if is_failure p.status
        then notify_people task.project_id none (record {
          project_id = task.project_id;
          kind = bytes "pipeline";
          title = bytes "Pipeline failed: " ++ p.name ++ bytes " on " ++ task.title;
          body = p.external_url;
          href = task_href task.project_id task.id;
        })
        else pure tt)
    >> on_pipeline task p

abbrev artifact_here : Text → Text → W (Unit {0})
artifact_here task_id id = attempt (get_artifact id) >>= λ found.
    on_nil found (fail invalid) (λ x. refuse (not (text_eq x.task_id task_id)) invalid)

-- The Pipeline of a report.
abbrev pub reported : Text → Task → NewPipeline → CheckedPipeline → Time → Pipeline
reported id task new c now = record {
  id = id;
  project_id = task.project_id;
  task_id = task.id;
  artifact_id = new.artifact_id;
  name = c.name;
  status = c.status;
  commit = c.commit;
  external_url = trim_space new.external_url;
  created_at = now;
  updated_at = now;
}

-- RecordPipeline
unfoldable pub record_pipeline : Actor → Text → NewPipeline → W Pipeline
record_pipeline a task_id new = with_result (check_pipeline new) >>= λ c.
    get_task task_id >>= λ task. new_id >>= λ id. the_time >>= λ now.
    let p = reported id task new c now in
    (if is_empty p.artifact_id then pure tt else artifact_here task_id p.artifact_id)
    >> insert_pipeline p
    >> pipeline_recorded a task p (bytes "recorded")
    >> pure p

abbrev or_text : Text → Text → Text
or_text a b = if is_empty a then b else a

-- UpdatePipeline
unfoldable pub change_pipeline : Actor → Text → Text → Text → W Pipeline
change_pipeline a id status url = with_result (status_ok (parse_pipeline_status status)) >>= λ st.
    get_pipeline id >>= λ old. get_task old.task_id >>= λ task. the_time >>= λ now.
    let p : Pipeline = record old {
      status = st;
      updated_at = now;
      external_url = or_text (trim_space url) old.external_url;
    } in
    update_pipeline p >> pipeline_recorded a task p (bytes "updated") >> pure p
