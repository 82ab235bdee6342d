-- ===== src/Core/Decide.antt =====
-- internal/core/decisions.go: opening a Decision, and closing those that a finished Run left open.
use buildbee.Base.{
  Bool, true, false, Option, none, some, List, [], ◌∷◌, ◌++◌, is_empty, if◌then◌else◌,
}
use buildbee.Text.{Text, bytes, truncate}
use buildbee.Models.Records.{
  Action, no_action, merge_action, permission_action, Time, str, Member, Run, Decision,
  DecisionMemory,
}
use buildbee.Store.{W, pure, gets, new_id, ◌>>=◌, ◌>>◌, on_nil, each, or_none, attempt}
use buildbee.Store.Tables.{
  get_task, get_member, insert_decision, get_decision_memory, close_run_decisions,
}
use buildbee.Core.Work.{Actor, Who, Notice, the_time, log_activity, notify_member, notify_people}
use buildbee.Core.Thread.{note, voice}
use buildbee.Core.Queue.{run_actor}

-- newDecision
pub record NewDecision : Type 0 where
  pub prompt : Text
  pub recommendation : Text
  pub assignee : Text
  pub task_id : Text
  pub options : List Text
  pub action : Action
  pub commit : Text
  pub run_id : Text

abbrev pub is_no_action : Action → Bool
is_no_action no_action = true
is_no_action merge_action = false
is_no_action permission_action = false

-- The Decision as asked, without an answer.
abbrev pub asked : Text → Text → Text → NewDecision → Time → Decision
asked id project_id fingerprint d now = record {
  id = id;
  project_id = project_id;
  task_id = d.task_id;
  prompt = d.prompt;
  options = d.options;
  recommendation = d.recommendation;
  answer = [];
  answered_by_member_id = [];
  reused = false;
  fingerprint = fingerprint;
  assignee_member_id = d.assignee;
  action = d.action;
  commit = d.commit;
  run_id = d.run_id;
  created_at = now;
  answered_at = none;
}

-- The answer that is remembered stands for a question without an action.
unfoldable pub recall : Option DecisionMemory → Time → Decision → Decision
recall none now d = d
recall (some m) now d =
    if is_no_action d.action
    then record d { answer = m.answer; reused = true; answered_at = some now }
    else d

abbrev from_decision : Option DecisionMemory → Text
from_decision none = []
from_decision (some m) = m.decision_id

-- The thread of the Decision's Task says that it was asked.
unfoldable pub note_decision : Decision → W (Unit {0})
note_decision d =
    if is_empty d.task_id
    then pure tt
    else attempt (get_task d.task_id) >>= λ found_task. on_nil found_task (pure tt) (λ task.
      voice d.project_id >>= λ speaker. note task speaker (bytes "Decision: " ++ d.prompt))

-- openDecision
unfoldable pub open_decision : Text → Who → Option Member → NewDecision → W Decision
open_decision project_id by asker new = new_id >>= λ id. the_time >>= λ now.
    gets (λ w. w.fingerprint new.prompt) >>= λ print.
    or_none (get_decision_memory project_id print) >>= λ memory.
    let d = recall memory now (asked id project_id print new now) in
    insert_decision d
    >> (if d.reused
        then log_activity project_id by (bytes "decision") (bytes "reused") d.id (
            (bytes "prompt", str (truncate d.prompt 300))
            ∷ (bytes "answer", str d.answer)
            ∷ (bytes "from_decision_id", str (from_decision memory))
            ∷ [])
        else log_activity project_id by (bytes "decision") (bytes "created") d.id
            ((bytes "prompt", str (truncate d.prompt 300)) ∷ (bytes "task_id", str d.task_id) ∷ [])
          >> note_decision d
          >> (let n : Notice = record {
            project_id = project_id;
            kind = bytes "decision";
            title = bytes "Decision needed: " ++ d.prompt;
            body = d.prompt;
            href = bytes "#/projects/" ++ project_id;
          } in
              if is_empty d.assignee_member_id
              then notify_people project_id asker n
              else get_member d.assignee_member_id >>= λ assignee. notify_member assignee n))
    >> pure d

abbrev pub run_ended_answer : Text
run_ended_answer = bytes "not needed: the run ended"

-- runEnded
unfoldable pub run_ended : Actor → Run → W (Unit {0})
run_ended a r = the_time >>= λ now. close_run_decisions r.id run_ended_answer now >>= λ gone.
    each
      (λ d. run_actor a r >>= λ by.
        log_activity d.project_id by (bytes "decision") (bytes "answered") d.id
          ((bytes "answer", str d.answer) ∷ []))
      gone
