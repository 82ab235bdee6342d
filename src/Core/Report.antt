-- ===== src/Core/Report.antt =====
-- ReportRun of internal/core/runs.go, ReapRuns of internal/core/queue.go and AnswerDecision of
-- internal/core/decisions.go.
pub mod Access
use buildbee.Base.{
  Bool, true, false, not, ◌&&◌, ◌||◌, Option, none, some, List, [], ◌∷◌, ◌++◌, is_empty,
  if◌then◌else◌,
}
use buildbee.Base.Result.{Error, not_found, conflict, invalid, Result, ok, err, ◌and_then◌, deny}
use buildbee.Text.{Text, bytes, trim_space, check_text, valid_commit, truncate}
use buildbee.Models.Status.{
  RunStatus, pending, running, succeeded, failed, canceled, RunKind, review, merge, status,
  parse_run_status, can_become, terminal, same_status, same_kind, run_status_word, run_kind_word,
}
use buildbee.Models.Verdict.{parse_verdict}
use buildbee.Models.Members.{is_nil}
use buildbee.Models.Records.{
  Time, Verdict, no_verdict, approve, changes, str, Payload, Member, Run, Decision, DecisionMemory,
}
use buildbee.Store.{Work, W, pure, fail, with_result, found, ◌>>=◌, ◌>>◌, refuse, each}
use buildbee.Store.Runs.{get_run, update_run, expired_runs, or_now}
use buildbee.Store.Tables.{get_decision, answer_decision, upsert_decision_memory}
use buildbee.Core.Work.{
  Actor, Who, named, who_of, the_time, log_activity, run_event, member, open_project, system,
}
use buildbee.Core.Decide.{run_ended, is_no_action}
use buildbee.Core.Queue.{mark_load, own_run, run_actor, on_status}
use buildbee.Core.Pilot.Moves.{on_decision, first_nonempty}
use buildbee.Core.Pilot.Advance.{advance}

-- RunReport
pub record RunReport : Type 0 where
  pub status : Text
  pub detail : Text
  pub summary : Text
  pub branch : Text
  pub commit : Text
  pub pr_url : Text

-- The report with its fields checked.
pub record Checked : Type 0 where
  pub next : RunStatus
  pub detail : Text
  pub summary : Text
  pub branch : Text
  pub commit : Text
  pub pr_url : Text

abbrev pub only_cancels : RunStatus → RunReport → Bool
only_cancels next rep =
    same_status next canceled
    && is_empty rep.summary
    && is_empty rep.branch
    && is_empty rep.pr_url
    && is_empty rep.commit

abbrev pub parsed : Option RunStatus → Result RunStatus
parsed none = err invalid
parsed (some s) = ok s

-- What ReportRun checks before its transaction.
unfoldable pub check_report : Actor → RunReport → Result Checked
check_report a rep = parsed (parse_run_status rep.status) and_then λ next.
    deny (is_empty a.agent && not (only_cancels next rep)) invalid and_then λ _.
    check_text rep.detail false 2000 and_then λ d.
    check_text rep.summary false 16000 and_then λ summary.
    check_text rep.branch false 250 and_then λ branch.
    check_text rep.pr_url false 500 and_then λ pr_url.
    deny (not (valid_commit (trim_space rep.commit))) invalid and_then λ _. ok (record {
      next = next;
      detail = d;
      summary = summary;
      branch = branch;
      commit = trim_space rep.commit;
      pr_url = pr_url;
    })

-- The Run as ReportRun rewrites it.
unfoldable pub apply_report : Checked → Time → Run → Run
apply_report c now r =
    let summary = first_nonempty c.summary r.summary in
    record r {
      status = c.next;
      detail = c.detail;
      updated_at = now;
      summary = summary;
      branch = first_nonempty c.branch r.branch;
      pr_url = first_nonempty c.pr_url r.pr_url;
      commit =
          if not (is_empty c.commit) && not (same_kind r.kind merge) then c.commit else r.commit;
      verdict =
          if same_kind r.kind review && same_status c.next succeeded
          then parse_verdict summary
          else r.verdict;
      started_at = if same_status c.next running then or_now r.started_at now else r.started_at;
      finished_at = if terminal c.next then some now else r.finished_at;
      lease_until = if terminal c.next then none else r.lease_until;
    }

abbrev verdict_entry : Verdict → Payload
verdict_entry no_verdict = []
verdict_entry approve = (bytes "verdict", str (bytes "approve")) ∷ []
verdict_entry changes = (bytes "verdict", str (bytes "changes")) ∷ []

-- ReportRun's last part, when the status has changed.
unfoldable pub announce : Actor → Run → W (Unit {0})
announce a r = run_actor a r >>= λ by.
    log_activity r.project_id by (bytes "run") (run_status_word r.status) r.id (
      (bytes "task_id", str r.task_id)
      ∷ (bytes "detail", str r.detail)
      ∷ (bytes "kind", str (run_kind_word r.kind))
      ∷ verdict_entry r.verdict)
    >> (if terminal r.status then advance r else pure tt)

-- ReportRun's checks on the stored Run: "finished Runs cannot change".
unfoldable pub check_move : Actor → RunStatus → Run → W (Unit {0})
check_move a next r =
    own_run a r
    >> refuse (not (same_status next r.status) && not (can_become r.status next)) conflict
    >> refuse (terminal r.status) conflict

-- ReportRun, once it has written the Run.
unfoldable pub after_report : Actor → Run → Run → W Run
after_report a old r =
    mark_load
    >> (if terminal r.status then run_ended a r else pure tt)
    >> run_event r.id status (on_status r.status r.detail)
    >> (if same_status r.status old.status then pure tt else announce a r)
    >> pure r

-- ReportRun, from the point where the new Run is known.
abbrev pub save_report : Actor → Run → Run → W Run
save_report a old r = update_run r >> after_report a old r

-- ReportRun
unfoldable pub report_run : Actor → Text → RunReport → W Run
report_run a id rep = with_result (check_report a rep) >>= λ c. get_run id >>= λ r.
    check_move a c.next r >> the_time >>= λ now. save_report a r (apply_report c now r)

-- The Run as ReapRuns fails it.
unfoldable pub reaped : Time → Run → Run
reaped now r = record r {
  status = failed;
  detail = r.worker ++ bytes " stopped heartbeating";
  updated_at = now;
  lease_until = none;
  finished_at = some now;
}

abbrev nobody : Actor
nobody = system []

-- The body of ReapRuns' loop.
unfoldable pub reap : Run → W (Unit {0})
reap old = the_time >>= λ now.
    let r = reaped now old in
    update_run r
    >> mark_load
    >> run_ended nobody r
    >> run_event r.id status (on_status r.status r.detail)
    >> log_activity r.project_id (named (bytes "buildbee")) (bytes "run") (run_status_word failed)
        r.id ((bytes "task_id", str r.task_id) ∷ (bytes "detail", str r.detail) ∷ [])
    >> advance r

-- ReapRuns, less the count that it returns.
unfoldable pub reap_runs : W (Unit {0})
reap_runs = the_time >>= λ now. expired_runs now 100 >>= λ runs. each reap runs

abbrev member_id_of : Option Member → Text
member_id_of none = []
member_id_of (some m) = m.id

-- The answer is remembered, unless the question carries an action.
unfoldable pub remember : Text → Decision → W (Unit {0})
remember project_id d =
    if is_no_action d.action
    then upsert_decision_memory (record {
      project_id = project_id;
      fingerprint = d.fingerprint;
      prompt = d.prompt;
      answer = d.answer;
      decision_id = d.id;
    })
    else pure tt

-- AnswerDecision
unfoldable pub decide : Actor → Text → Text → W Decision
decide a id answer = with_result (check_text answer true 2000) >>= λ ans. get_decision id >>= λ d.
    open_project d.project_id >> member a d.project_id true >>= λ m. the_time >>= λ now.
    answer_decision id ans (member_id_of m) now >>= λ out.
    remember d.project_id out
    >> log_activity d.project_id (who_of m a) (bytes "decision") (bytes "answered") d.id
        ((bytes "prompt", str (truncate d.prompt 300)) ∷ (bytes "answer", str ans) ∷ [])
    >> on_decision out (who_of m a)
    >> pure out
