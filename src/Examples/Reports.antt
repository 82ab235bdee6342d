-- ===== src/Examples/Reports.antt =====
-- Reports, heartbeats, histories and CI at a concrete database.
use buildbee.Core.Pilot.Checks.Approval.{IsLast, IsCurrent, approved_lem}
use buildbee.Core.Pilot.Checks.{approved, approves, reviewed}
use buildbee.Models.Status.{review}
use buildbee.Models.Records.{approve, Task}
use buildbee.Store.Runs.{newer}
use buildbee.Base.{keep, first}
use buildbee.Base.Result.{◌and_then◌, deny}
use buildbee.Base.Sort.{sort_by, insert_by}
use buildbee.Core.Decide.{run_ended}
use buildbee.Core.Pilot.Advance.{advance, on_failure}
use buildbee.Core.Queue.{own_run, acting, run_actor}
use buildbee.Core.Report.{
  report_run, check_report, check_move, after_report, apply_report, announce,
}
use buildbee.Core.Thread.{bot_of, voice, note}
use buildbee.Core.Work.{run_event, emit, member, who_of, log_activity, notify_people}
use buildbee.Models.Status.{
  parse_run_status, match_word, terminal, can_become, same_status, same_kind,
}
use buildbee.Store.{
  with_result, ◌>>=◌, found, refuse, gets, changes_work, each, new_id, or_none, on_nil, fail, pure,
  W, ◌>>◌, attempt,
}
use buildbee.Store.Inserts.{oldest}
use buildbee.Store.Rows.{find_row, update_row, update_where}
use buildbee.Store.Runs.{get_run, update_run, change_run, run_columns, append_run_event, text_leb}
use buildbee.Store.Tables.{
  close_run_decisions, get_member, member_for_person, insert_activity, get_task, get_project,
  list_members,
}
use buildbee.Text.{
  text_eq, trim_space, drop_spaces, space_width, space_width_back, check_text, rune_count,
  valid_commit, all_hex,
}
use buildbee.Base.{ℕ, ◌+◌, ◌≡◌, refl, true, false, none, some, List, [], ◌∷◌, All, is_empty}
use buildbee.Base.Result.{ok, err, Result}
use buildbee.Text.{Text, bytes}
use buildbee.Models.Status.{canceled, pipeline_success, pipeline_failure, PipelineStatus}
use buildbee.Models.Records.{Run, Pipeline}
use buildbee.Store.{Work, Db}
use buildbee.Store.Rows.Keyed.{IsKeyed}
use buildbee.Store.Runs.{run_key, set_runs, extend_lease}
use buildbee.Store.Grows.{StoredAs, Reaches, outcome}
use buildbee.Store.Keeps.{returned}
use buildbee.Store.Keeps.Runs.Leases.{renew}
use buildbee.Store.Tables.{in_project}
use buildbee.Core.Work.{Actor, named}
use buildbee.Core.Queue.{heartbeat, beat, lease_ttl}
use buildbee.Core.Queue.Stranger.{acting-stranger}
use buildbee.Core.Report.{RunReport, Checked}
use buildbee.Core.Report.Access.{IsSeen, heartbeat_lem, report_run-person}
use buildbee.Core.Grows.Reports.{IsAllowed, report_run_lem}
use buildbee.Core.History.{Steps, calls, no_step, then_step, history-lifecycle, history-finished}
use buildbee.Core.Calls.{call, beats, reports}
use buildbee.Core.Pilot.Checks.{counts, ci_state, latest_checks, keep_latest}
use buildbee.Core.Presence.{Presence, saw_agent, still_there, new_presence}
use buildbee.Core.Pilot.Checks.Green.{PassedAs, ci_state-success}
use buildbee.Examples.Sample.{task, builder, going_run, done_run, db, start, agent}

abbrev going : Text
going = bytes "r2"

abbrev later_lease : Run → Run
later_lease x = record x { lease_until = some (50 + lease_ttl) }

abbrev after_beat : Work
after_beat = set_runs (update_row run_key going later_lease) start

abbrev seen_before : Presence
seen_before = saw_agent builder (bytes "w") (bytes "claude") [] 1 40 new_presence

abbrev seen_now : Presence
seen_now = still_there (bytes "b") 51 seen_before

beat_returns : beat agent going start ≡ returned (later_lease going_run) after_beat
unfolding beat ◌>>=◌ refuse gets extend_lease get_run found text_eq same_status change_run
beat_returns = refl

renewed :
    heartbeat agent going 51 seen_before start
    ≡ (seen_now, returned (later_lease going_run) after_beat)
unfolding heartbeat beat ◌>>=◌ refuse gets extend_lease get_run found text_eq same_status change_run
renewed = refl

-- A person who is no Member of the Project.
abbrev person : Actor
person = record { person_id = bytes "x"; agent = []; bot_id = []; name = bytes "Ann" }

abbrev cancel : RunReport
cancel = record {
  status = bytes "canceled";
  detail = [];
  summary = [];
  branch = [];
  commit = [];
  pr_url = [];
}

abbrev fails : RunReport
fails = record {
  status = bytes "failed";
  detail = bytes "out of memory";
  summary = [];
  branch = [];
  commit = [];
  pr_url = [];
}

abbrev value_of : Result (Run × Work) → Run × Work
value_of (ok r) = r
value_of (err e) = (going_run, start)

abbrev canceled_one : Run × Work
canceled_one = value_of (report_run person going cancel start)

cancel_returns : report_run person going cancel start ≡ returned canceled_one.0 canceled_one.1
unfolding report_run check_report ◌and_then◌ deny parse_run_status match_word text_eq trim_space
    drop_spaces space_width space_width_back check_text rune_count valid_commit all_hex with_result
    ◌>>=◌ get_run found find_row check_move own_run refuse terminal can_become same_status same_kind
    gets after_report apply_report update_run change_run run_columns update_row changes_work
    run_ended close_run_decisions keep update_where each run_event append_run_event new_id emit
    announce acting run_actor get_member member member_for_person first or_none on_nil fail pure
    who_of log_activity insert_activity advance get_task get_project bot_of voice list_members
    sort_by insert_by oldest text_leb attempt on_failure note notify_people
cancel_returns = refl

-- The transaction after the heartbeat.
abbrev second : Work
second = record start { st = after_beat.st; now = 60 }

abbrev failed_one : Run × Work
failed_one = value_of (report_run agent going fails second)

fail_returns : report_run agent going fails second ≡ returned failed_one.0 failed_one.1
unfolding report_run check_report ◌and_then◌ deny parse_run_status match_word text_eq trim_space
    drop_spaces space_width space_width_back check_text rune_count valid_commit all_hex with_result
    ◌>>=◌ get_run found find_row check_move own_run refuse terminal can_become same_status same_kind
    gets after_report apply_report update_run change_run run_columns update_row changes_work
    run_ended close_run_decisions keep update_where each run_event append_run_event new_id emit
    announce acting run_actor get_member member member_for_person first or_none on_nil fail pure
    who_of log_activity insert_activity advance get_task get_project bot_of voice list_members
    sort_by insert_by oldest text_leb attempt on_failure note notify_people
fail_returns = refl

abbrev end_db : Db
end_db = failed_one.1.st

quiet :
    {A : Type 0} (m : W A) (w w' : Work) (r : A)
    → m w ≡ returned r w'
    → (m >> pure tt) w ≡ returned tt w'
unfolding ◌>>=◌ pure
quiet m w w' r h = rw (h, ◌>>=◌) refl

beat_call : call (beats agent going) start ≡ returned tt after_beat
unfolding call
beat_call = quiet _ start after_beat (later_lease going_run) beat_returns

fail_call : call (reports agent going fails) second ≡ returned tt failed_one.1
unfolding call
fail_call = quiet _ second failed_one.1 failed_one.0 fail_returns

history_of_two : Steps db end_db
history_of_two =
    then_step db after_beat.st end_db
      (then_step db db after_beat.st (no_step db)
        (calls (beats agent going) start after_beat tt beat_call))
      (calls (reports agent going fails) second failed_one.1 tt fail_call)

db-IsKeyed : IsKeyed run_key db.runs
unfolding find_row text_eq
db-IsKeyed = (refl, (refl, (refl, tt)))

stored_going : StoredAs going db.runs going_run
unfolding find_row text_eq
stored_going = refl

abbrev done_id : Text
done_id = bytes "r3"

stored_done : StoredAs done_id db.runs done_run
unfolding find_row text_eq
stored_done = refl

done_is_final : terminal done_run.status ≡ true
unfolding terminal
done_is_final = refl

finished_example : (new : Run) × StoredAs done_id end_db.runs new × (outcome new ≡ outcome done_run)
finished_example =
    history-finished db end_db done_id done_run db-IsKeyed history_of_two stored_done done_is_final

lifecycle_example :
    (new : Run) × StoredAs going end_db.runs new × Reaches going_run.status new.status
lifecycle_example =
    history-lifecycle db end_db going going_run db-IsKeyed history_of_two stored_going

report_example :
    (c : Checked) × (old : Run) × (check_report agent fails ≡ ok c)
    × StoredAs going second.st.runs old
    × IsAllowed agent c.next old
    × (failed_one.0 ≡ apply_report c second.now old)
report_example = report_run_lem agent going fails second failed_one.1 failed_one.0 fail_returns

person_example : canceled_one.0.status ≡ canceled
person_example =
    report_run-person person going cancel start canceled_one.1 canceled_one.0 refl cancel_returns

heartbeat_example :
    (is_empty agent.agent ≡ false)
    × (old : Run) × StoredAs going start.st.runs old
    × (text_eq old.worker agent.agent ≡ true)
    × (after_beat ≡ renew going (start.now + lease_ttl) old start)
    × IsSeen (bytes "b") 51 seen_before seen_now
heartbeat_example =
    heartbeat_lem agent going 51 seen_before seen_now start after_beat (later_lease going_run)
      renewed

no_such_member : first (in_project going_run.project_id person.person_id) start.st.members ≡ none
unfolding first text_eq
no_such_member = refl

stranger_example : acting person going_run start ≡ named []
stranger_example = acting-stranger person going_run start refl refl no_such_member

abbrev check : Text → PipelineStatus → ℕ → Pipeline
check name status at = record {
  id = name;
  project_id = bytes "p";
  task_id = bytes "t";
  artifact_id = [];
  name = name;
  status = status;
  commit = [];
  external_url = [];
  created_at = at;
  updated_at = at;
}

-- A test that failed, and passed when it was run again.
abbrev checks : List Pipeline
checks =
    check (bytes "test") pipeline_success 9
    ∷ check (bytes "lint") pipeline_success 8
    ∷ check (bytes "test") pipeline_failure 7
    ∷ []

ci_passed : (ci_state checks task none).0 ≡ pipeline_success
unfolding ci_state latest_checks counts keep_latest text_eq
ci_passed = refl

green_example : All (λ p. counts task none p ≡ true → PassedAs checks p) checks
green_example = ci_state-success checks task none ci_passed

abbrev a_build : Run
a_build = record done_run { branch = bytes "cache" }

abbrev a_review : Run
a_review = record done_run { id = bytes "r4"; kind = review; verdict = approve; created_at = 2 }

abbrev pushed_task : Task
pushed_task = record task { branch = bytes "cache" }

is_approved : approved (sort_by newer (a_build ∷ a_review ∷ [])) pushed_task ≡ true
unfolding approved sort_by same_status same_kind reviewed
is_approved = refl

approved_example :
    (r : Run) × IsLast review (a_build ∷ a_review ∷ []) r
    × (approves r.verdict ≡ true)
    × IsCurrent (a_build ∷ a_review ∷ []) pushed_task r
approved_example = approved_lem (a_build ∷ a_review ∷ []) pushed_task is_approved
