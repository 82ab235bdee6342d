-- ===== src/Core/Grows/Moves.antt =====
-- What autopilot's moves and the Decisions keep.
use buildbee.Base.{◌≡◌, refl, Bool, Option, List}
use buildbee.Text.{Text}
use buildbee.Models.Status.{
  PipelineStatus, pipeline_pending, pipeline_success, pipeline_failure, RunStatus, pending, running,
  succeeded, failed, canceled, RunKind, plan, build, review, merge,
}
use buildbee.Models.Records.{
  merge_auto, merge_approval, Verdict, approve, changes, no_verdict, Member, Task, Run, Project,
  Decision, Pipeline, MergePolicy,
}
use buildbee.Store.Keeps.{Keeps, Keeps-gets, Keeps-pure, Keeps-changes, monad_rules}
use buildbee.Store.Keeps.Runs.{run_rules}
use buildbee.Store.Keeps.Tables.{read_rules, table_rules}
use buildbee.Core.Work.{Actor, Who}
use buildbee.Core.Queue.{run_actor}
use buildbee.Core.Decide.{NewDecision, note_decision, open_decision, run_ended}
use buildbee.Core.Pilot.Handoff.{handoff, pass_on, set_last_run}
use buildbee.Core.Pilot.Moves.{
  ask_to_merge, send_back, merge_now, on_ci, try_merge, react, on_pipeline, on_decision,
}
use buildbee.Core.Pilot.Advance.{
  close_handoffs_to, on_failure, on_merged, record_push, on_verdict, next_step, on_success, advance,
}
use buildbee.Core.Grows.{work_rules, flag_Grows}

Keeps-set_last_run : (r : Option Run) → Keeps (set_last_run r)
Keeps-set_last_run r = Keeps-changes _ (λ w. flag_Grows w w.queued w.load r)

pub Keeps-run_actor : (a : Actor) (r : Run) → Keeps (run_actor a r)
unfolding run_actor
Keeps-run_actor a r = Keeps-gets _

Keeps-note_decision : (d : Decision) → Keeps (note_decision d)
unfolding note_decision
Keeps-note_decision d = search (monad_rules, read_rules, work_rules) depth 40

pub Keeps-open_decision :
    (p : Text) (by : Who) (asker : Option Member) (n : NewDecision)
    → Keeps (open_decision p by asker n)
unfolding open_decision
Keeps-open_decision p by asker n =
    search (monad_rules, read_rules, table_rules, work_rules, Keeps-note_decision) depth 60

pub Keeps-run_ended : (a : Actor) (r : Run) → Keeps (run_ended a r)
unfolding run_ended
Keeps-run_ended a r = search (monad_rules, table_rules, work_rules, Keeps-run_actor) depth 40

pub Keeps-handoff :
    (p : Project) (t : Task) (from to : Member) (a : Actor) (note : Text) (b : Bool)
    → Keeps (handoff p t from to a note b)
unfolding handoff
Keeps-handoff p t from to a note b =
    search (monad_rules, table_rules, work_rules, Keeps-set_last_run) depth 60

Keeps-pass_on : (p : Project) (t : Task) (from to note : Text) → Keeps (pass_on p t from to note)
unfolding pass_on
Keeps-pass_on p t from to note = search (monad_rules, read_rules, Keeps-handoff) depth 40

Keeps-ask_to_merge :
    (p : Project) (t : Task) (prompt : Text) (options : List Text) (rec : Text)
    → Keeps (ask_to_merge p t prompt options rec)
unfolding ask_to_merge
Keeps-ask_to_merge p t prompt options rec =
    search (monad_rules, read_rules, Keeps-open_decision) depth 40

Keeps-send_back : (p : Project) (t : Task) (from why : Text) → Keeps (send_back p t from why)
unfolding send_back
Keeps-send_back p t from why =
    search (monad_rules, run_rules, Keeps-pass_on, Keeps-ask_to_merge) depth 40

Keeps-merge_now :
    (p : Project) (t : Task) (m : MergePolicy) → p.merge_policy ≡ m → Keeps (merge_now p t)
unfolding merge_now
Keeps-merge_now p t merge_auto e = rw (e, merge_now) (search (work_rules) depth 40)
Keeps-merge_now p t merge_approval e = rw (e, merge_now) (search (Keeps-ask_to_merge) depth 40)

Keeps-on_ci : (p : Project) (t : Task) (ci : PipelineStatus × Text) → Keeps (on_ci p t ci)
unfolding on_ci
Keeps-on_ci p t (pipeline_failure, s) = Keeps-send_back p t _ _
Keeps-on_ci p t (pipeline_pending, s) = search (work_rules)
Keeps-on_ci p t (pipeline_success, s) = Keeps-merge_now p t p.merge_policy refl

Keeps-try_merge : (p : Project) (t : Task) → Keeps (try_merge p t)
unfolding try_merge
Keeps-try_merge p t = search (monad_rules, read_rules, run_rules, Keeps-on_ci) depth 40

Keeps-react :
    (p : Project) (t : Task) (c : Pipeline) (s : PipelineStatus)
    → c.status ≡ s
    → Keeps (react p t c)
unfolding react
Keeps-react p t c pipeline_failure e = rw (e, react) (Keeps-send_back p t _ _)
Keeps-react p t c pipeline_success e = rw (e, react) (Keeps-try_merge p t)
Keeps-react p t c pipeline_pending e = rw (e, react) (Keeps-pure tt)

pub Keeps-on_pipeline : (t : Task) (c : Pipeline) → Keeps (on_pipeline t c)
unfolding on_pipeline
Keeps-on_pipeline t c =
    search (monad_rules, read_rules, λ (p : Project). Keeps-react p t c c.status refl) depth 40

pub Keeps-on_decision : (d : Decision) (by : Who) → Keeps (on_decision d by)
unfolding on_decision
Keeps-on_decision d by = search (monad_rules, read_rules, run_rules, work_rules) depth 60

Keeps-close_handoffs_to : (t m : Text) → Keeps (close_handoffs_to t m)
unfolding close_handoffs_to
Keeps-close_handoffs_to t m = search (monad_rules, read_rules, table_rules) depth 40

Keeps-on_failure :
    (p : Project) (t : Task) (m : Option Member) (r : Run) (s : RunStatus)
    → r.status ≡ s
    → Keeps (on_failure p t m r)
unfolding on_failure
Keeps-on_failure p t m r pending e = rw (e, on_failure) (Keeps-pure tt)
Keeps-on_failure p t m r running e = rw (e, on_failure) (Keeps-pure tt)
Keeps-on_failure p t m r succeeded e = rw (e, on_failure) (Keeps-pure tt)
Keeps-on_failure p t m r failed e = rw (e, on_failure) (search (monad_rules, work_rules) depth 40)
Keeps-on_failure p t m r canceled e = rw (e, on_failure) (Keeps-pure tt)

Keeps-on_merged : (p : Project) (t : Task) → Keeps (on_merged p t)
unfolding on_merged
Keeps-on_merged p t = search (monad_rules, table_rules, work_rules) depth 40

Keeps-record_push : (p : Project) (r : Run) (t : Task) → Keeps (record_push p r t)
unfolding record_push
Keeps-record_push p r t = search (monad_rules, table_rules) depth 40

Keeps-on_verdict :
    (p : Project) (t : Task) (r : Run) (v : Verdict) → r.verdict ≡ v → Keeps (on_verdict p t r)
unfolding on_verdict
Keeps-on_verdict p t r approve e = rw (e, on_verdict) (Keeps-try_merge p t)
Keeps-on_verdict p t r changes e = rw (e, on_verdict) (Keeps-send_back p t _ _)
Keeps-on_verdict p t r no_verdict e = rw (e, on_verdict) (search (work_rules))

Keeps-next_step :
    (p : Project) (t : Task) (r : Run) (k : RunKind) → r.kind ≡ k → Keeps (next_step p t r)
unfolding next_step
Keeps-next_step p t r plan e = rw (e, next_step) (Keeps-pass_on p t _ _ _)
Keeps-next_step p t r build e =
    rw (e, next_step) (search (monad_rules, work_rules, Keeps-pass_on) depth 40)
Keeps-next_step p t r review e = rw (e, next_step) (Keeps-on_verdict p t r r.verdict refl)
Keeps-next_step p t r merge e = rw (e, next_step) (Keeps-pure tt)

Keeps-on_success :
    (p : Project) (t : Task) (m : Option Member) (r : Run) → Keeps (on_success p t m r)
unfolding on_success
Keeps-on_success p t m r =
    search
      (
        monad_rules,
        work_rules,
        Keeps-close_handoffs_to,
        Keeps-on_merged,
        Keeps-record_push,
        λ (x : Task). Keeps-next_step p x r r.kind refl,
      )
      depth 60

pub Keeps-advance : (r : Run) → Keeps (advance r)
unfolding advance
Keeps-advance r =
    search
      (
        monad_rules,
        read_rules,
        work_rules,
        Keeps-on_success,
        λ (p : Project) (t : Task) (m : Option Member). Keeps-on_failure p t m r r.status refl,
      )
      depth 40
