-- ===== src/Core/Grows/Projects.antt =====
-- What the operations on CI checks, Members, Channels and Issues keep.
use buildbee.Base.{refl, ℕ, Bool, true, false, Option, List, [], ◌∷◌}
use buildbee.Text.{Text}
use buildbee.Models.Records.{Time, Member, Task, Run, Pipeline}
use buildbee.Store.Keeps.{Keeps, Keeps-pure, Keeps-bind, Keeps-gets, Keeps-if, monad_rules}
use buildbee.Store.Keeps.Runs.Stops.{Keeps-stop_bot_runs}
use buildbee.Store.Keeps.Tables.{read_rules, Keeps-set_st}
use buildbee.Store.Keeps.Chat.{chat_rules}
use buildbee.Store.Keeps.Checks.{check_rules}
use buildbee.Store.Tables.{leave_project}
use buildbee.Core.Work.{Actor, Who}
use buildbee.Core.Ci.{NewPipeline, pipeline_recorded, record_pipeline, change_pipeline}
use buildbee.Core.Members.{
  join_project, leave, run_stopped, after_removal, take_out, create_channel, ChannelPatch,
  edit_channel,
}
use buildbee.Core.Routines.Issues.{Issue, upsert_issue, upsert_all, sync_issues, issue_webhook}
use buildbee.Core.Grows.{work_rules, Keeps-require_member}
use buildbee.Core.Grows.Moves.{Keeps-on_pipeline, Keeps-run_ended}

Keeps-pipeline_recorded :
    (a : Actor) (t : Task) (p : Pipeline) (action : Text) → Keeps (pipeline_recorded a t p action)
unfolding pipeline_recorded
Keeps-pipeline_recorded a t p action = search (monad_rules, work_rules, Keeps-on_pipeline) depth 60

pub Keeps-record_pipeline :
    (a : Actor) (id : Text) (new : NewPipeline) → Keeps (record_pipeline a id new)
unfolding record_pipeline
Keeps-record_pipeline a id new =
    search (monad_rules, read_rules, check_rules, Keeps-pipeline_recorded) depth 60

pub Keeps-change_pipeline : (a : Actor) (id s url : Text) → Keeps (change_pipeline a id s url)
unfolding change_pipeline
Keeps-change_pipeline a id s url =
    search (monad_rules, read_rules, check_rules, Keeps-pipeline_recorded) depth 60

Keeps-leave_project : (b : Bool) (id : Text) (at : Time) → Keeps (leave_project b id at)
unfolding leave_project
Keeps-leave_project b id at = Keeps-bind _ _ (Keeps-gets _) (λ c.
    Keeps-if c _ _
      (Keeps-bind _ _ (Keeps-set_st _ (λ _. (refl, refl, refl, refl))) (λ _. Keeps-pure true))
      (Keeps-pure false))

pub Keeps-join_project : (a : Actor) (p : Text) → Keeps (join_project a p)
unfolding join_project
Keeps-join_project a p = search (monad_rules, work_rules, Keeps-require_member) depth 40

pub Keeps-leave : (a : Actor) (p : Text) → Keeps (leave a p)
unfolding leave
Keeps-leave a p = search (monad_rules, read_rules, work_rules, Keeps-leave_project) depth 60

pub Keeps-run_stopped : (a : Actor) (r : Run) → Keeps (run_stopped a r)
unfolding run_stopped
Keeps-run_stopped a r = search (monad_rules, work_rules, Keeps-run_ended) depth 40

Keeps-after_removal : (a : Actor) (by : Option Member) (m : Member) → Keeps (after_removal a by m)
unfolding after_removal
Keeps-after_removal a by m =
    search (monad_rules, work_rules, Keeps-stop_bot_runs, Keeps-run_stopped) depth 60

pub Keeps-take_out : (a : Actor) (id : Text) → Keeps (take_out a id)
unfolding take_out
Keeps-take_out a id =
    search (monad_rules, read_rules, work_rules, Keeps-leave_project, Keeps-after_removal) depth 60

pub Keeps-create_channel : (a : Actor) (p name : Text) → Keeps (create_channel a p name)
unfolding create_channel
Keeps-create_channel a p name = search (monad_rules, chat_rules, work_rules) depth 60

pub Keeps-edit_channel :
    (a : Actor) (id : Text) (patch : ChannelPatch) → Keeps (edit_channel a id patch)
unfolding edit_channel
Keeps-edit_channel a id patch = search (monad_rules, chat_rules, work_rules) depth 60

Keeps-upsert_issue :
    (p : Text) (by : Who) (n : ℕ) (title url : Text) → Keeps (upsert_issue p by n title url)
unfolding upsert_issue
Keeps-upsert_issue p by n title url = search (monad_rules, chat_rules, work_rules) depth 40

Keeps-upsert_all : (p : Text) (by : Who) (is : List Issue) → Keeps (upsert_all p by is)
unfolding upsert_all
Keeps-upsert_all p by [] = Keeps-pure []
Keeps-upsert_all p by (i ∷ is) =
    Keeps-bind _ _ (Keeps-upsert_issue p by _ _ _)
      (λ t. Keeps-bind _ _ (Keeps-upsert_all p by is) (λ ts. Keeps-pure (t ∷ ts)))

pub Keeps-sync_issues : (a : Actor) (p : Text) (is : List Issue) → Keeps (sync_issues a p is)
unfolding sync_issues
Keeps-sync_issues a p is = search (monad_rules, work_rules, Keeps-upsert_all) depth 40

pub Keeps-issue_webhook :
    (p : Text) (n : ℕ) (title url : Text) → Keeps (issue_webhook p n title url)
unfolding issue_webhook
Keeps-issue_webhook p n title url = search (monad_rules, work_rules, Keeps-upsert_issue) depth 40
