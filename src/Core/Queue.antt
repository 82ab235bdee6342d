-- ===== src/Core/Queue.antt =====
-- internal/core/queue.go and runs.go: queueing Runs, claiming them and keeping the claim alive.
pub mod Stranger
pub mod Limit
use buildbee.Base.{
  ℕ, ◌+◌, ◌*◌, Bool, true, false, not, ◌&&◌, ◌||◌, Option, none, some, List, [], ◌∷◌, ◌++◌, first,
  exists, is_empty, ltb, ◌==◌, if◌then◌else◌,
}
use buildbee.Base.Result.{Error, not_found, conflict, invalid, Result, ok, err}
use buildbee.Text.{Text, bytes, text_eq}
use buildbee.Models.Status.{
  RunStatus, RunKind, pending, running, succeeded, merge, review, build, status, same_kind,
  same_status, run_status_word, run_kind_word, run_kind_for_role,
}
use buildbee.Models.Records.{
  Time, Value, str, num, Payload, Project, Member, Task, Run, Handoff, no_verdict,
}
use buildbee.Store.{
  Work, W, pure, fail, found, gets, changes_work, new_id, ◌>>=◌, ◌>>◌, refuse, on_nil, or_none,
}
use buildbee.Store.Runs.{claim_run, project_load, extend_lease, insert_run, list_runs}
use buildbee.Store.Tables.{
  get_task, get_project, get_member, member_for_person, list_members, list_handoffs,
}
use buildbee.Core.Presence.{Presence, still_there}
use buildbee.Core.Work.{Actor, Who, named, who_of, the_time, log_activity, run_event, member}
use buildbee.Core.Thread.{conversation}
use buildbee.Core.Prompt.{BotWork, run_prompt}

-- LeaseTTL, in nanoseconds
abbrev pub lease_ttl : ℕ
lease_ttl = 60 * 1000000000

abbrev pub on_status : RunStatus → Text → Payload
on_status s detail = (bytes "status", str (run_status_word s)) ∷ (bytes "detail", str detail) ∷ []

abbrev same_bot : Option Member → Text → Bool
same_bot none id = false
same_bot (some b) id = text_eq id b.id

abbrev named_bot : List Member → Text → Text
named_bot members id = elim (first (λ m. text_eq m.id id) members) [
  | none ↦ bytes "another Bot"
  | some m ↦ m.display_name
]

abbrev passed_over : List Text → Run → Bool
passed_over seen r =
    is_empty r.branch
    || same_kind r.kind merge
    || is_empty r.bot_member_id
    || exists (text_eq r.bot_member_id) seen

-- The first loop of `branchesFor`, `seen` being the Bots met so far.
unfoldable pub pushed_branches : Option Member → List Member → List Text → List Run → BotWork
unfolding first exists
pushed_branches bot members seen [] = record { mine = []; others = [] }
pushed_branches bot members seen (r ∷ rs) =
    let skip = passed_over seen r in
    let rest = pushed_branches bot members (if skip then seen else r.bot_member_id ∷ seen) rs in
    if skip
    then rest
    else if same_bot bot r.bot_member_id
    then record rest { mine = r.branch }
    else record rest {
      others = (named_bot members r.bot_member_id ++ bytes " on " ++ r.branch) ∷ rest.others;
    }

abbrev built_branch : Run → Bool
built_branch r = same_kind r.kind build && same_status r.status succeeded && not (is_empty r.branch)

abbrev branch_or : Option Run → Text → Text
branch_or none b = b
branch_or (some r) b = r.branch

-- The branch that a review of the Task works on.
unfoldable pub reviewed_branch : Task → List Run → Text
unfolding first
reviewed_branch task runs = branch_or (first built_branch runs) task.branch

-- branchesFor
unfoldable pub branches_for : Task → Option Member → RunKind → W BotWork
branches_for task bot kind = list_runs task.id >>= λ runs.
    list_members task.project_id >>= λ members.
    let out = pushed_branches bot members [] runs in
    pure (
      if same_kind kind review && is_empty out.mine
      then record out { mine = reviewed_branch task runs }
      else out)

abbrev kind_or : Option RunKind → Option Member → RunKind
kind_or (some k) bot = k
kind_or none none = build
kind_or none (some b) = run_kind_for_role b.role

abbrev bot_id_of : Option Member → Text
bot_id_of none = []
bot_id_of (some b) = b.id

abbrev agent_or : Text → Option Member → Text
agent_or agent none = agent
agent_or agent (some b) = if is_empty agent then b.agent else agent

abbrev pub mark_queued : W (Unit {0})
mark_queued = changes_work (λ w. record w { queued = true })

abbrev pub mark_load : W (Unit {0})
mark_load = changes_work (λ w. record w { load = true })

abbrev queued_run : Text → Task → Text → RunKind → Text → Text → Text → ℕ → Run
queued_run id task bot_id kind agent prompt commit now = record {
  id = id;
  task_id = task.id;
  project_id = task.project_id;
  bot_member_id = bot_id;
  status = pending;
  kind = kind;
  detail = bytes "queued";
  summary = [];
  branch = [];
  commit = commit;
  pr_url = [];
  verdict = no_verdict;
  agent = agent;
  prompt = prompt;
  worker = [];
  lease_until = none;
  attempts = 0;
  next_seq = 0;
  created_at = now;
  updated_at = now;
  started_at = none;
  finished_at = none;
}

-- createRun
unfoldable pub create_run : Project → Task → Option Member → Text → Option RunKind → Who → W Run
create_run proj task bot agent kind by = list_handoffs task.id >>= λ notes.
    conversation task bot >>= λ convo.
    let k = kind_or kind bot in
    branches_for task bot k >>= λ bw. new_id >>= λ id. the_time >>= λ now.
    let r =
      queued_run id task (bot_id_of bot) k (agent_or agent bot)
        (run_prompt (some proj) bot task notes convo bw k) [] now in
    insert_run r
    >> mark_queued
    >> run_event r.id status (on_status r.status r.detail)
    >> log_activity task.project_id by (bytes "run") (bytes "created") r.id (
        (bytes "task_id", str task.id)
        ∷ (bytes "bot_member_id", str r.bot_member_id)
        ∷ (bytes "agent", str r.agent)
        ∷ (bytes "kind", str (run_kind_word r.kind))
        ∷ [])
    >> pure r

-- queueMerge
unfoldable pub queue_merge : Task → Who → W (Unit {0})
queue_merge task by = new_id >>= λ id. the_time >>= λ now.
    let r = queued_run id task [] merge [] [] task.head_commit now in
    insert_run r
    >> mark_queued
    >> run_event r.id status (on_status r.status r.detail)
    >> log_activity task.project_id by (bytes "run") (bytes "created") r.id (
        (bytes "task_id", str task.id)
        ∷ (bytes "kind", str (run_kind_word r.kind))
        ∷ (bytes "branch", str task.branch)
        ∷ (bytes "commit", str r.commit)
        ∷ [])

-- ownRun
unfoldable pub own_run : Actor → Run → W (Unit {0})
own_run a r = refuse (not (is_empty a.agent || text_eq r.worker a.agent)) conflict

-- The end of `runActor`. `member` may fail: what it then points to is a Member with no name.
abbrev bystander : Result (Option Member × Work) → Actor → Who
bystander (ok r) a = who_of r.0 a
bystander (err e) a = named []

-- Whom `runActor` names.
unfoldable pub acting : Actor → Run → Work → Who
acting a r w =
    elim (if not (is_empty a.agent) && not (is_empty r.bot_member_id)
      then get_member r.bot_member_id w
      else err not_found) [
        | ok bot ↦ who_of (some bot.0) a
        | err e ↦ bystander (member a r.project_id false w) a
      ]

-- runActor
unfoldable pub run_actor : Actor → Run → W Who
run_actor a r = gets (acting a r)

-- models.Claim, less the Task's files
pub record Claim : Type 0 where
  pub run : Run
  pub task : Task
  pub project : Project
  pub bot : Option Member
  pub notes : List Handoff
  pub branch : Text
  pub seq : ℕ

abbrev bot_of_run : Run → W (Option Member)
bot_of_run r =
    if is_empty r.bot_member_id
    then pure none
    else get_member r.bot_member_id >>= λ m. pure (some m)

-- claimOnce from the Task on, for a Run that its Project has room for.
unfoldable pub fill_claim : Actor → Run → W Claim
fill_claim a r = get_task r.task_id >>= λ task. get_project r.project_id >>= λ proj.
    list_handoffs r.task_id >>= λ notes. bot_of_run r >>= λ bot.
    branches_for task bot r.kind >>= λ bw.
    run_event r.id status (on_status r.status (bytes "claimed by " ++ a.agent)) >>= λ ev.
    run_actor a r >>= λ by.
    log_activity r.project_id by (bytes "run") (bytes "claimed") r.id (
      (bytes "task_id", str r.task_id)
      ∷ (bytes "worker", str a.agent)
      ∷ (bytes "attempt", num r.attempts)
      ∷ [])
    >> pure (record {
      run = r;
      task = task;
      project = proj;
      bot = bot;
      notes = notes;
      branch = bw.mine;
      seq = ev.seq;
    })

abbrev pub over_limit : ℕ × ℕ → Bool
over_limit load = ltb 0 load.0 && ltb load.0 load.1

-- At the limit the transaction is rolled back to `w`, and there is no Run.
unfoldable pub within_limit :
    Work → Actor → Run → Result ((ℕ × ℕ) × Work) → Result (Option Claim × Work)
within_limit w a r (err e) = err e
within_limit w a r (ok load) =
    if over_limit load.0 then ok (none, w) else (fill_claim a r >>= λ c. pure (some c)) load.1

-- No Run to claim is no error.
unfoldable pub on_claimed : Work → Actor → Result (Run × Work) → Result (Option Claim × Work)
on_claimed w a (err not_found) = ok (none, w)
on_claimed w a (err e) = err e
on_claimed w a (ok r) = within_limit w a r.0 ((mark_load >> project_load r.0.project_id) r.1)

-- claimOnce
unfoldable pub claim_once : Actor → Text → W (Option Claim)
claim_once a ai w = on_claimed w a (claim_run a.agent a.bot_id ai w.now (w.now + lease_ttl) w)

-- The transaction of Heartbeat, and the guard before it.
unfoldable pub beat : Actor → Text → W Run
beat a run_id =
    refuse (is_empty a.agent) invalid
    >> (the_time >>= λ now. extend_lease run_id a.agent (now + lease_ttl))

-- Heartbeat, in the Server process whose presence is `p`, where `at` is the time: the Bot's agent is
-- still there, whether or not the lease can be renewed.
unfoldable pub heartbeat : Actor → Text → Time → Presence → Work → Presence × Result (Run × Work)
heartbeat a run_id at p w =
    (if is_empty a.agent then p else still_there a.bot_id at p, beat a run_id w)
