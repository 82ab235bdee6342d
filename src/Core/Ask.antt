-- ===== src/Core/Ask.antt =====
-- internal/core/decisions.go: questions that people and agents ask.
use buildbee.Base.{
  Bool, true, false, not, ◌&&◌, ◌||◌, Option, none, some, List, [], ◌∷◌, ◌++◌, reverse, exists,
  length, is_empty, ltb, if◌then◌else◌,
}
use buildbee.Base.Result.{invalid, conflict, Result, ok, ◌and_then◌, deny}
use buildbee.Text.{Text, bytes, text_eq, trim_space, check_text, truncate}
use buildbee.Models.Status.{running, same_status}
use buildbee.Models.Records.{Member, Run, Decision, no_action, permission_action}
use buildbee.Store.{W, pure, fail, with_result, ◌>>=◌, ◌>>◌, refuse, on_nil, attempt}
use buildbee.Store.Runs.{get_run}
use buildbee.Store.Tables.{get_task, get_member}
use buildbee.Core.Work.{Actor, who_of, member, open_project}
use buildbee.Core.Decide.{NewDecision, open_decision}
use buildbee.Core.Queue.{run_actor}
use buildbee.Core.Tasks.{same_project}

-- core.NewDecision, what CreateDecision is given
pub record Question : Type 0 where
  pub prompt : Text
  pub options : List Text
  pub recommendation : Text
  pub assignee_member_id : Text
  pub task_id : Text

-- The loop over the options: trimmed, the empty ones left out.
unfoldable pub clean_options : List Text → Result (List Text)
clean_options [] = ok []
clean_options (o ∷ rest) = check_text o false 200 and_then λ t.
    clean_options rest and_then λ ts. ok (if is_empty t then ts else t ∷ ts)

-- What CreateDecision checks before its transaction.
unfoldable pub check_question : Question → Result NewDecision
check_question q = check_text q.prompt true 2000 and_then λ prompt.
    check_text q.recommendation false 500 and_then λ rec.
    clean_options q.options and_then λ options. deny (ltb 20 (length options)) invalid and_then λ _.
    ok (record {
      prompt = prompt;
      recommendation = rec;
      assignee = q.assignee_member_id;
      task_id = q.task_id;
      options = options;
      action = no_action;
      commit = [];
      run_id = [];
    })

abbrev task_here : Text → Text → W (Unit {0})
task_here project_id task_id = attempt (get_task task_id) >>= λ found.
    on_nil found (fail invalid) (λ t. refuse (not (text_eq t.project_id project_id)) invalid)

-- CreateDecision
unfoldable pub create_decision : Actor → Text → Question → W Decision
create_decision a project_id q = with_result (check_question q) >>= λ new.
    open_project project_id >> member a project_id true >>= λ m.
    (if is_empty new.assignee then pure tt else same_project project_id new.assignee)
    >> (if is_empty new.task_id then pure tt else task_here project_id new.task_id)
    >> open_decision project_id (who_of m a) m new

-- PermissionChoice
pub record PermissionChoice : Type 0 where
  pub id : Text
  pub name : Text
  pub kind : Text

-- PermissionAsk
pub record PermissionAsk : Type 0 where
  pub title : Text
  pub options : List PermissionChoice

abbrev choice_name : PermissionChoice → Text
choice_name o = if is_empty (trim_space o.name) then o.id else trim_space o.name

-- Is the choice passed over: without a name, or one that is listed already?
abbrev unfit : List Text → PermissionChoice → Bool
unfit names o = is_empty (choice_name o) || exists (text_eq (choice_name o)) names

abbrev recommends : Text → PermissionChoice → Text
recommends rec o =
    if is_empty rec && text_eq o.kind (bytes "allow_once") then choice_name o else rec

-- AskPermission's loop: the names to offer, the last one in front, and the one recommended.
unfoldable pub offered : List PermissionChoice → List Text → Text → List Text × Text
unfolding exists
offered [] names rec = (names, rec)
offered (o ∷ rest) names rec =
    if unfit names o
    then offered rest names rec
    else offered rest (truncate (choice_name o) 100 ∷ names) (recommends rec o)

abbrev who_asks : Option Member → Text
who_asks none = bytes "The agent"
who_asks (some b) = b.display_name

abbrev asker_of : Run → W (Option Member)
asker_of r =
    if is_empty r.bot_member_id
    then pure none
    else get_member r.bot_member_id >>= λ b. pure (some b)

-- The question as AskPermission puts it.
abbrev pub permission_question : Text → List Text × Text → Run → Option Member → NewDecision
permission_question title o r bot = record {
  prompt = who_asks bot ++ bytes " asks to: " ++ title;
  recommendation = o.1;
  assignee = [];
  task_id = r.task_id;
  options = reverse o.0;
  action = permission_action;
  commit = [];
  run_id = r.id;
}

-- AskPermission's checks before its transaction.
unfoldable pub check_ask : Actor → PermissionAsk → Result (Text × (List Text × Text))
unfolding offered
check_ask a ask = deny (is_empty a.agent) invalid and_then λ _.
    check_text ask.title true 500 and_then λ title.
    deny (is_empty (offered ask.options [] []).0) invalid and_then λ _.
    ok (title, offered ask.options [] [])

-- AskPermission
unfoldable pub ask_permission : Actor → Text → PermissionAsk → W Decision
ask_permission a run_id ask = with_result (check_ask a ask) >>= λ c. get_run run_id >>= λ r.
    refuse (not (text_eq r.worker a.agent) || not (same_status r.status running)) conflict
    >> asker_of r
    >>= λ bot. run_actor a r >>= λ by.
        open_decision r.project_id by bot (permission_question c.0 c.1 r bot)
