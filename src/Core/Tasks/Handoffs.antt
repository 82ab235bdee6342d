-- ===== src/Core/Tasks/Handoffs.antt =====
-- internal/core/tasks.go: Handoffs that people make and complete; TaskLooksAmbiguous of
-- internal/models/models.go.
use buildbee.Base.{
  Bool, true, false, not, ◌&&◌, ◌||◌, Option, none, some, List, [], ◌∷◌, ◌++◌, exists, is_empty,
  if◌then◌else◌,
}
use buildbee.Base.Result.{invalid}
use buildbee.Text.{Text, bytes, text_eq, trim_space, to_lower, equal_fold, has_prefix, check_text}
use buildbee.Models.Members.{member_by_role}
use buildbee.Models.Records.{Project, Member, Task, Run, Handoff, Decision, str, no_action}
use buildbee.Store.{W, pure, fail, gets, with_result, ◌>>=◌, ◌>>◌, refuse, on_nil, attempt}
use buildbee.Store.Tables.{get_task, get_member, list_members, get_handoff, complete_handoff}
use buildbee.Core.Work.{
  Actor, Who, who_of, the_time, log_activity, member, require_member, open_project,
}
use buildbee.Core.Decide.{NewDecision, open_decision}
use buildbee.Core.Pilot.Handoff.{handoff}

-- strings.Contains(s, word)
unfoldable pub contains : Text → Text → Bool
unfolding has_prefix
contains [] word = is_empty word
contains (c ∷ s) word = has_prefix (c ∷ s) word || contains s word

abbrev unsure_words : List Text
unsure_words = bytes "ambiguous" ∷ bytes "unclear" ∷ bytes "tbd" ∷ bytes "not sure" ∷ []

-- TaskLooksAmbiguous
unfoldable pub task_looks_ambiguous : Text → Text → Bool
unfolding contains exists
task_looks_ambiguous title note =
    contains title (bytes "?")
    || exists (contains (to_lower (title ++ bytes " " ++ note))) unsure_words

-- NewHandoff
pub record NewHandoff : Type 0 where
  pub to_member_id : Text
  pub to_role : Text
  pub note : Text
  pub auto_run : Bool

-- HandedOff
pub record HandedOff : Type 0 where
  pub handoff : Handoff
  pub task : Task
  pub run : Option Run

-- The `switch` of CreateHandoff: who receives the Task.
unfoldable pub receiver : Text → NewHandoff → W Member
receiver project_id new =
    if not (is_empty (trim_space new.to_member_id))
    then (attempt (get_member (trim_space new.to_member_id)) >>= λ found.
        on_nil found (fail invalid)
          (λ m. refuse (not (text_eq m.project_id project_id)) invalid >> pure m))
    else if not (is_empty (trim_space new.to_role))
    then (list_members project_id >>= λ members.
        on_nil (member_by_role members new.to_role) (fail invalid) pure)
    else fail invalid

abbrev from_person : Project → Task → Actor → Text → Bool → Member → Member → W HandedOff
from_person proj task a note autorun to from = handoff proj task from to a note autorun >>= λ h.
    gets (λ w. w.last_run) >>= λ run. pure (record { handoff = h.0; task = h.1; run = run })

-- CreateHandoff. What requireMember returns is never nil.
unfoldable pub create_handoff : Actor → Text → NewHandoff → W HandedOff
create_handoff a task_id new = with_result (check_text new.note false 4000) >>= λ note.
    get_task task_id >>= λ task. open_project task.project_id >>= λ proj.
    require_member a task.project_id >>= λ m. on_nil m (fail invalid) (λ from.
      receiver task.project_id new >>= λ to. from_person proj task a note new.auto_run to from)

abbrev with_scout : Member → Member → Bool
with_scout from to = equal_fold from.role (bytes "scout") || equal_fold to.role (bytes "scout")

abbrev pub ready_question : Task → NewDecision
ready_question task = record {
  prompt = bytes "Scout: is Task \"" ++ task.title ++ bytes "\" ready for Builder?";
  recommendation = bytes "handoff to Builder";
  assignee = [];
  task_id = task.id;
  options = bytes "handoff to Builder" ∷ bytes "needs more info" ∷ [];
  action = no_action;
  commit = [];
  run_id = [];
}

-- The end of CompleteHandoff: does a Task that left Scout need an answer first?
unfoldable pub ask_if_ready : Handoff → Who → Option Member → Bool → W (Option Decision)
ask_if_ready h by m ask = get_task h.task_id >>= λ task.
    if not ask && not (task_looks_ambiguous task.title h.note)
    then pure none
    else open_decision h.project_id by m (ready_question task) >>= λ d. pure (some d)

-- CompleteHandoff
unfoldable pub finish_handoff : Actor → Text → Bool → W (Handoff × Option Decision)
finish_handoff a id ask = get_handoff id >>= λ h.
    open_project h.project_id >> member a h.project_id true >>= λ m. the_time >>= λ now.
    complete_handoff id now >>= λ closed.
    log_activity h.project_id (who_of m a) (bytes "handoff") (bytes "completed") h.id
      ((bytes "task_id", str h.task_id) ∷ [])
    >> get_member h.from_member_id
    >>= λ from. get_member h.to_member_id >>= λ to.
        (if with_scout from to then ask_if_ready h (who_of m a) m ask else pure none) >>= λ d.
        pure (closed, d)
