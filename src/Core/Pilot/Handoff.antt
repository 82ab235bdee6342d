-- ===== src/Core/Pilot/Handoff.antt =====
-- `handoff` of internal/core/tasks.go and `passOn` of internal/core/autopilot.go.
use buildbee.Base.{
  Bool, true, not, ◌&&◌, ◌||◌, Option, none, some, [], ◌∷◌, ◌++◌, is_empty, if◌then◌else◌,
}
use buildbee.Text.{Text, bytes, one_of, truncate, to_lower, equal_fold}
use buildbee.Models.Status.{closed_task, in_progress, open_handoff, task_status_word}
use buildbee.Models.Members.{member_by_role}
use buildbee.Models.Records.{Time, str, Payload, Project, Member, Task, Run, Handoff}
use buildbee.Store.{W, pure, changes_work, new_id, ◌>>=◌, ◌>>◌, on_nil}
use buildbee.Store.Tables.{insert_handoff, update_task, list_members}
use buildbee.Core.Work.{
  Actor, system, who_of, the_time, log_activity, notify_member, is_human, task_href,
}
use buildbee.Core.Queue.{create_run}

-- worksOnTasks
unfoldable pub works_on_tasks : Text → Bool
unfolding one_of
works_on_tasks role = one_of (to_lower role) (bytes "scout" ∷ bytes "builder" ∷ bytes "sentry" ∷ [])

abbrev pub set_last_run : Option Run → W (Unit {0})
set_last_run r = changes_work (λ w. record w { last_run = r })

-- The Task in the receiver's hands.
abbrev pub handed : Task → Text → Time → Task
handed task to now = record task { assignee_member_id = to; status = in_progress; updated_at = now }

abbrev handoff_payload : Task → Member → Text → Payload
handoff_payload task to note =
    (bytes "task_id", str task.id)
    ∷ (bytes "to_member_id", str to.id)
    ∷ (bytes "to", str to.display_name)
    ∷ (bytes "note", str (truncate note 500))
    ∷ (if closed_task task.status
        then (bytes "reopened_from", str (task_status_word task.status)) ∷ []
        else [])

-- Does the receiver start a Run?
unfoldable pub starts_run : Project → Task → Member → Bool → Bool
starts_run proj t to autorun =
    not (is_human to)
    && works_on_tasks to.role
    && (autorun || proj.auto_run)
    && not (equal_fold to.role (bytes "sentry") && is_empty t.branch)

-- handoff
unfoldable pub handoff : Project → Task → Member → Member → Actor → Text → Bool → W (Handoff × Task)
handoff proj task from to a note autorun = set_last_run none >> new_id >>= λ id. the_time >>= λ now.
    let h : Handoff = record {
      id = id;
      task_id = task.id;
      project_id = task.project_id;
      from_member_id = from.id;
      to_member_id = to.id;
      note = note;
      status = open_handoff;
      created_at = now;
      completed_at = none;
    } in
    let t = handed task to.id now in
    let by = who_of (some from) a in
    insert_handoff h
    >> update_task t
    >> log_activity task.project_id by (bytes "handoff") (bytes "created") h.id
        (handoff_payload task to note)
    >> notify_member to (record {
      project_id = task.project_id;
      kind = bytes "handoff";
      title = bytes "Task handed to you: " ++ t.title;
      body = truncate note 500;
      href = task_href task.project_id task.id;
    })
    >> (if starts_run proj t to autorun
        then (create_run proj t (some to) [] none by >>= λ r. set_last_run (some r))
        else pure tt)
    >> pure (h, t)

-- passOn
unfoldable pub pass_on : Project → Task → Text → Text → Text → W (Unit {0})
pass_on proj task from_role to_role note = list_members proj.id >>= λ members.
    on_nil (member_by_role members from_role) (pure tt) (λ from.
      on_nil (member_by_role members to_role) (pure tt) (λ to.
        handoff proj task from to (system (bytes "autopilot")) (truncate note 4000) true
        >> pure tt))
