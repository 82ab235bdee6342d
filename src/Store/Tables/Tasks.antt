-- ===== src/Store/Tables/Tasks.antt =====
-- internal/store/tasks.go: Tasks and Handoffs.
use buildbee.Base.Result.{conflict, ok}
use buildbee.Base.{ℕ, not, ◌&&◌, Bool, true, false, none, some, List, [], keep, first, ◌==◌}
use buildbee.Store.{◌>>=◌, ◌>>◌, pure, refuse, W, Db, found, gets, new_id, on_nil}
use buildbee.Store.Inserts.{set_st, insert_row, oldest}
use buildbee.Base.Sort.{sort_by}
use buildbee.Text.{Text, text_eq}
use buildbee.Models.Status.{HandoffStatus, open_handoff, complete, open_task}
use buildbee.Models.Records.{Time, Task, Handoff}
use buildbee.Store.Rows.{find_row, update_row, update_where}
use buildbee.Store.Runs.{task_key}

-- GetTask
unfoldable pub get_task : Text → W Task
unfolding find_row
get_task id w = found (find_row task_key id w.st.tasks) w

-- UpdateTask's columns
unfoldable pub task_columns : Task → Task → Task
task_columns t x = record x {
  title = t.title;
  body = t.body;
  status = t.status;
  assignee_member_id = t.assignee_member_id;
  updated_at = t.updated_at;
  branch = t.branch;
  pr_url = t.pr_url;
  merged_at = t.merged_at;
  head_commit = t.head_commit;
  thread_id = t.thread_id;
}

-- UpdateTask
unfoldable pub update_task : Task → W (Unit {0})
unfolding update_row
update_task t =
    get_task t.id
    >> set_st (λ db. record db { tasks = update_row task_key t.id (task_columns t) db.tasks })

abbrev pub handoff_key : Handoff → Text
handoff_key h = h.id

abbrev pub is_open : HandoffStatus → Bool
is_open open_handoff = true
is_open complete = false

-- InsertHandoff
unfoldable pub insert_handoff : Handoff → W (Unit {0})
insert_handoff h =
    insert_row handoff_key (λ db. db.handoffs) (λ hs db. record db { handoffs = hs })
      (record h { completed_at = none })

-- GetHandoff
unfoldable pub get_handoff : Text → W Handoff
unfolding find_row
get_handoff id w = found (find_row handoff_key id w.st.handoffs) w

-- ListHandoffs
unfoldable pub list_handoffs : Text → W (List Handoff)
unfolding keep sort_by
list_handoffs task_id w = ok (
  sort_by (oldest (λ h. h.created_at) handoff_key)
      (keep (λ h. text_eq h.task_id task_id) w.st.handoffs),
  w,
)

abbrev pub completed : Time → Handoff → Handoff
completed at h = record h { status = complete; completed_at = some at }

-- CompleteHandoff
unfoldable pub complete_handoff : Text → Time → W Handoff
unfolding update_row
complete_handoff id at = get_handoff id >>= λ h.
    refuse (not (is_open h.status)) conflict
    >> set_st (λ db. record db { handoffs = update_row handoff_key id (completed at) db.handoffs })
    >> pure (completed at h)

-- The row of a new Task: the columns that InsertTask does not name take their defaults.
abbrev pub new_task_row : Task → Task
new_task_row t = record t {
  issue_number = 0;
  issue_url = [];
  branch = [];
  head_commit = [];
  pr_url = [];
  merged_at = none;
  thread_id = [];
  updated_at = t.created_at;
}

abbrev pub set_tasks : List Task → Db → Db
set_tasks ts db = record db { tasks = ts }

-- InsertTask
unfoldable pub insert_task : Task → W (Unit {0})
insert_task t = insert_row task_key (λ db. db.tasks) set_tasks (new_task_row t)

abbrev pub of_issue : Text → ℕ → Task → Bool
of_issue project_id number t = text_eq t.project_id project_id && (t.issue_number == number)

abbrev pub refreshed : Text → Text → Time → Task → Task
refreshed title url at t = record t { title = title; issue_url = url; updated_at = at }

-- The Task that UpsertIssueTask inserts.
abbrev issue_task : Text → Text → ℕ → Text → Text → Time → Task
issue_task id project_id number title url at = record {
  id = id;
  project_id = project_id;
  title = title;
  body = [];
  status = open_task;
  assignee_member_id = [];
  created_by_member_id = [];
  issue_number = number;
  issue_url = url;
  branch = [];
  head_commit = [];
  pr_url = [];
  merged_at = none;
  thread_id = [];
  created_at = at;
  updated_at = at;
}

-- UpsertIssueTask, for a number that is not 0
unfoldable pub upsert_issue_task : Text → ℕ → Text → Text → Time → W (Task × Bool)
unfolding first update_where
upsert_issue_task project_id number title url at = new_id >>= λ id.
    gets (λ w. first (of_issue project_id number) w.st.tasks) >>= λ old.
    on_nil old
      (insert_row task_key (λ db. db.tasks) set_tasks (issue_task id project_id number title url at)
        >> get_task id
        >>= λ t. pure (t, true))
      (λ t.
        set_st (λ db.
          set_tasks
            (update_where task_key (of_issue project_id number) (refreshed title url at) db.tasks)
            db)
        >> get_task t.id
        >>= λ got. pure (got, false))
