-- ===== src/Core/Tasks.antt =====
-- internal/core/tasks.go: opening and editing Tasks; openThread of internal/core/chat.go.
pub mod Handoffs
use buildbee.Base.{
  Bool, true, false, not, ◌&&◌, ◌||◌, Option, none, some, List, [], ◌∷◌, ◌++◌, is_empty,
  if◌then◌else◌,
}
use buildbee.Base.Result.{invalid, Result, ok, err, ◌and_then◌}
use buildbee.Text.{Text, bytes, text_eq, trim_space, to_lower, check_text}
use buildbee.Event.{posted_data, bare}
use buildbee.Models.Status.{
  TaskStatus, open_task, in_progress, done, canceled_task, parse_task_status, task_status_word,
}
use buildbee.Models.Members.{is_nil, member_by_role}
use buildbee.Models.Records.{
  Time, str, flag, Payload, Project, Member, Task, Run, Handoff, Message, Channel,
}
use buildbee.Store.{W, pure, fail, gets, with_result, new_id, ◌>>=◌, ◌>>◌, refuse, on_nil, attempt}
use buildbee.Store.Runs.{head_of}
use buildbee.Store.Tables.{
  get_task, get_member, list_members, insert_task, update_task, get_channel, list_channels, allows,
  insert_message,
}
use buildbee.Core.Work.{Actor, who_of, the_time, emit, log_activity, member, open_project}
use buildbee.Core.Thread.{voice}
use buildbee.Core.Pilot.Handoff.{handoff}

-- sameProject
unfoldable pub same_project : Text → Text → W (Unit {0})
same_project project_id member_id = attempt (get_member member_id) >>= λ found.
    on_nil found (fail invalid) (λ m. refuse (not (text_eq m.project_id project_id)) invalid)

abbrev pub id_or_none : Option Member → Text
id_or_none none = []
id_or_none (some m) = m.id

-- The Task as createTask makes it.
abbrev pub opened : Text → Text → Text → Text → Text → Option Member → Time → Task
opened id project_id title body assignee by now = record {
  id = id;
  project_id = project_id;
  title = title;
  body = body;
  status = open_task;
  assignee_member_id = assignee;
  created_by_member_id = id_or_none by;
  issue_number = 0;
  issue_url = [];
  branch = [];
  head_commit = [];
  pr_url = [];
  merged_at = none;
  thread_id = [];
  created_at = now;
  updated_at = now;
}

-- createTask
unfoldable pub create_task : Project → Option Member → Actor → Text → Text → Text → W Task
create_task proj by a title body assignee =
    (if is_empty assignee then pure tt else same_project proj.id assignee) >> new_id >>= λ id.
    the_time >>= λ now.
    let t = opened id proj.id title body assignee by now in
    insert_task t
    >> log_activity proj.id (who_of by a) (bytes "task") (bytes "created") t.id
        ((bytes "title", str t.title) ∷ [])
    >> pure t

abbrev refuses : Project → Member → Channel → Bool
refuses proj author c =
    not (text_eq c.project_id proj.id) || not (is_nil c.archived_at) || not (allows c author.id)

-- Where openThread posts: the Channel that is named, or the Project's first.
unfoldable pub thread_channel : Project → Member → Text → W (Option Channel)
thread_channel proj author channel_id =
    if is_empty channel_id
    then (list_channels proj.id false >>= λ chs. pure (head_of chs))
    else attempt (get_channel channel_id) >>= λ found.
        on_nil found (fail invalid) (λ c. refuse (refuses proj author c) invalid >> pure (some c))

abbrev pub root_message : Text → Channel → Text → Member → Text → Text → Text → Time → Message
root_message id ch project_id author body thread_id task_id now = record {
  id = id;
  seq = 0;
  channel_id = ch.id;
  project_id = project_id;
  member_id = author.id;
  body = body;
  thread_id = thread_id;
  reply_count = 0;
  last_reply_at = none;
  task_id = task_id;
  edited_at = none;
  deleted_at = none;
  created_at = now;
}

abbrev pub with_thread : Text → Time → Task → Task
with_thread id now t = record t { thread_id = id; updated_at = now }

-- openThread from the Channel on
unfoldable pub post_thread : Project → Task → Member → Text → Channel → W Task
post_thread proj task author body ch = new_id >>= λ id. the_time >>= λ now.
    insert_message (root_message id ch proj.id author body [] task.id now) >>= λ msg.
    let t = with_thread msg.id now task in
    update_task t
    >> emit (bytes "channel:" ++ ch.id) msg.seq (bytes "message") (posted_data (bare msg none))
    >> pure t

-- openThread, which returns the Task that it has changed.
unfoldable pub open_thread : Project → Task → Option Member → Text → Text → W Task
open_thread proj task none body channel_id = pure task
open_thread proj task (some author) body channel_id =
    thread_channel proj author channel_id >>= λ ch.
    on_nil ch (pure task) (post_thread proj task author body)

-- NewTask
pub record NewTask : Type 0 where
  pub title : Text
  pub body : Text
  pub assignee_member_id : Text
  pub channel_id : Text
  pub handoff_role : Text
  pub handoff_note : Text
  pub auto_run : Bool

-- TaskCreated
pub record TaskCreated : Type 0 where
  pub task : Task
  pub handoff : Option Handoff
  pub run : Option Run

-- NewTask with its fields checked.
pub record CheckedTask : Type 0 where
  pub title : Text
  pub body : Text
  pub note : Text
  pub role : Text

abbrev or_text : Text → Text → Text
or_text a b = if is_empty a then b else a

-- What CreateTask checks before its transaction.
unfoldable pub check_task : NewTask → Result CheckedTask
check_task new = check_text new.title true 300 and_then λ title.
    check_text new.body false 32000 and_then λ body.
    check_text new.handoff_note false 4000 and_then λ note. ok (record {
      title = title;
      body = body;
      note = note;
      role = or_text (to_lower (trim_space new.handoff_role)) (bytes "scout");
    })

abbrev pub speaker_or : Option Member → Text → W (Option Member)
speaker_or none project_id = voice project_id
speaker_or (some m) project_id = pure (some m)

-- The end of CreateTask: the Person hands the new Task on.
unfoldable pub hand_on : Project → Task → Member → Actor → CheckedTask → Bool → W TaskCreated
hand_on proj task from a c autorun = list_members proj.id >>= λ members.
    on_nil (member_by_role members c.role) (fail invalid) (λ to.
      handoff proj task from to a (or_text c.note (bytes "Please take this.")) autorun >>= λ h.
      gets (λ w. w.last_run) >>= λ run. pure (record { task = h.1; handoff = some h.0; run = run }))

abbrev alone : Task → TaskCreated
alone task = record { task = task; handoff = none; run = none }

-- CreateTask
unfoldable pub open_new_task : Actor → Text → NewTask → W TaskCreated
open_new_task a project_id new = with_result (check_task new) >>= λ c.
    open_project project_id >>= λ proj. member a project_id true >>= λ m.
    create_task proj m a c.title c.body new.assignee_member_id >>= λ made.
    speaker_or m project_id >>= λ opener.
    open_thread proj made opener (bytes "Task: " ++ c.title) new.channel_id >>= λ task.
    on_nil m (pure (alone task)) (λ from.
      if text_eq c.role (bytes "none")
      then pure (alone task)
      else hand_on proj task from a c new.auto_run)

-- TaskPatch
pub record TaskPatch : Type 0 where
  pub title : Option Text
  pub body : Option Text
  pub status : Option Text

-- a == b on the statuses of Tasks
unfoldable pub same_task_status : TaskStatus → TaskStatus → Bool
same_task_status open_task open_task = true
same_task_status in_progress in_progress = true
same_task_status done done = true
same_task_status canceled_task canceled_task = true
same_task_status _ _ = false

abbrev set_title : Task → Option Text → Result (Task × Payload)
set_title t none = ok (t, [])
set_title t (some title) =
    check_text title true 300 and_then λ s. ok (record t { title = s }, (bytes "title", str s) ∷ [])

abbrev set_body : Task × Payload → Option Text → Result (Task × Payload)
set_body p none = ok p
set_body p (some body) = check_text body false 32000 and_then λ s.
    ok (record (p.0) { body = s }, p.1 ++ (bytes "body", flag true) ∷ [])

abbrev moved_to : Task × Payload → Option TaskStatus → Result (Task × Payload)
moved_to p none = err invalid
moved_to p (some s) =
    if same_task_status s p.0.status
    then ok p
    else ok (
      record (p.0) { status = s },
      p.1
          ++ (bytes "from", str (task_status_word p.0.status))
            ∷ (bytes "status", str (task_status_word s))
            ∷ [],
    )

abbrev set_status : Task × Payload → Option Text → Result (Task × Payload)
set_status p none = ok p
set_status p (some word) = moved_to p (parse_task_status word)

-- The Task with the patch applied, and what changed.
unfoldable pub patch_task : TaskPatch → Task → Result (Task × Payload)
patch_task patch t = set_title t patch.title and_then λ p.
    set_body p patch.body and_then λ q. set_status q patch.status

-- The end of UpdateTask, for a patch that changes something.
unfoldable pub save_task : Actor → Option Member → Task → Payload → W Task
save_task a m task changes = the_time >>= λ now.
    let t : Task = record task { updated_at = now } in
    update_task t
    >> log_activity t.project_id (who_of m a) (bytes "task") (bytes "updated") t.id changes
    >> pure t

-- UpdateTask
unfoldable pub edit_task : Actor → Text → TaskPatch → W Task
edit_task a id patch = get_task id >>= λ t.
    open_project t.project_id >> member a t.project_id true >>= λ m.
    with_result (patch_task patch t) >>= λ p.
    if is_empty p.1 then pure p.0 else save_task a m p.0 p.1
