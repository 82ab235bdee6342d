-- ===== src/Examples/Routines.antt =====
-- Routines at a concrete database.
use buildbee.Base.{◌≡◌, refl, true, false, Bool, none, some, [], ◌∷◌, arith, keep, first}
use buildbee.Base.Sort.{sort_by, insert_by}
use buildbee.Base.Result.{Result, ok, err}
use buildbee.Text.{
  Text, bytes, text_eq, to_lower, trim_space, drop_spaces, space_width, space_width_back, truncate,
  one_of, equal_fold,
}
use buildbee.Models.Status.{closed_task, run_kind_for_role}
use buildbee.Models.Members.{member_by_role}
use buildbee.Models.Records.{Member, Routine, bot}
use buildbee.Store.{Work, pure, found, gets, changes_work, ◌>>=◌, refuse, on_nil, each, new_id}
use buildbee.Store.Rows.{find_row, update_row}
use buildbee.Store.Inserts.{insert_row, oldest}
use buildbee.Store.Runs.{text_leb, insert_run, list_runs, append_run_event, change_run}
use buildbee.Store.Grows.{RoutineAt}
use buildbee.Store.Keeps.{returned}
use buildbee.Store.Tables.{
  get_project, list_members, get_task, insert_task, update_task, insert_handoff, insert_activity,
  list_channels, list_handoffs, task_columns, get_routine, update_routine, claim_routine, same_time,
}
use buildbee.Core.Work.{
  Actor, system, open_space, open_project, who_of, log_activity, emit, notify_member, notify_people,
  run_event,
}
use buildbee.Core.Thread.{conversation}
use buildbee.Core.Queue.{create_run, branches_for}
use buildbee.Core.Tasks.{create_task, open_thread, thread_channel}
use buildbee.Core.Pilot.Handoff.{handoff, works_on_tasks, starts_run}
use buildbee.Core.Routines.{fire, fire_claimed, previous_task, last_member, give_task, due}
use buildbee.Core.Routines.Once.{fire_once, fire_rests}
use buildbee.Examples.Sample.{db, start}

abbrev helper : Text → Text → Member
helper id role = record {
  id = id;
  project_id = bytes "p";
  person_id = [];
  kind = bot;
  display_name = role;
  role = role;
  instructions = [];
  agent = [];
  left_at = none;
  created_at = 1;
}

abbrev nightly : Routine
nightly = record {
  id = bytes "n";
  project_id = bytes "p";
  bot_member_id = [];
  name = bytes "Nightly";
  prompt = bytes "Sweep.";
  schedule = bytes "daily";
  enabled = true;
  last_run_at = none;
  last_task_id = [];
  created_at = 1;
}

abbrev before : Work
before = record start {
  st = record db {
    members = helper (bytes "pu") (bytes "pulse") ∷ helper (bytes "sc") (bytes "scout") ∷ [];
    tasks = [];
    runs = [];
    routines = nightly ∷ [];
  };
}

abbrev clock : Actor
clock = system (bytes "routines")

abbrev value_of : Result (Bool × Work) → Work
value_of (ok r) = r.1
value_of (err e) = before

abbrev after : Work
after = value_of (fire clock nightly before)

fired_first : fire clock nightly before ≡ returned true after
unfolding fire ◌>>=◌ open_project open_space get_project found text_eq refuse pure gets
    claim_routine same_time changes_work fire_claimed list_members previous_task on_nil find_row
    update_row keep first sort_by insert_by oldest text_leb to_lower trim_space drop_spaces
    space_width space_width_back member_by_role last_member give_task create_task new_id insert_task
    insert_row log_activity insert_activity emit who_of open_thread thread_channel list_channels
    handoff insert_handoff update_task get_task notify_member works_on_tasks one_of starts_run
    equal_fold truncate create_run conversation branches_for list_runs insert_run run_event
    append_run_event change_run update_routine get_routine notify_people each closed_task
    run_kind_for_role list_handoffs task_columns
fired_first = refl

-- Another process, which has read the Routine before the first firing.
abbrev later : Work
later = record start { st = after.st; now = 60 }

fired_late : fire clock nightly later ≡ returned false later
unfolding fire ◌>>=◌ open_project open_space get_project found text_eq refuse pure gets
    claim_routine same_time changes_work fire_claimed list_members previous_task on_nil find_row
    update_row keep first sort_by insert_by oldest text_leb to_lower trim_space drop_spaces
    space_width space_width_back member_by_role last_member give_task create_task new_id insert_task
    insert_row log_activity insert_activity emit who_of open_thread thread_channel list_channels
    handoff insert_handoff update_task get_task notify_member works_on_tasks one_of starts_run
    equal_fold truncate create_run conversation branches_for list_runs insert_run run_event
    append_run_event change_run update_routine get_routine notify_people each closed_task
    run_kind_for_role list_handoffs task_columns
fired_late = refl

other_time : same_time (some before.now) nightly.last_run_at ≡ false
unfolding same_time
other_time = refl

fire_once_example : (false ≡ false) × (later ≡ later)
fire_once_example =
    fire_once clock clock nightly before after later later false fired_first refl other_time
      fired_late

fire_rests_example :
    (new : Routine) × RoutineAt nightly.id after.st.routines new
    × (due before.lower before.duration new 100 ≡ false)
fire_rests_example = fire_rests clock nightly before after 100 fired_first (omega arith)
