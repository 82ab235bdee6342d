-- ===== src/Store/Tables/Routines.antt =====
-- internal/store/runs.go: Routines.
use buildbee.Base.{Bool, true, false, ◌&&◌, Option, none, some, List, [], keep, ◌==◌, if◌then◌else◌}
use buildbee.Base.Result.{ok}
use buildbee.Base.Sort.{sort_by}
use buildbee.Text.{Text}
use buildbee.Models.Members.{is_nil}
use buildbee.Models.Records.{Time, Routine, Project}
use buildbee.Store.{W, Db, pure, found, gets, ◌>>=◌, ◌>>◌}
use buildbee.Store.Rows.{find_row, update_row}
use buildbee.Store.Runs.{project_key}
use buildbee.Store.Inserts.{set_st, insert_row, oldest}

abbrev pub routine_key : Routine → Text
routine_key r = r.id

abbrev pub set_routines : (List Routine → List Routine) → Db → Db
set_routines f db = record db { routines = f db.routines }

-- InsertRoutine
unfoldable pub insert_routine : Routine → W (Unit {0})
insert_routine r =
    insert_row routine_key (λ db. db.routines) (λ rs db. record db { routines = rs })
      (record r { last_run_at = none; last_task_id = [] })

-- GetRoutine
unfoldable pub get_routine : Text → W Routine
unfolding find_row
get_routine id w = found (find_row routine_key id w.st.routines) w

abbrev pub routine_columns : Routine → Routine → Routine
routine_columns r x = record x {
  name = r.name;
  schedule = r.schedule;
  enabled = r.enabled;
  bot_member_id = r.bot_member_id;
  prompt = r.prompt;
  last_task_id = r.last_task_id;
}

-- UpdateRoutine
unfoldable pub update_routine : Routine → W (Unit {0})
unfolding update_row
update_routine r =
    get_routine r.id >> set_st (set_routines (update_row routine_key r.id (routine_columns r)))

-- `a IS NOT DISTINCT FROM b`
unfoldable pub same_time : Option Time → Option Time → Bool
same_time none none = true
same_time none (some t) = false
same_time (some s) none = false
same_time (some s) (some t) = s == t

abbrev pub fired_at : Time → Routine → Routine
fired_at at r = record r { last_run_at = some at }

-- Did nobody fire the Routine since `prev`?
abbrev pub unfired : Option Time → Option Routine → Bool
unfired prev none = false
unfired prev (some r) = same_time r.last_run_at prev

-- ClaimRoutine
unfoldable pub claim_routine : Text → Option Time → Time → W Bool
unfolding find_row update_row
claim_routine id prev at = gets (λ w. unfired prev (find_row routine_key id w.st.routines)) >>= λ b.
    if b
    then set_st (set_routines (update_row routine_key id (fired_at at))) >> pure true
    else pure false

abbrev pub goes_on : Option Project → Bool
goes_on none = false
goes_on (some p) = is_nil p.archived_at

-- ListEnabledRoutines
unfoldable pub list_enabled_routines : W (List Routine)
unfolding keep sort_by find_row
list_enabled_routines w = ok (
  sort_by (oldest (λ r. r.created_at) routine_key) (
      keep (λ r. r.enabled && goes_on (find_row project_key r.project_id w.st.projects))
        w.st.routines),
  w,
)
