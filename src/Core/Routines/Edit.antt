-- ===== src/Core/Routines/Edit.antt =====
-- internal/core/routines.go: making and changing Routines.
use buildbee.Base.{
  Bool, true, not, ◌||◌, Option, none, some, [], ◌∷◌, ◌++◌, is_empty, if◌then◌else◌,
}
use buildbee.Base.Result.{Result, ok, invalid, ◌and_then◌}
use buildbee.Text.{Text, bytes, text_eq, trim_space, check_text}
use buildbee.Models.Records.{str, flag, Payload, Routine}
use buildbee.Store.{W, pure, fail, gets, with_result, new_id, ◌>>=◌, ◌>>◌, refuse, on_nil, attempt}
use buildbee.Store.Tables.{get_member, insert_routine, get_routine, update_routine}
use buildbee.Core.Work.{Actor, who_of, the_time, log_activity, member, open_project, is_human}
use buildbee.Core.Pilot.Handoff.{works_on_tasks}
use buildbee.Core.Routines.{parse_interval}

-- NewRoutine
pub record NewRoutine : Type 0 where
  pub name : Text
  pub prompt : Text
  pub schedule : Text
  pub enabled : Bool
  pub bot_member_id : Text

-- routineBot
unfoldable pub routine_bot : Text → Text → W (Unit {0})
routine_bot project_id member_id = attempt (get_member member_id) >>= λ found.
    on_nil found (fail invalid) (λ m.
      refuse (not (text_eq m.project_id project_id) || is_human m || not (works_on_tasks m.role))
        invalid)

-- NewRoutine with its texts checked and a schedule that holds.
pub record CheckedRoutine : Type 0 where
  pub name : Text
  pub prompt : Text
  pub schedule : Text

-- What CreateRoutine checks before its transaction.
unfoldable pub check_routine : NewRoutine → W CheckedRoutine
check_routine new = with_result (check_text new.name true 100) >>= λ n.
    with_result (check_text new.prompt true 16000) >>= λ prompt.
    let schedule = if is_empty new.schedule then bytes "daily" else new.schedule in
    gets (λ w. parse_interval w.lower w.duration schedule) >>= λ d.
    with_result d >> pure (record { name = n; prompt = prompt; schedule = schedule })

-- CreateRoutine
unfoldable pub create_routine : Actor → Text → NewRoutine → W Routine
create_routine a project_id new = check_routine new >>= λ c.
    open_project project_id >> member a project_id true >>= λ m.
    (if is_empty new.bot_member_id then pure tt else routine_bot project_id new.bot_member_id)
    >> new_id
    >>= λ id. the_time >>= λ now.
        let r : Routine = record {
          id = id;
          project_id = project_id;
          bot_member_id = new.bot_member_id;
          name = c.name;
          prompt = c.prompt;
          schedule = trim_space c.schedule;
          enabled = new.enabled;
          last_run_at = none;
          last_task_id = [];
          created_at = now;
        } in
        insert_routine r
        >> log_activity project_id (who_of m a) (bytes "routine") (bytes "created") r.id (
            (bytes "name", str r.name)
            ∷ (bytes "schedule", str r.schedule)
            ∷ (bytes "enabled", flag r.enabled)
            ∷ [])
        >> pure r

-- RoutinePatch
pub record RoutinePatch : Type 0 where
  pub name : Option Text
  pub prompt : Option Text
  pub schedule : Option Text
  pub enabled : Option Bool
  pub bot_member_id : Option Text

abbrev pub set_name : Routine → Option Text → Result (Routine × Payload)
set_name r none = ok (r, [])
set_name r (some s) =
    check_text s true 100 and_then λ n. ok (record r { name = n }, (bytes "name", str n) ∷ [])

abbrev pub set_prompt : Routine × Payload → Option Text → Result (Routine × Payload)
set_prompt p none = ok p
set_prompt p (some s) = check_text s true 16000 and_then λ t.
    ok (record (p.0) { prompt = t }, p.1 ++ (bytes "prompt", flag true) ∷ [])

unfoldable pub set_bot : Routine × Payload → Option Text → W (Routine × Payload)
set_bot p none = pure p
set_bot p (some s) =
    let id = trim_space s in
    (if is_empty id then pure tt else routine_bot p.0.project_id id)
    >> pure (record (p.0) { bot_member_id = id }, p.1 ++ (bytes "bot_member_id", str id) ∷ [])

unfoldable pub set_schedule : Routine × Payload → Option Text → W (Routine × Payload)
set_schedule p none = pure p
set_schedule p (some s) = gets (λ w. parse_interval w.lower w.duration s) >>= λ d.
    with_result d
    >> pure (
      record (p.0) { schedule = trim_space s },
      p.1 ++ (bytes "schedule", str (trim_space s)) ∷ [],
    )

abbrev pub set_enabled : Routine × Payload → Option Bool → Routine × Payload
set_enabled p none = p
set_enabled p (some b) = (record (p.0) { enabled = b }, p.1 ++ (bytes "enabled", flag b) ∷ [])

-- UpdateRoutine
unfoldable pub change_routine : Actor → Text → RoutinePatch → W Routine
change_routine a id patch = get_routine id >>= λ r.
    open_project r.project_id >> member a r.project_id true >>= λ m.
    with_result (set_name r patch.name and_then λ p. set_prompt p patch.prompt) >>= λ p.
    set_bot p patch.bot_member_id >>= λ q. set_schedule q patch.schedule >>= λ s.
    let new = set_enabled s patch.enabled in
    update_routine new.0
    >> log_activity r.project_id (who_of m a) (bytes "routine") (bytes "updated") r.id new.1
    >> pure new.0
