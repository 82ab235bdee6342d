-- ===== src/Core/Routines.antt =====
-- internal/core/routines.go: Routines, which open Tasks on a schedule, and when they fire.
pub mod Edit
pub mod Issues
pub mod Once
use buildbee.Base.{
  keep, ℕ, ◌-◌, ◌*◌, Bool, true, false, not, Option, none, some, List, [], ◌∷◌, ◌++◌, leb, ltb,
  is_empty, if◌then◌else◌,
}
use buildbee.Base.Result.{Result, ok, err, invalid, conflict}
use buildbee.Text.{Text, bytes, text_eq, trim_space}
use buildbee.Models.Status.{closed_task}
use buildbee.Models.Members.{member_by_role}
use buildbee.Models.Records.{Time, str, Project, Member, Task, Routine}
use buildbee.Store.{W, pure, fail, gets, ◌>>=◌, ◌>>◌, refuse, on_nil, attempt, each}
use buildbee.Store.Tables.{
  get_task, list_members, get_routine, update_routine, claim_routine, list_enabled_routines,
}
use buildbee.Core.Work.{
  Actor, Who, system, who_of, the_time, log_activity, open_project, notify_people, task_href,
}
use buildbee.Core.Tasks.{create_task, open_thread}
use buildbee.Core.Pilot.Handoff.{handoff}

-- time.Minute, in nanoseconds
abbrev pub minute : ℕ
minute = 60 * 1000000000

unfoldable pub long_enough : Option ℕ → Result ℕ
long_enough none = err invalid
long_enough (some d) = if ltb d minute then err invalid else ok d

-- ParseInterval
unfoldable pub parse_interval : (Text → Text) → (Text → Option ℕ) → Text → Result ℕ
unfolding text_eq trim_space
parse_interval lower duration schedule =
    let s = trim_space (lower schedule) in
    if is_empty s
    then ok (24 * 60 * minute)
    else if text_eq s (bytes "daily")
    then ok (24 * 60 * minute)
    else if text_eq s (bytes "hourly")
    then ok (60 * minute)
    else long_enough (duration s)

abbrev pub passed_since : Time → Time → Result ℕ → Bool
passed_since now last (err e) = false
passed_since now last (ok d) = leb d (now - last)

abbrev pub due_since : Time → Result ℕ → Option Time → Bool
due_since now interval none = true
due_since now interval (some last) = passed_since now last interval

-- Due
unfoldable pub due : (Text → Text) → (Text → Option ℕ) → Routine → Time → Bool
unfolding parse_interval
due lower duration r now =
    if r.enabled
    then due_since now (parse_interval lower duration r.schedule) r.last_run_at
    else false

-- The loop of `fire` that looks for the Routine's Bot.
unfoldable pub last_member : Text → Option Member → List Member → Option Member
unfolding text_eq
last_member id to [] = to
last_member id to (m ∷ rest) = last_member id (if text_eq m.id id then some m else to) rest

abbrev or_member : Option Member → Option Member → Option Member
or_member none n = n
or_member (some m) n = some m

abbrev still_open : Option Task → Option Task
still_open none = none
still_open (some t) = if closed_task t.status then none else some t

-- The Task of the firing before, if it is still open.
unfoldable pub previous_task : Routine → W (Option Task)
previous_task r =
    if is_empty r.last_task_id
    then pure none
    else attempt (get_task r.last_task_id) >>= λ found. pure (still_open found)

abbrev pub firing_title : Routine → Text → Text
firing_title r date = r.name ++ bytes " (" ++ date ++ bytes ")"

abbrev arrow : Text
arrow = 0xE2 ∷ 0x86 ∷ 0x92 ∷ []

-- The end of `fire`: a Task for the Bot.
unfoldable pub give_task : Actor → Project → Routine → Who → Member → Member → W (Unit {0})
give_task a proj r by from to = gets (λ w. w.date w.now) >>= λ date.
    let title = firing_title r date in
    create_task proj (some from) a title r.prompt [] >>= λ made.
    open_thread proj made (some from)
      (bytes "Routine "
        ++ r.name
        ++ bytes ": "
        ++ title
        ++ bytes " "
        ++ arrow
        ++ bytes " "
        ++ to.display_name
        ++ bytes ".")
      []
    >>= λ task.
        handoff proj task from to a (bytes "Scheduled by Routine " ++ r.name ++ bytes ".") true
        >> update_routine (record r { last_task_id = task.id })
        >> log_activity r.project_id by (bytes "routine") (bytes "fired") r.id (
            (bytes "name", str r.name)
            ∷ (bytes "task_id", str task.id)
            ∷ (bytes "by", str a.name)
            ∷ [])
        >> notify_people r.project_id none (record {
          project_id = r.project_id;
          kind = bytes "routine";
          title = bytes "Routine " ++ r.name ++ bytes " opened a Task";
          body = title;
          href = task_href r.project_id task.id;
        })

-- `fire` once the Routine is claimed
unfoldable pub fire_claimed : Actor → Project → Routine → W (Unit {0})
fire_claimed a proj r = list_members r.project_id >>= λ members.
    let pulse = member_by_role members (bytes "pulse") in
    let by = who_of pulse a in
    previous_task r >>= λ prev.
    on_nil prev
      (let to =
          or_member (last_member r.bot_member_id none members)
            (member_by_role members (bytes "scout")) in
        on_nil to (fail invalid) (λ bot.
          on_nil (or_member pulse to) (fail invalid) (λ from. give_task a proj r by from bot)))
      (λ t.
        log_activity r.project_id by (bytes "routine") (bytes "skipped") r.id
          ((bytes "name", str r.name) ∷ (bytes "open_task_id", str t.id) ∷ []))

-- fire
unfoldable pub fire : Actor → Routine → W Bool
fire a r = open_project r.project_id >>= λ proj. the_time >>= λ now.
    claim_routine r.id r.last_run_at now >>= λ fired.
    if fired then fire_claimed a proj r >> pure true else pure false

-- FireRoutine
unfoldable pub fire_routine : Actor → Text → W Routine
fire_routine a id =
    get_routine id >>= λ r. fire a r >>= λ fired. refuse (not fired) conflict >> get_routine id

-- TickRoutines, up to its firings: the Routines that are due, as they were listed.
unfoldable pub tick_routines : W (List Routine)
unfolding keep
tick_routines = list_enabled_routines >>= λ rs.
    the_time >>= λ now. gets (λ w. keep (λ r. due w.lower w.duration r now) rs)

-- A firing of TickRoutines, a transaction of its own: what others have done since the listing, this
-- firing sees and the Routine does not show. One that fails leaves no trace, and the rest go on.
unfoldable pub fire_listed : Routine → W Bool
fire_listed r = fire (system (bytes "routines")) r
