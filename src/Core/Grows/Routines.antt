-- ===== src/Core/Grows/Routines.antt =====
-- What the operations on Routines keep, and what a firing does to the Routine.
use buildbee.Base.{Option, none, some}
use buildbee.Text.{Text}
use buildbee.Models.Records.{Payload, Project, Member, Routine}
use buildbee.Store.Keeps.{Keeps, monad_rules}
use buildbee.Store.Keeps.Tables.{read_rules}
use buildbee.Store.Keeps.Routines.{routine_rules, Keeps-claimed}
use buildbee.Core.Work.{Actor, Who}
use buildbee.Core.Routines.{previous_task, give_task, fire_claimed, fire, fire_routine, fire_listed}
use buildbee.Core.Routines.Edit.{
  NewRoutine, routine_bot, check_routine, create_routine, RoutinePatch, set_bot, set_schedule,
  change_routine,
}
use buildbee.Core.Grows.{work_rules}
use buildbee.Core.Grows.Moves.{Keeps-handoff}
use buildbee.Core.Grows.Tasks.{Keeps-create_task, Keeps-open_thread}

Keeps-routine_bot : (p m : Text) → Keeps (routine_bot p m)
unfolding routine_bot
Keeps-routine_bot p m = search (monad_rules, read_rules) depth 40

Keeps-check_routine : (new : NewRoutine) → Keeps (check_routine new)
unfolding check_routine
Keeps-check_routine new = search (monad_rules) depth 40

pub Keeps-create_routine :
    (a : Actor) (p : Text) (new : NewRoutine) → Keeps (create_routine a p new)
unfolding create_routine
Keeps-create_routine a p new =
    search (monad_rules, work_rules, routine_rules, Keeps-check_routine, Keeps-routine_bot) depth 60

Keeps-set_bot : (p : Routine × Payload) (s : Option Text) → Keeps (set_bot p s)
unfolding set_bot
Keeps-set_bot p none = search (monad_rules)
Keeps-set_bot p (some s) = search (monad_rules, Keeps-routine_bot) depth 40

Keeps-set_schedule : (p : Routine × Payload) (s : Option Text) → Keeps (set_schedule p s)
unfolding set_schedule
Keeps-set_schedule p none = search (monad_rules)
Keeps-set_schedule p (some s) = search (monad_rules) depth 40

pub Keeps-change_routine :
    (a : Actor) (id : Text) (patch : RoutinePatch) → Keeps (change_routine a id patch)
unfolding change_routine
Keeps-change_routine a id patch =
    search (monad_rules, work_rules, routine_rules, Keeps-set_bot, Keeps-set_schedule) depth 60

Keeps-previous_task : (r : Routine) → Keeps (previous_task r)
unfolding previous_task
Keeps-previous_task r = search (monad_rules, read_rules) depth 40

Keeps-give_task :
    (a : Actor) (p : Project) (r : Routine) (by : Who) (from to : Member)
    → Keeps (give_task a p r by from to)
unfolding give_task
Keeps-give_task a p r by from to =
    search
      (monad_rules, work_rules, routine_rules, Keeps-create_task, Keeps-open_thread, Keeps-handoff)
      depth 60

pub Keeps-fire_claimed : (a : Actor) (p : Project) (r : Routine) → Keeps (fire_claimed a p r)
unfolding fire_claimed
Keeps-fire_claimed a p r =
    search (monad_rules, read_rules, work_rules, Keeps-previous_task, Keeps-give_task) depth 60

pub Keeps-fire : (a : Actor) (r : Routine) → Keeps (fire a r)
unfolding fire
Keeps-fire a r = search (monad_rules, work_rules, Keeps-claimed, Keeps-fire_claimed) depth 60

pub Keeps-fire_routine : (a : Actor) (id : Text) → Keeps (fire_routine a id)
unfolding fire_routine
Keeps-fire_routine a id = search (monad_rules, routine_rules, Keeps-fire) depth 60

pub Keeps-fire_listed : (r : Routine) → Keeps (fire_listed r)
unfolding fire_listed
Keeps-fire_listed r = Keeps-fire _ r
