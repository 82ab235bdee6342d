-- ===== src/Core/Grows.antt =====
-- What the operations of internal/core keep: after every one that returns, the database has grown.
pub mod Moves
pub mod Tasks
pub mod Chat
pub mod Projects
pub mod People
pub mod Routines
pub mod Reports
pub mod Reaps
pub mod Calls
use buildbee.Base.{ℕ, ◌≡◌, refl, Bool, true, false, Option, none, some, List, [], ◌∷◌}
use buildbee.Text.{Text}
use buildbee.Event.{EventData}
use buildbee.Models.Status.{EventKind, RunKind}
use buildbee.Models.Records.{Payload, Member, Task, Run, Project}
use buildbee.Store.{Work, W, changes_work}
use buildbee.Store.Grows.{RoutinesFollow-refl, Grows, RunsFollow-refl}
use buildbee.Store.Keeps.{Keeps, Keeps-changes, monad_rules}
use buildbee.Store.Keeps.Runs.{run_rules}
use buildbee.Store.Keeps.Tables.{read_rules, table_rules}
use buildbee.Core.Work.{
  Actor, Who, Notice, emit, log_activity, run_event, join, member, require_member, open_space,
  open_project, notify_person, notify_member, notify_people,
}
use buildbee.Core.Thread.{reply, note, voice, bot_of, conversation}
use buildbee.Core.Queue.{
  branches_for, create_run, queue_merge, own_run, fill_claim, mark_load, mark_queued,
}

-- The flags of the transaction do not count.
pub flag_Grows :
    (w : Work) (queued load : Bool) (last_run : Option Run)
    → Grows w (record w { queued = queued; load = load; last_run = last_run })
flag_Grows w queued load last_run = record {
  clock = refl;
  log = ([], refl);
  numbers = λ n. n;
  emitted = ([], refl);
  runs = RunsFollow-refl w.st.runs;
  keyed = λ k. k;
  routines = RoutinesFollow-refl w.now w.st.routines;
}

pub Keeps-emit :
    (topic : Text) (cursor : ℕ) (type : Text) (body : EventData)
    → Keeps (emit topic cursor type body)
unfolding emit
Keeps-emit topic cursor type body = Keeps-changes _ (λ w. record {
  clock = refl;
  log = ([], refl);
  numbers = λ n. n;
  emitted = (record { topic = topic; cursor = cursor; type = type; body = body } ∷ [], refl);
  runs = RunsFollow-refl w.st.runs;
  keyed = λ k. k;
  routines = RoutinesFollow-refl w.now w.st.routines;
})

pub Keeps-log_activity :
    (project_id : Text) (by : Who) (type action subject_id : Text) (payload : Payload)
    → Keeps (log_activity project_id by type action subject_id payload)
unfolding log_activity
Keeps-log_activity project_id by type action subject_id payload =
    search (monad_rules, table_rules, Keeps-emit)

pub Keeps-run_event :
    (id : Text) (kind : EventKind) (payload : Payload) → Keeps (run_event id kind payload)
unfolding run_event
Keeps-run_event id kind payload = search (monad_rules, run_rules, Keeps-emit)

Keeps-join : (a : Actor) (p : Text) → Keeps (join a p)
unfolding join
Keeps-join a p = search (monad_rules, read_rules, table_rules, Keeps-log_activity) depth 30

pub Keeps-member : (a : Actor) (p : Text) (b : Bool) → Keeps (member a p b)
unfolding member
Keeps-member a p b = search (monad_rules, read_rules, Keeps-join) depth 30

pub Keeps-require_member : (a : Actor) (p : Text) → Keeps (require_member a p)
unfolding require_member
Keeps-require_member a p = search (monad_rules, Keeps-member) depth 30

pub Keeps-open_space : (id : Text) → Keeps (open_space id)
unfolding open_space
Keeps-open_space id = search (monad_rules, read_rules) depth 30

pub Keeps-open_project : (id : Text) → Keeps (open_project id)
unfolding open_project
Keeps-open_project id = search (monad_rules, Keeps-open_space) depth 30

Keeps-notify_person : (id : Text) (n : Notice) → Keeps (notify_person id n)
unfolding notify_person
Keeps-notify_person id n = search (monad_rules, read_rules, table_rules, Keeps-emit) depth 30

pub Keeps-notify_member : (m : Member) (n : Notice) → Keeps (notify_member m n)
unfolding notify_member
Keeps-notify_member m n = search (monad_rules, Keeps-notify_person) depth 30

pub Keeps-notify_people :
    (p : Text) (except : Option Member) (n : Notice) → Keeps (notify_people p except n)
unfolding notify_people
Keeps-notify_people p except n = search (monad_rules, read_rules, Keeps-notify_person) depth 30

Keeps-reply : (t : Task) (m : Member) (body : Text) → Keeps (reply t m body)
unfolding reply
Keeps-reply t m body = search (monad_rules, read_rules, table_rules, Keeps-emit) depth 30

pub Keeps-note : (t : Task) (m : Option Member) (body : Text) → Keeps (note t m body)
unfolding note
Keeps-note t none body = search (monad_rules) depth 30
Keeps-note t (some m) body = search (monad_rules, Keeps-reply) depth 30

pub Keeps-voice : (p : Text) → Keeps (voice p)
unfolding voice
Keeps-voice p = search (monad_rules, read_rules) depth 30

pub Keeps-bot_of : (r : Run) → Keeps (bot_of r)
unfolding bot_of
Keeps-bot_of r = search (monad_rules, read_rules, Keeps-voice) depth 30

pub Keeps-conversation : (t : Task) (b : Option Member) → Keeps (conversation t b)
unfolding conversation
Keeps-conversation t b = search (monad_rules, read_rules) depth 30

pub Keeps-branches_for : (t : Task) (b : Option Member) (k : RunKind) → Keeps (branches_for t b k)
unfolding branches_for
Keeps-branches_for t b k = search (monad_rules, read_rules, run_rules) depth 30

Keeps-mark_queued : Keeps mark_queued
Keeps-mark_queued = Keeps-changes _ (λ w. flag_Grows w true w.load w.last_run)

pub Keeps-mark_load : Keeps mark_load
Keeps-mark_load = Keeps-changes _ (λ w. flag_Grows w w.queued true w.last_run)

pub Keeps-create_run :
    (p : Project) (t : Task) (b : Option Member) (agent : Text) (k : Option RunKind) (by : Who)
    → Keeps (create_run p t b agent k by)
unfolding create_run
Keeps-create_run p t b agent k by =
    search
      (
        monad_rules, read_rules, run_rules, Keeps-conversation, Keeps-branches_for,
        Keeps-mark_queued, Keeps-run_event, Keeps-log_activity,
      )
      depth 40

pub Keeps-queue_merge : (t : Task) (by : Who) → Keeps (queue_merge t by)
unfolding queue_merge
Keeps-queue_merge t by =
    search (monad_rules, run_rules, Keeps-mark_queued, Keeps-run_event, Keeps-log_activity) depth 40

pub ruleset work_rules = (
  Keeps-log_activity, Keeps-run_event, Keeps-member, Keeps-open_project, Keeps-notify_member,
  Keeps-notify_people, Keeps-note, Keeps-voice, Keeps-bot_of, Keeps-mark_load, Keeps-create_run,
  Keeps-queue_merge,
)
