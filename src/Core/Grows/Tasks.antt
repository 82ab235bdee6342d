-- ===== src/Core/Grows/Tasks.antt =====
-- What the operations on Tasks, and on the Runs that people start and steer, keep.
use buildbee.Base.{Bool, Option, none, some}
use buildbee.Text.{Text}
use buildbee.Models.Records.{Payload, Project, Member, Task, Run, Handoff, Channel}
use buildbee.Store.Keeps.{Keeps, Keeps-pure, monad_rules}
use buildbee.Store.Keeps.Runs.{run_rules}
use buildbee.Store.Keeps.Runs.Stops.{Keeps-update_run_prompt}
use buildbee.Store.Keeps.Tables.{read_rules, table_rules}
use buildbee.Store.Keeps.Chat.{chat_rules}
use buildbee.Core.Work.{Actor, Who}
use buildbee.Core.Tasks.{
  same_project, create_task, thread_channel, post_thread, open_thread, NewTask, CheckedTask,
  speaker_or, hand_on, open_new_task, TaskPatch, save_task, edit_task,
}
use buildbee.Core.Tasks.Handoffs.{
  NewHandoff, receiver, create_handoff, ask_if_ready, finish_handoff,
}
use buildbee.Core.Ask.{Question, create_decision, PermissionAsk, ask_permission}
use buildbee.Core.Steer.{NewRun, chosen_bot, start_run, steer_agent, steer_run, steer_task}
use buildbee.Core.Grows.{work_rules, Keeps-require_member, Keeps-emit}
use buildbee.Core.Grows.Moves.{Keeps-handoff, Keeps-open_decision, Keeps-run_actor}

Keeps-same_project : (p m : Text) → Keeps (same_project p m)
unfolding same_project
Keeps-same_project p m = search (monad_rules, read_rules) depth 30

pub Keeps-create_task :
    (p : Project) (by : Option Member) (a : Actor) (title body assignee : Text)
    → Keeps (create_task p by a title body assignee)
unfolding create_task
Keeps-create_task p by a title body assignee =
    search (monad_rules, chat_rules, work_rules, Keeps-same_project) depth 40

Keeps-thread_channel : (p : Project) (m : Member) (id : Text) → Keeps (thread_channel p m id)
unfolding thread_channel
Keeps-thread_channel p m id = search (monad_rules, chat_rules) depth 40

Keeps-post_thread :
    (p : Project) (t : Task) (m : Member) (body : Text) (ch : Channel)
    → Keeps (post_thread p t m body ch)
unfolding post_thread
Keeps-post_thread p t m body ch = search (monad_rules, table_rules, Keeps-emit) depth 40

pub Keeps-open_thread :
    (p : Project) (t : Task) (m : Option Member) (body ch : Text)
    → Keeps (open_thread p t m body ch)
unfolding open_thread
Keeps-open_thread p t none body ch = Keeps-pure t
Keeps-open_thread p t (some m) body ch =
    search (monad_rules, Keeps-thread_channel, Keeps-post_thread) depth 40

Keeps-hand_on :
    (p : Project) (t : Task) (m : Member) (a : Actor) (c : CheckedTask) (b : Bool)
    → Keeps (hand_on p t m a c b)
unfolding hand_on
Keeps-hand_on p t m a c b = search (monad_rules, read_rules, Keeps-handoff) depth 40

Keeps-speaker_or : (m : Option Member) (p : Text) → Keeps (speaker_or m p)
Keeps-speaker_or none p = search (work_rules)
Keeps-speaker_or (some m) p = Keeps-pure (some m)

pub Keeps-open_new_task : (a : Actor) (p : Text) (new : NewTask) → Keeps (open_new_task a p new)
unfolding open_new_task
Keeps-open_new_task a p new =
    search
      (
        monad_rules, work_rules, Keeps-create_task, Keeps-speaker_or, Keeps-open_thread,
        Keeps-hand_on,
      )
      depth 60

Keeps-save_task :
    (a : Actor) (m : Option Member) (t : Task) (c : Payload) → Keeps (save_task a m t c)
unfolding save_task
Keeps-save_task a m t c = search (monad_rules, table_rules, work_rules) depth 40

pub Keeps-edit_task : (a : Actor) (id : Text) (p : TaskPatch) → Keeps (edit_task a id p)
unfolding edit_task
Keeps-edit_task a id p = search (monad_rules, read_rules, work_rules, Keeps-save_task) depth 40

Keeps-receiver : (p : Text) (new : NewHandoff) → Keeps (receiver p new)
unfolding receiver
Keeps-receiver p new = search (monad_rules, read_rules) depth 40

pub Keeps-create_handoff :
    (a : Actor) (id : Text) (new : NewHandoff) → Keeps (create_handoff a id new)
unfolding create_handoff
Keeps-create_handoff a id new =
    search
      (monad_rules, read_rules, work_rules, Keeps-require_member, Keeps-receiver, Keeps-handoff)
      depth 60

Keeps-ask_if_ready :
    (h : Handoff) (by : Who) (m : Option Member) (b : Bool) → Keeps (ask_if_ready h by m b)
unfolding ask_if_ready
Keeps-ask_if_ready h by m b = search (monad_rules, read_rules, Keeps-open_decision) depth 40

pub Keeps-finish_handoff : (a : Actor) (id : Text) (b : Bool) → Keeps (finish_handoff a id b)
unfolding finish_handoff
Keeps-finish_handoff a id b =
    search (monad_rules, read_rules, table_rules, work_rules, Keeps-ask_if_ready) depth 60

pub Keeps-create_decision : (a : Actor) (p : Text) (q : Question) → Keeps (create_decision a p q)
unfolding create_decision
Keeps-create_decision a p q =
    search (monad_rules, read_rules, work_rules, Keeps-same_project, Keeps-open_decision) depth 60

pub Keeps-ask_permission :
    (a : Actor) (id : Text) (q : PermissionAsk) → Keeps (ask_permission a id q)
unfolding ask_permission
Keeps-ask_permission a id q =
    search (monad_rules, read_rules, run_rules, Keeps-run_actor, Keeps-open_decision) depth 60

Keeps-chosen_bot : (t : Task) (id : Text) → Keeps (chosen_bot t id)
unfolding chosen_bot
Keeps-chosen_bot t id = search (monad_rules, read_rules) depth 40

pub Keeps-start_run : (a : Actor) (id : Text) (new : NewRun) → Keeps (start_run a id new)
unfolding start_run
Keeps-start_run a id new = search (monad_rules, read_rules, work_rules, Keeps-chosen_bot) depth 60

Keeps-steer_agent :
    (r : Run) (m : Member) (a : Actor) (msg : Text) (b : Bool) → Keeps (steer_agent r m a msg b)
unfolding steer_agent
Keeps-steer_agent r m a msg b = search (monad_rules, work_rules, Keeps-update_run_prompt) depth 40

pub Keeps-steer_run : (a : Actor) (id msg : Text) (b : Bool) → Keeps (steer_run a id msg b)
unfolding steer_run
Keeps-steer_run a id msg b =
    search (monad_rules, run_rules, Keeps-require_member, Keeps-steer_agent) depth 60

pub Keeps-steer_task :
    (t : Task) (m : Member) (a : Actor) (msg : Text) → Keeps (steer_task t m a msg)
unfolding steer_task
Keeps-steer_task t m a msg = search (monad_rules, run_rules, Keeps-steer_agent) depth 40
