-- ===== src/Core/Grows/Chat.antt =====
-- What the operations on messages and Channels keep.
use buildbee.Base.{refl, Option, none, some, List, [], ◌∷◌}
use buildbee.Text.{Text}
use buildbee.Models.Records.{Project, Member, Task, Message, Channel}
use buildbee.Store.Grows.{RunsFollow-refl, RoutinesFollow-refl}
use buildbee.Store.Keeps.{Keeps, Keeps-pure, Keeps-changes, monad_rules}
use buildbee.Store.Keeps.Tables.{read_rules, table_rules}
use buildbee.Store.Keeps.Chat.{chat_rules}
use buildbee.Core.Work.{Actor}
use buildbee.Core.Chat.{
  link_thread, root_of, tell, thread_task, asked_task, hand_all, task_of_post, hand_to_bots,
  set_in_motion, root_now, post, send, send_reply,
}
use buildbee.Core.Chat.Changes.{
  insider, own_message, change_message, lose_blobs, remove_message, remove_dm,
}
use buildbee.Core.Grows.{work_rules, Keeps-require_member, Keeps-emit, Keeps-open_space}
use buildbee.Core.Grows.Moves.{Keeps-handoff}
use buildbee.Core.Grows.Tasks.{Keeps-create_task, Keeps-open_thread, Keeps-steer_task}

Keeps-link_thread : (t : Task) (id : Text) → Keeps (link_thread t id)
unfolding link_thread
Keeps-link_thread t id = search (monad_rules, table_rules, chat_rules) depth 40

Keeps-root_of : (ch : Channel) (id : Text) → Keeps (root_of ch id)
unfolding root_of
Keeps-root_of ch id = search (monad_rules, read_rules) depth 40

Keeps-tell :
    (ch : Channel) (m : Member) (body id : Text) (people members : List Member)
    → Keeps (tell ch m body id people members)
unfolding tell
Keeps-tell ch m body id people members = search (monad_rules, work_rules) depth 40

Keeps-thread_task : (m : Option Message) → Keeps (thread_task m)
unfolding thread_task
Keeps-thread_task none = Keeps-pure none
Keeps-thread_task (some m) = search (monad_rules, read_rules) depth 40

Keeps-asked_task :
    (p : Project) (ch : Channel) (m : Member) (a : Actor) (body : Text) (root : Option Message)
    (msg : Message)
    → Keeps (asked_task p ch m a body root msg)
unfolding asked_task
Keeps-asked_task p ch m a body root msg =
    search (monad_rules, chat_rules, Keeps-create_task, Keeps-link_thread, Keeps-open_thread) depth
      60

Keeps-hand_all :
    (p : Project) (m : Member) (a : Actor) (body : Text) (bots : List Member) (t : Task)
    → Keeps (hand_all p m a body bots t)
unfolding hand_all
Keeps-hand_all p m a body [] t = Keeps-pure ([], t)
Keeps-hand_all p m a body (b ∷ bots) t =
    search (monad_rules, Keeps-handoff, Keeps-hand_all p m a body bots) depth 40

Keeps-task_of_post :
    (p : Project) (ch : Channel) (m : Member) (a : Actor) (body : Text) (root : Option Message)
    (msg : Message) (t : Option Task)
    → Keeps (task_of_post p ch m a body root msg t)
Keeps-task_of_post p ch m a body root msg none = search (monad_rules, Keeps-asked_task) depth 40
Keeps-task_of_post p ch m a body root msg (some t) = Keeps-pure (t, msg)

Keeps-hand_to_bots :
    (p : Project) (ch : Channel) (m : Member) (a : Actor) (body : Text) (root : Option Message)
    (msg : Message) (t : Option Task) (bots : List Member)
    → Keeps (hand_to_bots p ch m a body root msg t bots)
unfolding hand_to_bots
Keeps-hand_to_bots p ch m a body root msg t bots =
    search (monad_rules, Keeps-task_of_post, Keeps-hand_all) depth 40

Keeps-set_in_motion :
    (p : Project) (ch : Channel) (m : Member) (a : Actor) (body : Text) (root : Option Message)
    (msg : Message) (members : List Member)
    → Keeps (set_in_motion p ch m a body root msg members)
unfolding set_in_motion
Keeps-set_in_motion p ch m a body root msg members =
    search (monad_rules, Keeps-thread_task, Keeps-steer_task, Keeps-hand_to_bots) depth 40

Keeps-root_now : (m : Option Message) → Keeps (root_now m)
Keeps-root_now none = Keeps-pure none
Keeps-root_now (some m) = search (monad_rules, read_rules) depth 40

Keeps-post :
    (p : Project) (ch : Channel) (m : Member) (a : Actor) (body thread : Text)
    → Keeps (post p ch m a body thread)
unfolding post
Keeps-post p ch m a body thread =
    search
      (
        monad_rules, read_rules, table_rules, Keeps-root_of, Keeps-tell, Keeps-set_in_motion,
        Keeps-root_now, Keeps-emit,
      )
      depth 60

pub Keeps-send :
    (a : Actor) (ch thread body : Text) (files : List Text) → Keeps (send a ch thread body files)
unfolding send
Keeps-send a ch thread body files =
    search (monad_rules, chat_rules, Keeps-open_space, Keeps-require_member, Keeps-post) depth 60

pub Keeps-send_reply :
    (a : Actor) (id body : Text) (files : List Text) → Keeps (send_reply a id body files)
unfolding send_reply
Keeps-send_reply a id body files = search (monad_rules, read_rules, Keeps-send) depth 40

Keeps-insider : (a : Actor) (ch : Channel) → Keeps (insider a ch)
unfolding insider
Keeps-insider a ch = search (monad_rules, read_rules) depth 40

Keeps-own_message : (a : Actor) (id : Text) → Keeps (own_message a id)
unfolding own_message
Keeps-own_message a id =
    search (monad_rules, read_rules, chat_rules, Keeps-open_space, Keeps-insider) depth 60

pub Keeps-change_message : (a : Actor) (id body : Text) → Keeps (change_message a id body)
unfolding change_message
Keeps-change_message a id body =
    search (monad_rules, read_rules, chat_rules, Keeps-own_message, Keeps-emit) depth 60

Keeps-lose_blobs : (keys : List Text) → Keeps (lose_blobs keys)
unfolding lose_blobs
Keeps-lose_blobs keys = Keeps-changes _ (λ w. record {
  clock = refl;
  log = ([], refl);
  numbers = λ n. n;
  emitted = ([], refl);
  runs = RunsFollow-refl w.st.runs;
  keyed = λ k. k;
  routines = RoutinesFollow-refl w.now w.st.routines;
})

pub Keeps-remove_message : (a : Actor) (id : Text) → Keeps (remove_message a id)
unfolding remove_message
Keeps-remove_message a id =
    search (monad_rules, read_rules, chat_rules, Keeps-own_message, Keeps-lose_blobs, Keeps-emit)
      depth 60

pub Keeps-remove_dm : (a : Actor) (id : Text) → Keeps (remove_dm a id)
unfolding remove_dm
Keeps-remove_dm a id =
    search (monad_rules, read_rules, chat_rules, work_rules, Keeps-lose_blobs) depth 60
