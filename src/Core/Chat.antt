-- ===== src/Core/Chat.antt =====
-- internal/core/chat.go: what people post in Channels, threads and direct messages, and what their
-- messages set in motion. What requireMember returns is never nil.
pub mod Changes
use buildbee.Base.{
  Bool, true, false, not, ◌&&◌, ◌||◌, Option, none, some, List, [], ◌∷◌, ◌++◌, exists, length,
  is_empty, ltb, if◌then◌else◌,
}
use buildbee.Base.Result.{invalid, conflict, not_found, ◌and_then◌, deny}
use buildbee.Text.{Text, bytes, text_eq, truncate, check_text}
use buildbee.Event.{Posted, bare, posted_data}
use buildbee.Models.Members.{is_nil}
use buildbee.Models.Mentions.{mentioned_bots, mentioned_people, mention_title}
use buildbee.Models.Records.{Project, Member, Task, Handoff, Message, Channel}
use buildbee.Store.{
  W, pure, fail, gets, with_result, new_id, ◌>>=◌, ◌>>◌, refuse, on_nil, attempt, each,
}
use buildbee.Store.Tables.{
  get_task, list_members, update_task, get_channel, allows, is_dm, insert_message, get_message,
  set_message_task, attach_files,
}
use buildbee.Core.Work.{
  Actor, Notice, the_time, emit, require_member, open_space, notify_member, is_human,
}
use buildbee.Core.Pilot.Handoff.{handoff}
use buildbee.Core.Tasks.{create_task, open_thread, root_message, with_thread}
use buildbee.Core.Steer.{steer_task}

-- linkThread, which returns the Task that it has changed.
unfoldable pub link_thread : Task → Text → W Task
link_thread task message_id = set_message_task message_id task.id >> the_time >>= λ now.
    let t = with_thread message_id now task in update_task t >> pure t

-- The root of the thread that a reply is for.
unfoldable pub root_of : Channel → Text → W (Option Message)
root_of ch thread_id =
    if is_empty thread_id
    then pure none
    else attempt (get_message thread_id) >>= λ found. on_nil found (fail invalid) (λ r.
      refuse (not (text_eq r.channel_id ch.id) || not (is_empty r.thread_id)) invalid
      >> pure (some r))

abbrev where_posted : Channel → Text
where_posted ch = if is_dm ch.kind then bytes "a direct message" else b'#' ∷ ch.name

-- href to the Channel, or to the thread
abbrev link : Channel → Text → Text
link ch thread_id =
    bytes "#/projects/"
    ++ ch.project_id
    ++ (if is_empty thread_id then bytes "/channels/" ++ ch.id else bytes "/threads/" ++ thread_id)

abbrev pub mention_notice : Channel → Member → Text → Text → Notice
mention_notice ch author body thread_id = record {
  project_id = ch.project_id;
  kind = bytes "mention";
  title = author.display_name ++ bytes " mentioned you in " ++ where_posted ch;
  body = truncate body 500;
  href = link ch thread_id;
}

abbrev pub dm_notice : Channel → Member → Text → Text → Notice
dm_notice ch author body thread_id = record {
  project_id = ch.project_id;
  kind = bytes "dm";
  title = author.display_name ++ bytes " messaged you";
  body = truncate body 500;
  href = link ch thread_id;
}

-- Does a direct message tell this Member, who is not told of a mention?
unfoldable pub hears : Channel → Member → List Member → Member → Bool
unfolding exists
hears ch author people p =
    not (text_eq p.id author.id)
    && is_human p
    && allows ch p.id
    && not (exists (λ m. text_eq m.id p.id) people)

-- The two loops of `post` that notify people.
unfoldable pub tell : Channel → Member → Text → Text → List Member → List Member → W (Unit {0})
tell ch author body thread_id people members =
    each
      (λ p.
        if text_eq p.id author.id
        then pure tt
        else notify_member p (mention_notice ch author body thread_id))
      people
    >> (if is_dm ch.kind && is_human author
        then each
            (λ p.
              if hears ch author people p
              then notify_member p (dm_notice ch author body thread_id)
              else pure tt)
            members
        else pure tt)

-- The Task of a thread.
unfoldable pub thread_task : Option Message → W (Option Task)
thread_task none = pure none
thread_task (some r) =
    if is_empty r.task_id then pure none else get_task r.task_id >>= λ t. pure (some t)

-- The Task that a message which names a Bot opens.
unfoldable pub asked_task :
    Project → Channel → Member → Actor → Text → Option Message → Message → W Task
asked_task proj ch author a body root msg =
    gets (λ w. mention_title w.letter body ch.name) >>= λ title.
    create_task proj (some author) a title body [] >>= λ task.
    if ch.locked && is_nil root
    then link_thread task msg.id
    else open_thread proj task (some author) (bytes "Task: " ++ task.title) [] >>= λ t.
        set_message_task msg.id t.id >> pure t

-- The loop over the Bots: each takes the Task from the Bot before it.
unfoldable pub hand_all :
    Project → Member → Actor → Text → List Member → Task → W (List Handoff × Task)
hand_all proj author a body [] task = pure ([], task)
hand_all proj author a body (b ∷ rest) task = handoff proj task author b a body true >>= λ h.
    hand_all proj author a body rest h.1 >>= λ r. pure (h.0 ∷ r.0, r.1)

abbrev pub about : Message → Task → Message
about m t = record m { task_id = t.id }

abbrev pub task_of_post :
    Project
    → Channel
    → Member
    → Actor
    → Text
    → Option Message
    → Message
    → Option Task
    → W (Task × Message)
task_of_post proj ch author a body root msg none =
    asked_task proj ch author a body root msg >>= λ t. pure (t, about msg t)
task_of_post proj ch author a body root msg (some t) = pure (t, msg)

-- `case len(bots) > 0`
unfoldable pub hand_to_bots :
    Project
    → Channel
    → Member
    → Actor
    → Text
    → Option Message
    → Message
    → Option Task
    → List Member
    → W Posted
hand_to_bots proj ch author a body root msg task bots =
    task_of_post proj ch author a body root msg task >>= λ p.
    hand_all proj author a body bots p.0 >>= λ h.
    pure (record { message = p.1; mentions = bots; tasks = h.1 ∷ []; handoffs = h.0; root = none })

-- What a person's message sets in motion.
unfoldable pub set_in_motion :
    Project → Channel → Member → Actor → Text → Option Message → Message → List Member → W Posted
set_in_motion proj ch author a body root msg members =
    gets (λ w. mentioned_bots w.lower w.letter body members) >>= λ bots.
    thread_task root >>= λ task.
    if is_empty bots
    then on_nil task (pure (bare msg none))
        (λ t. steer_task t author a body >> pure (bare msg none))
    else hand_to_bots proj ch author a body root msg task bots

-- The root of the thread as it stands now.
abbrev pub root_now : Option Message → W (Option Message)
root_now none = pure none
root_now (some r) = attempt (get_message r.id)

-- post
unfoldable pub post : Project → Channel → Member → Actor → Text → Text → W Posted
post proj ch author a body thread_id = root_of ch thread_id >>= λ root. new_id >>= λ id.
    the_time >>= λ now.
    insert_message (root_message id ch ch.project_id author body thread_id [] now) >>= λ msg.
    list_members ch.project_id >>= λ members.
    gets (λ w. mentioned_people w.lower w.letter body members) >>= λ people.
    tell ch author body thread_id people members
    >> (if is_human author
        then set_in_motion proj ch author a body root msg members
        else pure (bare msg none))
    >>= λ out. root_now root >>= λ r.
        let out : Posted = record out { root = r } in
        emit (bytes "channel:" ++ ch.id) msg.seq (bytes "message") (posted_data out) >> pure out

-- send, PostMessage where there is no thread
unfoldable pub send : Actor → Text → Text → Text → List Text → W Posted
send a channel_id thread_id body file_ids =
    with_result (
      deny (ltb 20 (length file_ids)) invalid and_then λ _.
      check_text body (is_empty file_ids) 32000)
    >>= λ b. get_channel channel_id >>= λ ch.
        refuse (not (is_nil ch.archived_at)) conflict >> open_space ch.project_id >>= λ proj.
        require_member a ch.project_id >>= λ m. on_nil m (fail invalid) (λ author.
          refuse (not (allows ch author.id)) not_found
          >> post proj ch author a b thread_id
          >>= λ out. attach_files file_ids out.message.id a.person_id ch.id >> pure out)

-- Reply
unfoldable pub send_reply : Actor → Text → Text → List Text → W Posted
send_reply a message_id body file_ids = get_message message_id >>= λ m.
    send a m.channel_id (if is_empty m.thread_id then m.id else m.thread_id) body file_ids
