-- ===== src/Core/Thread.antt =====
-- internal/core/chat.go: what Bots say in a Task's thread, and the thread as a Bot reads it.
use buildbee.Base.{
  ℕ, ◌+◌, Bool, false, not, ◌&&◌, ◌||◌, Option, none, some, List, [], ◌∷◌, ◌++◌, map, keep, first,
  length, ltb, is_empty, if◌then◌else◌,
}
use buildbee.Text.{Text, bytes, text_eq, truncate, trim_space}
use buildbee.Event.{posted_data, bare}
use buildbee.Models.Members.{is_nil, member_by_role}
use buildbee.Models.Records.{Member, Task, Run, Message}
use buildbee.Store.{W, pure, new_id, ◌>>=◌, on_nil, attempt}
use buildbee.Store.Tables.{get_message, insert_message, list_replies, list_members, get_member}
use buildbee.Core.Work.{the_time, emit}

abbrev message_or : Option Message → Message → Message
message_or none m = m
message_or (some r) m = r

abbrev is_blank : Text → Bool
is_blank s = is_empty (trim_space s)

-- The part of `note` for an author, in a Task that has a thread.
unfoldable pub reply : Task → Member → Text → W (Unit {0})
reply task author body = get_message task.thread_id >>= λ root. new_id >>= λ id. the_time >>= λ now.
    insert_message (record {
      id = id;
      seq = 0;
      channel_id = root.channel_id;
      project_id = root.project_id;
      member_id = author.id;
      body = truncate body 8000;
      thread_id = root.id;
      reply_count = 0;
      last_reply_at = none;
      task_id = [];
      edited_at = none;
      deleted_at = none;
      created_at = now;
    })
    >>= λ msg. attempt (get_message root.id) >>= λ again.
        emit (bytes "channel:" ++ (message_or again root).channel_id) msg.seq (bytes "message")
          (posted_data (bare msg (some (message_or again root))))

-- note
unfoldable pub note : Task → Option Member → Text → W (Unit {0})
note task none body = pure tt
note task (some author) body =
    if is_empty task.thread_id || is_blank body then pure tt else reply task author body

-- voice
unfoldable pub voice : Text → W (Option Member)
voice project_id =
    list_members project_id >>= λ members. pure (member_by_role members (bytes "pulse"))

-- botOf
unfoldable pub bot_of : Run → W (Option Member)
bot_of r =
    if is_empty r.bot_member_id
    then voice r.project_id
    else attempt (get_member r.bot_member_id) >>= λ m.
        on_nil m (voice r.project_id) (λ bot. pure (some bot))

-- size
unfoldable pub size : List Text → ℕ
size [] = 0
size (x ∷ xs) = length x + 2 + size xs

-- convoReplies, convoBytes
abbrev pub convo_replies : ℕ
convo_replies = 60

abbrev pub convo_bytes : ℕ
convo_bytes = 24000

-- The loop of `conversation`: drop the second of what was said while there is too much of it.
unfoldable pub trim_middle : ℕ → Text → List Text → List Text
unfolding size
trim_middle bound ask [] = ask ∷ []
trim_middle bound ask (x ∷ rest) =
    if ltb bound (size (ask ∷ x ∷ rest)) then trim_middle bound ask rest else ask ∷ x ∷ rest

abbrev display_name : Text → Text → List Member → Text
display_name id none_found members = elim (first (λ m. text_eq m.id id) members) [
  | none ↦ none_found
  | some m ↦ m.display_name
]

abbrev is_bot : Option Member → Text → Bool
is_bot none id = false
is_bot (some b) id = text_eq id b.id

-- strings.Join
unfoldable pub join_texts : Text → List Text → Text
join_texts sep [] = []
join_texts sep (x ∷ []) = x
join_texts sep (x ∷ y ∷ rest) = x ++ sep ++ join_texts sep (y ∷ rest)

abbrev pub newline : Text
newline = 10 ∷ []

abbrev pub blank_line : Text
blank_line = 10 ∷ 10 ∷ []

abbrev says : Message → Bool
says m = is_nil m.deleted_at && not (is_blank m.body)

abbrev said_by : Option Member → List Member → Message → Text
said_by bot members m =
    (if is_bot bot m.member_id
      then bytes "You"
      else display_name m.member_id (bytes "Someone") members)
    ++ bytes ": "
    ++ m.body

abbrev conversation_text : List Text → Text
conversation_text [] = []
conversation_text (ask ∷ rest) =
    bytes "The conversation so far:"
    ++ blank_line
    ++ join_texts blank_line (trim_middle convo_bytes ask rest)
    ++ newline

-- conversation
unfoldable pub conversation : Task → Option Member → W Text
unfolding keep first join_texts trim_middle
conversation task bot =
    if is_empty task.thread_id
    then pure []
    else get_message task.thread_id >>= λ root. list_replies root.id convo_replies >>= λ replies.
        list_members task.project_id >>= λ members.
        pure (conversation_text (map (said_by bot members) (keep says (root ∷ replies))))
