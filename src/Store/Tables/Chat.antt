-- ===== src/Store/Tables/Chat.antt =====
-- internal/store/projects.go, feeds.go and files.go: Channels, changes to messages, and the files
-- that people attach to them.
use buildbee.Base.{
  Bool, true, false, not, ◌&&◌, ◌||◌, none, some, List, [], map, keep, exists, length, is_empty,
  ltb, ◌==◌, if◌then◌else◌,
}
use buildbee.Base.Result.{not_found, invalid, ok}
use buildbee.Base.Sort.{sort_by}
use buildbee.Text.{Text, text_eq}
use buildbee.Models.Members.{is_nil}
use buildbee.Models.Records.{Time, Message, Channel, ChannelKind, open_channel, dm, File}
use buildbee.Store.{W, Db, pure, found, gets, ◌>>=◌, ◌>>◌, refuse}
use buildbee.Store.Rows.{find_row, update_row, update_where}
use buildbee.Store.Inserts.{set_st, insert_row, oldest}
use buildbee.Store.Tables.Feeds.{message_key, get_message}

abbrev pub channel_key : Channel → Text
channel_key c = c.id

abbrev pub file_key : File → Text
file_key f = f.id

abbrev pub is_dm : ChannelKind → Bool
is_dm open_channel = false
is_dm dm = true

-- Allows
unfoldable pub allows : Channel → Text → Bool
unfolding exists
allows c member_id = if is_dm c.kind then exists (λ m. text_eq m member_id) c.members else true

-- InsertChannel
unfoldable pub insert_channel : Channel → W (Unit {0})
insert_channel c =
    insert_row channel_key (λ db. db.channels) (λ cs db. record db { channels = cs })
      (record c { members = []; archived_at = none })

-- GetChannel
unfoldable pub get_channel : Text → W Channel
unfolding find_row
get_channel id w = found (find_row channel_key id w.st.channels) w

-- ORDER BY locked DESC, created_at, id
unfoldable pub channel_le : Channel → Channel → Bool
unfolding oldest
channel_le a b =
    if a.locked
    then not b.locked || oldest (λ c. c.created_at) channel_key a b
    else not b.locked && oldest (λ c. c.created_at) channel_key a b

abbrev pub listed_in : Text → Bool → Channel → Bool
listed_in project_id archived c =
    text_eq c.project_id project_id && not (is_dm c.kind) && (archived || is_nil c.archived_at)

-- ListChannels
unfoldable pub list_channels : Text → Bool → W (List Channel)
unfolding keep sort_by
list_channels project_id archived w =
    ok (sort_by channel_le (keep (listed_in project_id archived) w.st.channels), w)

abbrev pub channel_columns : Channel → Channel → Channel
channel_columns c x = record x { name = c.name; archived_at = c.archived_at }

-- UpdateChannel
unfoldable pub update_channel : Channel → W (Unit {0})
unfolding update_row
update_channel c =
    get_channel c.id
    >> set_st
        (λ db. record db { channels = update_row channel_key c.id (channel_columns c) db.channels })

-- DeleteChannel: its messages and files go with it (ON DELETE CASCADE), and a Task whose thread it
-- held has none (ON DELETE SET NULL).
unfoldable pub delete_channel : Text → W (Unit {0})
unfolding keep exists update_where
delete_channel id =
    get_channel id
    >> set_st (λ db. record db {
      channels = keep (λ c. not (text_eq c.id id)) db.channels;
      messages = keep (λ m. not (text_eq m.channel_id id)) db.messages;
      files = keep (λ f. not (text_eq f.channel_id id)) db.files;
      tasks =
          update_where (λ t. t.id)
            (λ t. exists (λ m. text_eq m.id t.thread_id && text_eq m.channel_id id) db.messages)
            (λ t. record t { thread_id = [] }) db.tasks;
    })

abbrev pub set_messages : (List Message → List Message) → Db → Db
set_messages f db = record db { messages = f db.messages }

-- `one(UPDATE messages SET ... WHERE id = $1 AND deleted_at IS NULL)`
abbrev update_message : Text → (Message → Message) → W (Unit {0})
update_message id f = get_message id >>= λ m.
    refuse (not (is_nil m.deleted_at)) not_found
    >> set_st (set_messages (update_row message_key id f))

-- EditMessage
unfoldable pub edit_message : Text → Text → Time → W (Unit {0})
unfolding update_row
edit_message id body at = update_message id (λ m. record m { body = body; edited_at = some at })

-- DeleteMessage
unfoldable pub delete_message : Text → Time → W (Unit {0})
unfolding update_row
delete_message id at = update_message id (λ m. record m { body = []; deleted_at = some at })

-- SetMessageTask
unfoldable pub set_message_task : Text → Text → W (Unit {0})
unfolding update_row
set_message_task id task_id =
    get_message id
    >> set_st (set_messages (update_row message_key id (λ m. record m { task_id = task_id })))

-- The WHERE clause of AttachFiles.
unfoldable pub attachable : List Text → Text → Text → File → Bool
unfolding exists
attachable ids person_id channel_id f =
    exists (λ i. text_eq f.id i) ids
    && text_eq f.uploader_person_id person_id
    && text_eq f.channel_id channel_id
    && is_empty f.message_id

abbrev pub attached : Text → File → File
attached message_id f = record f { message_id = message_id }

-- AttachFiles
unfoldable pub attach_files : List Text → Text → Text → Text → W (List File)
unfolding keep update_where
attach_files ids message_id person_id channel_id =
    if is_empty ids
    then pure []
    else gets (λ w. keep (attachable ids person_id channel_id) w.st.files) >>= λ fs.
        set_st (λ db. record db {
          files =
              update_where file_key (attachable ids person_id channel_id) (attached message_id)
                db.files;
        })
        >> refuse (not (length fs == length ids)) invalid
        >> pure (map (attached message_id) fs)

-- DeleteFilesOf
unfoldable pub delete_files_of : Text → W (List Text)
unfolding keep
delete_files_of message_id =
    gets (λ w. map (λ f. f.blob_key) (keep (λ f. text_eq f.message_id message_id) w.st.files))
    >>= λ keys.
        set_st
          (λ db. record db { files = keep (λ f. not (text_eq f.message_id message_id)) db.files })
        >> pure keys

-- ChannelBlobKeys
unfoldable pub channel_blob_keys : Text → W (List Text)
unfolding keep
channel_blob_keys id =
    gets (λ w. map (λ f. f.blob_key) (keep (λ f. text_eq f.channel_id id) w.st.files))

-- DeleteUnattached
unfoldable pub delete_unattached : Time → W (List Text)
unfolding keep
delete_unattached before =
    gets (λ w.
      map (λ f. f.blob_key)
        (keep (λ f. is_empty f.message_id && ltb f.created_at before) w.st.files))
    >>= λ keys.
        set_st (λ db. record db {
          files = keep (λ f. not (is_empty f.message_id && ltb f.created_at before)) db.files;
        })
        >> pure keys
