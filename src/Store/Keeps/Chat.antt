-- ===== src/Store/Keeps/Chat.antt =====
-- internal/store: what Channels, changes to messages, files and new Tasks keep.
use buildbee.Base.{ℕ, refl, Bool, List}
use buildbee.Base.Result.{not_found, invalid}
use buildbee.Text.{Text}
use buildbee.Models.Records.{Time, Task, Channel}
use buildbee.Store.Keeps.{
  Keeps, same_state, found-same, Keeps-bind, Keeps-pure, Keeps-refuse, Keeps-gets, Keeps-if,
  Keeps-on_nil, Keeps-new_id,
}
use buildbee.Store.Keeps.Tables.{Keeps-insert_row, Keeps-set_st}
use buildbee.Store.Keeps.Tables.Reads.{Keeps-get_message, Keeps-get_task}
use buildbee.Store.Runs.{task_key}
use buildbee.Store.Tables.{
  insert_channel, get_channel, list_channels, update_channel, delete_channel, edit_message,
  delete_message, set_message_task, attach_files, delete_files_of, channel_blob_keys, insert_task,
  upsert_issue_task, channel_key,
}

pub Keeps-insert_channel : (c : Channel) → Keeps (insert_channel c)
unfolding insert_channel
Keeps-insert_channel c = Keeps-insert_row channel_key _ _ _ (λ _ _. (refl, refl, refl, refl))

pub Keeps-get_channel : (id : Text) → Keeps (get_channel id)
unfolding get_channel
Keeps-get_channel id = record { at = λ w w' r h. found-same _ w w' r h }

pub Keeps-list_channels : (p : Text) (b : Bool) → Keeps (list_channels p b)
unfolding list_channels
Keeps-list_channels p b = record { at = λ w w' r h. same_state w w' _ r h }

pub Keeps-update_channel : (c : Channel) → Keeps (update_channel c)
unfolding update_channel
Keeps-update_channel c =
    Keeps-bind _ _ (Keeps-get_channel c.id) (λ _. Keeps-set_st _ (λ _. (refl, refl, refl, refl)))

pub Keeps-delete_channel : (id : Text) → Keeps (delete_channel id)
unfolding delete_channel
Keeps-delete_channel id =
    Keeps-bind _ _ (Keeps-get_channel id) (λ _. Keeps-set_st _ (λ _. (refl, refl, refl, refl)))

pub Keeps-edit_message : (id body : Text) (at : Time) → Keeps (edit_message id body at)
unfolding edit_message
Keeps-edit_message id body at = Keeps-bind _ _ (Keeps-get_message id) (λ m.
    Keeps-bind _ _ (Keeps-refuse _ not_found) (λ _. Keeps-set_st _ (λ _. (refl, refl, refl, refl))))

pub Keeps-delete_message : (id : Text) (at : Time) → Keeps (delete_message id at)
unfolding delete_message
Keeps-delete_message id at = Keeps-bind _ _ (Keeps-get_message id) (λ m.
    Keeps-bind _ _ (Keeps-refuse _ not_found) (λ _. Keeps-set_st _ (λ _. (refl, refl, refl, refl))))

pub Keeps-set_message_task : (id task_id : Text) → Keeps (set_message_task id task_id)
unfolding set_message_task
Keeps-set_message_task id task_id =
    Keeps-bind _ _ (Keeps-get_message id) (λ _. Keeps-set_st _ (λ _. (refl, refl, refl, refl)))

pub Keeps-attach_files : (ids : List Text) (m p c : Text) → Keeps (attach_files ids m p c)
unfolding attach_files
Keeps-attach_files ids m p c = Keeps-if _ _ _ (Keeps-pure _) (
    Keeps-bind _ _ (Keeps-gets _) (λ fs.
      Keeps-bind _ _
        (Keeps-bind _ _ (Keeps-set_st _ (λ _. (refl, refl, refl, refl)))
          (λ _. Keeps-refuse _ invalid))
        (λ _. Keeps-pure _)))

pub Keeps-delete_files_of : (m : Text) → Keeps (delete_files_of m)
unfolding delete_files_of
Keeps-delete_files_of m =
    Keeps-bind _ _ (Keeps-gets _)
      (λ keys. Keeps-bind _ _ (Keeps-set_st _ (λ _. (refl, refl, refl, refl))) (λ _. Keeps-pure _))

pub Keeps-channel_blob_keys : (id : Text) → Keeps (channel_blob_keys id)
unfolding channel_blob_keys
Keeps-channel_blob_keys id = Keeps-gets _

pub Keeps-insert_task : (t : Task) → Keeps (insert_task t)
unfolding insert_task
Keeps-insert_task t = Keeps-insert_row task_key _ _ _ (λ _ _. (refl, refl, refl, refl))

pub Keeps-upsert_issue_task :
    (p : Text) (n : ℕ) (title url : Text) (at : Time) → Keeps (upsert_issue_task p n title url at)
unfolding upsert_issue_task
Keeps-upsert_issue_task p n title url at = Keeps-bind _ _ Keeps-new_id (λ id.
    Keeps-bind _ _ (Keeps-gets _) (λ old.
      Keeps-on_nil old _ _
        (Keeps-bind _ _
          (Keeps-bind _ _ (Keeps-insert_row task_key _ _ _ (λ _ _. (refl, refl, refl, refl)))
            (λ _. Keeps-get_task id))
          (λ _. Keeps-pure _))
        (λ t.
          Keeps-bind _ _
            (Keeps-bind _ _ (Keeps-set_st _ (λ _. (refl, refl, refl, refl)))
              (λ _. Keeps-get_task t.id))
            (λ _. Keeps-pure _))))

pub ruleset chat_rules = (
  Keeps-insert_channel, Keeps-get_channel, Keeps-list_channels, Keeps-update_channel,
  Keeps-delete_channel, Keeps-edit_message, Keeps-delete_message, Keeps-set_message_task,
  Keeps-attach_files, Keeps-delete_files_of, Keeps-channel_blob_keys, Keeps-insert_task,
  Keeps-upsert_issue_task,
)
