-- ===== src/Core/Chat/Changes.antt =====
-- internal/core/chat.go: what people change of their own messages and direct messages.
pub mod Own
pub mod Edit
use buildbee.Base.{true, not, ◌||◌, List, [], ◌++◌, if◌then◌else◌}
use buildbee.Base.Result.{conflict, not_found, no_actor}
use buildbee.Text.{Text, bytes, text_eq, check_text}
use buildbee.Event.{message_data}
use buildbee.Models.Members.{is_nil}
use buildbee.Models.Records.{Member, Message, Channel}
use buildbee.Store.{
  W, pure, fail, with_result, changes_work, ◌>>=◌, ◌>>◌, refuse, on_nil, attempt, each,
}
use buildbee.Store.Tables.{
  list_members, member_for_person, get_channel, allows, is_dm, get_message, edit_message,
  delete_message, delete_files_of, delete_channel, channel_blob_keys,
}
use buildbee.Core.Work.{Actor, is_person, the_time, emit, open_space, notify_member}

-- The Member who acts, in a Channel that must let them in.
unfoldable pub insider : Actor → Channel → W Member
insider a ch = attempt (member_for_person ch.project_id a.person_id) >>= λ found.
    on_nil found (fail not_found) (λ m. refuse (not (allows ch m.id)) not_found >> pure m)

-- ownMessage
unfoldable pub own_message : Actor → Text → W Message
own_message a id = refuse (not (is_person a)) no_actor >> get_message id >>= λ m.
    get_channel m.channel_id >>= λ ch.
    open_space ch.project_id
    >> refuse (not (is_nil ch.archived_at)) conflict
    >> insider a ch
    >>= λ me.
        refuse (not (text_eq m.member_id me.id)) conflict
        >> refuse (not (is_nil m.deleted_at)) conflict
        >> pure m

-- EditMessage
unfoldable pub change_message : Actor → Text → Text → W Message
change_message a id body = with_result (check_text body true 32000) >>= λ b.
    own_message a id >>= λ m. the_time >>= λ now.
    edit_message m.id b now >> get_message m.id >>= λ out.
    emit (bytes "channel:" ++ out.channel_id) 0 (bytes "message_edited") (message_data out)
    >> pure out

-- w.gone = append(w.gone, keys...)
unfoldable pub lose_blobs : List Text → W (Unit {0})
lose_blobs keys = changes_work (λ w. record w { gone = w.gone ++ keys })

-- DeleteMessage
unfoldable pub remove_message : Actor → Text → W (Unit {0})
remove_message a id = own_message a id >>= λ m. the_time >>= λ now.
    delete_message m.id now >> delete_files_of m.id >>= λ keys.
    lose_blobs keys >> get_message m.id >>= λ out.
    emit (bytes "channel:" ++ out.channel_id) 0 (bytes "message_deleted") (message_data out)

-- DeleteDM
unfoldable pub remove_dm : Actor → Text → W (Unit {0})
remove_dm a channel_id = refuse (not (is_person a)) no_actor >> get_channel channel_id >>= λ ch.
    attempt (member_for_person ch.project_id a.person_id) >>= λ found.
    on_nil found (fail not_found) (λ me.
      refuse (not (is_dm ch.kind) || not (allows ch me.id)) not_found
      >> list_members ch.project_id
      >>= λ members. channel_blob_keys ch.id >>= λ keys.
          delete_channel ch.id
          >> lose_blobs keys
          >> each
              (λ m.
                if text_eq m.id me.id || not (allows ch m.id)
                then pure tt
                else notify_member m (record {
                  project_id = ch.project_id;
                  kind = bytes "dm";
                  title = me.display_name ++ bytes " deleted your direct message";
                  body = [];
                  href = [];
                }))
              members)
