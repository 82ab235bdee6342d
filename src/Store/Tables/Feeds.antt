-- ===== src/Store/Tables/Feeds.antt =====
-- internal/store/feeds.go, and the pipelines of internal/store/runs.go: rows numbered by a sequence.
use buildbee.Store.{gets, ◌>>=◌, ◌>>◌, pure, W, found}
use buildbee.Store.Inserts.{set_st, insert_row, newest}
use buildbee.Base.{
  reverse, take, leb, Bool, ℕ, suc, none, some, List, ◌∷◌, keep, is_empty, if◌then◌else◌,
}
use buildbee.Base.Result.{ok}
use buildbee.Base.Sort.{sort_by}
use buildbee.Text.{Text, text_eq}
use buildbee.Models.Records.{Time, Activity, Notification, Message, Pipeline}
use buildbee.Store.Rows.{find_row, update_row}

-- InsertActivity
unfoldable pub insert_activity : Activity → W Activity
insert_activity a w =
    let seq = suc w.st.activity_seq in
    let a = record a { seq = seq } in
    ok (a, record w { st = record w.st { activity = a ∷ w.st.activity; activity_seq = seq } })

-- InsertNotification
unfoldable pub insert_notification : Notification → W Notification
insert_notification n w =
    let seq = suc w.st.notification_seq in
    let n = record n { seq = seq } in
    ok (
      n,
      record w {
        st = record w.st { notifications = n ∷ w.st.notifications; notification_seq = seq };
      },
    )

abbrev pub message_key : Message → Text
message_key m = m.id

abbrev pub replied : Time → Message → Message
replied at m = record m { reply_count = suc m.reply_count; last_reply_at = some at }

-- GetMessage
unfoldable pub get_message : Text → W Message
unfolding find_row
get_message id w = found (find_row message_key id w.st.messages) w

-- The reply counts on its root, which must exist.
unfoldable pub count_reply : Text → Time → W (Unit {0})
unfolding update_row
count_reply root_id at =
    get_message root_id
    >> set_st
        (λ db. record db { messages = update_row message_key root_id (replied at) db.messages })

abbrev message_row : Message → Message
message_row m = record m {
  reply_count = 0;
  last_reply_at = none;
  edited_at = none;
  deleted_at = none;
}

-- InsertMessage
unfoldable pub insert_message : Message → W Message
insert_message m = gets (λ w. suc w.st.message_seq) >>= λ seq.
    let m = record m { seq = seq } in
    insert_row message_key (λ db. db.messages)
      (λ ms db. record db { messages = ms; message_seq = seq }) (message_row m)
    >> (if is_empty m.thread_id then pure tt else count_reply m.thread_id m.created_at)
    >> pure m

-- ListPipelines, newest first
unfoldable pub list_pipelines : Text → W (List Pipeline)
unfolding keep sort_by
list_pipelines task_id w = ok (
  sort_by (newest (λ p. p.created_at) (λ p. p.id))
      (keep (λ p. text_eq p.task_id task_id) w.st.pipelines),
  w,
)

abbrev by_seq_down : Message → Message → Bool
by_seq_down a b = leb b.seq a.seq

-- ListReplies with a page that has only a limit: the latest replies, oldest first.
unfoldable pub list_replies : Text → ℕ → W (List Message)
unfolding keep sort_by
list_replies root_id limit w = ok (
  reverse
      (take limit (sort_by by_seq_down (keep (λ m. text_eq m.thread_id root_id) w.st.messages))),
  w,
)
