-- ===== src/Core/Chat/Changes/Edit.antt =====
-- internal/core/chat.go: what EditMessage and DeleteMessage leave.
use buildbee.Base.{◌≡◌, refl, sym, ap, ◌∙◌, subst, some, ◌∷◌, ◌++◌, true}
use buildbee.Base.Result.{ok, ok_inj}
use buildbee.Text.{Text, bytes, check_text, text_eq_iff}
use buildbee.Event.{Event, message_data}
use buildbee.Models.Records.{Time, Message}
use buildbee.Store.{Work, W, pure, ◌>>=◌, ◌>>◌, changes_work}
use buildbee.Store.Rows.{find_row, update_row, find_row-update, find_row_key}
use buildbee.Store.Keeps.{returned, bind_ok}
use buildbee.Store.Keeps.Steps.{passed, found_row, found-at, asked, same_row, with_result_lem}
use buildbee.Store.Tables.{edit_message, get_message, message_key, set_messages}
use buildbee.Core.Work.{Actor, emit, the_time}
use buildbee.Core.Chat.Changes.{own_message, change_message}
use buildbee.Core.Chat.Changes.Own.{IsOwn, own_message_lem}

abbrev pub edited : Text → Time → Message → Message
edited text at m = record m { body = text; edited_at = some at }

abbrev pub edited_at_all : Text → Text → Time → Work → Work
edited_at_all id text at w = record w {
  st = set_messages (update_row message_key id (edited text at)) w.st;
}

edit_message_lem :
    (id text : Text) (at : Time) (w w' : Work) (u : Unit {0})
    → edit_message id text at w ≡ returned u w'
    → w' ≡ edited_at_all id text at w
unfolding edit_message get_message changes_work
edit_message_lem id text at w w' u h =
    let (m, e, h1) =
      found_row (get_message id) (find_row message_key id w.st.messages) _ w w' u refl h in
    let (y, h2) = passed _ _ _ w w' u h1 in sym (ap (λ p. p.1) (ok_inj h2))

-- The row that was edited, read again.
read_edited :
    (id text : Text) (at : Time) (w : Work) (m : Message)
    → find_row message_key id w.st.messages ≡ some m
    → find_row message_key id (edited_at_all id text at w).st.messages ≡ some (edited text at m)
read_edited id text at w m e =
    find_row-update message_key id id (edited text at) w.st.messages (λ _. refl)
    ∙ rw ((text_eq_iff id id).1 refl, e) refl

abbrev written : Text → Time → Message → W Message
written text at m = edit_message m.id text at >> get_message m.id >>= λ out.
    emit (bytes "channel:" ++ out.channel_id) 0 (bytes "message_edited") (message_data out)
    >> pure out

abbrev pub edited_event : Message → Event
edited_event m = record {
  topic = bytes "channel:" ++ m.channel_id;
  cursor = 0;
  type = bytes "message_edited";
  body = message_data m;
}

abbrev pub with_event : Event → Work → Work
with_event e w = record w { events = e ∷ w.events }

told_lem :
    (m : Message) (w w' : Work) (out : Message)
    → (emit (bytes "channel:" ++ m.channel_id) 0 (bytes "message_edited") (message_data m)
          >> pure m)
        w
      ≡ returned out w'
    → (out ≡ m) × (w' ≡ with_event (edited_event m) w)
unfolding emit changes_work pure ◌>>=◌
told_lem m w w' out h = (sym (ap (λ p. p.0) (ok_inj h)), sym (ap (λ p. p.1) (ok_inj h)))

written_lem :
    (text : Text) (at : Time) (m : Message) (w w' : Work) (out : Message)
    → find_row message_key m.id w.st.messages ≡ some m
    → written text at m w ≡ returned out w'
    → (out ≡ edited text at m)
      × (w' ≡ with_event (edited_event (edited text at m)) (edited_at_all m.id text at w))
unfolding get_message
written_lem text at m w w' out e h =
    let (x, hx, h1) = bind_ok _ _ w w' out h in
    let (y, hy, g) = bind_ok (edit_message m.id text at) _ w x.1 x.0 hx in
    let y_is = edit_message_lem m.id text at w y.1 y.0 hy in
    let (stored, x_is) = found-at (find_row message_key m.id y.1.st.messages) y.1 x.1 x.0 g in
    let now = read_edited m.id text at w m e in
    let (out_is, w'_is) = told_lem x.0 x.1 w' out h1 in
    let same : x.0 ≡ edited text at m =
      same_row _ _ (sym stored ∙ ap (λ v. find_row message_key m.id v.st.messages) y_is ∙ now) in
    (
      out_is ∙ same,
      w'_is
          ∙ ap (λ v. with_event (edited_event v) x.1) same
          ∙ ap (with_event (edited_event (edited text at m))) (x_is ∙ y_is),
    )

-- EditMessage that returns was called by a Person for a message of their own that is not deleted,
-- in a Channel that lets them in and is not archived, with a text that is not too long; it has
-- changed the text and the time of the edit in that message, told of it once, and changed nothing
-- else.
pub change_message_lem :
    (a : Actor) (id body : Text) (w w' : Work) (out : Message)
    → change_message a id body w ≡ returned out w'
    → (text : Text) × (m : Message) × (check_text body true 32000 ≡ ok text)
      × (find_row message_key id w.st.messages ≡ some m)
      × IsOwn a w m
      × (out ≡ edited text w.now m)
      × (w' ≡ with_event (edited_event out) (edited_at_all m.id text w.now w))
unfolding change_message
change_message_lem a id body w w' out h =
    let (x, hx, h1) = bind_ok _ _ w w' out h in
    let (checked, x_is) = with_result_lem (check_text body true 32000) w x.1 x.0 hx in
    let (y, hy, h2) = bind_ok (own_message a id) _ w w' out (
      subst
        (λ v. (own_message a id >>= λ m. the_time >>= λ now. written x.0 now m) v ≡ returned out w')
        x_is h1) in
    let (stored, own, y_is) = own_message_lem a id w y.1 y.0 hy in
    let h3 =
      subst (λ v. written x.0 v.now y.0 v ≡ returned out w') y_is
        (asked (λ v. v.now) (λ now. written x.0 now y.0) y.1 w' out h2) in
    let by_key =
      subst (λ i. find_row message_key i w.st.messages ≡ some y.0)
        (sym (find_row_key message_key id y.0 w.st.messages stored)) stored in
    let (out_is, w'_is) = written_lem x.0 w.now y.0 w w' out by_key h3 in
    (
      x.0,
      y.0,
      checked,
      stored,
      own,
      out_is,
      w'_is ∙ ap (λ v. with_event (edited_event v) (edited_at_all y.0.id x.0 w.now w)) (sym out_is),
    )
