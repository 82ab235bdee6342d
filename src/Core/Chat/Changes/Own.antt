-- ===== src/Core/Chat/Changes/Own.antt =====
-- internal/core/chat.go: whose messages EditMessage and DeleteMessage change.
use buildbee.Base.{
  ◌≡◌, refl, sym, ap, ◌∙◌, subst, Bool, true, false, not, Option, none, some, arith, first,
}
use buildbee.Base.Result.{not_found, conflict, no_actor, ok_inj}
use buildbee.Text.{Text, text_eq}
use buildbee.Models.Members.{is_nil}
use buildbee.Models.Records.{Member, Message, Channel, Project}
use buildbee.Store.{Work, W, pure, fail, found, ◌>>=◌, ◌>>◌, refuse, on_nil, attempt}
use buildbee.Store.Rows.{find_row}
use buildbee.Store.Runs.{project_key}
use buildbee.Store.Keeps.{returned, bind_ok, refuse_ok}
use buildbee.Store.Keeps.Steps.{passed, found_row, found-at}
use buildbee.Store.Tables.{
  get_project, in_project, member_for_person, get_channel, allows, get_message, channel_key,
  message_key,
}
use buildbee.Core.Work.{Actor, is_person, open_space}
use buildbee.Core.Chat.Changes.{insider, own_message}

-- A message that the acting Person wrote, is in a Channel that lets them in, and may change.
pub record IsOwn (a : Actor) (w : Work) (m : Message) : Type 0 where
  pub acts : is_person a ≡ true
  pub channel : Channel
  pub in_channel : find_row channel_key m.channel_id w.st.channels ≡ some channel
  pub unarchived : is_nil channel.archived_at ≡ true
  pub author : Member
  pub authored : first (in_project channel.project_id a.person_id) w.st.members ≡ some author
  pub wrote : text_eq m.member_id author.id ≡ true
  pub let_in : allows channel author.id ≡ true
  pub kept : is_nil m.deleted_at ≡ true

is_false : (b : Bool) → not b ≡ false → b ≡ true
is_false b h = ground (arith, h)

insider_from :
    (o : Option Member) (ch : Channel) (w w' : Work) (me : Member)
    → (attempt (found o) >>= λ x.
          on_nil x (fail not_found) (λ m. refuse (not (allows ch m.id)) not_found >> pure m))
        w
      ≡ returned me w'
    → (o ≡ some me) × (allows ch me.id ≡ true) × (w' ≡ w)
unfolding attempt found ◌>>=◌ on_nil fail pure
insider_from none ch w w' me h = cc
insider_from (some m) ch w w' me h =
    let (y, h1) = passed (not (allows ch m.id)) not_found (pure m) w w' me h in
    let e = ap (λ p. p.0) (ok_inj h1) in
    (
      ap (λ x. some x) e,
      subst (λ x. allows ch x.id ≡ true) e (is_false (allows ch m.id) y),
      sym (ap (λ p. p.1) (ok_inj h1)),
    )

insider_lem :
    (a : Actor) (ch : Channel) (w w' : Work) (me : Member)
    → insider a ch w ≡ returned me w'
    → (first (in_project ch.project_id a.person_id) w.st.members ≡ some me)
      × (allows ch me.id ≡ true)
      × (w' ≡ w)
unfolding insider member_for_person attempt ◌>>=◌
insider_lem a ch w w' me h = insider_from _ ch w w' me h

open_space_lem : (id : Text) (w w' : Work) (p : Project) → open_space id w ≡ returned p w' → w' ≡ w
unfolding open_space get_project pure
open_space_lem id w w' p h =
    let (q, e, h1) =
      found_row (get_project id) (find_row project_key id w.st.projects) _ w w' p refl h in
    let (y, h2) = passed _ _ _ w w' p h1 in sym (ap (λ x. x.1) (ok_inj h2))

-- The message may be changed, by its author.
abbrev mine : Message → Member → W Message
mine m me =
    refuse (not (text_eq m.member_id me.id)) conflict
    >> refuse (not (is_nil m.deleted_at)) conflict
    >> pure m

mine_lem :
    (m : Message) (me : Member) (w w' : Work) (r : Message)
    → mine m me w ≡ returned r w'
    → (text_eq m.member_id me.id ≡ true) × (is_nil m.deleted_at ≡ true) × (r ≡ m) × (w' ≡ w)
unfolding pure
mine_lem m me w w' r h =
    let (x, hx, h1) = bind_ok _ _ w w' r h in
    let (wrote, g) = passed (not (text_eq m.member_id me.id)) conflict _ w x.1 x.0 hx in
    let (kept, x_is) = refuse_ok (not (is_nil m.deleted_at)) conflict w x.1 x.0 g in
    (
      is_false (text_eq m.member_id me.id) wrote,
      is_false (is_nil m.deleted_at) kept,
      sym (ap (λ p. p.0) (ok_inj h1)),
      sym (ap (λ p. p.1) (ok_inj h1)) ∙ x_is,
    )

-- The Channel is open, and so is its Project.
abbrev entered : Actor → Channel → W Member
entered a ch =
    open_space ch.project_id >> refuse (not (is_nil ch.archived_at)) conflict >> insider a ch

entered_lem :
    (a : Actor) (ch : Channel) (w w' : Work) (me : Member)
    → entered a ch w ≡ returned me w'
    → (is_nil ch.archived_at ≡ true)
      × (first (in_project ch.project_id a.person_id) w.st.members ≡ some me)
      × (allows ch me.id ≡ true)
      × (w' ≡ w)
entered_lem a ch w w' me h =
    let (y, hy, h1) = bind_ok _ _ w w' me h in
    let (o, ho, h2) = bind_ok _ _ w y.1 y.0 hy in
    let (open_now, y_is) = refuse_ok (not (is_nil ch.archived_at)) conflict o.1 y.1 y.0 h2 in
    let y_w : y.1 ≡ w = y_is ∙ open_space_lem ch.project_id w o.1 o.0 ho in
    let (author, let_in, same) = insider_lem a ch y.1 w' me h1 in
    (
      is_false (is_nil ch.archived_at) open_now,
      subst (λ v. first (in_project ch.project_id a.person_id) v.st.members ≡ some me) y_w author,
      let_in,
      same ∙ y_w,
    )

abbrev own_part : Actor → Message → W Message
own_part a m = get_channel m.channel_id >>= λ ch. entered a ch >>= mine m

found-IsOwn :
    (a : Actor) (w : Work) (x : Message) (w' : Work) (m : Message)
    → is_person a ≡ true
    → own_part a x w ≡ returned m w'
    → IsOwn a w m × (m ≡ x) × (w' ≡ w)
unfolding get_channel
found-IsOwn a w x w' m acts h =
    let (ch, in_channel, h1) =
      found_row _ (find_row channel_key x.channel_id w.st.channels) _ w w' m refl h in
    let (z, hz, h2) = bind_ok (entered a ch) (mine x) w w' m h1 in
    let (unarchived, authored, let_in, z_is) = entered_lem a ch w z.1 z.0 hz in
    let (wrote, kept, m_is, w'_is) = mine_lem x z.0 z.1 w' m h2 in
    (
      subst (IsOwn a w) (sym m_is) (record {
        acts = acts;
        channel = ch;
        in_channel = in_channel;
        unarchived = unarchived;
        author = z.0;
        authored = authored;
        wrote = wrote;
        let_in = let_in;
        kept = kept;
      }),
      m_is,
      w'_is ∙ z_is,
    )

-- A message that may be changed is the acting Person's own, and nothing has changed yet.
pub own_message_lem :
    (a : Actor) (id : Text) (w w' : Work) (m : Message)
    → own_message a id w ≡ returned m w'
    → (find_row message_key id w.st.messages ≡ some m) × IsOwn a w m × (w' ≡ w)
unfolding own_message get_message get_channel pure
own_message_lem a id w w' m h =
    let (x, hx, h1) = bind_ok _ _ w w' m h in
    let (acts, g) = passed (not (is_person a)) no_actor (get_message id) w x.1 x.0 hx in
    let (stored, x_is) = found-at (find_row message_key id w.st.messages) w x.1 x.0 g in
    let (own, m_is, w'_is) =
      found-IsOwn a w x.0 w' m (is_false (is_person a) acts)
        (subst (λ v. own_part a x.0 v ≡ returned m w') x_is h1) in
    (stored ∙ ap (λ v. some v) (sym m_is), own, w'_is)
