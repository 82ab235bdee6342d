-- ===== src/Hub/Delivery/Held.antt =====
-- internal/ws/hub.go: deliver while a topic's replay is read, and the events that wait for it.
use mathlib.Core.List.{append_assoc, append-nil}
use buildbee.Base.{
  ℕ, ◌+◌, ◌≤◌, ◌<◌, ◌≡◌, refl, Bool, false, not, Option, none, some, List, [], ◌∷◌, ◌++◌, map,
  arith, ◌==◌, if◌then◌else◌, length, exists, keep, Bool-cases, inl, inr, ◌∙◌, length-append,
}
use buildbee.Text.{Text, text_eq, text_eq_iff, text_eq_refl}
use buildbee.Event.{Event}
use buildbee.Hub.Client.{
  Frame, PendingFrame, Sub, Client, sub_of, put_sub, message_of, deliver_to, deliver, max_pending,
}

pub sub_of-put :
    (t u : Text) (s : Sub) (m : List (Text × Sub))
    → sub_of u (put_sub t s m) ≡ (if text_eq t u then some s else sub_of u m)
unfolding sub_of put_sub
sub_of-put t u s [] = refl
sub_of-put t u s ((k, r) ∷ m) =
    ground (arith, text_eq_iff k t, text_eq_iff k u, text_eq_iff t u, sub_of-put t u s m)

pub sub_of-put_self :
    (t : Text) (s : Sub) (m : List (Text × Sub)) → sub_of t (put_sub t s m) ≡ some s
sub_of-put_self t s m = rw (sub_of-put t t s m) (rw (text_eq_refl t))

pub put_sub-put :
    (t : Text) (s r : Sub) (m : List (Text × Sub)) → put_sub t s (put_sub t r m) ≡ put_sub t s m
unfolding put_sub
put_sub-put t s r [] = rw (text_eq_refl t)
put_sub-put t s r ((k, q) ∷ m) = elim (Bool-cases (text_eq k t)) [
  | inl e ↦ rw e (rw e)
  | inr e ↦ rw e (rw e (rw (put_sub-put t s r m)))
]

-- A run of deliveries of one topic's events.
unfoldable pub deliver_all : Text → List PendingFrame → Client → Client
deliver_all topic [] c = c
deliver_all topic (p ∷ ps) c = deliver_all topic ps (deliver c topic p)

-- What the frames come to on this connection.
abbrev pub messages_of : Client → List PendingFrame → List Text
messages_of c ps = map (λ p. message_of c p.frame) ps

-- The frames of a backlog, those left out that cannot be encoded.
unfoldable pub backlog_frames : (Event → Option Frame) → List Event → List PendingFrame
backlog_frames encode [] = []
backlog_frames encode (e ∷ es) = elim (encode e) [
  | none ↦ backlog_frames encode es
  | some f ↦ record { cursor = e.cursor; frame = f } ∷ backlog_frames encode es
]

abbrev pub has_cursor : ℕ → PendingFrame → Bool
has_cursor x p = p.cursor == x

-- The frames whose cursor none of the others has.
abbrev pub others : List PendingFrame → List PendingFrame → List PendingFrame
others replay ps = keep (λ p. not (exists (has_cursor p.cursor) replay)) ps

-- All that a subscriber is sent for a replay and the live events that follow its registration.
abbrev pub sent : List PendingFrame → List PendingFrame → List PendingFrame
sent replay live = replay ++ others replay live

pub deliver_found :
    (c : Client) (topic : Text) (s : Sub) (p : PendingFrame)
    → sub_of topic c.subs ≡ some s
    → deliver c topic p ≡ deliver_to c topic s p
unfolding deliver
deliver_found c topic s p e = rw (e, deliver)

pub hold_one :
    (topic : Text) (s : Sub) (m : List (Text × Sub)) (p : PendingFrame) (c : Client)
    → s.ready ≡ false
    → c.subs ≡ put_sub topic s m
    → length s.pending < max_pending
    → deliver c topic p
      ≡ record c { subs = put_sub topic (record s { pending = s.pending ++ p ∷ [] }) m }
unfolding deliver_to
hold_one topic s m p c r e room =
    deliver_found c topic s p (rw e (sub_of-put_self topic s m))
    ∙ ground (arith, put_sub-put topic (record s { pending = s.pending ++ p ∷ [] }) s m)

pub held :
    (topic : Text) (s : Sub) (m : List (Text × Sub)) (ps : List PendingFrame) (c : Client)
    → s.ready ≡ false
    → c.subs ≡ put_sub topic s m
    → length s.pending + length ps ≤ max_pending
    → deliver_all topic ps c
      ≡ record c { subs = put_sub topic (record s { pending = s.pending ++ ps }) m }
unfolding deliver_all
held topic s m [] c r e room = rw (append-nil s.pending) (ground (arith, e))
held topic s m (p ∷ ps) c r e room =
    let s' : Sub = record s { pending = s.pending ++ p ∷ [] } in
    rw (hold_one topic s m p c r e (omega arith)) (
      held topic s' m ps _ r refl (omega (arith, length-append s.pending (p ∷ [])))
      ∙ rw (append_assoc s.pending (p ∷ []) ps))
