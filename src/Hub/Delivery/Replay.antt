-- ===== src/Hub/Delivery/Replay.antt =====
-- internal/ws/hub.go: the sends of subscribe, and deliver after them.
use mathlib.Core.List.{append_assoc, append-nil}
use buildbee.Base.{
  ℕ, suc, ◌+◌, ◌≤◌, ◌<◌, ◌≡◌, refl, Bool, true, not, ◌||◌, Option, none, some, List, [], ◌∷◌, ◌++◌,
  arith, if◌then◌else◌, length, exists, keep, Bool-cases, Option-cases, inl, inr, ◌∙◌, ap,
  length-append,
}
use buildbee.Text.{Text}
use buildbee.Event.{Event}
use buildbee.Hub.Client.{
  Frame, PendingFrame, Sub, Client, sub_of, put_sub, message_of, enqueue_locked, is_replayed,
  deliver_to, deliver, new_sub, registered, begin_subscribe, send_backlog, send_pending, release,
  finish_subscribe,
}
use buildbee.Hub.Delivery.Held.{
  deliver_all, messages_of, backlog_frames, has_cursor, others, deliver_found,
}

-- A queue with room takes the frame.
pub enqueued :
    (c : Client) (f : Frame)
    → length c.send < c.queue
    → enqueue_locked c f ≡ record c { send = c.send ++ message_of c f ∷ [] }
unfolding enqueue_locked
enqueued c f room = ground arith

-- The cursors that the replay leaves in `replayed`.
pub replay_cursors : (Event → Option Frame) → List Event → List ℕ → List ℕ
replay_cursors encode [] replayed = replayed
replay_cursors encode (e ∷ es) replayed = elim (encode e) [
  | none ↦ replay_cursors encode es replayed
  | some f ↦ replay_cursors encode es (e.cursor ∷ replayed)
]

pub is_replayed-cursors :
    (encode : Event → Option Frame) (es : List Event) (replayed : List ℕ) (x : ℕ)
    → is_replayed (replay_cursors encode es replayed) x
      ≡ (exists (has_cursor x) (backlog_frames encode es) || is_replayed replayed x)
unfolding replay_cursors backlog_frames exists is_replayed
is_replayed-cursors encode [] replayed x = refl
is_replayed-cursors encode (e ∷ es) replayed x = ground (
  arith,
  is_replayed-cursors encode es replayed x,
  is_replayed-cursors encode es (e.cursor ∷ replayed) x,
)

pub backlog_sent :
    (encode : Event → Option Frame) (es : List Event) (replayed : List ℕ) (c : Client)
    → length c.send + length (backlog_frames encode es) ≤ c.queue
    → send_backlog encode es replayed c ≡ (
      replay_cursors encode es replayed,
      record c { send = c.send ++ messages_of c (backlog_frames encode es) },
    )
unfolding replay_cursors backlog_frames send_backlog
backlog_sent encode [] replayed c room = rw (append-nil c.send)
backlog_sent encode (e ∷ es) replayed c room = elim (Option-cases (encode e)) [
  | inl n ↦
      rw (n, send_backlog, replay_cursors, backlog_frames)
        (backlog_sent encode es replayed c (ground (arith, n)))
  | inr (f, n) ↦
      rw (n, send_backlog, replay_cursors, backlog_frames)
        (let tail : List PendingFrame = backlog_frames encode es in
          rw (enqueued c f (ground (arith, n))) (
            backlog_sent encode es (e.cursor ∷ replayed) _
              (ground (arith, n, length-append c.send (message_of c f ∷ [])))
            ∙ rw (append_assoc c.send (message_of c f ∷ []) (messages_of c tail))))
]

pub pending_sent :
    (replayed : List ℕ) (ps : List PendingFrame) (c : Client)
    → length c.send + length ps ≤ c.queue
    → send_pending replayed ps c ≡ record c {
      send = c.send ++ messages_of c (keep (λ p. not (is_replayed replayed p.cursor)) ps);
    }
unfolding keep send_pending
pending_sent replayed [] c room = rw (append-nil c.send)
pending_sent replayed (p ∷ ps) c room = elim (Bool-cases (is_replayed replayed p.cursor)) [
  | inl dup ↦ rw (dup, send_pending) (pending_sent replayed ps c (omega arith))
  | inr fresh ↦
      rw (fresh, send_pending)
        (let tail : List PendingFrame = keep (λ q. not (is_replayed replayed q.cursor)) ps in
          rw (enqueued c p.frame (omega arith)) (
            pending_sent replayed ps _
              (omega (arith, length-append c.send (message_of c p.frame ∷ [])))
            ∙ rw (append_assoc c.send (message_of c p.frame ∷ []) (messages_of c tail))))
]

pub live_one :
    (topic : Text) (s : Sub) (p : PendingFrame) (c : Client)
    → s.ready ≡ true
    → sub_of topic c.subs ≡ some s
    → length c.send < c.queue
    → deliver c topic p ≡ (
        if is_replayed s.replayed p.cursor
        then c
        else record c { send = c.send ++ message_of c p.frame ∷ [] })
unfolding deliver_to
live_one topic s p c r e room =
    deliver_found c topic s p e ∙ ground (arith, enqueued c p.frame room)

pub live_sent :
    (topic : Text) (s : Sub) (ps : List PendingFrame) (c : Client)
    → s.ready ≡ true
    → sub_of topic c.subs ≡ some s
    → length c.send + length ps ≤ c.queue
    → deliver_all topic ps c ≡ record c {
      send = c.send ++ messages_of c (keep (λ p. not (is_replayed s.replayed p.cursor)) ps);
    }
unfolding deliver_all keep
live_sent topic s [] c r e room = rw (append-nil c.send)
live_sent topic s (p ∷ ps) c r e room =
    rw (live_one topic s p c r e (omega arith))
      (elim (Bool-cases (is_replayed s.replayed p.cursor)) [
        | inl dup ↦ rw dup (live_sent topic s ps c r e (omega arith))
        | inr fresh ↦ rw fresh (
            let tail : List PendingFrame = keep (λ q. not (is_replayed s.replayed q.cursor)) ps in
            live_sent topic s ps _ r e
              (omega (arith, length-append c.send (message_of c p.frame ∷ [])))
            ∙ rw (append_assoc c.send (message_of c p.frame ∷ []) (messages_of c tail)))
      ])

pub registered_lem :
    (c x : Client) (topic : Text)
    → begin_subscribe c topic ≡ registered x
    → x ≡ record c { subs = put_sub topic new_sub c.subs }
unfolding begin_subscribe
registered_lem c x topic h = ground arith

pub keep-agree :
    (encode : Event → Option Frame) (backlog : List Event) (ps : List PendingFrame)
    → keep (λ p. not (is_replayed (replay_cursors encode backlog []) p.cursor)) ps
      ≡ others (backlog_frames encode backlog) ps
unfolding keep
keep-agree encode backlog [] = refl
keep-agree encode backlog (p ∷ ps) =
    rw (is_replayed-cursors encode backlog [] p.cursor, keep-agree encode backlog ps)
      (unfold is_replayed exists in ground arith)

pub finish_found :
    (encode : Event → Option Frame) (c : Client) (topic : Text) (s : Sub) (backlog : List Event)
    → sub_of topic c.subs ≡ some s
    → finish_subscribe encode c topic backlog ≡ release encode c topic s backlog
unfolding finish_subscribe
finish_found encode c topic s backlog e = rw (e, finish_subscribe)

pub length-messages : (c : Client) (ps : List PendingFrame) → length (messages_of c ps) ≡ length ps
length-messages c [] = refl
length-messages c (p ∷ ps) = ap suc (length-messages c ps)

pub length-keep_le {ℓ} : {A : Type ℓ} (t : A → Bool) (xs : List A) → length (keep t xs) ≤ length xs
unfolding keep
length-keep_le t [] = omega arith
length-keep_le t (x ∷ xs) = ground (arith, length-keep_le t xs)
