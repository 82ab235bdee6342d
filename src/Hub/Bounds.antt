-- ===== src/Hub/Bounds.antt =====
-- The limits of a connection of internal/ws/hub.go.
pub mod Waiting
pub mod Sending
use buildbee.Base.{
  ℕ, ◌+◌, ◌≤◌, ◌<◌, ◌≡◌, refl, true, false, Option, none, some, List, [], ◌∷◌, ◌++◌, arith, ltb,
  leb, length, All, Bool-cases, Option-cases, inl, inr, length-append, ◌⊎◌,
}
use buildbee.Text.{Text, text_eq}
use buildbee.Event.{Event}
use buildbee.Hub.Client.{
  Frame, PendingFrame, Sub, Client, sub_of, put_sub, delete_sub, enqueue_locked, is_replayed,
  deliver_to, deliver, new_sub, Begun, registered, begin_subscribe, send_backlog, send_pending,
  release, finish_subscribe, drop_sub, send_error, write_next, take_first, max_pending, max_topics,
  message_of,
}
use buildbee.Hub.Bounds.Waiting.{
  Few, IsBounded, Few-of, put-Few, put_length, put_length_known, delete-Few, delete_length,
}
use buildbee.Hub.Bounds.Sending.{
  enqueue-IsBounded, backlog-IsBounded, pending-IsBounded, enqueue_subs, backlog_subs, pending_subs,
  release-IsBounded, finish-IsBounded, deliver_to-IsBounded, deliver-IsBounded,
}

-- What happens to a connection, one critical section or channel operation at a time.
pub data ClientOp : Type 0 where
  begins : Text → ClientOp
  finishes : Text → List Event → ClientOp
  delivers : Text → PendingFrame → ClientOp
  drops : Text → ClientOp
  errs : Text → ClientOp
  writes : ClientOp

abbrev begun : Client → Begun → Client
begun c (registered x) = x
begun c _ = c

abbrev written : Client → Option (Text × Client) → Client
written c none = c
written c (some (m, x)) = x

pub client_step : (Event → Option Frame) → Client → ClientOp → Client
client_step encode c (begins t) = begun c (begin_subscribe c t)
client_step encode c (finishes t es) = finish_subscribe encode c t es
client_step encode c (delivers t p) = deliver c t p
client_step encode c (drops t) = drop_sub c t
client_step encode c (errs raw) = send_error c raw
client_step encode c writes = written c (write_next c)

pub client_run : (Event → Option Frame) → Client → List ClientOp → Client
client_run encode c [] = c
client_run encode c (o ∷ os) = client_run encode (client_step encode c o) os

begin-IsBounded : (c : Client) (t : Text) → IsBounded c → IsBounded (begun c (begin_subscribe c t))
unfolding begin_subscribe
begin-IsBounded c [] b = b
begin-IsBounded c (x ∷ t) b = elim (Option-cases (sub_of (x ∷ t) c.subs)) [
  | inr (s, n) ↦ rw (n, begin_subscribe) b
  | inl n ↦ elim (Bool-cases (leb max_topics (length c.subs))) [
    | inl full ↦ rw (n, begin_subscribe) (rw full b)
    | inr room ↦
        rw (n, begin_subscribe)
          (rw room (record {
            queued = b.queued;
            topics = ground (arith, room, put_length (x ∷ t) new_sub c.subs);
            held = put-Few (x ∷ t) new_sub c.subs (omega arith) b.held;
          }))
  ]
]

write-IsBounded :
    (c : Client) (ms : List Text)
    → length ms ≤ c.queue
    → IsBounded c
    → IsBounded (written c (take_first c ms))
unfolding take_first
write-IsBounded c [] h b = b
write-IsBounded c (m ∷ ms) h b = record { queued = omega arith; topics = b.topics; held = b.held }

error-IsBounded : (c : Client) (raw : Text) → IsBounded c → IsBounded (send_error c raw)
unfolding send_error
error-IsBounded c raw b = elim (Bool-cases (ltb (length c.send) c.queue)) [
  | inl y ↦ rw y (record {
    queued = ground (arith, length-append c.send (raw ∷ []));
    topics = b.topics;
    held = b.held;
  })
  | inr n ↦ rw n (record { queued = b.queued; topics = b.topics; held = b.held })
]

step-IsBounded :
    (encode : Event → Option Frame) (c : Client) (o : ClientOp)
    → IsBounded c
    → IsBounded (client_step encode c o)
unfolding client_step drop_sub write_next
step-IsBounded encode c (begins t) b = begin-IsBounded c t b
step-IsBounded encode c (finishes t es) b = finish-IsBounded encode c t es b
step-IsBounded encode c (delivers t p) b = deliver-IsBounded c t p b
step-IsBounded encode c (drops t) b = record {
  queued = b.queued;
  topics = omega (arith, b.topics, delete_length t c.subs);
  held = delete-Few t c.subs b.held;
}
step-IsBounded encode c (errs raw) b = error-IsBounded c raw b
step-IsBounded encode c writes b = write-IsBounded c c.send b.queued b

-- Whatever a connection within its bounds goes through, its queue never holds more messages than
-- the channel has room for, it follows at most 256 topics, and at most 4096 events wait for each
-- one's replay.
pub client_run-IsBounded :
    (encode : Event → Option Frame) (c : Client) (os : List ClientOp)
    → IsBounded c
    → IsBounded (client_run encode c os)
unfolding client_run
client_run-IsBounded encode c [] b = b
client_run-IsBounded encode c (o ∷ os) b =
    client_run-IsBounded encode (client_step encode c o) os (step-IsBounded encode c o b)
