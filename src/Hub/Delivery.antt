-- ===== src/Hub/Delivery.antt =====
-- What a subscriber is sent: the replay, then the live events that the replay does not hold.
pub mod Held
pub mod Replay
use mathlib.Core.List.{append_assoc, append-nil, map-append}
use buildbee.Base.{
  ℕ, suc, ◌+◌, ◌≤◌, ◌<◌, ◌≡◌, refl, Bool, true, false, not, ◌||◌, Option, none, some, List, [], ◌∷◌,
  ◌++◌, map, arith, ◌==◌, if◌then◌else◌, length, exists, keep, count_if, Bool-cases, Option-cases,
  inl, inr, ◌∙◌, ap, length-append, keep-append,
}
use buildbee.Text.{Text, text_eq, text_eq_iff, text_eq_refl}
use buildbee.Event.{Event}
use buildbee.Hub.Client.{
  Frame, PendingFrame, Sub, Client, sub_of, put_sub, message_of, enqueue_locked, is_replayed,
  deliver_to, deliver, new_sub, registered, begin_subscribe, send_backlog, send_pending, release,
  finish_subscribe, max_pending,
}
use buildbee.Hub.Delivery.Held.{
  sub_of-put_self, deliver_all, messages_of, backlog_frames, has_cursor, others, sent,
  deliver_found, held,
}
use buildbee.Hub.Delivery.Replay.{
  replay_cursors, backlog_sent, pending_sent, live_sent, registered_lem, keep-agree, finish_found,
  length-messages, length-keep_le,
}

module _ (encode : Event → Option Frame) (c : Client) (topic : Text) (early : List PendingFrame)
    (backlog : List Event) where
  abbrev replay : List PendingFrame
  replay = backlog_frames encode backlog

  abbrev held_sub : Sub
  held_sub = record new_sub { pending = early }

  -- The client while the replay is read.
  abbrev holding : Client
  holding = record c { subs = put_sub topic held_sub c.subs }

  -- The client once the replay has been sent.
  abbrev caught_up : Client
  caught_up = record c {
    send = (c.send ++ messages_of c replay) ++ messages_of c (others replay early);
    subs =
        put_sub topic
          (record { ready = true; pending = []; replayed = replay_cursors encode backlog [] })
          (put_sub topic held_sub c.subs);
  }

  released :
      length c.send + (length replay + length early) ≤ c.queue
      → release encode holding topic held_sub backlog ≡ caught_up
  unfolding release
  released room = rw (backlog_sent encode backlog [] holding (omega arith)) (
      rw
        (pending_sent (replay_cursors encode backlog []) early
          (record holding { send = c.send ++ messages_of c replay })
          (omega (arith, length-append c.send (messages_of c replay), length-messages c replay)))
        (rw (keep-agree encode backlog early)))

-- Between registering and the end of the replay `early` arrives, at most 4096 events, and `late`
-- after it. While the queue has room the client is not closed, and is sent the replay and then, in
-- the order of their publication, the live events whose cursors the replay does not hold.
pub subscribe_sends :
    (encode : Event → Option Frame) (c x : Client) (topic : Text) (backlog : List Event)
    (early late : List PendingFrame)
    → begin_subscribe c topic ≡ registered x
    → length early ≤ max_pending
    → length c.send + (length (backlog_frames encode backlog) + (length early + length late))
      ≤ c.queue
    → let y =
        deliver_all topic late
          (finish_subscribe encode (deliver_all topic early x) topic backlog) in
      (y.closing ≡ c.closing)
      × (y.send ≡ c.send ++ messages_of c (sent (backlog_frames encode backlog) (early ++ late)))
subscribe_sends encode c x topic backlog early late b few room = rw (registered_lem c x topic b) (
    rw
      (held topic new_sub c.subs early (record c { subs = put_sub topic new_sub c.subs }) refl refl
        (omega arith))
      (rw
        (finish_found encode (holding encode c topic early backlog) topic
          (held_sub encode c topic early backlog) backlog (sub_of-put_self topic _ c.subs))
        (rw (released encode c topic early backlog (omega arith)) (
          rw
            (live_sent topic _ late (caught_up encode c topic early backlog) refl
              (sub_of-put_self topic _ _)
              (omega (
                arith,
                length-append (c.send ++ messages_of c (backlog_frames encode backlog))
                    (messages_of c (others (backlog_frames encode backlog) early)),
                length-append c.send (messages_of c (backlog_frames encode backlog)),
                length-messages c (backlog_frames encode backlog),
                length-messages c (others (backlog_frames encode backlog) early),
                length-keep_le
                    (λ p. not (exists (has_cursor p.cursor) (backlog_frames encode backlog))) early,
              )))
            (refl, simp (keep-agree, keep-append, map-append, append_assoc))))))
