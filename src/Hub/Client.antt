-- ===== src/Hub/Client.antt =====
-- One connection of internal/ws/hub.go: its subscriptions and its send queue.
use buildbee.Base.{
  ℕ, Bool, true, false, Option, none, some, List, [], ◌∷◌, ◌++◌, ltb, leb, ◌==◌, if◌then◌else◌,
  length, exists, is_empty,
}
use buildbee.Text.{Text, text_eq}
use buildbee.Event.{Event}

abbrev pub max_pending : ℕ
max_pending = 4096

abbrev pub max_topics : ℕ
max_topics = 256

abbrev pub send_queue : ℕ
send_queue = 8192

-- frame
pub record Frame : Type 0 where
  pub envelope : Text
  pub body : Text  -- the Go field is `data`

-- pendingFrame
pub record PendingFrame : Type 0 where
  pub cursor : ℕ
  pub frame : Frame

-- sub
pub record Sub : Type 0 where
  pub ready : Bool
  pub pending : List PendingFrame
  pub replayed : List ℕ

-- client. `queue` is the capacity of the channel `send`, whose content is oldest first.
pub record Client : Type 0 where
  pub bare : Bool
  pub queue : ℕ
  pub send : List Text
  pub subs : List (Text × Sub)
  pub closing : Bool

-- c.subs[topic]
unfoldable pub sub_of : Text → List (Text × Sub) → Option Sub
sub_of t [] = none
sub_of t ((k, s) ∷ m) = if text_eq k t then some s else sub_of t m

-- c.subs[topic] = s
unfoldable pub put_sub : Text → Sub → List (Text × Sub) → List (Text × Sub)
put_sub t s [] = (t, s) ∷ []
put_sub t s ((k, r) ∷ m) = if text_eq k t then (k, s) ∷ m else (k, r) ∷ put_sub t s m

-- delete(c.subs, topic)
unfoldable pub delete_sub : Text → List (Text × Sub) → List (Text × Sub)
delete_sub t [] = []
delete_sub t ((k, r) ∷ m) = if text_eq k t then delete_sub t m else (k, r) ∷ delete_sub t m

abbrev pub message_of : Client → Frame → Text
message_of c f = if c.bare then f.body else f.envelope

-- enqueueLocked
unfoldable pub enqueue_locked : Client → Frame → Client
enqueue_locked c f =
    if ltb (length c.send) c.queue
    then record c { send = c.send ++ message_of c f ∷ [] }
    else record c { closing = true }

-- `_, dup := s.replayed[cursor]`
unfoldable pub is_replayed : List ℕ → ℕ → Bool
unfolding exists
is_replayed replayed cursor = exists (λ r. r == cursor) replayed

-- deliver, for the subscription that was found.
unfoldable pub deliver_to : Client → Text → Sub → PendingFrame → Client
unfolding put_sub enqueue_locked is_replayed
deliver_to c topic s p =
    if s.ready
    then (if is_replayed s.replayed p.cursor then c else enqueue_locked c p.frame)
    else if leb max_pending (length s.pending)
    then record c { closing = true }
    else record c { subs = put_sub topic (record s { pending = s.pending ++ p ∷ [] }) c.subs }

-- deliver
unfoldable pub deliver : Client → Text → PendingFrame → Client
unfolding deliver_to sub_of
deliver c topic p = elim (sub_of topic c.subs) [ none ↦ c | some s ↦ deliver_to c topic s p ]

-- What subscribing answers: `nil` and the registration to go on with, `nil` at once, or an error.
pub data Begun : Type 0 where
  registered : Client → Begun
  already : Begun
  missing_topic too_many : Begun

abbrev pub new_sub : Sub
new_sub = record { ready = false; pending = []; replayed = [] }

-- The first critical section of `subscribe`.
unfoldable pub begin_subscribe : Client → Text → Begun
unfolding sub_of put_sub
begin_subscribe c topic = if is_empty topic then missing_topic else elim (sub_of topic c.subs) [
  | some s ↦ already
  | none ↦
      if leb max_topics (length c.subs)
      then too_many
      else registered (record c { subs = put_sub topic new_sub c.subs })
]

-- The loop over the backlog: each event that can be encoded is sent, and its cursor kept.
unfoldable pub send_backlog :
    (Event → Option Frame) → List Event → List ℕ → Client → List ℕ × Client
unfolding enqueue_locked
send_backlog encode [] replayed c = (replayed, c)
send_backlog encode (e ∷ es) replayed c = elim (encode e) [
  | none ↦ send_backlog encode es replayed c
  | some f ↦ send_backlog encode es (e.cursor ∷ replayed) (enqueue_locked c f)
]

-- The loop over what arrived meanwhile: what the replay has sent already is dropped.
unfoldable pub send_pending : List ℕ → List PendingFrame → Client → Client
unfolding enqueue_locked is_replayed
send_pending replayed [] c = c
send_pending replayed (p ∷ ps) c =
    send_pending replayed ps (if is_replayed replayed p.cursor then c else enqueue_locked c p.frame)

-- The last critical section of `subscribe`, for the subscription `s` of `topic`.
unfoldable pub release : (Event → Option Frame) → Client → Text → Sub → List Event → Client
unfolding send_backlog send_pending put_sub
release encode c topic s backlog =
    let (replayed, sent) = send_backlog encode backlog s.replayed c in
    let c' = send_pending replayed s.pending sent in
    record c' {
      subs = put_sub topic (record { ready = true; pending = []; replayed = replayed }) c'.subs;
    }

-- `s` is the subscription that was begun: a connection's reader handles one message at a time, so
-- that under its topic there is still this one.
unfoldable pub finish_subscribe : (Event → Option Frame) → Client → Text → List Event → Client
unfolding release sub_of
finish_subscribe encode c topic backlog = elim (sub_of topic c.subs) [
  | none ↦ c
  | some s ↦ release encode c topic s backlog
]

-- The critical section of `unsubscribe` that is the client's.
unfoldable pub drop_sub : Client → Text → Client
unfolding delete_sub
drop_sub c topic = record c { subs = delete_sub topic c.subs }

-- sendError, for the encoded error.
unfoldable pub send_error : Client → Text → Client
send_error c raw =
    if ltb (length c.send) c.queue
    then record c { send = c.send ++ raw ∷ [] }
    else record c { closing = true }

-- writeLoop takes the oldest message off the queue.
unfoldable pub take_first : Client → List Text → Option (Text × Client)
take_first c [] = none
take_first c (m ∷ ms) = some (m, record c { send = ms })

unfoldable pub write_next : Client → Option (Text × Client)
write_next c = take_first c c.send
