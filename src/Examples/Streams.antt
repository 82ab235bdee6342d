-- ===== src/Examples/Streams.antt =====
-- The Hub and the sink at concrete inputs.
use buildbee.Base.{
  ℕ, ◌+◌, ◌≤◌, ◌≡◌, ◌≢◌, refl, arith, true, false, Option, some, List, [], ◌∷◌, ◌++◌, length,
  exists,
}
use buildbee.Text.{Text, bytes, text_eq}
use buildbee.Models.Records.{num}
use buildbee.Event.{Event, presence_data}
use buildbee.Hub.Client.{
  Frame, PendingFrame, Sub, Client, begin_subscribe, finish_subscribe, registered, new_sub,
}
use buildbee.Hub.Server.{
  Hub, detach, at_client, index_subscription, has_client, followers, topic_names,
}
use buildbee.Hub.Delivery.{subscribe_sends}
use buildbee.Hub.Delivery.Held.{sent, backlog_frames, deliver_all, messages_of}
use buildbee.Hub.Bounds.{
  ClientOp, begins, finishes, delivers, writes, client_run, client_run-IsBounded,
}
use buildbee.Hub.Bounds.Waiting.{IsBounded}
use buildbee.Hub.Index.{IsIndex, IsKnown, follows, detach_lem, subscribe_leak}
use buildbee.Agent.Sink.{Input, arrives, window_over, Handler, new_sink, text_event, run}
use buildbee.Agent.Sink.Order.Pieces.{all_pieces, arrivals}
use buildbee.Agent.Sink.Order.{run_keeps_order}
use buildbee.Agent.Sink.Order.Failures.{IsTold, run_reports_once}

abbrev topic : Text
topic = bytes "run:1"

abbrev frame : ℕ → Frame
frame n = record { envelope = n ∷ []; body = n ∷ [] }

abbrev live : ℕ → PendingFrame
live n = record { cursor = n; frame = frame n }

abbrev encode : Event → Option Frame
encode e = some (frame e.cursor)

abbrev old_event : ℕ → Event
old_event n = record { topic = topic; cursor = n; type = bytes "run_event"; body = presence_data }

abbrev fresh : Client
fresh = record { bare = false; queue = 8; send = []; subs = []; closing = false }

abbrev waiting : Client
waiting = record fresh { subs = (topic, new_sub) ∷ [] }

fresh-begins : begin_subscribe fresh topic ≡ registered waiting
unfolding begin_subscribe
fresh-begins = refl

abbrev history : List Event
history = old_event 1 ∷ old_event 2 ∷ []

has_room :
    length fresh.send
      + (length (backlog_frames encode history) + (length (live 2 ∷ []) + length (live 3 ∷ [])))
    ≤ fresh.queue
unfolding backlog_frames
has_room = omega arith

sends_example :
    let y =
      deliver_all topic
        (live 3 ∷ [])
        (finish_subscribe encode (deliver_all topic (live 2 ∷ []) waiting) topic history) in
    (y.closing ≡ fresh.closing)
    × (y.send
        ≡ fresh.send
          ++ messages_of fresh (sent (backlog_frames encode history) (live 2 ∷ live 3 ∷ [])))
sends_example =
    subscribe_sends encode fresh waiting topic history (live 2 ∷ []) (live 3 ∷ []) fresh-begins
      (omega arith) has_room

abbrev life : List ClientOp
life =
    begins topic
    ∷ delivers topic (live 2)
    ∷ finishes topic history
    ∷ delivers topic (live 3)
    ∷ writes
    ∷ []

fresh-IsBounded : IsBounded fresh
fresh-IsBounded = record { queued = omega arith; topics = omega arith; held = tt }

limits_example : IsBounded (client_run encode fresh life)
limits_example = client_run-IsBounded encode fresh life fresh-IsBounded

abbrev following : Client
following = record fresh {
  subs = (topic, record { ready = true; pending = []; replayed = 1 ∷ [] }) ∷ [];
}

abbrev ready_sub : Sub
ready_sub = record { ready = true; pending = []; replayed = 1 ∷ [] }

abbrev small_hub : Hub
small_hub = record {
  queue = 8;
  topics = (topic, 1 ∷ 2 ∷ []) ∷ [];
  conns = 1 ∷ 2 ∷ [];
  client = λ _. following;
}

small-IsIndex : IsIndex small_hub.topics
small-IsIndex = ((λ e. ground (arith, e)), tt, tt)

small-IsKnown : IsKnown 1 small_hub
unfolding followers has_client exists topic_names
small-IsKnown t e = ground (arith, e)

detach_example :
    IsIndex (detach 1 small_hub).topics
    × ((t : Text) → follows (detach 1 small_hub).topics t 1 ≡ false)
    × ((t : Text) (d : ℕ)
        → d ≢ 1
        → follows (detach 1 small_hub).topics t d ≡ follows small_hub.topics t d)
detach_example = detach_lem small_hub 1 small-IsIndex small-IsKnown

abbrev new_topic : Text
new_topic = bytes "run:2"

abbrev late_client : Client
late_client = record following { subs = (topic, ready_sub) ∷ (new_topic, new_sub) ∷ [] }

begins_again : begin_subscribe (small_hub.client 1) new_topic ≡ registered late_client
unfolding begin_subscribe text_eq
begins_again = refl

leak_example :
    let late =
      index_subscription 1 new_topic (detach 1 (at_client 1 (λ _. late_client) small_hub)) in
    (follows late.topics new_topic 1 ≡ true) × (has_client 1 late.conns ≡ false)
leak_example = subscribe_leak small_hub 1 new_topic late_client small-IsIndex begins_again

abbrev takes_all : Handler
takes_all before ev = true

abbrev takes_one : Handler
takes_one [] ev = true
takes_one (e ∷ es) ev = false

abbrev chunks : List Input
chunks =
    arrives (text_event (bytes "token") (bytes "Hel"))
    ∷ arrives (text_event (bytes "token") (bytes "lo"))
    ∷ window_over
    ∷ arrives (text_event (bytes "thought") (bytes "hm"))
    ∷ arrives (record { kind = bytes "usage"; payload = (bytes "used", num 3) ∷ [] })
    ∷ []

order_example :
    all_pieces (run (some takes_all) new_sink chunks).emitted ≡ all_pieces (arrivals chunks)
order_example = run_keeps_order takes_all (λ before ev. refl) chunks

once_example : IsTold takes_one (run (some takes_one) new_sink chunks)
once_example = run_reports_once takes_one chunks
