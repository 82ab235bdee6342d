-- ===== src/Hub/Server.antt =====
-- The Hub of internal/ws/hub.go: which clients follow which topic. A client is a number, and
-- `client` finds its state, as a pointer does in Go.
use buildbee.Base.{
  ℕ, Bool, true, false, not, Option, none, some, List, [], ◌∷◌, ◌==◌, if◌then◌else◌, exists, keep,
  length,
}
use buildbee.Text.{Text, text_eq}
use buildbee.Event.{Event}
use buildbee.Hub.Client.{
  Frame, PendingFrame, Client, Sub, registered, already, missing_topic, too_many, deliver,
  begin_subscribe, finish_subscribe, drop_sub, send_queue,
}

-- h.topics: a set of clients for each topic that has some.
abbrev pub Topics : Type 0
Topics = List (Text × List ℕ)

-- Hub
pub record Hub : Type 0 where
  pub queue : ℕ
  pub topics : Topics
  pub conns : List ℕ
  pub client : ℕ → Client

-- Is the client in the set?
unfoldable pub has_client : ℕ → List ℕ → Bool
unfolding exists
has_client c cs = exists (λ x. x == c) cs

-- h.topics[topic]
unfoldable pub followers : Text → Topics → List ℕ
followers t [] = []
followers t ((k, cs) ∷ m) = if text_eq k t then cs else followers t m

-- `set[c] = struct{}{}`
unfoldable pub add_client : ℕ → List ℕ → List ℕ
unfolding has_client
add_client c cs = if has_client c cs then cs else c ∷ cs

-- `h.topics[topic][c] = struct{}{}`, the set being made where there is none.
unfoldable pub add_follower : Text → ℕ → Topics → Topics
unfolding add_client
add_follower t c [] = (t, c ∷ []) ∷ []
add_follower t c ((k, cs) ∷ m) =
    if text_eq k t then (k, add_client c cs) ∷ m else (k, cs) ∷ add_follower t c m

-- `delete(set, c)`
unfoldable pub remove_client : ℕ → List ℕ → List ℕ
unfolding keep
remove_client c cs = keep (λ x. not (x == c)) cs

-- Put back a topic's set, or drop it where it became empty.
unfoldable pub entry_or_drop : Text → List ℕ → Topics → Topics
entry_or_drop k [] m = m
entry_or_drop k (c ∷ cs) m = (k, c ∷ cs) ∷ m

-- `delete(subs, c)`, and `delete(h.topics, topic)` where nobody is left.
unfoldable pub remove_follower : Text → ℕ → Topics → Topics
unfolding remove_client entry_or_drop
remove_follower t c [] = []
remove_follower t c ((k, cs) ∷ m) =
    if text_eq k t then entry_or_drop k (remove_client c cs) m else (k, cs) ∷ remove_follower t c m

-- A change of one client's state.
unfoldable pub at_client : ℕ → (Client → Client) → Hub → Hub
at_client c f h = record h { client = λ x. if x == c then f (h.client x) else h.client x }

-- NewHub
unfoldable pub new_hub : (ℕ → Client) → Hub
new_hub clients = record { queue = send_queue; topics = []; conns = []; client = clients }

-- attach, once the socket is set up: a client with an empty queue is entered.
unfoldable pub attach : ℕ → Bool → Hub → Hub
unfolding at_client add_client
attach c bare h = record (at_client c (λ _. fresh) h) { conns = add_client c h.conns }
  where
    fresh : Client
    fresh = record { bare = bare; queue = h.queue; send = []; subs = []; closing = false }

-- Subscribers
unfoldable pub subscribers : Hub → Text → ℕ
unfolding followers
subscribers h topic = length (followers topic h.topics)

-- Publish reads the topic's clients under the lock, and delivers to each once it has let go.
unfoldable pub deliver_each : List ℕ → Text → PendingFrame → Hub → Hub
unfolding at_client
deliver_each [] topic p h = h
deliver_each (c ∷ cs) topic p h = deliver_each cs topic p (at_client c (λ x. deliver x topic p) h)

unfoldable pub publish : (Event → Option Frame) → Event → Hub → Hub
unfolding deliver_each followers
publish encode e h = elim (encode e) [
  | none ↦ h
  | some f ↦
      deliver_each (followers e.topic h.topics) e.topic (record { cursor = e.cursor; frame = f }) h
]

-- The second critical section of `subscribe`: the hub's index.
unfoldable pub index_subscription : ℕ → Text → Hub → Hub
unfolding add_follower
index_subscription c topic h = record h { topics = add_follower topic c h.topics }

-- unsubscribe
unfoldable pub unsubscribe : ℕ → Text → Hub → Hub
unfolding remove_follower at_client
unsubscribe c topic h =
    at_client c (λ x. drop_sub x topic) (record h { topics = remove_follower topic c h.topics })

-- subscribe, when nothing happens in between: `replay` is what the database answers, `none` an
-- error; a client that asks for no replay gives `some []`.
unfoldable pub subscribe :
    (Event → Option Frame) → ℕ → Text → Option (List Event) → Hub → Hub × Bool
unfolding at_client index_subscription unsubscribe
subscribe encode c topic replay h = elim (begin_subscribe (h.client c) topic) [
  | missing_topic ↦ (h, false)
  | too_many ↦ (h, false)
  | already ↦ (h, true)
  | registered x ↦
      let entered = index_subscription c topic (at_client c (λ _. x) h) in
      elim replay [
        | none ↦ (unsubscribe c topic entered, false)
        | some backlog ↦ (at_client c (λ y. finish_subscribe encode y topic backlog) entered, true)
      ]
]

-- The loop of `detach` over the topics that the client has.
unfoldable pub remove_everywhere : List Text → ℕ → Topics → Topics
unfolding remove_follower
remove_everywhere [] c m = m
remove_everywhere (t ∷ ts) c m = remove_everywhere ts c (remove_follower t c m)

-- topicNames
unfoldable pub topic_names : List (Text × Sub) → List Text
topic_names [] = []
topic_names ((k, s) ∷ m) = k ∷ topic_names m

-- detach, which `close` calls once.
unfoldable pub detach : ℕ → Hub → Hub
unfolding remove_everywhere remove_client topic_names
detach c h = record h {
  topics = remove_everywhere (topic_names (h.client c).subs) c h.topics;
  conns = remove_client c h.conns;
}
