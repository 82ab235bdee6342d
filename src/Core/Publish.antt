-- ===== src/Core/Publish.antt =====
-- tx and inTopicOrder of internal/core/core.go: what a transaction publishes once it has committed.
pub mod Order
use buildbee.Base.{
  ℕ, suc, ◌≡◌, refl, sym, ap, ◌∙◌, Bool, true, false, ◌||◌, List, [], ◌∷◌, All, map, keep, length,
  leb, reverse, arith, if◌then◌else◌, Bool-cases, inl, inr,
}
use buildbee.Base.Result.{Result, ok, err}
use buildbee.Base.Sort.{sort_by, All-sort}
use buildbee.Text.{Text, text_eq, text_eq_iff, text_eq_refl}
use buildbee.Event.{Event}
use buildbee.Store.{W, Work, Db}

abbrev pub about_topic : Text → Event → Bool
about_topic t e = text_eq e.topic t

-- less, of sort.SliceStable: a stable sort keeps `a` before `b` unless b's cursor is smaller.
abbrev pub by_cursor : Event → Event → Bool
by_cursor a b = leb a.cursor b.cursor

-- The sorted group of each topic: `slots` and the loop over it.
unfoldable pub group_of : List Event → Text → List Event
unfolding keep sort_by
group_of events t = sort_by by_cursor (keep (about_topic t) events)

abbrev pub head_or : Event → List Event → Event
head_or e [] = e
head_or e (g ∷ gs) = g

abbrev pub tail_of : List Event → List Event
tail_of [] = []
tail_of (g ∷ gs) = gs

abbrev pub advanced : Text → (Text → List Event) → Text → List Event
advanced t groups u = if text_eq t u then tail_of (groups u) else groups u

-- The slots are filled: each takes the next event of its topic's group.
unfoldable pub fill : (Text → List Event) → List Event → List Event
unfolding text_eq
fill groups [] = []
fill groups (e ∷ rest) = head_or e (groups e.topic) ∷ fill (advanced e.topic groups) rest

-- inTopicOrder
unfoldable pub in_topic_order : List Event → List Event
unfolding fill group_of
in_topic_order events = fill (group_of events) events

-- What `tx` does after the commit.
pub record Outcome : Type 0 where
  pub published : List Event
  pub wakes_queue : Bool  -- s.queue.notify()
  pub presence_changed : Bool
  pub dropped : List Text  -- the keys given to dropBlobs

unfoldable pub after_commit : Work → Outcome
after_commit w = record {
  published = in_topic_order (reverse w.events);
  wakes_queue = w.queued;
  presence_changed = w.queued || w.load;
  dropped = w.gone;
}

-- tx, from the transaction's begin on: an error commits and publishes nothing.
unfoldable pub tx : {A : Type 0} → W A → Work → Result (A × Db × Outcome)
tx fn w = elim (fn w) [ err e ↦ err e | ok r ↦ ok (r.0, r.1.st, after_commit r.1) ]
