-- ===== src/Store.antt =====
-- internal/store/store.go: the database, and one transaction on it.
--
-- A table is the list of its rows, the newest first. An operation is a function of the transaction's
-- state `Work` (the struct `work` of internal/core/core.go with the tables in place of its `st`),
-- and returns an error or a value with the new state; an error rolls back. Other transactions show
-- in the rows that they hold, `locked`, which FOR UPDATE SKIP LOCKED passes over.
pub mod Rows
pub mod Runs
pub mod Inserts
pub mod Tables
pub mod Grows
pub mod Keeps
use buildbee.Base.{ℕ, suc, Bool, true, false, Option, none, some, List, [], ◌∷◌, if◌then◌else◌}
use buildbee.Base.Result.{Error, not_found, Result, ok, err}
use buildbee.Text.{Text}
use buildbee.Event.{Event}
use buildbee.Models.Records.{
  Time, Project, Person, Preferences, Member, Task, Run, RunEvent, Handoff, Decision,
  DecisionMemory, Activity, Notification, Message, Pipeline, Artifact, Channel, File, Routine,
}

pub record Db : Type 0 where
  pub projects : List Project
  pub people : List Person
  pub preferences : List Preferences
  pub members : List Member
  pub tasks : List Task
  pub runs : List Run
  pub run_events : List RunEvent
  pub handoffs : List Handoff
  pub decisions : List Decision
  pub memories : List DecisionMemory
  pub activity : List Activity
  pub notifications : List Notification
  pub messages : List Message
  pub pipelines : List Pipeline
  pub artifacts : List Artifact
  pub channels : List Channel
  pub files : List File
  pub routines : List Routine
  pub activity_seq : ℕ  -- the BIGSERIAL columns' last values
  pub notification_seq : ℕ
  pub message_seq : ℕ

-- work. `uuid` is github.com/google/uuid's NewString, the n-th call's answer.
pub record Work : Type 0 where
  pub st : Db
  pub now : Time
  pub locked : Text → Bool
  pub uuid : ℕ → Text
  pub next_uuid : ℕ
  pub fingerprint : Text → Text
  pub lower : Text → Text  -- strings.ToLower, on any text
  pub sql_lower : Text → Text  -- SQL's lower
  pub printable : Text → Bool  -- is every character unicode.IsPrint?
  pub letter : ℕ → Bool  -- is the code point a letter or a number, \p{L} or \p{N}?
  pub duration : Text → Option ℕ  -- time.ParseDuration; `none` is an error or less than nothing
  pub date : Time → Text  -- Time.Format("2006-01-02")
  pub events : List Event  -- the newest first
  pub last_run : Option Run
  pub queued : Bool
  pub load : Bool
  pub gone : List Text  -- the keys of the blobs to delete after the commit

abbrev pub W : Type 0 → Type 0
W A = Work → Result (A × Work)

module _ {A : Type 0} where
  unfoldable pub pure : A → W A
  pure a w = ok (a, w)

  unfoldable pub fail : Error → W A
  fail e w = err e

  unfoldable pub with_result : Result A → W A
  with_result (ok a) w = ok (a, w)
  with_result (err e) w = err e

  -- A value that may be missing: ErrNotFound.
  unfoldable pub found : Option A → W A
  found none w = err not_found
  found (some a) w = ok (a, w)

  unfoldable pub gets : (Work → A) → W A
  gets f w = ok (f w, w)

  -- `if a, err := m; err == nil { ... }`
  unfoldable pub attempt : W A → W (Option A)
  attempt m w = elim (m w) [ err e ↦ ok (none, w) | ok r ↦ ok (some r.0, r.1) ]

  abbrev caught : Work → Error → Result (Option A × Work)
  caught w not_found = ok (none, w)
  caught w e = err e

  -- `if errors.Is(err, store.ErrNotFound) { ... }`, every other error going on.
  unfoldable pub or_none : W A → W (Option A)
  or_none m w = elim (m w) [ err e ↦ caught w e | ok r ↦ ok (some r.0, r.1) ]

unfoldable pub changes_work : (Work → Work) → W (Unit {0})
changes_work f w = ok (tt, f w)

infixl 5 ◌>>=◌ ◌>>◌
unfoldable pub ◌>>=◌ : {A B : Type 0} → W A → (A → W B) → W B
◌>>=◌ m f w = elim (m w) [ err e ↦ err e | ok r ↦ f r.0 r.1 ]

abbrev pub ◌>>◌ : {A B : Type 0} → W A → W B → W B
m >> n = m >>= λ _. n

-- `if b { return e }`
unfoldable pub refuse : Bool → Error → W (Unit {0})
refuse true e w = err e
refuse false e w = ok (tt, w)

-- Two branches on a pointer that may be nil.
unfoldable pub on_nil : {A B : Type 0} → Option A → W B → (A → W B) → W B
on_nil none m f = m
on_nil (some a) m f = f a

-- A loop over a list that stops at the first error.
unfoldable pub each : {A : Type 0} → (A → W (Unit {0})) → List A → W (Unit {0})
each f [] w = ok (tt, w)
each f (a ∷ rest) w = elim (f a w) [ err e ↦ err e | ok r ↦ each f rest r.1 ]

-- uuid.NewString()
unfoldable pub new_id : W Text
new_id w = ok (w.uuid w.next_uuid, record w { next_uuid = suc w.next_uuid })
