-- ===== src/Agent/Sink.antt =====
-- The sink of internal/agent/acp/sink.go, which merges the chunks of an agent's reply.
--
-- The goroutine's `select` reads the queue `in` and the window's timer: its inputs are the list of
-- what it reads, in order. The Handler is a parameter: it may look at what it was given before, and
-- answers whether it took the event; it may be nil.
pub mod Order
use buildbee.Base.{
  ℕ, suc, Bool, true, false, not, ◌&&◌, ◌||◌, Option, none, some, List, [], ◌∷◌, ◌++◌, leb, length,
  if◌then◌else◌,
}
use buildbee.Text.{Text, bytes, text_eq}
use buildbee.Models.Records.{Value, str, num, flag, Payload}

-- acp.Event
pub record AgentEvent : Type 0 where
  pub kind : Text
  pub payload : Payload

abbrev pub coalesce_bytes : ℕ
coalesce_bytes = 8192

-- The text of a payload that holds a string "text" and nothing else: textOnly.
unfoldable pub only_text : Payload → Option Text
only_text ((k, str t) ∷ []) = if text_eq k (bytes "text") then some t else none
only_text _ = none

-- What the goroutine reads: an event, or the end of the window.
pub data Input : Type 0 where
  arrives : AgentEvent → Input
  window_over : Input

-- sink, with the Handler's calls in order, and how often onError was called. `pend` holds the kind
-- and text of the event that waits.
pub record Sink : Type 0 where
  pub pend : Option (Text × Text)
  pub emitted : List AgentEvent
  pub failed : Bool  -- err != nil
  pub reported : ℕ

abbrev pub Handler : Type 0
Handler = List AgentEvent → AgentEvent → Bool

abbrev pub text_event : Text → Text → AgentEvent
text_event kind t = record { kind = kind; payload = (bytes "text", str t) ∷ [] }

-- newSink
abbrev pub new_sink : Sink
new_sink = record { pend = none; emitted = []; failed = false; reported = 0 }

module _ (emit : Option Handler) where
  -- send
  unfoldable pub send : Sink → AgentEvent → Sink
  send k ev = if k.failed then k else elim emit [
    | none ↦ k
    | some handler ↦
        let passed = record k { emitted = k.emitted ++ ev ∷ [] } in
        if handler k.emitted ev
        then passed
        else record passed { failed = true; reported = suc k.reported }
  ]

  -- The closure `flush` of `run`.
  unfoldable pub flush : Sink → Sink
  unfolding send
  flush k = elim k.pend [
    | none ↦ k
    | some (kind, t) ↦ record (send k (text_event kind t)) { pend = none }
  ]

  -- An event that joins the one that waits.
  unfoldable pub merge_text : Sink → Text → Text → Text → Sink
  unfolding flush
  merge_text k kind t more =
      let joined = record k { pend = some (kind, t ++ more) } in
      if leb coalesce_bytes (length (t ++ more)) then flush joined else joined

  abbrev pub coalesces : Text → Bool
  coalesces kind = text_eq kind (bytes "token") || text_eq kind (bytes "thought")

  -- An event that does not join: what waits is sent first.
  unfoldable pub take_event : Sink → AgentEvent → Option Text → Sink
  unfolding flush send
  take_event k ev none = send (flush k) ev
  take_event k ev (some t) =
      if coalesces ev.kind then record (flush k) { pend = some (ev.kind, t) } else send (flush k) ev

  -- The body of `run`'s loop for an event.
  unfoldable pub arrive : Sink → AgentEvent → Sink
  unfolding merge_text take_event only_text
  arrive k ev = elim k.pend [
    | none ↦ take_event k ev (only_text ev.payload)
    | some (kind, t) ↦ elim (only_text ev.payload) [
      | none ↦ take_event k ev none
      | some more ↦
          if text_eq kind ev.kind then merge_text k kind t more else take_event k ev (some more)
    ]
  ]

  unfoldable pub sink_step : Sink → Input → Sink
  unfolding arrive flush
  sink_step k (arrives ev) = arrive k ev
  sink_step k window_over = flush k

  unfoldable pub sink_loop : Sink → List Input → Sink
  unfolding sink_step
  sink_loop k [] = k
  sink_loop k (i ∷ is) = sink_loop (sink_step k i) is

  -- run: the loop ends when `in` is closed, with a last flush.
  unfoldable pub run : Sink → List Input → Sink
  unfolding sink_loop flush
  run k is = flush (sink_loop k is)
