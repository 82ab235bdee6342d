-- ===== src/Agent/Sink/Order.antt =====
-- internal/agent/acp/sink.go: the text that a Handler is given against the text that the agent sent.
pub mod Pieces
pub mod Failures
use mathlib.Core.List.{append_assoc, append-nil, map-append}
use buildbee.Base.{
  ℕ, ◌≡◌, refl, sym, true, false, Option, none, some, List, [], ◌∷◌, ◌++◌, map, arith, leb,
  if◌then◌else◌, Bool-cases, Option-cases, inl, inr, ◌∙◌, ap, subst, length,
}
use buildbee.Text.{Text, text_eq, text_eq-true}
use buildbee.Agent.Sink.{
  AgentEvent, only_text, Input, arrives, window_over, Sink, Handler, text_event, new_sink, send,
  flush, merge_text, coalesces, take_event, arrive, sink_step, sink_loop, run,
}
use buildbee.Agent.Sink.Order.Pieces.{
  Piece, byte, whole, bytes_of, pieces_as, pieces, all_pieces, arrivals, waiting, holds,
  all_pieces-snoc, pieces-text,
}

module _ (emit : Handler)
    (takes : (before : List AgentEvent) (ev : AgentEvent) → emit before ev ≡ true) where
  send_lem :
      (k : Sink) (ev : AgentEvent)
      → k.failed ≡ false
      → send (some emit) k ev ≡ record k { emitted = k.emitted ++ ev ∷ [] }
  unfolding send
  send_lem k ev f = ground (arith, takes k.emitted ev)

  -- Sending behind what was passed on, once nothing waits.
  send_holds :
      (k : Sink) (ev : AgentEvent)
      → k.failed ≡ false
      → k.pend ≡ none
      → (holds (send (some emit) k ev) ≡ holds k ++ pieces ev)
        × ((send (some emit) k ev).failed ≡ false)
  send_holds k ev f e =
      rw (send_lem k ev f) (rw (e, all_pieces-snoc k.emitted ev, append-nil, append-nil) refl, f)

  -- A flush moves what waits behind what was passed on.
  flush_lem :
      (k : Sink)
      → k.failed ≡ false
      → (holds (flush (some emit) k) ≡ holds k)
        × ((flush (some emit) k).failed ≡ false)
        × ((flush (some emit) k).pend ≡ none)
  unfolding flush
  flush_lem k f = elim (Option-cases k.pend) [
    | inl e ↦ rw (e, flush) (rw e refl, f, e)
    | inr ((kind, t), e) ↦
        rw (e, flush)
          (rw (send_lem k (text_event kind t) f) (
            append-nil (all_pieces (k.emitted ++ text_event kind t ∷ []))
                ∙ all_pieces-snoc k.emitted (text_event kind t)
                ∙ rw (pieces-text kind t),
            f,
            refl,
          ))
  ]

  -- Nothing is lost or moved on the way from `k` to `k'`, and `ps` comes behind.
  abbrev Adds : Sink → List Piece → Sink → Type 0
  Adds k ps k' = (holds k' ≡ holds k ++ ps) × (k'.failed ≡ false)

  sent_after_flush :
      (k : Sink) (ev : AgentEvent)
      → k.failed ≡ false
      → Adds k (pieces ev) (send (some emit) (flush (some emit) k) ev)
  sent_after_flush k ev f =
      let (same, fine, empty) = flush_lem k f in
      let (added, fine') = send_holds (flush (some emit) k) ev fine empty in
      (added ∙ rw same, fine')

  kept_after_flush :
      (k : Sink) (kind t : Text)
      → k.failed ≡ false
      → Adds k (bytes_of kind t) (record (flush (some emit) k) { pend = some (kind, t) })
  kept_after_flush k kind t f =
      let (same, fine, empty) = flush_lem k f in
      let all : all_pieces (flush (some emit) k).emitted ≡ holds k =
        sym (append-nil _)
        ∙ ap (λ w. all_pieces (flush (some emit) k).emitted ++ waiting w) (sym empty)
        ∙ same in
      (ap (λ ps. ps ++ bytes_of kind t) all, fine)

  pieces-as :
      (ev : AgentEvent) (o : Option Text) → only_text ev.payload ≡ o → pieces ev ≡ pieces_as ev o
  unfolding pieces
  pieces-as ev o e = ap (pieces_as ev) e

  take_event_lem :
      (k : Sink) (ev : AgentEvent) (o : Option Text)
      → k.failed ≡ false
      → only_text ev.payload ≡ o
      → Adds k (pieces ev) (take_event (some emit) k ev o)
  unfolding take_event
  take_event_lem k ev none f e = sent_after_flush k ev f
  take_event_lem k ev (some t) f e = elim (Bool-cases (coalesces (some emit) ev.kind)) [
    | inl y ↦ rw y (rw (pieces-as ev (some t) e) (kept_after_flush k ev.kind t f))
    | inr n ↦ rw n (sent_after_flush k ev f)
  ]

  merge_lem :
      (k : Sink) (kind t more : Text)
      → k.failed ≡ false
      → k.pend ≡ some (kind, t)
      → Adds k (bytes_of kind more) (merge_text (some emit) k kind t more)
  unfolding merge_text
  merge_lem k kind t more f e =
      let joined : Sink = record k { pend = some (kind, t ++ more) } in
      let longer : holds joined ≡ holds k ++ bytes_of kind more =
        rw (e, map-append (byte kind) t more)
          (sym (append_assoc (all_pieces k.emitted) (bytes_of kind t) (bytes_of kind more))) in
      let (same, fine, empty) = flush_lem joined f in
      elim (Bool-cases (leb 8192 (length (t ++ more)))) [
        | inl y ↦ rw y (same ∙ longer, fine)
        | inr n ↦ rw n (longer, f)
      ]

  arrive_lem :
      (k : Sink) (ev : AgentEvent) → k.failed ≡ false → Adds k (pieces ev) (arrive (some emit) k ev)
  unfolding arrive
  arrive_lem k ev f = elim (Option-cases k.pend) [
    | inl e ↦ subst (λ x. Adds k (pieces ev) x) (sym (starts e)) (take_event_lem k ev _ f refl)
    | inr ((kind, t), e) ↦
        subst (λ x. Adds k (pieces ev) x) (sym (goes_on kind t e))
          (joins kind t e (only_text ev.payload) refl)
  ]
    where
      starts :
          k.pend ≡ none
          → arrive (some emit) k ev ≡ take_event (some emit) k ev (only_text ev.payload)
      starts e = ground (arith, e)

      next : Text → Text → Option Text → Sink
      next kind t none = take_event (some emit) k ev none
      next kind t (some more) =
          if text_eq kind ev.kind
          then merge_text (some emit) k kind t more
          else take_event (some emit) k ev (some more)

      goes_on :
          (kind t : Text)
          → k.pend ≡ some (kind, t)
          → arrive (some emit) k ev ≡ next kind t (only_text ev.payload)
      goes_on kind t e = elim (Option-cases (only_text ev.payload)) [
        | inl o ↦ ground (arith, e, o)
        | inr (more, o) ↦ ground (arith, e, o)
      ]

      joins :
          (kind t : Text)
          → k.pend ≡ some (kind, t)
          → (o : Option Text) → only_text ev.payload ≡ o
          → Adds k (pieces ev) (next kind t o)
      joins kind t e none o = take_event_lem k ev none f o
      joins kind t e (some more) o = elim (Bool-cases (text_eq kind ev.kind)) [
        | inl y ↦
            rw (y, pieces-as ev (some more) o, ← text_eq-true kind ev.kind y)
              (merge_lem k kind t more f e)
        | inr n ↦ rw n (take_event_lem k ev (some more) f o)
      ]

  loop_lem :
      (is : List Input) (k : Sink)
      → k.failed ≡ false
      → Adds k (all_pieces (arrivals is)) (sink_loop (some emit) k is)
  unfolding sink_loop sink_step arrivals all_pieces
  loop_lem [] k f = (sym (append-nil (holds k)), f)
  loop_lem (arrives ev ∷ is) k f =
      let (added, fine) = arrive_lem k ev f in
      let (rest, fine') = loop_lem is (arrive (some emit) k ev) fine in
      (rest ∙ rw added (append_assoc (holds k) (pieces ev) (all_pieces (arrivals is))), fine')
  loop_lem (window_over ∷ is) k f =
      let (same, fine, empty) = flush_lem k f in
      let (rest, fine') = loop_lem is (flush (some emit) k) fine in (rest ∙ rw same, fine')

  -- With a Handler that takes what it is given, an agent's output arrives whole: every byte of its
  -- text under its kind and every other event, once and in order, wherever the window ends.
  pub run_keeps_order :
      (is : List Input)
      → all_pieces (run (some emit) new_sink is).emitted ≡ all_pieces (arrivals is)
  unfolding run all_pieces
  run_keeps_order is =
      let (added, fine) = loop_lem is new_sink refl in
      let (same, _, empty) = flush_lem (sink_loop (some emit) new_sink is) fine in
      sym (append-nil _)
      ∙ ap
          (λ w.
            all_pieces (flush (some emit) (sink_loop (some emit) new_sink is)).emitted ++ waiting w)
          (sym empty)
      ∙ same
      ∙ added
