-- ===== src/Agent/Sink/Order/Failures.antt =====
-- internal/agent/acp/sink.go: the loop when the Handler fails.
use buildbee.Base.{
  ◌≡◌, ◌⊎◌, refl, sym, ap, subst, Bool, true, false, Option, none, some, List, [], ◌∷◌, ◌++◌, arith,
  suc, if◌then◌else◌, Bool-cases, Option-cases, inl, inr, leb, length,
}
use buildbee.Text.{Text, text_eq}
use buildbee.Agent.Sink.{
  AgentEvent, only_text, Input, arrives, window_over, Sink, Handler, text_event, new_sink, send,
  flush, merge_text, take_event, coalesces, arrive, sink_step, sink_loop, run,
}

module _ (handler : Handler) where
  -- Events that the Handler took, one after another, each seeing those before it.
  pub data Taken : List AgentEvent → Type 0 where
    nothing_yet : Taken []
    then_taken :
        (before : List AgentEvent) (ev : AgentEvent)
        → Taken before
        → handler before ev ≡ true
        → Taken (before ++ ev ∷ [])

  -- What was passed on was taken, and no failure is reported; or the last of it was refused, all
  -- before was taken, and that one failure is reported.
  abbrev pub IsTold : Sink → Type 0
  IsTold k =
      ((k.failed ≡ false) × (k.reported ≡ 0) × Taken k.emitted)
      ⊎ ((k.failed ≡ true)
          × (k.reported ≡ 1)
          × (before : List AgentEvent) × (ev : AgentEvent) × (k.emitted ≡ before ++ ev ∷ [])
          × Taken before
          × (handler before ev ≡ false))

  either_way : (b : Bool) (k l : Sink) → IsTold k → IsTold l → IsTold (if b then k else l)
  either_way true k l s t = s
  either_way false k l s t = t

  send-IsTold : (k : Sink) (ev : AgentEvent) → IsTold k → IsTold (send (some handler) k ev)
  unfolding send
  send-IsTold k ev (inr told) =
      let same : send (some handler) k ev ≡ k = ground (arith, told.0) in
      subst IsTold (sym same) (inr told)
  send-IsTold k ev (inl (f, r, t)) = elim (Bool-cases (handler k.emitted ev)) [
    | inl y ↦
        let same : send (some handler) k ev ≡ record k { emitted = k.emitted ++ ev ∷ [] } =
          ground (arith, f, y) in
        subst IsTold (sym same) (inl (f, r, then_taken k.emitted ev t y))
    | inr n ↦
        let same : send (some handler) k ev ≡ record k {
          emitted = k.emitted ++ ev ∷ [];
          failed = true;
          reported = suc k.reported;
        } =
          ground (arith, f, n) in
        subst IsTold (sym same) (inr (refl, ap suc r, k.emitted, ev, refl, t, n))
  ]

  flush-IsTold : (k : Sink) → IsTold k → IsTold (flush (some handler) k)
  unfolding flush
  flush-IsTold k t = elim (Option-cases k.pend) [
    | inl e ↦ let same : flush (some handler) k ≡ k = ground (arith, e) in subst IsTold (sym same) t
    | inr (p, e) ↦
        let same : flush (some handler) k
            ≡ record (send (some handler) k (text_event p.0 p.1)) { pend = none } =
          ground (arith, e) in
        subst IsTold (sym same) (send-IsTold k (text_event p.0 p.1) t)
  ]

  merge-IsTold :
      (k : Sink) (kind t more : Text) → IsTold k → IsTold (merge_text (some handler) k kind t more)
  unfolding merge_text
  merge-IsTold k kind t more told =
      either_way (leb 8192 (length (t ++ more))) _ _
        (flush-IsTold (record k { pend = some (kind, t ++ more) }) told) told

  take-IsTold :
      (k : Sink) (ev : AgentEvent) (o : Option Text)
      → IsTold k
      → IsTold (take_event (some handler) k ev o)
  unfolding take_event
  take-IsTold k ev none t = send-IsTold (flush (some handler) k) ev (flush-IsTold k t)
  take-IsTold k ev (some x) t =
      either_way (coalesces (some handler) ev.kind) _ _ (flush-IsTold k t)
        (send-IsTold (flush (some handler) k) ev (flush-IsTold k t))

  arrive-IsTold : (k : Sink) (ev : AgentEvent) → IsTold k → IsTold (arrive (some handler) k ev)
  unfolding arrive
  arrive-IsTold k ev t = arrived k.pend (only_text ev.payload)
    where
      arrived :
          (w : Option (Text × Text)) (o : Option Text)
          → IsTold (elim w [
            | none ↦ take_event (some handler) k ev o
            | some (kind, x) ↦ elim o [
              | none ↦ take_event (some handler) k ev none
              | some more ↦
                  if text_eq kind ev.kind
                  then merge_text (some handler) k kind x more
                  else take_event (some handler) k ev (some more)
            ]
          ])
      arrived none o = take-IsTold k ev o t
      arrived (some (kind, x)) none = take-IsTold k ev none t
      arrived (some (kind, x)) (some more) =
          either_way (text_eq kind ev.kind) _ _ (merge-IsTold k kind x more t)
            (take-IsTold k ev (some more) t)

  loop-IsTold : (is : List Input) (k : Sink) → IsTold k → IsTold (sink_loop (some handler) k is)
  unfolding sink_loop sink_step
  loop-IsTold [] k t = t
  loop-IsTold (arrives ev ∷ is) k t =
      loop-IsTold is (arrive (some handler) k ev) (arrive-IsTold k ev t)
  loop-IsTold (window_over ∷ is) k t = loop-IsTold is (flush (some handler) k) (flush-IsTold k t)

  -- However the Handler answers: either it took every event that it was given, and no failure is
  -- reported; or it refused the last one, took all before, its failure is reported once, and nothing
  -- was passed on after it.
  pub run_reports_once : (is : List Input) → IsTold (run (some handler) new_sink is)
  unfolding run
  run_reports_once is =
      flush-IsTold (sink_loop (some handler) new_sink is)
        (loop-IsTold is new_sink (inl (refl, refl, nothing_yet)))
