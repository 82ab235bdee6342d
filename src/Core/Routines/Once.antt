-- ===== src/Core/Routines/Once.antt =====
-- A Routine fires once: the claim of a firing, and the wait for the next.
use buildbee.Base.{
  ◌≤◌, ◌<◌, ◌+◌, ◌≡◌, refl, sym, ap, ◌∙◌, subst, Bool, true, false, Option, none, some, arith,
  Bool-cases, inl, inr, if◌then◌else◌, ℕ,
}
use buildbee.Base.Result.{Result, ok, err, ok_inj, conflict}
use buildbee.Text.{Text, text_eq_refl, trim_space}
use buildbee.Models.Records.{Time, Project, Routine}
use buildbee.Store.{Work, W, pure, gets, refuse, ◌>>=◌, ◌>>◌, found}
use buildbee.Store.Rows.{find_row, find_row-update}
use buildbee.Store.Tables.{get_project, routine_key, unfired, same_time, fired_at, claim_routine}
use buildbee.Store.Grows.{Grows, Fires, kept, fired, RoutineAt}
use buildbee.Store.Keeps.{Keeps, Keeps-bind, Keeps-pure, returned, bind_ok, refuse_ok}
use buildbee.Store.Keeps.Routines.{claim_routine_ok, fired_work}
use buildbee.Core.Work.{Actor, open_space, open_project}
use buildbee.Core.Routines.{parse_interval, long_enough, minute, due, due_since, fire, fire_claimed}
use buildbee.Core.Grows.Routines.{Keeps-fire_claimed}

long_enough-bound : (o : Option ℕ) (d : ℕ) → long_enough o ≡ ok d → minute ≤ d
unfolding long_enough
long_enough-bound none d h = ground (arith, h)
long_enough-bound (some e) d h = ground (arith, h)

-- An interval is no shorter than a minute.
pub parse_interval-bound :
    (lower : Text → Text) (duration : Text → Option ℕ) (s : Text) (d : ℕ)
    → parse_interval lower duration s ≡ ok d
    → minute ≤ d
unfolding parse_interval
parse_interval-bound lower duration s d h =
    ground (arith, h, long_enough-bound (duration (trim_space (lower s))) d)

-- The transaction is where it was: the operation has only read.
record Reads {A : Type 0} (m : W A) : Type 0 where
  pub at : (w w' : Work) (a : A) → m w ≡ returned a w' → w' ≡ w

Reads-bind :
    {A B : Type 0} (m : W A) (f : A → W B) → Reads m → ((a : A) → Reads (f a)) → Reads (m >>= f)
Reads-bind m f rm rf = record {
  at = λ w w' b h.
      let (x, hx, h1) = bind_ok m f w w' b h in (rf x.0).at x.1 w' b h1 ∙ rm.at w x.1 x.0 hx;
}

Reads-refuse : (b : Bool) → Reads (refuse b conflict)
Reads-refuse b = record { at = λ w w' u h. (refuse_ok b conflict w w' u h).1 }

Reads-pure : {A : Type 0} (a : A) → Reads (pure a)
unfolding pure
Reads-pure a = record { at = λ w w' b h. sym (ap (λ q. q.1) (ok_inj h)) }

found_same : {A : Type 0} (o : Option A) (w w' : Work) (a : A) → found o w ≡ returned a w' → w' ≡ w
unfolding found
found_same none w w' a h = ground (arith, h)
found_same (some b) w w' a h = sym (ap (λ q. q.1) (ok_inj h))

Reads-get_project : (id : Text) → Reads (get_project id)
unfolding get_project
Reads-get_project id = record { at = λ w w' a h. found_same _ w w' a h }

Reads-open_project : (id : Text) → Reads (open_project id)
unfolding open_project open_space
Reads-open_project id =
    Reads-bind _ _
      (Reads-bind _ _ (Reads-get_project id)
        (λ p. Reads-bind _ _ (Reads-refuse _) (λ _. Reads-pure p)))
      (λ p. Reads-bind _ _ (Reads-refuse _) (λ _. Reads-pure p))

-- What `fire` does once it has claimed the Routine, or has not.
abbrev go_on : Actor → Project → Routine → Bool → W Bool
go_on a proj r b = if b then (fire_claimed a proj r >> pure true) else pure false

Keeps-fired :
    (a : Actor) (proj : Project) (r : Routine) → Keeps (fire_claimed a proj r >> pure true)
Keeps-fired a proj r = Keeps-bind _ _ (Keeps-fire_claimed a proj r) (λ _. Keeps-pure true)

abbrev opened : Actor → Routine → Project → W Bool
opened a r proj =
    gets (λ w. w.now) >>= λ now. claim_routine r.id r.last_run_at now >>= λ b. go_on a proj r b

-- Was the stored Routine fired last when the firing's own copy says?
abbrev pub unclaimed : Routine → Work → Bool
unclaimed r w = unfired r.last_run_at (find_row routine_key r.id w.st.routines)

opened_steps :
    (a : Actor) (r : Routine) (proj : Project) (w w' : Work) (b : Bool)
    → opened a r proj w ≡ returned b w'
    → (c : Bool) × (c ≡ unclaimed r w)
      × (go_on a proj r c (fired_work r.id w.now c w) ≡ returned b w')
unfolding gets ◌>>=◌
opened_steps a r proj w w' b h =
    let (y, hy, h1) =
      bind_ok (claim_routine r.id r.last_run_at w.now) (λ b. go_on a proj r b) w w' b h in
    let (c_is, y_is) = claim_routine_ok r.id r.last_run_at w.now w y.1 y.0 hy in
    (y.0, c_is, subst (λ v. go_on a proj r y.0 v ≡ returned b w') y_is h1)

-- The state after the claim, and what is left to do.
fire_steps :
    (a : Actor) (r : Routine) (w w' : Work) (b : Bool)
    → fire a r w ≡ returned b w'
    → (proj : Project) × (c : Bool) × (c ≡ unclaimed r w)
      × (go_on a proj r c (fired_work r.id w.now c w) ≡ returned b w')
unfolding fire
fire_steps a r w w' b h =
    let (x, hx, h1) = bind_ok (open_project r.project_id) (opened a r) w w' b h in
    let x_is = (Reads-open_project r.project_id).at w x.1 x.0 hx in
    let (c, c_is, g) =
      opened_steps a r x.0 w w' b (subst (λ v. opened a r x.0 v ≡ returned b w') x_is h1) in
    (x.0, c, c_is, g)

-- What `fire` returns tells whether it claimed the Routine; if not, it left no trace.
went :
    (a : Actor) (proj : Project) (r : Routine) (c : Bool) (w w' : Work) (b : Bool)
    → go_on a proj r c w ≡ returned b w'
    → (b ≡ c) × (c ≡ false → w' ≡ w) × (c ≡ true → Grows w w')
unfolding pure
went a proj r true w w' b h =
    let (x, _, h1) = bind_ok (fire_claimed a proj r) (λ _. pure true) w w' b h in
    (
      sym (ap (λ q. q.0) (ok_inj h1)),
      λ e. ground (arith, e),
      λ _. (Keeps-fired a proj r).at w w' b h,
    )
went a proj r false w w' b h =
    (sym (ap (λ q. q.0) (ok_inj h)), λ _. sym (ap (λ q. q.1) (ok_inj h)), λ e. ground (arith, e))

-- The time of a Routine that was fired in this very transaction.
stays_fired : (now : Time) (t : Option Time) → Fires now (some now) t → t ≡ some now
stays_fired now _ (kept _) = refl
stays_fired now _ (fired _) = refl

stored_of :
    (prev : Option Time) (o : Option Routine)
    → true ≡ unfired prev o
    → (old : Routine) × (o ≡ some old) × (same_time old.last_run_at prev ≡ true)
stored_of prev none h = ground (arith, h)
stored_of prev (some old) h = (old, refl, sym h)

-- The Routine as the claim leaves it.
claimed_row :
    (w : Work) (r old : Routine)
    → RoutineAt r.id w.st.routines old
    → RoutineAt r.id (fired_work r.id w.now true w).st.routines (fired_at w.now old)
claimed_row w r old e =
    find_row-update routine_key r.id r.id (fired_at w.now) w.st.routines (λ _. refl)
    ∙ rw (text_eq_refl r.id, e) refl

-- A firing that succeeds has found the Routine fired last when its own copy says, and leaves it
-- fired at the transaction's time.
pub fire_lem :
    (a : Actor) (r : Routine) (w w' : Work)
    → fire a r w ≡ returned true w'
    → (old : Routine) × RoutineAt r.id w.st.routines old
      × (same_time old.last_run_at r.last_run_at ≡ true)
      × (new : Routine) × RoutineAt r.id w'.st.routines new
      × (new.last_run_at ≡ some w.now)
fire_lem a r w w' h =
    let (proj, c, c_is, g) = fire_steps a r w w' true h in
    let (did, _, grows) = went a proj r c (fired_work r.id w.now c w) w' true g in
    let (old, e, same) = stored_of r.last_run_at _ (did ∙ c_is) in
    let grown = subst (λ b. Grows (fired_work r.id w.now b w) w') (sym did) (grows (sym did)) in
    let (new, e', f) = grown.routines r.id (fired_at w.now old) (claimed_row w r old e) in
    (old, e, same, new, e', stays_fired w.now new.last_run_at f)

-- Two processes that read the same Routine do not both fire it: once a firing has succeeded and
-- committed, another with the same copy, which says another time than this firing's, returns false
-- and leaves no trace, if it returns.
pub fire_once :
    (a b : Actor) (r : Routine) (w w' v v' : Work) (c : Bool)
    → fire a r w ≡ returned true w'
    → v.st.routines ≡ w'.st.routines
    → same_time (some w.now) r.last_run_at ≡ false
    → fire b r v ≡ returned c v'
    → (c ≡ false) × (v' ≡ v)
fire_once a b r w w' v v' c h same other k =
    let (_, _, _, new, e, last) = fire_lem a r w w' h in
    let (proj, d, d_is, g) = fire_steps b r v v' c k in
    let refused : unclaimed r v ≡ false =
      ap (λ rs. unfired r.last_run_at (find_row routine_key r.id rs)) same
      ∙ ap (unfired r.last_run_at) e
      ∙ ap (λ t. same_time t r.last_run_at) last
      ∙ other in
    let d_false = d_is ∙ refused in
    let (did, left, _) = went b proj r d (fired_work r.id v.now d v) v' c g in
    (did ∙ d_false, left d_false ∙ ap (λ x. fired_work r.id v.now x v) d_false)

not_due :
    (now later : Time) (t : Option Time) (i : Result ℕ)
    → t ≡ some now
    → later < now + minute
    → ((d : ℕ) → i ≡ ok d → minute ≤ d)
    → due_since later i t ≡ false
not_due now later none i e h least = ground (arith, e)
not_due now later (some t) (err x) e h least = refl
not_due now later (some t) (ok d) e h least = ground (arith, e, h, least d refl)

-- After a firing that succeeds, the Routine is stored and not due for a minute, whatever its
-- schedule.
pub fire_rests :
    (a : Actor) (r : Routine) (w w' : Work) (later : Time)
    → fire a r w ≡ returned true w'
    → later < w.now + minute
    → (new : Routine) × RoutineAt r.id w'.st.routines new
      × (due w.lower w.duration new later ≡ false)
unfolding due
fire_rests a r w w' later h before =
    let (_, _, _, new, e, last) = fire_lem a r w w' h in
    (
      new,
      e,
      elim (Bool-cases new.enabled) [
        | inl y ↦ rw y (
            not_due w.now later new.last_run_at _ last before
              (parse_interval-bound w.lower w.duration new.schedule))
        | inr n ↦ rw n refl
      ],
    )
