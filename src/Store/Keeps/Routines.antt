-- ===== src/Store/Keeps/Routines.antt =====
-- internal/store/runs.go: what Routines keep, and when a firing is claimed.
use buildbee.Base.{
  ◌≡◌, refl, sym, ap, ◌∙◌, subst, Bool, true, false, Option, none, List, [], ◌∷◌, arith, Bool-cases,
  inl, inr, if◌then◌else◌,
}
use buildbee.Base.Result.{conflict, ok_inj}
use buildbee.Text.{Text, text_eq, text_eq_iff}
use buildbee.Models.Records.{Time, Routine}
use buildbee.Store.{Work, W, gets, pure, changes_work, ◌>>=◌}
use buildbee.Store.Rows.{find_row, update_row, find_row-update}
use buildbee.Store.Runs.{is_some}
use buildbee.Store.Inserts.{set_st, insert_row}
use buildbee.Store.Tables.{
  insert_routine, get_routine, update_routine, claim_routine, list_enabled_routines, routine_key,
  routine_columns, fired_at, unfired, set_routines,
}
use buildbee.Store.Grows.{
  Grows, Fires, kept, fired, RoutinesFollow, RunsFollow-refl, Grows-refl, Grows-trans,
}
use buildbee.Store.Keeps.{
  Keeps, returned, same_state, found-same, Keeps-changes, Keeps-bind, bind_ok,
}
use buildbee.Store.Keeps.Runs.{passed, absent}

pub Keeps-get_routine : (id : Text) → Keeps (get_routine id)
unfolding get_routine
Keeps-get_routine id = record { at = λ w w' r h. found-same _ w w' r h }

pub Keeps-list_enabled_routines : Keeps list_enabled_routines
unfolding list_enabled_routines
Keeps-list_enabled_routines = record { at = λ w w' r h. same_state w w' _ r h }

-- A change to the table of Routines alone.
routines_Grows :
    (w : Work) (rs : List Routine)
    → RoutinesFollow w.now w.st.routines rs
    → Grows w (record w { st = record w.st { routines = rs } })
routines_Grows w rs h = record {
  clock = refl;
  log = ([], refl);
  numbers = λ n. n;
  emitted = ([], refl);
  runs = RunsFollow-refl w.st.runs;
  keyed = λ k. k;
  routines = h;
}

below :
    (now : Time) (r : Routine) (xs : List Routine)
    → find_row routine_key r.id xs ≡ none
    → RoutinesFollow now xs (r ∷ xs)
unfolding find_row
below now r xs h id old e = (old, ground (arith, h, e, text_eq_iff r.id id), kept old.last_run_at)

-- An update of one row by a function that leaves its id alone.
changed :
    (now : Time) (i : Text) (f : Routine → Routine) (xs : List Routine)
    → ((r : Routine) → routine_key (f r) ≡ routine_key r)
    → ((r : Routine) → Fires now r.last_run_at (f r).last_run_at)
    → RoutinesFollow now xs (update_row routine_key i f xs)
changed now i f xs keys times id old e =
    let same = find_row-update routine_key i id f xs keys in
    elim (Bool-cases (text_eq i id)) [
      | inl y ↦ (f old, same ∙ rw (y, e) refl, times old)
      | inr n ↦ (old, same ∙ rw n e, kept old.last_run_at)
    ]

pub Keeps-insert_routine : (r : Routine) → Keeps (insert_routine r)
unfolding insert_routine insert_row
Keeps-insert_routine r = record {
  at = λ w w' u h.
      let (new, h1) = passed (is_some (find_row routine_key r.id w.st.routines)) conflict _ _ h in
      let row = record r { last_run_at = none; last_task_id = [] } in
      subst (Grows w) (ap (λ q. q.1) (ok_inj h1)) (
        routines_Grows w (row ∷ w.st.routines)
          (below w.now row w.st.routines (absent (find_row routine_key r.id w.st.routines) new)));
}

pub Keeps-update_routine : (r : Routine) → Keeps (update_routine r)
unfolding update_routine
Keeps-update_routine r = Keeps-bind _ _ (Keeps-get_routine r.id) (λ _. Keeps-changes _ (λ w.
    routines_Grows w _
      (changed w.now r.id (routine_columns r) w.st.routines (λ _. refl) (λ x. kept x.last_run_at))))

-- The transaction with the Routine fired, or not.
abbrev pub fired_work : Text → Time → Bool → Work → Work
fired_work id at b w =
    if b then record w { st = set_routines (update_row routine_key id (fired_at at)) w.st } else w

claim_cases :
    (id : Text) (at : Time) (w w' : Work) (c b : Bool)
    → (if c
          then (set_st (set_routines (update_row routine_key id (fired_at at))) >>= λ _. pure true)
          else pure false)
        w
      ≡ returned b w'
    → (b ≡ c) × (w' ≡ fired_work id at c w)
unfolding pure ◌>>=◌ changes_work
claim_cases id at w w' true b h = (sym (ap (λ p. p.0) (ok_inj h)), sym (ap (λ p. p.1) (ok_inj h)))
claim_cases id at w w' false b h = (sym (ap (λ p. p.0) (ok_inj h)), sym (ap (λ p. p.1) (ok_inj h)))

-- A claim succeeds exactly if nobody fired the Routine since `prev`, and then sets its time.
pub claim_routine_ok :
    (id : Text) (prev : Option Time) (at : Time) (w w' : Work) (b : Bool)
    → claim_routine id prev at w ≡ returned b w'
    → (b ≡ unfired prev (find_row routine_key id w.st.routines)) × (w' ≡ fired_work id at b w)
unfolding claim_routine gets ◌>>=◌
claim_routine_ok id prev at w w' b h =
    let (b_is, w'_is) = claim_cases id at w w' _ b h in
    (b_is, w'_is ∙ ap (λ c. fired_work id at c w) (sym b_is))

fired_Grows : (id : Text) (b : Bool) (w : Work) → Grows w (fired_work id w.now b w)
fired_Grows id true w =
    routines_Grows w _
      (changed w.now id (fired_at w.now) w.st.routines (λ _. refl) (λ x. fired x.last_run_at))
fired_Grows id false w = Grows-refl w

-- A claim at the transaction's own time, and what follows it.
pub Keeps-claimed :
    {B : Type 0} (id : Text) (prev : Option Time) (f : Time → Bool → W B)
    → ((now : Time) (b : Bool) → Keeps (f now b))
    → Keeps (gets (λ w. w.now) >>= λ now. claim_routine id prev now >>= f now)
unfolding gets ◌>>=◌
Keeps-claimed id prev f kf = record {
  at = λ w w' r h.
      let (x, hx, h1) = bind_ok (claim_routine id prev w.now) (f w.now) w w' r h in
      let (_, x_is) = claim_routine_ok id prev w.now w x.1 x.0 hx in
      Grows-trans w x.1 w' (subst (Grows w) (sym x_is) (fired_Grows id x.0 w))
        ((kf w.now x.0).at x.1 w' r h1);
}

pub ruleset routine_rules =
    (Keeps-insert_routine, Keeps-get_routine, Keeps-update_routine, Keeps-list_enabled_routines)
