-- ===== src/Store/Keeps/Runs.antt =====
-- What the operations on `runs` and `run_events` keep.
pub mod Change
pub mod Claims
pub mod Leases
pub mod Stops
use buildbee.Base.{
  ℕ, suc, ◌≡◌, refl, sym, ap, ◌∙◌, subst, Bool, true, false, not, Option, none, some, List, [], ◌∷◌,
  arith, if◌then◌else◌, Bool-cases, Option-cases, inl, inr,
}
use buildbee.Base.Result.{Error, Result, ok, err, not_found, conflict, ok_inj}
use buildbee.Text.{Text, text_eq, text_eq_iff, text_eq-true}
use buildbee.Models.Status.{
  RunStatus, pending, running, succeeded, failed, canceled, terminal, can_become, same_status,
  EventKind,
}
use buildbee.Models.Records.{Time, Payload, Run}
use buildbee.Store.{Work, W, pure, found}
use buildbee.Store.Rows.{find_row, update_row, find_row-update}
use buildbee.Store.Runs.Claim.{claim_run_lem}
use buildbee.Store.Rows.Keyed.{IsKeyed, IsKeyed-update}
use buildbee.Store.Runs.{
  run_key, set_runs, always, is_some, busy, new_row, missing_reference, change_run, insert_run,
  claim_run, claimed, claimable, project_load, get_run, extend_lease, list_runs, run_columns,
  expired_runs, update_run, append_run_event, project_key,
}
use buildbee.Store.Grows.{
  RoutinesFollow-refl, Grows, Follows, StoredAs, RunsFollow, Reaches, stays, moves, Follows-refl,
  RunsFollow-refl, Grows-refl,
}
use buildbee.Store.Keeps.{
  refuse_ok, Keeps, returned, same_state, found-same, Keeps-changes, Keeps-bind, Keeps-pure,
  Keeps-new_id, bind_ok,
}
use buildbee.Store.Keeps.Runs.Change.{
  KeepsId, change_run_ok, MayChange, update-Follows, change_run-Grows, Keeps-get_run, get_run_ok,
  Keeps-list_runs, Keeps-expired_runs, Keeps-project_load, update_run-Grows,
}
use buildbee.Store.Keeps.Runs.Claims.{open_Follows, from_pending, running_open, claim_run-Grows}
use buildbee.Store.Keeps.Runs.Leases.{
  leased, renew, lease_step, lease_step_ok, extend_lease_lem, renew-Grows, Keeps-extend_lease,
}

bump : Run → Run
bump r = record r { next_seq = suc r.next_seq }

append_event_Grows :
    (w : Work) → (rs : _) → Grows w (record w { st = record w.st { run_events = rs } })
append_event_Grows w rs = record {
  clock = refl;
  log = ([], refl);
  numbers = λ n. n;
  emitted = ([], refl);
  runs = RunsFollow-refl w.st.runs;
  keyed = λ k. k;
  routines = RoutinesFollow-refl w.now w.st.routines;
}

Keeps-bump :
    (id : Text) → Keeps (change_run id always (λ r. record r { next_seq = suc r.next_seq }))
Keeps-bump id = record {
  at = λ w w' r h.
      change_run-Grows id always (λ x. record x { next_seq = suc x.next_seq }) (λ _. refl) w w' r
        (λ old _ _. (stays old.status, λ _. refl)) h;
}

pub Keeps-append_run_event :
    (run_id : Text) (kind : EventKind) (payload : Payload) (at : Time)
    → Keeps (append_run_event run_id kind payload at)
unfolding append_run_event
Keeps-append_run_event run_id kind payload at = Keeps-bind _ _ Keeps-new_id (λ id.
    Keeps-bind _ _ (Keeps-bump run_id)
      (λ r. Keeps-bind _ _ (Keeps-changes _ (λ w. append_event_Grows w _)) (λ _. Keeps-pure _)))

pub absent : {A : Type 0} (o : Option A) → is_some o ≡ false → o ≡ none
absent none h = refl
absent (some a) h = ground (arith, h)

extended :
    (w : Work) (row : Run)
    → find_row run_key row.id w.st.runs ≡ none
    → RunsFollow w.st.runs (row ∷ w.st.runs)
unfolding find_row
extended w row none_there j x hx = (x, ground (arith, text_eq_iff row.id j), Follows-refl x)

-- A test that refuses has not refused an operation that returns.
pub passed :
    {A : Type 0} (b : Bool) (e : Error) (m : Result A) (a : A)
    → (if b then err e else m) ≡ ok a
    → (b ≡ false) × (m ≡ ok a)
passed true e m a h = ground (arith, h)
passed false e m a h = (refl, h)

pub Keeps-insert_run : (r : Run) → Keeps (insert_run r)
unfolding insert_run
Keeps-insert_run r = record {
  at = λ w w' u h.
      let (new, h1) = passed (is_some (find_row run_key r.id w.st.runs)) conflict _ _ h in
      let (_, h2) = passed (missing_reference w.st r) not_found _ _ h1 in
      subst (Grows w) (ap (λ q. q.1) (ok_inj h2)) (record {
        clock = refl;
        log = ([], refl);
        numbers = λ n. n;
        emitted = ([], refl);
        runs = extended w (new_row r) (absent (find_row run_key r.id w.st.runs) new);
        keyed = λ k. (absent (find_row run_key r.id w.st.runs) new, k);
        routines = RoutinesFollow-refl w.now w.st.routines;
      });
}

pub ruleset run_rules = (
  Keeps-get_run, Keeps-list_runs, Keeps-expired_runs, Keeps-project_load, Keeps-append_run_event,
  Keeps-insert_run, Keeps-extend_lease,
)
