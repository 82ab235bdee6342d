-- ===== src/Store/Keeps/Runs/Leases.antt =====
-- internal/store/runs.go: ExtendLease.
use buildbee.Base.{
  ◌≡◌, refl, sym, ap, ◌∙◌, subst, true, not, some, [], arith, if◌then◌else◌, Bool-cases, inl, inr,
}
use buildbee.Base.Result.{conflict, ok_inj}
use buildbee.Text.{Text, text_eq}
use buildbee.Models.Status.{running, same_status}
use buildbee.Models.Records.{Time, Run}
use buildbee.Store.{Work, W, pure}
use buildbee.Store.Rows.{update_row}
use buildbee.Store.Rows.Keyed.{IsKeyed-update}
use buildbee.Store.Runs.{run_key, set_runs, always, change_run, extend_lease}
use buildbee.Store.Grows.{RoutinesFollow-refl, Grows, StoredAs, stays, Grows-refl}
use buildbee.Store.Keeps.{refuse_ok, Keeps, returned, bind_ok}
use buildbee.Store.Keeps.Runs.Change.{change_run_ok, update-Follows, get_run_ok}
use buildbee.Store.Keeps.Runs.Claims.{open_Follows, running_open}

abbrev pub leased : Time → Run → Run
leased until x = record x { lease_until = some until }

-- What a renewed lease changes: that of a Run that is running.
unfoldable pub renew : Text → Time → Run → Work → Work
renew id until old w =
    if same_status old.status running then set_runs (update_row run_key id (leased until)) w else w

abbrev pub lease_step : Text → Time → Run → W Run
lease_step id until old =
    if same_status old.status running then change_run id always (leased until) else pure old

pub lease_step_ok :
    (id : Text) (until : Time) (old : Run) (w w' : Work) (r : Run)
    → lease_step id until old w ≡ returned r w'
    → w' ≡ renew id until old w
unfolding renew pure
lease_step_ok id until old w w' r h = elim (Bool-cases (same_status old.status running)) [
  | inl e ↦
      let h' =
        subst (λ b. (if b then change_run id always (leased until) else pure old) w ≡ returned r w')
          e h in
      (change_run_ok id always (leased until) w w' r h').4 ∙ sym (rw e refl)
  | inr n ↦
      let h' =
        subst (λ b. (if b then change_run id always (leased until) else pure old) w ≡ returned r w')
          n h in
      sym (ap (λ q. q.1) (ok_inj h')) ∙ sym (rw n refl)
]

-- A lease is renewed by the worker that holds the Run only.
pub extend_lease_lem :
    (id worker : Text) (until : Time) (w w' : Work) (r : Run)
    → extend_lease id worker until w ≡ returned r w'
    → (old : Run) × StoredAs id w.st.runs old
      × (text_eq old.worker worker ≡ true)
      × (w' ≡ renew id until old w)
unfolding extend_lease
extend_lease_lem id worker until w w' r h =
    let (x, hx, h1) = bind_ok _ _ w w' r h in
    let (stored, x_is) = get_run_ok id w x.1 x.0 hx in
    let (y, hy, h2) = bind_ok _ _ x.1 w' r h1 in
    let (same, y_is) = refuse_ok (not (text_eq x.0.worker worker)) conflict x.1 y.1 y.0 hy in
    (
      x.0,
      stored,
      ground (arith, same),
      lease_step_ok id until x.0 w w' r
          (subst (λ v. lease_step id until x.0 v ≡ returned r w') (y_is ∙ x_is) h2),
    )

pub renew-Grows :
    (id : Text) (until : Time) (old : Run) (w : Work)
    → StoredAs id w.st.runs old
    → Grows w (renew id until old w)
unfolding renew
renew-Grows id until old w stored = elim (Bool-cases (same_status old.status running)) [
  | inl e ↦ rw e (record {
    clock = refl;
    log = ([], refl);
    numbers = λ n. n;
    emitted = ([], refl);
    runs =
        update-Follows id always (leased until) (λ _. refl) w.st.runs old stored
          (open_Follows old (leased until old) (stays old.status) (running_open old.status e));
    keyed = IsKeyed-update run_key id (leased until) w.st.runs (λ _. refl);
    routines = RoutinesFollow-refl w.now w.st.routines;
  })
  | inr n ↦ rw n (Grows-refl w)
]

pub Keeps-extend_lease : (id worker : Text) (until : Time) → Keeps (extend_lease id worker until)
Keeps-extend_lease id worker until = record {
  at = λ w w' r h.
      let (old, stored, _, w'_is) = extend_lease_lem id worker until w w' r h in
      subst (Grows w) (sym w'_is) (renew-Grows id until old w stored);
}
