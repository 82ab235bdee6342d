-- ===== src/Store/Keeps/Runs/Change.antt =====
-- internal/store/runs.go: reading Runs, and an UPDATE of one Run.
use buildbee.Base.{
  ℕ, ◌≡◌, refl, sym, ap, ◌∙◌, subst, Bool, true, some, List, [], arith, Bool-cases, Option-cases,
  inl, inr,
}
use buildbee.Base.Result.{ok_inj}
use buildbee.Text.{Text, text_eq, text_eq-true}
use buildbee.Models.Records.{Time, Run}
use buildbee.Store.{Work, found}
use buildbee.Store.Rows.{find_row, update_row, find_row-update}
use buildbee.Store.Rows.Keyed.{IsKeyed-update}
use buildbee.Store.Runs.{
  run_key, set_runs, always, busy, change_run, project_load, get_run, list_runs, run_columns,
  expired_runs, update_run, project_key,
}
use buildbee.Store.Grows.{RoutinesFollow-refl, Grows, Follows, StoredAs, RunsFollow, Follows-refl}
use buildbee.Store.Keeps.{Keeps, returned, same_state, found-same}

abbrev pub KeepsId : (Run → Run) → Type 0
KeepsId f = (r : Run) → run_key (f r) ≡ run_key r

module _ (id : Text) (p : Run → Bool) (f : Run → Run) where
  -- A change that returns has found the row, which passed the condition.
  pub change_run_ok :
      (w w' : Work) (r : Run)
      → change_run id p f w ≡ returned r w'
      → (old : Run) × StoredAs id w.st.runs old
        × (p old ≡ true)
        × (r ≡ f old)
        × (w' ≡ set_runs (update_row run_key id f) w)
  unfolding change_run
  change_run_ok w w' r h = elim (Option-cases (find_row run_key id w.st.runs)) [
    | inl e ↦ ground (arith, e, h)
    | inr (old, e) ↦ elim (Bool-cases (p old)) [
      | inl y ↦
          let same = ok_inj (sym (rw (e, change_run) (rw y refl)) ∙ h) in
          (old, e, y, ap (λ q. q.0) (sym same), ap (λ q. q.1) (sym same))
      | inr n ↦ ground (arith, e, n, h)
    ]
  ]

  abbrev pub MayChange : Work → Type 0
  MayChange w = (old : Run) → StoredAs id w.st.runs old → p old ≡ true → Follows old (f old)

  pub update-Follows :
      (keeps : KeepsId f) (xs : List Run) (old : Run)
      → StoredAs id xs old
      → Follows old (f old)
      → RunsFollow xs (update_row run_key id f xs)
  update-Follows keeps xs old e follows j x hx = elim (Bool-cases (text_eq id j)) [
    | inl y ↦ (
      f x,
      rw (find_row-update run_key id j f xs keeps) (rw (y, hx) refl),
      subst (λ z. Follows z (f z)) (cc (e, hx, text_eq-true id j y)) follows,
    )
    | inr n ↦ (x, rw (find_row-update run_key id j f xs keeps) (rw (n, hx) refl), Follows-refl x)
  ]

  pub change_run-Grows :
      (keeps : KeepsId f) (w w' : Work) (r : Run)
      → MayChange w
      → change_run id p f w ≡ returned r w'
      → Grows w w'
  change_run-Grows keeps w w' r may h =
      let (old, e, y, _, w'_is) = change_run_ok w w' r h in
      subst (Grows w) (sym w'_is) (record {
        clock = refl;
        log = ([], refl);
        numbers = λ n. n;
        emitted = ([], refl);
        runs = update-Follows keeps w.st.runs old e (may old e y);
        keyed = IsKeyed-update run_key id f w.st.runs keeps;
        routines = RoutinesFollow-refl w.now w.st.routines;
      })

pub Keeps-get_run : (id : Text) → Keeps (get_run id)
unfolding get_run
Keeps-get_run id = record { at = λ w w' r h. found-same (find_row run_key id w.st.runs) w w' r h }

pub get_run_ok :
    (id : Text) (w w' : Work) (r : Run)
    → get_run id w ≡ returned r w'
    → StoredAs id w.st.runs r × (w' ≡ w)
unfolding get_run found
get_run_ok id w w' r h = elim (Option-cases (find_row run_key id w.st.runs)) [
  | inl e ↦ ground (arith, e, h)
  | inr (old, e) ↦
      let same = ok_inj (sym (rw (e, get_run) refl) ∙ h) in
      (e ∙ ap (λ q. some q.0) same, ap (λ q. q.1) (sym same))
]

pub Keeps-list_runs : (task_id : Text) → Keeps (list_runs task_id)
unfolding list_runs
Keeps-list_runs task_id = record { at = λ w w' rs h. same_state w w' _ rs h }

pub Keeps-expired_runs : (now : Time) (limit : ℕ) → Keeps (expired_runs now limit)
unfolding expired_runs
Keeps-expired_runs now limit = record { at = λ w w' rs h. same_state w w' _ rs h }

pub Keeps-project_load : (id : Text) → Keeps (project_load id)
unfolding project_load
Keeps-project_load id = record {
  at = λ w w' rs h. elim (Option-cases (find_row project_key id w.st.projects)) [
    | inl e ↦ ground (arith, e, h)
    | inr (p, e) ↦
        same_state w w' (p.max_runs, busy id w.st.runs) rs (sym (rw (e, project_load) refl) ∙ h)
  ];
}

-- UpdateRun, for a Run that may follow the stored one.
pub update_run-Grows :
    (r : Run) (w w' : Work) (x : Run)
    → ((old : Run) → StoredAs r.id w.st.runs old → Follows old (run_columns r old))
    → update_run r w ≡ returned x w'
    → Grows w w'
unfolding update_run run_columns
update_run-Grows r w w' x may h =
    change_run-Grows r.id always (run_columns r) (λ _. refl) w w' x (λ old e _. may old e) h
