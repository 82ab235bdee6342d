-- ===== src/Store/Grows.antt =====
-- How the database may change: the Project log and the events are appended to, a Run moves along its
-- lifecycle, and a finished Run stays as it is. One rule for each way to build an operation.
use buildbee.Base.{
  ℕ, ◌-◌, ◌≤◌, ◌<◌, ◌≡◌, refl, sym, ap, ◌∙◌, subst, true, Option, some, List, [], ◌∷◌, ◌++◌,
}
use mathlib.Core.List.{append_assoc}
use buildbee.Text.{Text}
use buildbee.Models.Status.{RunStatus, terminal, can_become}
use buildbee.Models.Records.{Time, Run, Activity, Routine}
use buildbee.Store.{Work}
use buildbee.Store.Rows.{find_row}
use buildbee.Store.Rows.Keyed.{IsKeyed}
use buildbee.Store.Runs.{run_key}
use buildbee.Store.Tables.{routine_key}

-- Any number of lifecycle moves.
pub data Reaches : RunStatus → RunStatus → Type 0 where
  stays : (s : RunStatus) → Reaches s s
  moves : (s t u : RunStatus) → can_become s t ≡ true → Reaches t u → Reaches s u

pub Reaches-trans : (s t u : RunStatus) → Reaches s t → Reaches t u → Reaches s u
Reaches-trans s t u (stays _) k = k
Reaches-trans s t u (moves _ v _ e h) k = moves s v u e (Reaches-trans v t u h k)

-- A Run less the counter of its events.
abbrev pub outcome : Run → Run
outcome r = record r { next_seq = 0 }

-- What may become of a stored Run.
abbrev pub Follows : Run → Run → Type 0
Follows old new =
    Reaches old.status new.status × (terminal old.status ≡ true → outcome new ≡ outcome old)

abbrev pub StoredAs : Text → List Run → Run → Type 0
StoredAs id rs r = find_row run_key id rs ≡ some r

abbrev pub RunsFollow : List Run → List Run → Type 0
RunsFollow xs ys =
    (id : Text) (old : Run)
    → StoredAs id xs old
    → (new : Run) × StoredAs id ys new × Follows old new

-- The second list is the first with new entries in front.
abbrev pub Extends : {A : Type 0} → List A → List A → Type 0
Extends {A} xs ys = (new : List A) × (ys ≡ new ++ xs)

-- The entries of the log are numbered downwards from its counter.
abbrev pub IsNumbered : ℕ → List Activity → Type 0
IsNumbered n [] = Unit
IsNumbered n (a ∷ rest) = (a.seq ≤ n) × (0 < a.seq) × IsNumbered (a.seq - 1) rest

-- What a transaction at `now` makes of the time at which a Routine was fired last.
pub data Fires (now : Time) : Option Time → Option Time → Type 0 where
  kept : (t : Option Time) → Fires now t t
  fired : (t : Option Time) → Fires now t (some now)

pub Fires-trans : (now : Time) (s t u : Option Time) → Fires now s t → Fires now t u → Fires now s u
Fires-trans now s t u (kept _) k = k
Fires-trans now s t u (fired _) (kept _) = fired s
Fires-trans now s t u (fired _) (fired _) = fired s

abbrev pub RoutineAt : Text → List Routine → Routine → Type 0
RoutineAt id rs r = find_row routine_key id rs ≡ some r

abbrev pub RoutinesFollow : Time → List Routine → List Routine → Type 0
RoutinesFollow now xs ys =
    (id : Text) (old : Routine)
    → RoutineAt id xs old
    → (new : Routine) × RoutineAt id ys new × Fires now old.last_run_at new.last_run_at

pub RoutinesFollow-refl : (now : Time) (xs : List Routine) → RoutinesFollow now xs xs
RoutinesFollow-refl now xs id old h = (old, h, kept old.last_run_at)

pub record Grows (w w' : Work) : Type 0 where
  pub clock : w'.now ≡ w.now
  pub log : Extends w.st.activity w'.st.activity
  pub numbers :
      IsNumbered w.st.activity_seq w.st.activity → IsNumbered w'.st.activity_seq w'.st.activity
  pub emitted : Extends w.events w'.events
  pub runs : RunsFollow w.st.runs w'.st.runs
  pub keyed : IsKeyed run_key w.st.runs → IsKeyed run_key w'.st.runs
  pub routines : RoutinesFollow w.now w.st.routines w'.st.routines

pub Follows-refl : (r : Run) → Follows r r
Follows-refl r = (stays r.status, λ _. refl)

pub RunsFollow-refl : (xs : List Run) → RunsFollow xs xs
RunsFollow-refl xs id old h = (old, h, Follows-refl old)

pub Extends-trans : {A : Type 0} (xs ys zs : List A) → Extends xs ys → Extends ys zs → Extends xs zs
Extends-trans xs ys zs (a, e) (b, f) = (b ++ a, f ∙ ap (λ l. b ++ l) e ∙ sym (append_assoc b a xs))

pub Follows-trans : (r s t : Run) → Follows r s → Follows s t → Follows r t
Follows-trans r s t h k = (
  Reaches-trans r.status s.status t.status h.0 k.0,
  λ e. let same = h.1 e in k.1 (ap (λ x. terminal x.status) same ∙ e) ∙ same,
)

pub Grows-refl : (w : Work) → Grows w w
Grows-refl w = record {
  clock = refl;
  log = ([], refl);
  numbers = λ h. h;
  emitted = ([], refl);
  runs = RunsFollow-refl w.st.runs;
  keyed = λ k. k;
  routines = RoutinesFollow-refl w.now w.st.routines;
}

pub Grows-trans : (u v w : Work) → Grows u v → Grows v w → Grows u w
Grows-trans u v w h k = record {
  clock = k.clock ∙ h.clock;
  log = Extends-trans u.st.activity v.st.activity w.st.activity h.log k.log;
  numbers = λ n. k.numbers (h.numbers n);
  emitted = Extends-trans u.events v.events w.events h.emitted k.emitted;
  runs = λ id old e.
      let (mid, e1, f1) = h.runs id old e in
      let (new, e2, f2) = k.runs id mid e1 in (new, e2, Follows-trans old mid new f1 f2);
  keyed = λ n. k.keyed (h.keyed n);
  routines = λ id old e.
      let (mid, e1, f1) = h.routines id old e in
      let (new, e2, f2) = k.routines id mid e1 in
      (
        new,
        e2,
        Fires-trans u.now old.last_run_at mid.last_run_at new.last_run_at f1
            (subst (λ t. Fires t mid.last_run_at new.last_run_at) h.clock f2),
      );
}
