-- ===== src/Core/History.antt =====
-- What agents, people and the clock do one after another: committed calls, and Runs that are reaped,
-- as steps of the database.
use buildbee.Base.{◌≡◌, refl, true, []}
use buildbee.Text.{Text}
use buildbee.Models.Status.{running, same_status, terminal}
use buildbee.Models.Records.{Run}
use buildbee.Store.{Work, Db}
use buildbee.Store.Rows.Keyed.{IsKeyed}
use buildbee.Store.Runs.{run_key}
use buildbee.Store.Grows.{
  Grows, Extends, IsNumbered, RunsFollow, RunsFollow-refl, StoredAs, Reaches, outcome,
  Extends-trans, Follows-trans,
}
use buildbee.Store.Keeps.{returned}
use buildbee.Core.Report.{reap}
use buildbee.Core.Calls.{Call, call}
use buildbee.Core.Grows.Reaps.{reap-Grows}
use buildbee.Core.Grows.Calls.{call-Grows}

-- One call that returned, whatever its clock and the rows that others hold; or one turn of
-- ReapRuns' loop, for a Run that is stored as it was read, and running.
pub data Step : Db → Db → Type 0 where
  calls : (c : Call) (w w' : Work) (u : Unit {0}) → call c w ≡ returned u w' → Step w.st w'.st
  reaps :
      (old : Run) (w w' : Work) (u : Unit {0})
      → StoredAs old.id w.st.runs old
      → same_status old.status running ≡ true
      → reap old w ≡ returned u w'
      → Step w.st w'.st

pub data Steps : Db → Db → Type 0 where
  no_step : (db : Db) → Steps db db
  then_step : (x y z : Db) → Steps x y → Step y z → Steps x z

-- `Grows`, of the tables alone.
record Later (db db' : Db) : Type 0 where
  log : Extends db.activity db'.activity
  numbers : IsNumbered db.activity_seq db.activity → IsNumbered db'.activity_seq db'.activity
  runs : RunsFollow db.runs db'.runs
  keyed : IsKeyed run_key db'.runs

later : (w w' : Work) → IsKeyed run_key w.st.runs → Grows w w' → Later w.st w'.st
later w w' k g = record { log = g.log; numbers = g.numbers; runs = g.runs; keyed = g.keyed k }

Step-Later : (x y : Db) → IsKeyed run_key x.runs → Step x y → Later x y
Step-Later x y k (calls c w w' u h) = later w w' k (call-Grows c w w' u k h)
Step-Later x y k (reaps old w w' u e r h) = later w w' k (reap-Grows old w w' u e r h)

Steps-Later : (x y : Db) → IsKeyed run_key x.runs → Steps x y → Later x y
Steps-Later x y k (no_step _) = record {
  log = ([], refl);
  numbers = λ n. n;
  runs = RunsFollow-refl x.runs;
  keyed = k;
}
Steps-Later x z k (then_step _ y _ before last) =
    let h = Steps-Later x y k before in
    let l = Step-Later y z h.keyed last in
    record {
      log = Extends-trans x.activity y.activity z.activity h.log l.log;
      numbers = λ n. l.numbers (h.numbers n);
      runs = λ id old e.
          let (mid, e1, f1) = h.runs id old e in
          let (new, e2, f2) = l.runs id mid e1 in (new, e2, Follows-trans old mid new f1 f2);
      keyed = l.keyed;
    }

-- After any sequence of committed calls and reaped Runs, every Run that was stored is stored still,
-- and its status is one that the lifecycle leads to. The ids of the Runs are distinct at the start.
pub history-lifecycle :
    (x y : Db) (id : Text) (old : Run)
    → IsKeyed run_key x.runs
    → Steps x y
    → StoredAs id x.runs old
    → (new : Run) × StoredAs id y.runs new × Reaches old.status new.status
history-lifecycle x y id old k h e =
    let (new, e', f) = (Steps-Later x y k h).runs id old e in (new, e', f.0)

-- A Run that has finished stays as it is, but for the counter of its events, whatever sequence of
-- calls and reaped Runs is committed afterwards. The ids of the Runs are distinct at the start.
pub history-finished :
    (x y : Db) (id : Text) (old : Run)
    → IsKeyed run_key x.runs
    → Steps x y
    → StoredAs id x.runs old
    → terminal old.status ≡ true
    → (new : Run) × StoredAs id y.runs new × (outcome new ≡ outcome old)
history-finished x y id old k h e t =
    let (new, e', f) = (Steps-Later x y k h).runs id old e in (new, e', f.1 t)
