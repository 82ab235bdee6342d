-- ===== src/Core/Grows/Reaps.antt =====
-- What the body of ReapRuns' loop keeps: a Run whose agent went silent fails.
use buildbee.Base.{◌≡◌, refl, subst, arith, true}
use buildbee.Models.Status.{
  RunStatus, pending, running, succeeded, failed, canceled, can_become, same_status,
}
use buildbee.Models.Records.{Time, Run}
use buildbee.Store.{Work, W, gets, ◌>>=◌}
use buildbee.Store.Runs.{run_columns, update_run}
use buildbee.Store.Grows.{Grows, Grows-trans, StoredAs, Follows, Reaches, moves, stays}
use buildbee.Store.Keeps.{Keeps, returned, bind_ok}
use buildbee.Store.Keeps.Runs.Change.{update_run-Grows}
use buildbee.Store.Keeps.Runs.Claims.{open_Follows, running_open}
use buildbee.Core.Report.{reap, reaped}
use buildbee.Core.Grows.{Keeps-mark_load, Keeps-run_event, Keeps-log_activity}
use buildbee.Core.Grows.Moves.{Keeps-run_ended, Keeps-advance}

-- The database grows when the operation returns from this state.
pub record GrowsFrom {A : Type 0} (w : Work) (m : W A) : Type 0 where
  pub at : (w' : Work) (a : A) → m w ≡ returned a w' → Grows w w'

From-bind :
    {A B : Type 0} (w : Work) (m : W A) (f : A → W B)
    → GrowsFrom w m
    → ((a : A) → Keeps (f a))
    → GrowsFrom w (m >>= f)
From-bind w m f g kf = record {
  at = λ w' b h.
      let (x, hx, h1) = bind_ok m f w w' b h in
      Grows-trans w x.1 w' (g.at x.1 x.0 hx) ((kf x.0).at x.1 w' b h1);
}

fails : (s : RunStatus) → same_status s running ≡ true → Reaches s failed
unfolding same_status can_become
fails pending h = ground (arith, h)
fails running h = moves running failed failed refl (stays failed)
fails succeeded h = ground (arith, h)
fails failed h = ground (arith, h)
fails canceled h = ground (arith, h)

reaped-Follows :
    (now : Time) (old : Run)
    → same_status old.status running ≡ true
    → Follows old (run_columns (reaped now old) old)
unfolding reaped run_columns
reaped-Follows now old h =
    open_Follows old (run_columns (reaped now old) old) (fails old.status h)
      (running_open old.status h)

From-update :
    (w : Work) (old : Run)
    → StoredAs old.id w.st.runs old
    → same_status old.status running ≡ true
    → GrowsFrom w (update_run (reaped w.now old))
unfolding reaped
From-update w old stored h = record {
  at = λ w' r u.
      update_run-Grows (reaped w.now old) w w' r
        (λ x e.
          let same : old ≡ x = cc (stored, e) in
          subst (λ z. Follows z (run_columns (reaped w.now old) z)) same
            (reaped-Follows w.now old h))
        u;
}

-- The Run is stored as it was read, and running.
pub reap-Grows :
    (old : Run) (w w' : Work) (u : Unit {0})
    → StoredAs old.id w.st.runs old
    → same_status old.status running ≡ true
    → reap old w ≡ returned u w'
    → Grows w w'
unfolding reap gets ◌>>=◌
reap-Grows old w w' u stored h e =
    let start = From-update w old stored h in
    (From-bind w _ _
        (From-bind w _ _
          (From-bind w _ _
            (From-bind w _ _ (From-bind w _ _ start (λ _. Keeps-mark_load))
              (λ _. Keeps-run_ended _ _))
            (λ _. Keeps-run_event _ _ _))
          (λ _. Keeps-log_activity _ _ _ _ _ _))
        (λ _. Keeps-advance _)).at
      w' u e
