-- ===== src/Store/Keeps/Runs/Claims.antt =====
-- internal/store/runs.go: ClaimRun and the lifecycle of a Run.
use buildbee.Base.{◌≡◌, refl, sym, subst, true, false, [], arith}
use buildbee.Text.{Text}
use buildbee.Models.Status.{
  RunStatus, pending, running, succeeded, failed, canceled, terminal, can_become, same_status,
}
use buildbee.Models.Records.{Time, Run}
use buildbee.Store.{Work}
use buildbee.Store.Runs.Claim.{claim_run_lem}
use buildbee.Store.Rows.Keyed.{IsKeyed, IsKeyed-update}
use buildbee.Store.Runs.{run_key, always, claim_run, claimed, claimable}
use buildbee.Store.Grows.{RoutinesFollow-refl, Grows, Follows, Reaches, stays, moves}
use buildbee.Store.Keeps.{returned}
use buildbee.Store.Keeps.Runs.Change.{update-Follows}

-- A Run that is not finished may change in any way that its lifecycle allows.
pub open_Follows :
    (old new : Run) → Reaches old.status new.status → terminal old.status ≡ false → Follows old new
open_Follows old new h n = (h, λ e. ground (arith, e, n))

pub from_pending :
    (s : RunStatus) → same_status s pending ≡ true → Reaches s running × (terminal s ≡ false)
unfolding same_status terminal can_become
from_pending pending h = (moves pending running running refl (stays running), refl)
from_pending running h = ground (arith, h)
from_pending succeeded h = ground (arith, h)
from_pending failed h = ground (arith, h)
from_pending canceled h = ground (arith, h)

pub running_open : (s : RunStatus) → same_status s running ≡ true → terminal s ≡ false
unfolding same_status terminal
running_open pending h = refl
running_open running h = refl
running_open succeeded h = ground (arith, h)
running_open failed h = ground (arith, h)
running_open canceled h = ground (arith, h)

-- ClaimRun, on a table with distinct ids.
pub claim_run-Grows :
    (process bot_id ai : Text) (now until : Time) (w w' : Work) (r : Run)
    → IsKeyed run_key w.st.runs
    → claim_run process bot_id ai now until w ≡ returned r w'
    → Grows w w'
unfolding claimed claimable
claim_run-Grows process bot_id ai now until w w' r keyed h =
    let (old, next, _, w'_is) = claim_run_lem process bot_id ai now until w keyed r w' h in
    let waits : same_status old.status pending ≡ true = ground (arith, next.0) in
    let (reach, unfinished) = from_pending old.status waits in
    subst (Grows w) (sym w'_is) (record {
      clock = refl;
      log = ([], refl);
      numbers = λ n. n;
      emitted = ([], refl);
      runs =
          update-Follows old.id always (claimed process ai now until) (λ _. refl) w.st.runs old
            next.1 (open_Follows old (claimed process ai now until old) reach unfinished);
      keyed = IsKeyed-update run_key old.id (claimed process ai now until) w.st.runs (λ _. refl);
      routines = RoutinesFollow-refl w.now w.st.routines;
    })
