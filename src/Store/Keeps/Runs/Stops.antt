-- ===== src/Store/Keeps/Runs/Stops.antt =====
-- internal/store/runs.go: StopBotRuns, and the prompt of a Run that waits.
use buildbee.Base.{
  ◌≡◌, refl, ap, ◌∙◌, subst, true, false, ◌||◌, [], arith, if◌then◌else◌, Bool-cases, inl, inr,
}
use buildbee.Base.Result.{ok_inj}
use buildbee.Text.{Text}
use buildbee.Models.Status.{
  RunStatus, pending, running, succeeded, failed, canceled, terminal, can_become, same_status,
}
use buildbee.Models.Records.{Time, Run}
use buildbee.Store.{Work}
use buildbee.Store.Rows.{update_where, find_row-update_where}
use buildbee.Store.Rows.Keyed.{IsKeyed-update_where}
use buildbee.Store.Runs.{run_key, stoppable, stopped, stop_bot_runs, update_run_prompt}
use buildbee.Store.Grows.{
  RoutinesFollow-refl, Grows, Follows, Reaches, RunsFollow, stays, moves, Follows-refl,
}
use buildbee.Store.Keeps.{Keeps}
use buildbee.Store.Keeps.Runs.Change.{change_run-Grows}
use buildbee.Store.Keeps.Runs.Claims.{open_Follows, from_pending}

pub Keeps-update_run_prompt : (id prompt : Text) → Keeps (update_run_prompt id prompt)
unfolding update_run_prompt
Keeps-update_run_prompt id prompt = record {
  at = λ w w' r h.
      change_run-Grows id (λ x. same_status x.status pending) (λ x. record x { prompt = prompt })
        (λ _. refl) w w' r
        (λ old _ y.
          open_Follows old (record old { prompt = prompt }) (stays old.status)
            (from_pending old.status y).1)
        h;
}

stops : (s : RunStatus) → terminal s ≡ false → Reaches s canceled
unfolding terminal can_become
stops pending h = moves pending canceled canceled refl (stays canceled)
stops running h = moves running canceled canceled refl (stays canceled)
stops succeeded h = ground (arith, h)
stops failed h = ground (arith, h)
stops canceled h = ground (arith, h)

active :
    (s : RunStatus) → (same_status s pending || same_status s running) ≡ true → terminal s ≡ false
unfolding terminal same_status
active pending h = refl
active running h = refl
active succeeded h = ground (arith, h)
active failed h = ground (arith, h)
active canceled h = ground (arith, h)

going : (bot_id : Text) (r : Run) → stoppable bot_id r ≡ true → terminal r.status ≡ false
going bot_id r h = active r.status (ground (arith, h))

stopped-Follows :
    (bot_id detail : Text) (at : Time) (r : Run)
    → Follows r (if stoppable bot_id r then stopped detail at r else r)
unfolding stopped
stopped-Follows bot_id detail at r = elim (Bool-cases (stoppable bot_id r)) [
  | inl y ↦
      let n = going bot_id r y in rw y (open_Follows r (stopped detail at r) (stops r.status n) n)
  | inr n ↦ rw n (Follows-refl r)
]

stopped_rows :
    (bot_id detail : Text) (at : Time) (w : Work)
    → RunsFollow w.st.runs (update_where run_key (stoppable bot_id) (stopped detail at) w.st.runs)
unfolding stopped
stopped_rows bot_id detail at w id old e = (
  if stoppable bot_id old then stopped detail at old else old,
  find_row-update_where run_key (stoppable bot_id) id (stopped detail at) w.st.runs (λ _. refl)
      ∙ rw e refl,
  stopped-Follows bot_id detail at old,
)

pub Keeps-stop_bot_runs :
    (bot_id detail : Text) (at : Time) → Keeps (stop_bot_runs bot_id detail at)
unfolding stop_bot_runs stopped
Keeps-stop_bot_runs bot_id detail at = record {
  at = λ w w' rs h. subst (Grows w) (ap (λ p. p.1) (ok_inj h)) (record {
    clock = refl;
    log = ([], refl);
    numbers = λ n. n;
    emitted = ([], refl);
    runs = stopped_rows bot_id detail at w;
    keyed =
        IsKeyed-update_where run_key (stoppable bot_id) (stopped detail at) w.st.runs (λ _. refl);
    routines = RoutinesFollow-refl w.now w.st.routines;
  });
}
