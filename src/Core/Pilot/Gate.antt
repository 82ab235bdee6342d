-- ===== src/Core/Pilot/Gate.antt =====
-- `tryMerge` of internal/core/autopilot.go: what must hold of a Task before autopilot moves towards
-- a merge.
use buildbee.Base.{
  ◌≡◌, ◌⊎◌, sym, ap, refl, Bool, if◌then◌else◌, true, false, not, ◌||◌, List, keep, arith, is_empty,
  All, inl, inr,
}
use buildbee.Base.Result.{ok_inj}
use buildbee.Base.Sort.{sort_by}
use buildbee.Text.{Text, text_eq}
use buildbee.Models.Status.{PipelineStatus, pipeline_success, build, review}
use buildbee.Models.Members.{is_nil}
use buildbee.Models.Records.{Run, Task, Pipeline, Project}
use buildbee.Store.{Work, W, pure, ◌>>=◌}
use buildbee.Store.Runs.{newer, list_runs}
use buildbee.Store.Inserts.{newest}
use buildbee.Store.Tables.{list_pipelines}
use buildbee.Store.Keeps.{returned}
use buildbee.Core.Pilot.Checks.{merge_in_progress, approved, approves, last_of, ci_state, counts}
use buildbee.Core.Pilot.Checks.Approval.{IsLast, IsCurrent, approved_lem}
use buildbee.Core.Pilot.Checks.Green.{PassedAs, ci_state-success}
use buildbee.Core.Pilot.Moves.{on_ci, try_merge}

-- The Runs and the CI checks that the database lists for a Task.
abbrev pub runs_of : Task → Work → List Run
runs_of task w = keep (λ r. text_eq r.task_id task.id) w.st.runs

abbrev pub checks_of : Task → Work → List Pipeline
checks_of task w =
    sort_by (newest (λ p. p.created_at) (λ p. p.id))
      (keep (λ p. text_eq p.task_id task.id) w.st.pipelines)

abbrev pub ci_of : Task → Work → PipelineStatus × Text
ci_of task w = ci_state (checks_of task w) task (last_of build (sort_by newer (runs_of task w)))

-- Every check that counts for the latest push has a report of its name, no older, that is a success.
abbrev pub AllPassed : Task → Work → Type 0
AllPassed task w =
    All
      (λ p.
        counts task (last_of build (sort_by newer (runs_of task w))) p ≡ true
        → PassedAs (checks_of task w) p)
      (checks_of task w)

-- A Task with work to merge, that nobody is merging, and whose latest work the last review approved.
abbrev pub IsReady : Task → List Run → Type 0
IsReady task rs =
    (is_nil task.merged_at ≡ true)
    × (is_empty task.branch ≡ false)
    × (merge_in_progress (sort_by newer rs) ≡ false)
    × (r : Run) × IsLast review rs r
    × (approves r.verdict ≡ true)
    × IsCurrent rs task r

unchanged : (w w' : Work) (u : Unit {0}) → pure tt w ≡ returned u w' → w' ≡ w
unfolding pure
unchanged w w' u h = sym (ap (λ p. p.1) (ok_inj h))

if_returned :
    (b : Bool) (m n : W (Unit {0})) (w w' : Work) (u : Unit {0})
    → (if b then m else n) w ≡ returned u w'
    → ((b ≡ true) × (m w ≡ returned u w')) ⊎ ((b ≡ false) × (n w ≡ returned u w'))
if_returned true m n w w' u h = inl (refl, h)
if_returned false m n w w' u h = inr (refl, h)

abbrev settles : Task → Bool
settles task = not (is_nil task.merged_at) || is_empty task.branch

abbrev holds_off : List Run → Task → Bool
holds_off runs task = merge_in_progress runs || not (approved runs task)

abbrev ask_ci : Project → Task → List Run → W (Unit {0})
ask_ci proj task runs =
    list_pipelines task.id >>= λ ps. on_ci proj task (ci_state ps task (last_of build runs))

abbrev unless_held : Task → Project → W (Unit {0})
unless_held task proj =
    list_runs task.id >>= λ runs. if holds_off runs task then pure tt else ask_ci proj task runs

-- tryMerge leaves everything as it was, or the Task is ready: unmerged, with a branch, with no merge
-- under way, and approved by the newest review that succeeded, which is about the latest work: of the
-- very head commit where both commits are known, and otherwise no older than any build. Then what it
-- does is what the state of CI calls for, and where that state is success, every check that
-- counts for the latest push has a report of the same name, no older, that is a success.
pub try_merge_lem :
    (proj : Project) (task : Task) (w w' : Work) (u : Unit {0})
    → try_merge proj task w ≡ returned u w'
    → (w' ≡ w)
      ⊎ (IsReady task (runs_of task w)
          × (on_ci proj task (ci_of task w) w ≡ returned u w')
          × ((ci_of task w).0 ≡ pipeline_success → AllPassed task w))
unfolding try_merge list_runs list_pipelines ◌>>=◌ keep sort_by
try_merge_lem proj task w w' u h =
    elim (if_returned (settles task) (pure tt) (unless_held task proj) w w' u h) [
      | inl (_, still) ↦ inl (unchanged w w' u still)
      | inr (unmerged, h1) ↦
          elim (if_returned (holds_off (sort_by newer (runs_of task w)) task) (pure tt)
            (ask_ci proj task (sort_by newer (runs_of task w))) w w' u h1) [
              | inl (_, still) ↦ inl (unchanged w w' u still)
              | inr (calm, moved) ↦
                  let consents : approved (sort_by newer (runs_of task w)) task ≡ true =
                    ground (arith, calm) in
                  let (r, last, approves_it, current) =
                    approved_lem (runs_of task w) task consents in
                  inr (
                    (
                      ground (arith, unmerged),
                      ground (arith, unmerged),
                      ground (arith, calm),
                      r,
                      last,
                      approves_it,
                      current,
                    ),
                    moved,
                    ci_state-success (checks_of task w) task
                        (last_of build (sort_by newer (runs_of task w))),
                  )
            ]
    ]
