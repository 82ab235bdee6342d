-- ===== src/Core/Members/Gone.antt =====
-- RemoveMember of internal/core/projects.go leaves no Run of a Bot going.
use buildbee.Base.{
  ◌≡◌, refl, ap, ◌∙◌, subst, true, false, ◌||◌, Option, List, arith, if◌then◌else◌, Bool-cases, inl,
  inr, ◌++◌, [], ◌∷◌,
}
use buildbee.Base.Result.{ok_inj}
use buildbee.Text.{Text, bytes, text_eq}
use buildbee.Models.Status.{
  RunStatus, pending, running, succeeded, failed, canceled, terminal, same_status,
}
use buildbee.Models.Records.{Time, str, Member, Run}
use buildbee.Store.{Work, W, pure, gets, each, ◌>>=◌}
use buildbee.Store.Rows.{find_row-update_where}
use buildbee.Store.Runs.{run_key, stoppable, stopped, stop_bot_runs}
use buildbee.Store.Grows.{Grows, StoredAs}
use buildbee.Store.Keeps.{Keeps-each, returned, bind_ok}
use buildbee.Core.Work.{Actor, who_of, log_activity, is_human, member_kind_word}
use buildbee.Core.Members.{after_removal, run_stopped}
use buildbee.Core.Grows.{Keeps-log_activity}
use buildbee.Core.Grows.Projects.{Keeps-run_stopped}

-- A Run is stored, and finished.
abbrev pub EndsAs : Text → Work → Type 0
EndsAs id w = (new : Run) × StoredAs id w.st.runs new × (terminal new.status ≡ true)

EndsAs-stays : (id : Text) (w w' : Work) → Grows w w' → EndsAs id w → EndsAs id w'
EndsAs-stays id w w' g (old, e, t) =
    let (new, e', f) = g.runs id old e in (new, e', ap (λ r. terminal r.status) (f.1 t) ∙ t)

over :
    (s : RunStatus) → (same_status s pending || same_status s running) ≡ false → terminal s ≡ true
unfolding terminal same_status
over pending h = ground (arith, h)
over running h = ground (arith, h)
over succeeded h = refl
over failed h = refl
over canceled h = refl

stopped_now :
    (bot_id detail : Text) (at : Time) (r : Run)
    → text_eq r.bot_member_id bot_id ≡ true
    → terminal (if stoppable bot_id r then stopped detail at r else r).status ≡ true
unfolding stopped terminal
stopped_now bot_id detail at r h = elim (Bool-cases (stoppable bot_id r)) [
  | inl y ↦ rw y refl
  | inr n ↦ rw n (over r.status (ground (arith, n, h)))
]

stop_bot_runs-EndsAs :
    (bot_id detail : Text) (at : Time) (w w' : Work) (rs : List Run) (r : Run)
    → StoredAs r.id w.st.runs r
    → text_eq r.bot_member_id bot_id ≡ true
    → stop_bot_runs bot_id detail at w ≡ returned rs w'
    → EndsAs r.id w'
unfolding stop_bot_runs stopped
stop_bot_runs-EndsAs bot_id detail at w w' rs r e b h =
    subst (EndsAs r.id) (ap (λ p. p.1) (ok_inj h)) (
      if stoppable bot_id r then stopped detail at r else r,
      find_row-update_where run_key (stoppable bot_id) r.id (stopped detail at) w.st.runs
            (λ _. refl)
          ∙ rw e refl,
      stopped_now bot_id detail at r b,
    )

-- Stopping the Runs of the Bot, and then telling of each of them.
runs_stopped :
    (a : Actor) (m : Member) (r : Run) (w w' : Work) (u : Unit {0})
    → StoredAs r.id w.st.runs r
    → text_eq r.bot_member_id m.id ≡ true
    → (stop_bot_runs m.id (m.display_name ++ bytes " was removed") w.now >>= λ runs.
          each (run_stopped a) runs)
        w
      ≡ returned u w'
    → EndsAs r.id w'
runs_stopped a m r w w' u e b h =
    let (x, hx, h1) =
      bind_ok (stop_bot_runs m.id (m.display_name ++ bytes " was removed") w.now)
        (λ runs. each (run_stopped a) runs) w w' u h in
    EndsAs-stays r.id x.1 w' ((Keeps-each (run_stopped a) x.0 (Keeps-run_stopped a)).at x.1 w' u h1)
      (stop_bot_runs-EndsAs m.id _ w.now w x.1 x.0 r e b hx)

-- When a Bot has been taken out of a Project, every Run of the Bot that was stored is stored still,
-- and finished: none of them waits or runs.
pub after_removal_lem :
    (a : Actor) (by : Option Member) (m : Member) (r : Run) (w w' : Work) (u : Unit {0})
    → is_human m ≡ false
    → StoredAs r.id w.st.runs r
    → text_eq r.bot_member_id m.id ≡ true
    → after_removal a by m w ≡ returned u w'
    → EndsAs r.id w'
unfolding after_removal gets ◌>>=◌
after_removal_lem a by m r w w' u bot e b h =
    let part : W (Unit {0}) =
      stop_bot_runs m.id (m.display_name ++ bytes " was removed") w.now >>= λ runs.
      each (run_stopped a) runs in
    let told : Unit {0} → W (Unit {0}) = λ _.
      log_activity m.project_id (who_of by a) (bytes "member") (bytes "removed") m.id (
        (bytes "kind", str (member_kind_word m.kind))
        ∷ (bytes "role", str m.role)
        ∷ (bytes "name", str m.display_name)
        ∷ []) in
    let (x, hx, h1) = bind_ok (if is_human m then pure tt else part) told w w' u h in
    EndsAs-stays r.id x.1 w' ((Keeps-log_activity _ _ _ _ _ _).at x.1 w' u h1) (
      runs_stopped a m r w x.1 x.0 e b
        (subst (λ c. (if c then pure tt else part) w ≡ returned x.0 x.1) bot hx))
