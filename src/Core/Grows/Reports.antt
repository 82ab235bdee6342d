-- ===== src/Core/Grows/Reports.antt =====
-- What ReportRun, ClaimRun, Heartbeat and AnswerDecision do to a Run, and what they keep.
use buildbee.Base.{
  ℕ, ◌+◌, ◌≡◌, refl, sym, ap, ◌∙◌, subst, Bool, true, false, not, ◌&&◌, ◌||◌, Option, none, some,
  arith, is_empty, if◌then◌else◌, Bool-cases, inl, inr,
}
use buildbee.Base.Result.{
  Result, ok, err, invalid, conflict, not_found, no_actor, unavailable, ok_inj,
}
use buildbee.Text.{Text, text_eq}
use buildbee.Models.Status.{RunStatus, terminal, same_status, same_status-true, can_become}
use buildbee.Models.Records.{Time, Run, Decision}
use buildbee.Store.{Work, with_result, gets, pure, ◌>>=◌, ◌>>◌}
use buildbee.Store.Rows.{find_row_key}
use buildbee.Store.Rows.Keyed.{IsKeyed}
use buildbee.Store.Runs.{run_key, project_load, update_run, run_columns, claim_run}
use buildbee.Store.Grows.{Grows, StoredAs, Follows, Reaches, stays, moves, Grows-trans}
use buildbee.Store.Keeps.{Keeps, returned, same_state, bind_ok, refuse_ok, monad_rules}
use buildbee.Store.Keeps.Runs.{run_rules}
use buildbee.Store.Keeps.Runs.Change.{get_run_ok, update_run-Grows}
use buildbee.Store.Keeps.Runs.Claims.{open_Follows, claim_run-Grows}
use buildbee.Store.Keeps.Tables.{read_rules, table_rules}
use buildbee.Core.Work.{Actor}
use buildbee.Core.Queue.{
  own_run, fill_claim, claim_once, within_limit, on_claimed, lease_ttl, over_limit, beat, Claim,
  mark_load,
}
use buildbee.Core.Report.{
  RunReport, Checked, check_report, check_move, apply_report, announce, after_report, save_report,
  report_run, remember, decide,
}
use buildbee.Core.Grows.{work_rules, Keeps-branches_for}
use buildbee.Core.Grows.Moves.{Keeps-run_actor, Keeps-run_ended, Keeps-advance, Keeps-on_decision}

with_result_ok :
    {A : Type 0} (r : Result A) (w w' : Work) (a : A)
    → with_result r w ≡ returned a w'
    → (r ≡ ok a) × (w' ≡ w)
unfolding with_result
with_result_ok (ok b) w w' a h = (ap (λ q. ok q.0) (ok_inj h), sym (ap (λ q. q.1) (ok_inj h)))
with_result_ok (err e) w w' a h = ground (arith, h)

-- What `check_move` lets through.
abbrev pub IsAllowed : Actor → RunStatus → Run → Type 0
IsAllowed a next old =
    ((is_empty a.agent || text_eq old.worker a.agent) ≡ true)
    × ((same_status next old.status || can_become old.status next) ≡ true)
    × (terminal old.status ≡ false)

check_move_ok :
    (a : Actor) (next : RunStatus) (old : Run) (w w' : Work) (u : Unit {0})
    → check_move a next old w ≡ returned u w'
    → IsAllowed a next old × (w' ≡ w)
unfolding check_move own_run
check_move_ok a next old w w' u h =
    let (x, hx, h1) = bind_ok _ _ w w' u h in
    let (y, hy, h2) = bind_ok _ _ w x.1 x.0 hx in
    let (own, y_is) =
      refuse_ok (not (is_empty a.agent || text_eq old.worker a.agent)) conflict w y.1 y.0 hy in
    let (move, x_is) =
      refuse_ok (not (same_status next old.status) && not (can_become old.status next)) conflict y.1
        x.1 x.0 h2 in
    let (open_run, w'_is) = refuse_ok (terminal old.status) conflict x.1 w' u h1 in
    ((ground (arith, own), ground (arith, move), open_run), w'_is ∙ x_is ∙ y_is)

save_report_ok :
    (a : Actor) (old r x : Run) (w w' : Work) → save_report a old r w ≡ returned x w' → x ≡ r
unfolding after_report pure
save_report_ok a old r x w w' h =
    let (y, _, h1) = bind_ok _ _ w w' x h in
    let (z, _, h2) = bind_ok _ _ y.1 w' x h1 in sym (ap (λ q. q.0) (ok_inj h2))

report_steps :
    (a : Actor) (id : Text) (rep : RunReport) (w w' : Work) (r : Run)
    → report_run a id rep w ≡ returned r w'
    → (u : Checked × Run) × ((check_report a rep ≡ ok u.0)
        × StoredAs id w.st.runs u.1
        × IsAllowed a u.0.next u.1)
      × (save_report a u.1 (apply_report u.0 w.now u.1) w ≡ returned r w')
unfolding report_run gets
report_steps a id rep w w' r h =
    let (x, hx, h1) = bind_ok _ _ w w' r h in
    let (form, x_is) = with_result_ok (check_report a rep) w x.1 x.0 hx in
    let (y, hy, h2) = bind_ok _ _ x.1 w' r h1 in
    let (stored, y_is) = get_run_ok id x.1 y.1 y.0 hy in
    let (t, ht, h3) = bind_ok _ _ y.1 w' r h2 in
    let (z, hz, h4) = bind_ok _ _ y.1 t.1 t.0 ht in
    let (allowed, z_is) = check_move_ok a x.0.next y.0 y.1 z.1 z.0 hz in
    let t_is = ok_inj h4 in
    let back : t ≡ (w.now, w) = sym t_is ∙ ap (λ (v : Work). (v.now, v)) (z_is ∙ y_is ∙ x_is) in
    (
      (x.0, y.0),
      (form, subst (λ v. StoredAs id v.st.runs y.0) x_is stored, allowed),
      subst (λ (p : ℕ × Work). save_report a y.0 (apply_report x.0 p.0 y.0) p.1 ≡ returned r w')
          back h3,
    )

-- When a report is accepted, it was well formed; the stored Run is not finished, belongs to this
-- agent if an agent reports, and its status stays or makes one legal move; and the Run that is
-- returned is the stored one with the whole report applied, the outcome too, also where the status
-- stays.
pub report_run_lem :
    (a : Actor) (id : Text) (rep : RunReport) (w w' : Work) (r : Run)
    → report_run a id rep w ≡ returned r w'
    → (c : Checked) × (old : Run) × (check_report a rep ≡ ok c)
      × StoredAs id w.st.runs old
      × IsAllowed a c.next old
      × (r ≡ apply_report c w.now old)
unfolding report_run
report_run_lem a id rep w w' r h =
    let (u, accepted, h1) = report_steps a id rep w w' r h in
    (
      u.0,
      u.1,
      accepted.0,
      accepted.1,
      accepted.2,
      save_report_ok a u.1 (apply_report u.0 w.now u.1) r w w' h1,
    )

one_move : (s t : RunStatus) → (same_status t s || can_become s t) ≡ true → Reaches s t
one_move s t h = elim (Bool-cases (same_status t s)) [
  | inl e ↦ subst (λ x. Reaches s x) (sym (same_status-true t s e)) (stays s)
  | inr n ↦ moves s t t (ground (arith, h, n)) (stays t)
]

-- What `IsAllowed` means for the Run's lifecycle.
allowed_Follows :
    (a : Actor) (c : Checked) (now : Time) (old : Run)
    → IsAllowed a c.next old
    → Follows old (run_columns (apply_report c now old) old)
unfolding apply_report run_columns
allowed_Follows a c now old h =
    open_Follows old (run_columns (apply_report c now old) old) (one_move old.status c.next h.1) h.2

Keeps-announce : (a : Actor) (r : Run) → Keeps (announce a r)
unfolding announce
Keeps-announce a r = search (monad_rules, work_rules, Keeps-run_actor, Keeps-advance) depth 40

Keeps-after_report : (a : Actor) (old r : Run) → Keeps (after_report a old r)
unfolding after_report
Keeps-after_report a old r =
    search (monad_rules, work_rules, Keeps-run_ended, Keeps-announce) depth 40

stored_once :
    (c : Checked) (now : Time) (id : Text) (old x : Run) (w : Work)
    → StoredAs id w.st.runs old
    → StoredAs (apply_report c now old).id w.st.runs x
    → old ≡ x
unfolding apply_report
stored_once c now id old x w h e = cc (h, e, find_row_key run_key id old w.st.runs h)

pub report_run-Grows :
    (a : Actor) (id : Text) (rep : RunReport) (w w' : Work) (r : Run)
    → report_run a id rep w ≡ returned r w'
    → Grows w w'
report_run-Grows a id rep w w' r h =
    let (u, accepted, h1) = report_steps a id rep w w' r h in
    let new = apply_report u.0 w.now u.1 in
    let (x, hx, h2) = bind_ok (update_run new) (λ _. after_report a u.1 new) w w' r h1 in
    let follows = allowed_Follows a u.0 w.now u.1 accepted.2 in
    Grows-trans w x.1 w'
      (update_run-Grows new w x.1 x.0
        (λ old e.
          subst (λ z. Follows z (run_columns new z))
            (stored_once u.0 w.now id u.1 old w accepted.1 e) follows)
        hx)
      ((Keeps-after_report a u.1 new).at x.1 w' r h2)

Keeps-fill_claim : (a : Actor) (r : Run) → Keeps (fill_claim a r)
unfolding fill_claim
Keeps-fill_claim a r =
    search (monad_rules, read_rules, work_rules, Keeps-run_actor, Keeps-branches_for) depth 60

Keeps-filled : (a : Actor) (r : Run) → Keeps (fill_claim a r >>= λ c. pure (some c))
Keeps-filled a r = search (monad_rules, Keeps-fill_claim)

Keeps-load : (p : Text) → Keeps (mark_load >> project_load p)
Keeps-load p = search (monad_rules, run_rules, work_rules)

abbrev limited : Work → Actor → Run → Work → Bool → Result (Option Claim × Work)
limited w a r v b = if b then ok (none, w) else (fill_claim a r >>= λ c. pure (some c)) v

within_limit-Grows :
    (a : Actor) (r : Run) (w v w' : Work) (c : Option Claim) (load : Result ((ℕ × ℕ) × Work))
    → Grows w v
    → (mark_load >> project_load r.project_id) v ≡ load
    → within_limit w a r load ≡ returned c w'
    → Grows w w'
unfolding within_limit
within_limit-Grows a r w v w' c (err e) g q h = ground (arith, h)
within_limit-Grows a r w v w' c (ok load) g q h = elim (Bool-cases (over_limit load.0)) [
  | inl e ↦ same_state w w' none c (subst (λ b. limited w a r load.1 b ≡ returned c w') e h)
  | inr n ↦
      Grows-trans w load.1 w'
        (Grows-trans w v load.1 g ((Keeps-load r.project_id).at v load.1 load.0 q))
        ((Keeps-filled a r).at load.1 w' c
          (subst (λ b. limited w a r load.1 b ≡ returned c w') n h))
]

on_claimed-Grows :
    (a : Actor) (ai : Text) (w w' : Work) (c : Option Claim) (keyed : IsKeyed run_key w.st.runs)
    (r : Result (Run × Work))
    → claim_run a.agent a.bot_id ai w.now (w.now + lease_ttl) w ≡ r
    → on_claimed w a r ≡ returned c w'
    → Grows w w'
unfolding on_claimed
on_claimed-Grows a ai w w' c keyed (err not_found) q h = same_state w w' none c h
on_claimed-Grows a ai w w' c keyed (err conflict) q h = ground (arith, h)
on_claimed-Grows a ai w w' c keyed (err invalid) q h = ground (arith, h)
on_claimed-Grows a ai w w' c keyed (err no_actor) q h = ground (arith, h)
on_claimed-Grows a ai w w' c keyed (err unavailable) q h = ground (arith, h)
on_claimed-Grows a ai w w' c keyed (ok r) q h =
    within_limit-Grows a r.0 w r.1 w' c _
      (claim_run-Grows a.agent a.bot_id ai w.now (w.now + lease_ttl) w r.1 r.0 keyed q) refl h

-- A claim on a table with distinct ids.
pub claim_once-Grows :
    (a : Actor) (ai : Text) (w w' : Work) (c : Option Claim)
    → IsKeyed run_key w.st.runs
    → claim_once a ai w ≡ returned c w'
    → Grows w w'
unfolding claim_once
claim_once-Grows a ai w w' c keyed h = on_claimed-Grows a ai w w' c keyed _ refl h

pub Keeps-beat : (a : Actor) (id : Text) → Keeps (beat a id)
unfolding beat
Keeps-beat a id = search (monad_rules, run_rules) depth 30

Keeps-remember : (p : Text) (d : Decision) → Keeps (remember p d)
unfolding remember
Keeps-remember p d = search (monad_rules, table_rules) depth 30

pub Keeps-decide : (a : Actor) (id answer : Text) → Keeps (decide a id answer)
unfolding decide
Keeps-decide a id answer =
    search (monad_rules, read_rules, table_rules, work_rules, Keeps-remember, Keeps-on_decision)
      depth 60
