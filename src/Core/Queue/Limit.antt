-- ===== src/Core/Queue/Limit.antt =====
-- claimOnce of internal/core/queue.go: a Project's limit, when several claims are under way.
use buildbee.Base.{
  ℕ, zero, suc, ◌≡◌, ◌≤◌, ◌⊎◌, ◌<◌, refl, sym, ap, subst, true, false, Option, none, some, arith,
  Bool-cases, inl, inr,
}
use buildbee.Base.Result.{ok, ok_inj}
use buildbee.Models.Records.{Project, Run}
use buildbee.Store.{Work, pure, changes_work, ◌>>=◌}
use buildbee.Store.Rows.{find_row}
use buildbee.Store.Runs.{project_key, project_load, busy}
use buildbee.Store.Keeps.{returned, bind_ok}
use buildbee.Core.Work.{Actor}
use buildbee.Core.Queue.{Claim, fill_claim, over_limit, within_limit, on_claimed}

some_claim :
    (a : Actor) (r : Run) (v w' : Work) (o : Option Claim)
    → (fill_claim a r >>= λ c. pure (some c)) v ≡ returned o w'
    → (c : Claim) × (o ≡ some c)
unfolding pure
some_claim a r v w' o h =
    let (x, _, h1) = bind_ok _ _ v w' o h in (x.0, sym (ap (λ q. q.0) (ok_inj h1)))

within : (max n : ℕ) → over_limit (max, n) ≡ false → (max ≡ 0) ⊎ (n ≤ max)
within zero n h = inl refl
within (suc max) n h = inr (ground (arith, h))

-- After ClaimRun has returned a Run, whatever other claims have committed in the meantime (`v` is what
-- the recount sees, `w` what there was before the claim): the claim goes through only if the Project
-- has no limit, or no more of its Runs are running than the limit, this one counted. Otherwise there
-- is no Run, and everything is as it was before the claim.
pub on_claimed-bound :
    (a : Actor) (r : Run) (w v w' : Work) (p : Project) (o : Option Claim)
    → find_row project_key r.project_id v.st.projects ≡ some p
    → on_claimed w a (ok (r, v)) ≡ returned o w'
    → (((p.max_runs ≡ 0) ⊎ (busy r.project_id v.st.runs ≤ p.max_runs)) × (c : Claim) × (o ≡ some c))
      ⊎ ((o ≡ none) × (w' ≡ w) × (0 < p.max_runs) × (p.max_runs < busy r.project_id v.st.runs))
unfolding on_claimed within_limit project_load changes_work pure ◌>>=◌
on_claimed-bound a r w v w' p o e h =
    let v' : Work = record v { load = true } in
    let load_is : project_load r.project_id v'
        ≡ ok ((p.max_runs, busy r.project_id v.st.runs), v') =
      rw (e, project_load) refl in
    let h1 = subst (λ l. within_limit w a r l ≡ returned o w') load_is h in
    elim (Bool-cases (over_limit (p.max_runs, busy r.project_id v.st.runs))) [
      | inl y ↦
          let back : returned none w ≡ returned o w' = rw y at h1 in
          inr (
            sym (ap (λ q. q.0) (ok_inj back)),
            sym (ap (λ q. q.1) (ok_inj back)),
            ground (arith, y),
            ground (arith, y),
          )
      | inr n ↦
          let (c, o_is) = some_claim a r v' w' o (rw n at h1) in
          inl (within p.max_runs (busy r.project_id v.st.runs) n, c, o_is)
    ]
