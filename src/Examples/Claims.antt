-- ===== src/Examples/Claims.antt =====
-- Claims at a concrete database.
use buildbee.Base.{◌≤◌, ◌<◌, ◌≡◌, ◌⊎◌, refl, true, Option, none, some, [], ◌∷◌, All, count_if}
use buildbee.Base.Result.{not_found, ok, err}
use buildbee.Text.{Text, bytes, text_eq}
use buildbee.Models.Status.{same_status}
use buildbee.Models.Records.{Run}
use buildbee.Store.{Work, changes_work, ◌>>=◌}
use buildbee.Store.Keeps.{returned}
use buildbee.Core.Queue.{Claim, on_claimed, within_limit}
use buildbee.Core.Queue.Limit.{on_claimed-bound}
use buildbee.Store.Rows.{find_row, update_row}
use buildbee.Store.Rows.Keyed.{IsKeyed}
use buildbee.Store.Runs.{
  run_key, project_key, set_runs, busy, claimable, claimed, change_run, claim_run, project_load,
}
use buildbee.Store.Runs.Claim.{IsNext, claim_run_lem, claim_run-none}
use buildbee.Examples.Sample.{hive, waiting_run, going_run, start, agent}

start-IsKeyed : IsKeyed run_key start.st.runs
unfolding find_row text_eq
start-IsKeyed = (refl, (refl, (refl, tt)))

abbrev process : Text
process = bytes "w"

abbrev bot : Text
bot = bytes "b"

abbrev ai : Text
ai = bytes "claude"

abbrev after_claim : Work
after_claim = set_runs (update_row run_key waiting_run.id (claimed process ai 50 110)) start

claims :
    claim_run process bot ai 50 110 start ≡ ok (claimed process ai 50 110 waiting_run, after_claim)
unfolding claim_run claimable same_status find_row text_eq busy change_run
claims = refl

claim_example :
    (old : Run) × IsNext start bot old
    × (claimed process ai 50 110 waiting_run ≡ claimed process ai 50 110 old)
    × (after_claim ≡ set_runs (update_row run_key old.id (claimed process ai 50 110)) start)
claim_example =
    claim_run_lem process bot ai 50 110 start start-IsKeyed (claimed process ai 50 110 waiting_run)
      after_claim claims

-- Other claims have committed since: with this one three of the Project's Runs are going, and its
-- limit is two.
abbrev third_run : Run
third_run = record going_run { id = bytes "r4" }

abbrev first_claimed : Run
first_claimed = claimed process ai 50 110 waiting_run

abbrev nothing_claimed : Option Claim
nothing_claimed = none

abbrev recounted : Work
recounted = set_runs (λ _. first_claimed ∷ going_run ∷ third_run ∷ []) start

rolled_back :
    on_claimed start agent (ok (first_claimed, recounted)) ≡ returned nothing_claimed start
unfolding on_claimed within_limit ◌>>=◌ changes_work project_load find_row text_eq busy count_if
    claimed same_status
rolled_back = refl

its_project : find_row project_key first_claimed.project_id recounted.st.projects ≡ some hive
unfolding find_row text_eq claimed
its_project = refl

bound_example :
    (((hive.max_runs ≡ 0) ⊎ (busy first_claimed.project_id recounted.st.runs ≤ hive.max_runs))
      × (c : Claim) × (nothing_claimed ≡ some c))
    ⊎ ((nothing_claimed ≡ none)
        × (start ≡ start)
        × (0 < hive.max_runs)
        × (hive.max_runs < busy first_claimed.project_id recounted.st.runs))
bound_example =
    on_claimed-bound agent first_claimed start recounted start hive nothing_claimed its_project
      rolled_back

abbrev other_bot : Text
other_bot = bytes "z"

finds_none : claim_run process other_bot ai 50 110 start ≡ err not_found
unfolding claim_run claimable same_status find_row text_eq busy
finds_none = refl

none_example : All (λ x. claimable start other_bot x ≡ true → ⊥) start.st.runs
none_example = claim_run-none process other_bot ai 50 110 start start-IsKeyed finds_none
