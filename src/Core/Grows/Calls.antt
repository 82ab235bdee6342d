-- ===== src/Core/Grows/Calls.antt =====
-- What every call keeps.
use buildbee.Base.{◌≡◌, ap, ◌∙◌, []}
use buildbee.Base.Result.{ok, ok_inj}
use buildbee.Store.{Work, W, pure, ◌>>◌}
use buildbee.Store.Rows.Keyed.{IsKeyed}
use buildbee.Store.Runs.{run_key}
use buildbee.Store.Grows.{Grows}
use buildbee.Store.Keeps.{Keeps, Keeps-bind, Keeps-pure, returned, bind_ok}
use buildbee.Core.Calls.{
  Call, call, reports, claims, beats, decides, opens_task, edits_task, hands_off, completes, asks,
  asks_permission, starts, steers, posts, replies, rewrites, deletes, deletes_dm, records_check,
  updates_check, joins, leaves, removes, creates, edits_project, adds, edits_member, adds_channel,
  edits_channel, syncs, tells_issue, adds_routine, edits_routine, fires, fires_listed,
}
use buildbee.Core.Queue.{claim_once}
use buildbee.Core.Report.{report_run}
use buildbee.Core.Grows.Reports.{report_run-Grows, claim_once-Grows, Keeps-beat, Keeps-decide}
use buildbee.Core.Grows.Tasks.{
  Keeps-open_new_task, Keeps-edit_task, Keeps-create_handoff, Keeps-finish_handoff,
  Keeps-create_decision, Keeps-ask_permission, Keeps-start_run, Keeps-steer_run,
}
use buildbee.Core.Grows.Chat.{
  Keeps-send, Keeps-send_reply, Keeps-change_message, Keeps-remove_message, Keeps-remove_dm,
}
use buildbee.Core.Grows.Projects.{
  Keeps-record_pipeline, Keeps-change_pipeline, Keeps-join_project, Keeps-leave, Keeps-take_out,
  Keeps-create_channel, Keeps-edit_channel, Keeps-sync_issues, Keeps-issue_webhook,
}
use buildbee.Core.Grows.People.{
  Keeps-create_project, Keeps-edit_project, Keeps-add_member, Keeps-edit_member,
}
use buildbee.Core.Grows.Routines.{
  Keeps-create_routine, Keeps-change_routine, Keeps-fire_routine, Keeps-fire_listed,
}

-- An operation whose result is left out.
quietly :
    {A : Type 0} (m : W A) (w w' : Work) (u : Unit {0})
    → ((a : A) → m w ≡ returned a w' → Grows w w')
    → (m >> pure tt) w ≡ returned u w'
    → Grows w w'
unfolding pure
quietly m w w' u g h =
    let (x, hx, h1) = bind_ok _ _ w w' u h in g x.0 (hx ∙ ap (λ q. ok (x.0, q.1)) (ok_inj h1))

-- On Runs with distinct ids, the database has grown after the operation.
abbrev pub IsSafe : W (Unit {0}) → Type 0
IsSafe m =
    (w w' : Work) (u : Unit {0}) → IsKeyed run_key w.st.runs → m w ≡ returned u w' → Grows w w'

safe : (m : W (Unit {0})) → Keeps m → IsSafe m
safe m km w w' u k h = km.at w w' u h

without_result : {A : Type 0} (m : W A) → Keeps m → IsSafe (m >> pure tt)
without_result m km = safe _ (Keeps-bind m _ km (λ _. Keeps-pure tt))

pub call-Grows : (c : Call) → IsSafe (call c)
unfolding call
call-Grows (reports a id rep) =
    λ w w' u k h. quietly (report_run a id rep) w w' u (report_run-Grows a id rep w w') h
call-Grows (claims a agents) =
    λ w w' u k h. quietly (claim_once a agents) w w' u (λ c. claim_once-Grows a agents w w' c k) h
call-Grows (beats a id) = without_result _ (Keeps-beat a id)
call-Grows (decides a id answer) = without_result _ (Keeps-decide a id answer)
call-Grows (opens_task a id new) = without_result _ (Keeps-open_new_task a id new)
call-Grows (edits_task a id patch) = without_result _ (Keeps-edit_task a id patch)
call-Grows (hands_off a id new) = without_result _ (Keeps-create_handoff a id new)
call-Grows (completes a id ask) = without_result _ (Keeps-finish_handoff a id ask)
call-Grows (asks a id q) = without_result _ (Keeps-create_decision a id q)
call-Grows (asks_permission a id q) = without_result _ (Keeps-ask_permission a id q)
call-Grows (starts a id new) = without_result _ (Keeps-start_run a id new)
call-Grows (steers a id message interrupt) =
    without_result _ (Keeps-steer_run a id message interrupt)
call-Grows (posts a id body files) = without_result _ (Keeps-send a id [] body files)
call-Grows (replies a id body files) = without_result _ (Keeps-send_reply a id body files)
call-Grows (rewrites a id body) = without_result _ (Keeps-change_message a id body)
call-Grows (deletes a id) = safe _ (Keeps-remove_message a id)
call-Grows (deletes_dm a id) = safe _ (Keeps-remove_dm a id)
call-Grows (records_check a id new) = without_result _ (Keeps-record_pipeline a id new)
call-Grows (updates_check a id status url) =
    without_result _ (Keeps-change_pipeline a id status url)
call-Grows (joins a id) = without_result _ (Keeps-join_project a id)
call-Grows (leaves a id) = safe _ (Keeps-leave a id)
call-Grows (removes a id) = safe _ (Keeps-take_out a id)
call-Grows (creates a new) = without_result _ (Keeps-create_project a new)
call-Grows (edits_project a id patch) = without_result _ (Keeps-edit_project a id patch)
call-Grows (adds a id new) = without_result _ (Keeps-add_member a id new)
call-Grows (edits_member a id patch) = without_result _ (Keeps-edit_member a id patch)
call-Grows (adds_channel a id name) = without_result _ (Keeps-create_channel a id name)
call-Grows (edits_channel a id patch) = without_result _ (Keeps-edit_channel a id patch)
call-Grows (syncs a id issues) = without_result _ (Keeps-sync_issues a id issues)
call-Grows (tells_issue id number title url) =
    without_result _ (Keeps-issue_webhook id number title url)
call-Grows (adds_routine a id new) = without_result _ (Keeps-create_routine a id new)
call-Grows (edits_routine a id patch) = without_result _ (Keeps-change_routine a id patch)
call-Grows (fires a id) = without_result _ (Keeps-fire_routine a id)
call-Grows (fires_listed r) = without_result _ (Keeps-fire_listed r)
