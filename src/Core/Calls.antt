-- ===== src/Core/Calls.antt =====
-- What agents, people and the clock ask of the server: the methods of core.Service that change the
-- database, each a transaction, with what they return left out.
use buildbee.Base.{ℕ, Bool, List, []}
use buildbee.Text.{Text}
use buildbee.Models.Records.{Routine}
use buildbee.Store.{W, pure, ◌>>◌}
use buildbee.Core.Work.{Actor}
use buildbee.Core.Queue.{claim_once, beat}
use buildbee.Core.Report.{RunReport, report_run, decide}
use buildbee.Core.Tasks.{NewTask, open_new_task, TaskPatch, edit_task}
use buildbee.Core.Tasks.Handoffs.{NewHandoff, create_handoff, finish_handoff}
use buildbee.Core.Ask.{Question, create_decision, PermissionAsk, ask_permission}
use buildbee.Core.Steer.{NewRun, start_run, steer_run}
use buildbee.Core.Chat.{send, send_reply}
use buildbee.Core.Chat.Changes.{change_message, remove_message, remove_dm}
use buildbee.Core.Ci.{NewPipeline, record_pipeline, change_pipeline}
use buildbee.Core.Members.{
  join_project, leave, take_out, create_channel, ChannelPatch, edit_channel,
}
use buildbee.Core.Projects.{NewProject, create_project}
use buildbee.Core.Projects.Settings.{ProjectPatch, edit_project}
use buildbee.Core.Projects.People.{NewMember, add_member, MemberPatch, edit_member}
use buildbee.Core.Routines.{fire_routine, fire_listed}
use buildbee.Core.Routines.Edit.{NewRoutine, create_routine, RoutinePatch, change_routine}
use buildbee.Core.Routines.Issues.{Issue, sync_issues, issue_webhook}

pub data Call : Type 0 where
  reports : Actor → Text → RunReport → Call
  claims : Actor → Text → Call
  beats : Actor → Text → Call
  decides : Actor → Text → Text → Call
  opens_task : Actor → Text → NewTask → Call
  edits_task : Actor → Text → TaskPatch → Call
  hands_off : Actor → Text → NewHandoff → Call
  completes : Actor → Text → Bool → Call
  asks : Actor → Text → Question → Call
  asks_permission : Actor → Text → PermissionAsk → Call
  starts : Actor → Text → NewRun → Call
  steers : Actor → Text → Text → Bool → Call
  posts : Actor → Text → Text → List Text → Call
  replies : Actor → Text → Text → List Text → Call
  rewrites : Actor → Text → Text → Call
  deletes : Actor → Text → Call
  deletes_dm : Actor → Text → Call
  records_check : Actor → Text → NewPipeline → Call
  updates_check : Actor → Text → Text → Text → Call
  joins : Actor → Text → Call
  leaves : Actor → Text → Call
  removes : Actor → Text → Call
  creates : Actor → NewProject → Call
  edits_project : Actor → Text → ProjectPatch → Call
  adds : Actor → Text → NewMember → Call
  edits_member : Actor → Text → MemberPatch → Call
  adds_channel : Actor → Text → Text → Call
  edits_channel : Actor → Text → ChannelPatch → Call
  syncs : Actor → Text → List Issue → Call
  tells_issue : Text → ℕ → Text → Text → Call
  adds_routine : Actor → Text → NewRoutine → Call
  edits_routine : Actor → Text → RoutinePatch → Call
  fires : Actor → Text → Call
  fires_listed : Routine → Call

-- What a call does.
unfoldable pub call : Call → W (Unit {0})
call (reports a id rep) = report_run a id rep >> pure tt
call (claims a agents) = claim_once a agents >> pure tt
call (beats a id) = beat a id >> pure tt
call (decides a id answer) = decide a id answer >> pure tt
call (opens_task a id new) = open_new_task a id new >> pure tt
call (edits_task a id patch) = edit_task a id patch >> pure tt
call (hands_off a id new) = create_handoff a id new >> pure tt
call (completes a id ask) = finish_handoff a id ask >> pure tt
call (asks a id q) = create_decision a id q >> pure tt
call (asks_permission a id q) = ask_permission a id q >> pure tt
call (starts a id new) = start_run a id new >> pure tt
call (steers a id message interrupt) = steer_run a id message interrupt >> pure tt
call (posts a id body files) = send a id [] body files >> pure tt
call (replies a id body files) = send_reply a id body files >> pure tt
call (rewrites a id body) = change_message a id body >> pure tt
call (deletes a id) = remove_message a id
call (deletes_dm a id) = remove_dm a id
call (records_check a id new) = record_pipeline a id new >> pure tt
call (updates_check a id status url) = change_pipeline a id status url >> pure tt
call (joins a id) = join_project a id >> pure tt
call (leaves a id) = leave a id
call (removes a id) = take_out a id
call (creates a new) = create_project a new >> pure tt
call (edits_project a id patch) = edit_project a id patch >> pure tt
call (adds a id new) = add_member a id new >> pure tt
call (edits_member a id patch) = edit_member a id patch >> pure tt
call (adds_channel a id name) = create_channel a id name >> pure tt
call (edits_channel a id patch) = edit_channel a id patch >> pure tt
call (syncs a id issues) = sync_issues a id issues >> pure tt
call (tells_issue id number title url) = issue_webhook id number title url >> pure tt
call (adds_routine a id new) = create_routine a id new >> pure tt
call (edits_routine a id patch) = change_routine a id patch >> pure tt
call (fires a id) = fire_routine a id >> pure tt
call (fires_listed r) = fire_listed r >> pure tt
