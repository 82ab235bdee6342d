-- ===== src/Core/Steer.antt =====
-- internal/core/runs.go: Runs that people start and steer; steerTask of internal/core/chat.go.
use buildbee.Base.{
  Bool, true, false, not, ◌&&◌, ◌||◌, Option, none, some, [], ◌∷◌, ◌++◌, first, is_empty,
  if◌then◌else◌,
}
use buildbee.Base.Result.{invalid, conflict, Result, ok, err, ◌and_then◌, deny}
use buildbee.Text.{Text, bytes, text_eq, trim_space, to_lower, check_text, truncate}
use buildbee.Models.Status.{
  RunKind, plan, build, review, merge, pending, terminal, same_status, same_kind, steer, match_word,
  run_kind_word,
}
use buildbee.Models.Members.{valid_agent}
use buildbee.Models.Records.{str, flag, Payload, Member, Task, Run, RunEvent}
use buildbee.Store.{W, pure, fail, with_result, ◌>>=◌, ◌>>◌, refuse, on_nil, attempt}
use buildbee.Store.Runs.{get_run, update_run_prompt, list_runs}
use buildbee.Store.Tables.{get_task, get_member}
use buildbee.Core.Work.{
  Actor, who_of, log_activity, run_event, member, require_member, open_project, is_human,
}
use buildbee.Core.Queue.{create_run}

-- A NewRun's kind: "" means what the Bot's role does; a merge is not for people to queue.
unfoldable pub parse_kind : Text → Result (Option RunKind)
unfolding match_word
parse_kind s =
    if is_empty s then ok none else elim (match_word run_kind_word (plan ∷ build ∷ review ∷ []) s) [
      | none ↦ err invalid
      | some k ↦ ok (some k)
    ]

-- NewRun
pub record NewRun : Type 0 where
  pub bot_member_id : Text
  pub agent : Text
  pub kind : Text

abbrev assigned_bot : Task → W Text
assigned_bot task =
    if is_empty task.assignee_member_id
    then pure []
    else attempt (get_member task.assignee_member_id) >>= λ found.
        pure (elim found [ none ↦ [] | some m ↦ if is_human m then [] else m.id ])

-- CreateRun's Bot: the one that is named, or the Task's assignee if that is a Bot.
unfoldable pub chosen_bot : Task → Text → W (Option Member)
chosen_bot task named = (if is_empty named then assigned_bot task else pure named) >>= λ id.
    if is_empty id
    then pure none
    else attempt (get_member id) >>= λ found. on_nil found (fail invalid) (λ m.
      refuse (not (text_eq m.project_id task.project_id) || is_human m) invalid >> pure (some m))

abbrev is_review : Option RunKind → Bool
is_review none = false
is_review (some k) = same_kind k review

-- CreateRun
unfoldable pub start_run : Actor → Text → NewRun → W Run
start_run a task_id new =
    let agent = to_lower (trim_space new.agent) in
    with_result (
      deny (not (valid_agent agent)) invalid and_then λ _.
      parse_kind (to_lower (trim_space new.kind)))
    >>= λ kind. get_task task_id >>= λ task. open_project task.project_id >>= λ proj.
        member a task.project_id true >>= λ m.
        chosen_bot task (trim_space new.bot_member_id) >>= λ bot.
        refuse (is_review kind && is_empty task.branch) invalid
        >> create_run proj task bot agent kind (who_of m a)

abbrev is_queued : Run → Bool
is_queued r = same_status r.status pending

-- The prompt of a queued Run with a person's message at its end.
abbrev pub prompted : Run → Member → Text → Text
prompted r m msg =
    r.prompt ++ 10 ∷ 10 ∷ bytes "Message from " ++ m.display_name ++ bytes ": " ++ msg ++ 10 ∷ []

abbrev steer_payload : Run → Member → Text → Bool → Payload
steer_payload r m msg interrupt =
    (bytes "text", str msg)
    ∷ (bytes "by", str m.display_name)
    ∷ (bytes "interrupt", flag interrupt)
    ∷ (bytes "queued", flag (is_queued r))
    ∷ []

-- steer
unfoldable pub steer_agent : Run → Member → Actor → Text → Bool → W RunEvent
steer_agent r m a msg interrupt =
    (if is_queued r then update_run_prompt r.id (prompted r m msg) >> pure tt else pure tt)
    >> run_event r.id steer (steer_payload r m msg interrupt)
    >>= λ ev.
        log_activity r.project_id (who_of (some m) a) (bytes "run") (bytes "steered") r.id (
          (bytes "task_id", str r.task_id)
          ∷ (bytes "text", str (truncate msg 300))
          ∷ (bytes "interrupt", flag interrupt)
          ∷ [])
        >> pure ev

-- SteerRun. What requireMember returns is never nil.
unfoldable pub steer_run : Actor → Text → Text → Bool → W RunEvent
steer_run a run_id message interrupt = with_result (check_text message true 8000) >>= λ msg.
    get_run run_id >>= λ r. require_member a r.project_id >>= λ m.
    refuse (terminal r.status) conflict
    >> refuse (same_kind r.kind merge) invalid
    >> on_nil m (fail invalid) (λ p. steer_agent r p a msg interrupt)

abbrev steerable : Run → Bool
steerable r = not (terminal r.status) && not (same_kind r.kind merge)

-- steerTask
unfoldable pub steer_task : Task → Member → Actor → Text → W (Unit {0})
unfolding first
steer_task task author a msg = list_runs task.id >>= λ runs.
    on_nil (first steerable runs) (pure tt) (λ r. steer_agent r author a msg false >> pure tt)
