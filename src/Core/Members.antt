-- ===== src/Core/Members.antt =====
-- internal/core/projects.go: people who join and leave, Members who are taken out, and Channels.
pub mod Gone
use buildbee.Base.{
  Bool, true, false, not, ◌&&◌, ◌||◌, Option, none, some, [], ◌∷◌, ◌++◌, ◌==◌, if◌then◌else◌,
}
use buildbee.Base.Result.{Result, ok, no_actor, conflict, ◌and_then◌}
use buildbee.Text.{Text, bytes, trim_space, check_text}
use buildbee.Models.Status.{status, run_status_word}
use buildbee.Models.Members.{is_nil}
use buildbee.Models.Records.{Time, str, Payload, Member, Run, Channel, open_channel}
use buildbee.Store.{W, pure, with_result, new_id, ◌>>=◌, ◌>>◌, refuse, each}
use buildbee.Store.Runs.{stop_bot_runs}
use buildbee.Store.Tables.{
  get_member, member_for_person, leave_project, insert_channel, get_channel, update_channel,
}
use buildbee.Core.Work.{
  Actor, is_person, who_of, the_time, log_activity, run_event, member, require_member, open_project,
  is_human, member_kind_word,
}
use buildbee.Core.Queue.{mark_load}
use buildbee.Core.Decide.{run_ended}

-- Join
unfoldable pub join_project : Actor → Text → W (Option Member)
join_project a project_id = open_project project_id >> require_member a project_id

-- Leave
unfoldable pub leave : Actor → Text → W (Unit {0})
leave a project_id =
    refuse (not (is_person a)) no_actor
    >> open_project project_id
    >> member_for_person project_id a.person_id
    >>= λ m. the_time >>= λ now. leave_project true m.id now >>= λ left.
        if left
        then log_activity project_id (who_of (some m) a) (bytes "member") (bytes "left") m.id
            ((bytes "name", str m.display_name) ∷ [])
        else pure tt

-- The loop over the Runs of a Bot that was taken out.
unfoldable pub run_stopped : Actor → Run → W (Unit {0})
run_stopped a r =
    run_event r.id status
      ((bytes "status", str (run_status_word r.status)) ∷ (bytes "detail", str r.detail) ∷ [])
    >> run_ended a r
    >> mark_load

-- RemoveMember, once the Member is gone
unfoldable pub after_removal : Actor → Option Member → Member → W (Unit {0})
after_removal a by m = the_time >>= λ now.
    (if is_human m
      then pure tt
      else stop_bot_runs m.id (m.display_name ++ bytes " was removed") now >>= λ runs.
          each (run_stopped a) runs)
    >> log_activity m.project_id (who_of by a) (bytes "member") (bytes "removed") m.id (
        (bytes "kind", str (member_kind_word m.kind))
        ∷ (bytes "role", str m.role)
        ∷ (bytes "name", str m.display_name)
        ∷ [])

-- RemoveMember
unfoldable pub take_out : Actor → Text → W (Unit {0})
take_out a id = get_member id >>= λ m.
    open_project m.project_id >> member a m.project_id true >>= λ by. the_time >>= λ now.
    leave_project false m.id now >>= λ gone. if gone then after_removal a by m else pure tt

-- strings.TrimPrefix(s, "#")
abbrev without_hash : Text → Text
without_hash [] = []
without_hash (c ∷ s) = if c == b'#' then s else c ∷ s

unfoldable pub channel_name : Text → Result Text
channel_name s = check_text (without_hash (trim_space s)) true 80

-- CreateChannel
unfoldable pub create_channel : Actor → Text → Text → W Channel
create_channel a project_id name = with_result (channel_name name) >>= λ n.
    open_project project_id >> member a project_id true >>= λ m. new_id >>= λ id.
    the_time >>= λ now.
    let ch : Channel = record {
      id = id;
      project_id = project_id;
      name = n;
      kind = open_channel;
      locked = false;
      members = [];
      archived_at = none;
      created_at = now;
    } in
    insert_channel ch
    >> log_activity project_id (who_of m a) (bytes "channel") (bytes "created") ch.id
        ((bytes "name", str n) ∷ [])
    >> pure ch

-- ChannelPatch
pub record ChannelPatch : Type 0 where
  pub name : Option Text
  pub archived : Option Bool

abbrev renamed : Channel → Option Text → Result (Channel × Payload)
renamed ch none = ok (ch, [])
renamed ch (some s) =
    channel_name s and_then λ n. ok (record ch { name = n }, (bytes "name", str n) ∷ [])

-- The Channel archived or not, and what that is called in the log.
abbrev archived_as : Time → Channel → Option Bool → Channel × Text
archived_as now ch none = (ch, bytes "updated")
archived_as now ch (some b) =
    if b && is_nil ch.archived_at
    then (record ch { archived_at = some now }, bytes "archived")
    else if not b && not (is_nil ch.archived_at)
    then (record ch { archived_at = none }, bytes "unarchived")
    else (ch, bytes "updated")

-- UpdateChannel
unfoldable pub edit_channel : Actor → Text → ChannelPatch → W Channel
edit_channel a id patch = get_channel id >>= λ ch.
    open_project ch.project_id >> member a ch.project_id true >>= λ m.
    refuse (ch.locked && (not (is_nil patch.name) || not (is_nil patch.archived))) conflict
    >> with_result (renamed ch patch.name)
    >>= λ p. the_time >>= λ now.
        let new = archived_as now p.0 patch.archived in
        update_channel new.0
        >> log_activity ch.project_id (who_of m a) (bytes "channel") new.1 ch.id p.1
        >> pure new.0
