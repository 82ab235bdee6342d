-- ===== src/Core/Projects.antt =====
-- internal/core/projects.go: creating and changing Projects and their Members.
pub mod Settings
pub mod People
use buildbee.Base.{
  ℕ, Bool, true, false, not, ◌&&◌, ◌||◌, ◌*◌, ◌+◌, Option, none, some, List, [], ◌∷◌, ◌++◌, suc,
  is_empty, ltb, if◌then◌else◌, map,
}
use buildbee.Base.Result.{Result, ok, err, invalid, conflict, ◌and_then◌}
use buildbee.Text.{Text, bytes, text_eq, trim_space, to_lower, check_text}
use buildbee.Text.Regex.{matches}
use buildbee.Text.Urls.{valid_repo_url, image_ref}
use buildbee.Models.Members.{is_nil, valid_agent, human_role, BotSeed, default_bots}
use buildbee.Models.Records.{
  Time, Value, str, num, flag, Payload, Project, Member, Channel, MergePolicy, merge_auto,
  merge_approval, project_kind, human, bot, MemberKind, open_channel,
}
use buildbee.Store.{W, pure, fail, with_result, new_id, gets, ◌>>=◌, ◌>>◌, refuse, on_nil}
use buildbee.Store.Tables.{
  get_project, insert_project, update_project, insert_member, update_member, get_member, get_person,
  upsert_person, join_person, insert_channel,
}
use buildbee.Core.Work.{
  Actor, is_person, who_of, the_time, log_activity, member, open_project, is_human, is_direct,
  member_kind_word,
}

-- NewProject
pub record NewProject : Type 0 where
  pub name : Text
  pub auto_run : Bool
  pub default_bots : Bool
  pub agent : Text

-- A new row of the table of Members.
abbrev new_member : Text → Text → Text → MemberKind → Text → Text → Text → Text → Time → Member
new_member id project_id person_id kind name role instructions agent at = record {
  id = id;
  project_id = project_id;
  person_id = person_id;
  kind = kind;
  display_name = name;
  role = role;
  instructions = instructions;
  agent = agent;
  left_at = none;
  created_at = at;
}

-- The owner's Member, if a Person creates the Project.
unfoldable pub owner_of : Actor → Text → W (Option Member)
owner_of a project_id =
    if not (is_person a)
    then pure none
    else get_person a.person_id >>= λ person. new_id >>= λ id. the_time >>= λ now.
        let m = new_member id project_id person.id human person.name (bytes "owner") [] [] now in
        insert_member m >> pure (some m)

-- The loop over DefaultBots: one microsecond apart, so that they stand in this order.
unfoldable pub add_bots : Text → Text → Time → List BotSeed → W (List Member)
add_bots project_id agent at [] = pure []
add_bots project_id agent at (b ∷ rest) = new_id >>= λ id.
    let m = new_member id project_id [] bot b.name b.role b.instructions agent (at + 1000) in
    insert_member m >> add_bots project_id agent (at + 1000) rest >>= λ ms. pure (m ∷ ms)

abbrev tasks_channel : Text → Text → Time → Channel
tasks_channel id project_id at = record {
  id = id;
  project_id = project_id;
  name = bytes "tasks";
  kind = open_channel;
  locked = true;
  members = [];
  archived_at = none;
  created_at = at;
}

abbrev on_list : Option Member → List Member → List Member
on_list none ms = ms
on_list (some m) ms = m ∷ ms

abbrev fresh_project : Text → Text → Bool → Project
fresh_project id name auto_run = record {
  id = id;
  name = name;
  auto_run = auto_run;
  merge_policy = merge_auto;
  max_runs = 0;
  instructions = [];
  repo_url = [];
  default_branch = [];
  agent_image = [];
  agent_permissions = [];
  kind = project_kind;
  archived_at = none;
}

-- CreateProject, which returns the Project with its Members and its Channel.
unfoldable pub create_project : Actor → NewProject → W (Project × List Member × Channel)
create_project a new = with_result (check_text new.name true 100) >>= λ name.
    refuse (not (valid_agent (to_lower (trim_space new.agent)))) invalid >> new_id >>= λ id.
    let p = fresh_project id name new.auto_run in
    insert_project p >> owner_of a id >>= λ owner. the_time >>= λ now.
    (if new.default_bots
      then add_bots id (to_lower (trim_space new.agent)) now default_bots
      else pure [])
    >>= λ bots. new_id >>= λ channel_id.
        let ch = tasks_channel channel_id id now in
        insert_channel ch
        >> log_activity id (who_of owner a) (bytes "project") (bytes "created") id
            ((bytes "name", str name) ∷ (bytes "auto_run", flag new.auto_run) ∷ [])
        >> pure (p, on_list owner bots, ch)
