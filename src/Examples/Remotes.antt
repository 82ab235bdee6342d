-- ===== src/Examples/Remotes.antt =====
-- Addresses, image references and a Project's settings at concrete inputs.
use buildbee.Base.{◌≡◌, refl, true, false, not, ◌&&◌, none, some, arith, exists}
use buildbee.Base.Result.{Result, ok, err, ◌and_then◌}
use buildbee.Text.{
  bytes, has_prefix, text_eq, trim_space, to_lower, check_text, rune_count, drop_spaces,
  space_width, space_width_back,
}
use buildbee.Models.Members.{is_nil}
use buildbee.Models.Records.{Project}
use buildbee.Store.{Work, pure, found, with_result, gets, changes_work, refuse, ◌>>=◌}
use buildbee.Store.Rows.{find_row, update_row}
use buildbee.Store.Runs.{project_key}
use buildbee.Store.Keeps.{returned}
use buildbee.Store.Tables.{get_project, update_project, insert_activity}
use buildbee.Core.Work.{Actor, system, is_direct, member, who_of, log_activity, emit}
use buildbee.Core.Projects.Settings.{pos, ProjectPatch, stays_archived, patched, edit_project}
use buildbee.Core.Projects.Settings.Kept.{IsSafe, edit_project-IsSafe}
use buildbee.Examples.Sample.{hive, start}
use buildbee.Text.Sanitize.{contains}
use buildbee.Text.Regex.{matches, after_byte, nullable}
use buildbee.Text.Urls.{
  valid_repo_url, unsafe_for_git, by_prefix, scp_repo, image_ref, image_rest, in_set, name_rest,
}

scp_accepted : valid_repo_url (bytes "git@host:a/b") ≡ true
unfolding valid_repo_url unsafe_for_git by_prefix scp_repo in_set exists has_prefix contains matches
    after_byte nullable
scp_accepted = refl

helper_refused : valid_repo_url (bytes "ext::sh -c id") ≡ false
unfolding valid_repo_url unsafe_for_git in_set exists has_prefix contains
helper_refused = refl

image_accepted : matches image_ref (bytes "ghcr.io/a/b:1.2") ≡ true
unfolding image_rest in_set exists matches after_byte nullable name_rest
image_accepted = refl

option_refused : matches image_ref (bytes "-v") ≡ false
unfolding image_rest in_set exists matches after_byte nullable name_rest
option_refused = refl

abbrev clock : Actor
clock = system (bytes "setup")

abbrev asked_for : ProjectPatch
asked_for = record {
  name = none;
  auto_run = none;
  merge_policy = none;
  max_runs = some (pos 4);
  instructions = none;
  repo_url = some (bytes "/srv/git");
  default_branch = none;
  agent_image = some (bytes "ghcr.io/a");
  agent_permissions = some (bytes "Ask");
  archived = none;
}

abbrev outcome : Result (Project × Work) → Project × Work
outcome (ok r) = r
outcome (err e) = (hive, start)

abbrev changed : Project × Work
changed = outcome (edit_project clock (bytes "p") asked_for start)

edit_returns : edit_project clock (bytes "p") asked_for start ≡ returned changed.0 changed.1
unfolding edit_project ◌>>=◌ get_project found find_row text_eq refuse member pure with_result
    patched ◌and_then◌ check_text trim_space drop_spaces space_width space_width_back rune_count
    valid_repo_url unsafe_for_git in_set exists has_prefix contains by_prefix matches image_rest
    name_rest after_byte nullable to_lower gets update_project update_row changes_work log_activity
    insert_activity emit who_of
edit_returns = refl

hive_stored : find_row project_key (bytes "p") start.st.projects ≡ some hive
unfolding find_row text_eq
hive_stored = refl

hive-IsSafe : IsSafe hive
unfolding has_prefix contains text_eq
hive-IsSafe = (omega arith, refl, refl, refl, refl)

edit_project_example :
    (is_direct hive.kind ≡ false)
    × ((not (is_nil hive.archived_at) && stays_archived asked_for.archived) ≡ false)
    × IsSafe changed.0
edit_project_example =
    edit_project-IsSafe clock (bytes "p") asked_for hive changed.0 start changed.1 hive_stored
      hive-IsSafe edit_returns
