-- ===== src/Core/Projects/Settings.antt =====
-- internal/core/projects.go: UpdateProject.
pub mod Kept
use buildbee.Base.{
  ℕ, Bool, true, false, not, ◌&&◌, ◌||◌, Option, none, some, List, [], ◌∷◌, ◌++◌, is_empty, ltb,
  if◌then◌else◌,
}
use buildbee.Base.Result.{Result, ok, err, invalid, conflict, ◌and_then◌}
use buildbee.Text.{Text, bytes, text_eq, trim_space, to_lower, check_text}
use buildbee.Text.Regex.{matches}
use buildbee.Text.Urls.{valid_repo_url, image_ref}
use buildbee.Models.Members.{is_nil}
use buildbee.Models.Records.{
  Time, Value, str, num, flag, Payload, Project, merge_auto, merge_approval, direct_space,
  ProjectKind, project_kind,
}
use buildbee.Store.{W, pure, with_result, ◌>>=◌, ◌>>◌, refuse}
use buildbee.Store.Tables.{get_project, update_project}
use buildbee.Core.Work.{Actor, who_of, the_time, log_activity, member, is_direct}

-- An int.
pub data ℤ : Type 0 where
  pos negsuc : ℕ → ℤ

-- ProjectPatch
pub record ProjectPatch : Type 0 where
  pub name : Option Text
  pub auto_run : Option Bool
  pub merge_policy : Option Text
  pub max_runs : Option ℤ
  pub instructions : Option Text
  pub repo_url : Option Text
  pub default_branch : Option Text
  pub agent_image : Option Text
  pub agent_permissions : Option Text
  pub archived : Option Bool

-- The Project as changed so far, and what has changed for the log.
abbrev pub Changed : Type 0
Changed = Project × Payload

abbrev with_change : Payload → Text → Value → Payload
with_change c key v = c ++ ((key, v) ∷ [])

abbrev pub set_name : Option Text → Changed → Result Changed
set_name none (p, c) = ok (p, c)
set_name (some s) (p, c) = check_text s true 100 and_then λ n.
    ok (record p { name = n }, with_change c (bytes "name") (str n))

abbrev pub set_auto_run : Option Bool → Changed → Result Changed
set_auto_run none (p, c) = ok (p, c)
set_auto_run (some b) (p, c) =
    ok (record p { auto_run = b }, with_change c (bytes "auto_run") (flag b))

abbrev pub set_merge_policy : Option Text → Changed → Result Changed
set_merge_policy none (p, c) = ok (p, c)
set_merge_policy (some s) (p, c) =
    let mp = to_lower (trim_space s) in
    if text_eq mp (bytes "auto")
    then ok (record p { merge_policy = merge_auto }, with_change c (bytes "merge_policy") (str mp))
    else if text_eq mp (bytes "approval")
    then ok
        (record p { merge_policy = merge_approval }, with_change c (bytes "merge_policy") (str mp))
    else err invalid

abbrev pub set_max_runs : Option ℤ → Changed → Result Changed
set_max_runs none (p, c) = ok (p, c)
set_max_runs (some (negsuc n)) (p, c) = err invalid
set_max_runs (some (pos n)) (p, c) =
    if ltb 1000 n
    then err invalid
    else ok (record p { max_runs = n }, with_change c (bytes "max_runs") (num n))

abbrev pub set_instructions : Option Text → Changed → Result Changed
set_instructions none (p, c) = ok (p, c)
set_instructions (some s) (p, c) = check_text s false 16000 and_then λ i.
    ok (record p { instructions = i }, with_change c (bytes "instructions") (flag true))

abbrev pub set_repo_url : Option Text → Changed → Result Changed
set_repo_url none (p, c) = ok (p, c)
set_repo_url (some s) (p, c) = check_text s false 500 and_then λ u.
    if not (is_empty u) && not (valid_repo_url u)
    then err invalid
    else ok (record p { repo_url = u }, with_change c (bytes "repo_url") (str u))

abbrev pub set_default_branch : Option Text → Changed → Result Changed
set_default_branch none (p, c) = ok (p, c)
set_default_branch (some s) (p, c) = check_text s false 200 and_then λ b.
    ok (record p { default_branch = b }, with_change c (bytes "default_branch") (str b))

abbrev pub set_agent_image : Option Text → Changed → Result Changed
set_agent_image none (p, c) = ok (p, c)
set_agent_image (some s) (p, c) =
    let img = trim_space s in
    if not (is_empty img) && not (matches image_ref img)
    then err invalid
    else ok (record p { agent_image = img }, with_change c (bytes "agent_image") (str img))

abbrev pub set_agent_permissions : Option Text → Changed → Result Changed
set_agent_permissions none (p, c) = ok (p, c)
set_agent_permissions (some s) (p, c) =
    let v = to_lower (trim_space s) in
    if not (text_eq v (bytes "auto")) && not (text_eq v (bytes "ask"))
    then err invalid
    else ok (record p { agent_permissions = v }, with_change c (bytes "agent_permissions") (str v))

-- The changes that UpdateProject makes one after another, up to the first error.
unfoldable pub patched : Project → ProjectPatch → Result Changed
patched p patch =
    set_name patch.name (p, [])
    and_then set_auto_run patch.auto_run
    and_then set_merge_policy patch.merge_policy
    and_then set_max_runs patch.max_runs
    and_then set_instructions patch.instructions
    and_then set_repo_url patch.repo_url
    and_then set_default_branch patch.default_branch
    and_then set_agent_image patch.agent_image
    and_then set_agent_permissions patch.agent_permissions

-- The Project archived or not, and what that is called in the log.
abbrev pub archived_as : Time → Project → Option Bool → Project × Text
archived_as now p none = (p, bytes "updated")
archived_as now p (some b) =
    if b && is_nil p.archived_at
    then (record p { archived_at = some now }, bytes "archived")
    else if not b && not (is_nil p.archived_at)
    then (record p { archived_at = none }, bytes "unarchived")
    else (p, bytes "updated")

-- Does the patch leave the Project archived, or archive it?
abbrev pub stays_archived : Option Bool → Bool
stays_archived none = true
stays_archived (some b) = b

-- UpdateProject
unfoldable pub edit_project : Actor → Text → ProjectPatch → W Project
edit_project a id patch = get_project id >>= λ p.
    refuse (is_direct p.kind) conflict
    >> refuse (not (is_nil p.archived_at) && stays_archived patch.archived) conflict
    >> member a id true
    >>= λ m. with_result (patched p patch) >>= λ changed. the_time >>= λ now.
        let new = archived_as now changed.0 patch.archived in
        update_project new.0
        >> log_activity id (who_of m a) (bytes "project") new.1 id changed.1
        >> pure new.0
