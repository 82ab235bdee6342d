-- ===== src/Core/Projects/People.antt =====
-- internal/core/projects.go and core.go: the names of Members, AddMember and UpdateMember.
use buildbee.Base.{
  Bool, true, false, not, ◌||◌, Option, none, some, [], ◌∷◌, ◌++◌, is_empty, if◌then◌else◌,
}
use buildbee.Base.Result.{invalid}
use buildbee.Text.{Text, bytes, text_eq, trim_space, to_lower, check_text, one_of}
use buildbee.Models.Members.{valid_agent, human_role}
use buildbee.Models.Records.{Member, MemberKind, human, bot, Payload, str, flag}
use buildbee.Store.{W, pure, fail, with_result, new_id, gets, ◌>>=◌, ◌>>◌, refuse}
use buildbee.Store.Tables.{insert_member, update_member, get_member, upsert_person, join_person}
use buildbee.Core.Work.{
  Actor, who_of, the_time, log_activity, member, open_project, is_human, member_kind_word,
}

-- name
unfoldable pub check_name : Text → W Text
check_name s = with_result (check_text s true 60) >>= λ t.
    gets (λ w. w.printable t) >>= λ shown. refuse (not shown) invalid >> pure t

-- NewMember
pub record NewMember : Type 0 where
  pub kind : Text
  pub display_name : Text
  pub role : Text
  pub instructions : Text
  pub agent : Text

abbrev or_member : Text → Text
or_member role = if is_empty role then bytes "member" else role

-- The switch on the kind: what is to be added, in which role.
unfoldable pub kind_of : Text → Text → Text → W (MemberKind × Text)
unfolding one_of
kind_of kind role agent =
    if is_empty kind || text_eq kind (bytes "human")
    then refuse (not (one_of (or_member role) (bytes "member" ∷ bytes "admin" ∷ []))) invalid
      >> pure (human, or_member role)
    else if text_eq kind (bytes "bot")
    then refuse (is_empty role) invalid
      >> refuse (human_role role) invalid
      >> refuse (not (valid_agent agent)) invalid
      >> pure (bot, role)
    else fail invalid

-- A Bot is new; a Person has joined unless they were there.
unfoldable pub added_as : Text → MemberKind → Text → Text → Text → Text → W (Member × Bool)
added_as project_id bot name role instructions agent = new_id >>= λ id. the_time >>= λ now.
    let m : Member = record {
      id = id;
      project_id = project_id;
      person_id = [];
      kind = bot;
      display_name = name;
      role = role;
      instructions = instructions;
      agent = agent;
      left_at = none;
      created_at = now;
    } in
    insert_member m >> pure (m, true)
added_as project_id human name role instructions agent = new_id >>= λ new_person.
    upsert_person new_person name >>= λ person. new_id >>= λ id. the_time >>= λ now.
    join_person (record {
      id = id;
      project_id = project_id;
      person_id = person.id;
      kind = human;
      display_name = person.name;
      role = role;
      instructions = [];
      agent = [];
      left_at = none;
      created_at = now;
    })

-- AddMember
unfoldable pub add_member : Actor → Text → NewMember → W Member
add_member a project_id new = check_name new.display_name >>= λ name.
    gets (λ w. w.lower (trim_space new.role)) >>= λ role.
    with_result (check_text new.instructions false 4000) >>= λ instructions.
    let agent = to_lower (trim_space new.agent) in
    kind_of (to_lower (trim_space new.kind)) role agent >>= λ k.
    open_project project_id >> member a project_id true >>= λ actor.
    added_as project_id k.0 name k.1 instructions agent >>= λ out.
    (if out.1
      then log_activity project_id (who_of actor a) (bytes "member") (bytes "added") out.0.id (
          (bytes "kind", str (member_kind_word out.0.kind))
          ∷ (bytes "role", str out.0.role)
          ∷ (bytes "name", str out.0.display_name)
          ∷ [])
      else pure tt)
    >> pure out.0

-- MemberPatch
pub record MemberPatch : Type 0 where
  pub display_name : Option Text
  pub instructions : Option Text
  pub agent : Option Text

abbrev Changed : Type 0
Changed = Member × Payload

unfoldable pub renamed : Option Text → Changed → W Changed
renamed none (m, c) = pure (m, c)
renamed (some s) (m, c) = refuse (is_human m) invalid >> check_name s >>= λ n.
    pure (record m { display_name = n }, c ++ ((bytes "display_name", str n) ∷ []))

unfoldable pub instructed : Option Text → Changed → W Changed
instructed none (m, c) = pure (m, c)
instructed (some s) (m, c) = with_result (check_text s false 4000) >>= λ i.
    pure (record m { instructions = i }, c ++ ((bytes "instructions", flag true) ∷ []))

unfoldable pub with_agent : Option Text → Changed → W Changed
with_agent none (m, c) = pure (m, c)
with_agent (some s) (m, c) =
    let ag = to_lower (trim_space s) in
    refuse (is_human m) invalid
    >> refuse (not (valid_agent ag)) invalid
    >> pure (record m { agent = ag }, c ++ ((bytes "agent", str ag) ∷ []))

-- UpdateMember
unfoldable pub edit_member : Actor → Text → MemberPatch → W Member
edit_member a id patch = get_member id >>= λ m.
    open_project m.project_id >> member a m.project_id true >>= λ actor.
    renamed patch.display_name (m, []) >>= λ one. instructed patch.instructions one >>= λ two.
    with_agent patch.agent two >>= λ done.
    update_member done.0
    >> log_activity m.project_id (who_of actor a) (bytes "member") (bytes "updated") m.id done.1
    >> pure done.0
