-- ===== src/Store/Tables/Projects.antt =====
-- internal/store/projects.go and people.go: Projects, Members, people and their preferences.
use buildbee.Store.{gets, on_nil, ◌>>=◌, ◌>>◌, pure, W, found}
use buildbee.Base.{
  Bool, true, false, not, ◌&&◌, ◌||◌, Option, none, some, List, [], keep, first, if◌then◌else◌,
  is_empty,
}
use buildbee.Base.Result.{ok}
use buildbee.Base.Sort.{sort_by}
use buildbee.Text.{Text, bytes, text_eq}
use buildbee.Models.Members.{is_nil}
use buildbee.Models.Records.{
  Project, Person, Preferences, Member, human, bot, MemberKind, Time, project_kind,
}
use buildbee.Store.Rows.{find_row, update_row, update_where}
use buildbee.Store.Runs.{project_key, member_key}
use buildbee.Store.Inserts.{set_st, insert_row, oldest}

-- GetProject
unfoldable pub get_project : Text → W Project
unfolding find_row
get_project id w = found (find_row project_key id w.st.projects) w

-- GetMember
unfoldable pub get_member : Text → W Member
unfolding find_row
get_member id w = found (find_row member_key id w.st.members) w

abbrev pub in_project : Text → Text → Member → Bool
in_project project_id person_id m = text_eq m.project_id project_id && text_eq m.person_id person_id

-- MemberForPerson
unfoldable pub member_for_person : Text → Text → W Member
unfolding first
member_for_person project_id person_id w =
    found (first (in_project project_id person_id) w.st.members) w

-- ListMembers
unfoldable pub list_members : Text → W (List Member)
unfolding keep sort_by
list_members project_id w = ok (
  sort_by (oldest (λ m. m.created_at) member_key)
      (keep (λ m. text_eq m.project_id project_id) w.st.members),
  w,
)

abbrev as_human : Member → Member
as_human m = record m { kind = human; instructions = []; agent = []; left_at = none }

-- The Person's Member, who has joined or come back.
abbrev pub now_in : Member → W (Member × Bool)
now_in m = member_for_person m.project_id m.person_id >>= λ got. pure (got, true)

-- JoinPerson
unfoldable pub join_person : Member → W (Member × Bool)
unfolding first update_where
join_person m =
    gets (λ w. first (in_project m.project_id m.person_id) w.st.members) >>= λ found_member.
    on_nil found_member
      (insert_row member_key (λ db. db.members) (λ ms db. record db { members = ms }) (as_human m)
        >> now_in m)
      (λ old.
        if is_nil old.left_at
        then pure (old, false)
        else set_st (λ db. record db {
          members =
              update_where member_key (in_project m.project_id m.person_id)
                (λ x. record x { left_at = none }) db.members;
        })
          >> now_in m)

abbrev pub leaving : Time → Member → Member
leaving at m = record m { left_at = some at }

abbrev is_person_kind : MemberKind → Bool
is_person_kind human = true
is_person_kind bot = false

abbrev pub is_here : Bool → Member → Bool
is_here humans m = is_nil m.left_at && (not humans || is_person_kind m.kind)

abbrev here_row : Bool → Option Member → Bool
here_row humans none = false
here_row humans (some m) = is_here humans m

-- LeaveProject, for people only, and RemoveMember: was the Member there?
unfoldable pub leave_project : Bool → Text → Time → W Bool
unfolding find_row update_row
leave_project humans member_id at =
    gets (λ w. here_row humans (find_row member_key member_id w.st.members)) >>= λ b.
    if b
    then set_st
        (λ db. record db { members = update_row member_key member_id (leaving at) db.members })
      >> pure true
    else pure false

-- GetPerson
unfoldable pub get_person : Text → W Person
unfolding find_row
get_person id w = found (find_row (λ p. p.id) id w.st.people) w

abbrev or_default : Text → Option Preferences → Preferences
or_default person_id none = record {
  person_id = person_id;
  mute_mentions = false;
  mute_routines = false;
}
or_default person_id (some p) = p

-- GetPreferences
unfoldable pub get_preferences : Text → W Preferences
unfolding find_row
get_preferences person_id w =
    ok (or_default person_id (find_row (λ p. p.person_id) person_id w.st.preferences), w)

-- InsertProject: the columns that it leaves out have their defaults.
unfoldable pub insert_project : Project → W (Unit {0})
insert_project p =
    insert_row project_key (λ db. db.projects) (λ ps db. record db { projects = ps })
      (record p {
        max_runs = 0;
        agent_image = [];
        agent_permissions = bytes "auto";
        kind = project_kind;
        archived_at = none;
      })

-- orDefault(v, models.PermissionsAuto)
abbrev or_auto : Text → Text
or_auto v = if is_empty v then bytes "auto" else v

-- The columns that UpdateProject writes: all but the kind.
abbrev pub project_columns : Project → Project → Project
project_columns p old = record p {
  id = old.id;
  kind = old.kind;
  agent_permissions = or_auto p.agent_permissions;
}

-- UpdateProject
unfoldable pub update_project : Project → W (Unit {0})
unfolding update_row
update_project p =
    get_project p.id
    >> set_st
        (λ db. record db { projects = update_row project_key p.id (project_columns p) db.projects })

-- InsertMember, of a Bot or of the owner of a new Project, where no other row is the Person's.
unfoldable pub insert_member : Member → W (Unit {0})
insert_member m =
    insert_row member_key (λ db. db.members) (λ ms db. record db { members = ms })
      (record m { left_at = none })

abbrev pub member_columns : Member → Member → Member
member_columns m old = record old {
  display_name = m.display_name;
  role = m.role;
  instructions = m.instructions;
  agent = m.agent;
}

-- UpdateMember
unfoldable pub update_member : Member → W (Unit {0})
unfolding update_row
update_member m =
    get_member m.id
    >> set_st
        (λ db. record db { members = update_row member_key m.id (member_columns m) db.members })

-- UpsertPerson
unfoldable pub upsert_person : Text → Text → W Person
unfolding first
upsert_person id name =
    gets (λ w. first (λ p. text_eq (w.sql_lower p.name) (w.sql_lower name)) w.st.people) >>= λ old.
    on_nil old
      (let p : Person = record { id = id; name = name } in
        insert_row (λ p. p.id) (λ db. db.people) (λ ps db. record db { people = ps }) p >> pure p)
      pure
