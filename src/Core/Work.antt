-- ===== src/Core/Work.antt =====
-- internal/core/core.go and inbox.go: who acts, what an operation writes to the Project's log and to
-- people's inboxes, and the checks that every operation on a Project makes first.
use buildbee.Base.{
  ℕ, Bool, true, false, not, ◌&&◌, ◌||◌, Option, none, some, [], ◌∷◌, ◌++◌, is_empty, if◌then◌else◌,
}
use buildbee.Base.Result.{not_found, conflict, no_actor}
use buildbee.Text.{Text, bytes, text_eq, truncate}
use buildbee.Event.{EventData, run_event_data, activity_data, notification_data}
use buildbee.Models.Status.{EventKind}
use buildbee.Models.Members.{is_nil}
use buildbee.Models.Records.{
  Time, str, Payload, Project, Preferences, Member, RunEvent, human, bot, direct_space,
  project_kind, MemberKind, ProjectKind,
}
use buildbee.Store.{
  W, pure, fail, gets, changes_work, new_id, ◌>>=◌, ◌>>◌, refuse, on_nil, or_none, each,
}
use buildbee.Store.Runs.{append_run_event}
use buildbee.Store.Tables.{
  get_project, get_person, get_preferences, member_for_person, list_members, join_person,
  insert_activity, insert_notification,
}

-- Actor
pub record Actor : Type 0 where
  pub person_id : Text
  pub agent : Text
  pub bot_id : Text
  pub name : Text

-- System
abbrev pub system : Text → Actor
system name = record { person_id = []; agent = []; bot_id = []; name = name }

-- AgentActor
abbrev pub agent_actor : Text → Text → Actor
agent_actor process bot_id = record {
  person_id = [];
  agent = process;
  bot_id = bot_id;
  name = bytes "agent " ++ process;
}

-- IsPerson
abbrev pub is_person : Actor → Bool
is_person a = not (is_empty a.person_id)

-- who
pub record Who : Type 0 where
  pub member_id : Text
  pub name : Text

abbrev pub named : Text → Who
named name = record { member_id = []; name = name }

-- whoOf
unfoldable pub who_of : Option Member → Actor → Who
who_of (some m) a = record { member_id = m.id; name = m.display_name }
who_of none a = if is_empty a.name then named (bytes "system") else named a.name

-- emit
unfoldable pub emit : Text → ℕ → Text → EventData → W (Unit {0})
emit topic cursor type body = changes_work (λ w. record w {
  events = record { topic = topic; cursor = cursor; type = type; body = body } ∷ w.events;
})

abbrev pub the_time : W Time
the_time = gets (λ w. w.now)

-- activity
unfoldable pub log_activity : Text → Who → Text → Text → Text → Payload → W (Unit {0})
log_activity project_id by type action subject_id payload = the_time >>= λ now.
    insert_activity (record {
      seq = 0;
      project_id = project_id;
      actor_member_id = by.member_id;
      actor = by.name;
      type = type;
      action = action;
      subject_id = subject_id;
      payload = payload;
      created_at = now;
    })
    >>= λ a. emit (bytes "project:" ++ project_id) a.seq (bytes "activity") (activity_data a)

-- runEvent
unfoldable pub run_event : Text → EventKind → Payload → W RunEvent
run_event run_id kind payload = the_time >>= λ now.
    append_run_event run_id kind payload now >>= λ ev.
    emit (bytes "run:" ++ run_id) ev.seq (bytes "run_event") (run_event_data ev) >> pure ev

abbrev pub member_kind_word : MemberKind → Text
member_kind_word human = bytes "human"
member_kind_word bot = bytes "bot"

-- The end of `member`: the Person joins the Project.
unfoldable pub join : Actor → Text → W (Option Member)
join a project_id = get_person a.person_id >>= λ p. new_id >>= λ id. the_time >>= λ now.
    join_person (record {
      id = id;
      project_id = project_id;
      person_id = p.id;
      kind = human;
      display_name = p.name;
      role = bytes "member";
      instructions = [];
      agent = [];
      left_at = none;
      created_at = now;
    })
    >>= λ r.
        (if r.1
          then log_activity project_id (who_of (some r.0) a) (bytes "member") (bytes "joined")
              r.0.id
              ((bytes "kind", str (member_kind_word r.0.kind))
                ∷ (bytes "role", str r.0.role)
                ∷ (bytes "name", str r.0.display_name)
                ∷ [])
          else pure tt)
        >> pure (some r.0)

-- member
unfoldable pub member : Actor → Text → Bool → W (Option Member)
member a project_id joins =
    if not (is_person a)
    then pure none
    else or_none (member_for_person project_id a.person_id) >>= λ found_member.
        on_nil found_member (if joins then join a project_id else fail not_found)
          (λ m. if is_nil m.left_at || not joins then pure (some m) else join a project_id)

-- requireMember
unfoldable pub require_member : Actor → Text → W (Option Member)
require_member a project_id = if not (is_person a) then fail no_actor else member a project_id true

-- openSpace
unfoldable pub open_space : Text → W Project
open_space id = get_project id >>= λ p. refuse (not (is_nil p.archived_at)) conflict >> pure p

abbrev pub is_direct : ProjectKind → Bool
is_direct direct_space = true
is_direct project_kind = false

-- openProject
unfoldable pub open_project : Text → W Project
open_project id = open_space id >>= λ p. refuse (is_direct p.kind) conflict >> pure p

-- notice
pub record Notice : Type 0 where
  pub project_id : Text
  pub kind : Text
  pub title : Text
  pub body : Text
  pub href : Text

abbrev pub is_muted : Preferences → Text → Bool
is_muted prefs kind =
    (text_eq kind (bytes "mention") && prefs.mute_mentions)
    || (text_eq kind (bytes "routine") && prefs.mute_routines)

-- notifyPerson
unfoldable pub notify_person : Text → Notice → W (Unit {0})
notify_person person_id n =
    if is_empty person_id
    then pure tt
    else get_preferences person_id >>= λ prefs.
        if is_muted prefs n.kind
        then pure tt
        else new_id >>= λ id. the_time >>= λ now.
            insert_notification (record {
              id = id;
              seq = 0;
              person_id = person_id;
              project_id = n.project_id;
              kind = n.kind;
              title = truncate n.title 300;
              body = truncate n.body 2000;
              href = n.href;
              created_at = now;
            })
            >>= λ saved.
                emit (bytes "person:" ++ person_id) saved.seq (bytes "notification")
                  (notification_data saved)

abbrev pub is_human : Member → Bool
is_human m = elim m.kind [ human ↦ true | bot ↦ false ]

-- notifyMember
unfoldable pub notify_member : Member → Notice → W (Unit {0})
notify_member m n = if is_human m then notify_person m.person_id n else pure tt

abbrev excepted : Option Member → Member → Bool
excepted none m = false
excepted (some e) m = text_eq m.id e.id

-- notifyPeople
unfoldable pub notify_people : Text → Option Member → Notice → W (Unit {0})
notify_people project_id except n = list_members project_id >>= λ members.
    each
      (λ m. if not (is_human m) || excepted except m then pure tt else notify_person m.person_id n)
      members

-- href
abbrev pub task_href : Text → Text → Text
task_href project_id task_id = bytes "#/projects/" ++ project_id ++ bytes "/tasks/" ++ task_id
