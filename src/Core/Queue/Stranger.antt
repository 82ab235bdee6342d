-- ===== src/Core/Queue/Stranger.antt =====
-- `runActor` of internal/core/runs.go, for a Person who is no Member of the Run's Project.
use buildbee.Base.{[], ◌≡◌, true, none, arith, is_empty, first}
use buildbee.Models.Records.{Run}
use buildbee.Store.{Work, fail, found, ◌>>=◌, on_nil, or_none}
use buildbee.Store.Tables.{in_project, member_for_person}
use buildbee.Core.Work.{Actor, is_person, named, member}
use buildbee.Core.Queue.{acting}

-- A Person who acts on a Run of a Project without being its Member is named by the empty name, and
-- by no Member, whatever the Person's own name is.
pub acting-stranger :
    (a : Actor) (r : Run) (w : Work)
    → is_empty a.agent ≡ true
    → is_person a ≡ true
    → first (in_project r.project_id a.person_id) w.st.members ≡ none
    → acting a r w ≡ named []
unfolding acting member or_none member_for_person found ◌>>=◌ on_nil fail
acting-stranger a r w no_agent person stranger = ground (arith, no_agent, person, stranger)
