-- ===== src/Core/Grows/People.antt =====
-- What creating and changing Projects and their Members keeps.
use buildbee.Base.{◌+◌, Option, none, some, List, [], ◌∷◌}
use buildbee.Text.{Text}
use buildbee.Models.Members.{BotSeed}
use buildbee.Models.Records.{Time, Member, MemberKind, human, bot, Payload}
use buildbee.Store.Keeps.{Keeps, Keeps-pure, Keeps-bind, Keeps-new_id, monad_rules}
use buildbee.Store.Keeps.Tables.{read_rules, table_rules}
use buildbee.Store.Keeps.Projects.{project_rules, Keeps-insert_member}
use buildbee.Store.Keeps.Chat.{chat_rules}
use buildbee.Core.Work.{Actor}
use buildbee.Core.Projects.{NewProject, owner_of, add_bots, create_project}
use buildbee.Core.Projects.Settings.{ProjectPatch, edit_project}
use buildbee.Core.Projects.People.{
  check_name, kind_of, NewMember, added_as, add_member, MemberPatch, renamed, instructed,
  with_agent, edit_member,
}
use buildbee.Core.Grows.{work_rules}

Keeps-owner_of : (a : Actor) (p : Text) → Keeps (owner_of a p)
unfolding owner_of
Keeps-owner_of a p = search (monad_rules, read_rules, project_rules) depth 40

Keeps-add_bots : (p agent : Text) (at : Time) (bs : List BotSeed) → Keeps (add_bots p agent at bs)
unfolding add_bots
Keeps-add_bots p agent at [] = Keeps-pure []
Keeps-add_bots p agent at (b ∷ rest) = Keeps-bind _ _ Keeps-new_id (λ id.
    Keeps-bind _ _
      (Keeps-bind _ _ (Keeps-insert_member _) (λ _. Keeps-add_bots p agent (at + 1000) rest))
      (λ ms. Keeps-pure _))

pub Keeps-create_project : (a : Actor) (new : NewProject) → Keeps (create_project a new)
unfolding create_project
Keeps-create_project a new =
    search (monad_rules, project_rules, chat_rules, work_rules, Keeps-owner_of, Keeps-add_bots)
      depth 60

pub Keeps-edit_project :
    (a : Actor) (id : Text) (patch : ProjectPatch) → Keeps (edit_project a id patch)
unfolding edit_project
Keeps-edit_project a id patch = search (monad_rules, read_rules, project_rules, work_rules) depth 60

Keeps-check_name : (s : Text) → Keeps (check_name s)
unfolding check_name
Keeps-check_name s = search monad_rules depth 30

Keeps-kind_of : (kind role agent : Text) → Keeps (kind_of kind role agent)
unfolding kind_of
Keeps-kind_of kind role agent = search monad_rules depth 30

Keeps-added_as :
    (p : Text) (k : MemberKind) (name role i agent : Text) → Keeps (added_as p k name role i agent)
unfolding added_as
Keeps-added_as p bot name role i agent = search (monad_rules, project_rules) depth 40
Keeps-added_as p human name role i agent =
    search (monad_rules, project_rules, table_rules, read_rules) depth 40

pub Keeps-add_member : (a : Actor) (p : Text) (new : NewMember) → Keeps (add_member a p new)
unfolding add_member
Keeps-add_member a p new =
    search (monad_rules, work_rules, Keeps-check_name, Keeps-kind_of, Keeps-added_as) depth 60

Keeps-renamed : (o : Option Text) (c : Member × Payload) → Keeps (renamed o c)
unfolding renamed
Keeps-renamed none c = Keeps-pure c
Keeps-renamed (some s) c = search (monad_rules, Keeps-check_name) depth 30

Keeps-instructed : (o : Option Text) (c : Member × Payload) → Keeps (instructed o c)
unfolding instructed
Keeps-instructed none c = Keeps-pure c
Keeps-instructed (some s) c = search monad_rules depth 30

Keeps-with_agent : (o : Option Text) (c : Member × Payload) → Keeps (with_agent o c)
unfolding with_agent
Keeps-with_agent none c = Keeps-pure c
Keeps-with_agent (some s) c = search monad_rules depth 30

pub Keeps-edit_member :
    (a : Actor) (id : Text) (patch : MemberPatch) → Keeps (edit_member a id patch)
unfolding edit_member
Keeps-edit_member a id patch =
    search
      (
        monad_rules, read_rules, project_rules, work_rules, Keeps-renamed, Keeps-instructed,
        Keeps-with_agent,
      )
      depth 60
