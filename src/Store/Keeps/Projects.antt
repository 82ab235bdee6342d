-- ===== src/Store/Keeps/Projects.antt =====
-- internal/store/projects.go and people.go: what Projects, Members and people keep.
use buildbee.Base.{refl}
use buildbee.Text.{Text}
use buildbee.Models.Records.{Project, Member}
use buildbee.Store.Runs.{project_key, member_key}
use buildbee.Store.Keeps.{Keeps, Keeps-bind, Keeps-pure, Keeps-gets, Keeps-on_nil}
use buildbee.Store.Keeps.Tables.{Keeps-insert_row, Keeps-set_st, read_rules}
use buildbee.Store.Tables.{
  insert_project, update_project, insert_member, update_member, upsert_person,
}

pub Keeps-insert_project : (p : Project) → Keeps (insert_project p)
unfolding insert_project
Keeps-insert_project p = Keeps-insert_row project_key _ _ _ (λ _ _. (refl, refl, refl, refl))

pub Keeps-update_project : (p : Project) → Keeps (update_project p)
unfolding update_project
Keeps-update_project p =
    Keeps-bind _ _ (search read_rules) (λ _. Keeps-set_st _ (λ _. (refl, refl, refl, refl)))

pub Keeps-insert_member : (m : Member) → Keeps (insert_member m)
unfolding insert_member
Keeps-insert_member m = Keeps-insert_row member_key _ _ _ (λ _ _. (refl, refl, refl, refl))

pub Keeps-update_member : (m : Member) → Keeps (update_member m)
unfolding update_member
Keeps-update_member m =
    Keeps-bind _ _ (search read_rules) (λ _. Keeps-set_st _ (λ _. (refl, refl, refl, refl)))

pub Keeps-upsert_person : (id name : Text) → Keeps (upsert_person id name)
unfolding upsert_person
Keeps-upsert_person id name = Keeps-bind _ _ (Keeps-gets _) (λ old.
    Keeps-on_nil old _ _
      (Keeps-bind _ _ (Keeps-insert_row (λ p. p.id) _ _ _ (λ _ _. (refl, refl, refl, refl)))
        (λ _. Keeps-pure _))
      (λ p. Keeps-pure p))

pub ruleset project_rules = (
  Keeps-insert_project, Keeps-update_project, Keeps-insert_member, Keeps-update_member,
  Keeps-upsert_person,
)
