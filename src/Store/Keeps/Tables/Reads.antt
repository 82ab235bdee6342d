-- ===== src/Store/Keeps/Tables/Reads.antt =====
-- internal/store: reading the other tables.
use buildbee.Base.{ℕ, ◌≡◌, refl, sym, ap, subst, []}
use buildbee.Base.Result.{ok_inj}
use buildbee.Text.{Text}
use buildbee.Store.{Work, Db}
use buildbee.Store.Rows.Keyed.{IsKeyed}
use buildbee.Store.Runs.{run_key}
use buildbee.Store.Tables.{
  get_project, get_member, member_for_person, list_members, get_person, get_preferences, get_task,
  get_handoff, list_handoffs, get_decision, list_decisions, get_decision_memory, get_message,
  list_replies, list_pipelines,
}
use buildbee.Store.Grows.{
  Grows, IsNumbered, RunsFollow, RunsFollow-refl, RoutinesFollow, RoutinesFollow-refl,
}
use buildbee.Store.Keeps.{Keeps, returned, same_state, found-same}

-- Another database with the log and the Runs of the first.
abbrev pub Quiet : Db → Db → Type 0
Quiet db db' =
    (db'.activity ≡ db.activity)
    × (db'.activity_seq ≡ db.activity_seq)
    × (db'.runs ≡ db.runs)
    × (db'.routines ≡ db.routines)

pub Quiet-Grows : (w : Work) (db : Db) → Quiet w.st db → Grows w (record w { st = db })
Quiet-Grows w db q = record {
  clock = refl;
  log = ([], q.0);
  numbers = λ h.
      subst (λ n. IsNumbered n db.activity) (sym q.1)
        (subst (IsNumbered w.st.activity_seq) (sym q.0) h);
  emitted = ([], refl);
  runs = subst (λ rs. RunsFollow w.st.runs rs) (sym q.2) (RunsFollow-refl w.st.runs);
  keyed = λ k. subst (IsKeyed run_key) (sym q.2) k;
  routines =
      subst (λ rs. RoutinesFollow w.now w.st.routines rs) (sym q.3)
        (RoutinesFollow-refl w.now w.st.routines);
}

pub Quiet-at :
    {A : Type 0} (w w' : Work) (db : Db) (a b : A)
    → Quiet w.st db
    → returned a (record w { st = db }) ≡ returned b w'
    → Grows w w'
Quiet-at w w' db a b q h = subst (Grows w) (ap (λ p. p.1) (ok_inj h)) (Quiet-Grows w db q)

pub Keeps-get_project : (id : Text) → Keeps (get_project id)
unfolding get_project
Keeps-get_project id = record { at = λ w w' r h. found-same _ w w' r h }

pub Keeps-get_member : (id : Text) → Keeps (get_member id)
unfolding get_member
Keeps-get_member id = record { at = λ w w' r h. found-same _ w w' r h }

pub Keeps-member_for_person : (p q : Text) → Keeps (member_for_person p q)
unfolding member_for_person
Keeps-member_for_person p q = record { at = λ w w' r h. found-same _ w w' r h }

pub Keeps-list_members : (p : Text) → Keeps (list_members p)
unfolding list_members
Keeps-list_members p = record { at = λ w w' r h. same_state w w' _ r h }

pub Keeps-get_person : (id : Text) → Keeps (get_person id)
unfolding get_person
Keeps-get_person id = record { at = λ w w' r h. found-same _ w w' r h }

pub Keeps-get_preferences : (id : Text) → Keeps (get_preferences id)
unfolding get_preferences
Keeps-get_preferences id = record { at = λ w w' r h. same_state w w' _ r h }

pub Keeps-get_task : (id : Text) → Keeps (get_task id)
unfolding get_task
Keeps-get_task id = record { at = λ w w' r h. found-same _ w w' r h }

pub Keeps-get_handoff : (id : Text) → Keeps (get_handoff id)
unfolding get_handoff
Keeps-get_handoff id = record { at = λ w w' r h. found-same _ w w' r h }

pub Keeps-list_handoffs : (p : Text) → Keeps (list_handoffs p)
unfolding list_handoffs
Keeps-list_handoffs p = record { at = λ w w' r h. same_state w w' _ r h }

pub Keeps-get_decision : (id : Text) → Keeps (get_decision id)
unfolding get_decision
Keeps-get_decision id = record { at = λ w w' r h. found-same _ w w' r h }

pub Keeps-list_decisions : (p : Text) → Keeps (list_decisions p)
unfolding list_decisions
Keeps-list_decisions p = record { at = λ w w' r h. same_state w w' _ r h }

pub Keeps-get_decision_memory : (p f : Text) → Keeps (get_decision_memory p f)
unfolding get_decision_memory
Keeps-get_decision_memory p f = record { at = λ w w' r h. found-same _ w w' r h }

pub Keeps-get_message : (id : Text) → Keeps (get_message id)
unfolding get_message
Keeps-get_message id = record { at = λ w w' r h. found-same _ w w' r h }

pub Keeps-list_replies : (id : Text) (n : ℕ) → Keeps (list_replies id n)
unfolding list_replies
Keeps-list_replies id n = record { at = λ w w' r h. same_state w w' _ r h }

pub Keeps-list_pipelines : (id : Text) → Keeps (list_pipelines id)
unfolding list_pipelines
Keeps-list_pipelines id = record { at = λ w w' r h. same_state w w' _ r h }
