-- ===== src/Store/Keeps/Tables.antt =====
-- What the operations on the other tables keep.
pub mod Reads
use buildbee.Base.{ℕ, suc, ◌-◌, ◌≡◌, refl, sym, ap, subst, List, [], ◌∷◌, arith}
use buildbee.Base.Result.{conflict, ok_inj}
use buildbee.Text.{Text}
use buildbee.Models.Records.{
  Time, Member, Task, Handoff, Decision, DecisionMemory, Activity, Notification, Message,
}
use buildbee.Store.{Work, Db}
use buildbee.Store.Rows.{find_row}
use buildbee.Store.Rows.Keyed.{IsKeyed}
use buildbee.Store.Runs.{run_key, member_key, is_some}
use buildbee.Store.Inserts.{set_st, insert_row}
use buildbee.Store.Tables.{
  get_project, get_member, member_for_person, list_members, join_person, get_person,
  get_preferences, get_task, update_task, insert_handoff, get_handoff, list_handoffs,
  complete_handoff, insert_decision, get_decision, list_decisions, answer_decision,
  close_run_decisions, get_decision_memory, upsert_decision_memory, insert_activity,
  insert_notification, insert_message, get_message, list_replies, list_pipelines, handoff_key,
  decision_key, message_key, now_in, count_reply,
}
use buildbee.Store.Grows.{RoutinesFollow-refl, Grows, IsNumbered, RunsFollow, RunsFollow-refl}
use buildbee.Store.Keeps.{
  Keeps, returned, same_state, found-same, Keeps-changes, Keeps-bind, Keeps-pure, Keeps-refuse,
  Keeps-gets, Keeps-if, Keeps-on_nil,
}
use buildbee.Store.Keeps.Runs.{passed}
use buildbee.Store.Keeps.Tables.Reads.{
  Quiet, Quiet-Grows, Quiet-at, Keeps-get_project, Keeps-get_member, Keeps-member_for_person,
  Keeps-list_members, Keeps-get_person, Keeps-get_preferences, Keeps-get_task, Keeps-get_handoff,
  Keeps-list_handoffs, Keeps-get_decision, Keeps-list_decisions, Keeps-get_decision_memory,
  Keeps-get_message, Keeps-list_replies, Keeps-list_pipelines,
}

pub ruleset read_rules = (
  Keeps-get_project, Keeps-get_member, Keeps-member_for_person, Keeps-list_members,
  Keeps-get_person, Keeps-get_preferences, Keeps-get_task, Keeps-get_handoff, Keeps-list_handoffs,
  Keeps-get_decision, Keeps-list_decisions, Keeps-get_decision_memory, Keeps-get_message,
  Keeps-list_replies, Keeps-list_pipelines,
)

pub Keeps-insert_row :
    {A : Type 0} (key : A → Text) (table : Db → List A) (set : List A → Db → Db) (a : A)
    → ((rows : List A) (db : Db) → Quiet db (set rows db))
    → Keeps (insert_row key table set a)
unfolding insert_row
Keeps-insert_row key table set a q = record {
  at = λ w w' u h.
      let (_, h1) = passed (is_some (find_row key (key a) (table w.st))) conflict _ _ h in
      Quiet-at w w' _ tt u (q (a ∷ table w.st) w.st) h1;
}

pub Keeps-set_st : (f : Db → Db) → ((db : Db) → Quiet db (f db)) → Keeps (set_st f)
Keeps-set_st f q = Keeps-changes _ (λ w. Quiet-Grows w (f w.st) (q w.st))

pub Keeps-insert_handoff : (h : Handoff) → Keeps (insert_handoff h)
unfolding insert_handoff
Keeps-insert_handoff h = Keeps-insert_row handoff_key _ _ _ (λ _ _. (refl, refl, refl, refl))

pub Keeps-insert_decision : (d : Decision) → Keeps (insert_decision d)
unfolding insert_decision
Keeps-insert_decision d = Keeps-insert_row decision_key _ _ d (λ _ _. (refl, refl, refl, refl))

pub Keeps-upsert_decision_memory : (m : DecisionMemory) → Keeps (upsert_decision_memory m)
unfolding upsert_decision_memory
Keeps-upsert_decision_memory m = Keeps-set_st _ (λ _. (refl, refl, refl, refl))

pub Keeps-close_run_decisions :
    (id answer : Text) (at : Time) → Keeps (close_run_decisions id answer at)
unfolding close_run_decisions
Keeps-close_run_decisions id answer at = record {
  at = λ w w' r h. Quiet-at w w' _ _ r (refl, refl, refl, refl) h;
}

pub Keeps-insert_notification : (n : Notification) → Keeps (insert_notification n)
unfolding insert_notification
Keeps-insert_notification n = record {
  at = λ w w' r h. Quiet-at w w' _ _ r (refl, refl, refl, refl) h;
}

pub Keeps-update_task : (t : Task) → Keeps (update_task t)
unfolding update_task
Keeps-update_task t =
    Keeps-bind _ _ (Keeps-get_task t.id) (λ _. Keeps-set_st _ (λ _. (refl, refl, refl, refl)))

pub Keeps-complete_handoff : (id : Text) (at : Time) → Keeps (complete_handoff id at)
unfolding complete_handoff
Keeps-complete_handoff id at = Keeps-bind _ _ (Keeps-get_handoff id) (λ h.
    Keeps-bind _ _
      (Keeps-bind _ _ (Keeps-refuse _ conflict)
        (λ _. Keeps-set_st _ (λ _. (refl, refl, refl, refl))))
      (λ _. Keeps-pure _))

pub Keeps-answer_decision :
    (id answer m : Text) (at : Time) → Keeps (answer_decision id answer m at)
unfolding answer_decision
Keeps-answer_decision id answer m at = Keeps-bind _ _ (Keeps-get_decision id) (λ h.
    Keeps-bind _ _
      (Keeps-bind _ _ (Keeps-refuse _ conflict)
        (λ _. Keeps-set_st _ (λ _. (refl, refl, refl, refl))))
      (λ _. Keeps-pure _))

one_more :
    (n : ℕ) (a : Activity) (rest : List Activity)
    → IsNumbered n rest
    → a.seq ≡ suc n
    → IsNumbered (suc n) (a ∷ rest)
one_more n a rest h e =
    let same : a.seq - 1 ≡ n = omega (arith, e) in
    (omega (arith, e), omega (arith, e), subst (λ k. IsNumbered k rest) (sym same) h)

pub Keeps-insert_activity : (a : Activity) → Keeps (insert_activity a)
unfolding insert_activity
Keeps-insert_activity a = record {
  at = λ w w' r h. subst (Grows w) (ap (λ p. p.1) (ok_inj h)) (record {
    clock = refl;
    log = ((record a { seq = suc w.st.activity_seq }) ∷ [], refl);
    numbers = λ n.
        one_more w.st.activity_seq (record a { seq = suc w.st.activity_seq }) w.st.activity n refl;
    emitted = ([], refl);
    runs = RunsFollow-refl w.st.runs;
    keyed = λ k. k;
    routines = RoutinesFollow-refl w.now w.st.routines;
  });
}

Keeps-count_reply : (id : Text) (at : Time) → Keeps (count_reply id at)
unfolding count_reply
Keeps-count_reply id at =
    Keeps-bind _ _ (Keeps-get_message id) (λ _. Keeps-set_st _ (λ _. (refl, refl, refl, refl)))

pub Keeps-insert_message : (m : Message) → Keeps (insert_message m)
unfolding insert_message
Keeps-insert_message m = Keeps-bind _ _ (Keeps-gets _) (λ seq.
    Keeps-bind _ _
      (Keeps-bind _ _ (Keeps-insert_row message_key _ _ _ (λ _ _. (refl, refl, refl, refl)))
        (λ _. Keeps-if _ _ _ (Keeps-pure tt) (Keeps-count_reply _ _)))
      (λ _. Keeps-pure _))

Keeps-now_in : (m : Member) → Keeps (now_in m)
Keeps-now_in m = Keeps-bind _ _ (Keeps-member_for_person _ _) (λ _. Keeps-pure _)

pub Keeps-join_person : (m : Member) → Keeps (join_person m)
unfolding join_person
Keeps-join_person m = Keeps-bind _ _ (Keeps-gets _) (λ o.
    Keeps-on_nil o _ _
      (Keeps-bind _ _ (Keeps-insert_row member_key _ _ _ (λ _ _. (refl, refl, refl, refl)))
        (λ _. Keeps-now_in m))
      (λ old.
        Keeps-if _ _ _ (Keeps-pure _)
          (Keeps-bind _ _ (Keeps-set_st _ (λ _. (refl, refl, refl, refl))) (λ _. Keeps-now_in m))))

pub ruleset table_rules = (
  Keeps-insert_handoff, Keeps-insert_decision, Keeps-upsert_decision_memory,
  Keeps-close_run_decisions, Keeps-insert_notification, Keeps-update_task, Keeps-complete_handoff,
  Keeps-answer_decision, Keeps-insert_activity, Keeps-insert_message, Keeps-join_person,
)
