-- ===== src/Store/Tables/Decisions.antt =====
-- internal/store/tasks.go: Decisions, and the answers remembered from them.
use buildbee.Base.Result.{conflict, ok}
use buildbee.Base.{not, Bool, ◌&&◌, none, some, List, ◌∷◌, map, keep, first, is_empty}
use buildbee.Store.{◌>>=◌, ◌>>◌, pure, refuse, Db, W, found}
use buildbee.Store.Inserts.{set_st, insert_row, newest}
use buildbee.Base.Sort.{sort_by}
use buildbee.Text.{Text, text_eq}
use buildbee.Models.Records.{Time, Decision, DecisionMemory}
use buildbee.Store.Rows.{find_row, update_row, update_where}

abbrev pub decision_key : Decision → Text
decision_key d = d.id

abbrev pub set_decisions : List Decision → Db → Db
set_decisions ds db = record db { decisions = ds }

-- InsertDecision
unfoldable pub insert_decision : Decision → W (Unit {0})
insert_decision = insert_row decision_key (λ db. db.decisions) set_decisions

-- GetDecision
unfoldable pub get_decision : Text → W Decision
unfolding find_row
get_decision id w = found (find_row decision_key id w.st.decisions) w

-- ListDecisions
unfoldable pub list_decisions : Text → W (List Decision)
unfolding keep sort_by
list_decisions project_id w = ok (
  sort_by (newest (λ d. d.created_at) decision_key)
      (keep (λ d. text_eq d.project_id project_id) w.st.decisions),
  w,
)

-- `answer IS NULL`: the open questions, no stored answer being empty.
abbrev pub unanswered : Decision → Bool
unanswered d = is_empty d.answer

unfoldable pub answered : Text → Text → Time → Decision → Decision
answered answer member_id at d = record d {
  answer = answer;
  answered_by_member_id = member_id;
  answered_at = some at;
}

-- AnswerDecision
unfoldable pub answer_decision : Text → Text → Text → Time → W Decision
unfolding update_row
answer_decision id answer member_id at = get_decision id >>= λ d.
    refuse (not (unanswered d)) conflict
    >> set_st (λ db.
      set_decisions (update_row decision_key id (answered answer member_id at) db.decisions) db)
    >> pure (answered answer member_id at d)

abbrev pub waits_for : Text → Decision → Bool
waits_for run_id d = text_eq d.run_id run_id && unanswered d

abbrev closed : Text → Time → Decision → Decision
closed answer at d = record d { answer = answer; answered_at = some at }

-- CloseRunDecisions
unfoldable pub close_run_decisions : Text → Text → Time → W (List Decision)
unfolding keep update_where
close_run_decisions run_id answer at w = ok (
  map (closed answer at) (keep (waits_for run_id) w.st.decisions),
  record w {
    st =
        set_decisions
          (update_where decision_key (waits_for run_id) (closed answer at) w.st.decisions) w.st;
  },
)

abbrev pub remembers : Text → Text → DecisionMemory → Bool
remembers project_id fingerprint m =
    text_eq m.project_id project_id && text_eq m.fingerprint fingerprint

-- GetDecisionMemory
unfoldable pub get_decision_memory : Text → Text → W DecisionMemory
unfolding first
get_decision_memory project_id fingerprint w =
    found (first (remembers project_id fingerprint) w.st.memories) w

-- UpsertDecisionMemory
unfoldable pub upsert_decision_memory : DecisionMemory → W (Unit {0})
unfolding first update_where
upsert_decision_memory m = set_st (λ db. record db {
  memories = elim (first (remembers m.project_id m.fingerprint) db.memories) [
    | none ↦ m ∷ db.memories
    | some old ↦
        update_where (λ x. x.decision_id) (remembers m.project_id m.fingerprint) (λ x. m)
          db.memories
  ];
})
