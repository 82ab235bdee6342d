-- ===== src/Store/Runs.antt =====
-- internal/store/runs.go: the `runs` and `run_events` tables. A Run that is inserted refers to a
-- Task, a Project and, when it has one, a Bot that exist: the foreign keys.
pub mod Claim
use buildbee.Base.{
  ℕ, suc, ◌+◌, Bool, true, false, not, ◌&&◌, ◌||◌, Option, none, some, List, [], ◌∷◌, keep, first,
  map, exists, count_if, take, is_empty, ltb, leb, ◌==◌, if◌then◌else◌,
}
use buildbee.Base.Result.{not_found, conflict, ok, err}
use buildbee.Base.Sort.{sort_by}
use buildbee.Text.{Text, text_eq}
use buildbee.Models.Status.{RunStatus, pending, running, canceled, EventKind, terminal, same_status}
use buildbee.Models.Members.{is_nil}
use buildbee.Models.Records.{Time, Payload, Run, RunEvent, Project, Task, Member, no_verdict}
use buildbee.Store.{
  Work, Db, W, pure, fail, found, gets, changes_work, new_id, ◌>>=◌, ◌>>◌, refuse, on_nil,
}
use buildbee.Store.Rows.{find_row, update_row, update_where}

-- The keys of the tables.
abbrev pub run_key : Run → Text
run_key r = r.id

abbrev pub project_key : Project → Text
project_key p = p.id

abbrev pub task_key : Task → Text
task_key t = t.id

abbrev pub member_key : Member → Text
member_key m = m.id

abbrev pub is_some : {A : Type 0} → Option A → Bool
is_some none = false
is_some (some a) = true

abbrev pub set_runs : (List Run → List Run) → Work → Work
set_runs f w = record w { st = record w.st { runs = f w.st.runs } }

-- `one(UPDATE runs SET ... WHERE id = $1 AND ...)`, returning the row.
unfoldable pub change_run : Text → (Run → Bool) → (Run → Run) → W Run
unfolding find_row update_row
change_run id p f w = elim (find_row run_key id w.st.runs) [
  | none ↦ err not_found
  | some r ↦ if p r then ok (f r, set_runs (update_row run_key id f) w) else err not_found
]

abbrev pub always : Run → Bool
always r = true

abbrev pub missing_reference : Db → Run → Bool
missing_reference db r =
    not (is_some (find_row task_key r.task_id db.tasks))
    || not (is_some (find_row project_key r.project_id db.projects))
    || (not (is_empty r.bot_member_id)
        && not (is_some (find_row member_key r.bot_member_id db.members)))

-- The row of a new Run: the columns that InsertRun does not name take their defaults.
abbrev pub new_row : Run → Run
new_row r = record r {
  summary = [];
  branch = [];
  pr_url = [];
  verdict = no_verdict;
  worker = [];
  lease_until = none;
  attempts = 0;
  next_seq = 0;
  updated_at = r.created_at;
  started_at = none;
  finished_at = none;
}

-- InsertRun
unfoldable pub insert_run : Run → W (Unit {0})
unfolding find_row
insert_run r w =
    if is_some (find_row run_key r.id w.st.runs)
    then err conflict
    else if missing_reference w.st r
    then err not_found
    else ok (tt, set_runs (λ rs. new_row r ∷ rs) w)

-- How many of a Project's Runs are running.
abbrev pub going : Text → Run → Bool
going p x = text_eq x.project_id p && same_status x.status running

unfoldable pub busy : Text → List Run → ℕ
unfolding count_if
busy p rs = count_if (going p) rs

-- `p.archived_at IS NULL AND (p.max_runs = 0 OR busy.n < p.max_runs)`
abbrev project_takes : List Run → Option Project → Bool
project_takes rs none = false
project_takes rs (some p) =
    is_nil p.archived_at && ((p.max_runs == 0) || ltb (busy p.id rs) p.max_runs)

-- The WHERE clause of ClaimRun, and FOR UPDATE SKIP LOCKED.
unfoldable pub claimable : Work → Text → Run → Bool
claimable w bot_id r =
    same_status r.status pending
    && project_takes w.st.runs (find_row project_key r.project_id w.st.projects)
    && (text_eq r.bot_member_id bot_id || is_empty r.bot_member_id)
    && not (w.locked r.id)

-- a <= b on ids, byte by byte.
unfoldable pub text_leb : Text → Text → Bool
text_leb [] ys = true
text_leb (x ∷ xs) [] = false
text_leb (x ∷ xs) (y ∷ ys) = ltb x y || ((x == y) && text_leb xs ys)

-- ORDER BY busy.n, r.created_at, r.id
unfoldable pub claim_le : List Run → Run → Run → Bool
claim_le rs a b =
    let m = busy a.project_id rs in
    let n = busy b.project_id rs in
    ltb m n
    || ((m == n)
        && (ltb a.created_at b.created_at
            || ((a.created_at == b.created_at) && text_leb a.id b.id)))

abbrev pub or_now : Option Time → Time → Option Time
or_now none t = some t
or_now (some s) t = some s

-- The SET clause of ClaimRun.
unfoldable pub claimed : Text → Text → Time → Time → Run → Run
claimed process ai now until r = record r {
  status = running;
  worker = process;
  lease_until = some until;
  attempts = suc r.attempts;
  agent = if is_empty r.agent then ai else r.agent;
  started_at = or_now r.started_at now;
  updated_at = now;
}

abbrev pub head_of : {A : Type 0} → List A → Option A
head_of [] = none
head_of (x ∷ xs) = some x

-- ClaimRun
unfoldable pub claim_run : Text → Text → Text → Time → Time → W Run
unfolding keep sort_by
claim_run process bot_id ai now until w =
    elim (head_of (sort_by (claim_le w.st.runs) (keep (claimable w bot_id) w.st.runs))) [
      | none ↦ err not_found
      | some r ↦ change_run r.id always (claimed process ai now until) w
    ]

-- ProjectLoad
unfoldable pub project_load : Text → W (ℕ × ℕ)
unfolding find_row
project_load id w = elim (find_row project_key id w.st.projects) [
  | none ↦ err not_found
  | some p ↦ ok ((p.max_runs, busy id w.st.runs), w)
]

-- UpdateRunPrompt
unfoldable pub update_run_prompt : Text → Text → W Run
update_run_prompt id prompt =
    change_run id (λ r. same_status r.status pending) (λ r. record r { prompt = prompt })

-- GetRun
unfoldable pub get_run : Text → W Run
unfolding find_row
get_run id w = found (find_row run_key id w.st.runs) w

-- ExtendLease
unfoldable pub extend_lease : Text → Text → Time → W Run
extend_lease id worker until = get_run id >>= λ r.
    refuse (not (text_eq r.worker worker)) conflict
    >> (if same_status r.status running
        then change_run id always (λ x. record x { lease_until = some until })
        else pure r)

abbrev expired_before : Time → Option Time → Bool
expired_before now none = false
expired_before now (some t) = ltb t now

abbrev lease_le : Run → Run → Bool
lease_le a b = elim a.lease_until [
  | none ↦ true
  | some s ↦ elim b.lease_until [ none ↦ true | some t ↦ leb s t ]
]

-- ExpiredRuns' WHERE clause and SKIP LOCKED.
unfoldable pub expired : Work → Time → Run → Bool
expired w now r =
    same_status r.status running && expired_before now r.lease_until && not (w.locked r.id)

-- ExpiredRuns
unfoldable pub expired_runs : Time → ℕ → W (List Run)
unfolding keep sort_by
expired_runs now limit w = ok (take limit (sort_by lease_le (keep (expired w now) w.st.runs)), w)

-- ListRuns: ORDER BY created_at DESC, id
abbrev pub newer : Run → Run → Bool
newer a b = ltb b.created_at a.created_at || ((a.created_at == b.created_at) && text_leb a.id b.id)

unfoldable pub list_runs : Text → W (List Run)
unfolding keep sort_by
list_runs task_id w = ok (sort_by newer (keep (λ r. text_eq r.task_id task_id) w.st.runs), w)

-- StopBotRuns
abbrev pub stoppable : Text → Run → Bool
stoppable bot_id r =
    text_eq r.bot_member_id bot_id && (same_status r.status pending || same_status r.status running)

unfoldable pub stopped : Text → Time → Run → Run
stopped detail at r = record r {
  status = canceled;
  detail = detail;
  finished_at = some at;
  updated_at = at;
  lease_until = none;
}

unfoldable pub stop_bot_runs : Text → Text → Time → W (List Run)
unfolding keep update_where
stop_bot_runs bot_id detail at w = ok (
  map (stopped detail at) (keep (stoppable bot_id) w.st.runs),
  set_runs (update_where run_key (stoppable bot_id) (stopped detail at)) w,
)

-- UpdateRun's columns, taken from `r`.
unfoldable pub run_columns : Run → Run → Run
run_columns r x = record x {
  status = r.status;
  detail = r.detail;
  updated_at = r.updated_at;
  started_at = r.started_at;
  finished_at = r.finished_at;
  lease_until = r.lease_until;
  summary = r.summary;
  branch = r.branch;
  pr_url = r.pr_url;
  verdict = r.verdict;
  commit = r.commit;
}

-- UpdateRun
unfoldable pub update_run : Run → W Run
update_run r = change_run r.id always (run_columns r)

-- AppendRunEvent
unfoldable pub append_run_event : Text → EventKind → Payload → Time → W RunEvent
append_run_event run_id kind payload at = new_id >>= λ id.
    change_run run_id always (λ r. record r { next_seq = suc r.next_seq }) >>= λ r.
    let ev : RunEvent = record {
      id = id;
      run_id = run_id;
      seq = r.next_seq;
      kind = kind;
      payload = payload;
      created_at = at;
    } in
    changes_work (λ w. record w { st = record w.st { run_events = ev ∷ w.st.run_events } })
    >> pure ev
