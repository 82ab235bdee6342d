-- ===== src/Core/Routines/Issues.antt =====
-- internal/core/routines.go: the Repo's Issues as Tasks. Their list is what githubconn answers.
use buildbee.Base.{ℕ, true, List, [], ◌∷◌, if◌then◌else◌, ◌==◌}
use buildbee.Base.Result.{invalid, ◌and_then◌, deny}
use buildbee.Text.{Text, bytes, truncate, check_text}
use buildbee.Models.Records.{str, num, Task}
use buildbee.Store.{W, pure, with_result, ◌>>=◌, ◌>>◌}
use buildbee.Store.Tables.{upsert_issue_task}
use buildbee.Core.Work.{Actor, Who, named, who_of, the_time, log_activity, member, open_project}

-- githubconn.Issue
pub record Issue : Type 0 where
  pub number : ℕ
  pub title : Text
  pub html_url : Text

-- upsertIssue
unfoldable pub upsert_issue : Text → Who → ℕ → Text → Text → W Task
upsert_issue project_id by number title url = the_time >>= λ now.
    upsert_issue_task project_id number (truncate title 300) url now >>= λ r.
    log_activity project_id by (bytes "issue") (if r.1 then bytes "created" else bytes "updated")
      r.0.id ((bytes "issue_number", num number) ∷ (bytes "title", str r.0.title) ∷ [])
    >> pure r.0

-- The loop of SyncIssues.
unfoldable pub upsert_all : Text → Who → List Issue → W (List Task)
upsert_all project_id by [] = pure []
upsert_all project_id by (is ∷ rest) =
    upsert_issue project_id by is.number is.title is.html_url >>= λ t.
    upsert_all project_id by rest >>= λ ts. pure (t ∷ ts)

-- SyncIssues, from the list of Issues on
unfoldable pub sync_issues : Actor → Text → List Issue → W (List Task)
sync_issues a project_id issues = open_project project_id >> member a project_id true >>= λ m.
    upsert_all project_id (who_of m a) issues

-- IssueWebhook. A number is positive or refused.
unfoldable pub issue_webhook : Text → ℕ → Text → Text → W Task
issue_webhook project_id number title url =
    with_result (deny (number == 0) invalid and_then λ _. check_text title true 300) >>= λ t.
    open_project project_id >> upsert_issue project_id (named (bytes "github")) number t url
