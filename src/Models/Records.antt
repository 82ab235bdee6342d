-- ===== src/Models/Records.antt =====
-- The records of internal/models/models.go, with the columns of their tables
-- (internal/migrate/sql). A time is a count of nanoseconds, `*time.Time` an `Option`. An empty id
-- is NULL. Left out: a Run's usage, and what only listings and chat clients read.
use buildbee.Base.{ℕ, Bool, Option, List}
use buildbee.Text.{Text}
use buildbee.Models.Status.{
  TaskStatus, RunStatus, HandoffStatus, PipelineStatus, RunKind, EventKind,
}

abbrev pub Time : Type 0
Time = ℕ

-- A value of a JSON payload, `map[string]any`.
pub data Value : Type 0 where
  str : Text → Value
  num : ℕ → Value
  flag : Bool → Value

abbrev pub Payload : Type 0
Payload = List (Text × Value)

pub data MergePolicy : Type 0 where
  merge_auto merge_approval : MergePolicy

pub data ProjectKind : Type 0 where
  project_kind direct_space : ProjectKind

pub data MemberKind : Type 0 where
  human bot : MemberKind

-- Channel.Kind: "channel" or "dm".
pub data ChannelKind : Type 0 where
  open_channel dm : ChannelKind

-- Run.Verdict: "", "approve" or "changes".
pub data Verdict : Type 0 where
  no_verdict approve changes : Verdict

-- Decision.Action: "", "merge" or "permission".
pub data Action : Type 0 where
  no_action merge_action permission_action : Action

pub record Project : Type 0 where
  pub id : Text
  pub name : Text
  pub auto_run : Bool
  pub merge_policy : MergePolicy
  pub max_runs : ℕ  -- 0: no limit
  pub instructions : Text
  pub repo_url : Text
  pub default_branch : Text
  pub agent_image : Text
  pub agent_permissions : Text
  pub kind : ProjectKind
  pub archived_at : Option Time

pub record Person : Type 0 where
  pub id : Text
  pub name : Text

pub record Preferences : Type 0 where
  pub person_id : Text
  pub mute_mentions : Bool
  pub mute_routines : Bool

pub record Member : Type 0 where
  pub id : Text
  pub project_id : Text
  pub person_id : Text
  pub kind : MemberKind
  pub display_name : Text
  pub role : Text
  pub instructions : Text
  pub agent : Text
  pub left_at : Option Time
  pub created_at : Time

pub record Task : Type 0 where
  pub id : Text
  pub project_id : Text
  pub title : Text
  pub body : Text
  pub status : TaskStatus
  pub assignee_member_id : Text
  pub created_by_member_id : Text
  pub issue_number : ℕ  -- 0: no issue
  pub issue_url : Text
  pub branch : Text
  pub head_commit : Text
  pub pr_url : Text
  pub merged_at : Option Time
  pub thread_id : Text
  pub created_at : Time
  pub updated_at : Time

pub record Run : Type 0 where
  pub id : Text
  pub task_id : Text
  pub project_id : Text
  pub bot_member_id : Text
  pub status : RunStatus
  pub kind : RunKind
  pub detail : Text
  pub summary : Text
  pub branch : Text
  pub commit : Text
  pub pr_url : Text
  pub verdict : Verdict
  pub agent : Text
  pub prompt : Text
  pub worker : Text
  pub lease_until : Option Time
  pub attempts : ℕ
  pub next_seq : ℕ  -- the column that numbers the Run's events; not in the Go struct
  pub created_at : Time
  pub updated_at : Time
  pub started_at : Option Time
  pub finished_at : Option Time

pub record RunEvent : Type 0 where
  pub id : Text
  pub run_id : Text
  pub seq : ℕ
  pub kind : EventKind
  pub payload : Payload
  pub created_at : Time

pub record Handoff : Type 0 where
  pub id : Text
  pub task_id : Text
  pub project_id : Text
  pub from_member_id : Text
  pub to_member_id : Text
  pub note : Text
  pub status : HandoffStatus
  pub created_at : Time
  pub completed_at : Option Time

pub record Decision : Type 0 where
  pub id : Text
  pub project_id : Text
  pub task_id : Text
  pub prompt : Text
  pub options : List Text
  pub recommendation : Text
  pub answer : Text
  pub answered_by_member_id : Text
  pub reused : Bool
  pub fingerprint : Text
  pub assignee_member_id : Text
  pub action : Action
  pub commit : Text
  pub run_id : Text
  pub created_at : Time
  pub answered_at : Option Time

pub record DecisionMemory : Type 0 where
  pub project_id : Text
  pub fingerprint : Text
  pub prompt : Text
  pub answer : Text
  pub decision_id : Text

pub record Activity : Type 0 where
  pub seq : ℕ
  pub project_id : Text
  pub actor_member_id : Text
  pub actor : Text
  pub type : Text
  pub action : Text
  pub subject_id : Text
  pub payload : Payload
  pub created_at : Time

pub record Notification : Type 0 where
  pub id : Text
  pub seq : ℕ
  pub person_id : Text
  pub project_id : Text
  pub kind : Text
  pub title : Text
  pub body : Text
  pub href : Text
  pub created_at : Time

pub record Message : Type 0 where
  pub id : Text
  pub seq : ℕ
  pub channel_id : Text
  pub project_id : Text
  pub member_id : Text
  pub body : Text
  pub thread_id : Text
  pub reply_count : ℕ
  pub last_reply_at : Option Time
  pub task_id : Text
  pub edited_at : Option Time
  pub deleted_at : Option Time
  pub created_at : Time

pub record Pipeline : Type 0 where
  pub id : Text
  pub project_id : Text
  pub task_id : Text
  pub artifact_id : Text
  pub name : Text
  pub status : PipelineStatus
  pub commit : Text
  pub external_url : Text
  pub created_at : Time
  pub updated_at : Time

pub record Artifact : Type 0 where
  pub id : Text
  pub project_id : Text
  pub task_id : Text
  pub run_id : Text
  pub kind : Text
  pub name : Text
  pub body : Text
  pub url : Text
  pub blob_key : Text
  pub created_at : Time

pub record Channel : Type 0 where
  pub id : Text
  pub project_id : Text
  pub name : Text
  pub kind : ChannelKind
  pub locked : Bool
  pub members : List Text
  pub archived_at : Option Time
  pub created_at : Time

pub record File : Type 0 where
  pub id : Text
  pub channel_id : Text
  pub message_id : Text
  pub uploader_person_id : Text
  pub name : Text
  pub size : ℕ
  pub blob_key : Text
  pub created_at : Time

pub record Routine : Type 0 where
  pub id : Text
  pub project_id : Text
  pub bot_member_id : Text
  pub name : Text
  pub prompt : Text
  pub schedule : Text
  pub enabled : Bool
  pub last_run_at : Option Time
  pub last_task_id : Text
  pub created_at : Time
