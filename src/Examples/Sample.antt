-- ===== src/Examples/Sample.antt =====
-- A small database: a Project with a Builder, a Task, a Run that waits, one that runs and one that
-- has finished.
use buildbee.Base.{true, false, none, some, [], ◌∷◌}
use buildbee.Text.{Text, bytes, to_lower}
use buildbee.Models.Status.{pending, running, succeeded, build, in_progress, RunStatus}
use buildbee.Models.Records.{
  Project, Member, Task, Run, merge_auto, project_kind, bot, no_verdict, Time,
}
use buildbee.Store.{Db, Work}
use buildbee.Core.Work.{Actor, agent_actor}

abbrev pub hive : Project
hive = record {
  id = bytes "p";
  name = bytes "Hive";
  auto_run = true;
  merge_policy = merge_auto;
  max_runs = 2;
  instructions = [];
  repo_url = [];
  default_branch = bytes "main";
  agent_image = [];
  agent_permissions = bytes "auto";
  kind = project_kind;
  archived_at = none;
}

abbrev pub builder : Member
builder = record {
  id = bytes "b";
  project_id = bytes "p";
  person_id = [];
  kind = bot;
  display_name = bytes "Builder";
  role = bytes "builder";
  instructions = [];
  agent = bytes "claude";
  left_at = none;
  created_at = 1;
}

abbrev pub task : Task
task = record {
  id = bytes "t";
  project_id = bytes "p";
  title = bytes "Cache";
  body = [];
  status = in_progress;
  assignee_member_id = bytes "b";
  created_by_member_id = [];
  issue_number = 0;
  issue_url = [];
  branch = [];
  head_commit = [];
  pr_url = [];
  merged_at = none;
  thread_id = [];
  created_at = 1;
  updated_at = 1;
}

abbrev run_of : Text → RunStatus → Text → Time → Run
run_of id status worker at = record {
  id = id;
  task_id = bytes "t";
  project_id = bytes "p";
  bot_member_id = bytes "b";
  status = status;
  kind = build;
  detail = [];
  summary = [];
  branch = [];
  commit = [];
  pr_url = [];
  verdict = no_verdict;
  agent = bytes "claude";
  prompt = [];
  worker = worker;
  lease_until = some 100;
  attempts = 0;
  next_seq = 0;
  created_at = at;
  updated_at = at;
  started_at = none;
  finished_at = none;
}

abbrev pub waiting_run : Run
waiting_run = run_of (bytes "r1") pending [] 3

abbrev pub going_run : Run
going_run = run_of (bytes "r2") running (bytes "w") 2

abbrev pub done_run : Run
done_run = run_of (bytes "r3") succeeded (bytes "w") 1

abbrev pub db : Db
db = record {
  projects = hive ∷ [];
  people = [];
  preferences = [];
  members = builder ∷ [];
  tasks = task ∷ [];
  runs = waiting_run ∷ going_run ∷ done_run ∷ [];
  run_events = [];
  handoffs = [];
  decisions = [];
  memories = [];
  activity = [];
  notifications = [];
  messages = [];
  pipelines = [];
  artifacts = [];
  channels = [];
  files = [];
  routines = [];
  activity_seq = 0;
  notification_seq = 0;
  message_seq = 0;
}

abbrev pub start : Work
start = record {
  st = db;
  now = 50;
  locked = λ _. false;
  uuid = λ n. 117 ∷ n ∷ [];
  next_uuid = 0;
  fingerprint = λ s. s;
  lower = to_lower;
  letter = λ c. false;
  sql_lower = to_lower;
  printable = λ s. true;
  duration = λ s. none;
  date = λ t. bytes "2026-01-01";
  events = [];
  last_run = none;
  queued = false;
  load = false;
  gone = [];
}

abbrev pub agent : Actor
agent = agent_actor (bytes "w") (bytes "b")
