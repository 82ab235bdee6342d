-- ===== src/Event.antt =====
-- core.Event of internal/core/core.go: what is published once a transaction has committed.
use buildbee.Base.{ℕ, Option, List, []}
use buildbee.Text.{Text}
use buildbee.Models.Records.{RunEvent, Activity, Notification, Message, Member, Task, Handoff}

-- core.Posted, without the files of its message
pub record Posted : Type 0 where
  pub message : Message
  pub mentions : List Member
  pub tasks : List Task
  pub handoffs : List Handoff
  pub root : Option Message

-- Event.Data
pub data EventData : Type 0 where
  run_event_data : RunEvent → EventData
  activity_data : Activity → EventData
  notification_data : Notification → EventData
  message_data : Message → EventData
  posted_data : Posted → EventData
  presence_data : EventData

pub record Event : Type 0 where
  pub topic : Text
  pub cursor : ℕ
  pub type : Text
  pub body : EventData

-- A message that sets nothing in motion.
abbrev pub bare : Message → Option Message → Posted
bare m root = record { message = m; mentions = []; tasks = []; handoffs = []; root = root }
