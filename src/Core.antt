-- ===== src/Core.antt =====
-- internal/core: the operations, by what they are about.
pub mod Work
pub mod Thread
pub mod Prompt
pub mod Queue
pub mod Decide
pub mod Pilot
pub mod Tasks
pub mod Ask
pub mod Steer
pub mod Chat
pub mod Ci
pub mod Members
pub mod Projects
pub mod Routines
pub mod Report
pub mod Publish
pub mod Presence
pub mod Calls
pub mod Grows
pub mod History
