-- ===== src/Store/Tables.antt =====
-- The tables but `runs`, and `run_events`, by the file of internal/store that reads and writes them.
mod Projects
mod Tasks
mod Decisions
mod Feeds
mod Chat
mod Checks
mod Routines
unfoldable pub use Projects.*
unfoldable pub use Tasks.*
unfoldable pub use Decisions.*
unfoldable pub use Feeds.*
unfoldable pub use Chat.*
unfoldable pub use Checks.*
unfoldable pub use Routines.*
