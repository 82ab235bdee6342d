-- ===== src/Core/Pilot.antt =====
-- internal/core/autopilot.go: what moves a Task on without people.
pub mod Handoff
pub mod Checks
pub mod Moves
pub mod Gate
pub mod Advance
