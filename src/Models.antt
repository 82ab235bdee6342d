-- ===== src/Models.antt =====
-- internal/models/models.go: the domain records and the rules that need no database.
pub mod Status
pub mod Records
pub mod Verdict
pub mod Members
pub mod Mentions
