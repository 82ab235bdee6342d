-- ===== src/Examples.antt =====
-- The theorems at concrete inputs.
mod Sample
mod Texts
mod Streams
mod Claims
mod Reports
mod Merges
mod Routines
mod Servers
mod Messages
mod Remotes
