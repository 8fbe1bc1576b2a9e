-- ===== src/Tests.antt =====
-- The theorems at concrete inputs, with tests of the definitions.
mod Sample
mod Names
mod Ids
mod Sync
mod Slots
mod Events
mod Daemon
mod Runs
mod Codes
mod Tables
mod Windows
mod Plans
mod Tasks
