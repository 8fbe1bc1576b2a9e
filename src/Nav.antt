-- ===== src/Nav.antt =====
-- crates/tsk-core/src/workspace_nav.rs: navigation within and between taskspaces.
pub mod Slots
pub mod Layout
pub mod Refresh
pub mod Go
pub mod Restore
pub mod Hotplug
pub mod Switch
pub mod OnStart
