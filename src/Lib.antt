-- ===== src/Lib.antt =====
-- A model of hypr-taskspace, the daemon and tools that give every task its own set of Hyprland
-- workspaces ("taskspace").
--
-- The parts and the files that model them. All sources are in crates/tsk-core/src.
--   Models          models.rs: the session state with its tasks and window records, the taskspace key;
--                   Models/Order the orders of tasks, Models/Slug slugify.
--   Workspaces      workspaces.rs: names of workspaces, their slots and their owners, the names of a
--                   taskspace, and how a name that Hyprland reports is mapped to a name of the bar.
--   TaskIds         task_ids.rs: short ids and the lookup of a task by id, name or prefix.
--   Host            the parameter that stands for Hyprland, the clock and the files, and the monad of
--                   the operations (see below); the records Monitor and HyprWindow of hyprland.rs.
--   ContextSync     context_sync.rs: following the workspace in focus.
--   Nav             workspace_nav.rs, in the files Nav/Slots (slots of workspaces and monitors),
--                   Nav/Layout (remembered layouts), Nav/Refresh (refresh_monitor_slots), Nav/Go
--                   (going to a workspace), Nav/Restore (sync_monitors_to_taskspace), Nav/Hotplug
--                   (new monitors), Nav/OnStart (preferred_on_start_monitor) and Nav/Switch
--                   (set_taskspace).
--   HyprlandEvents  hyprland_events.rs: lines and events of Hyprland's socket, read in chunks.
--   SwitchGuard     taskspace_switch_guard.rs: ignoring the echo of a switch.
--   Slots           workspace_slots.rs: the cache of workspace names that key bindings read.
--   Taskspaces      taskspaces.rs: how many workspaces the bar shows.
--   WindowRegistry  window_registry.rs: windows and their home workspaces.
--   Registry        registry.rs: storing a map in a table and loading it, over a table as SQLite keeps
--                   it; Registry/Again reading it another time, Registry/Tasks the rows of
--                   tasks, Registry/RoundTrip both together,
--                   Registry/State the whole session with its row and the windows.
--   TaskCleanup     task_cleanup.rs: the windows and containers of a task, and what the session
--                   forgets with it.
--   Config          config.rs: the settings that the service reads.
--   Service         service.rs: loading, storing and external events; in its children
--                   Service/Workspaces the start and the monitors, Service/Keys what key bindings call,
--                   Service/Tasks switching, archiving, restoring, renaming and deleting,
--                   Service/Create new tasks and their ids (registry.rs, models.rs), Service/Queries the
--                   lists, Service/Reboot the archive after a reboot (boot_id.rs). Service/Steps has
--                   the operations as a step relation. Service/External, Service/Archiving,
--                   Service/Switching, Service/Answers, Service/Reboot/Laws and Service/Create/Fresh
--                   say what the operations do.
--   Valid           when a session is valid, and that each operation leads from valid sessions to valid
--                   ones: Valid/Sync, Valid/Nav and Valid/Windows for the steps on a session,
--                   Valid/Daemon and Valid/Rules the rules for operations, Valid/Events, Valid/Keys,
--                   Valid/Tasks, Valid/Archive and Valid/Lifecycle the operations, Valid/Reach all of
--                   them together.
--   Prelude         helpers: lists, integers, text, decimal numbers, maps.
--   Tests           a sample session, and the theorems applied to it.
--
-- How state is modelled. A session is a record, passed from step to step. A function that takes
-- `&mut SessionState` or talks to the compositor is a function on `Env`: the session, the world, the
-- last intentional switch and the time of the last hotplug (the two static variables). The world and
-- every call that leaves the library (hyprctl, the clock, files, sockets) are fields of the record
-- `System`, about which nothing is assumed but what a theorem names as a condition: the theorems hold
-- for every answer it may give. The order of the calls is the order of the source, and a call that the
-- source makes twice may answer differently the second time.
--
-- An operation of the service is a function on `Daemon`: such an `Env` and the session that is in the
-- database. It loads the stored session, works on this copy and stores it again, so that a failure on
-- the way leaves the stored session as it was. Whether a load, a store or the runtime directory fails
-- is an answer of `System`. The answer of an operation is a value, an error with its message, or a
-- failure of the database or of a process. The daemon runs operations one at a time, under a lock; the
-- step relation of Service/Steps has a step for each hold of the lock. A request to archive a task
-- (daemon/server.rs) holds it twice, with the teardown in between, so that other operations may come
-- in between: its halves and the teardown are steps of their own, and anything outside may change
-- between two steps. Browsers, containers, checkouts, hooks and the files of a task are fields of
-- `System` too.
--
-- How data is modelled. A string is the list of its code points (its letters are compared by ASCII
-- case, as `eq_ignore_ascii_case` does). `u32` and `usize` are natural numbers: where a number is
-- parsed the bound 2^32 - 1 is tested, and theorems that need it name it. `i32` is an integer without
-- bound; `as u32` wraps. A HashMap is an association list, whose order stands for the map's order of
-- iteration; lookups, inserts and retains are those of the map. Ids are ASCII, so that a byte index into
-- an id is an index into its list. Of Rust's `to_lowercase` and `trim`, which are parameters, nothing is
-- assumed. A path is a text; where it is stored in the database it goes through `to_string_lossy`, a
-- parameter, and theorems about it ask for paths that this leaves as they are. So do the bytes that are
-- read from Hyprland's socket through `String::from_utf8_lossy`. In Registry each pass over the table
-- of tasks has a clock of its own, for the rows whose instants cannot be read.
--
-- Loops are recursion on the list that they go over. The retries of list_monitors_with_retry and the
-- passes of restore_monitor_targets are counted by the source too, so no fuel is added.
--
-- Not modelled: logging, threads and locks, the daemon's sockets, the command line, TUI and bar, git,
-- containers, browsers and the installer; of the database the schema and its migrations (in
-- Service a load gives what was stored last, with the slots of the settings; Registry says under which
-- conditions); of service.rs the checkout of a new task, the handoff operations, opening terminals,
-- editors and browsers, and the menu; of workspaces.rs bar_occupied_names.
pub mod Prelude
pub mod Config
pub mod Models
pub mod Workspaces
pub mod TaskIds
pub mod Host
pub mod Nav
pub mod ContextSync
pub mod HyprlandEvents
pub mod SwitchGuard
pub mod Slots
pub mod Taskspaces
pub mod WindowRegistry
pub mod Valid
pub mod TaskCleanup
pub mod Registry
pub mod Service
pub mod Tests
