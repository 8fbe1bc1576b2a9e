-- ===== src/Nav/Refresh.antt =====
-- crates/tsk-core/src/workspace_nav.rs: refreshing the remembered layout from the compositor.
use hypr_taskspace.Prelude.{Option, none, some, if◌then◌else◌, ◌≡◌, arith}
use hypr_taskspace.Models.{SessionState, taskspace_key}
use hypr_taskspace.Workspaces.{allowed_workspace_names}
use hypr_taskspace.TaskIds.{is_nil}
use hypr_taskspace.Prelude.{List}
use hypr_taskspace.Prelude.Text.{Text}
use hypr_taskspace.Host.{System, Monitor, Env, M, ◌>>=◌, ◌>>◌, get_session, modify, ask, skip}
use hypr_taskspace.Nav.Layout.{
  live_monitor_names, prune_disconnected_monitors, capture_monitor_slots,
}

-- Two sessions that differ in the remembered monitors at most.
pub record SameButMonitors (a b : SessionState) : Type 0 where
  pub context_mode : b.context_mode ≡ a.context_mode
  pub current_task_id : b.current_task_id ≡ a.current_task_id
  pub last_workspace : b.last_workspace ≡ a.last_workspace
  pub default_workspace_count : b.default_workspace_count ≡ a.default_workspace_count
  pub global_workspace_slots : b.global_workspace_slots ≡ a.global_workspace_slots
  pub tasks : b.tasks ≡ a.tasks
  pub windows : b.windows ≡ a.windows

-- Two sessions that differ in the remembered layout at most: in the monitors and the last workspaces.
pub record SameButLayout (a b : SessionState) : Type 0 where
  pub context_mode : b.context_mode ≡ a.context_mode
  pub current_task_id : b.current_task_id ≡ a.current_task_id
  pub default_workspace_count : b.default_workspace_count ≡ a.default_workspace_count
  pub global_workspace_slots : b.global_workspace_slots ≡ a.global_workspace_slots
  pub tasks : b.tasks ≡ a.tasks
  pub windows : b.windows ≡ a.windows

-- Two sessions with the same slots, tasks and windows.
pub record SameTables (a b : SessionState) : Type 0 where
  pub default_workspace_count : b.default_workspace_count ≡ a.default_workspace_count
  pub global_workspace_slots : b.global_workspace_slots ≡ a.global_workspace_slots
  pub tasks : b.tasks ≡ a.tasks
  pub windows : b.windows ≡ a.windows

module _ (h : System) where
  open h use {World, available, list_monitors}

  -- Monitors that are gone are forgotten, unless none is listed.
  unfoldable pub prune_unlisted : List Monitor → M World (Unit {0})
  unfolding prune_disconnected_monitors
  prune_unlisted monitors =
      if is_nil monitors
      then skip
      else modify (prune_disconnected_monitors (live_monitor_names monitors))

  unfoldable pub refresh_listed : Text → List Text → Option (List Monitor) → M World (Unit {0})
  unfolding prune_unlisted capture_monitor_slots
  refresh_listed key allowed none = skip
  refresh_listed key allowed (some monitors) = do
    prune_unlisted monitors
    modify (capture_monitor_slots key allowed monitors)

  -- `refresh_monitor_slots`, behind the test that System runs
  unfoldable pub refresh_running : M World (Unit {0})
  unfolding refresh_listed
  refresh_running = do
    state ← get_session
    let allowed = allowed_workspace_names state
    let listing : M World (Unit {0}) = do
      listed ← ask list_monitors
      refresh_listed (taskspace_key state) allowed listed
    if is_nil allowed then skip else listing

  unfoldable pub refresh_monitor_slots : M World (Unit {0})
  unfolding refresh_running
  refresh_monitor_slots = do running ← ask available; if running then refresh_running else skip

  -- The refresh changes the remembered monitors alone.
  pub refresh-frame :
      (s : Env World) → SameButMonitors s.session (refresh_monitor_slots s).1.session
  unfolding refresh_monitor_slots prune_disconnected_monitors capture_monitor_slots
  refresh-frame s = ground arith
