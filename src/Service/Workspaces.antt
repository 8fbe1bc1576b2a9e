-- ===== src/Service/Workspaces.antt =====
-- crates/tsk-core/src/service.rs: the operations of the daemon on workspaces, monitors and windows.
-- Each loads the stored session; those that change it store it again.
use hypr_taskspace.Prelude.{Bool, false, ◌&&◌, Option, none, some, if◌then◌else◌}
use hypr_taskspace.Prelude.Text.{Text, is_empty}
use hypr_taskspace.Models.{default}
use hypr_taskspace.Config.{TskConfig}
use hypr_taskspace.Host.{System, workspace, taskspace, full, ◌>>=◌, ◌>>◌, pure, modify, ask, skip}
use hypr_taskspace.Nav.Layout.{clear_navigation_memory}
use hypr_taskspace.Nav.Refresh.{refresh_monitor_slots}
use hypr_taskspace.Nav.Go
use hypr_taskspace.Nav.Hotplug.{reconcile_monitor_topology}
use hypr_taskspace.Nav.Switch.{set_taskspace, setup_default_taskspace_workspaces}
use hypr_taskspace.Service.{
  on_outcome, Result, done, error, failed, D, lift, with_config, and_then, with_state, commit_state,
  apply_external_workspace,
}

module _ (h : System) (config : TskConfig) where
  open h use {
    World, available, active_workspace, ensure_schema, switch_workspace, can_save, can_load,
  }

  -- The workspace that is active when the daemon starts; an unnamed one and none are skipped.
  unfoldable pub apply_active : Option (Option Text) → D World (Result Bool)
  apply_active none = pure (done false)
  apply_active (some none) = pure (done false)
  apply_active (some (some name)) =
      if is_empty name then pure (done false) else apply_external_workspace h config name

  unfoldable pub settle_start : D World (Result (Unit {0}))
  unfolding apply_active
  settle_start = do
    active ← lift (ask active_workspace)
    applied ← apply_active active
    and_then applied (λ _. do lift (refresh_monitor_slots h); commit_state h config none tt)

  unfoldable pub start_session : D World (Result (Unit {0}))
  start_session = do
    lift (modify (with_config config))
    running ← (if config.hyprland_enabled then lift (ask available) else pure false)
    if running then settle_start else commit_state h config none tt

  unfoldable pub initialize : D World (Result (Unit {0}))
  initialize = do
    ready ← lift (ask ensure_schema)
    if ready then with_state h config start_session else pure failed

  unfoldable pub sync_monitor_topology : D World (Result (Unit {0}))
  sync_monitor_topology =
      let sync : D World (Result (Unit {0})) = (do
        lift (reconcile_monitor_topology h)
        commit_state h config (some workspace) tt) in
      if config.hyprland_enabled then with_state h config sync else pure (done tt)

  unfoldable pub provision_default_workspaces : D World (Result (Unit {0}))
  provision_default_workspaces = do
    running ← lift (ask available)
    if running && config.hyprland_enabled
        then lift (setup_default_taskspace_workspaces h config.default_workspace_count)
        else skip
    pure (done tt)

  unfoldable pub reset_navigation_layout : D World (Result (Unit {0}))
  reset_navigation_layout = with_state h config (do
    lift (modify clear_navigation_memory)
    lift (Go.clear_runtime_slot_cache h)
    commit_state h config (some full) tt)

  unfoldable pub context_default : D World (Result (Unit {0}))
  context_default = with_state h config (do
    switched ← lift (set_taskspace h default none)
    on_outcome switched (commit_state h config (some taskspace) tt) (λ e. pure (error e)))
