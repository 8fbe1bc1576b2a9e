-- ===== src/Valid/Events.antt =====
-- crates/tsk-core/src/service.rs: events of the compositor, the start of the daemon and the other
-- operations on workspaces keep the daemon safe.
use hypr_taskspace.Prelude.{Option, none, some}
use hypr_taskspace.Prelude.Text.{Text}
use hypr_taskspace.Config.{TskConfig}
use hypr_taskspace.Host.{System}
use hypr_taskspace.Service.{
  follow_external, cross_taskspace, stay_in_taskspace, apply_fresh, apply_managed,
  apply_external_workspace, sync_external_workspace,
}
use hypr_taskspace.Service.Workspaces.{
  apply_active, settle_start, start_session, initialize, sync_monitor_topology,
  provision_default_workspaces, reset_navigation_layout, context_default,
}
use hypr_taskspace.Valid.Daemon.{KeepsSafe}
use hypr_taskspace.Valid.Rules.{safe_rules}

module _ (h : System) (config : TskConfig) where
  follow_external-KeepsSafe : (name : Text) → KeepsSafe (follow_external h config name)
  unfolding follow_external
  follow_external-KeepsSafe name = search safe_rules depth 8

  cross_taskspace-KeepsSafe : (name : Text) → KeepsSafe (cross_taskspace h config name)
  unfolding cross_taskspace
  cross_taskspace-KeepsSafe name = search (safe_rules, follow_external-KeepsSafe) depth 8

  stay_in_taskspace-KeepsSafe : (name : Text) → KeepsSafe (stay_in_taskspace h config name)
  unfolding stay_in_taskspace
  stay_in_taskspace-KeepsSafe name = search safe_rules depth 8

  apply_fresh-KeepsSafe : (name : Text) → KeepsSafe (apply_fresh h config name)
  unfolding apply_fresh
  apply_fresh-KeepsSafe name =
      search (safe_rules, cross_taskspace-KeepsSafe, stay_in_taskspace-KeepsSafe)

  apply_managed-KeepsSafe : (name : Text) → KeepsSafe (apply_managed h config name)
  unfolding apply_managed
  apply_managed-KeepsSafe name = search (safe_rules, apply_fresh-KeepsSafe)

  apply_external-KeepsSafe : (name : Text) → KeepsSafe (apply_external_workspace h config name)
  unfolding apply_external_workspace
  apply_external-KeepsSafe name = search (safe_rules, apply_managed-KeepsSafe)

  pub sync_external_workspace-KeepsSafe :
      (name : Text) → KeepsSafe (sync_external_workspace h config name)
  unfolding sync_external_workspace
  sync_external_workspace-KeepsSafe name = search (safe_rules, apply_external-KeepsSafe)

  apply_active-KeepsSafe :
      (active : Option (Option Text)) → KeepsSafe (apply_active h config active)
  unfolding apply_active
  apply_active-KeepsSafe none = search safe_rules
  apply_active-KeepsSafe (some none) = search safe_rules
  apply_active-KeepsSafe (some (some name)) = search (safe_rules, apply_external-KeepsSafe)

  settle_start-KeepsSafe : KeepsSafe (settle_start h config)
  unfolding settle_start
  settle_start-KeepsSafe = search (safe_rules, apply_active-KeepsSafe) depth 8

  start_session-KeepsSafe : KeepsSafe (start_session h config)
  unfolding start_session
  start_session-KeepsSafe = search (safe_rules, settle_start-KeepsSafe) depth 8

  pub initialize-KeepsSafe : KeepsSafe (initialize h config)
  unfolding initialize
  initialize-KeepsSafe = search (safe_rules, start_session-KeepsSafe)

  pub sync_monitor_topology-KeepsSafe : KeepsSafe (sync_monitor_topology h config)
  unfolding sync_monitor_topology
  sync_monitor_topology-KeepsSafe = search safe_rules depth 8

  pub provision_default_workspaces-KeepsSafe : KeepsSafe (provision_default_workspaces h config)
  unfolding provision_default_workspaces
  provision_default_workspaces-KeepsSafe = search safe_rules depth 8

  pub reset_navigation_layout-KeepsSafe : KeepsSafe (reset_navigation_layout h config)
  unfolding reset_navigation_layout
  reset_navigation_layout-KeepsSafe = search safe_rules depth 8

  pub context_default-KeepsSafe : KeepsSafe (context_default h config)
  unfolding context_default
  context_default-KeepsSafe = search safe_rules depth 8
