-- ===== src/Valid/Keys.antt =====
-- crates/tsk-core/src/service.rs: what the key bindings call keeps the daemon safe.
use hypr_taskspace.Prelude.{ℕ, Bool, Option, none, some}
use hypr_taskspace.Prelude.Int.{ℤ, pos}
use hypr_taskspace.Prelude.Text.{Text}
use hypr_taskspace.Models.{SessionState}
use hypr_taskspace.Config.{TskConfig}
use hypr_taskspace.Host.{System}
use hypr_taskspace.Service.Keys.{
  store_switch, workspace_go, stored_target, dispatch_target, workspace_dispatch, save_slot,
  remember_slot_from, remember_workspace_go, save_name, remember_name_from, remember_workspace_goto,
  workspace_move_dispatch, go_found, workspace_next, workspace_prev, workspace_goto,
  restore_windows, sync_window_registry,
}
use hypr_taskspace.Valid.{IsValid}
use hypr_taskspace.Valid.Daemon.{KeepsSafe}
use hypr_taskspace.Valid.Rules.{
  safe_rules, bind_get-KeepsSafe, put_stored-KeepsSafe, take_stored-KeepsSafe,
}

module _ (h : System) (config : TskConfig) where
  open h use {World}

  store_switch-KeepsSafe : (name : Option Text) → KeepsSafe (store_switch h config name)
  unfolding store_switch
  store_switch-KeepsSafe none = search (safe_rules) depth 12
  store_switch-KeepsSafe (some name) = search (safe_rules) depth 12

  pub workspace_go-KeepsSafe : (relative : ℤ) → KeepsSafe (workspace_go h config relative)
  unfolding workspace_go
  workspace_go-KeepsSafe relative = search (safe_rules, store_switch-KeepsSafe) depth 12

  go_found-KeepsSafe : (relative : Option ℕ) → KeepsSafe (go_found h config relative)
  unfolding go_found
  go_found-KeepsSafe none = search (safe_rules) depth 12
  go_found-KeepsSafe (some relative) = workspace_go-KeepsSafe (pos relative)

  pub workspace_next-KeepsSafe : KeepsSafe (workspace_next h config)
  unfolding workspace_next
  workspace_next-KeepsSafe = search (safe_rules, go_found-KeepsSafe)

  pub workspace_prev-KeepsSafe : KeepsSafe (workspace_prev h config)
  unfolding workspace_prev
  workspace_prev-KeepsSafe = search (safe_rules, go_found-KeepsSafe)

  pub workspace_goto-KeepsSafe : (name : Text) → KeepsSafe (workspace_goto h config name)
  unfolding workspace_goto
  workspace_goto-KeepsSafe name = search (safe_rules, store_switch-KeepsSafe) depth 12

  stored_target-KeepsSafe : (relative : ℤ) → KeepsSafe (stored_target h config relative)
  unfolding stored_target
  stored_target-KeepsSafe relative = search (safe_rules, take_stored-KeepsSafe)

  dispatch_target-KeepsSafe : (relative : ℤ) → KeepsSafe (dispatch_target h config relative)
  unfolding dispatch_target
  dispatch_target-KeepsSafe relative = search (safe_rules, stored_target-KeepsSafe)

  pub workspace_dispatch-KeepsSafe :
      (relative : ℤ) → KeepsSafe (workspace_dispatch h config relative)
  unfolding workspace_dispatch
  workspace_dispatch-KeepsSafe relative = search (safe_rules, dispatch_target-KeepsSafe)

  save_slot-KeepsSafe :
      (relative : ℤ) (initial_key : Text) (worked : SessionState) (name : Text)
      → IsValid worked
      → KeepsSafe (save_slot h config relative initial_key worked name)
  unfolding save_slot
  save_slot-KeepsSafe relative initial_key worked name valid = search safe_rules depth 12

  remember_slot_from-KeepsSafe :
      (relative : ℤ) (initial_key : Text)
      → KeepsSafe (remember_slot_from h config relative initial_key)
  unfolding remember_slot_from
  remember_slot_from-KeepsSafe relative initial_key =
      search (safe_rules, bind_get-KeepsSafe, save_slot-KeepsSafe)

  pub remember_workspace_go-KeepsSafe :
      (relative : ℤ) → KeepsSafe (remember_workspace_go h config relative)
  unfolding remember_workspace_go
  remember_workspace_go-KeepsSafe relative =
      search (safe_rules, remember_slot_from-KeepsSafe) depth 12

  save_name-KeepsSafe :
      (name initial_key : Text) (worked : SessionState)
      → IsValid worked
      → KeepsSafe (save_name h config name initial_key worked)
  unfolding save_name
  save_name-KeepsSafe name initial_key worked valid = search safe_rules depth 12

  remember_name_from-KeepsSafe :
      (name initial_key : Text) → KeepsSafe (remember_name_from h config name initial_key)
  unfolding remember_name_from
  remember_name_from-KeepsSafe name initial_key =
      search (safe_rules, bind_get-KeepsSafe, save_name-KeepsSafe)

  pub remember_workspace_goto-KeepsSafe :
      (name : Text) → KeepsSafe (remember_workspace_goto h config name)
  unfolding remember_workspace_goto
  remember_workspace_goto-KeepsSafe name =
      search (safe_rules, remember_name_from-KeepsSafe) depth 12

  pub workspace_move_dispatch-KeepsSafe :
      (relative : ℤ) → KeepsSafe (workspace_move_dispatch h config relative)
  unfolding workspace_move_dispatch
  workspace_move_dispatch-KeepsSafe relative = search (safe_rules) depth 12

  pub restore_windows-KeepsSafe : (dry_run : Bool) → KeepsSafe (restore_windows h config dry_run)
  unfolding restore_windows
  restore_windows-KeepsSafe dry_run = search (safe_rules) depth 12

  pub sync_window_registry-KeepsSafe : KeepsSafe (sync_window_registry h config)
  unfolding sync_window_registry
  sync_window_registry-KeepsSafe = search (safe_rules, put_stored-KeepsSafe) depth 8
