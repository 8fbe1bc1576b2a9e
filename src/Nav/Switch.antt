-- ===== src/Nav/Switch.antt =====
-- crates/tsk-core/src/workspace_nav.rs: entering another taskspace, on purpose or because Hyprland
-- focused one of its workspaces.
pub mod Laws
pub mod External
use hypr_taskspace.Prelude.{
  ℕ, Bool, true, false, not, ◌&&◌, Option, none, some, List, [], ◌∷◌, ◌++◌, if◌then◌else◌,
}
use hypr_taskspace.Prelude.Int.{ℤ}
use hypr_taskspace.Prelude.Text.{Text, codes, is_empty}
use hypr_taskspace.Prelude.Dict.{Dict, get, contains_key}
use hypr_taskspace.Models.{ContextMode, SessionState, default, task, taskspace_key}
use hypr_taskspace.Workspaces.{
  allowed_workspace_names, is_default_taskspace_workspace_name, task_for_workspace_name,
  task_owned_workspace_names, default_taskspace_workspace_names,
}
use hypr_taskspace.TaskIds.{is_nil}
use hypr_taskspace.Host.{System, Env, M, ◌>>=◌, ◌>>◌, pure, get_session, modify, ask, act, skip}
use hypr_taskspace.Nav.Slots.{slot_to_adopt_for_taskspace_switch}
use hypr_taskspace.Nav.Layout.{capture_monitor_layout, set_last_workspace}
use hypr_taskspace.Nav.Refresh.{refresh_monitor_slots}
use hypr_taskspace.Nav.Go.{focus_last_workspace}
use hypr_taskspace.Nav.Restore.{sync_monitors_to_taskspace}
use hypr_taskspace.ContextSync.{
  enter_default, enter_task, is_global_visit, touch_now, sync_from_workspace_name,
}
use hypr_taskspace.SwitchGuard.{record_switch}
use hypr_taskspace.Slots.{write_slot_cache}

-- `Result<(), String>`
pub data Outcome : Type 0 where
  ok : Outcome
  err : Text → Outcome

module _ (h : System) where
  open h use {
    World, available, list_monitors, active_workspace, ensure_workspaces, close_tui_windows,
  }

  -- The layout of the taskspace that is left is remembered.
  unfoldable pub capture_leaving : Text → List Text → M World (Unit {0})
  capture_leaving old_key old_allowed = do
    running ← ask available
    let capture : M World (Unit {0}) = (do
      listed ← ask list_monitors
      elim listed [
        | none ↦ skip
        | some monitors ↦ modify (capture_monitor_layout old_key old_allowed monitors)
      ]
      act close_tui_windows)
    if running then capture else skip

  -- The slot of the active workspace is adopted if it is one of the new taskspace alone.
  unfoldable pub adopt_active : Option (Option Text) → M World (Unit {0})
  adopt_active none = skip
  adopt_active (some none) = skip
  adopt_active (some (some name)) = do
    state ← get_session
    let key = taskspace_key state
    let allowed = allowed_workspace_names state
    let slot = slot_to_adopt_for_taskspace_switch name allowed state.global_workspace_slots
    let adopt : M World (Unit {0}) = elim slot [
      | none ↦ skip
      | some slot ↦ modify (set_last_workspace key slot) >> refresh_monitor_slots h
    ]
    if is_empty name then skip else adopt

  unfoldable pub adopt_active_slot_for_taskspace_switch : M World (Unit {0})
  adopt_active_slot_for_taskspace_switch = do
    running ← ask available
    let adopt : M World (Unit {0}) = (do active ← ask active_workspace; adopt_active active)
    if running then adopt else skip

  unfoldable pub setup_task_workspaces_for_state : Text → M World (Unit {0})
  setup_task_workspaces_for_state task_id = do
    state ← get_session
    let names =
        task_owned_workspace_names task_id state.default_workspace_count
          state.global_workspace_slots
    if is_nil names then skip else act (ensure_workspaces names)

  unfoldable pub setup_default_taskspace_workspaces : ℕ → M World (Unit {0})
  setup_default_taskspace_workspaces count =
      let names = default_taskspace_workspace_names count in
      if is_nil names then skip else act (ensure_workspaces names)

  -- Every monitor goes to its workspace, or else the remembered one is focused.
  unfoldable pub restore_taskspace : List Text → M World (Unit {0})
  restore_taskspace old_allowed = do
    restored ← sync_monitors_to_taskspace h old_allowed
    elim restored [ some _ ↦ skip | none ↦ focus_last_workspace h >>= λ _. skip ]

  unfoldable pub setup_workspaces : Option Text → M World (Unit {0})
  setup_workspaces dest_task_id = do
    running ← ask available
    state ← get_session
    let setup : M World (Unit {0}) = elim dest_task_id [
      | some id ↦ setup_task_workspaces_for_state id
      | none ↦ setup_default_taskspace_workspaces state.default_workspace_count
    ]
    if running then setup else skip

  -- `set_taskspace_inner` behind the change of context
  unfoldable pub enter_taskspace : Option Text → List Text → M World Outcome
  enter_taskspace dest_task_id old_allowed = do
    write_slot_cache h
    adopt_active_slot_for_taskspace_switch
    state ← get_session
    record_switch h (taskspace_key state) old_allowed
    setup_workspaces dest_task_id
    restore_taskspace old_allowed
    pure ok

  unfoldable pub change_context : ContextMode → Option Text → List Text → M World Outcome
  change_context default task_id old_allowed = do
    modify enter_default
    enter_taskspace none old_allowed
  change_context task none old_allowed = pure (err (codes "task_id required for task taskspace"))
  change_context task (some id) old_allowed = do
    state ← get_session
    let enter : M World Outcome = modify (enter_task id) >> enter_taskspace (some id) old_allowed
    if contains_key state.tasks id then enter else pure (err (codes "Unknown task: " ++ id))

  unfoldable pub set_taskspace : ContextMode → Option Text → M World Outcome
  set_taskspace mode task_id = do
    state ← get_session
    let old_allowed = allowed_workspace_names state
    capture_leaving (taskspace_key state) old_allowed
    change_context mode task_id old_allowed

  unfoldable pub apply_context_from_workspace_name : Text → M World Outcome
  apply_context_from_workspace_name name = do
    state ← get_session
    let visit = is_global_visit state name
    let to_default : M World Outcome = (if visit then skip else modify enter_default) >> pure ok
    let to_task : M World Outcome = elim (task_for_workspace_name state name) [
      | some owner ↦ modify (enter_task owner.id) >> touch_now h >> pure ok
      | none ↦ pure (err (codes "Unknown workspace: " ++ name))
    ]
    let is_default = is_default_taskspace_workspace_name name state.default_workspace_count
    if is_default then to_default else to_task

  unfoldable pub sync_taskspace_from_external : Text → List Text → Text → M World Outcome
  sync_taskspace_from_external workspace_name old_allowed old_key = do
    capture_leaving old_key old_allowed
    applied ← apply_context_from_workspace_name workspace_name
    elim applied [
      | err e ↦ pure (err e)
      | ok ↦ do
        _ ← sync_from_workspace_name h workspace_name
        restore_taskspace old_allowed
        pure ok
    ]
