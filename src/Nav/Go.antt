-- ===== src/Nav/Go.antt =====
-- crates/tsk-core/src/workspace_nav.rs: moving to a workspace of the current taskspace.
use hypr_taskspace.Prelude.{
  ℕ, suc, true, false, Option, none, some, List, [], ◌∷◌, if◌then◌else◌, contains, position,
}
use hypr_taskspace.Prelude.Int.{ℤ, pos}
use hypr_taskspace.Prelude.Text.{Text, Text_eq, is_empty}
use hypr_taskspace.Models.{taskspace_key}
use hypr_taskspace.Workspaces.{count_from, allowed_workspace_names}
use hypr_taskspace.Host.{System, M, ◌>>=◌, ◌>>◌, pure, get_session, modify, ask, act, skip}
use hypr_taskspace.Nav.Slots.{
  workspace_name_for_relative, workspace_next_relative_from, workspace_prev_relative_from,
  remembered_focus_slot,
}
use hypr_taskspace.Nav.Layout.{set_last_workspace}
use hypr_taskspace.Nav.Refresh.{refresh_monitor_slots}
use hypr_taskspace.ContextSync.{sync_from_workspace_name}

module _ (h : System) where
  open h use {World, active_workspace, switch_workspace, move_active_window, remove_slot}

  unfoldable pub remember_workspace : ℤ → M World (Unit {0})
  remember_workspace relative = do
    state ← get_session
    modify (set_last_workspace (taskspace_key state) relative)
    refresh_monitor_slots h

  unfoldable pub sync_named : Option Text → M World (Option Text)
  sync_named none = pure none
  sync_named (some name) = do _ ← sync_from_workspace_name h name; pure (some name)

  unfoldable pub sync_workspace_slot : ℤ → M World (Option Text)
  unfolding sync_named
  sync_workspace_slot relative = do
    state ← get_session
    sync_named (workspace_name_for_relative state relative)

  unfoldable pub go_named : Option Text → M World (Option Text)
  go_named none = pure none
  go_named (some name) = do
    act (switch_workspace name)
    _ ← sync_from_workspace_name h name
    pure (some name)

  unfoldable pub workspace_go : ℤ → M World (Option Text)
  unfolding go_named
  workspace_go relative = do
    state ← get_session
    go_named (workspace_name_for_relative state relative)

  -- The position of the active workspace in the taskspace, from 1.
  unfoldable pub active_position : List Text → Option (Option Text) → Option ℕ
  active_position allowed none = none
  active_position allowed (some none) = none
  active_position allowed (some (some name)) =
      if is_empty name
      then none
      else elim (position allowed name) [ none ↦ none | some i ↦ some (suc i) ]

  unfoldable pub active_relative : M World (Option ℕ)
  unfolding active_position
  active_relative = do
    active ← ask active_workspace
    state ← get_session
    pure (active_position (allowed_workspace_names state) active)

  unfoldable pub go_relative : Option ℕ → M World (Option Text)
  go_relative none = pure none
  go_relative (some n) = workspace_go (pos n)

  unfoldable pub workspace_next_relative : M World (Option ℕ)
  workspace_next_relative = do
    state ← get_session
    current ← active_relative
    pure (workspace_next_relative_from state current true)

  unfoldable pub workspace_prev_relative : M World (Option ℕ)
  workspace_prev_relative = do
    state ← get_session
    current ← active_relative
    pure (workspace_prev_relative_from state current true)

  unfoldable pub workspace_next_relative_bounded : M World (Option ℕ)
  workspace_next_relative_bounded = do
    state ← get_session
    current ← active_relative
    pure (workspace_next_relative_from state current false)

  unfoldable pub workspace_prev_relative_bounded : M World (Option ℕ)
  workspace_prev_relative_bounded = do
    state ← get_session
    current ← active_relative
    pure (workspace_prev_relative_from state current false)

  unfoldable pub workspace_next : M World (Option Text)
  unfolding go_relative workspace_next_relative
  workspace_next = do relative ← workspace_next_relative; go_relative relative

  unfoldable pub workspace_prev : M World (Option Text)
  unfolding go_relative workspace_prev_relative
  workspace_prev = do relative ← workspace_prev_relative; go_relative relative

  unfoldable pub workspace_goto_name : Text → M World (Option Text)
  workspace_goto_name name = do
    state ← get_session
    let listed = contains (allowed_workspace_names state) name
    if listed then go_named (some name) else pure none

  unfoldable pub move_window_to_relative : ℤ → M World (Option Text)
  move_window_to_relative relative = do
    state ← get_session
    let name = workspace_name_for_relative state relative
    elim name [ none ↦ skip | some target ↦ act (move_active_window target) ]
    pure name

  unfoldable pub focus_relative_in_taskspace : ℤ → M World (Option Text)
  focus_relative_in_taskspace relative = do
    state ← get_session
    let name = workspace_name_for_relative state relative
    elim name [ none ↦ skip | some target ↦ act (switch_workspace target) ]
    pure name

  unfoldable pub focus_last_workspace : M World (Option Text)
  focus_last_workspace = do
    state ← get_session
    let relative = remembered_focus_slot state
    result ← focus_relative_in_taskspace relative
    elim result [ none ↦ skip | some _ ↦ remember_workspace relative ]
    pure result

  -- The loop over the cached slots; the directory belongs to the parameter.
  unfoldable pub remove_slots : List ℕ → M World (Unit {0})
  remove_slots [] = skip
  remove_slots (slot ∷ slots) = do act (remove_slot slot); remove_slots slots

  unfoldable pub clear_runtime_slot_cache : M World (Unit {0})
  unfolding remove_slots
  clear_runtime_slot_cache = remove_slots (count_from 1 10)
