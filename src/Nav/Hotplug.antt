-- ===== src/Nav/Hotplug.antt =====
-- crates/tsk-core/src/workspace_nav.rs: monitors that are plugged in or out.
pub mod Laws
use hypr_taskspace.Prelude.{
  ℕ, zero, suc, ◌-◌, Bool, true, false, not, ◌&&◌, ◌||◌, Option, none, some, List, [], ◌∷◌,
  if◌then◌else◌, leb, length, find, any, contains,
}
use hypr_taskspace.Prelude.Int.{ℤ, as_u32}
use hypr_taskspace.Prelude.Text.{Text, Text_eq, text_eq}
use hypr_taskspace.Prelude.Dict.{Dict, get, insert, keys, contains_key}
use hypr_taskspace.Models.{SessionState, taskspace_key}
use hypr_taskspace.Workspaces.{allowed_workspace_names, is_global_workspace_slot, is_some_and}
use hypr_taskspace.TaskIds.{is_nil}
use hypr_taskspace.Host.{
  System, Monitor, Env, M, ◌>>=◌, ◌>>◌, pure, get_session, modify, ask, act, skip,
}
use hypr_taskspace.Nav.Slots.{
  workspace_name_at_relative, relative_slot_in_allowed, first_unused_adopt_slot, saved_slots,
}
use hypr_taskspace.Nav.Layout.{live_monitor_names, prune_disconnected_monitors, set_saved_slots}
use hypr_taskspace.Nav.Restore.{
  sort_monitors_by_layout, list_monitors_with_retry, persist_monitor_layout_from_hyprland,
  focused_name,
}
use hypr_taskspace.SwitchGuard.{guard_ttl}

unfoldable pub monitor_needs_hotplug_adopt : SessionState → List Text → Monitor → List Text → Bool
monitor_needs_hotplug_adopt state previously_known monitor allowed =
    if contains previously_known monitor.name
    then false
    else elim (relative_slot_in_allowed monitor.workspace_name allowed) [
      | some slot ↦ is_global_workspace_slot (as_u32 slot) state.global_workspace_slots
      | none ↦ true
    ]

-- The test of a focus event by the layout. `hotplug_recent` is tested first by the caller too.
unfoldable pub should_treat_as_monitor_hotplug_from_layout :
    SessionState → Text → List Monitor → Bool → Bool
should_treat_as_monitor_hotplug_from_layout state workspace_name monitors hotplug_recent =
    if hotplug_recent then true else elim (get state.last_monitor_workspace (taskspace_key state)) [
      | none ↦ false
      | some saved ↦
          if is_nil saved
          then false
          else elim (find (λ (m : Monitor). text_eq m.workspace_name workspace_name) monitors) [
            | none ↦ false
            | some holder ↦
                if contains_key saved holder.name
                then false
                else any
                    (λ (m : Monitor).
                      contains_key saved m.name
                      && is_some_and (λ _. true)
                          (relative_slot_in_allowed m.workspace_name
                            (allowed_workspace_names state)))
                    monitors
          ]
    ]

module _ (h : System) where
  open h use {World, available, list_monitors, switch_on_monitor, focus_monitor, now}

  -- One round of the loop over the monitors: a new one is given a free slot.
  unfoldable pub adopt_monitor :
      Text → List Text → List Text → Bool → ℕ → Monitor → M World (Unit {0})
  adopt_monitor key allowed previously_known apply_hypr index m = do
    state ← get_session
    let slot = first_unused_adopt_slot state key index (length allowed)
    let adopt : M World (Unit {0}) = elim (workspace_name_at_relative allowed slot) [
      | none ↦ skip
      | some target ↦ do
        if apply_hypr then act (switch_on_monitor m.name target) else skip
        modify (set_saved_slots key (insert (saved_slots state key) m.name slot))
    ]
    if monitor_needs_hotplug_adopt state previously_known m allowed then adopt else skip

  unfoldable pub adopt_monitors :
      Text → List Text → List Text → Bool → ℕ → List Monitor → M World (Unit {0})
  adopt_monitors key allowed previously_known apply_hypr index [] = skip
  adopt_monitors key allowed previously_known apply_hypr index (m ∷ monitors) = do
    adopt_monitor key allowed previously_known apply_hypr index m
    adopt_monitors key allowed previously_known apply_hypr (suc index) monitors

  -- What follows the adoption when Hyprland is to follow: focus goes back, and the layout is read.
  unfoldable pub settle_layout : List Text → Option Text → List Monitor → M World (Unit {0})
  settle_layout allowed focused monitors = do
    elim focused [
      | none ↦ skip
      | some name ↦
          if any (λ (m : Monitor). text_eq m.name name) monitors
          then act (focus_monitor name)
          else skip
    ]
    persist_monitor_layout_from_hyprland h allowed focused

  unfoldable pub reconcile_monitor_topology_from_layout : List Monitor → Bool → M World (Unit {0})
  reconcile_monitor_topology_from_layout monitors apply_hypr = do
    if is_nil monitors
        then skip
        else modify (prune_disconnected_monitors (live_monitor_names monitors))
    state ← get_session
    let allowed = allowed_workspace_names state
    let key = taskspace_key state
    let known = keys (saved_slots state key)
    let settle : M World (Unit {0}) =
        if apply_hypr then settle_layout allowed (focused_name monitors) monitors else skip
    let reconcile : M World (Unit {0}) =
        adopt_monitors key allowed known apply_hypr 0 monitors >> settle
    if is_nil allowed then skip else reconcile

  unfoldable pub record_monitor_hotplug : M World (Unit {0})
  record_monitor_hotplug s =
      let (at, w) = now s.world in (tt, record s { world = w; hotplug_at = some at })

  unfoldable pub reconcile_monitor_topology : M World (Unit {0})
  reconcile_monitor_topology = do
    running ← ask available
    let reconcile : M World (Unit {0}) = (do
      record_monitor_hotplug
      monitors ← list_monitors_with_retry h
      reconcile_monitor_topology_from_layout (sort_monitors_by_layout monitors) true)
    if running then reconcile else skip

  abbrev pub get_hotplug_at : M World (Option ℕ)
  get_hotplug_at s = (s.hotplug_at, s)

  unfoldable pub monitor_hotplug_is_recent : M World Bool
  monitor_hotplug_is_recent = do
    at ← get_hotplug_at
    elim at [
      | none ↦ pure false
      | some then_at ↦ do current ← ask now; pure (leb (current - then_at) guard_ttl)
    ]

  unfoldable pub should_treat_as_monitor_hotplug : Text → M World Bool
  should_treat_as_monitor_hotplug workspace_name = do
    recent ← monitor_hotplug_is_recent
    state ← get_session
    let by_layout : M World Bool = (do
      listed ← ask list_monitors
      pure (elim listed [
        | none ↦ false
        | some monitors ↦
            should_treat_as_monitor_hotplug_from_layout state workspace_name monitors false
      ]))
    if recent then pure true else by_layout
