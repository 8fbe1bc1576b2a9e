-- ===== src/Nav/Layout.antt =====
-- crates/tsk-core/src/workspace_nav.rs: the remembered layout of the monitors, as changes of the
-- session alone.
pub mod Laws
use hypr_taskspace.Prelude.{
  ℕ, zero, suc, ◌∷◌, [], List, map, Bool, true, false, not, ◌&&◌, Option, none, some, if◌then◌else◌,
  contains, find,
}
use hypr_taskspace.Prelude.Int.{ℤ, pos}
use hypr_taskspace.Prelude.Text.{Text, Text_eq, codes}
use hypr_taskspace.Prelude.Dict.{Dict, get, insert, retain, get_or}
use hypr_taskspace.Models.{SessionState, mode_str, default}
use hypr_taskspace.Host.{Monitor}
use hypr_taskspace.TaskIds.{is_nil}
use hypr_taskspace.Nav.Slots.{relative_slot_in_allowed, saved_slots}

unfoldable pub live_monitor_names : List Monitor → List Text
live_monitor_names monitors = map (λ m. m.name) monitors

abbrev pub set_last_workspace : Text → ℤ → SessionState → SessionState
set_last_workspace key slot state = record state {
  last_workspace = insert state.last_workspace key slot;
}

abbrev pub set_saved_slots : Text → Dict ℤ → SessionState → SessionState
set_saved_slots key slots state = record state {
  last_monitor_workspace = insert state.last_monitor_workspace key slots;
}

-- Each map loses the monitors that are gone, and maps left empty are dropped.
unfoldable pub prune_maps : List Text → Dict (Dict ℤ) → Dict (Dict ℤ)
prune_maps live [] = []
prune_maps live ((key, slots) ∷ more) =
    let kept = retain (λ name _. contains live name) slots in
    if is_nil kept then prune_maps live more else (key, kept) ∷ prune_maps live more

unfoldable pub prune_disconnected_monitors : List Text → SessionState → SessionState
unfolding prune_maps
prune_disconnected_monitors live state =
    if is_nil live
    then state
    else record state { last_monitor_workspace = prune_maps live state.last_monitor_workspace }

-- The loop over the monitors that show a workspace of the taskspace.
unfoldable pub record_slots : List Text → List Monitor → Dict ℤ → Dict ℤ
record_slots allowed [] slots = slots
record_slots allowed (m ∷ monitors) slots =
    record_slots allowed monitors (elim (relative_slot_in_allowed m.workspace_name allowed) [
      | none ↦ slots
      | some slot ↦ insert slots m.name slot
    ])

unfoldable pub capture_slots : List Text → List Monitor → Dict ℤ → Dict ℤ
unfolding record_slots live_monitor_names
capture_slots allowed monitors slots = record_slots allowed monitors (
    if is_nil monitors
    then slots
    else retain (λ name _. contains (live_monitor_names monitors) name) slots)

unfoldable pub capture_monitor_slots : Text → List Text → List Monitor → SessionState → SessionState
unfolding capture_slots saved_slots
capture_monitor_slots taskspace_key allowed monitors state =
    set_saved_slots taskspace_key (capture_slots allowed monitors (saved_slots state taskspace_key))
      state

-- The slot of the focused monitor becomes the taskspace's last workspace.
unfoldable pub capture_focused_slot : Text → List Text → List Monitor → SessionState → SessionState
capture_focused_slot taskspace_key allowed monitors state = elim (find (λ m. m.focused) monitors) [
  | none ↦ state
  | some focused ↦ elim (relative_slot_in_allowed focused.workspace_name allowed) [
    | none ↦ state
    | some slot ↦ set_last_workspace taskspace_key slot state
  ]
]

unfoldable pub capture_monitor_layout :
    Text → List Text → List Monitor → SessionState → SessionState
unfolding capture_monitor_slots capture_focused_slot
capture_monitor_layout taskspace_key allowed monitors state =
    capture_focused_slot taskspace_key allowed monitors
      (capture_monitor_slots taskspace_key allowed monitors state)

unfoldable pub clear_navigation_memory : SessionState → SessionState
clear_navigation_memory state = record state {
  last_monitor_workspace = [];
  last_workspace = insert [] (mode_str default) (pos 1);
}
