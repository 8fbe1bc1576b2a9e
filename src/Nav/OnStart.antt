-- ===== src/Nav/OnStart.antt =====
-- crates/tsk-core/src/workspace_nav.rs: the monitor on which the programs of a new task start. Rust's
-- `str::trim` is a parameter.
pub mod Laws
use hypr_taskspace.Prelude.{
  ℕ, suc, ◌-◌, ◌^◌, Bool, false, not, Option, none, some, List, [], ◌∷◌, ◌++◌, ltb, find, contains,
  if◌then◌else◌,
}
use hypr_taskspace.Prelude.Int.{ℤ, pos, negsuc, int_eq}
use hypr_taskspace.Prelude.Text.{Text, Text_eq, codes, is_empty, text_eq}
use hypr_taskspace.Prelude.Dict.{Dict, get}
use hypr_taskspace.Models.{SessionState}
use hypr_taskspace.Workspaces.{default_taskspace_workspace_name, primary_task_workspace_slot}
use hypr_taskspace.TaskIds.{is_nil}
use hypr_taskspace.Host.{System, Monitor, Env, M, ◌>>=◌, pure, get_session, ask}
use hypr_taskspace.Nav.Slots.{resolve_monitor_slot}
use hypr_taskspace.Nav.Restore.{
  list_monitors_with_retry, sort_monitors_by_layout, focused_name, or_default,
}

-- `slot as i32` of a `u32`
unfoldable pub as_i32 : ℕ → ℤ
as_i32 n = if ltb n (2 ^ 31) then pos n else negsuc (2 ^ 32 - 1 - n)

-- The monitors whose saved slot of the default taskspace is this one.
unfoldable pub saved_on : ℤ → Dict ℤ → List Text
saved_on slot [] = []
saved_on slot ((name, saved) ∷ more) =
    let rest = saved_on slot more in if int_eq saved slot then name ∷ rest else rest

-- The monitor that shows a global workspace, and those that it is saved for.
unfoldable pub reserved_for : SessionState → List Monitor → ℕ → List Text
unfolding as_i32 saved_on
reserved_for state monitors slot =
    let saved : List Text = elim (get state.last_monitor_workspace (codes "default")) [
      | none ↦ []
      | some m ↦ saved_on (as_i32 slot) m
    ] in
    elim (find (λ (m : Monitor). text_eq m.workspace_name (default_taskspace_workspace_name slot))
      monitors) [ none ↦ saved | some m ↦ m.name ∷ saved ]

unfoldable pub reserved_slots : SessionState → List Monitor → List ℕ → List Text
unfolding reserved_for
reserved_slots state monitors [] = []
reserved_slots state monitors (slot ∷ slots) =
    reserved_for state monitors slot ++ reserved_slots state monitors slots

unfoldable pub global_workspace_monitors : SessionState → List Monitor → List Text
unfolding reserved_slots
global_workspace_monitors state monitors =
    reserved_slots state monitors state.global_workspace_slots

-- The loop over the monitors for the one that would get the primary slot.
unfoldable pub primary_monitor : SessionState → Text → ℕ → List Monitor → Option Text
primary_monitor state dest_key index [] = none
primary_monitor state dest_key index (m ∷ monitors) =
    let slot = resolve_monitor_slot state dest_key m.name index state.default_workspace_count in
    let primary =
      as_i32
        (primary_task_workspace_slot state.default_workspace_count state.global_workspace_slots) in
    let rest = primary_monitor state dest_key (suc index) monitors in
    if int_eq slot primary then some m.name else rest

module _ (h : System) (trim : Text → Text) where
  open h use {World, available, list_monitors}

  -- The name of the override, if it is not blank.
  unfoldable pub override_name : Option Text → Option Text
  override_name none = none
  override_name (some name) = if is_empty (trim name) then none else some (trim name)

  unfoldable pub focused_monitor_name : M World (Option Text)
  focused_monitor_name = do listed ← ask list_monitors; pure (focused_name (or_default listed))

  unfoldable pub chosen_monitor : SessionState → Text → List Monitor → M World (Option Text)
  unfolding focused_monitor_name
  chosen_monitor state task_id monitors =
      let reserved = global_workspace_monitors state monitors in
      let by_slot : M World (Option Text) =
        elim (primary_monitor state (codes "task:" ++ task_id) 0 monitors) [
          | some name ↦ pure (some name)
          | none ↦ focused_monitor_name
        ] in
      elim (find (λ (m : Monitor). not (contains reserved m.name)) monitors) [
        | some m ↦ pure (some m.name)
        | none ↦ by_slot
      ]

  unfoldable pub preferred_on_start_monitor_from_layout :
      SessionState → Text → Option Text → List Monitor → M World (Option Text)
  unfolding override_name chosen_monitor
  preferred_on_start_monitor_from_layout state task_id override_monitor monitors =
      elim (override_name override_monitor) [
        | some name ↦ pure (some name)
        | none ↦
            if is_nil monitors then focused_monitor_name else chosen_monitor state task_id monitors
      ]

  unfoldable pub preferred_on_start_monitor : Text → Option Text → M World (Option Text)
  preferred_on_start_monitor task_id override_monitor = do
    state ← get_session
    running ← ask available
    let by_layout : M World (Option Text) = (do
      monitors ← list_monitors_with_retry h
      preferred_on_start_monitor_from_layout state task_id override_monitor
          (sort_monitors_by_layout monitors))
    if running
        then by_layout
        else preferred_on_start_monitor_from_layout state task_id override_monitor []
