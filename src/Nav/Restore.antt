-- ===== src/Nav/Restore.antt =====
-- crates/tsk-core/src/workspace_nav.rs: putting every monitor on its workspace of the taskspace that
-- is entered.
pub mod Plan
pub mod Frame
use hypr_taskspace.Prelude.{
  ℕ, zero, suc, ◌+◌, Bool, true, false, not, ◌&&◌, ◌||◌, Option, none, some, List, [], ◌∷◌, map,
  if◌then◌else◌, leb, ltb, length, find, filter, all, head?, sort_by, ◌==◌,
}
use hypr_taskspace.Prelude.Int.{ℤ, pos, int_eq, int_leb}
use hypr_taskspace.Prelude.Text.{Text, Text_eq, text_eq, text_leb}
use hypr_taskspace.Prelude.Dict.{Dict, get, insert, collect_into}
use hypr_taskspace.Models.{SessionState, taskspace_key}
use hypr_taskspace.Workspaces.{allowed_workspace_names}
use hypr_taskspace.TaskIds.{is_nil}
use hypr_taskspace.Host.{
  System, Monitor, Env, M, ◌>>=◌, ◌>>◌, pure, get_session, modify, ask, act, skip,
}
use hypr_taskspace.Nav.Slots.{
  workspace_name_at_relative, resolve_monitor_slot, monitor_needs_move, remembered_focus_slot,
  or_else,
}
use hypr_taskspace.Nav.Layout.{capture_monitor_slots, set_last_workspace}
use hypr_taskspace.Nav.Slots.{saved_slots}
use hypr_taskspace.Nav.Go.{focus_relative_in_taskspace}

-- `(a.y, a.x, &a.name) <= (b.y, b.x, &b.name)`
unfoldable pub layout_before : Monitor → Monitor → Bool
layout_before a b =
    if int_eq a.y b.y
    then (if int_eq a.x b.x then text_leb a.name b.name else int_leb a.x b.x)
    else int_leb a.y b.y

unfoldable pub sort_monitors_by_layout : List Monitor → List Monitor
unfolding layout_before
sort_monitors_by_layout monitors = sort_by layout_before monitors

pub record Target : Type 0 where
  pub monitor : Text
  pub slot : ℤ
  pub workspace : Text

-- The loop that makes the targets; `none` is the early return on a slot without a name.
unfoldable pub plan_targets :
    SessionState → Text → ℕ → List Text → ℕ → List Monitor → Option (List Target)
plan_targets state dest_key max_slots allowed index [] = some []
plan_targets state dest_key max_slots allowed index (m ∷ monitors) =
    let slot = resolve_monitor_slot state dest_key m.name index max_slots in
    elim (workspace_name_at_relative allowed slot) [
      | none ↦ none
      | some workspace ↦ elim (plan_targets state dest_key max_slots allowed (suc index) monitors) [
        | none ↦ none
        | some more ↦ some (record { monitor = m.name; slot = slot; workspace = workspace } ∷ more)
      ]
    ]

-- The map from the listed monitors to the workspaces that they show.
unfoldable pub shown : List Monitor → Dict Text
shown monitors = collect_into [] (map (λ m. (m.name, m.workspace_name)) monitors)

unfoldable pub needs_move : List Monitor → List Text → List Text → Target → Bool
unfolding shown
needs_move monitors new_allowed old_allowed target =
    monitor_needs_move (get (shown monitors) target.monitor) target.workspace new_allowed
      old_allowed

abbrev pub numbered : ℕ → List Monitor → List (Text × ℕ)
numbered i [] = []
numbered i (m ∷ monitors) = (m.name, i) ∷ numbered (suc i) monitors

-- The place of a monitor in the layout; 0 if it has none.
unfoldable pub layout_index : List Monitor → Text → ℕ
layout_index layout name = elim (get (collect_into [] (numbered 0 layout)) name) [
  | none ↦ 0
  | some i ↦ i
]

-- The targets that still need a move, the outermost monitors first.
unfoldable pub pending_targets :
    List Monitor → List Monitor → List Text → List Text → List Target → List Target
unfolding needs_move layout_index
pending_targets layout monitors new_allowed old_allowed targets =
    sort_by (λ (a b : Target). leb (layout_index layout b.monitor) (layout_index layout a.monitor))
      (filter (needs_move monitors new_allowed old_allowed) targets)

-- Another monitor that shows the target's workspace.
unfoldable pub holder_of : List Monitor → Target → Option Monitor
holder_of monitors target =
    find
      (λ (m : Monitor).
        not (text_eq m.name target.monitor) && text_eq m.workspace_name target.workspace)
      monitors

-- What the target's monitor shows.
unfoldable pub shown_on : List Monitor → Text → Option Text
shown_on monitors name = elim (find (λ (m : Monitor). text_eq m.name name) monitors) [
  | none ↦ none
  | some m ↦ some m.workspace_name
]

abbrev pub or_default {ℓ} : {A : Type ℓ} → Option (List A) → List A
or_default none = []
or_default (some xs) = xs

abbrev pub focused_name : List Monitor → Option Text
focused_name monitors = elim (find (λ (m : Monitor). m.focused) monitors) [
  | none ↦ none
  | some m ↦ some m.name
]

module _ (h : System) where
  open h use {
    World, available, list_monitors, switch_on_monitor, swap_workspaces, focus_monitor, sleep,
  }

  -- `list_monitors_with_retry`, by the attempts that are left; the last one takes any answer.
  unfoldable pub list_monitors_attempts : ℕ → M World (List Monitor)
  list_monitors_attempts zero = do listed ← ask list_monitors; pure (or_default listed)
  list_monitors_attempts (suc left) = do
    listed ← ask list_monitors
    let again : M World (List Monitor) =
        (if ltb 0 left then act sleep else skip) >> list_monitors_attempts left
    if is_nil (or_default listed) then again else pure (or_default listed)

  unfoldable pub list_monitors_with_retry : M World (List Monitor)
  unfolding list_monitors_attempts
  list_monitors_with_retry = list_monitors_attempts 3

  -- The first pending target is moved: by a swap with the monitor that shows its workspace, if any.
  unfoldable pub move_first : List Monitor → Option Target → M World (Unit {0})
  move_first monitors none = skip
  move_first monitors (some target) = elim (holder_of monitors target) [
    | some holder ↦ act (swap_workspaces target.monitor holder.name)
    | none ↦ act (switch_on_monitor target.monitor target.workspace)
  ]

  -- The passes of `restore_monitor_targets`, by the number that is left.
  unfoldable pub restore_passes :
      ℕ → List Target → List Monitor → List Text → List Text → M World (Unit {0})
  restore_passes zero targets layout new_allowed old_allowed = skip
  restore_passes (suc left) targets layout new_allowed old_allowed = do
    listed ← ask list_monitors
    let monitors = or_default listed
    let pending = pending_targets layout monitors new_allowed old_allowed targets
    let move : M World (Unit {0}) = (do
      move_first monitors (head? pending)
      restore_passes left targets layout new_allowed old_allowed)
    if is_nil pending then skip else move

  unfoldable pub restore_monitor_targets :
      List Target → List Monitor → List Text → List Text → M World (Unit {0})
  restore_monitor_targets targets = restore_passes (length targets + 2) targets

  -- `verify_monitor_targets`: up to two attempts for each target
  unfoldable pub verify_target : ℕ → List Text → List Text → Target → M World (Unit {0})
  verify_target zero new_allowed old_allowed target = skip
  verify_target (suc left) new_allowed old_allowed target = do
    listed ← ask list_monitors
    let move : M World (Unit {0}) = (do
      act (switch_on_monitor target.monitor target.workspace)
      verify_target left new_allowed old_allowed target)
    let current = shown_on (or_default listed) target.monitor
    if monitor_needs_move current target.workspace new_allowed old_allowed then move else skip

  unfoldable pub verify_monitor_targets : List Text → List Text → List Target → M World (Unit {0})
  verify_monitor_targets new_allowed old_allowed [] = skip
  verify_monitor_targets new_allowed old_allowed (target ∷ targets) = do
    verify_target 2 new_allowed old_allowed target
    verify_monitor_targets new_allowed old_allowed targets

  -- The slot that is saved for the focused monitor becomes the taskspace's last workspace.
  unfoldable pub adopt_focused : Text → Option Text → SessionState → SessionState
  adopt_focused key none state = state
  adopt_focused key (some focused) state = elim (get (saved_slots state key) focused) [
    | none ↦ state
    | some slot ↦ set_last_workspace key slot state
  ]

  unfoldable pub persist_monitor_layout_from_hyprland : List Text → Option Text → M World (Unit {0})
  unfolding adopt_focused
  persist_monitor_layout_from_hyprland allowed focused_monitor = do
    state ← get_session
    let key = taskspace_key state
    listed ← ask list_monitors
    elim listed [
      | none ↦ skip
      | some monitors ↦ modify (capture_monitor_slots key allowed monitors)
    ]
    modify (adopt_focused key focused_monitor)

  -- The workspace planned for the focused monitor.
  unfoldable pub focused_target : Option Text → List Target → Option Text
  focused_target none targets = none
  focused_target (some name) targets =
      elim (find (λ (t : Target). text_eq t.monitor name) targets) [
        | none ↦ none
        | some t ↦ some t.workspace
      ]

  -- `sync_monitors_to_taskspace_inner` behind the plan
  unfoldable pub restore_plan :
      Text → List Text → List Text → List Monitor → List Target → M World (Option Text)
  restore_plan dest_key old_allowed new_allowed monitors targets = do
    let focused = focused_name monitors
    restore_monitor_targets targets monitors new_allowed old_allowed
    verify_monitor_targets new_allowed old_allowed targets
    persist_monitor_layout_from_hyprland new_allowed focused
    elim focused [ none ↦ skip | some name ↦ act (focus_monitor name) ]
    state ← get_session
    let last : ℤ = elim (get state.last_workspace dest_key) [ none ↦ pos 1 | some slot ↦ slot ]
    pure (or_else (focused_target focused targets) (workspace_name_at_relative new_allowed last))

  -- What is focused without a layout to restore.
  unfoldable pub focus_remembered : M World (Option Text)
  focus_remembered = do
    state ← get_session
    focus_relative_in_taskspace h (remembered_focus_slot state)

  unfoldable pub sync_several : List Text → List Text → List Monitor → M World (Option Text)
  sync_several old_allowed new_allowed monitors = do
    state ← get_session
    let dest_key = taskspace_key state
    elim (plan_targets state dest_key (length new_allowed) new_allowed 0 monitors) [
      | none ↦ pure none
      | some targets ↦ restore_plan dest_key old_allowed new_allowed monitors targets
    ]

  unfoldable pub sync_running : List Text → List Text → M World (Option Text)
  sync_running old_allowed new_allowed = do
    listed ← list_monitors_with_retry
    let monitors = sort_monitors_by_layout listed
    if leb (length monitors) 1
        then focus_remembered
        else sync_several old_allowed new_allowed monitors

  unfoldable pub sync_monitors_to_taskspace : List Text → M World (Option Text)
  sync_monitors_to_taskspace old_allowed = do
    state ← get_session
    let new_allowed = allowed_workspace_names state
    let sync : M World (Option Text) = (do
      running ← ask available
      if running then sync_running old_allowed new_allowed else focus_remembered)
    if is_nil new_allowed then pure none else sync
