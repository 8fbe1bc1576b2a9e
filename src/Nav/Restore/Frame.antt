-- ===== src/Nav/Restore/Frame.antt =====
-- crates/tsk-core/src/workspace_nav.rs: restoring the monitors changes what is remembered of them, and
-- nothing else of the session's context.
use hypr_taskspace.Prelude.{
  ℕ, zero, suc, Option, none, some, List, [], ◌∷◌, ◌≡◌, refl, ◌∙◌, arith, head?, length, ◌+◌,
  Option-cases, inl, inr,
}
use hypr_taskspace.Prelude.Text.{Text}
use hypr_taskspace.Prelude.Int.{ℤ}
use hypr_taskspace.Models.{taskspace_key}
use hypr_taskspace.Workspaces.{allowed_workspace_names}
use hypr_taskspace.Nav.Slots.{remembered_focus_slot, workspace_name_for_relative}
use hypr_taskspace.Host.{System, Monitor, Env, asked}
use hypr_taskspace.Nav.Layout.{capture_monitor_slots, set_last_workspace}
use hypr_taskspace.Nav.Refresh.{SameButLayout, refresh-frame}
use hypr_taskspace.Nav.Go.{focus_relative_in_taskspace, focus_last_workspace, remember_workspace}
use hypr_taskspace.Nav.Restore.{
  Target, list_monitors_attempts, list_monitors_with_retry, move_first, restore_passes,
  restore_monitor_targets, verify_target, verify_monitor_targets,
  persist_monitor_layout_from_hyprland, restore_plan, focus_remembered, sync_several, sync_running,
  sync_monitors_to_taskspace, pending_targets, or_default, plan_targets, focused_name,
  sort_monitors_by_layout,
}

module _ (h : System) where
  open h use {World, list_monitors}

  pub list_attempts-session :
      (left : ℕ) (s : Env World) → (list_monitors_attempts h left s).1.session ≡ s.session
  unfolding list_monitors_attempts
  list_attempts-session zero s = refl
  list_attempts-session (suc left) s =
      let s1 = asked list_monitors s in
      ground (
        arith,
        list_attempts-session left s1,
        list_attempts-session left (record s1 { world = h.sleep s1.world }),
      )

  move_first-session :
      (monitors : List Monitor) (target : Option Target) (s : Env World)
      → (move_first h monitors target s).1.session ≡ s.session
  unfolding move_first
  move_first-session monitors none s = refl
  move_first-session monitors (some target) s = ground arith

  pub restore_passes-session :
      (left : ℕ) (targets : List Target) (layout : List Monitor)
      (new_allowed old_allowed : List Text) (s : Env World)
      → (restore_passes h left targets layout new_allowed old_allowed s).1.session ≡ s.session
  unfolding restore_passes
  restore_passes-session zero targets layout new_allowed old_allowed s = refl
  restore_passes-session (suc left) targets layout new_allowed old_allowed s =
      let s1 = asked list_monitors s in
      let monitors = or_default (list_monitors s.world).0 in
      let first = head? (pending_targets layout monitors new_allowed old_allowed targets) in
      let s2 = (move_first h monitors first s1).1 in
      ground (
        arith,
        restore_passes-session left targets layout new_allowed old_allowed s2,
        move_first-session monitors first s1,
      )

  verify_target-session :
      (left : ℕ) (new_allowed old_allowed : List Text) (target : Target) (s : Env World)
      → (verify_target h left new_allowed old_allowed target s).1.session ≡ s.session
  unfolding verify_target
  verify_target-session zero new_allowed old_allowed target s = refl
  verify_target-session (suc left) new_allowed old_allowed target s =
      let s1 = asked list_monitors s in
      let s2 = record s1 { world = h.switch_on_monitor target.monitor target.workspace s1.world } in
      ground (arith, verify_target-session left new_allowed old_allowed target s2)

  verify_targets-session :
      (new_allowed old_allowed : List Text) (targets : List Target) (s : Env World)
      → (verify_monitor_targets h new_allowed old_allowed targets s).1.session ≡ s.session
  unfolding verify_monitor_targets
  verify_targets-session new_allowed old_allowed [] s = refl
  verify_targets-session new_allowed old_allowed (target ∷ targets) s =
      verify_targets-session new_allowed old_allowed targets _
      ∙ verify_target-session 2 new_allowed old_allowed target s

  pub persist-SameButLayout :
      (allowed : List Text) (focused : Option Text) (s : Env World)
      → SameButLayout s.session (persist_monitor_layout_from_hyprland h allowed focused s).1.session
  unfolding persist_monitor_layout_from_hyprland capture_monitor_slots
  persist-SameButLayout allowed focused s = ground arith

  restore_plan-SameButLayout :
      (key : Text) (old_allowed new_allowed : List Text) (monitors : List Monitor)
      (targets : List Target) (s : Env World)
      → SameButLayout s.session
          (restore_plan h key old_allowed new_allowed monitors targets s).1.session
  unfolding restore_plan restore_monitor_targets
  restore_plan-SameButLayout key old_allowed new_allowed monitors targets s =
      let left = length targets + 2 in
      let s1 = (restore_passes h left targets monitors new_allowed old_allowed s).1 in
      let s2 = (verify_monitor_targets h new_allowed old_allowed targets s1).1 in
      ground (
        arith,
        restore_passes-session left targets monitors new_allowed old_allowed s,
        verify_targets-session new_allowed old_allowed targets s1,
        persist-SameButLayout new_allowed (focused_name monitors) s2,
      )

  focus_remembered-session : (s : Env World) → (focus_remembered h s).1.session ≡ s.session
  unfolding focus_remembered focus_relative_in_taskspace
  focus_remembered-session s = ground arith

  sync_several-SameButLayout :
      (old_allowed new_allowed : List Text) (monitors : List Monitor) (s : Env World)
      → SameButLayout s.session (sync_several h old_allowed new_allowed monitors s).1.session
  unfolding sync_several
  sync_several-SameButLayout old_allowed new_allowed monitors s =
      let key = taskspace_key s.session in
      elim (Option-cases (plan_targets s.session key (length new_allowed) new_allowed 0 monitors)) [
        | inl unplanned ↦ ground arith
        | inr (targets, planned) ↦
            ground
              (arith, restore_plan-SameButLayout key old_allowed new_allowed monitors targets s)
      ]

  sync_running-SameButLayout :
      (old_allowed new_allowed : List Text) (s : Env World)
      → SameButLayout s.session (sync_running h old_allowed new_allowed s).1.session
  unfolding sync_running list_monitors_with_retry
  sync_running-SameButLayout old_allowed new_allowed s =
      let listed = list_monitors_attempts h 3 s in
      ground (
        arith,
        list_attempts-session 3 s,
        focus_remembered-session listed.1,
        sync_several-SameButLayout old_allowed new_allowed (sort_monitors_by_layout listed.0)
            listed.1,
      )

  pub sync_monitors-SameButLayout :
      (old_allowed : List Text) (s : Env World)
      → SameButLayout s.session (sync_monitors_to_taskspace h old_allowed s).1.session
  unfolding sync_monitors_to_taskspace
  sync_monitors-SameButLayout old_allowed s =
      let s1 = asked h.available s in
      ground (
        arith,
        focus_remembered-session s1,
        sync_running-SameButLayout old_allowed (allowed_workspace_names s.session) s1,
      )

  remember_workspace-SameButLayout :
      (relative : ℤ) (s : Env World)
      → SameButLayout s.session (remember_workspace h relative s).1.session
  unfolding remember_workspace
  remember_workspace-SameButLayout relative s =
      let key = taskspace_key s.session in
      ground
        (arith, refresh-frame h (record s { session = set_last_workspace key relative s.session }))

  pub focus_last-SameButLayout :
      (s : Env World) → SameButLayout s.session (focus_last_workspace h s).1.session
  unfolding focus_last_workspace focus_relative_in_taskspace
  focus_last-SameButLayout s =
      let relative = remembered_focus_slot s.session in
      elim (Option-cases (workspace_name_for_relative s.session relative)) [
        | inl nowhere ↦ ground arith
        | inr (name, found) ↦
            let s1 = record s { world = h.switch_workspace name s.world } in
            ground (arith, remember_workspace-SameButLayout relative s1)
      ]
