-- ===== src/Nav/Hotplug/Laws.antt =====
-- crates/tsk-core/src/workspace_nav.rs: a new monitor changes the layout, never the taskspace.
use hypr_taskspace.Prelude.{
  ℕ, suc, Bool, true, Option, none, some, List, [], ◌∷◌, ◌≡◌, arith, length, Option-cases,
  Bool-cases, inl, inr,
}
use hypr_taskspace.Prelude.Text.{Text}
use hypr_taskspace.Prelude.Dict.{keys}
use hypr_taskspace.Models.{SessionState, taskspace_key}
use hypr_taskspace.Workspaces.{allowed_workspace_names}
use hypr_taskspace.Host.{System, Monitor, Env, asked}
use hypr_taskspace.TaskIds.{is_nil}
use hypr_taskspace.ContextSync.Context.{context}
use hypr_taskspace.Nav.Refresh.{SameButLayout}
use hypr_taskspace.Nav.Slots.{workspace_name_at_relative, first_unused_adopt_slot, saved_slots}
use hypr_taskspace.Nav.Layout.{prune_disconnected_monitors, live_monitor_names}
use hypr_taskspace.Nav.Restore.{list_monitors_with_retry, focused_name, sort_monitors_by_layout}
use hypr_taskspace.Nav.Restore.Frame.{list_attempts-session, persist-SameButLayout}
use hypr_taskspace.Nav.Hotplug.{
  should_treat_as_monitor_hotplug, monitor_hotplug_is_recent, adopt_monitor, adopt_monitors,
  settle_layout, reconcile_monitor_topology_from_layout, record_monitor_hotplug,
  reconcile_monitor_topology,
}

prune-SameButLayout :
    (live : List Text) (state : SessionState)
    → SameButLayout state (prune_disconnected_monitors live state)
unfolding prune_disconnected_monitors
prune-SameButLayout live state = ground arith

module _ (h : System) where
  open h use {World}

  adopt_monitor-SameButLayout :
      (key : Text) (allowed known : List Text) (apply_hypr : Bool) (index : ℕ) (m : Monitor)
      (s : Env World)
      → SameButLayout s.session (adopt_monitor h key allowed known apply_hypr index m s).1.session
  unfolding adopt_monitor
  adopt_monitor-SameButLayout key allowed known apply_hypr index m s =
      let slot = first_unused_adopt_slot s.session key index (length allowed) in
      elim (Option-cases (workspace_name_at_relative allowed slot)) [
        | inl nothing ↦ ground arith
        | inr (target, e) ↦ ground arith
      ]

  adopt_monitors-SameButLayout :
      (key : Text) (allowed known : List Text) (apply_hypr : Bool) (index : ℕ)
      (monitors : List Monitor) (s : Env World)
      → SameButLayout s.session
          (adopt_monitors h key allowed known apply_hypr index monitors s).1.session
  unfolding adopt_monitors
  adopt_monitors-SameButLayout key allowed known apply_hypr index [] s = ground arith
  adopt_monitors-SameButLayout key allowed known apply_hypr index (m ∷ monitors) s =
      let s1 = (adopt_monitor h key allowed known apply_hypr index m s).1 in
      ground (
        arith,
        adopt_monitor-SameButLayout key allowed known apply_hypr index m s,
        adopt_monitors-SameButLayout key allowed known apply_hypr (suc index) monitors s1,
      )

  settle_layout-SameButLayout :
      (allowed : List Text) (focused : Option Text) (monitors : List Monitor) (s : Env World)
      → SameButLayout s.session (settle_layout h allowed focused monitors s).1.session
  unfolding settle_layout
  settle_layout-SameButLayout allowed none monitors s = persist-SameButLayout h allowed none s
  settle_layout-SameButLayout allowed (some name) monitors s = ground (
    arith,
    persist-SameButLayout h allowed (some name) s,
    persist-SameButLayout h allowed (some name) (record s { world = h.focus_monitor name s.world }),
  )

  reconcile_from_layout-SameButLayout :
      (monitors : List Monitor) (apply_hypr : Bool) (s : Env World)
      → SameButLayout s.session
          (reconcile_monitor_topology_from_layout h monitors apply_hypr s).1.session
  unfolding reconcile_monitor_topology_from_layout
  reconcile_from_layout-SameButLayout monitors apply_hypr s = elim (Bool-cases (is_nil monitors)) [
    | inl none_listed ↦
        let key = taskspace_key s.session in
        let allowed = allowed_workspace_names s.session in
        let known = keys (saved_slots s.session key) in
        let adopted = (adopt_monitors h key allowed known apply_hypr 0 monitors s).1 in
        ground (
          arith,
          adopt_monitors-SameButLayout key allowed known apply_hypr 0 monitors s,
          settle_layout-SameButLayout allowed (focused_name monitors) monitors adopted,
        )
    | inr listed ↦
        let live = live_monitor_names monitors in
        let s1 = record s { session = prune_disconnected_monitors live s.session } in
        let key = taskspace_key s1.session in
        let allowed = allowed_workspace_names s1.session in
        let known = keys (saved_slots s1.session key) in
        let adopted = (adopt_monitors h key allowed known apply_hypr 0 monitors s1).1 in
        ground (
          arith,
          prune-SameButLayout live s.session,
          adopt_monitors-SameButLayout key allowed known apply_hypr 0 monitors s1,
          settle_layout-SameButLayout allowed (focused_name monitors) monitors adopted,
        )
  ]

  -- What adopting new monitors leaves as it was.
  pub reconcile-SameButLayout :
      (s : Env World) → SameButLayout s.session (reconcile_monitor_topology h s).1.session
  unfolding reconcile_monitor_topology record_monitor_hotplug list_monitors_with_retry
  reconcile-SameButLayout s =
      let s1 = asked h.available s in
      let clock = h.now s1.world in
      let s2 = record s1 { world = clock.1; hotplug_at = some clock.0 } in
      let listed = list_monitors_with_retry h s2 in
      ground (
        arith,
        list_attempts-session h 3 s2,
        reconcile_from_layout-SameButLayout (sort_monitors_by_layout listed.0) true listed.1,
      )

  -- Adopting new monitors and forgetting those that are gone leaves mode and current task as they
  -- were, whatever the compositor answers.
  pub reconcile-context :
      (s : Env World) → context (reconcile_monitor_topology h s).1.session ≡ context s.session
  reconcile-context s = ground (arith, reconcile-SameButLayout s)

  pub hotplug-session :
      (name : Text) (s : Env World)
      → (should_treat_as_monitor_hotplug h name s).1.session ≡ s.session
  unfolding should_treat_as_monitor_hotplug monitor_hotplug_is_recent
  hotplug-session name s = ground arith
