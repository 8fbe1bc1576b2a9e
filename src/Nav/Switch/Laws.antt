-- ===== src/Nav/Switch/Laws.antt =====
-- crates/tsk-core/src/workspace_nav.rs: where a switch of taskspace arrives, and what an error leaves.
use hypr_taskspace.Prelude.{
  ℕ, suc, true, false, Option, none, some, List, [], ◌∷◌, ◌++◌, ◌≡◌, refl, arith, Option-cases, inl,
  inr, take,
}
use hypr_taskspace.Prelude.Text.{Text, codes}
use hypr_taskspace.Prelude.Dict.{contains_key}
use hypr_taskspace.Models.{ContextMode, default, task, taskspace_key}
use hypr_taskspace.Workspaces.{allowed_workspace_names, bar_workspace_names}
use hypr_taskspace.Host.{System, Env, asked}
use hypr_taskspace.Slots.{write_slots, write_slot_cache}
use hypr_taskspace.SwitchGuard.{record_switch}
use hypr_taskspace.ContextSync.{enter_default, enter_task}
use hypr_taskspace.ContextSync.Context.{context}
use hypr_taskspace.Nav.Slots.{slot_to_adopt_for_taskspace_switch}
use hypr_taskspace.Nav.Layout.{capture_monitor_layout, set_last_workspace}
use hypr_taskspace.Nav.Refresh.{SameButLayout, SameTables, refresh-frame}
use hypr_taskspace.Nav.Restore.{sync_monitors_to_taskspace}
use hypr_taskspace.Nav.Restore.Frame.{sync_monitors-SameButLayout, focus_last-SameButLayout}
use hypr_taskspace.Nav.Switch.{
  ok, err, capture_leaving, adopt_active, adopt_active_slot_for_taskspace_switch,
  setup_task_workspaces_for_state, setup_default_taskspace_workspaces, restore_taskspace,
  setup_workspaces, enter_taskspace, change_context, set_taskspace,
}

module _ (h : System) where
  open h use {World}

  write_slots-session :
      (n : ℕ) (names : List Text) (s : Env World) → (write_slots h n names s).1.session ≡ s.session
  unfolding write_slots
  write_slots-session n [] s = refl
  write_slots-session n (name ∷ names) s = write_slots-session (suc n) names _

  pub write_slot_cache-session : (s : Env World) → (write_slot_cache h s).1.session ≡ s.session
  unfolding write_slot_cache
  write_slot_cache-session s = write_slots-session 1 (take 10 (bar_workspace_names s.session)) s

  pub capture_leaving-SameButLayout :
      (key : Text) (allowed : List Text) (s : Env World)
      → SameButLayout s.session (capture_leaving h key allowed s).1.session
  unfolding capture_leaving capture_monitor_layout
  capture_leaving-SameButLayout key allowed s = ground arith

  adopt_active-SameButLayout :
      (active : Option (Option Text)) (s : Env World)
      → SameButLayout s.session (adopt_active h active s).1.session
  unfolding adopt_active
  adopt_active-SameButLayout none s = ground arith
  adopt_active-SameButLayout (some none) s = ground arith
  adopt_active-SameButLayout (some (some name)) s =
      let allowed = allowed_workspace_names s.session in
      let globals = s.session.global_workspace_slots in
      elim (Option-cases (slot_to_adopt_for_taskspace_switch name allowed globals)) [
        | inl nothing ↦ ground arith
        | inr (slot, found) ↦
            let key = taskspace_key s.session in
            let moved = record s { session = set_last_workspace key slot s.session } in
            ground (arith, refresh-frame h moved)
      ]

  adopt_slot-SameButLayout :
      (s : Env World)
      → SameButLayout s.session (adopt_active_slot_for_taskspace_switch h s).1.session
  unfolding adopt_active_slot_for_taskspace_switch
  adopt_slot-SameButLayout s =
      let s1 = asked h.available s in
      let active = h.active_workspace s1.world in
      ground (arith, adopt_active-SameButLayout active.0 (asked h.active_workspace s1))

  setup_workspaces-session :
      (id : Option Text) (s : Env World) → (setup_workspaces h id s).1.session ≡ s.session
  unfolding setup_workspaces setup_task_workspaces_for_state setup_default_taskspace_workspaces
  setup_workspaces-session none s = ground arith
  setup_workspaces-session (some id) s = ground arith

  pub restore_taskspace-SameButLayout :
      (old_allowed : List Text) (s : Env World)
      → SameButLayout s.session (restore_taskspace h old_allowed s).1.session
  unfolding restore_taskspace
  restore_taskspace-SameButLayout old_allowed s =
      let restored = sync_monitors_to_taskspace h old_allowed s in
      ground
        (arith, sync_monitors-SameButLayout h old_allowed s, focus_last-SameButLayout h restored.1)

  pub enter_taskspace-SameButLayout :
      (id : Option Text) (old_allowed : List Text) (s : Env World)
      → ((enter_taskspace h id old_allowed s).0 ≡ ok)
        × (SameButLayout s.session (enter_taskspace h id old_allowed s).1.session)
  unfolding enter_taskspace record_switch
  enter_taskspace-SameButLayout id old_allowed s =
      let s1 = (write_slot_cache h s).1 in
      let s2 = (adopt_active_slot_for_taskspace_switch h s1).1 in
      let s3 = (record_switch h (taskspace_key s2.session) old_allowed s2).1 in
      let s4 = (setup_workspaces h id s3).1 in
      (
        refl,
        ground (
          arith,
          write_slot_cache-session s,
          adopt_slot-SameButLayout s1,
          setup_workspaces-session id s3,
          restore_taskspace-SameButLayout old_allowed s4,
        ),
      )

  -- A switch to the default taskspace succeeds, whatever task id is passed, and arrives in default
  -- mode without a current task.
  pub set_taskspace-default :
      (task_id : Option Text) (s : Env World)
      → ((set_taskspace h default task_id s).0 ≡ ok)
        × (context (set_taskspace h default task_id s).1.session
            ≡ record { mode = default; task_id = none })
  unfolding set_taskspace change_context
  set_taskspace-default task_id s =
      let s1 =
        (capture_leaving h (taskspace_key s.session) (allowed_workspace_names s.session) s).1 in
      let s2 = record s1 { session = enter_default s1.session } in
      ground (arith, enter_taskspace-SameButLayout none (allowed_workspace_names s.session) s2)

  -- A switch to a task whose id is in the table succeeds, and arrives with that task as the
  -- current one in task mode, whatever the compositor answers.
  pub set_taskspace-task :
      (id : Text) (s : Env World)
      → contains_key s.session.tasks id ≡ true
      → ((set_taskspace h task (some id) s).0 ≡ ok)
        × (context (set_taskspace h task (some id) s).1.session
            ≡ record { mode = task; task_id = some id })
  unfolding set_taskspace change_context
  set_taskspace-task id s known =
      let allowed = allowed_workspace_names s.session in
      let s1 = (capture_leaving h (taskspace_key s.session) allowed s).1 in
      let s2 = record s1 { session = enter_task id s1.session } in
      ground (
        arith,
        capture_leaving-SameButLayout (taskspace_key s.session) allowed s,
        enter_taskspace-SameButLayout (some id) allowed s2,
      )

  -- With an id that is not in the table a switch to a task returns the error that names the id,
  -- and without an id it returns the error that asks for one; mode and current task stay as they
  -- were in both cases.
  pub set_taskspace-error :
      (id : Text) (s : Env World)
      → contains_key s.session.tasks id ≡ false
      → ((set_taskspace h task (some id) s).0 ≡ err (codes "Unknown task: " ++ id))
        × (context (set_taskspace h task (some id) s).1.session ≡ context s.session)
        × ((set_taskspace h task none s).0 ≡ err (codes "task_id required for task taskspace"))
        × (context (set_taskspace h task none s).1.session ≡ context s.session)
  unfolding set_taskspace change_context
  set_taskspace-error id s unknown =
      let key = taskspace_key s.session in
      let allowed = allowed_workspace_names s.session in
      let keeps = capture_leaving-SameButLayout key allowed s in
      (ground arith, ground arith, refl, ground arith)

  -- Whatever a switch does to the context, the tasks, the windows and the slots stay.
  pub set_taskspace-SameTables :
      (mode : ContextMode) (id : Option Text) (s : Env World)
      → SameTables s.session (set_taskspace h mode id s).1.session
  unfolding set_taskspace change_context
  set_taskspace-SameTables default id s =
      let allowed = allowed_workspace_names s.session in
      let s1 = (capture_leaving h (taskspace_key s.session) allowed s).1 in
      let s2 = record s1 { session = enter_default s1.session } in
      ground (
        arith,
        capture_leaving-SameButLayout (taskspace_key s.session) allowed s,
        enter_taskspace-SameButLayout none allowed s2,
      )
  set_taskspace-SameTables task none s =
      let allowed = allowed_workspace_names s.session in
      ground (arith, capture_leaving-SameButLayout (taskspace_key s.session) allowed s)
  set_taskspace-SameTables task (some id) s =
      let allowed = allowed_workspace_names s.session in
      let s1 = (capture_leaving h (taskspace_key s.session) allowed s).1 in
      let s2 = record s1 { session = enter_task id s1.session } in
      ground (
        arith,
        capture_leaving-SameButLayout (taskspace_key s.session) allowed s,
        enter_taskspace-SameButLayout (some id) allowed s2,
      )
