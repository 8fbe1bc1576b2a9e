-- ===== src/Valid/Nav.antt =====
-- crates/tsk-core/src/workspace_nav.rs and window_registry.rs keep the session valid.
use hypr_taskspace.Prelude.{true, Option, none, some, List, ◌≡◌, arith, Option-cases, inl, inr}
use hypr_taskspace.Prelude.Int.{ℤ}
use hypr_taskspace.Prelude.Text.{Text}
use hypr_taskspace.Models.{task, default, taskspace_key}
use hypr_taskspace.Workspaces.{task_for_workspace_name, allowed_workspace_names}
use hypr_taskspace.Host.{System, Env}
use hypr_taskspace.ContextSync.{enter_default, enter_task, sync_from_workspace_name}
use hypr_taskspace.Nav.Slots.{workspace_name_for_relative}
use hypr_taskspace.Nav.Go.{
  sync_workspace_slot, sync_named, workspace_go, go_named, workspace_goto_name,
}
use hypr_taskspace.Nav.Switch.{
  capture_leaving, set_taskspace, change_context, enter_taskspace,
  apply_context_from_workspace_name, sync_taskspace_from_external,
}
use hypr_taskspace.Nav.Switch.Laws.{
  capture_leaving-SameButLayout, enter_taskspace-SameButLayout, restore_taskspace-SameButLayout,
}
use hypr_taskspace.Valid.{
  is_live, IsValid, is_valid-SameButLayout, enter_default-IsValid, enter_task-IsValid,
}
use hypr_taskspace.Valid.Sync.{owner-is_live, touch_now-IsValid, sync-IsValid}

module _ (h : System) where
  open h use {World}

  pub sync_workspace_slot-IsValid :
      (relative : ℤ) (s : Env World)
      → IsValid s.session
      → IsValid (sync_workspace_slot h relative s).1.session
  unfolding sync_workspace_slot sync_named
  sync_workspace_slot-IsValid relative s valid =
      elim (Option-cases (workspace_name_for_relative s.session relative)) [
        | inl nothing ↦ ground arith
        | inr (name, found) ↦ ground (arith, sync-IsValid h name s valid)
      ]

  pub workspace_go-IsValid :
      (relative : ℤ) (s : Env World)
      → IsValid s.session
      → IsValid (workspace_go h relative s).1.session
  unfolding workspace_go go_named
  workspace_go-IsValid relative s valid =
      elim (Option-cases (workspace_name_for_relative s.session relative)) [
        | inl nothing ↦ ground arith
        | inr (name, found) ↦
            let s1 = record s { world = h.switch_workspace name s.world } in
            ground (arith, sync-IsValid h name s1 valid)
      ]

  pub workspace_goto_name-IsValid :
      (name : Text) (s : Env World)
      → IsValid s.session
      → IsValid (workspace_goto_name h name s).1.session
  unfolding workspace_goto_name go_named
  workspace_goto_name-IsValid name s valid =
      let s1 = record s { world = h.switch_workspace name s.world } in
      ground (arith, sync-IsValid h name s1 valid)

  enter_taskspace-IsValid :
      (id : Option Text) (allowed : List Text) (s : Env World)
      → IsValid s.session
      → IsValid (enter_taskspace h id allowed s).1.session
  enter_taskspace-IsValid id allowed s valid =
      let same = is_valid-SameButLayout ((enter_taskspace-SameButLayout h id allowed s).1) in
      ground (arith, same)

  capture_leaving-IsValid :
      (key : Text) (allowed : List Text) (s : Env World)
      → IsValid s.session
      → IsValid (capture_leaving h key allowed s).1.session
  capture_leaving-IsValid key allowed s valid =
      let same = is_valid-SameButLayout (capture_leaving-SameButLayout h key allowed s) in
      ground (arith, same)

  pub leave-IsValid :
      (s : Env World) → IsValid s.session → IsValid (set_taskspace h default none s).1.session
  unfolding set_taskspace change_context
  leave-IsValid s valid =
      let allowed = allowed_workspace_names s.session in
      let s1 = (capture_leaving h (taskspace_key s.session) allowed s).1 in
      let s2 = record s1 { session = enter_default s1.session } in
      ground (
        arith,
        capture_leaving-IsValid (taskspace_key s.session) allowed s,
        enter_default-IsValid s1.session,
        enter_taskspace-IsValid none allowed s2,
      )

  -- A switch to a live task keeps the session valid.
  pub switch-IsValid :
      (id : Text) (s : Env World)
      → IsValid s.session
      → is_live s.session.tasks id ≡ true
      → IsValid (set_taskspace h task (some id) s).1.session
  unfolding set_taskspace change_context
  switch-IsValid id s valid live =
      let key = taskspace_key s.session in
      let allowed = allowed_workspace_names s.session in
      let s1 = (capture_leaving h key allowed s).1 in
      let s2 = record s1 { session = enter_task id s1.session } in
      let live1 : is_live s1.session.tasks id ≡ true =
        rw (capture_leaving-SameButLayout h key allowed s).tasks live in
      ground (
        arith,
        capture_leaving-IsValid key allowed s,
        enter_task-IsValid id s1.session,
        enter_taskspace-IsValid (some id) allowed s2,
      )

  apply_context-IsValid :
      (name : Text) (s : Env World)
      → IsValid s.session
      → IsValid (apply_context_from_workspace_name h name s).1.session
  unfolding apply_context_from_workspace_name
  apply_context-IsValid name s valid =
      elim (Option-cases (task_for_workspace_name s.session name)) [
        | inl nobody ↦ ground (arith, enter_default-IsValid s.session)
        | inr (owner, found) ↦
            let s1 = record s { session = enter_task owner.id s.session } in
            ground (
              arith,
              enter_default-IsValid s.session,
              enter_task-IsValid owner.id s.session valid
                  (owner-is_live s.session name owner valid found),
              touch_now-IsValid h s1,
            )
      ]

  pub sync_external-IsValid :
      (name : Text) (allowed : List Text) (key : Text) (s : Env World)
      → IsValid s.session
      → IsValid (sync_taskspace_from_external h name allowed key s).1.session
  unfolding sync_taskspace_from_external
  sync_external-IsValid name allowed key s valid =
      let s1 = (capture_leaving h key allowed s).1 in
      let s2 = (apply_context_from_workspace_name h name s1).1 in
      let s3 = (sync_from_workspace_name h name s2).1 in
      let restored = is_valid-SameButLayout (restore_taskspace-SameButLayout h allowed s3) in
      ground (
        arith,
        capture_leaving-IsValid key allowed s valid,
        apply_context-IsValid name s1,
        sync-IsValid h name s2,
        restored,
      )
