-- ===== src/Valid/Sync.antt =====
-- crates/tsk-core/src/context_sync.rs and workspace_nav.rs keep the session valid.
use hypr_taskspace.Prelude.{
  ℕ, suc, Bool, true, Option, none, some, List, ◌≡◌, arith, Option-cases, inl, inr,
}
use hypr_taskspace.Prelude.Int.{ℤ, pos}
use hypr_taskspace.Prelude.Text.{Text}
use hypr_taskspace.Prelude.Dict.{get, insert}
use hypr_taskspace.Models.{SessionState, Task}
use hypr_taskspace.Workspaces.{task_for_workspace_name}
use hypr_taskspace.Host.{System, Env}
use hypr_taskspace.ContextSync.{
  touch_active_task, touch_now, enter_task, follow_default, follow_task, follow_owner,
  remember_slot, remember_at, follow_resolved, follow_slot, sync_from_workspace_name,
}
use hypr_taskspace.Models.{taskspace_key}
use hypr_taskspace.Nav.Layout.{set_last_workspace}
use hypr_taskspace.Nav.Refresh.{SameButLayout, refresh-frame}
use hypr_taskspace.Valid.{
  insert-IsValid, current-is_live, entry-keyed, enter_default-IsValid, enter_task-IsValid,
  is_valid-SameButLayout, is_live, is_valid, IsValid, is_live-find,
}

touch_entry-IsValid :
    (now : ℕ) (state : SessionState) (id : Text) (t : Task)
    → IsValid state
    → state.current_task_id ≡ some id
    → get state.tasks id ≡ some t
    → IsValid (record state { tasks = insert state.tasks id (record t { last_active_at = now }) })
unfolding is_live
touch_entry-IsValid now state id t valid here found =
    let live = current-is_live state id valid here in
    insert-IsValid state id (record t { last_active_at = now }) valid
      (entry-keyed state id t valid found) (λ _. ground arith)

-- A change of the time stamp.
pub touch-IsValid :
    (now : ℕ) (state : SessionState) → IsValid state → IsValid (touch_active_task now state)
unfolding touch_active_task
touch-IsValid now state valid = elim (Option-cases state.current_task_id) [
  | inl nowhere ↦ ground arith
  | inr (id, here) ↦ elim (Option-cases (get state.tasks id)) [
    | inl unknown ↦ ground arith
    | inr (t, found) ↦ ground (arith, touch_entry-IsValid now state id t valid here found)
  ]
]

pub owner-is_live :
    (state : SessionState) (name : Text) (owner : Task)
    → IsValid state
    → task_for_workspace_name state name ≡ some owner
    → is_live state.tasks owner.id ≡ true
unfolding task_for_workspace_name is_valid
owner-is_live state name owner valid h = ground (arith, is_live-find state.tasks name owner)

module _ (h : System) where
  open h use {World}

  pub touch_now-IsValid : (s : Env World) → IsValid s.session → IsValid (touch_now h s).1.session
  unfolding touch_now
  touch_now-IsValid s valid = ground (arith, touch-IsValid (h.now s.world).0 s.session valid)

  follow_default-IsValid :
      (name : Text) (s : Env World)
      → IsValid s.session
      → IsValid (follow_default h name s).1.session
  unfolding follow_default
  follow_default-IsValid name s valid = ground (arith, enter_default-IsValid s.session valid)

  follow_task-IsValid :
      (owner : Task) (s : Env World)
      → IsValid s.session
      → is_live s.session.tasks owner.id ≡ true
      → IsValid (follow_task h owner s).1.session
  unfolding follow_task
  follow_task-IsValid owner s valid live =
      let entered = enter_task owner.id s.session in
      ground (
        arith,
        enter_task-IsValid owner.id s.session valid live,
        touch_now-IsValid (record s { session = entered }),
      )

  follow_owner-IsValid :
      (name : Text) (s : Env World) → IsValid s.session → IsValid (follow_owner h name s).1.session
  unfolding follow_owner
  follow_owner-IsValid name s valid = elim (Option-cases (task_for_workspace_name s.session name)) [
    | inl nobody ↦ ground (arith, follow_default-IsValid name s valid)
    | inr (owner, found) ↦ ground (
      arith,
      follow_default-IsValid name s valid,
      follow_task-IsValid owner s valid (owner-is_live s.session name owner valid found),
    )
  ]

  -- The second half changes the remembered layout alone.
  remember_slot-SameButLayout :
      (rel : ℤ) (changed : Bool) (s : Env World)
      → SameButLayout s.session (remember_slot h rel changed s).1.session
  unfolding remember_slot
  remember_slot-SameButLayout rel changed s =
      let moved = record s {
        session = set_last_workspace (taskspace_key s.session) rel s.session;
      } in
      ground (arith, refresh-frame h s, refresh-frame h moved)

  remember_at-SameButLayout :
      (idx : Option ℕ) (changed : Bool) (s : Env World)
      → SameButLayout s.session (remember_at h idx changed s).1.session
  unfolding remember_at
  remember_at-SameButLayout none changed s = ground arith
  remember_at-SameButLayout (some i) changed s = remember_slot-SameButLayout (pos (suc i)) changed s

  follow_resolved-SameButLayout :
      (allowed : List Text) (resolved : Option Text) (changed : Bool) (s : Env World)
      → SameButLayout s.session (follow_resolved h allowed resolved changed s).1.session
  unfolding follow_resolved
  follow_resolved-SameButLayout allowed none changed s = ground arith
  follow_resolved-SameButLayout allowed (some name) changed s =
      remember_at-SameButLayout _ changed s

  follow_slot-SameButLayout :
      (name : Text) (changed : Bool) (s : Env World)
      → SameButLayout s.session (follow_slot h name changed s).1.session
  unfolding follow_slot
  follow_slot-SameButLayout name changed s = follow_resolved-SameButLayout _ _ changed s

  -- Synchronising a workspace name keeps the session valid.
  pub sync-IsValid :
      (name : Text) (s : Env World)
      → IsValid s.session
      → IsValid (sync_from_workspace_name h name s).1.session
  unfolding sync_from_workspace_name
  sync-IsValid name s valid =
      let followed = follow_owner h name s in
      let same = is_valid-SameButLayout (follow_slot-SameButLayout name followed.0 followed.1) in
      ground (arith, follow_owner-IsValid name s valid, same)
