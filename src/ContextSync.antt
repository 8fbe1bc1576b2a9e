-- ===== src/ContextSync.antt =====
-- crates/tsk-core/src/context_sync.rs: the session follows the workspace that is focused.
pub mod Context
pub mod Settle
pub mod Laws
use hypr_taskspace.Prelude.{
  ℕ, suc, Bool, true, false, not, ◌&&◌, ◌||◌, Option, none, some, List, [], ◌∷◌, if◌then◌else◌,
  position, all, length, nat_eq,
}
use hypr_taskspace.Prelude.Int.{ℤ, pos, int_eq}
use hypr_taskspace.Prelude.Text.{Text, Text_eq, is_empty, text_eq}
use hypr_taskspace.Prelude.Dict.{Dict, get, insert, contains_key}
use hypr_taskspace.Models.{ContextMode, SessionState, Task, default, task, mode_eq, taskspace_key}
use hypr_taskspace.Workspaces.{
  allowed_workspace_names, is_default_taskspace_workspace_name, is_global_workspace_name,
  resolve_bar_workspace_name, task_for_workspace_name, is_some_and,
}
use hypr_taskspace.Host.{System, Env, M, ◌>>=◌, ◌>>◌, pure, get_session, modify, ask, skip}
use hypr_taskspace.Nav.Slots.{saved_slots}
use hypr_taskspace.Nav.Layout.{set_last_workspace}
use hypr_taskspace.Nav.Refresh.{refresh_monitor_slots}

abbrev pub is_some {ℓ} : {A : Type ℓ} → Option A → Bool
is_some o = is_some_and (λ _. true) o

-- `task_id.as_deref() == Some(id)`
abbrev pub is_id : Text → Option Text → Bool
is_id id none = false
is_id id (some other) = text_eq other id

-- `touch_active_task`: the time stamp of the task of the session.
unfoldable pub touch_active_task : ℕ → SessionState → SessionState
touch_active_task now state = elim state.current_task_id [
  | none ↦ state
  | some id ↦ elim (get state.tasks id) [
    | none ↦ state
    | some t ↦ record state { tasks = insert state.tasks id (record t { last_active_at = now }) }
  ]
]

-- Whether `touch_active_task` finds a task.
unfoldable pub has_active_task : SessionState → Bool
has_active_task state = elim state.current_task_id [
  | none ↦ false
  | some id ↦ contains_key state.tasks id
]

abbrev pub same_id : Option Text → Option Text → Bool
same_id none b = not (is_some b)
same_id (some id) b = is_id id b

-- In a task's taskspace a global workspace is a visit, not a change of context.
unfoldable pub is_global_visit : SessionState → Text → Bool
is_global_visit state name =
    mode_eq state.context_mode task
    && is_some state.current_task_id
    && is_global_workspace_name name state

abbrev pub enter_default : SessionState → SessionState
enter_default state = record state { context_mode = default; current_task_id = none }

abbrev pub enter_task : Text → SessionState → SessionState
enter_task id state = record state { context_mode = task; current_task_id = some id }

-- `last_workspace.get(&key).copied() != Some(rel)` is the negation of this.
abbrev pub is_slot : ℤ → Option ℤ → Bool
is_slot slot none = false
is_slot slot (some other) = int_eq other slot

-- `==` on maps: as many entries, and each of the first in the second.
abbrev pub same_slots : Dict ℤ → Dict ℤ → Bool
same_slots a b = nat_eq (length a) (length b) && all (λ (k, v). is_slot v (get b k)) a

-- Whether two sessions are in different taskspaces.
unfoldable pub context_differs : SessionState → SessionState → Bool
context_differs a b =
    not (mode_eq a.context_mode b.context_mode) || not (same_id a.current_task_id b.current_task_id)

module _ (h : System) where
  open h use {World, available, active_workspace, now}

  -- `touch_active_task` with its own reading of the clock, if the session has a task
  unfoldable pub touch_now : M World (Unit {0})
  unfolding touch_active_task
  touch_now = do
    state ← get_session
    let touch : M World (Unit {0}) = (do at ← ask now; modify (touch_active_task at))
    if has_active_task state then touch else skip

  -- The first half of `sync_from_workspace_name`: the context follows the owner of the workspace. The
  -- result is the flag `changed`.
  unfoldable pub follow_default : Text → M World Bool
  unfolding is_global_visit
  follow_default name = do
    state ← get_session
    let leaves =
        not (is_global_visit state name)
        && (not (mode_eq state.context_mode default) || is_some state.current_task_id)
    if leaves then (modify enter_default >> pure true) else pure false

  unfoldable pub follow_task : Task → M World Bool
  unfolding touch_now
  follow_task owner = do
    state ← get_session
    let moves = not (mode_eq state.context_mode task) || not (is_id owner.id state.current_task_id)
    if moves then (modify (enter_task owner.id) >> touch_now >> pure true) else pure false

  unfoldable pub follow_owner : Text → M World Bool
  follow_owner name = do
    state ← get_session
    let is_default = is_default_taskspace_workspace_name name state.default_workspace_count
    let other : M World Bool = elim (task_for_workspace_name state name) [
      | none ↦ pure false
      | some owner ↦ follow_task owner
    ]
    if is_default then follow_default name else other

  -- The second half: the slot of the workspace is remembered for the taskspace.
  unfoldable pub remember_slot : ℤ → Bool → M World Bool
  remember_slot rel changed = do
    state ← get_session
    let key = taskspace_key state
    let moved = not (is_slot rel (get state.last_workspace key))
    if moved then modify (set_last_workspace key rel) else skip
    before ← get_session
    refresh_monitor_slots h
    after ← get_session
    pure (changed || moved || not (same_slots (saved_slots before key) (saved_slots after key)))

  unfoldable pub remember_at : Option ℕ → Bool → M World Bool
  remember_at none changed = pure changed
  remember_at (some idx) changed = remember_slot (pos (suc idx)) changed

  unfoldable pub follow_resolved : List Text → Option Text → Bool → M World Bool
  follow_resolved allowed none changed = pure changed
  follow_resolved allowed (some resolved) changed = remember_at (position allowed resolved) changed

  unfoldable pub follow_slot : Text → Bool → M World Bool
  follow_slot name changed = do
    state ← get_session
    let allowed = allowed_workspace_names state
    follow_resolved allowed (resolve_bar_workspace_name name state allowed) changed

  unfoldable pub sync_from_workspace_name : Text → M World Bool
  sync_from_workspace_name name =
      let sync : M World Bool = (do changed ← follow_owner name; follow_slot name changed) in
      if is_empty name then pure false else sync

  -- `taskspace_would_change`: the change is made on a copy, which is thrown away.
  unfoldable pub taskspace_would_change : Text → M World Bool
  taskspace_would_change name =
      let probe : M World Bool = (do
        before ← get_session
        _ ← sync_from_workspace_name name
        after ← get_session
        modify (λ _. before)
        pure (context_differs after before)) in
      if is_empty name then pure false else probe

  unfoldable pub sync_from_active_workspace : M World Bool
  sync_from_active_workspace = do
    running ← ask available
    let sync : M World Bool = do
      active ← ask active_workspace
      elim active [
        | none ↦ pure false
        | some none ↦ pure false
        | some (some name) ↦ if is_empty name then pure false else sync_from_workspace_name name
      ]
    if running then sync else pure false
