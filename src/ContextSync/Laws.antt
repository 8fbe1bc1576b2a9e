-- ===== src/ContextSync/Laws.antt =====
-- crates/tsk-core/src/context_sync.rs: the slot that is remembered, and that a second synchronisation
-- changes no context.
use hypr_taskspace.Prelude.{
  ℕ, suc, ◌-◌, ◌≤◌, Bool, true, false, Option, none, some, ◌≡◌, sym, ap, ◌∙◌, arith, ◌++◌, position,
  Member, All,
}
use hypr_taskspace.Prelude.Int.{ℤ, pos, int_eq_iff}
use hypr_taskspace.Prelude.Text.{Text, Text_eq, is_empty, codes}
use hypr_taskspace.Prelude.Decimal.{u32_max}
use hypr_taskspace.Prelude.Dict.{get, values, get-insert_self}
use hypr_taskspace.Models.{SessionState, Task, task, taskspace_key, is_archived}
use hypr_taskspace.Workspaces.{
  allowed_workspace_names, resolve_bar_workspace_name, task_workspace_name,
}
use hypr_taskspace.Workspaces.Names.{current_name, get_elem?-allowed, position-allowed}
use hypr_taskspace.Workspaces.Bar.{resolve-task_workspace_name, is_default-task_workspace_name}
use hypr_taskspace.Workspaces.Owner.{NoDash, owner-task_workspace_name, task_name-ne-nil}
use hypr_taskspace.Host.{System, Env}
use hypr_taskspace.Nav.Refresh.{refresh-frame}
use hypr_taskspace.ContextSync.{
  is_slot, touch_now, follow_default, follow_task, follow_owner, follow_slot, follow_resolved,
  remember_at, remember_slot, sync_from_workspace_name,
}
use hypr_taskspace.ContextSync.Context.{
  Context, context, context_of, sync-context, follow_owner-context,
}

is_slot-eq : (slot : ℤ) (old : Option ℤ) → is_slot slot old ≡ true → old ≡ some slot
is_slot-eq slot none h = cc
is_slot-eq slot (some other) h = ap some ((int_eq_iff other slot).0 h)

key_of_context :
    (state : SessionState) (id : Text)
    → context state ≡ record { mode = task; task_id = some id }
    → taskspace_key state ≡ codes "task:" ++ id
unfolding taskspace_key
key_of_context state id e =
    let mode = ap (λ (c : Context). c.mode) e in
    let current = ap (λ (c : Context). c.task_id) e in ground arith

-- The workspaces of a live task lead to its context.
pub context_of-task :
    (state : SessionState) (t : Task) (n : ℕ)
    → All (λ u. NoDash u.id) (values state.tasks)
    → Member t (values state.tasks)
    → is_archived t.status ≡ false
    → context_of state (task_workspace_name t.id n) ≡ record { mode = task; task_id = some t.id }
unfolding context_of
context_of-task state t n plain m live =
    let (u, found, _, same, _) = owner-task_workspace_name state t n plain m live in
    let number = is_default-task_workspace_name t.id n state.default_workspace_count in ground arith

module _ (h : System) where
  open h use {World}

  -- Following the owner of a workspace keeps the configured slots and the remembered ones.
  follow_owner-frame :
      (name : Text) (s : Env World)
      → ((follow_owner h name s).1.session.default_workspace_count
          ≡ s.session.default_workspace_count)
        × ((follow_owner h name s).1.session.global_workspace_slots
            ≡ s.session.global_workspace_slots)
        × ((follow_owner h name s).1.session.last_workspace ≡ s.session.last_workspace)
  unfolding follow_owner follow_default follow_task touch_now
  follow_owner-frame name s = ground arith

  remember_slot-last_workspace :
      (rel : ℤ) (changed : Bool) (s : Env World)
      → get (remember_slot h rel changed s).1.session.last_workspace (taskspace_key s.session)
        ≡ some rel
  unfolding remember_slot
  remember_slot-last_workspace rel changed s =
      let key = taskspace_key s.session in
      ap (λ m. get m key) (refresh-frame h _).last_workspace
      ∙ ground (
        arith,
        is_slot-eq rel (get s.session.last_workspace key),
        get-insert_self s.session.last_workspace key rel,
      )

  -- A workspace at a place of the taskspace in which the program arrives makes this place the one that
  -- is remembered for the taskspace.
  sync-last_workspace :
      (name resolved : Text) (i : ℕ) (s : Env World)
      → is_empty name ≡ false
      → resolve_bar_workspace_name name
          (follow_owner h name s).1.session
          (allowed_workspace_names (follow_owner h name s).1.session)
        ≡ some resolved
      → position (allowed_workspace_names (follow_owner h name s).1.session) resolved ≡ some i
      → get
          (sync_from_workspace_name h name s).1.session.last_workspace
          (taskspace_key (follow_owner h name s).1.session)
        ≡ some (pos (suc i))
  unfolding sync_from_workspace_name follow_slot follow_resolved remember_at
  sync-last_workspace name resolved i s named found place =
      rw (named, sync_from_workspace_name, found, follow_resolved, place, remember_at)
        (remember_slot-last_workspace (pos (suc i)) (follow_owner h name s).0
          (follow_owner h name s).1)

  -- Focusing workspace n of a live task of the session leads to the task's taskspace and stores n
  -- as its last slot, from every session and whatever the compositor answers. Conditions: no task
  -- id has a dash, 1 ≤ n ≤ the slot count, and the count fits u32.
  pub sync-task_workspace :
      (s : Env World) (t : Task) (n : ℕ)
      → All (λ u. NoDash u.id) (values s.session.tasks)
      → Member t (values s.session.tasks)
      → is_archived t.status ≡ false
      → s.session.default_workspace_count ≤ u32_max
      → 1 ≤ n
      → n ≤ s.session.default_workspace_count
      → (context (sync_from_workspace_name h (task_workspace_name t.id n) s).1.session
          ≡ record { mode = task; task_id = some t.id })
        × (get
              (sync_from_workspace_name h (task_workspace_name t.id n) s).1.session.last_workspace
              (codes "task:" ++ t.id)
            ≡ some (pos n))
  sync-task_workspace s t n plain m live fits low high =
      let name = task_workspace_name t.id n in
      let there = context_of-task s.session t n plain m live in
      let after = (follow_owner h name s).1.session in
      let (count, globals, _) = follow_owner-frame name s in
      let fits' : after.default_workspace_count ≤ u32_max = rw count fits in
      let high' : n ≤ after.default_workspace_count = rw count high in
      let found = resolve-task_workspace_name after t.id n fits' low high' in
      let next : suc (n - 1) ≡ n = omega arith in
      let listed = rw next at (get_elem?-allowed after (n - 1) (omega arith)) in
      let place = position-allowed after (n - 1) (current_name after n) fits' listed in
      let key = key_of_context after t.id (follow_owner-context h name s ∙ there) in
      let slot =
        sync-last_workspace name (current_name after n) (n - 1) s (task_name-ne-nil t.id n) found
          place in
      (
        sync-context h name s (task_name-ne-nil t.id n) ∙ there,
        ap (λ k. get (sync_from_workspace_name h name s).1.session.last_workspace k) (sym key)
            ∙ slot
            ∙ ap (λ k. some (pos k)) next,
      )
