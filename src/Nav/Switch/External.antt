-- ===== src/Nav/Switch/External.antt =====
-- crates/tsk-core/src/workspace_nav.rs: following a taskspace that the user entered by other means.
use hypr_taskspace.Prelude.{
  false, some, List, ◌≡◌, refl, arith, ◌⊎◌, Option-cases, Bool-cases, inl, inr,
}
use hypr_taskspace.Prelude.Text.{Text, is_empty}
use hypr_taskspace.Models.{SessionState, Task}
use hypr_taskspace.Workspaces.{
  is_default_taskspace_workspace_name, is_global_workspace_name, task_for_workspace_name,
}
use hypr_taskspace.Host.{System, Env}
use hypr_taskspace.ContextSync.{
  enter_default, enter_task, is_global_visit, touch_now, sync_from_workspace_name,
}
use hypr_taskspace.ContextSync.Context.{context, context_of, sync-context, touch-context}
use hypr_taskspace.ContextSync.Settle.{
  SameTable, owner-SameTable, context_of-settled, owner_id, owner-touched,
}
use hypr_taskspace.Nav.Layout.{capture_monitor_layout}
use hypr_taskspace.Nav.Switch.{
  Outcome, ok, err, capture_leaving, apply_context_from_workspace_name,
  sync_taskspace_from_external,
}
use hypr_taskspace.Nav.Switch.Laws.{capture_leaving-SameButLayout, restore_taskspace-SameButLayout}

-- Sessions with the same context and the same tables lead to the same context.
context_of-SameTable :
    {a b : SessionState} (name : Text)
    → SameTable a b
    → context b ≡ context a
    → context_of b name ≡ context_of a name
unfolding context_of is_global_visit is_global_workspace_name
context_of-SameTable name w same = ground (arith, w.count, w.globals, owner-SameTable name w)

pub Outcome-cases : (o : Outcome) → (o ≡ ok) ⊎ ((e : Text) × (o ≡ err e))
Outcome-cases ok = inl refl
Outcome-cases (err e) = inr (e, refl)

module _ (h : System) where
  open h use {World}

  capture_leaving-SameTable :
      (key : Text) (allowed : List Text) (s : Env World)
      → SameTable s.session (capture_leaving h key allowed s).1.session
  unfolding capture_leaving capture_monitor_layout
  capture_leaving-SameTable key allowed s = ground arith

  -- What the context is behind `apply_context_from_workspace_name`, and what stays.
  record Applied (name : Text) (outcome : Outcome) (s after : Env World) : Type 0 where
    pub arrives : outcome ≡ ok → context after.session ≡ context_of s.session name
    pub fails : (e : Text) → outcome ≡ err e → context after.session ≡ context s.session
    pub count : after.session.default_workspace_count ≡ s.session.default_workspace_count
    pub globals : after.session.global_workspace_slots ≡ s.session.global_workspace_slots
    pub owner :
        owner_id (task_for_workspace_name after.session name)
        ≡ owner_id (task_for_workspace_name s.session name)

  enter_task-Applied :
      (name : Text) (owner : Task) (s : Env World)
      → is_default_taskspace_workspace_name name s.session.default_workspace_count ≡ false
      → task_for_workspace_name s.session name ≡ some owner
      → Applied name
          (apply_context_from_workspace_name h name s).0
          s
          (apply_context_from_workspace_name h name s).1
  unfolding apply_context_from_workspace_name context_of touch_now
  enter_task-Applied name owner s other found =
      let clock = (h.now s.world).0 in
      let entered = enter_task owner.id s.session in
      let same =
        owner-SameTable {a = s.session} {b = entered} name
          (record { count = refl; globals = refl; tasks = refl }) in
      ground (arith, owner-touched entered name clock, touch-context clock entered, same)

  apply_context-Applied :
      (name : Text) (s : Env World)
      → Applied name
          (apply_context_from_workspace_name h name s).0
          s
          (apply_context_from_workspace_name h name s).1
  unfolding apply_context_from_workspace_name context_of
  apply_context-Applied name s =
      let left = enter_default s.session in
      let same =
        owner-SameTable {a = s.session} {b = left} name
          (record { count = refl; globals = refl; tasks = refl }) in
      elim (Bool-cases
        (is_default_taskspace_workspace_name name s.session.default_workspace_count)) [
          | inl number ↦ ground (arith, same)
          | inr other ↦ elim (Option-cases (task_for_workspace_name s.session name)) [
            | inl nobody ↦ ground arith
            | inr (owner, found) ↦ enter_task-Applied name owner s other found
          ]
        ]

  -- Following an external switch to a nonempty workspace name succeeds and arrives in the mode and
  -- task that context_of gives for it, or returns an error and leaves both as they were.
  pub sync_external-context :
      (name : Text) (old_allowed : List Text) (key : Text) (s : Env World)
      → is_empty name ≡ false
      → (((sync_taskspace_from_external h name old_allowed key s).0 ≡ ok)
          × (context (sync_taskspace_from_external h name old_allowed key s).1.session
              ≡ context_of s.session name))
        ⊎ ((e : Text) × ((sync_taskspace_from_external h name old_allowed key s).0 ≡ err e)
            × (context (sync_taskspace_from_external h name old_allowed key s).1.session
                ≡ context s.session))
  unfolding sync_taskspace_from_external
  sync_external-context name old_allowed key s named =
      let s1 = (capture_leaving h key old_allowed s).1 in
      let table = capture_leaving-SameTable key old_allowed s in
      let kept : context s1.session ≡ context s.session =
        ground (arith, capture_leaving-SameButLayout h key old_allowed s) in
      let same = context_of-SameTable name table kept in
      let applied = apply_context_from_workspace_name h name s1 in
      let w = apply_context-Applied name s1 in
      let s3 = (sync_from_workspace_name h name applied.1).1 in
      let settled : applied.0 ≡ ok → context_of applied.1.session name ≡ context applied.1.session =
        λ e.
          context_of-settled s1.session applied.1.session name w.count w.globals w.owner
            (w.arrives e) in
      let synced = sync-context h name applied.1 named in
      let restored = restore_taskspace-SameButLayout h old_allowed s3 in
      elim (Outcome-cases applied.0) [
        | inl success ↦ inl (ground arith, ground (arith, w.arrives success, settled success))
        | inr (e, failure) ↦ inr (e, ground arith, ground (arith, w.fails e failure))
      ]
