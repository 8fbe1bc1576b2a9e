-- ===== src/ContextSync/Settle.antt =====
-- crates/tsk-core/src/context_sync.rs: once the session is in the context of a workspace, focusing the
-- workspace again changes no context.
use hypr_taskspace.Prelude.{
  ℕ, Bool, false, Option, none, some, ◌≡◌, refl, ap, ◌∙◌, arith, find, Bool-cases, Option-cases,
  inl, inr, List, [], ◌∷◌, suc, position,
}
use hypr_taskspace.Prelude.Text.{Text, text_eq, is_empty}
use hypr_taskspace.Prelude.Dict.{Dict, get, insert, values}
use hypr_taskspace.Models.{SessionState, Task}
use hypr_taskspace.Workspaces.{
  claims, task_for_workspace_name, is_default_taskspace_workspace_name, is_global_workspace_name,
}
use hypr_taskspace.Prelude.Int.{ℤ, pos}
use hypr_taskspace.Prelude.Text.{Text_eq}
use hypr_taskspace.Models.{taskspace_key}
use hypr_taskspace.Nav.Layout.{set_last_workspace}
use hypr_taskspace.Nav.Refresh.{refresh-frame}
use hypr_taskspace.Host.{System, Env}
use hypr_taskspace.ContextSync.{
  touch_active_task, is_global_visit, enter_task, sync_from_workspace_name, taskspace_would_change,
  follow_owner, follow_default, follow_task, touch_now, follow_slot, follow_resolved, remember_at,
  remember_slot,
}
use hypr_taskspace.ContextSync.Context.{context, context_of, sync-context, would_change_iff}

abbrev pub owner_id : Option Task → Option Text
owner_id none = none
owner_id (some t) = some t.id

-- A new time stamp of the task at an id changes no owner.
find-touched :
    (name id : Text) (m : Dict Task) (t : Task) (now : ℕ)
    → get m id ≡ some t
    → owner_id (find (claims name) (values (insert m id (record t { last_active_at = now }))))
      ≡ owner_id (find (claims name) (values m))
unfolding get insert claims
find-touched name id [] t now h = cc
find-touched name id ((j, u) ∷ m) t now h = elim (Bool-cases (text_eq j id)) [
  | inl same ↦ ground arith
  | inr other ↦ ground (arith, find-touched name id m t now)
]

pub owner-touched :
    (state : SessionState) (name : Text) (now : ℕ)
    → owner_id (task_for_workspace_name (touch_active_task now state) name)
      ≡ owner_id (task_for_workspace_name state name)
unfolding task_for_workspace_name touch_active_task
owner-touched state name now = elim (Option-cases state.current_task_id) [
  | inl nobody ↦ ground arith
  | inr (id, current) ↦ elim (Option-cases (get state.tasks id)) [
    | inl gone ↦ ground arith
    | inr (t, found) ↦ ground (arith, find-touched name id state.tasks t now found)
  ]
]

-- The context of a workspace is its own context.
pub context_of-settled :
    (state after : SessionState) (name : Text)
    → after.default_workspace_count ≡ state.default_workspace_count
    → after.global_workspace_slots ≡ state.global_workspace_slots
    → owner_id (task_for_workspace_name after name) ≡ owner_id (task_for_workspace_name state name)
    → context after ≡ context_of state name
    → context_of after name ≡ context after
unfolding context_of is_global_visit is_global_workspace_name
context_of-settled state after name count globals owner e = ground arith

-- Two sessions with the same tasks and the same slots.
pub record SameTable (a b : SessionState) : Type 0 where
  pub count : b.default_workspace_count ≡ a.default_workspace_count
  pub globals : b.global_workspace_slots ≡ a.global_workspace_slots
  pub tasks : b.tasks ≡ a.tasks

pub owner-SameTable :
    {a b : SessionState} (name : Text)
    → SameTable a b
    → task_for_workspace_name b name ≡ task_for_workspace_name a name
unfolding task_for_workspace_name
owner-SameTable name w = rw (w.count, w.tasks)

module _ (h : System) where
  open h use {World}

  remember_slot-SameTable :
      (rel : ℤ) (changed : Bool) (s : Env World)
      → SameTable s.session (remember_slot h rel changed s).1.session
  unfolding remember_slot
  remember_slot-SameTable rel changed s =
      let key = taskspace_key s.session in
      let moved = record s { session = set_last_workspace key rel s.session } in
      ground (arith, refresh-frame h s, refresh-frame h moved)

  follow_resolved-SameTable :
      (allowed : List Text) (resolved : Option Text) (changed : Bool) (s : Env World)
      → SameTable s.session (follow_resolved h allowed resolved changed s).1.session
  unfolding follow_resolved remember_at
  follow_resolved-SameTable allowed none changed s = ground arith
  follow_resolved-SameTable allowed (some name) changed s =
      elim (Option-cases (position allowed name)) [
        | inl absent ↦ ground arith
        | inr (i, place) ↦ ground (arith, remember_slot-SameTable (pos (suc i)) changed s)
      ]

  follow_slot-SameTable :
      (name : Text) (changed : Bool) (s : Env World)
      → SameTable s.session (follow_slot h name changed s).1.session
  unfolding follow_slot
  follow_slot-SameTable name changed s = follow_resolved-SameTable _ _ changed s

  follow_default-owner :
      (name : Text) (s : Env World)
      → owner_id (task_for_workspace_name (follow_default h name s).1.session name)
        ≡ owner_id (task_for_workspace_name s.session name)
  unfolding follow_default task_for_workspace_name
  follow_default-owner name s = ground arith

  follow_task-owner :
      (owner : Task) (name : Text) (s : Env World)
      → owner_id (task_for_workspace_name (follow_task h owner s).1.session name)
        ≡ owner_id (task_for_workspace_name s.session name)
  unfolding follow_task touch_now
  follow_task-owner owner name s =
      let clock = (h.now s.world).0 in
      let entered =
        owner-SameTable {a = s.session} {b = enter_task owner.id s.session} name
          (record { count = refl; globals = refl; tasks = refl }) in
      ground (arith, owner-touched (enter_task owner.id s.session) name clock, entered)

  follow_owner-owner :
      (name : Text) (s : Env World)
      → owner_id (task_for_workspace_name (follow_owner h name s).1.session name)
        ≡ owner_id (task_for_workspace_name s.session name)
  unfolding follow_owner
  follow_owner-owner name s =
      elim (Bool-cases
        (is_default_taskspace_workspace_name name s.session.default_workspace_count)) [
          | inl number ↦ ground (arith, follow_default-owner name s)
          | inr other ↦ elim (Option-cases (task_for_workspace_name s.session name)) [
            | inl nobody ↦ ground arith
            | inr (owner, found) ↦ ground (arith, follow_task-owner owner name s)
          ]
        ]

  follow_owner-slots :
      (name : Text) (s : Env World)
      → ((follow_owner h name s).1.session.default_workspace_count
          ≡ s.session.default_workspace_count)
        × ((follow_owner h name s).1.session.global_workspace_slots
            ≡ s.session.global_workspace_slots)
  unfolding follow_owner follow_default follow_task touch_now
  follow_owner-slots name s = ground arith

  -- Where a focused workspace has led, its own context is the one that the session is in.
  pub sync-settled :
      (name : Text) (s : Env World)
      → is_empty name ≡ false
      → context_of (sync_from_workspace_name h name s).1.session name
        ≡ context (sync_from_workspace_name h name s).1.session
  unfolding sync_from_workspace_name follow_owner
  sync-settled name s named =
      let followed = follow_owner h name s in
      let (count, globals) = follow_owner-slots name s in
      let table = follow_slot-SameTable name followed.0 followed.1 in
      let after = (sync_from_workspace_name h name s).1.session in
      let same : SameTable followed.1.session after = rw (named, sync_from_workspace_name) table in
      context_of-settled s.session after name (same.count ∙ count) (same.globals ∙ globals)
        (ap owner_id (owner-SameTable name same) ∙ follow_owner-owner name s)
        (sync-context h name s named)

  -- After a nonempty name was synchronised, the probe of the same name answers false.
  would_change-sync :
      (name : Text) (s : Env World)
      → is_empty name ≡ false
      → (taskspace_would_change h name (sync_from_workspace_name h name s).1).0 ≡ false
  would_change-sync name s named =
      let s1 = (sync_from_workspace_name h name s).1 in
      elim (Bool-cases (taskspace_would_change h name s1).0) [
        | inl changes ↦ absurd (
            (would_change_iff h name s1 named).0 changes
              (sync-context h name s1 named ∙ sync-settled name s named))
        | inr stays ↦ stays
      ]
