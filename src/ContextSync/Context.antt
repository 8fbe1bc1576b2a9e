-- ===== src/ContextSync/Context.antt =====
-- crates/tsk-core/src/context_sync.rs: the context that a workspace name leads to, and that the
-- program arrives there whatever the compositor answers.
use hypr_taskspace.Prelude.{
  ℕ, suc, Bool, true, false, Option, none, some, ◌≡◌, ◌≢◌, ◌↔◌, refl, ap, ◌∙◌, arith, if◌then◌else◌,
  Bool-cases, Option-cases, inl, inr, List,
}
use hypr_taskspace.Prelude.Text.{Text, is_empty, text_eq_iff}
use hypr_taskspace.Models.{ContextMode, SessionState, Task, default, task, mode_eq}
use hypr_taskspace.Workspaces.{is_default_taskspace_workspace_name, task_for_workspace_name}
use hypr_taskspace.Prelude.Int.{ℤ, pos}
use hypr_taskspace.Models.{taskspace_key}
use hypr_taskspace.Nav.Layout.{set_last_workspace}
use hypr_taskspace.Host.{System, Env}
use hypr_taskspace.Nav.Refresh.{refresh-frame}
use hypr_taskspace.ContextSync.{
  same_id, touch_active_task, is_global_visit, enter_task, touch_now, follow_default, remember_at,
  follow_resolved, follow_task, follow_owner, follow_slot, remember_slot, sync_from_workspace_name,
  context_differs, taskspace_would_change,
}

pub record Context : Type 0 where
  pub mode : ContextMode
  pub task_id : Option Text

abbrev pub context : SessionState → Context
context state = record { mode = state.context_mode; task_id = state.current_task_id }

-- The context that belongs to a workspace: the default one, its owner's, or the present one for a
-- visit of a global workspace and for a workspace of nobody.
unfoldable pub context_of : SessionState → Text → Context
context_of state name =
    if is_default_taskspace_workspace_name name state.default_workspace_count
    then (if is_global_visit state name
        then context state
        else record { mode = default; task_id = none })
    else elim (task_for_workspace_name state name) [
      | none ↦ context state
      | some owner ↦ record { mode = task; task_id = some owner.id }
    ]

pub mode_eq_iff : (a b : ContextMode) → (mode_eq a b ≡ true) ↔ (a ≡ b)
mode_eq_iff a b = ground arith

pub same_id_iff : (a b : Option Text) → (same_id a b ≡ true) ↔ (a ≡ b)
same_id_iff none none = ground arith
same_id_iff none (some y) = ground arith
same_id_iff (some x) none = ground arith
same_id_iff (some x) (some y) = ground (arith, text_eq_iff y x)

pub same_context : (a b : SessionState) → context_differs a b ≡ false → context a ≡ context b
unfolding context_differs
same_context a b h = ground (
  arith,
  mode_eq_iff a.context_mode b.context_mode,
  same_id_iff a.current_task_id b.current_task_id,
)

same_context-differs : (a b : SessionState) → context a ≡ context b → context_differs a b ≡ false
unfolding context_differs
same_context-differs a b e =
    let mode = (mode_eq_iff a.context_mode b.context_mode).1 (ap (λ (c : Context). c.mode) e) in
    let id =
      (same_id_iff a.current_task_id b.current_task_id).1 (ap (λ (c : Context). c.task_id) e) in
    rw (mode, id)

context_differs_iff : (a b : SessionState) → (context_differs a b ≡ true) ↔ (context a ≢ context b)
context_differs_iff a b = (
  λ h e. let same = same_context-differs a b e in cc,
  λ ne. elim (Bool-cases (context_differs a b)) [
    | inl differs ↦ differs
    | inr same ↦ absurd (ne (same_context a b same))
  ],
)

pub touch-context :
    (now : ℕ) (state : SessionState) → context (touch_active_task now state) ≡ context state
unfolding touch_active_task
touch-context now state = ground arith

module _ (h : System) where
  open h use {World}

  follow_default-context :
      (name : Text) (s : Env World)
      → is_default_taskspace_workspace_name name s.session.default_workspace_count ≡ true
      → context (follow_default h name s).1.session ≡ context_of s.session name
  unfolding follow_default context_of
  follow_default-context name s d = ground arith

  follow_task-context :
      (owner : Task) (s : Env World)
      → context (follow_task h owner s).1.session ≡ record { mode = task; task_id = some owner.id }
  unfolding follow_task touch_now
  follow_task-context owner s =
      let clock = (h.now s.world).0 in
      let stays = same_id_iff (some owner.id) s.session.current_task_id in
      ground (
        arith,
        touch-context clock (enter_task owner.id s.session),
        mode_eq_iff s.session.context_mode task,
        stays,
      )

  -- The first half of the synchronisation arrives in the context of the workspace.
  pub follow_owner-context :
      (name : Text) (s : Env World)
      → context (follow_owner h name s).1.session ≡ context_of s.session name
  unfolding follow_owner context_of
  follow_owner-context name s =
      elim (Bool-cases
        (is_default_taskspace_workspace_name name s.session.default_workspace_count)) [
          | inl number ↦ ground (arith, follow_default-context name s number)
          | inr other ↦ elim (Option-cases (task_for_workspace_name s.session name)) [
            | inl nobody ↦ ground arith
            | inr (owner, found) ↦ ground (arith, follow_task-context owner s)
          ]
        ]

  remember_slot-context :
      (rel : ℤ) (changed : Bool) (s : Env World)
      → context (remember_slot h rel changed s).1.session ≡ context s.session
  unfolding remember_slot
  remember_slot-context rel changed s =
      let key = taskspace_key s.session in
      let moved = record s { session = set_last_workspace key rel s.session } in
      ground (arith, refresh-frame h s, refresh-frame h moved)

  remember_at-context :
      (idx : Option ℕ) (changed : Bool) (s : Env World)
      → context (remember_at h idx changed s).1.session ≡ context s.session
  unfolding remember_at
  remember_at-context none changed s = refl
  remember_at-context (some i) changed s = remember_slot-context (pos (suc i)) changed s

  follow_resolved-context :
      (allowed : List Text) (resolved : Option Text) (changed : Bool) (s : Env World)
      → context (follow_resolved h allowed resolved changed s).1.session ≡ context s.session
  unfolding follow_resolved
  follow_resolved-context allowed none changed s = refl
  follow_resolved-context allowed (some name) changed s = remember_at-context _ changed s

  follow_slot-context :
      (name : Text) (changed : Bool) (s : Env World)
      → context (follow_slot h name changed s).1.session ≡ context s.session
  unfolding follow_slot
  follow_slot-context name changed s = follow_resolved-context _ _ changed s

  -- After a nonempty workspace name is synchronised, mode and task are the ones that context_of
  -- gives for the name in the session before, whatever the compositor answers.
  pub sync-context :
      (name : Text) (s : Env World)
      → is_empty name ≡ false
      → context (sync_from_workspace_name h name s).1.session ≡ context_of s.session name
  unfolding sync_from_workspace_name
  sync-context name s named =
      let followed = follow_owner h name s in
      rw (named, sync_from_workspace_name)
        (follow_slot-context name followed.0 followed.1 ∙ follow_owner-context name s)

  -- For a nonempty name the probe answers true exactly if synchronising the name would change the
  -- mode or the current task.
  pub would_change_iff :
      (name : Text) (s : Env World)
      → is_empty name ≡ false
      → ((taskspace_would_change h name s).0 ≡ true)
        ↔ (context (sync_from_workspace_name h name s).1.session ≢ context s.session)
  unfolding taskspace_would_change
  would_change_iff name s named =
      let after = (sync_from_workspace_name h name s).1.session in
      let result : (taskspace_would_change h name s).0 ≡ context_differs after s.session =
        ground arith in
      rw result (context_differs_iff after s.session)

  -- And it leaves the session as it was.
  pub would_change-session :
      (name : Text) (s : Env World) → (taskspace_would_change h name s).1.session ≡ s.session
  unfolding taskspace_would_change
  would_change-session name s = ground arith
