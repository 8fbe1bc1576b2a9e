-- ===== src/Service/External.antt =====
-- crates/tsk-core/src/service.rs: where an external workspace event leads.
use hypr_taskspace.Prelude.{
  true, false, Option, none, some, ◌≡◌, refl, arith, ◌⊎◌, Bool-cases, inl, inr,
}
use hypr_taskspace.Prelude.Text.{Text, is_empty}
use hypr_taskspace.Models.{SessionState, taskspace_key}
use hypr_taskspace.Workspaces.{allowed_workspace_names, is_managed_workspace_name}
use hypr_taskspace.Config.{TskConfig}
use hypr_taskspace.Host.{System, Env, StateChangeKind, asked, taskspace, workspace}
use hypr_taskspace.ContextSync.{sync_from_workspace_name, taskspace_would_change}
use hypr_taskspace.ContextSync.Context.{context, context_of, sync-context, would_change-session}
use hypr_taskspace.SwitchGuard.{echo-session, should_ignore_external_revert}
use hypr_taskspace.Nav.Hotplug.{should_treat_as_monitor_hotplug, reconcile_monitor_topology}
use hypr_taskspace.Nav.Hotplug.Laws.{hotplug-session, reconcile-context}
use hypr_taskspace.Nav.Switch.{sync_taskspace_from_external}
use hypr_taskspace.Nav.Switch.Laws.{write_slot_cache-session}
use hypr_taskspace.Nav.Switch.External.{sync_external-context}
use hypr_taskspace.Service.{
  Daemon, write_runtime_files, announce, finish_commit, commit_state, follow_external,
  cross_taskspace, stay_in_taskspace, apply_fresh, apply_managed, apply_external_workspace,
}

managed-is_empty :
    (state : SessionState) (name : Text)
    → is_managed_workspace_name state name ≡ true
    → is_empty name ≡ false
unfolding is_managed_workspace_name
managed-is_empty state name h = ground arith

module _ (h : System) (config : TskConfig) where
  open h use {World}

  -- The taskspace stays, or it becomes the one that belongs to the workspace.
  abbrev StaysOrFollows : Text → SessionState → SessionState → Type 0
  StaysOrFollows name before after =
      (context after ≡ context before) ⊎ (context after ≡ context_of before name)

  announce-session :
      (change : Option StateChangeKind) (s : Env World)
      → (announce h config change s).1.session ≡ s.session
  unfolding announce
  announce-session none s = refl
  announce-session (some kind) s = refl

  pub write_runtime_files-session :
      (s : Env World) → (write_runtime_files h config s).1.session ≡ s.session
  unfolding write_runtime_files
  write_runtime_files-session s =
      let s1 = asked (h.write_context (taskspace_key s.session)) s in
      ground (arith, write_slot_cache-session h s1)

  -- Storing the session does not change it.
  pub commit_state-session :
      {A : Type 0} (change : Option StateChangeKind) (result : A) (d : Daemon World)
      → (commit_state h config change result d).1.env.session ≡ d.env.session
  unfolding commit_state finish_commit
  commit_state-session change result d =
      let s1 = asked h.can_save d.env in
      let s2 = (write_runtime_files h config s1).1 in
      ground (arith, write_runtime_files-session s1, announce-session change s2)

  follow_external-context :
      (name : Text) (d : Daemon World)
      → is_empty name ≡ false
      → StaysOrFollows name d.env.session (follow_external h config name d).1.env.session
  unfolding follow_external
  follow_external-context name d named =
      let allowed = allowed_workspace_names d.env.session in
      let key = taskspace_key d.env.session in
      let s1 = (sync_taskspace_from_external h name allowed key d.env).1 in
      ground (
        arith,
        sync_external-context h name allowed key d.env named,
        commit_state-session (some taskspace) true (record d { env = s1 }),
      )

  cross_taskspace-context :
      (name : Text) (d : Daemon World)
      → is_empty name ≡ false
      → StaysOrFollows name d.env.session (cross_taskspace h config name d).1.env.session
  unfolding cross_taskspace
  cross_taskspace-context name d named =
      let s1 = (should_treat_as_monitor_hotplug h name d.env).1 in
      let adopted = (reconcile_monitor_topology h s1).1 in
      let s2 = (should_ignore_external_revert h name s1).1 in
      ground (
        arith,
        hotplug-session h name d.env,
        reconcile-context h s1,
        commit_state-session (some workspace) true (record d { env = adopted }),
        echo-session h name s1,
        follow_external-context name (record d { env = s2 }) named,
      )

  stay_in_taskspace-context :
      (name : Text) (d : Daemon World)
      → is_empty name ≡ false
      → StaysOrFollows name d.env.session (stay_in_taskspace h config name d).1.env.session
  unfolding stay_in_taskspace
  stay_in_taskspace-context name d named =
      let s1 = (sync_from_workspace_name h name d.env).1 in
      ground (
        arith,
        sync-context h name d.env named,
        commit_state-session none true (record d { env = s1 }),
      )

  apply_fresh-context :
      (name : Text) (d : Daemon World)
      → is_empty name ≡ false
      → StaysOrFollows name d.env.session (apply_fresh h config name d).1.env.session
  unfolding apply_fresh
  apply_fresh-context name d named =
      let s1 = (taskspace_would_change h name d.env).1 in
      ground (
        arith,
        would_change-session h name d.env,
        cross_taskspace-context name (record d { env = s1 }) named,
        stay_in_taskspace-context name (record d { env = s1 }) named,
      )

  apply_managed-context :
      (name : Text) (d : Daemon World)
      → is_empty name ≡ false
      → StaysOrFollows name d.env.session (apply_managed h config name d).1.env.session
  unfolding apply_managed
  apply_managed-context name d named =
      let d1 = record d { env = asked h.active_workspace d.env } in
      ground (arith, apply_fresh-context name d1 named)

  -- An external workspace event leaves mode and current task as they were, or Hyprland is enabled,
  -- the workspace is a managed one, and they are then the ones that context_of gives for it,
  -- whatever the compositor answers and whether or not storing fails.
  pub external-context :
      (name : Text) (d : Daemon World)
      → (context (apply_external_workspace h config name d).1.env.session ≡ context d.env.session)
        ⊎ ((config.hyprland_enabled ≡ true)
            × (is_managed_workspace_name d.env.session name ≡ true)
            × (context (apply_external_workspace h config name d).1.env.session
                ≡ context_of d.env.session name))
  unfolding apply_external_workspace
  external-context name d = elim (Bool-cases config.hyprland_enabled) [
    | inl enabled ↦ elim (Bool-cases (is_managed_workspace_name d.env.session name)) [
      | inl managed ↦ rw enabled (
          rw managed (
            ground
              (arith, apply_managed-context name d (managed-is_empty d.env.session name managed))))
      | inr foreign ↦ rw enabled (rw foreign (inl refl))
    ]
    | inr disabled ↦ rw disabled (inl refl)
  ]
