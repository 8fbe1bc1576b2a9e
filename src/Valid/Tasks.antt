-- ===== src/Valid/Tasks.antt =====
-- crates/tsk-core/src/service.rs: switching to a task, restoring, renaming, deleting and creating one
-- keep the daemon safe.
use hypr_taskspace.Prelude.{
  ℕ, true, false, some, ◌≡◌, refl, arith, Bool-cases, Option-cases, inl, inr, ◌∙◌,
}
use hypr_taskspace.Prelude.Text.{Text, text_eq_iff}
use hypr_taskspace.Prelude.Dict.{get}
use hypr_taskspace.Models.{SessionState, Task, task, active, is_archived}
use hypr_taskspace.Config.{TskConfig}
use hypr_taskspace.Host.{System, asked}
use hypr_taskspace.ContextSync.{is_id}
use hypr_taskspace.Nav.Switch.{Outcome, set_taskspace}
use hypr_taskspace.TaskCleanup.Laws.{is_active_task_context-session, close_task_windows-session}
use hypr_taskspace.TaskCleanup.{
  is_active_task_context, start_task_container, stop_task_container, remove_task_container,
  close_task_windows, purge_task_windows, purge_task_session_keys,
}
use hypr_taskspace.Service.{Result, error, D, Daemon}
use hypr_taskspace.Service.Tasks.{
  unknown_task, put_task, change_task, default_slot, with_task, leave_taskspace, leave_task,
  restore_container, enter_restored, restore_entry, restore_archived, restore_task, reopen, rename,
  rename_found, rename_task, remove_entry, remove_left, delete_task, finish_switch, enter_switched,
  switch_live, switch_task, delete_entry,
}
use hypr_taskspace.Valid.{
  is_live, is_keyed-remove, is_at_home, is_valid, IsValid, insert-IsValid, remove-IsValid,
  current-is_live, entry-keyed, is_live-insert,
}
use hypr_taskspace.Valid.Nav.{switch-IsValid}
use hypr_taskspace.Valid.Daemon.{
  IsSafe, KeepsSafe, KeepsValid, pure-KeepsSafe, with_state-KeepsSafe,
}
use hypr_taskspace.Valid.Rules.{safe_rules, bind_get-KeepsSafe, option-KeepsSafe}

pub put_task-IsValid :
    (t : Task) (state : SessionState)
    → is_archived t.status ≡ false
    → IsValid state
    → IsValid (put_task t state)
put_task-IsValid t state live valid = insert-IsValid state t.id t valid refl (λ _. live)

current_entry-live :
    (state : SessionState) (id : Text) (t : Task)
    → IsValid state
    → is_id id state.current_task_id ≡ true
    → get state.tasks id ≡ some t
    → is_archived t.status ≡ false
unfolding is_live
current_entry-live state id t valid here found = elim (Option-cases state.current_task_id) [
  | inl nowhere ↦ ground arith
  | inr (current, at) ↦ ground (arith, text_eq_iff current id, current-is_live state id valid)
]

-- A change of an entry that keeps its id and does not archive it.
pub change_task-IsValid :
    (id : Text) (f : Task → Task) (state : SessionState)
    → ((t : Task) → (f t).id ≡ t.id)
    → ((t : Task) → is_archived t.status ≡ false → is_archived (f t).status ≡ false)
    → IsValid state
    → IsValid (change_task id f state)
unfolding change_task is_live
change_task-IsValid id f state same live valid = elim (Option-cases (get state.tasks id)) [
  | inl unknown ↦ ground arith
  | inr (t, found) ↦
      let kept =
        insert-IsValid state id (f t) valid (same t ∙ entry-keyed state id t valid found)
          (λ here. live t (current_entry-live state id t valid here found)) in
      ground arith
]

pub default_slot-IsValid :
    (id : Text) (state : SessionState) → IsValid state → IsValid (default_slot id state)
unfolding default_slot is_valid
default_slot-IsValid id state valid = ground arith

pub delete_entry-IsValid :
    (id : Text) (state : SessionState) → IsValid state → IsValid (delete_entry id state)
unfolding purge_task_session_keys purge_task_windows is_valid is_at_home
delete_entry-IsValid id state valid = elim (Bool-cases (is_id id state.current_task_id)) [
  | inl here ↦ ground (arith, is_keyed-remove state.tasks id)
  | inr elsewhere ↦ ground (arith, remove-IsValid state id valid elsewhere)
]

module _ (h : System) (config : TskConfig) where
  open h use {World}

  -- What follows may use the entry of the task.
  pub with_task-KeepsSafe :
      {A : Type 0} (id : Text) (op : Task → D World (Result A))
      → ((t : Task) → t.id ≡ id → KeepsSafe (op t))
      → KeepsSafe (with_task h config id op)
  unfolding with_task
  with_task-KeepsSafe id op k = with_state-KeepsSafe h config _ (
      bind_get-KeepsSafe _ (λ state valid.
        option-KeepsSafe (get state.tasks id) _ _ (pure-KeepsSafe (error (unknown_task id)))
          (λ t found. k t (entry-keyed state id t valid found))))

  finish_switch-KeepsSafe :
      (id : Text) (t : Task) (switched : Outcome) → KeepsSafe (finish_switch h config id t switched)
  unfolding finish_switch
  finish_switch-KeepsSafe id t switched = search (safe_rules, default_slot-IsValid) depth 8

  enter_switched-IsSafe :
      (id : Text) (t : Task) (d : Daemon World)
      → IsSafe d
      → is_live d.env.session.tasks id ≡ true
      → IsSafe (enter_switched h config id t d).1
  unfolding enter_switched
  enter_switched-IsSafe id t d safe live =
      let (switched, s) = set_taskspace h task (some id) d.env in
      (finish_switch-KeepsSafe id t switched).at (record d { env = s })
        (safe.0, switch-IsValid h id d.env safe.1 live)

  switch_live-KeepsSafe : (id : Text) (t : Task) → t.id ≡ id → KeepsSafe (switch_live h config id t)
  unfolding switch_live is_live
  switch_live-KeepsSafe id t same = record {
    at = λ d safe.
        let opened = record t { status = active; last_active_at = (h.now d.env.world).0 } in
        let state = put_task opened d.env.session in
        let d1 : Daemon World = record d { env = record (asked h.now d.env) { session = state } } in
        let valid = put_task-IsValid opened d.env.session refl safe.1 in
        let live : is_live state.tasks id ≡ true =
          ground (arith, is_live-insert d.env.session.tasks t.id opened id, text_eq_iff t.id id) in
        enter_switched-IsSafe id opened d1 (safe.0, valid) live;
  }

  pub switch_task-KeepsSafe : (id : Text) → KeepsSafe (switch_task h config id)
  unfolding switch_task
  switch_task-KeepsSafe id = search (safe_rules, with_task-KeepsSafe, switch_live-KeepsSafe)

  leave_taskspace-KeepsSafe : KeepsSafe (leave_taskspace h config)
  unfolding leave_taskspace
  leave_taskspace-KeepsSafe = search safe_rules depth 8

  active_context-KeepsValid : (t : Task) → KeepsValid (is_active_task_context h t)
  active_context-KeepsValid t = record {
    at = λ s valid. ground (arith, is_active_task_context-session h t s);
  }

  pub leave_task-KeepsSafe : (t : Task) → KeepsSafe (leave_task h config t)
  unfolding leave_task
  leave_task-KeepsSafe t = search (safe_rules, leave_taskspace-KeepsSafe, active_context-KeepsValid)

  start_container-KeepsValid : (t : Task) → KeepsValid (start_task_container h t)
  unfolding start_task_container
  start_container-KeepsValid t = record { at = λ s valid. ground arith }

  restore_container-KeepsSafe : (t : Task) → KeepsSafe (restore_container h config t)
  unfolding restore_container
  restore_container-KeepsSafe t = search (safe_rules, start_container-KeepsValid) depth 8

  enter_restored-KeepsSafe : (id : Text) → KeepsSafe (enter_restored h config id)
  unfolding enter_restored
  enter_restored-KeepsSafe id = search (safe_rules, switch_task-KeepsSafe) depth 8

  reopen-IsValid :
      (id : Text) (at : ℕ) (state : SessionState)
      → IsValid state
      → IsValid (change_task id (reopen at) state)
  reopen-IsValid id at state valid =
      change_task-IsValid id (reopen at) state (λ t. refl) (λ t live. refl) valid

  restore_entry-KeepsSafe : (id : Text) (t : Task) → KeepsSafe (restore_entry h config id t)
  unfolding restore_entry
  restore_entry-KeepsSafe id t =
      search (safe_rules, restore_container-KeepsSafe, enter_restored-KeepsSafe, reopen-IsValid)
        depth 8

  restore_archived-KeepsSafe : (id : Text) (t : Task) → KeepsSafe (restore_archived h config id t)
  unfolding restore_archived
  restore_archived-KeepsSafe id t = search (safe_rules, restore_entry-KeepsSafe) depth 8

  pub restore_task-KeepsSafe : (id : Text) → KeepsSafe (restore_task h config id)
  unfolding restore_task
  restore_task-KeepsSafe id = search (safe_rules, with_task-KeepsSafe, restore_archived-KeepsSafe)

  rename-IsValid :
      (id name : Text) (state : SessionState)
      → IsValid state
      → IsValid (change_task id (rename name) state)
  rename-IsValid id name state valid =
      change_task-IsValid id (rename name) state (λ t. refl) (λ t live. live) valid

  rename_found-KeepsSafe : (id name : Text) (t : Task) → KeepsSafe (rename_found h config id name t)
  unfolding rename_found
  rename_found-KeepsSafe id name t = search (safe_rules, rename-IsValid) depth 8

  pub rename_task-KeepsSafe :
      (trim : Text → Text) (id name : Text) → KeepsSafe (rename_task h config trim id name)
  unfolding rename_task
  rename_task-KeepsSafe trim id name =
      search (safe_rules, with_task-KeepsSafe, rename_found-KeepsSafe)

  close_windows-KeepsValid : (t : Task) → KeepsValid (close_task_windows h config t)
  close_windows-KeepsValid t = record {
    at = λ s valid. ground (arith, close_task_windows-session h config t s);
  }

  containers-KeepsValid :
      (t : Task) → KeepsValid (stop_task_container h t) × KeepsValid (remove_task_container h t)
  unfolding stop_task_container remove_task_container
  containers-KeepsValid t =
      (record { at = λ s valid. ground arith }, record { at = λ s valid. ground arith })

  remove_entry-KeepsSafe : (id : Text) (t : Task) → KeepsSafe (remove_entry h config id t)
  unfolding remove_entry
  remove_entry-KeepsSafe id t =
      search (safe_rules, containers-KeepsValid t, delete_entry-IsValid) depth 8

  remove_left-KeepsSafe : (id : Text) (t : Task) → KeepsSafe (remove_left h config id t)
  unfolding remove_left
  remove_left-KeepsSafe id t = search (safe_rules, close_windows-KeepsValid, remove_entry-KeepsSafe)

  pub delete_task-KeepsSafe : (id : Text) → KeepsSafe (delete_task h config id)
  unfolding delete_task
  delete_task-KeepsSafe id =
      search (safe_rules, with_task-KeepsSafe, leave_task-KeepsSafe, remove_left-KeepsSafe)
