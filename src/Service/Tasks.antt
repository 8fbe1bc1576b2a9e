-- ===== src/Service/Tasks.antt =====
-- crates/tsk-core/src/service.rs: switching to a task, archiving, restoring, renaming and deleting it.
use hypr_taskspace.Prelude.{
  ℕ, Bool, true, false, not, Option, none, some, ◌++◌, if◌then◌else◌, filter, any,
}
use hypr_taskspace.Prelude.Int.{pos}
use hypr_taskspace.Prelude.Text.{Text, codes, text_eq, is_empty, eq_ignore_ascii_case}
use hypr_taskspace.Prelude.Dict.{get, insert, remove, contains_key, values}
use hypr_taskspace.Models.{SessionState, Task, active, archived, default, task, is_archived}
use hypr_taskspace.Config.{TskConfig}
use hypr_taskspace.TaskCleanup.{
  task_data_dir, is_active_task_context, close_task_windows, start_task_container,
  stop_task_container, remove_task_container, purge_task_windows, purge_task_session_keys,
  run_archive_teardown,
}
use hypr_taskspace.Host.{
  System, taskspace, full, ◌>>=◌, ◌>>◌, pure, get_session, modify, ask, act, skip,
}
use hypr_taskspace.Nav.Switch.{Outcome, set_taskspace}
use hypr_taskspace.Service.{
  on_option, on_outcome, Result, done, error, failed, D, lift, and_then, with_state, commit_state,
}

abbrev pub unknown_task : Text → Text
unknown_task task_id = codes "Unknown task: " ++ task_id

abbrev pub put_task : Task → SessionState → SessionState
put_task t state = record state { tasks = insert state.tasks t.id t }

-- `tasks.get_mut(task_id)` with a change of the entry
unfoldable pub change_task : Text → (Task → Task) → SessionState → SessionState
change_task task_id change state = elim (get state.tasks task_id) [
  | none ↦ state
  | some t ↦ record state { tasks = insert state.tasks task_id (change t) }
]

-- `last_workspace.entry(key).or_insert(1)`
unfoldable pub default_slot : Text → SessionState → SessionState
default_slot task_id state =
    let key = codes "task:" ++ task_id in
    if contains_key state.last_workspace key
    then state
    else record state { last_workspace = insert state.last_workspace key (pos 1) }

unfoldable pub active_task_name_taken : SessionState → Text → Option Text → Bool
active_task_name_taken state name exclude_id =
    let others : Task → Bool =
      λ t. elim exclude_id [ none ↦ true | some id ↦ not (text_eq t.id id) ] in
    let named : Task → Bool = λ t. eq_ignore_ascii_case t.name name in
    any named (filter others (filter (λ t. not (is_archived t.status)) (values state.tasks)))

abbrev pub reopen : ℕ → Task → Task
reopen at t = record t { status = active; last_active_at = at; listed_at = at }

-- What archiving, renaming and deleting change in the session.
abbrev pub archive_entry : Text → SessionState → SessionState
archive_entry task_id state =
    change_task task_id (λ t. record t { status = archived }) (purge_task_windows task_id state)

abbrev pub rename : Text → Task → Task
rename name t = record t { name = name }

abbrev pub delete_entry : Text → SessionState → SessionState
delete_entry task_id state =
    let purged = purge_task_session_keys task_id (purge_task_windows task_id state) in
    record purged { tasks = remove purged.tasks task_id }

module _ (h : System) (config : TskConfig) where
  open h use {
    World, now, capture_browser, data_dir_exists, reattach_checkout, container_exists,
    create_container, run_on_restore, remove_checkout, remove_data_dir,
  }

  -- `state.tasks.get(task_id).cloned().ok_or_else(…)?`
  unfoldable pub with_task : {A : Type 0} → Text → (Task → D World (Result A)) → D World (Result A)
  with_task task_id op = with_state h config (do
    state ← lift get_session
    on_option (get state.tasks task_id) (pure (error (unknown_task task_id))) (λ t. op t))

  unfoldable pub leave_taskspace : D World (Result (Unit {0}))
  leave_taskspace = do
    switched ← lift (set_taskspace h default none)
    on_outcome switched (commit_state h config (some taskspace) tt) (λ e. pure (error e))

  -- The default taskspace is entered if the session is at the task.
  unfoldable pub leave_task : Task → D World (Result (Unit {0}))
  unfolding leave_taskspace
  leave_task t = do
    was_current ← lift (is_active_task_context h t)
    if was_current then leave_taskspace else pure (done tt)

  unfoldable pub finish_switch : Text → Task → Outcome → D World (Result Task)
  finish_switch task_id t switched =
      let keep : D World (Result Task) = (do
        lift (modify (default_slot task_id))
        commit_state h config (some taskspace) t) in
      on_outcome switched keep (λ e. pure (error e))

  unfoldable pub enter_switched : Text → Task → D World (Result Task)
  unfolding finish_switch
  enter_switched task_id t = do
    switched ← lift (set_taskspace h task (some task_id))
    finish_switch task_id t switched

  unfoldable pub switch_live : Text → Task → D World (Result Task)
  unfolding enter_switched
  switch_live task_id t = do
    at ← lift (ask now)
    let opened = record t { status = active; last_active_at = at }
    lift (modify (put_task opened))
    enter_switched task_id opened

  unfoldable pub switch_task : Text → D World (Result Task)
  unfolding with_task switch_live
  switch_task task_id = with_task task_id (λ t.
      if is_archived t.status
      then pure (error (codes "Task is archived: " ++ task_id))
      else switch_live task_id t)

  unfoldable pub leave_for_archive : Task → D World (Result Task)
  unfolding leave_task
  leave_for_archive t = do
    lift (act (capture_browser t))
    left ← leave_task t
    and_then left (λ _. pure (done t))

  unfoldable pub prepare_archive : Text → D World (Result Task)
  unfolding with_task leave_for_archive
  prepare_archive task_id = with_task task_id (λ t.
      if is_archived t.status
      then pure (error (codes "Task is already archived: " ++ task_id))
      else leave_for_archive t)

  unfoldable pub complete_archive : Text → D World (Result (Unit {0}))
  unfolding with_task
  complete_archive task_id =
      with_task task_id
        (λ _. do lift (modify (archive_entry task_id)); commit_state h config (some full) tt)

  unfoldable pub tear_down : Text → Task → D World (Result (Unit {0}))
  unfolding complete_archive
  tear_down task_id t = do
    closed ← lift (run_archive_teardown h config t)
    if closed then complete_archive task_id else pure failed

  unfoldable pub archive_task : Text → D World (Result (Unit {0}))
  unfolding prepare_archive tear_down
  archive_task task_id = do
    prepared ← prepare_archive task_id
    and_then prepared (tear_down task_id)

  -- Errors of the container are only logged.
  unfoldable pub restore_container : Task → D World (Unit {0})
  restore_container t = do
    exists ← lift (ask (container_exists t.container_name))
    created ← (if exists then pure true else lift (ask (create_container t.container_name)))
    lift (start_task_container h t)

  unfoldable pub enter_restored : Text → D World (Result (Unit {0}))
  unfolding switch_task
  enter_restored task_id = do
    switched ← switch_task task_id
    and_then switched (λ t. with_state h config (do lift (act (run_on_restore t)); pure (done tt)))

  unfoldable pub restore_entry : Text → Task → D World (Result (Unit {0}))
  unfolding restore_container enter_restored
  restore_entry task_id t = do
    if t.container_isolation then restore_container t else skip
    at ← lift (ask now)
    lift (modify (change_task task_id (reopen at)))
    stored ← commit_state h config (some full) tt
    and_then stored (λ _. enter_restored task_id)

  unfoldable pub restore_archived : Text → Task → D World (Result (Unit {0}))
  unfolding restore_entry
  restore_archived task_id t = do
    exists ← lift (ask (data_dir_exists task_id))
    attached ← (if exists then lift (ask (reattach_checkout t)) else pure false)
    if exists
        then (if attached then restore_entry task_id t else pure failed)
        else pure (error (codes "Task data directory is missing: " ++ task_data_dir config task_id))

  unfoldable pub restore_task : Text → D World (Result (Unit {0}))
  unfolding with_task restore_archived
  restore_task task_id = with_task task_id (λ t.
      if is_archived t.status
      then restore_archived task_id t
      else pure (error (codes "Task is not archived: " ++ task_id)))

  unfoldable pub rename_found : Text → Text → Task → D World (Result Task)
  rename_found task_id name t = do
    state ← lift get_session
    let rename_entry : D World (Result Task) = (do
      lift (modify (change_task task_id (rename name)))
      commit_state h config (some full) (rename name t))
    if text_eq t.name name
        then pure (done t)
        else if active_task_name_taken state name (some task_id)
        then pure (error (codes "Another active task is already named \"" ++ name ++ codes "\""))
        else rename_entry

  -- Rust's `trim` is a parameter.
  unfoldable pub rename_task : (Text → Text) → Text → Text → D World (Result Task)
  unfolding with_task rename_found
  rename_task trim task_id new_name =
      let name = trim new_name in
      if is_empty name
      then pure (error (codes "Task name cannot be empty"))
      else with_task task_id (rename_found task_id name)

  unfoldable pub remove_entry : Text → Task → D World (Result (Unit {0}))
  remove_entry task_id t = do
    lift (stop_task_container h t)
    lift (remove_task_container h t)
    lift (act (remove_checkout t))
    lift (act (remove_data_dir t))
    lift (modify (delete_entry task_id))
    commit_state h config (some full) tt

  -- The windows are closed first; if that fails the task stays.
  unfoldable pub remove_left : Text → Task → D World (Result (Unit {0}))
  unfolding remove_entry
  remove_left task_id t = do
    closed ← lift (close_task_windows h config t)
    on_option closed (pure failed) (λ n. remove_entry task_id t)

  unfoldable pub delete_task : Text → D World (Result (Unit {0}))
  unfolding with_task leave_task remove_left
  delete_task task_id =
      with_task task_id (λ t. do left ← leave_task t; and_then left (λ _. remove_left task_id t))
