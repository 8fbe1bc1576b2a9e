-- ===== src/Valid/Reach.antt =====
-- crates/tsk-core/src/service.rs and daemon/server.rs: the daemons that the operations reach from an
-- empty database.
use hypr_taskspace.Prelude.{some, ◌≡◌, ◌≢◌, refl, arith, false, Option, none}
use hypr_taskspace.Prelude.Text.{Text, text_eq_iff}
use hypr_taskspace.Config.{TskConfig}
use hypr_taskspace.Host.{System}
use hypr_taskspace.Service.{Daemon}
use hypr_taskspace.Service.Steps.{
  empty_session, fresh, restart, meanwhile, Step, Reach, start, step, finish, again, outside,
  IsUndisturbed, on_initialize, on_prepare_archive, on_archive_teardown, on_sync_external_workspace,
  on_sync_monitor_topology, on_provision_default_workspaces, on_reset_navigation_layout,
  on_context_default, on_workspace_go, on_workspace_dispatch, on_remember_workspace_go,
  on_remember_workspace_goto, on_workspace_move_dispatch, on_workspace_next, on_workspace_prev,
  on_workspace_goto, on_restore_windows, on_sync_window_registry, on_create_task, on_switch_task,
  on_archive_task, on_restore_task, on_rename_task, on_delete_task, on_list_active_tasks,
  on_list_archived_tasks, on_resolve_task, on_archive_active_tasks_after_reboot,
}
use hypr_taskspace.Valid.{is_keyed, is_at_home, is_valid}
use hypr_taskspace.ContextSync.{is_id}
use hypr_taskspace.TaskCleanup.Laws.{run_archive_teardown-session}
use hypr_taskspace.Valid.Daemon.{IsSafe}
use hypr_taskspace.Valid.Events.{
  initialize-KeepsSafe, sync_external_workspace-KeepsSafe, sync_monitor_topology-KeepsSafe,
  provision_default_workspaces-KeepsSafe, reset_navigation_layout-KeepsSafe,
  context_default-KeepsSafe,
}
use hypr_taskspace.Valid.Keys.{
  workspace_go-KeepsSafe, workspace_dispatch-KeepsSafe, remember_workspace_go-KeepsSafe,
  remember_workspace_goto-KeepsSafe, workspace_move_dispatch-KeepsSafe, workspace_next-KeepsSafe,
  workspace_prev-KeepsSafe, workspace_goto-KeepsSafe, restore_windows-KeepsSafe,
  sync_window_registry-KeepsSafe,
}
use hypr_taskspace.Valid.Lifecycle.{
  create_task-KeepsSafe, list_active_tasks-KeepsSafe, list_archived_tasks-KeepsSafe,
  resolve_task-KeepsSafe, archive_after_reboot-KeepsSafe,
}
use hypr_taskspace.Valid.Tasks.{
  switch_task-KeepsSafe, restore_task-KeepsSafe, rename_task-KeepsSafe, delete_task-KeepsSafe,
}
use hypr_taskspace.Valid.Archive.{
  archive_task-KeepsSafe, prepare_archive-KeepsSafe, complete_archive-IsSafe,
}

is_id-other : (id : Text) (current : Option Text) → current ≢ some id → is_id id current ≡ false
is_id-other id none h = refl
is_id-other id (some other) h = ground (arith, text_eq_iff other id)

module _ (h : System) (config : TskConfig) where
  open h use {World}

  Step-IsSafe : {d after : Daemon World} → Step h config d after → IsSafe d → IsSafe after
  Step-IsSafe (on_initialize d) safe = (initialize-KeepsSafe h config).at d safe
  Step-IsSafe (on_sync_external_workspace name d) safe =
      (sync_external_workspace-KeepsSafe h config name).at d safe
  Step-IsSafe (on_sync_monitor_topology d) safe =
      (sync_monitor_topology-KeepsSafe h config).at d safe
  Step-IsSafe (on_provision_default_workspaces d) safe =
      (provision_default_workspaces-KeepsSafe h config).at d safe
  Step-IsSafe (on_reset_navigation_layout d) safe =
      (reset_navigation_layout-KeepsSafe h config).at d safe
  Step-IsSafe (on_context_default d) safe = (context_default-KeepsSafe h config).at d safe
  Step-IsSafe (on_workspace_go relative d) safe =
      (workspace_go-KeepsSafe h config relative).at d safe
  Step-IsSafe (on_workspace_dispatch relative d) safe =
      (workspace_dispatch-KeepsSafe h config relative).at d safe
  Step-IsSafe (on_remember_workspace_go relative d) safe =
      (remember_workspace_go-KeepsSafe h config relative).at d safe
  Step-IsSafe (on_remember_workspace_goto name d) safe =
      (remember_workspace_goto-KeepsSafe h config name).at d safe
  Step-IsSafe (on_workspace_move_dispatch relative d) safe =
      (workspace_move_dispatch-KeepsSafe h config relative).at d safe
  Step-IsSafe (on_workspace_next d) safe = (workspace_next-KeepsSafe h config).at d safe
  Step-IsSafe (on_workspace_prev d) safe = (workspace_prev-KeepsSafe h config).at d safe
  Step-IsSafe (on_workspace_goto name d) safe = (workspace_goto-KeepsSafe h config name).at d safe
  Step-IsSafe (on_restore_windows dry_run d) safe =
      (restore_windows-KeepsSafe h config dry_run).at d safe
  Step-IsSafe (on_sync_window_registry d) safe = (sync_window_registry-KeepsSafe h config).at d safe
  Step-IsSafe (on_create_task request d) safe = (create_task-KeepsSafe h config request).at d safe
  Step-IsSafe (on_switch_task task_id d) safe = (switch_task-KeepsSafe h config task_id).at d safe
  Step-IsSafe (on_archive_task task_id d) safe = (archive_task-KeepsSafe h config task_id).at d safe
  Step-IsSafe (on_prepare_archive task_id d) safe =
      (prepare_archive-KeepsSafe h config task_id).at d safe
  Step-IsSafe (on_archive_teardown t d) safe =
      let same = run_archive_teardown-session h config t d.env in ground (arith, same)
  Step-IsSafe (on_restore_task task_id d) safe = (restore_task-KeepsSafe h config task_id).at d safe
  Step-IsSafe (on_rename_task trim task_id name d) safe =
      (rename_task-KeepsSafe h config trim task_id name).at d safe
  Step-IsSafe (on_delete_task task_id d) safe = (delete_task-KeepsSafe h config task_id).at d safe
  Step-IsSafe (on_list_active_tasks d) safe = (list_active_tasks-KeepsSafe h config).at d safe
  Step-IsSafe (on_list_archived_tasks d) safe = (list_archived_tasks-KeepsSafe h config).at d safe
  Step-IsSafe (on_resolve_task name_or_id d) safe =
      (resolve_task-KeepsSafe h config name_or_id).at d safe
  Step-IsSafe (on_archive_active_tasks_after_reboot d) safe =
      (archive_after_reboot-KeepsSafe h config).at d safe

  fresh-IsSafe : (w : World) → IsSafe (fresh h config w)
  unfolding fresh empty_session is_valid is_keyed is_at_home
  fresh-IsSafe w = (refl, refl)

  -- In every daemon that the operations reach from an empty database, with the two halves of a
  -- request to archive a task as steps of their own, restarts and changes from outside in between,
  -- the stored session and the one at hand are valid: each task stands once and under its id, and
  -- the session is in default mode without a task or at a live task of the table. Condition:
  -- whenever the second half of archiving a task begins, the stored session is not at that task.
  pub Reach-IsSafe :
      {d : Daemon World} (reached : Reach h config d) → IsUndisturbed h config reached → IsSafe d
  unfolding restart fresh meanwhile IsUndisturbed
  Reach-IsSafe (start w) quiet = fresh-IsSafe w
  Reach-IsSafe (step reached s) quiet = Step-IsSafe s (Reach-IsSafe reached quiet)
  Reach-IsSafe (finish {d = d} id reached) (elsewhere, quiet) =
      complete_archive-IsSafe h config id d (Reach-IsSafe reached quiet)
        (is_id-other id d.stored.current_task_id elsewhere)
  Reach-IsSafe (again w reached) quiet = ((Reach-IsSafe reached quiet).0, (fresh-IsSafe w).1)
  Reach-IsSafe (outside w reached) quiet = Reach-IsSafe reached quiet
