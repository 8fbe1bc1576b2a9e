-- ===== src/Service/Steps.antt =====
-- crates/tsk-core/src/service.rs and daemon/server.rs: the operations as steps of the daemon. The
-- daemon's lock puts them in some order; a step is what happens under one hold of the lock. A request
-- to archive a task holds it twice; the teardown in between, without the lock, is a step too. The
-- service's `archive_task`, which the archive after a reboot calls, does all three at once.
use hypr_taskspace.Prelude.{Bool, [], ◌∷◌, none, some, ◌≢◌}
use hypr_taskspace.Prelude.Int.{ℤ, pos}
use hypr_taskspace.Prelude.Text.{Text, codes}
use hypr_taskspace.Models.{SessionState, Task, default}
use hypr_taskspace.Config.{TskConfig}
use hypr_taskspace.Host.{System}
use hypr_taskspace.Service.{sync_external_workspace, Daemon}
use hypr_taskspace.Service.Workspaces.{
  initialize, sync_monitor_topology, provision_default_workspaces, reset_navigation_layout,
  context_default,
}
use hypr_taskspace.Service.Keys.{
  workspace_go, workspace_dispatch, remember_workspace_go, remember_workspace_goto,
  workspace_move_dispatch, workspace_next, workspace_prev, workspace_goto, restore_windows,
  sync_window_registry,
}
use hypr_taskspace.Service.Tasks.{
  switch_task, prepare_archive, complete_archive, archive_task, restore_task, rename_task,
  delete_task,
}
use hypr_taskspace.TaskCleanup.{run_archive_teardown}
use hypr_taskspace.Service.Queries.{list_active_tasks, list_archived_tasks, resolve_task}
use hypr_taskspace.Service.Create.{create_task, NewTask}
use hypr_taskspace.Service.Reboot.{archive_active_tasks_after_reboot}

-- The session that is loaded from a new database: `Registry::init_db` stores slot 1 for the default
-- taskspace.
unfoldable pub empty_session : TskConfig → SessionState
empty_session config = record {
  context_mode = default;
  current_task_id = none;
  last_workspace = (codes "default", pos 1) ∷ [];
  last_monitor_workspace = [];
  default_workspace_count = config.default_workspace_count;
  global_workspace_slots = config.global_workspace_slots;
  tasks = [];
  windows = [];
}

module _ (h : System) (config : TskConfig) where
  open h use {World}

  -- An operation of the service, from the daemon before it to the one after it.
  pub data Step : Daemon World → Daemon World → Type 0 where
    on_initialize : (d : Daemon World) → Step d (initialize h config d).1
    on_sync_external_workspace :
        (name : Text) (d : Daemon World) → Step d (sync_external_workspace h config name d).1
    on_sync_monitor_topology : (d : Daemon World) → Step d (sync_monitor_topology h config d).1
    on_provision_default_workspaces :
        (d : Daemon World) → Step d (provision_default_workspaces h config d).1
    on_reset_navigation_layout : (d : Daemon World) → Step d (reset_navigation_layout h config d).1
    on_context_default : (d : Daemon World) → Step d (context_default h config d).1
    on_workspace_go :
        (relative : ℤ) (d : Daemon World) → Step d (workspace_go h config relative d).1
    on_workspace_dispatch :
        (relative : ℤ) (d : Daemon World) → Step d (workspace_dispatch h config relative d).1
    on_remember_workspace_go :
        (relative : ℤ) (d : Daemon World) → Step d (remember_workspace_go h config relative d).1
    on_remember_workspace_goto :
        (name : Text) (d : Daemon World) → Step d (remember_workspace_goto h config name d).1
    on_workspace_move_dispatch :
        (relative : ℤ) (d : Daemon World) → Step d (workspace_move_dispatch h config relative d).1
    on_workspace_next : (d : Daemon World) → Step d (workspace_next h config d).1
    on_workspace_prev : (d : Daemon World) → Step d (workspace_prev h config d).1
    on_workspace_goto : (name : Text) (d : Daemon World) → Step d (workspace_goto h config name d).1
    on_restore_windows :
        (dry_run : Bool) (d : Daemon World) → Step d (restore_windows h config dry_run d).1
    on_sync_window_registry : (d : Daemon World) → Step d (sync_window_registry h config d).1
    on_create_task :
        (request : NewTask) (d : Daemon World) → Step d (create_task h config request d).1
    on_switch_task : (task_id : Text) (d : Daemon World) → Step d (switch_task h config task_id d).1
    on_archive_task :
        (task_id : Text) (d : Daemon World) → Step d (archive_task h config task_id d).1
    on_prepare_archive :
        (task_id : Text) (d : Daemon World) → Step d (prepare_archive h config task_id d).1
    on_archive_teardown :
        (t : Task) (d : Daemon World)
        → Step d (record d { env = (run_archive_teardown h config t d.env).1 })
    on_restore_task :
        (task_id : Text) (d : Daemon World) → Step d (restore_task h config task_id d).1
    on_rename_task :
        (trim : Text → Text) (task_id name : Text) (d : Daemon World)
        → Step d (rename_task h config trim task_id name d).1
    on_delete_task : (task_id : Text) (d : Daemon World) → Step d (delete_task h config task_id d).1
    on_list_active_tasks : (d : Daemon World) → Step d (list_active_tasks h config d).1
    on_list_archived_tasks : (d : Daemon World) → Step d (list_archived_tasks h config d).1
    on_resolve_task :
        (name_or_id : Text) (d : Daemon World) → Step d (resolve_task h config name_or_id d).1
    on_archive_active_tasks_after_reboot :
        (d : Daemon World) → Step d (archive_active_tasks_after_reboot h config d).1

  -- A daemon with an empty database.
  unfoldable pub fresh : World → Daemon World
  fresh w = record {
    env = record { session = empty_session config; world = w; recent = none; hotplug_at = none };
    stored = empty_session config;
  }

  -- A daemon that is started again keeps the database alone.
  unfoldable pub restart : World → Daemon World → Daemon World
  restart w d = record (fresh w) { stored = d.stored }

  -- Something happens outside: windows, monitors and files are changed.
  unfoldable pub meanwhile : World → Daemon World → Daemon World
  meanwhile w d = record d { env = record d.env { world = w } }

  -- The daemons that are reached from an empty database. `finish` is the second half of a request to
  -- archive a task, after any steps since the first half.
  pub data Reach : Daemon World → Type 0 where
    start : (w : World) → Reach (fresh w)
    step : {d after : Daemon World} → Reach d → Step d after → Reach after
    finish :
        {d : Daemon World} (task_id : Text)
        → Reach d
        → Reach (complete_archive h config task_id d).1
    again : {d : Daemon World} (w : World) → Reach d → Reach (restart w d)
    outside : {d : Daemon World} (w : World) → Reach d → Reach (meanwhile w d)

  -- Whenever the second half of archiving a task begins, the stored session is not at that task.
  unfoldable pub IsUndisturbed : {d : Daemon World} → Reach d → Type 0
  IsUndisturbed (start w) = Unit {0}
  IsUndisturbed (step reached s) = IsUndisturbed reached
  IsUndisturbed (finish {d = d} task_id reached) =
      (d.stored.current_task_id ≢ some task_id) × IsUndisturbed reached
  IsUndisturbed (again w reached) = IsUndisturbed reached
  IsUndisturbed (outside w reached) = IsUndisturbed reached
