-- ===== src/Tests/Runs.antt =====
-- Runs of the daemon: a task is created and archived in two halves; two starts on the same boot.
use hypr_taskspace.Prelude.{
  List, [], ◌∷◌, true, false, Option, none, some, ◌≡◌, ◌≢◌, refl, arith, if◌then◌else◌,
}
use hypr_taskspace.Prelude.Text.{Text, codes, text_eq}
use hypr_taskspace.Prelude.Dict.{get, contains_key}
use hypr_taskspace.Host.{System, Monitor}
use hypr_taskspace.Service.{Result, Daemon, done}
use hypr_taskspace.Service.Tasks.{prepare_archive, complete_archive}
use hypr_taskspace.Service.Create.{NewTask, create_task}
use hypr_taskspace.Service.Reboot.{archive_active_tasks_if_new_boot}
use hypr_taskspace.Service.Reboot.Laws.{KeepsBootId, archive_if_new_boot-once}
use hypr_taskspace.Service.Steps.{
  Reach, start, step, finish, on_create_task, on_prepare_archive, fresh, IsUndisturbed,
}
use hypr_taskspace.Valid.Daemon.{IsSafe}
use hypr_taskspace.Valid.Reach.{Reach-IsSafe}
use hypr_taskspace.Tests.Sample.{desk, daemon, settings, left_monitor}

abbrev request : NewTask
request = record {
  name = codes "Docs";
  switch = false;
  container_isolation = false;
  defer_container_create = false;
  handoff_markdown = none;
}

-- The sample daemon with an empty database, the one after a task is created, and the one after the first
-- half of archiving it.
abbrev empty : Daemon desk.World
empty = fresh desk settings (left_monitor ∷ [])

abbrev created : Daemon desk.World
created = (create_task desk settings request empty).1

abbrev half_archived : Daemon desk.World
half_archived = (prepare_archive desk settings (codes "t01a0ff07") created).1

abbrev half_reached : Reach desk settings half_archived
half_reached =
    step (step (start (left_monitor ∷ [])) (on_create_task request empty))
      (on_prepare_archive (codes "t01a0ff07") created)

prepared_elsewhere : half_archived.stored.current_task_id ≡ none
unfolding prepare_archive fresh hypr_taskspace.Service.with_state get create_task
    hypr_taskspace.Service.with_config hypr_taskspace.Service.Create.active_count
    hypr_taskspace.Service.Steps.empty_session hypr_taskspace.Service.commit_state
    hypr_taskspace.Service.finish_commit hypr_taskspace.Service.write_runtime_files
    hypr_taskspace.Prelude.Dict.insert hypr_taskspace.Service.Create.unique_task_id contains_key
    hypr_taskspace.TaskCleanup.is_active_task_context hypr_taskspace.Service.announce
    hypr_taskspace.Slots.write_slot_cache hypr_taskspace.Workspaces.bar_workspace_names
    hypr_taskspace.Workspaces.allowed_workspace_names
    hypr_taskspace.Workspaces.default_taskspace_workspace_names
    hypr_taskspace.TaskCleanup.workspace_names hypr_taskspace.Workspaces.task_workspace_names
    hypr_taskspace.Workspaces.task_workspace_name
prepared_elsewhere = refl

Reach-IsSafe_example : IsSafe (complete_archive desk settings (codes "t01a0ff07") half_archived).1
unfolding IsUndisturbed
Reach-IsSafe_example =
    Reach-IsSafe desk settings (finish (codes "t01a0ff07") half_reached)
      (λ here. ground (arith, prepared_elsewhere), tt)

abbrev note : Text → Monitor
note id = record left_monitor { name = id; workspace_name = codes "boot" }

abbrev noted : List Monitor → Option Text
noted [] = none
noted (m ∷ monitors) =
    if text_eq m.workspace_name (codes "boot") then some m.name else noted monitors

-- The sample system with a file for the boot id: an entry of the list of monitors.
abbrev noting : System
noting = record desk {
  read_stored_boot_id = λ w. (some (noted w), w);
  write_stored_boot_id = λ id w. (true, note id ∷ w);
}

noting-KeepsBootId : KeepsBootId noting (codes "boot-2")
noting-KeepsBootId = record { read-write = λ w written. refl; read-read = λ w. refl }

abbrev both : List Text
both = codes "t3fa0" ∷ codes "t3b71" ∷ []

rebooted : (archive_active_tasks_if_new_boot noting settings (codes "boot-2") daemon).0 ≡ done both
unfolding archive_active_tasks_if_new_boot hypr_taskspace.Service.with_state get
    hypr_taskspace.Service.with_config hypr_taskspace.Service.Tasks.archive_task
    hypr_taskspace.Service.Queries.list_active_tasks hypr_taskspace.Service.Reboot.current_first
    hypr_taskspace.Service.Reboot.count_archived hypr_taskspace.TaskCleanup.is_active_task_context
    hypr_taskspace.Nav.Switch.set_taskspace hypr_taskspace.Nav.Switch.change_context
    hypr_taskspace.Nav.Switch.enter_taskspace hypr_taskspace.Service.commit_state
    hypr_taskspace.Service.finish_commit hypr_taskspace.Service.write_runtime_files
    hypr_taskspace.TaskCleanup.run_archive_teardown hypr_taskspace.Nav.Switch.restore_taskspace
    hypr_taskspace.Nav.Restore.sync_monitors_to_taskspace
    hypr_taskspace.Workspaces.allowed_workspace_names hypr_taskspace.Nav.Switch.setup_workspaces
    hypr_taskspace.Nav.Switch.setup_default_taskspace_workspaces
    hypr_taskspace.Workspaces.default_taskspace_workspace_names
    hypr_taskspace.SwitchGuard.record_switch
    hypr_taskspace.Nav.Switch.adopt_active_slot_for_taskspace_switch
    hypr_taskspace.Nav.Switch.adopt_active hypr_taskspace.Slots.write_slot_cache
    hypr_taskspace.Workspaces.bar_workspace_names hypr_taskspace.Nav.Switch.capture_leaving
    hypr_taskspace.Nav.Layout.capture_monitor_layout
    hypr_taskspace.Nav.Slots.relative_slot_in_allowed
    hypr_taskspace.Workspaces.task_taskspace_workspace_names hypr_taskspace.Workspaces.slot_name
    hypr_taskspace.Workspaces.is_global_workspace_slot
    hypr_taskspace.Workspaces.default_taskspace_workspace_name
    hypr_taskspace.Prelude.Decimal.to_string hypr_taskspace.Workspaces.task_workspace_name
    hypr_taskspace.Nav.Slots.slot_to_adopt_for_taskspace_switch
    hypr_taskspace.Nav.Restore.sync_running hypr_taskspace.Nav.Restore.sort_monitors_by_layout
    hypr_taskspace.Nav.Restore.list_monitors_with_retry hypr_taskspace.Nav.Restore.sync_several
    hypr_taskspace.Nav.Restore.plan_targets hypr_taskspace.Nav.Slots.workspace_name_at_relative
    hypr_taskspace.Nav.Slots.resolve_monitor_slot hypr_taskspace.Prelude.Dict.insert
    hypr_taskspace.Models.taskspace_key hypr_taskspace.Nav.Restore.restore_plan
    hypr_taskspace.Nav.Restore.focused_target
    hypr_taskspace.Nav.Restore.persist_monitor_layout_from_hyprland
    hypr_taskspace.Nav.Restore.verify_monitor_targets hypr_taskspace.Nav.Restore.verify_target
    hypr_taskspace.Nav.Slots.monitor_needs_move hypr_taskspace.Nav.Restore.shown_on
    hypr_taskspace.Nav.Restore.restore_monitor_targets hypr_taskspace.Nav.Restore.restore_passes
    hypr_taskspace.Nav.Restore.pending_targets hypr_taskspace.Nav.Restore.move_first
    hypr_taskspace.Nav.Restore.holder_of hypr_taskspace.Prelude.Dict.retain
    hypr_taskspace.Service.Tasks.change_task hypr_taskspace.TaskCleanup.purge_task_windows
    hypr_taskspace.Service.announce hypr_taskspace.TaskCleanup.workspace_names
    hypr_taskspace.Workspaces.task_workspace_names
rebooted = refl

abbrev restarted : Daemon noting.World
restarted = (archive_active_tasks_if_new_boot noting settings (codes "boot-2") daemon).1

archive_if_new_boot-once_example :
    ((noting.read_stored_boot_id restarted.env.world).0 ≡ some (some (codes "boot-2")))
    × ((archive_active_tasks_if_new_boot noting settings (codes "boot-2") restarted).0 ≡ done [])
    × ((archive_active_tasks_if_new_boot noting settings (codes "boot-2") restarted).1.stored
        ≡ restarted.stored)
archive_if_new_boot-once_example =
    archive_if_new_boot-once noting settings (codes "boot-2") noting-KeepsBootId both daemon
      rebooted
