-- ===== src/Tests/Daemon.antt =====
-- The sample daemon: switching, archiving, deleting and creating tasks.
use hypr_taskspace.Prelude.{
  List, [], ◌∷◌, true, false, Option, none, some, ◌≡◌, ◌≢◌, refl, ◌⊎◌, Member, here, there, head?,
  zero, suc, arith,
}
use hypr_taskspace.Prelude.Text.{Text, codes}
use hypr_taskspace.Prelude.Dict.{get, contains_key}
use hypr_taskspace.Models.{Task, active}
use hypr_taskspace.Service.{Result, Daemon, done, error}
use hypr_taskspace.Service.Tasks.{switch_task, archive_task, complete_archive, delete_task}
use hypr_taskspace.Service.Create.{unique_task_id}
use hypr_taskspace.Service.Create.Fresh.{AllTaken, unique_task_id-fresh}
use hypr_taskspace.Service.Reboot.{current_first}
use hypr_taskspace.Service.Reboot.Laws.{count, current_first-reorders}
use hypr_taskspace.Service.Archiving.{IsPutAway, archive_task-IsPutAway}
use hypr_taskspace.Service.Archiving.Others.{archive_task-others, complete_archive-current}
use hypr_taskspace.Service.Switching.{IsAt, IsGone, switch_task-IsAt, delete_task-IsGone}
use hypr_taskspace.Service.Answers.{Responds, switch_task-refused, switch_task-succeeds}
use hypr_taskspace.Valid.{is_valid, is_keyed, is_at_home, is_live}
use hypr_taskspace.Valid.Daemon.{IsSafe}
use hypr_taskspace.Tests.Sample.{desk, daemon, settings, search_page, billing}

daemon-IsSafe : IsSafe daemon
unfolding is_valid is_keyed is_at_home is_live contains_key
daemon-IsSafe = (refl, refl)

desk-Responds : Responds desk
desk-Responds = record { loads = λ w. refl; saves = λ w. refl; writes = λ key w. refl }

abbrev searching : Text
searching = codes "t3b71"

abbrev opened_page : Task
opened_page = record search_page { last_active_at = 5 }

switched : (switch_task desk settings searching daemon).0 ≡ done opened_page
unfolding switch_task hypr_taskspace.Service.with_state get hypr_taskspace.Service.with_config
    hypr_taskspace.Nav.Switch.set_taskspace hypr_taskspace.Nav.Switch.change_context contains_key
    hypr_taskspace.Nav.Switch.capture_leaving hypr_taskspace.Nav.Layout.capture_monitor_layout
    hypr_taskspace.Nav.Slots.relative_slot_in_allowed
    hypr_taskspace.Workspaces.allowed_workspace_names
    hypr_taskspace.Workspaces.task_taskspace_workspace_names hypr_taskspace.Workspaces.slot_name
    hypr_taskspace.Workspaces.is_global_workspace_slot
    hypr_taskspace.Workspaces.default_taskspace_workspace_name
    hypr_taskspace.Prelude.Decimal.to_string hypr_taskspace.Workspaces.task_workspace_name
    hypr_taskspace.Prelude.Dict.insert hypr_taskspace.Nav.Switch.enter_taskspace
    hypr_taskspace.Service.commit_state hypr_taskspace.Service.finish_commit
    hypr_taskspace.Service.write_runtime_files
switched = refl

switch_task-IsAt_example :
    (opened_page.status ≡ active)
    × IsAt searching opened_page (switch_task desk settings searching daemon).1.stored
switch_task-IsAt_example =
    switch_task-IsAt desk settings searching opened_page daemon daemon-IsSafe switched

archived_one : (archive_task desk settings searching daemon).0 ≡ done tt
unfolding archive_task hypr_taskspace.Service.with_state get hypr_taskspace.Service.with_config
    hypr_taskspace.TaskCleanup.is_active_task_context hypr_taskspace.TaskCleanup.workspace_names
    hypr_taskspace.Workspaces.task_workspace_names hypr_taskspace.Workspaces.task_workspace_name
    hypr_taskspace.TaskCleanup.run_archive_teardown hypr_taskspace.Service.commit_state
    hypr_taskspace.Service.finish_commit hypr_taskspace.Service.write_runtime_files
archived_one = refl

archive_task-IsPutAway_example :
    IsPutAway searching (archive_task desk settings searching daemon).1.stored
archive_task-IsPutAway_example =
    archive_task-IsPutAway desk settings searching daemon daemon-IsSafe archived_one

deleted_one : (delete_task desk settings searching daemon).0 ≡ done tt
unfolding delete_task hypr_taskspace.Service.with_state get hypr_taskspace.Service.with_config
    hypr_taskspace.TaskCleanup.is_active_task_context hypr_taskspace.TaskCleanup.workspace_names
    hypr_taskspace.Workspaces.task_workspace_names hypr_taskspace.Workspaces.task_workspace_name
    hypr_taskspace.TaskCleanup.close_task_windows hypr_taskspace.Service.commit_state
    hypr_taskspace.Service.finish_commit hypr_taskspace.Service.write_runtime_files
deleted_one = refl

delete_task-IsGone_example : IsGone searching (delete_task desk settings searching daemon).1.stored
delete_task-IsGone_example = delete_task-IsGone desk settings searching daemon deleted_one

archive_task-others_example :
    get (archive_task desk settings searching daemon).1.stored.tasks (codes "t3fa0")
    ≡ get daemon.stored.tasks (codes "t3fa0")
archive_task-others_example =
    archive_task-others desk settings searching (codes "t3fa0") daemon (λ e. ground arith)

billing_entry : get daemon.stored.tasks (codes "t3fa0") ≡ some billing
unfolding get
billing_entry = refl

complete_archive-current_example :
    is_valid (complete_archive desk settings (codes "t3fa0") daemon).1.stored ≡ false
complete_archive-current_example =
    complete_archive-current desk settings desk-Responds (codes "t3fa0") billing daemon
      billing_entry refl

searching_is_live : is_live daemon.stored.tasks searching ≡ true
unfolding is_live get
searching_is_live = refl

switch_task-succeeds_example :
    (u : Task) × ((switch_task desk settings searching daemon).0 ≡ done u)
switch_task-succeeds_example =
    switch_task-succeeds desk settings desk-Responds searching daemon daemon-IsSafe
      searching_is_live

nobody_is_gone : is_live daemon.stored.tasks (codes "t0000") ≡ false
unfolding is_live get
nobody_is_gone = refl

switch_task-refused_example :
    ((e : Text) × ((switch_task desk settings (codes "t0000") daemon).0 ≡ error e))
    × ((switch_task desk settings (codes "t0000") daemon).1.stored ≡ daemon.stored)
    × ((switch_task desk settings (codes "t0000") daemon).1.env.world
        ≡ (desk.can_load daemon.env.world).1)
switch_task-refused_example =
    switch_task-refused desk settings (codes "t0000") daemon refl nobody_is_gone

abbrev leftover : List Text
leftover = codes "t3fa0" ∷ searching ∷ []

current_first-reorders_example :
    (head? (current_first (some searching) leftover) ≡ some searching)
    × (count (current_first (some searching) leftover) (codes "t3fa0")
        ≡ count leftover (codes "t3fa0"))
current_first-reorders_example =
    current_first-reorders searching leftover (codes "t3fa0") (there (here refl))

unique_task_id-fresh_example :
    (contains_key daemon.env.session.tasks (unique_task_id desk daemon.env).0 ≡ false)
    ⊎ AllTaken desk 256 daemon.env
unique_task_id-fresh_example = unique_task_id-fresh desk daemon.env
