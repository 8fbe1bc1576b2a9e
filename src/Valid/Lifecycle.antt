-- ===== src/Valid/Lifecycle.antt =====
-- crates/tsk-core/src/service.rs: creating tasks, listing them and archiving them after a reboot keep
-- the daemon safe.
use hypr_taskspace.Prelude.{ℕ, zero, suc, Bool, true, false, List, [], ◌∷◌, ◌≡◌, refl, arith}
use hypr_taskspace.Prelude.Text.{Text}
use hypr_taskspace.Models.{Task, is_archived}
use hypr_taskspace.Config.{TskConfig}
use hypr_taskspace.Host.{System, Env, asked, Provisioned}
use hypr_taskspace.Service.Queries.{list_active_tasks, list_archived_tasks, resolve_task}
use hypr_taskspace.Service.Create.{
  NewTask, generate_task_id, unique_id_in, unique_task_id, new_task, run_hook, insert_task,
  make_container, store_handoff, finish_task, make_task, create_task,
}
use hypr_taskspace.Service.Reboot.{
  count_archived, archive_each, order_ids, archive_leftover, archive_on_new_boot,
  archive_active_tasks_if_new_boot, archive_active_tasks_after_reboot,
}
use hypr_taskspace.Valid.Daemon.{KeepsSafe, KeepsValid, pure-KeepsSafe, bind-KeepsSafe}
use hypr_taskspace.Valid.Rules.{safe_rules, take_stored-KeepsSafe}
use hypr_taskspace.Valid.Tasks.{put_task-IsValid, switch_task-KeepsSafe}
use hypr_taskspace.Valid.Archive.{archive_task-KeepsSafe}

module _ (h : System) where
  open h use {World}

  pub unique_id_in-session :
      (rounds : ℕ) (s : Env World) → (unique_id_in h rounds s).1.session ≡ s.session
  unfolding unique_id_in generate_task_id
  unique_id_in-session zero s = refl
  unique_id_in-session (suc rounds) s =
      ground (arith, unique_id_in-session rounds (asked h.random_bytes s))

  unique_task_id-KeepsValid : KeepsValid (unique_task_id h)
  unfolding unique_task_id
  unique_task_id-KeepsValid = record { at = λ s valid. ground (arith, unique_id_in-session 256 s) }

module _ (h : System) (config : TskConfig) where
  open h use {World}

  run_hook-KeepsSafe : (request : NewTask) (t : Task) → KeepsSafe (run_hook h config request t)
  unfolding run_hook
  run_hook-KeepsSafe request t = search safe_rules depth 8

  insert_task-KeepsSafe :
      (request : NewTask) (t : Task)
      → is_archived t.status ≡ false
      → KeepsSafe (insert_task h config request t)
  unfolding insert_task
  insert_task-KeepsSafe request t live =
      search (safe_rules, put_task-IsValid, switch_task-KeepsSafe, run_hook-KeepsSafe) depth 9

  make_container-KeepsSafe :
      (request : NewTask) (t : Task) → KeepsSafe (make_container h config request t)
  unfolding make_container
  make_container-KeepsSafe request t = search safe_rules depth 8

  store_handoff-KeepsSafe :
      (request : NewTask) (t : Task) → KeepsSafe (store_handoff h config request t)
  unfolding store_handoff
  store_handoff-KeepsSafe request t = search safe_rules depth 8

  finish_task-KeepsSafe :
      (request : NewTask) (t : Task)
      → is_archived t.status ≡ false
      → KeepsSafe (finish_task h config request t)
  unfolding finish_task
  finish_task-KeepsSafe request t live =
      search (safe_rules, store_handoff-KeepsSafe, make_container-KeepsSafe, insert_task-KeepsSafe)

  new_task-KeepsSafe :
      (request : NewTask) (id : Text) (made : Provisioned) (at : ℕ)
      → KeepsSafe (finish_task h config request (new_task h config request id made at))
  unfolding new_task
  new_task-KeepsSafe request id made at = finish_task-KeepsSafe request _ refl

  make_task-KeepsSafe : (request : NewTask) → KeepsSafe (make_task h config request)
  unfolding make_task
  make_task-KeepsSafe request =
      search (safe_rules, unique_task_id-KeepsValid, new_task-KeepsSafe) depth 9

  pub create_task-KeepsSafe : (request : NewTask) → KeepsSafe (create_task h config request)
  unfolding create_task
  create_task-KeepsSafe request = search (safe_rules, make_task-KeepsSafe)

  pub list_active_tasks-KeepsSafe : KeepsSafe (list_active_tasks h config)
  unfolding list_active_tasks
  list_active_tasks-KeepsSafe = search safe_rules

  pub list_archived_tasks-KeepsSafe : KeepsSafe (list_archived_tasks h config)
  unfolding list_archived_tasks
  list_archived_tasks-KeepsSafe = search safe_rules

  pub resolve_task-KeepsSafe : (name_or_id : Text) → KeepsSafe (resolve_task h config name_or_id)
  unfolding resolve_task
  resolve_task-KeepsSafe name_or_id = search safe_rules

  archive_each-KeepsSafe : (ids : List Text) → KeepsSafe (archive_each h config ids)
  unfolding archive_each
  archive_each-KeepsSafe [] = search safe_rules
  archive_each-KeepsSafe (id ∷ ids) =
      bind-KeepsSafe _ _ (archive_task-KeepsSafe h config id) (λ result.
        bind-KeepsSafe _ _ (archive_each-KeepsSafe ids)
          (λ archived. pure-KeepsSafe (count_archived id result archived)))

  order_ids-KeepsSafe : (ids : List Text) → KeepsSafe (order_ids h config ids)
  unfolding order_ids
  order_ids-KeepsSafe ids = search (safe_rules, take_stored-KeepsSafe) depth 8

  archive_leftover-KeepsSafe :
      (boot_id : Text) (tasks : List Task) → KeepsSafe (archive_leftover h config boot_id tasks)
  unfolding archive_leftover
  archive_leftover-KeepsSafe boot_id tasks =
      search (safe_rules, order_ids-KeepsSafe, archive_each-KeepsSafe)

  archive_on_new_boot-KeepsSafe :
      (boot_id : Text) (is_new : Bool) → KeepsSafe (archive_on_new_boot h config boot_id is_new)
  unfolding archive_on_new_boot
  archive_on_new_boot-KeepsSafe boot_id false = search safe_rules
  archive_on_new_boot-KeepsSafe boot_id true =
      search (safe_rules, list_active_tasks-KeepsSafe, archive_leftover-KeepsSafe)

  if_new_boot-KeepsSafe :
      (boot_id : Text) → KeepsSafe (archive_active_tasks_if_new_boot h config boot_id)
  unfolding archive_active_tasks_if_new_boot
  if_new_boot-KeepsSafe boot_id = search (safe_rules, archive_on_new_boot-KeepsSafe) depth 8

  pub archive_after_reboot-KeepsSafe : KeepsSafe (archive_active_tasks_after_reboot h config)
  unfolding archive_active_tasks_after_reboot
  archive_after_reboot-KeepsSafe = search (safe_rules, if_new_boot-KeepsSafe)
