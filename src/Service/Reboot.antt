-- ===== src/Service/Reboot.antt =====
-- crates/tsk-core/src/service.rs and boot_id.rs: the daemon archives every task that is left over
-- from before a reboot.
pub mod Laws
use hypr_taskspace.Prelude.{
  ℕ, zero, suc, Bool, true, false, not, Option, none, some, List, [], ◌∷◌, map, if◌then◌else◌,
  position,
}
use hypr_taskspace.Prelude.Text.{Text, Text_eq, text_eq}
use hypr_taskspace.Models.{SessionState, Task}
use hypr_taskspace.Config.{TskConfig}
use hypr_taskspace.Host.{System, M, ◌>>=◌, ◌>>◌, pure, get_session, ask}
use hypr_taskspace.Service.{
  on_option, on_outcome, Result, done, error, failed, D, lift, take_stored, and_then,
}
use hypr_taskspace.Service.Tasks.{archive_task}
use hypr_taskspace.Service.Queries.{list_active_tasks}

-- The list with another entry at an index, if it has that index.
unfoldable pub set_at {ℓ} : {A : Type ℓ} → List A → ℕ → A → List A
set_at [] i a = []
set_at (b ∷ bs) zero a = a ∷ bs
set_at (b ∷ bs) (suc i) a = b ∷ set_at bs i a

-- `ids.swap(0, pos)`
unfoldable pub swap_first {ℓ} : {A : Type ℓ} → List A → ℕ → A → List A
unfolding set_at
swap_first [] pos a = []
swap_first (b ∷ bs) zero a = b ∷ bs
swap_first (b ∷ bs) (suc i) a = a ∷ set_at bs i b

-- The current task first, so that its taskspace is left once.
unfoldable pub current_first : Option Text → List Text → List Text
unfolding swap_first
current_first none ids = ids
current_first (some current) ids =
    on_option (position ids current) ids (λ pos. swap_first ids pos current)

-- `boot_id::is_new_boot`, from the id that is stored.
unfoldable pub is_new_boot : Option Text → Text → Bool
is_new_boot none current = true
is_new_boot (some previous) current = not (text_eq previous current)

-- A task that could not be archived is only logged.
unfoldable pub count_archived : Text → Result (Unit {0}) → List Text → List Text
count_archived task_id (done _) archived = task_id ∷ archived
count_archived task_id (error e) archived = archived
count_archived task_id failed archived = archived

module _ (h : System) (config : TskConfig) where
  open h use {World, can_load, current_boot_id, read_stored_boot_id, write_stored_boot_id}

  unfoldable pub archive_each : List Text → D World (List Text)
  archive_each [] = pure []
  archive_each (task_id ∷ task_ids) = do
    let rest = archive_each task_ids
    result ← archive_task h config task_id
    archived ← rest
    pure (count_archived task_id result archived)

  -- `if let Ok(state) = self.load_state()`
  unfoldable pub order_ids : List Text → D World (List Text)
  order_ids ids = do
    loads ← lift (ask can_load)
    let order : D World (List Text) = (do
      take_stored config
      state ← lift get_session
      pure (current_first state.current_task_id ids))
    if loads then order else pure ids

  unfoldable pub archive_leftover : Text → List Task → D World (Result (List Text))
  unfolding archive_each order_ids
  archive_leftover current_boot_id tasks = do
    ids ← order_ids (map (λ t. t.id) tasks)
    archived ← archive_each ids
    written ← lift (ask (write_stored_boot_id current_boot_id))
    pure (if written then done archived else failed)

  unfoldable pub archive_on_new_boot : Text → Bool → D World (Result (List Text))
  unfolding archive_leftover
  archive_on_new_boot current_boot_id false = pure (done [])
  archive_on_new_boot current_boot_id true = do
    listed ← list_active_tasks h config
    and_then listed (archive_leftover current_boot_id)

  unfoldable pub archive_active_tasks_if_new_boot : Text → D World (Result (List Text))
  unfolding archive_on_new_boot is_new_boot
  archive_active_tasks_if_new_boot current_boot_id = do
    stored ← lift (ask read_stored_boot_id)
    on_option stored (pure failed)
        (λ previous. archive_on_new_boot current_boot_id (is_new_boot previous current_boot_id))

  -- Without a boot id nothing is archived, and that is no error.
  unfoldable pub archive_active_tasks_after_reboot : D World (Result (List Text))
  unfolding archive_active_tasks_if_new_boot
  archive_active_tasks_after_reboot = do
    current ← lift (ask current_boot_id)
    on_option current (pure (done [])) (λ id. archive_active_tasks_if_new_boot id)
