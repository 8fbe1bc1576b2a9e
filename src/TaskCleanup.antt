-- ===== src/TaskCleanup.antt =====
-- crates/tsk-core/src/task_cleanup.rs: what is closed, stopped and forgotten when a task is archived
-- or deleted. The checkouts of a task are a parameter.
pub mod Laws
use hypr_taskspace.Prelude.{
  Bool, true, false, not, ◌&&◌, ◌||◌, Option, none, some, List, [], ◌∷◌, ◌++◌, if◌then◌else◌,
  filter, contains, length, ℕ,
}
use hypr_taskspace.Prelude.Text.{Text, Text_eq, codes, text_eq, starts_with}
use hypr_taskspace.Prelude.Decimal.{parse_u32}
use hypr_taskspace.Prelude.Dict.{Dict, retain, remove}
use hypr_taskspace.Models.{SessionState, Task, WindowRecord, default}
use hypr_taskspace.Config.{TskConfig}
use hypr_taskspace.Workspaces.{
  is_some_and, is_global_workspace_slot, task_workspace_names, task_owned_workspace_names,
}
use hypr_taskspace.Host.{System, HyprWindow, M, ◌>>=◌, ◌>>◌, pure, get_session, ask, act, skip}
use hypr_taskspace.ContextSync.{is_id}

-- `terminal::TUI_WINDOW_TITLE` and `TUI_WINDOW_CLASS`
abbrev pub tui_window_title : Text
tui_window_title = codes "tsk tasks"

abbrev pub tui_window_class : Text
tui_window_class = codes "org.tsk.task-tui"

-- `join` on paths, for a task id: a name without a slash in front.
unfoldable pub task_data_dir : TskConfig → Text → Text
task_data_dir config task_id = config.tasks_base_dir ++ codes "/" ++ task_id

-- `Task::workspace_names`
unfoldable pub workspace_names : Task → List Text
workspace_names t = task_workspace_names t.id t.workspace_count

unfoldable pub is_global_client : HyprWindow → TskConfig → Bool
is_global_client client config =
    is_some_and (λ slot. is_global_workspace_slot slot config.global_workspace_slots)
      (parse_u32 client.workspace_name)

unfoldable pub client_belongs_to_task : HyprWindow → TskConfig → Task → Bool
unfolding is_global_client
client_belongs_to_task client config t =
    let is_tui =
      text_eq client.title tui_window_title || text_eq client.class_name tui_window_class in
    let names =
      task_owned_workspace_names t.id config.default_workspace_count
        config.global_workspace_slots in
    if is_tui
    then false
    else if is_global_client client config
    then false
    else contains names client.workspace_name
      || starts_with (codes "[" ++ t.id ++ codes "]") client.title

unfoldable pub purge_task_windows : Text → SessionState → SessionState
purge_task_windows task_id state = record state {
  windows = retain (λ _ (w : WindowRecord). not (is_id task_id w.task_id)) state.windows;
}

unfoldable pub purge_task_session_keys : Text → SessionState → SessionState
purge_task_session_keys task_id state =
    let purged = record state {
      last_workspace = remove state.last_workspace (codes "task:" ++ task_id);
      last_monitor_workspace = remove state.last_monitor_workspace (codes "task:" ++ task_id);
    } in
    if is_id task_id state.current_task_id
    then record purged { current_task_id = none; context_mode = default }
    else purged

module _ (h : System) where
  open h use {
    World, available, active_workspace, get_clients, close_window, start_container, stop_container,
    remove_container, detach_checkout,
  }

  unfoldable pub is_on_task : Task → Option (Option Text) → Bool
  is_on_task t none = false
  is_on_task t (some none) = false
  is_on_task t (some (some name)) = contains (workspace_names t) name

  -- The task is the session's current one, or one of its workspaces is in focus.
  unfoldable pub is_active_task_context : Task → M World Bool
  unfolding is_on_task
  is_active_task_context t = do
    state ← get_session
    let look : M World Bool = (do active ← ask active_workspace; pure (is_on_task t active))
    let ask_compositor : M World Bool = (do
      running ← ask available
      if running then look else pure false)
    if is_id t.id state.current_task_id then pure true else ask_compositor

  unfoldable pub clients_for_task : TskConfig → Task → M World (Option (List HyprWindow))
  clients_for_task config t = do
    running ← (if config.hyprland_enabled then ask available else pure false)
    let list : M World (Option (List HyprWindow)) = (do
      clients ← ask get_clients
      pure (elim clients [
        | none ↦ none
        | some found ↦ some (filter (λ c. client_belongs_to_task c config t) found)
      ]))
    if running then list else pure (some [])

  unfoldable pub close_all : List HyprWindow → M World (Unit {0})
  close_all [] = skip
  close_all (client ∷ clients) = act (close_window client.address) >> close_all clients

  -- The number of windows that were closed; `none` is an error.
  unfoldable pub close_task_windows : TskConfig → Task → M World (Option ℕ)
  unfolding clients_for_task close_all
  close_task_windows config t = do
    clients ← clients_for_task config t
    elim clients [ none ↦ pure none | some found ↦ close_all found >> pure (some (length found)) ]

  unfoldable pub start_task_container : Task → M World (Unit {0})
  start_task_container t =
      if t.container_isolation then act (start_container t.container_name) else skip

  unfoldable pub stop_task_container : Task → M World (Unit {0})
  stop_task_container t =
      if t.container_isolation then act (stop_container t.container_name) else skip

  unfoldable pub remove_task_container : Task → M World (Unit {0})
  remove_task_container t =
      if t.container_isolation then act (remove_container t.container_name) else skip

  -- `false` is an error; those of the container and of the checkout are only logged.
  unfoldable pub run_archive_teardown : TskConfig → Task → M World Bool
  unfolding close_task_windows stop_task_container
  run_archive_teardown config t = do
    closed ← close_task_windows config t
    let rest : M World Bool = (stop_task_container t >> act (detach_checkout t) >> pure true)
    elim closed [ none ↦ pure false | some n ↦ rest ]
