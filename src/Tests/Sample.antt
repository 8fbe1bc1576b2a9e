-- ===== src/Tests/Sample.antt =====
-- A session with two tasks, and a small compositor that does what it is told.
use hypr_taskspace.Prelude.{
  true, false, Option, none, some, List, [], ◌∷◌, map, if◌then◌else◌, find,
}
use hypr_taskspace.Prelude.Int.{pos}
use hypr_taskspace.Prelude.Text.{Text, codes, text_eq}
use hypr_taskspace.Models.{SessionState, Task, task, active}
use hypr_taskspace.Config.{TskConfig}
use hypr_taskspace.Host.{System, Monitor, Env}
use hypr_taskspace.Service.{Daemon}

abbrev pub named_task : Text → Text → Task
named_task id name = record {
  id = id;
  name = name;
  status = active;
  repo_url = none;
  repo_path = codes "/tmp";
  source_repo_path = none;
  branch = none;
  container_name = codes "tsk";
  container_isolation = false;
  workspace_count = 3;
  browser_profile = none;
  created_at = 1;
  last_active_at = 1;
  listed_at = 1;
  agent_notes_path = none;
  ports = [];
}

abbrev pub billing : Task
billing = named_task (codes "t3fa0") (codes "Billing")

abbrev pub search_page : Task
search_page = named_task (codes "t3b71") (codes "Search page")

-- The taskspace of `billing`, with four slots of which the first is global.
abbrev pub session : SessionState
session = record {
  context_mode = task;
  current_task_id = some (codes "t3fa0");
  last_workspace = [];
  last_monitor_workspace = [];
  default_workspace_count = 4;
  global_workspace_slots = 1 ∷ [];
  tasks = (codes "t3fa0", billing) ∷ (codes "t3b71", search_page) ∷ [];
  windows = [];
}

abbrev pub left_monitor : Monitor
left_monitor = record {
  name = codes "DP-1";
  workspace_name = codes "t3fa0-2";
  focused = true;
  x = pos 0;
  y = pos 0;
}

abbrev pub right_monitor : Monitor
right_monitor = record {
  name = codes "DP-2";
  workspace_name = codes "t3fa0-3";
  focused = false;
  x = pos 1920;
  y = pos 0;
}

abbrev put_on : Text → Text → Monitor → Monitor
put_on name workspace m = if text_eq m.name name then record m { workspace_name = workspace } else m

abbrev put_focused : Text → Monitor → Monitor
put_focused workspace m = if m.focused then record m { workspace_name = workspace } else m

abbrev active_of : List Monitor → Option Text
active_of monitors = elim (find (λ (m : Monitor). m.focused) monitors) [
  | none ↦ none
  | some m ↦ some m.workspace_name
]

-- Its world is the list of monitors; it has no windows, its clock stands still and it keeps no files.
abbrev pub desk : System
desk = record {
  World = List Monitor;
  available = λ w. (true, w);
  list_monitors = λ w. (some w, w);
  active_workspace = λ w. (some (active_of w), w);
  get_clients = λ w. (some [], w);
  switch_workspace = λ name w. map (put_focused name) w;
  switch_on_monitor = λ name workspace w. map (put_on name workspace) w;
  swap_workspaces = λ a b w. w;
  focus_monitor = λ name w. w;
  move_active_window = λ name w. w;
  move_window_silent = λ address name w. w;
  ensure_workspaces = λ names w. w;
  close_tui_windows = λ w. w;
  sleep = λ w. w;
  now = λ w. (5, w);
  write_slot = λ n name w. w;
  read_slot = λ n w. (none, w);
  remove_slot = λ n w. w;
  write_context = λ text w. (true, w);
  can_load = λ w. (true, w);
  can_save = λ w. (true, w);
  close_window = λ address w. w;
  capture_browser = λ t w. w;
  container_exists = λ name w. (true, w);
  create_container = λ name w. (true, w);
  start_container = λ name w. w;
  stop_container = λ name w. w;
  remove_container = λ name w. w;
  detach_checkout = λ t w. w;
  reattach_checkout = λ t w. (true, w);
  remove_checkout = λ t w. w;
  data_dir_exists = λ id w. (true, w);
  remove_data_dir = λ t w. w;
  run_on_restore = λ t w. w;
  run_on_create = λ t w. w;
  provision = λ state id name w. (
    some (record {
      repo_url = none;
      repo_path = codes "/tmp";
      source_repo_path = none;
      branch = none;
      browser_profile = codes "/tmp/profile";
      notes_path = codes "/tmp/notes";
    }),
    w,
  );
  write_handoff = λ t text w. (true, w);
  random_bytes = λ w. (1 ∷ 160 ∷ 255 ∷ 7 ∷ [], w);
  uuid_like_suffix = λ w. (codes "0a1b2c3d", w);
  ensure_schema = λ w. (true, w);
  current_boot_id = λ w. (some (codes "boot-2"), w);
  read_stored_boot_id = λ w. (some (some (codes "boot-1")), w);
  write_stored_boot_id = λ id w. (true, w);
  publish = λ kind w. w;
}

abbrev pub start : Env (List Monitor)
start = record {
  session = session;
  world = left_monitor ∷ right_monitor ∷ [];
  recent = none;
  hotplug_at = none;
}

abbrev pub settings : TskConfig
settings = record {
  hyprland_enabled = true;
  default_workspace_count = 4;
  global_workspace_slots = 1 ∷ [];
  tasks_base_dir = codes "/tmp/tasks";
  max_tasks = 10;
  container_prefix = codes "tsk";
  distrobox_image = [];
}

abbrev pub daemon : Daemon desk.World
daemon = record { env = start; stored = session }
