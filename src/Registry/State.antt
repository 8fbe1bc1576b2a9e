-- ===== src/Registry/State.antt =====
-- crates/tsk-core/src/registry.rs: the whole session in the database: its row, the tasks and the windows.
-- `serde_json` is a parameter.
pub mod Laws
use hypr_taskspace.Prelude.{ℕ, Bool, true, false, Option, none, some, List, [], ◌∷◌, if◌then◌else◌}
use hypr_taskspace.Prelude.Int.{ℤ}
use hypr_taskspace.Prelude.Text.{Text, codes, text_eq}
use hypr_taskspace.Prelude.Dict.{Dict}
use hypr_taskspace.Models.{ContextMode, SessionState, Task, WindowRecord, default, task, mode_str}
use hypr_taskspace.Config.{TskConfig}
use hypr_taskspace.Registry.{Table, Codec, load_rows, sync_rows}
use hypr_taskspace.Registry.Tasks.{Formats, TaskRow, unwrap_or}
use hypr_taskspace.Registry.RoundTrip.{task_codec, is_yes}
use native.Mathlib.Decide.{ℕ_discrete}

-- How the remembered layout is written and read.
pub record Maps : Type 0 where
  pub slots_to_string : Dict ℤ → Text
  pub slots_from_str : Text → Option (Dict ℤ)
  pub monitors_to_string : Dict (Dict ℤ) → Text
  pub monitors_from_str : Text → Option (Dict (Dict ℤ))

pub record SessionRow : Type 0 where
  pub context_mode : Text
  pub current_task_id : Option Text
  pub last_desktop : Text
  pub last_monitor_workspace : Text

pub record WindowRow : Type 0 where
  pub hypr_address : Text
  pub task_id : Option Text
  pub title : Text
  pub class : Text
  pub workspace : ℤ
  pub workspace_name : Option Text
  pub home_workspace_name : Option Text
  pub pid : Option ℤ

-- The row that `upsert_window` writes.
unfoldable pub window_to_row : WindowRecord → WindowRow
window_to_row w = record {
  hypr_address = w.hypr_address;
  task_id = w.task_id;
  title = w.title;
  class = w.class_name;
  workspace = w.workspace;
  workspace_name = some w.workspace_name;
  home_workspace_name = some w.home_workspace_name;
  pid = w.pid;
}

-- The record that `load_windows` reads; `COALESCE` and `unwrap_or_default` give the empty text.
unfoldable pub window_from_row : WindowRow → WindowRecord
window_from_row row = record {
  hypr_address = row.hypr_address;
  task_id = row.task_id;
  title = row.title;
  class_name = row.class;
  workspace = row.workspace;
  workspace_name = unwrap_or row.workspace_name [];
  home_workspace_name = unwrap_or row.home_workspace_name [];
  pid = row.pid;
}

unfoldable pub parse_context_mode : Text → ContextMode
parse_context_mode raw = if text_eq raw (codes "task") then task else default

unfoldable pub write_session : Maps → SessionState → SessionRow
write_session maps state = record {
  context_mode = mode_str state.context_mode;
  current_task_id = state.current_task_id;
  last_desktop = maps.slots_to_string state.last_workspace;
  last_monitor_workspace = maps.monitors_to_string state.last_monitor_workspace;
}

-- `WindowRecord: PartialEq`
pub WindowRecord-discrete : Discrete WindowRecord
WindowRecord-discrete = hlevel ℕ_discrete

unfoldable pub same_window : WindowRecord → WindowRecord → Bool
same_window a b = is_yes (WindowRecord-discrete a b)

-- The windows as rows.
unfoldable pub window_codec : Codec WindowRow WindowRecord
window_codec = record {
  id = λ w. w.hypr_address;
  encode = window_to_row;
  decode = window_from_row;
  same = same_window;
}

-- The tables, as parameters; the session's row is missing before the schema is made.
pub record Database (tasks_table : Table TaskRow) (windows_table : Table WindowRow) : Type 0 where
  pub session : Option SessionRow
  pub tasks : tasks_table.Rows
  pub windows : windows_table.Rows

module _ (task_table : Table TaskRow) (window_table : Table WindowRow) (f : Formats)
    (maps : Maps) where
  -- `UPDATE session … WHERE id = 1` and the two tables, in a transaction. Without the session's row
  -- nothing is stored.
  unfoldable pub save_state :
      (TaskRow → ℕ × ℕ)
      → SessionState
      → Database task_table window_table
      → Option (Database task_table window_table)
  save_state clock state db = elim db.session [
    | none ↦ none
    | some old ↦ some (record {
      session = some (write_session maps state);
      tasks = sync_rows task_table (task_codec f clock) state.tasks db.tasks;
      windows = sync_rows window_table window_codec state.windows db.windows;
    })
  ]

  unfoldable pub state_from :
      TskConfig → (TaskRow → ℕ × ℕ) → SessionRow → Database task_table window_table → SessionState
  state_from config clock row db = record {
    context_mode = parse_context_mode row.context_mode;
    current_task_id =
        if text_eq row.context_mode (codes "global") then none else row.current_task_id;
    last_workspace = unwrap_or (maps.slots_from_str row.last_desktop) [];
    last_monitor_workspace = unwrap_or (maps.monitors_from_str row.last_monitor_workspace) [];
    default_workspace_count = config.default_workspace_count;
    global_workspace_slots = config.global_workspace_slots;
    tasks = load_rows task_table (task_codec f clock) db.tasks;
    windows = load_rows window_table window_codec db.windows;
  }

  unfoldable pub load_state :
      TskConfig → (TaskRow → ℕ × ℕ) → Database task_table window_table → Option SessionState
  unfolding state_from
  load_state config clock db = elim db.session [
    | none ↦ none
    | some row ↦ some (state_from config clock row db)
  ]
