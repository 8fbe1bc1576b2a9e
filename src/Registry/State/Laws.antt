-- ===== src/Registry/State/Laws.antt =====
-- crates/tsk-core/src/registry.rs: the session that is loaded later is the one that was stored.
use hypr_taskspace.Prelude.{ℕ, Option, none, some, List, [], ◌∷◌, ◌≡◌, refl, All, if◌then◌else◌}
use hypr_taskspace.Prelude.Int.{ℤ}
use hypr_taskspace.Prelude.Text.{Text, text_eq, codes}
use hypr_taskspace.Prelude.Dict.{Dict, get, values}
use hypr_taskspace.Models.{ContextMode, SessionState, Task, WindowRecord, default, task, mode_str}
use hypr_taskspace.Config.{TskConfig}
use hypr_taskspace.Registry.{Table, sync_rows}
use hypr_taskspace.Registry.Laws.{IsLawful, IsCodec, IsKeyedBy, load-sync}
use hypr_taskspace.Registry.Tasks.{Formats, IsFormats, IsWritable, TaskRow, unwrap_or}
use hypr_taskspace.Registry.RoundTrip.{IsDated, task_codec, tasks-load-sync, is_yes_sound}
use hypr_taskspace.Registry.State.{
  Maps, SessionRow, WindowRow, window_to_row, window_from_row, window_codec, same_window,
  WindowRecord-discrete, parse_context_mode, write_session, Database, save_state, state_from,
  load_state,
}

-- What the program relies on of JSON: a map that is written is read as one with the same entries, in
-- whatever order.
pub record IsMaps (maps : Maps) : Type 0 where
  pub slots : (m : Dict ℤ) → Dict ℤ
  pub slots-from : (m : Dict ℤ) → maps.slots_from_str (maps.slots_to_string m) ≡ some (slots m)
  pub get-slots : (m : Dict ℤ) (k : Text) → get (slots m) k ≡ get m k
  pub monitors : (m : Dict (Dict ℤ)) → Dict (Dict ℤ)
  pub monitors-from :
      (m : Dict (Dict ℤ)) → maps.monitors_from_str (maps.monitors_to_string m) ≡ some (monitors m)
  pub get-monitors :
      (m : Dict (Dict ℤ)) (k j : Text)
      → get (unwrap_or (get (monitors m) k) []) j ≡ get (unwrap_or (get m k) []) j

-- The same context, and the same entries under every key.
pub record SameEntries (a b : SessionState) (k j : Text) : Type 0 where
  pub context_mode : b.context_mode ≡ a.context_mode
  pub current_task_id : b.current_task_id ≡ a.current_task_id
  pub last_workspace : get b.last_workspace k ≡ get a.last_workspace k
  pub last_monitor_workspace :
      get (unwrap_or (get b.last_monitor_workspace k) []) j
      ≡ get (unwrap_or (get a.last_monitor_workspace k) []) j
  pub tasks : get b.tasks k ≡ get a.tasks k
  pub windows : get b.windows k ≡ get a.windows k

abbrev AnyWindow : WindowRecord → Type 0
AnyWindow w = Unit {0}

window_codec-IsCodec : IsCodec window_codec (λ row. row.hypr_address) AnyWindow
unfolding window_codec same_window window_to_row window_from_row
window_codec-IsCodec = record {
  decode-encode = λ w good. refl;
  key-encode = λ w. refl;
  id-decode = λ row. refl;
  same_sound = λ a b. is_yes_sound (WindowRecord-discrete a b);
}

any_windows : (windows : List WindowRecord) → All AnyWindow windows
any_windows [] = tt
any_windows (w ∷ windows) = (tt, any_windows windows)

parse-mode_str : (mode : ContextMode) → parse_context_mode (mode_str mode) ≡ mode
unfolding parse_context_mode mode_str
parse-mode_str default = refl
parse-mode_str task = refl

current-mode_str :
    (mode : ContextMode) (id : Option Text)
    → (if text_eq (mode_str mode) (codes "global") then none else id) ≡ id
unfolding mode_str
current-mode_str default id = refl
current-mode_str task id = refl

module _ (task_table : Table TaskRow) (window_table : Table WindowRow)
    (lawful_tasks : IsLawful task_table (λ row. row.id))
    (lawful_windows : IsLawful window_table (λ row. row.hypr_address)) (f : Formats)
    (formats : IsFormats f) (maps : Maps) (json : IsMaps maps) where
  state_from-SameEntries :
      (config : TskConfig) (before later : TaskRow → ℕ × ℕ) (state : SessionState)
      (old : Database task_table window_table) (k j : Text)
      → IsKeyedBy (λ (t : Task). t.id) state.tasks
      → All (IsWritable f) (values state.tasks)
      → All (IsDated f) (task_table.rows old.tasks)
      → IsKeyedBy (λ (w : WindowRecord). w.hypr_address) state.windows
      → SameEntries state
          (state_from task_table window_table f maps config later
            (write_session maps state)
            (record {
              session = some (write_session maps state);
              tasks = sync_rows task_table (task_codec f before) state.tasks old.tasks;
              windows = sync_rows window_table window_codec state.windows old.windows;
            }))
          k
          j
  unfolding state_from write_session window_codec
  state_from-SameEntries config before later state old k j keyed fits dated keyed_windows = record {
    context_mode = parse-mode_str state.context_mode;
    current_task_id = current-mode_str state.context_mode state.current_task_id;
    last_workspace =
        rw (json.slots-from state.last_workspace) (json.get-slots state.last_workspace k);
    last_monitor_workspace =
        rw (json.monitors-from state.last_monitor_workspace)
          (json.get-monitors state.last_monitor_workspace k j);
    tasks =
        tasks-load-sync task_table lawful_tasks f formats before later state.tasks old.tasks k keyed
          fits dated;
    windows =
        load-sync window_table window_codec (λ row. row.hypr_address) AnyWindow lawful_windows
          window_codec-IsCodec state.windows old.windows k keyed_windows
          (any_windows (values state.windows));
  }

  -- A session that is stored in a database that has its session row is stored, and the one that is
  -- loaded later, whatever the clock says then, has the same context and the same entries under
  -- every key. Conditions: SQLite, JSON and the text formats keep their promises, tasks and
  -- windows stand once and under their ids, the tasks' numbers of workspaces fit u32 and their
  -- paths are UTF-8, and the instants in the rows that the table of tasks held before can be read.
  pub load-save_state :
      (config : TskConfig) (before later : TaskRow → ℕ × ℕ) (state : SessionState)
      (old : Database task_table window_table) (row : SessionRow) (k j : Text)
      → old.session ≡ some row
      → IsKeyedBy (λ (t : Task). t.id) state.tasks
      → All (IsWritable f) (values state.tasks)
      → All (IsDated f) (task_table.rows old.tasks)
      → IsKeyedBy (λ (w : WindowRecord). w.hypr_address) state.windows
      → (saved : Database task_table window_table) × (loaded : SessionState) × (save_state
            task_table window_table f maps before state old
          ≡ some saved)
        × (load_state task_table window_table f maps config later saved ≡ some loaded)
        × SameEntries state loaded k j
  unfolding save_state load_state
  load-save_state config before later state old row k j present keyed fits dated keyed_windows =
      let saved : Database task_table window_table = record {
        session = some (write_session maps state);
        tasks = sync_rows task_table (task_codec f before) state.tasks old.tasks;
        windows = sync_rows window_table window_codec state.windows old.windows;
      } in
      (
        saved,
        state_from task_table window_table f maps config later (write_session maps state) saved,
        rw present refl,
        refl,
        state_from-SameEntries config before later state old k j keyed fits dated keyed_windows,
      )
