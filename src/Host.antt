-- ===== src/Host.antt =====
-- What the program meets outside its own state, and the monad in which it works on both.
-- The compositor is reached through crates/tsk-core/src/hyprland.rs, which runs `hyprctl`; its calls,
-- the clocks and the slot files under the runtime directory are the fields of an interface, and every
-- theorem holds for each value of it. A query may change the world too: time passes, and the next
-- query may answer otherwise. A failed query is `none`.
use hypr_taskspace.Prelude.{ℕ, Bool, Option, List}
use hypr_taskspace.Prelude.Int.{ℤ}
use hypr_taskspace.Prelude.Text.{Text}
use hypr_taskspace.Models.{SessionState, Task}

-- `hyprland::Monitor`
pub record Monitor : Type 0 where
  pub name : Text
  pub workspace_name : Text
  pub focused : Bool
  pub x : ℤ
  pub y : ℤ

-- `hyprland::HyprWindow`
pub record HyprWindow : Type 0 where
  pub address : Text
  pub title : Text
  pub class_name : Text
  pub workspace : ℤ
  pub workspace_name : Text
  pub pid : Option ℤ

-- `state_notify::StateChangeKind`
pub data StateChangeKind : Type 0 where
  workspace taskspace full : StateChangeKind

-- What `create_task` takes from the checkout that is made for a task.
pub record Provisioned : Type 0 where
  pub repo_url : Option Text
  pub repo_path : Text
  pub source_repo_path : Option Text
  pub branch : Option Text
  pub browser_profile : Text
  pub notes_path : Text

-- What the program asks of the compositor, of the clocks and of the files that it writes.
pub record System : Type 1 where
  pub World : Type 0
  -- `available()`
  pub available : World → Bool × World
  -- `list_monitors()`
  pub list_monitors : World → Option (List Monitor) × World
  -- the name of `get_active_workspace()`; the inner `none` is "no active workspace"
  pub active_workspace : World → Option (Option Text) × World
  -- `get_clients()`
  pub get_clients : World → Option (List HyprWindow) × World
  -- `switch_workspace_for_navigation(name)`
  pub switch_workspace : Text → World → World
  -- `switch_workspace_on_monitor(monitor, workspace)`
  pub switch_on_monitor : Text → Text → World → World
  -- `swap_active_workspaces(monitor_a, monitor_b)`
  pub swap_workspaces : Text → Text → World → World
  -- `focus_monitor(name)`
  pub focus_monitor : Text → World → World
  -- `move_active_window_to_workspace(name)`
  pub move_active_window : Text → World → World
  -- `move_window_to_workspace_silent(address, name)`
  pub move_window_silent : Text → Text → World → World
  -- `ensure_workspaces(names)`
  pub ensure_workspaces : List Text → World → World
  -- `close_tsk_tui_windows()`
  pub close_tui_windows : World → World
  -- `thread::sleep` for 50 ms
  pub sleep : World → World
  -- `Instant::now()` and `Utc::now()`
  pub now : World → ℕ × World
  -- the file `slot-{n}` under the runtime directory
  pub write_slot : ℕ → Text → World → World
  pub read_slot : ℤ → World → Option Text × World
  pub remove_slot : ℕ → World → World
  -- the file `context` under the runtime directory; `false` when the directory cannot be made
  pub write_context : Text → World → Bool × World
  -- whether the database has, or gets, its tables
  pub ensure_schema : World → Bool × World
  -- whether the database can be read, and whether a transaction on it is committed
  pub can_load : World → Bool × World
  pub can_save : World → Bool × World
  -- `hyprland::close_window(address)`
  pub close_window : Text → World → World
  -- the processes that a task has besides its windows; where the source only logs an error of such a
  -- call, the call gives no answer
  pub capture_browser : Task → World → World
  pub container_exists : Text → World → Bool × World
  pub create_container : Text → World → Bool × World
  pub start_container : Text → World → World
  pub stop_container : Text → World → World
  pub remove_container : Text → World → World
  pub detach_checkout : Task → World → World
  pub reattach_checkout : Task → World → Bool × World
  pub remove_checkout : Task → World → World
  pub data_dir_exists : Text → World → Bool × World
  pub remove_data_dir : Task → World → World
  pub run_on_restore : Task → World → World
  pub run_on_create : Task → World → World
  -- making the checkout and the files of a new task with an id and a name, and its handoff document
  pub provision : SessionState → Text → Text → World → Option Provisioned × World
  pub write_handoff : Task → Text → World → Bool × World
  -- four bytes for a task id, and a random suffix
  pub random_bytes : World → List ℕ × World
  pub uuid_like_suffix : World → Text × World
  -- the kernel's boot id, the one that is stored, and storing it; `none` and `false` are errors
  pub current_boot_id : World → Option Text × World
  pub read_stored_boot_id : World → Option (Option Text) × World
  pub write_stored_boot_id : Text → World → Bool × World
  -- `state_notify::publish(kind)`
  pub publish : StateChangeKind → World → World

-- `RecentIntentionalSwitch`
pub record RecentSwitch : Type 0 where
  pub dest_key : Text
  pub old_allowed : List Text
  pub at : ℕ

-- The session that is worked on, the world, and the process's two statics `RECENT` and
-- `MONITOR_HOTPLUG_AT`.
pub record Env (W : Type 0) : Type 0 where
  pub session : SessionState
  pub world : W
  pub recent : Option RecentSwitch
  pub hotplug_at : Option ℕ

-- A step on a state, with an answer.
abbrev pub State : Type 0 → Type 0 → Type 0
State S A = S → A × S

abbrev pub M : Type 0 → Type 0 → Type 0
M W = State (Env W)

infixl 5 ◌>>=◌ ◌>>◌
abbrev pub ◌>>=◌ : {S A B : Type 0} → State S A → (A → State S B) → State S B
◌>>=◌ m f s = f (m s).0 (m s).1

abbrev pub ◌>>◌ : {S B : Type 0} → State S (Unit {0}) → State S B → State S B
◌>>◌ m k s = k (m s).1

abbrev pub pure : {S A : Type 0} → A → State S A
pure a s = (a, s)

abbrev pub get_session : {W : Type 0} → M W SessionState
get_session s = (s.session, s)

abbrev pub modify : {W : Type 0} → (SessionState → SessionState) → M W (Unit {0})
modify f s = (tt, record s { session = f s.session })

-- A query of the world, and a change of it.
abbrev pub ask : {W A : Type 0} → (W → A × W) → M W A
ask query s = ((query s.world).0, record s { world = (query s.world).1 })

abbrev pub act : {W : Type 0} → (W → W) → M W (Unit {0})
act change s = (tt, record s { world = change s.world })

abbrev pub skip : {S : Type 0} → State S (Unit {0})
skip s = (tt, s)

-- The state behind a query.
abbrev pub asked : {W A : Type 0} → (W → A × W) → Env W → Env W
asked query s = record s { world = (query s.world).1 }
