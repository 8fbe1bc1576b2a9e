-- ===== src/Models.antt =====
-- crates/tsk-core/src/models.rs: the session state, its tasks and windows.
-- Instants (`DateTime<Utc>`) are numbers on one time line; paths are texts.
pub mod Order
pub mod Slug
use hypr_taskspace.Prelude.{
  ℕ, ◌≡◌, refl, ◌++◌, Bool, true, false, Option, none, some, List, if◌then◌else◌,
}
use hypr_taskspace.Prelude.Int.{ℤ}
use hypr_taskspace.Prelude.Text.{Text, codes}
use hypr_taskspace.Prelude.Dict.{Dict}

pub data ContextMode : Type 0 where
  default task : ContextMode

pub data TaskStatus : Type 0 where
  active idle archived : TaskStatus

-- `mode == other`
abbrev pub mode_eq : ContextMode → ContextMode → Bool
mode_eq default default = true
mode_eq default task = false
mode_eq task default = false
mode_eq task task = true

abbrev pub is_archived : TaskStatus → Bool
is_archived active = false
is_archived idle = false
is_archived archived = true

-- `ContextMode::as_str`
unfoldable pub mode_str : ContextMode → Text
mode_str default = codes "default"
mode_str task = codes "task"

-- `TaskStatus::as_str`
unfoldable pub status_str : TaskStatus → Text
status_str active = codes "active"
status_str idle = codes "idle"
status_str archived = codes "archived"

pub record Task : Type 0 where
  pub id : Text
  pub name : Text
  pub status : TaskStatus
  pub repo_url : Option Text
  pub repo_path : Text
  pub source_repo_path : Option Text
  pub branch : Option Text
  pub container_name : Text
  pub container_isolation : Bool
  pub workspace_count : ℕ
  pub browser_profile : Option Text
  pub created_at : ℕ
  pub last_active_at : ℕ
  pub listed_at : ℕ
  pub agent_notes_path : Option Text
  pub ports : List ℕ

pub record WindowRecord : Type 0 where
  pub hypr_address : Text
  pub task_id : Option Text
  pub title : Text
  pub class_name : Text
  pub workspace : ℤ
  pub workspace_name : Text
  pub home_workspace_name : Text
  pub pid : Option ℤ

pub record SessionState : Type 0 where
  pub context_mode : ContextMode
  pub current_task_id : Option Text
  pub last_workspace : Dict ℤ
  pub last_monitor_workspace : Dict (Dict ℤ)
  pub default_workspace_count : ℕ
  pub global_workspace_slots : List ℕ
  pub tasks : Dict Task
  pub windows : Dict WindowRecord

-- The key of a context, from its mode and task.
context_key : ContextMode → Option Text → Text
unfolding mode_str
context_key default id = mode_str default
context_key task none = mode_str task
context_key task (some id) = codes "task:" ++ id

-- `SessionState::taskspace_key`
unfoldable pub taskspace_key : SessionState → Text
unfolding context_key
taskspace_key state = context_key state.context_mode state.current_task_id
