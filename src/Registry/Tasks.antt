-- ===== src/Registry/Tasks.antt =====
-- crates/tsk-core/src/registry.rs: tasks as rows. `chrono`, `serde_json` and
-- `Path::to_string_lossy` are parameters.
use hypr_taskspace.Prelude.{
  ℕ, ◌-◌, ◌^◌, ◌≤◌, false, not, Option, none, some, List, [], ◌≡◌, refl, ap, arith, Bool-cases, inl,
  inr, if◌then◌else◌, ltb,
}
use hypr_taskspace.Prelude.Int.{ℤ, pos, negsuc, as_u32, int_eq}
use hypr_taskspace.Prelude.Text.{Text, codes, text_eq, is_empty}
use hypr_taskspace.Prelude.Decimal.{u32_max}
use hypr_taskspace.Models.{Task, TaskStatus, active, idle, archived, status_str}

-- How instants, ports and paths are written, and how instants and ports are read.
pub record Formats : Type 0 where
  pub to_rfc3339 : ℕ → Text
  pub parse_from_rfc3339 : Text → Option ℕ
  pub ports_to_string : List ℕ → Text
  pub ports_from_str : Text → Option (List ℕ)
  pub to_string_lossy : Text → Text

-- The columns of the table of tasks; a text or a number that may be NULL is an option.
pub record TaskRow : Type 0 where
  pub id : Text
  pub name : Text
  pub status : Text
  pub repo_url : Option Text
  pub repo_path : Text
  pub branch : Option Text
  pub container_name : Text
  pub desktop_count : ℤ
  pub browser_profile : Option Text
  pub created_at : Text
  pub last_active_at : Text
  pub agent_notes_path : Option Text
  pub ports : Text
  pub source_repo_path : Option Text
  pub container_isolation : Option ℤ
  pub listed_at : Option Text

-- `a as i32` of a `u32`
abbrev pub as_i32 : ℕ → ℤ
as_i32 n = if ltb n (2 ^ 31) then pos n else negsuc (2 ^ 32 - 1 - n)

unfoldable pub parse_status : Text → TaskStatus
parse_status raw =
    if text_eq raw (codes "idle")
    then idle
    else if text_eq raw (codes "archived")
    then archived
    else active

abbrev pub unwrap_or {ℓ} : {A : Type ℓ} → Option A → A → A
unwrap_or none a = a
unwrap_or (some b) a = b

-- `map(|p| p.to_string_lossy().into_owned())`
abbrev pub map_path : (Text → Text) → Option Text → Option Text
map_path lossy none = none
map_path lossy (some path) = some (lossy path)

module _ (f : Formats) where
  -- The row that `upsert_task` writes.
  unfoldable pub task_to_row : Task → TaskRow
  task_to_row t = record {
    id = t.id;
    name = t.name;
    status = status_str t.status;
    repo_url = t.repo_url;
    repo_path = f.to_string_lossy t.repo_path;
    branch = t.branch;
    container_name = t.container_name;
    desktop_count = as_i32 t.workspace_count;
    browser_profile = t.browser_profile;
    created_at = f.to_rfc3339 t.created_at;
    last_active_at = f.to_rfc3339 t.last_active_at;
    agent_notes_path = map_path f.to_string_lossy t.agent_notes_path;
    ports = f.ports_to_string t.ports;
    source_repo_path = map_path f.to_string_lossy t.source_repo_path;
    container_isolation = some (if t.container_isolation then pos 1 else pos 0);
    listed_at = some (f.to_rfc3339 t.listed_at);
  }

  unfoldable pub parse_listed_at : Option Text → ℕ → ℕ
  parse_listed_at none created_at = created_at
  parse_listed_at (some raw) created_at =
      if is_empty raw then created_at else unwrap_or (f.parse_from_rfc3339 raw) created_at

  -- An instant that cannot be read is now, at each of the two calls of `Utc::now`; the ports that
  -- cannot be read are none.
  unfoldable pub task_from_row : ℕ × ℕ → TaskRow → Task
  unfolding parse_listed_at parse_status
  task_from_row now row =
      let created_at = unwrap_or (f.parse_from_rfc3339 row.created_at) now.0 in
      record {
        id = row.id;
        name = row.name;
        status = parse_status row.status;
        repo_url = row.repo_url;
        repo_path = row.repo_path;
        source_repo_path = row.source_repo_path;
        branch = row.branch;
        container_name = row.container_name;
        container_isolation = not (int_eq (unwrap_or row.container_isolation (pos 0)) (pos 0));
        workspace_count = as_u32 row.desktop_count;
        browser_profile = row.browser_profile;
        created_at = created_at;
        last_active_at = unwrap_or (f.parse_from_rfc3339 row.last_active_at) now.1;
        listed_at = parse_listed_at row.listed_at created_at;
        agent_notes_path = row.agent_notes_path;
        ports = unwrap_or (f.ports_from_str row.ports) [];
      }

-- What the program relies on: what is written is read back, and no instant is written as nothing.
pub record IsFormats (f : Formats) : Type 0 where
  pub parse-to : (at : ℕ) → f.parse_from_rfc3339 (f.to_rfc3339 at) ≡ some at
  pub to-nonempty : (at : ℕ) → is_empty (f.to_rfc3339 at) ≡ false
  pub from-to : (ports : List ℕ) → f.ports_from_str (f.ports_to_string ports) ≡ some ports

pub as_u32-as_i32 : (n : ℕ) → n ≤ u32_max → as_u32 (as_i32 n) ≡ n
as_u32-as_i32 n h = elim (Bool-cases (ltb n (2 ^ 31))) [
  | inl low ↦ rw low (omega arith)
  | inr high ↦ rw high (omega arith)
]

parse-status_str : (s : TaskStatus) → parse_status (status_str s) ≡ s
unfolding parse_status status_str
parse-status_str active = refl
parse-status_str idle = refl
parse-status_str archived = refl

-- The path is UTF-8, so that nothing is lost; for a path that may be missing, too.
abbrev pub IsUtf8 : (Text → Text) → Option Text → Type 0
IsUtf8 lossy none = Unit {0}
IsUtf8 lossy (some path) = lossy path ≡ path

-- A task that its row can hold.
pub record IsWritable (f : Formats) (t : Task) : Type 0 where
  pub workspace_count : t.workspace_count ≤ u32_max
  pub repo_path : IsUtf8 f.to_string_lossy (some t.repo_path)
  pub source_repo_path : IsUtf8 f.to_string_lossy t.source_repo_path
  pub agent_notes_path : IsUtf8 f.to_string_lossy t.agent_notes_path

map_path-IsUtf8 :
    (lossy : Text → Text) (path : Option Text) → IsUtf8 lossy path → map_path lossy path ≡ path
map_path-IsUtf8 lossy none h = refl
map_path-IsUtf8 lossy (some path) h = ap (λ r. some r) h

-- A task whose number of workspaces fits u32 and whose paths are UTF-8 is the one that its row is
-- read as, at any time, if instants and ports are read as they were written and no instant is
-- written as nothing.
pub task_from-task_to_row :
    (f : Formats) (works : IsFormats f) (now : ℕ × ℕ) (t : Task)
    → IsWritable f t
    → task_from_row f now (task_to_row f t) ≡ t
unfolding task_from_row task_to_row parse_listed_at
task_from-task_to_row f works now t fits = ground (
  arith,
  works.parse-to t.created_at,
  works.parse-to t.last_active_at,
  works.parse-to t.listed_at,
  works.to-nonempty t.listed_at,
  works.from-to t.ports,
  as_u32-as_i32 t.workspace_count fits.workspace_count,
  parse-status_str t.status,
  fits.repo_path,
  map_path-IsUtf8 f.to_string_lossy t.source_repo_path fits.source_repo_path,
  map_path-IsUtf8 f.to_string_lossy t.agent_notes_path fits.agent_notes_path,
)
