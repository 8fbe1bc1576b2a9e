-- ===== src/Tests/Tables.antt =====
-- A table as a list of rows, and the sample tasks stored in it.
use hypr_taskspace.Prelude.{
  ℕ, Bool, not, Option, none, some, List, [], ◌∷◌, ◌≡◌, refl, arith, map, ltb, if◌then◌else◌,
  filter, contains, All, Bool-cases, inl, inr,
}
use hypr_taskspace.Prelude.Text.{Text, Text_eq, codes, text_eq, text_eq_iff}
use hypr_taskspace.Prelude.Dict.{get, values}
use hypr_taskspace.Models.{Task, SessionState}
use hypr_taskspace.Registry.{Table, load_rows, sync_rows}
use hypr_taskspace.Registry.Laws.{find_row, HasKey, IsLawful, IsKeyedBy}
use hypr_taskspace.Registry.Tasks.{
  Formats, IsFormats, IsWritable, TaskRow, task_from-task_to_row, task_from_row, task_to_row,
}
use hypr_taskspace.Registry.RoundTrip.{task_codec, IsDated, tasks-load-sync}
use hypr_taskspace.Registry.State.{SessionRow, WindowRow, Database, save_state, load_state}
use hypr_taskspace.Registry.State.Laws.{SameEntries, load-save_state}
use hypr_taskspace.Tests.Codes.{coded_maps, coded-IsMaps}
use hypr_taskspace.Tests.Sample.{session, billing, search_page, settings}

module _ {Row : Type 0} (key : Row → Text) where
  abbrev with_key : (Text → Bool) → List Row → List Row
  with_key p rows = filter (λ row. p (key row)) rows

  find_row-with_key :
      (p : Text → Bool) (rows : List Row) (k : Text)
      → find_row key k (with_key p rows) ≡ (if p k then find_row key k rows else none)
  find_row-with_key p [] k = ground arith
  find_row-with_key p (row ∷ rows) k = elim (Bool-cases (text_eq (key row) k)) [
    | inl own ↦
        let e = (text_eq_iff (key row) k).0 own in ground (arith, find_row-with_key p rows k)
    | inr other ↦ ground (arith, find_row-with_key p rows k)
  ]

  with_key-HasKey :
      (p : Text → Bool) (rows : List Row) → HasKey key rows → HasKey key (with_key p rows)
  with_key-HasKey p [] d = tt
  with_key-HasKey p (row ∷ rows) (fresh, d) = elim (Bool-cases (p (key row))) [
    | inl kept ↦
        rw kept (ground (arith, find_row-with_key p rows (key row)), with_key-HasKey p rows d)
    | inr gone ↦ rw gone (with_key-HasKey p rows d)
  ]

  abbrev other_than : Text → Text → Bool
  other_than k j = not (text_eq j k)

  without_itself :
      (row : Row) (rows : List Row)
      → find_row key (key row) (with_key (other_than (key row)) rows) ≡ none
  without_itself row rows = ground (
    arith,
    find_row-with_key (other_than (key row)) rows (key row),
    text_eq_iff (key row) (key row),
  )

  abbrev list_table : Table Row
  list_table = record {
    Rows = (rows : List Row) × HasKey key rows;
    rows = λ r. r.0;
    replace = λ row r. (
      row ∷ with_key (other_than (key row)) r.0,
      (without_itself row r.0, with_key-HasKey (other_than (key row)) r.0 r.1),
    );
    delete_absent =
        λ keep r. (with_key (contains keep) r.0, with_key-HasKey (contains keep) r.0 r.1);
  }

  list_table-IsLawful : IsLawful list_table key
  list_table-IsLawful = record {
    distinct = λ r. r.1;
    find-replace = λ row r k. ground (
      arith,
      find_row-with_key (other_than (key row)) r.0 k,
      text_eq_iff (key row) k,
      text_eq_iff k (key row),
    );
    find-delete_absent = λ keep r k. find_row-with_key (contains keep) r.0 k;
  }

abbrev read_single : Text → Option ℕ
read_single [] = none
read_single (n ∷ []) = some n
read_single (n ∷ m ∷ more) = none

-- A byte that is not UTF-8 by itself becomes the replacement character.
abbrev printable : ℕ → ℕ
printable byte = if ltb byte 128 then byte else 65533

abbrev plain : Formats
plain = record {
  to_rfc3339 = λ at. at ∷ [];
  parse_from_rfc3339 = read_single;
  ports_to_string = λ ports. ports;
  ports_from_str = λ text. some text;
  to_string_lossy = λ path. map printable path;
}

plain-IsFormats : IsFormats plain
plain-IsFormats = record {
  parse-to = λ at. refl;
  to-nonempty = λ at. refl;
  from-to = λ ports. refl;
}

billing-IsWritable : IsWritable plain billing
billing-IsWritable = record {
  workspace_count = omega arith;
  repo_path = refl;
  source_repo_path = tt;
  agent_notes_path = tt;
}

search_page-IsWritable : IsWritable plain search_page
search_page-IsWritable = record {
  workspace_count = omega arith;
  repo_path = refl;
  source_repo_path = tt;
  agent_notes_path = tt;
}

task_from-task_to_row_example : task_from_row plain (7, 8) (task_to_row plain billing) ≡ billing
task_from-task_to_row_example =
    task_from-task_to_row plain plain-IsFormats (7, 8) billing billing-IsWritable

session-IsKeyedBy : IsKeyedBy (λ (t : Task). t.id) session.tasks
unfolding get
session-IsKeyedBy = (refl, refl, (refl, refl, tt))

session-IsWritable : All (IsWritable plain) (values session.tasks)
session-IsWritable = (billing-IsWritable, (search_page-IsWritable, tt))

abbrev morning : TaskRow → ℕ × ℕ
morning row = (7, 7)

abbrev evening : TaskRow → ℕ × ℕ
evening row = (19, 20)

-- A table that holds the first task as it was earlier.
abbrev old_row : TaskRow
old_row = record (task_to_row plain billing) { name = codes "Bills" }

old_row-IsDated : IsDated plain old_row
unfolding task_to_row
old_row-IsDated = record { created_at = λ e. ground arith; last_active_at = λ e. ground arith }

abbrev task_table : Table TaskRow
task_table = list_table (λ row. row.id)

abbrev old_rows : task_table.Rows
old_rows = (old_row ∷ [], (refl, tt))

tasks-load-sync_example :
    get
      (load_rows task_table
        (task_codec plain evening)
        (sync_rows task_table (task_codec plain morning) session.tasks old_rows))
      (codes "t3b71")
    ≡ get session.tasks (codes "t3b71")
tasks-load-sync_example =
    tasks-load-sync task_table (list_table-IsLawful (λ row. row.id)) plain plain-IsFormats morning
      evening session.tasks old_rows (codes "t3b71") session-IsKeyedBy session-IsWritable
      (old_row-IsDated, tt)

abbrev window_table : Table WindowRow
window_table = list_table (λ row. row.hypr_address)

abbrev first_row : SessionRow
first_row = record {
  context_mode = codes "default";
  current_task_id = none;
  last_desktop = [];
  last_monitor_workspace = [];
}

abbrev new_database : Database task_table window_table
new_database = record { session = some first_row; tasks = old_rows; windows = ([], tt) }

load-save_state_example :
    (saved : Database task_table window_table) × (loaded : SessionState) × (save_state task_table
        window_table plain coded_maps morning session new_database
      ≡ some saved)
    × (load_state task_table window_table plain coded_maps settings evening saved ≡ some loaded)
    × SameEntries session loaded (codes "t3b71") (codes "DP-1")
load-save_state_example =
    load-save_state task_table window_table (list_table-IsLawful (λ row. row.id))
      (list_table-IsLawful (λ row. row.hypr_address)) plain plain-IsFormats coded_maps coded-IsMaps
      settings morning evening session new_database first_row (codes "t3b71") (codes "DP-1") refl
      session-IsKeyedBy session-IsWritable (old_row-IsDated, tt) tt
