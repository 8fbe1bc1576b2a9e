-- ===== src/Registry/RoundTrip.antt =====
-- crates/tsk-core/src/registry.rs: the tasks that are loaded later are the ones that were stored.
use hypr_taskspace.Prelude.{
  ℕ, Bool, true, false, Option, none, some, List, [], ◌∷◌, ◌≡◌, ◌≢◌, refl, arith, All,
}
use native.Mathlib.Decide.{ℕ_discrete}
use hypr_taskspace.Prelude.Text.{Text}
use hypr_taskspace.Prelude.Dict.{Dict, get, values}
use hypr_taskspace.Models.{Task}
use hypr_taskspace.Registry.{Table, Codec, load_rows, sync_rows}
use hypr_taskspace.Registry.Laws.{IsLawful, IsCodec, IsKeyedBy}
use hypr_taskspace.Registry.Again.{load_again-sync}
use hypr_taskspace.Registry.Tasks.{
  Formats, IsFormats, TaskRow, task_to_row, task_from_row, task_from-task_to_row, IsWritable,
  unwrap_or,
}

-- `Task: PartialEq`
pub Task-discrete : Discrete Task
Task-discrete = hlevel ℕ_discrete

abbrev pub is_yes : {P : Type 0} → Dec P → Bool
is_yes (yes p) = true
is_yes (no np) = false

pub is_yes_sound : {P : Type 0} (d : Dec P) → is_yes d ≡ true → P
is_yes_sound (yes p) h = p
is_yes_sound (no np) h = ground arith

unfoldable pub same_task : Task → Task → Bool
same_task a b = is_yes (Task-discrete a b)

-- The tasks as rows, in one pass over the table: for each row, the instants that the clock has when
-- `task_from_row` asks it.
unfoldable pub task_codec : Formats → (TaskRow → ℕ × ℕ) → Codec TaskRow Task
task_codec f clock = record {
  id = λ t. t.id;
  encode = task_to_row f;
  decode = λ row. task_from_row f (clock row) row;
  same = same_task;
}

task_codec-IsCodec :
    (f : Formats) (works : IsFormats f) (clock : TaskRow → ℕ × ℕ)
    → IsCodec (task_codec f clock) (λ row. row.id) (IsWritable f)
unfolding task_codec same_task task_to_row task_from_row
task_codec-IsCodec f works clock = record {
  decode-encode = λ t good. task_from-task_to_row f works (clock (task_to_row f t)) t good;
  key-encode = λ t. refl;
  id-decode = λ row. refl;
  same_sound = λ a b. is_yes_sound (Task-discrete a b);
}

-- The two instants of the row can be read, so that the clock is not asked.
pub record IsDated (f : Formats) (row : TaskRow) : Type 0 where
  pub created_at : f.parse_from_rfc3339 row.created_at ≢ none
  pub last_active_at : f.parse_from_rfc3339 row.last_active_at ≢ none

unwrap-agree : (raw : Option ℕ) (a b : ℕ) → raw ≢ none → unwrap_or raw a ≡ unwrap_or raw b
unwrap-agree none a b some_at = ground arith
unwrap-agree (some at) a b some_at = refl

dated-agree :
    (f : Formats) (before later : TaskRow → ℕ × ℕ) (rows : List TaskRow)
    → All (IsDated f) rows
    → All (λ row. task_from_row f (later row) row ≡ task_from_row f (before row) row) rows
unfolding task_from_row
dated-agree f before later [] dated = tt
dated-agree f before later (row ∷ rows) (d, dated) = (
  ground (
    arith,
    unwrap-agree (f.parse_from_rfc3339 row.created_at) (later row).0 (before row).0 d.created_at,
    unwrap-agree (f.parse_from_rfc3339 row.last_active_at) (later row).1 (before row).1
        d.last_active_at,
  ),
  dated-agree f before later rows dated,
)

-- The table of tasks, after the tasks of a session are stored in it, is loaded later as the same
-- tasks, whatever the clock says then: under every id the same task, or none. Conditions: SQLite
-- and the text formats keep their promises, each task stands once and under its id, its number of
-- workspaces fits u32 and its paths are UTF-8, and the instants in the rows that the table held
-- before can be read.
pub tasks-load-sync :
    (t : Table TaskRow) (lawful : IsLawful t (λ row. row.id)) (f : Formats) (works : IsFormats f)
    (before later : TaskRow → ℕ × ℕ) (desired : Dict Task) (r : t.Rows) (k : Text)
    → IsKeyedBy (λ (a : Task). a.id) desired
    → All (IsWritable f) (values desired)
    → All (IsDated f) (t.rows r)
    → get (load_rows t (task_codec f later) (sync_rows t (task_codec f before) desired r)) k
      ≡ get desired k
unfolding task_codec
tasks-load-sync t lawful f works before later desired r k keyed writable dated =
    load_again-sync t (task_codec f before) (λ row. row.id) (IsWritable f) lawful
      (task_codec-IsCodec f works before) (λ row. task_from_row f (later row) row)
      (task_codec-IsCodec f works later) desired r k keyed writable
      (dated-agree f before later (t.rows r) dated)
