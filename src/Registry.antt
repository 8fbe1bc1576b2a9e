-- ===== src/Registry.antt =====
-- crates/tsk-core/src/registry.rs: a map of the session is kept as a table of the database. SQLite is a
-- parameter: the rows that a table holds, and the two statements that change them.
pub mod Laws
pub mod Again
pub mod Tasks
pub mod RoundTrip
pub mod State
use hypr_taskspace.Prelude.{
  Bool, true, false, Option, none, some, List, [], ◌∷◌, map, ◌≡◌, if◌then◌else◌, find, contains,
  Distinct,
}
use hypr_taskspace.Prelude.Text.{Text, Text_eq, text_eq}
use hypr_taskspace.Prelude.Dict.{Dict, get, values, collect_into}

-- A table with a text as its primary key.
pub record Table (Row : Type 0) : Type 1 where
  pub Rows : Type 0
  -- `SELECT … FROM table`
  pub rows : Rows → List Row
  -- `INSERT OR REPLACE INTO table`
  pub replace : Row → Rows → Rows
  -- `DELETE FROM table WHERE pk NOT IN keep`
  pub delete_absent : List Text → Rows → Rows

-- How the values of a map are rows, and when two values are the same.
pub record Codec (Row A : Type 0) : Type 0 where
  pub id : A → Text
  pub encode : A → Row
  pub decode : Row → A
  pub same : A → A → Bool

module _ {Row A : Type 0} (t : Table Row) (c : Codec Row A) where
  abbrev entry_of : Row → Text × A
  entry_of row = (c.id (c.decode row), c.decode row)

  -- `load_tasks`, `load_windows`
  unfoldable pub load_rows : t.Rows → Dict A
  load_rows r = collect_into [] (map entry_of (t.rows r))

  -- `existing.get(id) != Some(value)` is the negation of this.
  unfoldable pub is_stored : Dict A → A → Bool
  is_stored existing a = elim (get existing (c.id a)) [ none ↦ false | some b ↦ c.same b a ]

  -- The loop over the values: those that are new or changed are written.
  unfoldable pub upsert_changed : Dict A → List A → t.Rows → t.Rows
  unfolding is_stored
  upsert_changed existing [] r = r
  upsert_changed existing (a ∷ more) r =
      upsert_changed existing more (if is_stored existing a then r else t.replace (c.encode a) r)

  -- `sync_tasks`, `sync_windows`
  unfoldable pub sync_rows : Dict A → t.Rows → t.Rows
  unfolding load_rows upsert_changed
  sync_rows desired r =
      t.delete_absent (map c.id (values desired)) (upsert_changed (load_rows r) (values desired) r)
