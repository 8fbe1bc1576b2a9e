-- ===== src/Workspaces.antt =====
-- crates/tsk-core/src/workspaces.rs: workspace names, their slots, and the names of a taskspace.
-- `u32` values are numbers; the lemmas bound them where they are printed or parsed.
pub mod Names
pub mod Bar
pub mod Owner
pub mod Primary
use hypr_taskspace.Prelude.{
  ℕ, zero, suc, ◌-◌, ◌∷◌, [], ◌++◌, List, map, Bool, true, false, ◌&&◌, not, Option, none, some,
  if◌then◌else◌, leb, ℕ_eq, filter, find, any, contains, get_elem?, head?, ◌==◌,
}
use hypr_taskspace.Prelude.Text.{Text, codes, text_eq, Text_eq, is_empty, starts_with}
use hypr_taskspace.Prelude.Decimal.{to_string, parse_u32}
use hypr_taskspace.Prelude.Dict.{values}
use hypr_taskspace.Models.{ContextMode, SessionState, Task, default, task, is_archived}

-- `count` numbers from `lo` on: `(1..=count)` is `count_from 1 count`.
abbrev pub count_from : ℕ → ℕ → List ℕ
count_from lo zero = []
count_from lo (suc count) = lo ∷ count_from (suc lo) count

abbrev pub is_some_and {ℓ} : {A : Type ℓ} → (A → Bool) → Option A → Bool
is_some_and p none = false
is_some_and p (some a) = p a

-- `rsplit_once(sep)`: the text before and behind the last separator
unfoldable pub rsplit_once : ℕ → Text → Option (Text × Text)
rsplit_once sep [] = none
rsplit_once sep (c ∷ s) = elim (rsplit_once sep s) [
  | some (before, behind) ↦ some (c ∷ before, behind)
  | none ↦ if c == sep then some ([], s) else none
]

unfoldable pub default_taskspace_workspace_name : ℕ → Text
default_taskspace_workspace_name relative = to_string relative

unfoldable pub default_taskspace_workspace_names : ℕ → List Text
default_taskspace_workspace_names count = map default_taskspace_workspace_name (count_from 1 count)

unfoldable pub is_global_workspace_slot : ℕ → List ℕ → Bool
is_global_workspace_slot slot global_slots = contains global_slots slot

unfoldable pub is_global_workspace_name : Text → SessionState → Bool
is_global_workspace_name name state =
    is_some_and (λ slot. is_global_workspace_slot slot state.global_workspace_slots)
      (parse_u32 name)

unfoldable pub is_default_taskspace_workspace_name : Text → ℕ → Bool
is_default_taskspace_workspace_name name workspace_count =
    is_some_and (λ n. leb 1 n && leb n workspace_count) (parse_u32 name)

unfoldable pub task_workspace_name : Text → ℕ → Text
task_workspace_name task_id relative = task_id ++ b'-' ∷ to_string relative

unfoldable pub task_workspace_names : Text → ℕ → List Text
task_workspace_names task_id count = map (task_workspace_name task_id) (count_from 1 count)

unfoldable pub primary_task_workspace_slot : ℕ → List ℕ → ℕ
primary_task_workspace_slot default_workspace_count global_slots =
    elim (find (λ slot. not (is_global_workspace_slot slot global_slots))
      (count_from 1 default_workspace_count)) [ some slot ↦ slot | none ↦ 1 ]

unfoldable pub primary_task_workspace : Text → ℕ → List ℕ → Text
primary_task_workspace task_id default_workspace_count global_slots =
    task_workspace_name task_id (primary_task_workspace_slot default_workspace_count global_slots)

unfoldable pub task_owned_workspace_names : Text → ℕ → List ℕ → List Text
task_owned_workspace_names task_id default_workspace_count global_slots =
    map (task_workspace_name task_id) (
      filter (λ slot. not (is_global_workspace_slot slot global_slots))
        (count_from 1 default_workspace_count))

-- The name of one slot in a task's taskspace.
unfoldable pub slot_name : SessionState → Text → ℕ → Text
slot_name state task_id slot =
    if is_global_workspace_slot slot state.global_workspace_slots
    then default_taskspace_workspace_name slot
    else task_workspace_name task_id slot

unfoldable pub task_taskspace_workspace_names : SessionState → Text → List Text
task_taskspace_workspace_names state task_id =
    map (slot_name state task_id) (count_from 1 state.default_workspace_count)

unfoldable pub relative_slot_from_name : Text → Option ℕ
unfolding rsplit_once
relative_slot_from_name name = elim (parse_u32 name) [
  | some n ↦ some n
  | none ↦ elim (rsplit_once b'-' name) [ none ↦ none | some (_, rel) ↦ parse_u32 rel ]
]

unfoldable pub workspace_display_label : Text → Text
workspace_display_label name =
    let rel : ℕ = elim (relative_slot_from_name name) [ none ↦ 0 | some n ↦ n ] in
    if rel == 10 then codes "0" else if leb 1 rel then to_string rel else name

-- Whether a task claims the workspace, by the prefix of the name.
unfoldable pub claims : Text → Task → Bool
claims name t = not (is_archived t.status) && starts_with (t.id ++ b'-' ∷ []) name

unfoldable pub task_for_workspace_name : SessionState → Text → Option Task
unfolding claims
task_for_workspace_name state name =
    if is_default_taskspace_workspace_name name state.default_workspace_count
    then none
    else find (claims name) (values state.tasks)

unfoldable pub is_managed_workspace_name : SessionState → Text → Bool
is_managed_workspace_name state name =
    if is_empty name
    then false
    else if is_default_taskspace_workspace_name name state.default_workspace_count
    then true
    else is_some_and (λ _. true) (task_for_workspace_name state name)

-- The names of the context with a mode and a task.
unfoldable pub context_names : SessionState → ContextMode → Option Text → List Text
context_names state default id = default_taskspace_workspace_names state.default_workspace_count
context_names state task none = default_taskspace_workspace_names state.default_workspace_count
context_names state task (some id) = task_taskspace_workspace_names state id

unfoldable pub allowed_workspace_names : SessionState → List Text
unfolding context_names
allowed_workspace_names state = context_names state state.context_mode state.current_task_id

unfoldable pub bar_workspace_names : SessionState → List Text
bar_workspace_names state = allowed_workspace_names state

-- What a name that is not on the bar maps to, by its slot.
unfoldable pub resolve_by_slot : Text → SessionState → List Text → ℕ → Option Text
resolve_by_slot hypr_name state bar_names rel =
    if is_some_and
        (λ _. is_default_taskspace_workspace_name hypr_name state.default_workspace_count)
        (parse_u32 hypr_name)
      && not (contains bar_names hypr_name)
    then none
    else if is_global_workspace_slot rel state.global_workspace_slots
        && contains bar_names (default_taskspace_workspace_name rel)
    then some (default_taskspace_workspace_name rel)
    else get_elem? bar_names (rel - 1)

unfoldable pub resolve_bar_workspace_name : Text → SessionState → List Text → Option Text
unfolding resolve_by_slot
resolve_bar_workspace_name hypr_name state bar_names =
    if contains bar_names hypr_name
    then some hypr_name
    else elim (relative_slot_from_name hypr_name) [
      | none ↦ none
      | some rel ↦ resolve_by_slot hypr_name state bar_names rel
    ]

unfoldable pub bar_active_workspace_name : Text → SessionState → List Text → Text
bar_active_workspace_name active_hypr_name state bar_names =
    elim (resolve_bar_workspace_name active_hypr_name state bar_names) [
      | some name ↦ name
      | none ↦ elim (head? bar_names) [ some name ↦ name | none ↦ codes "1" ]
    ]
