-- ===== src/TaskIds.antt =====
-- crates/tsk-core/src/task_ids.rs: short display ids, labels, and looking a task up by what the
-- user typed. Lengths count characters; the source's byte slices are the same for the ASCII ids that
-- the program makes.
pub mod Prefix
pub mod Lookup
use mathlib.Core.List.{foldr}
use hypr_taskspace.Prelude.{
  ℕ, zero, suc, ◌∷◌, [], ◌++◌, List, map, Bool, true, false, ◌&&◌, not, Option, none, some,
  if◌then◌else◌, filter, find, all, take, length,
}
use hypr_taskspace.Prelude.Text.{Text, codes, starts_with, to_ascii_lowercase, eq_ignore_ascii_case}
use hypr_taskspace.Prelude.Dict.{get, values}
use hypr_taskspace.Models.{SessionState, Task, is_archived}
use hypr_taskspace.Workspaces.{is_some_and, is_global_workspace_name, workspace_display_label}

abbrev pub is_nil {ℓ} : {A : Type ℓ} → List A → Bool
is_nil [] = true
is_nil (x ∷ xs) = false

-- `id_lower[..len]` starts none of the others.
unfoldable pub is_unique_at : Text → List Text → ℕ → Bool
is_unique_at id_lower others len = all (λ other. not (starts_with (take len id_lower) other)) others

-- The loop over `len..=id.len()`, with the number of rounds left.
unfoldable pub first_unique : Text → Text → List Text → ℕ → ℕ → Text
unfolding is_unique_at
first_unique id id_lower others len zero = id
first_unique id id_lower others len (suc rounds) =
    if is_unique_at id_lower others len
    then take len id
    else first_unique id id_lower others (suc len) rounds

-- The other ids, in lower case.
unfoldable pub other_ids : Text → List Text → List Text
other_ids id ids =
    map to_ascii_lowercase (filter (λ other. not (eq_ignore_ascii_case other id)) ids)

unfoldable pub unique_id_prefix : Text → List Text → Text
unfolding first_unique other_ids
unique_id_prefix id ids =
    if is_nil (other_ids id ids)
    then id
    else first_unique id (to_ascii_lowercase id) (other_ids id ids) 1 (length id)

unfoldable pub active_task_ids : SessionState → List Text
active_task_ids state =
    map (λ t. t.id) (filter (λ t. not (is_archived t.status)) (values state.tasks))

unfoldable pub short_task_id : SessionState → Text → Text
unfolding unique_id_prefix active_task_ids
short_task_id state task_id = unique_id_prefix task_id (active_task_ids state)

unfoldable pub workspace_slot_label : Text → Option SessionState → Text
workspace_slot_label name state =
    let slot = workspace_display_label name in
    if is_some_and (is_global_workspace_name name) state then slot ++ codes " (global)" else slot

-- `join(sep)`
abbrev pub join : Text → List Text → Text
join sep [] = []
join sep (s ∷ []) = s
join sep (s ∷ t ∷ more) = s ++ sep ++ join sep (t ∷ more)

unfoldable pub format_workspaces_tooltip : List Text → SessionState → Text
unfolding workspace_slot_label
format_workspaces_tooltip workspaces state =
    join (codes ", ") (map (λ name. workspace_slot_label name (some state)) workspaces)

unfoldable pub workspace_tooltip_label : Option SessionState → Text → Text
unfolding workspace_slot_label
workspace_tooltip_label state workspace_name =
    codes "Workspace " ++ workspace_slot_label workspace_name state

pub data TaskLookup : Type 0 where
  found : Task → TaskLookup
  not_found : TaskLookup
  ambiguous_prefix : List Text → TaskLookup

-- The last step of `lookup_task`, on the tasks whose id has the prefix.
unfoldable pub pick_match : List Task → TaskLookup
pick_match [] = not_found
pick_match (t ∷ []) = found t
pick_match (t ∷ u ∷ more) = ambiguous_prefix (map (λ m. m.id) (t ∷ u ∷ more))

-- The live tasks whose id has a prefix, whatever its case.
unfoldable pub prefix_matches : SessionState → Text → List Task
prefix_matches state name_or_id =
    filter (λ t. starts_with (to_ascii_lowercase name_or_id) (to_ascii_lowercase t.id))
      (filter (λ t. not (is_archived t.status)) (values state.tasks))

unfoldable pub lookup_task : SessionState → Text → TaskLookup
unfolding pick_match prefix_matches
lookup_task state name_or_id = elim (get state.tasks name_or_id) [
  | some t ↦ found t
  | none ↦ elim (find (λ t. eq_ignore_ascii_case t.name name_or_id) (values state.tasks)) [
    | some t ↦ found t
    | none ↦ pick_match (prefix_matches state name_or_id)
  ]
]
