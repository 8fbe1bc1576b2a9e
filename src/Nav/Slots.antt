-- ===== src/Nav/Slots.antt =====
-- crates/tsk-core/src/workspace_nav.rs: slots of a taskspace, and the slot that a monitor shows.
-- Slots are `i32` values, so they are integers; counts of slots and monitors are numbers, far below
-- the bound of `i32` to which the source casts them.
pub mod Steps
pub mod Choice
pub mod Names
use hypr_taskspace.Prelude.{
  ℕ, zero, suc, ◌+◌, ◌-◌, ◌%◌, ◌∷◌, [], List, map, Bool, true, false, ◌&&◌, ◌||◌, not, Option, none,
  some, if◌then◌else◌, ltb, leb, ℕ_eq, find, contains, position, get_elem?, head?, length, min, max,
  ◌==◌,
}
use hypr_taskspace.Prelude.Int.{ℤ, pos, negsuc, ℤ_eq, int_eq, as_u32}
use hypr_taskspace.Prelude.Text.{Text, Text_eq, codes}
use hypr_taskspace.Prelude.Dict.{Dict, get, values}
use hypr_taskspace.Models.{SessionState, taskspace_key}
use hypr_taskspace.Workspaces.{
  count_from, is_global_workspace_slot, default_taskspace_workspace_name, allowed_workspace_names,
}

-- `(relative - 1).max(0) as usize`
abbrev pub slot_index : ℤ → ℕ
slot_index (pos n) = n - 1
slot_index (negsuc n) = 0

abbrev pub or_else {ℓ} : {A : Type ℓ} → Option A → Option A → Option A
or_else none other = other
or_else (some a) other = some a

unfoldable pub workspace_name_at_relative : List Text → ℤ → Option Text
workspace_name_at_relative names relative =
    or_else (get_elem? names (slot_index relative)) (head? names)

unfoldable pub workspace_name_for_relative : SessionState → ℤ → Option Text
unfolding workspace_name_at_relative
workspace_name_for_relative state relative =
    workspace_name_at_relative (allowed_workspace_names state) relative

abbrev pub slot_of_index : Option ℕ → Option ℤ
slot_of_index none = none
slot_of_index (some i) = some (pos (suc i))

unfoldable pub relative_slot_in_allowed : Text → List Text → Option ℤ
relative_slot_in_allowed workspace_name allowed = slot_of_index (position allowed workspace_name)

-- `workspace_next_relative_from`, on the number of names; the current slot comes from a position, so
-- it is positive.
unfoldable pub next_relative_from : ℕ → Option ℕ → Bool → Option ℕ
next_relative_from zero current wrap = none
next_relative_from (suc n) none wrap = some 1
next_relative_from (suc n) (some c) true = some (c % suc n + 1)
next_relative_from (suc n) (some c) false = if ltb c (suc n) then some (c + 1) else none

unfoldable pub workspace_next_relative_from : SessionState → Option ℕ → Bool → Option ℕ
unfolding next_relative_from
workspace_next_relative_from state current wrap =
    next_relative_from (length (allowed_workspace_names state)) current wrap

unfoldable pub prev_relative_from : ℕ → Option ℕ → Bool → Option ℕ
prev_relative_from zero current wrap = none
prev_relative_from (suc n) none wrap = if wrap then some (suc n) else none
prev_relative_from (suc n) (some c) wrap =
    if ltb 1 c then some (c - 1) else if wrap then some (suc n) else none

unfoldable pub workspace_prev_relative_from : SessionState → Option ℕ → Bool → Option ℕ
unfolding prev_relative_from
workspace_prev_relative_from state current wrap =
    prev_relative_from (length (allowed_workspace_names state)) current wrap

-- The slots that a taskspace's monitors are saved with.
unfoldable pub saved_slots : SessionState → Text → Dict ℤ
saved_slots state key = elim (get state.last_monitor_workspace key) [ none ↦ [] | some m ↦ m ]

-- `(monitor_index + 1).min(max_slots.max(1))`
abbrev pub preferred_slot : ℕ → ℕ → ℕ
preferred_slot monitor_index max_slots = min (monitor_index + 1) (max max_slots 1)

-- The preferred slot if it is usable, else the next usable one above it, else the first below it.
unfoldable pub search_slot : (ℕ → Bool) → ℕ → ℕ → Option ℕ
search_slot usable preferred max_slots =
    if usable preferred
    then some preferred
    else or_else (find usable (count_from (preferred + 1) (max_slots - preferred)))
        (find usable (count_from 1 (preferred - 1)))

abbrev pub is_unused : Dict ℤ → ℕ → Bool
is_unused saved slot = not (contains (values saved) (pos slot))

-- The slot of a monitor that has none saved.
unfoldable pub unsaved_slot : Dict ℤ → ℕ → ℕ → ℕ
unfolding search_slot
unsaved_slot saved monitor_index max_slots =
    let preferred = preferred_slot monitor_index max_slots in
    elim (search_slot (is_unused saved) preferred max_slots) [ some slot ↦ slot | none ↦ preferred ]

unfoldable pub resolve_monitor_slot : SessionState → Text → Text → ℕ → ℕ → ℤ
unfolding unsaved_slot saved_slots
resolve_monitor_slot state dest_key monitor_name monitor_index max_slots =
    elim (get (saved_slots state dest_key) monitor_name) [
      | some slot ↦ slot
      | none ↦ pos (unsaved_slot (saved_slots state dest_key) monitor_index max_slots)
    ]

-- The closure `usable` of `first_unused_adopt_slot`.
unfoldable pub is_adoptable : SessionState → Text → ℕ → ℕ → Bool
unfolding saved_slots
is_adoptable state dest_key max_slots slot =
    leb 1 slot
    && leb slot (max max_slots 1)
    && is_unused (saved_slots state dest_key) slot
    && not (is_global_workspace_slot slot state.global_workspace_slots)

unfoldable pub first_unused_adopt_slot : SessionState → Text → ℕ → ℕ → ℤ
unfolding search_slot resolve_monitor_slot is_adoptable
first_unused_adopt_slot state dest_key monitor_index max_slots =
    elim (search_slot (is_adoptable state dest_key max_slots)
      (preferred_slot monitor_index max_slots) max_slots) [
        | some slot ↦ pos slot
        | none ↦ resolve_monitor_slot state dest_key [] monitor_index max_slots
      ]

-- `slot_to_adopt_for_taskspace_switch`
unfoldable pub slot_to_adopt_for_taskspace_switch : Text → List Text → List ℕ → Option ℤ
unfolding relative_slot_in_allowed
slot_to_adopt_for_taskspace_switch active_name new_allowed global_slots =
    elim (relative_slot_in_allowed active_name new_allowed) [
      | none ↦ none
      | some slot ↦ if is_global_workspace_slot (as_u32 slot) global_slots then none else some slot
    ]

unfoldable pub monitor_at_target : Option Text → Text → List Text → Bool
monitor_at_target none target new_allowed = false
monitor_at_target (some current) target new_allowed =
    current == target && contains new_allowed target

unfoldable pub monitor_needs_move : Option Text → Text → List Text → List Text → Bool
unfolding monitor_at_target
monitor_needs_move none target new_allowed old_allowed = true
monitor_needs_move (some current) target new_allowed old_allowed =
    if monitor_at_target (some current) target new_allowed
    then false
    else if contains old_allowed current
    then true
    else not (monitor_at_target (some current) target new_allowed)

-- `remembered_focus_slot`
unfoldable pub remembered_focus_slot : SessionState → ℤ
remembered_focus_slot state = elim (get state.last_workspace (taskspace_key state)) [
  | some slot ↦ slot
  | none ↦ pos 1
]
