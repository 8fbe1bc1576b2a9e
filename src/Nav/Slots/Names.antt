-- ===== src/Nav/Slots/Names.antt =====
-- crates/tsk-core/src/workspace_nav.rs: slots and names of a taskspace stand for one another.
use hypr_taskspace.Prelude.{
  ℕ, suc, ◌-◌, ◌≤◌, false, some, ◌≡◌, sym, ap, ◌∙◌, arith, position, position_sound, get_elem?,
  get_elem?-Member, head?, Member, here, Option-cases, inl, inr, List, [], ◌∷◌,
}
use hypr_taskspace.Prelude.Text.{Text, Text_eq}
use hypr_taskspace.Prelude.Int.{ℤ, pos, as_u32}
use hypr_taskspace.Prelude.Decimal.{u32_max}
use hypr_taskspace.Models.{SessionState}
use hypr_taskspace.Workspaces.{allowed_workspace_names, is_global_workspace_slot}
use hypr_taskspace.Workspaces.Names.{current_name, get_elem?-allowed, position-allowed}
use hypr_taskspace.Nav.Slots.{
  workspace_name_at_relative, workspace_name_for_relative, relative_slot_in_allowed, slot_of_index,
  slot_index, or_else, slot_to_adopt_for_taskspace_switch,
}

-- The name at a slot in range is the current taskspace's name of that slot.
pub name_for_relative-current :
    (state : SessionState) (n : ℕ)
    → 1 ≤ n
    → n ≤ state.default_workspace_count
    → workspace_name_for_relative state (pos n) ≡ some (current_name state n)
unfolding workspace_name_for_relative
name_for_relative-current state n low high =
    let next : suc (n - 1) ≡ n = omega arith in
    let at_slot = rw next at (get_elem?-allowed state (n - 1) (omega arith)) in ground arith

or_else-Member :
    (names : List Text) (i : ℕ) (name : Text)
    → or_else (get_elem? names i) (head? names) ≡ some name
    → Member name names
or_else-Member [] i name h = cc
or_else-Member (x ∷ xs) i name h = elim (Option-cases (get_elem? (x ∷ xs) i)) [
  | inl out ↦ here (ground arith)
  | inr (found, e) ↦ get_elem?-Member (x ∷ xs) i name (ground arith)
]

-- The name at any slot, also at a negative one or one out of range, is one of the list's names.
pub name_at_relative-Member :
    (names : List Text) (relative : ℤ) (name : Text)
    → workspace_name_at_relative names relative ≡ some name
    → Member name names
unfolding workspace_name_at_relative
name_at_relative-Member names relative name h = or_else-Member names (slot_index relative) name h

-- And there is one as long as the taskspace has any name.
pub name_at_relative-total :
    (name : Text) (names : List Text) (relative : ℤ)
    → (found : Text) × (workspace_name_at_relative (name ∷ names) relative ≡ some found)
unfolding workspace_name_at_relative
name_at_relative-total name names relative =
    elim (Option-cases (get_elem? (name ∷ names) (slot_index relative))) [
      | inl out ↦ (name, rw (out, or_else))
      | inr (found, e) ↦ (found, rw (e, or_else))
    ]

-- The slot that is read from a workspace name in a list of names leads back to that name.
pub name_at-relative_slot :
    (names : List Text) (name : Text) (slot : ℤ)
    → relative_slot_in_allowed name names ≡ some slot
    → workspace_name_at_relative names slot ≡ some name
unfolding workspace_name_at_relative relative_slot_in_allowed
name_at-relative_slot names name slot h = elim (Option-cases (position names name)) [
  | inl absent ↦ ground arith
  | inr (i, e) ↦
      let at_place = position_sound names name i e in
      let same : slot ≡ pos (suc i) = ground arith in
      let index : suc i - 1 ≡ i = omega arith in rw (same, index, at_place, or_else)
]

-- The slot of the workspace that slot n stands for is n, if 1 ≤ n ≤ the slot count and the count
-- fits u32.
relative_slot-name_for_relative :
    (state : SessionState) (n : ℕ) (name : Text)
    → state.default_workspace_count ≤ u32_max
    → 1 ≤ n
    → n ≤ state.default_workspace_count
    → workspace_name_for_relative state (pos n) ≡ some name
    → relative_slot_in_allowed name (allowed_workspace_names state) ≡ some (pos n)
unfolding relative_slot_in_allowed
relative_slot-name_for_relative state n name fits low high h =
    let next : suc (n - 1) ≡ n = omega arith in
    let at_slot = rw next at (get_elem?-allowed state (n - 1) (omega arith)) in
    let same : name ≡ current_name state n =
      ground (arith, name_for_relative-current state n low high) in
    let place = position-allowed state (n - 1) name fits (at_slot ∙ ap some (sym same)) in
    rw (place, slot_of_index) (ap (λ k. some (pos k)) next)

-- A slot that is adopted for the workspace in focus stands for exactly this workspace among the
-- new taskspace's names, and is not global.
adopted_slot_sound :
    (name : Text) (allowed : List Text) (globals : List ℕ) (slot : ℤ)
    → slot_to_adopt_for_taskspace_switch name allowed globals ≡ some slot
    → (workspace_name_at_relative allowed slot ≡ some name)
      × (is_global_workspace_slot (as_u32 slot) globals ≡ false)
unfolding slot_to_adopt_for_taskspace_switch
adopted_slot_sound name allowed globals slot h =
    elim (Option-cases (relative_slot_in_allowed name allowed)) [
      | inl absent ↦ ground arith
      | inr (found, e) ↦
          let same : found ≡ slot = ground arith in
          (name_at-relative_slot allowed name slot (e ∙ ap some same), ground arith)
    ]
