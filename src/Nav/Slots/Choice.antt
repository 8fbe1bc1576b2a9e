-- ===== src/Nav/Slots/Choice.antt =====
-- crates/tsk-core/src/workspace_nav.rs: which slot a monitor gets.
use hypr_taskspace.Prelude.{
  ℕ, zero, suc, ◌+◌, ◌-◌, ◌≤◌, ◌<◌, Bool, true, false, Option, none, some, ◌≡◌, refl, ◌≢◌, arith,
  max, find, Bool-cases, Option-cases, inl, inr,
}
use native.Mathlib.Decide.{dec_lt}
use hypr_taskspace.Prelude.Text.{Text}
use hypr_taskspace.Prelude.Int.{ℤ, pos, ℤ_eq}
use hypr_taskspace.Prelude.Dict.{Dict, get}
use hypr_taskspace.Models.{SessionState}
use hypr_taskspace.Workspaces.{count_from, is_global_workspace_slot}
use hypr_taskspace.Workspaces.Primary.{find-count_from}
use hypr_taskspace.Nav.Slots.{
  search_slot, or_else, is_unused, unsaved_slot, resolve_monitor_slot, preferred_slot, saved_slots,
  is_adoptable, first_unused_adopt_slot,
}

-- A search along a range returns a number of the range that passes.
find-count_from_sound :
    (p : ℕ → Bool) (lo count k : ℕ)
    → find p (count_from lo count) ≡ some k
    → (lo ≤ k) × (k < lo + count) × (p k ≡ true)
find-count_from_sound p lo zero k h = cc
find-count_from_sound p lo (suc count) k h = elim (Bool-cases (p lo)) [
  | inl hit ↦ ground arith
  | inr miss ↦ ground (arith, find-count_from_sound p (suc lo) count k)
]

-- What the search returns is usable and in range.
pub search_slot_sound :
    (usable : ℕ → Bool) (preferred max_slots slot : ℕ)
    → 1 ≤ preferred
    → preferred ≤ max max_slots 1
    → search_slot usable preferred max_slots ≡ some slot
    → (1 ≤ slot) × (slot ≤ max max_slots 1) × (usable slot ≡ true)
unfolding search_slot
search_slot_sound usable preferred max_slots slot low high h = ground (
  arith,
  find-count_from_sound usable (preferred + 1) (max_slots - preferred) slot,
  find-count_from_sound usable 1 (preferred - 1) slot,
)

or_else-some {ℓ} :
    {A : Type ℓ} (a b : Option A) {c : A} → b ≡ some c → (d : A) × (or_else a b ≡ some d)
or_else-some none b {c} h = (c, h)
or_else-some (some a) b h = (a, refl)

-- It fails only if no slot in range is usable.
pub search_slot_complete :
    (usable : ℕ → Bool) (preferred max_slots n : ℕ)
    → 1 ≤ n
    → n ≤ max_slots
    → usable n ≡ true
    → (slot : ℕ) × (search_slot usable preferred max_slots ≡ some slot)
unfolding search_slot
search_slot_complete usable preferred max_slots n low high h =
    elim (Bool-cases (usable preferred)) [
      | inl hit ↦ (preferred, rw hit)
      | inr miss ↦
          let ne : n ≢ preferred = λ e. ground arith in
          elim (dec_lt preferred n) [
            | yes above ↦
                let (k, found, _, _, _) =
                  find-count_from usable (preferred + 1) (max_slots - preferred) n (omega arith)
                    (omega arith) h in
                (k, rw (miss, found))
            | no below ↦
                let (k, found, _, _, _) =
                  find-count_from usable 1 (preferred - 1) n (omega arith) (omega arith) h in
                rw miss (or_else-some _ _ found)
          ]
    ]

pub preferred_slot_bounds :
    (monitor_index max_slots : ℕ)
    → (1 ≤ preferred_slot monitor_index max_slots)
      × (preferred_slot monitor_index max_slots ≤ max max_slots 1)
preferred_slot_bounds monitor_index max_slots = (omega arith, omega arith)

-- The slot of a monitor without a saved one lies from 1 to the maximum (at least 1), and no
-- monitor has it saved as long as some slot from 1 to the maximum is saved for none.
pub unsaved_slot-fits :
    (saved : Dict ℤ) (monitor_index max_slots : ℕ)
    → (1 ≤ unsaved_slot saved monitor_index max_slots)
      × (unsaved_slot saved monitor_index max_slots ≤ max max_slots 1)
      × ((n : ℕ)
          → 1 ≤ n
          → n ≤ max_slots
          → is_unused saved n ≡ true
          → is_unused saved (unsaved_slot saved monitor_index max_slots) ≡ true)
unfolding unsaved_slot
unsaved_slot-fits saved monitor_index max_slots =
    let preferred = preferred_slot monitor_index max_slots in
    let (low, high) = preferred_slot_bounds monitor_index max_slots in
    elim (Option-cases (search_slot (is_unused saved) preferred max_slots)) [
      | inl full ↦
          rw (full, unsaved_slot)
            (
              low,
              high,
              λ n from to unused.
                  let (slot, some_slot) =
                    search_slot_complete (is_unused saved) preferred max_slots n from to unused in
                  absurd (cc),
            )
      | inr (slot, chosen) ↦
          let (from, to, unused) =
            search_slot_sound (is_unused saved) preferred max_slots slot low high chosen in
          rw (chosen, unsaved_slot) (from, to, λ _ _ _ _. unused)
    ]

-- If some slot from 1 to the maximum is neither saved for a monitor of the taskspace nor global,
-- the slot that a new monitor adopts is such a one too.
pub adopt_slot-is_free :
    (state : SessionState) (dest_key : Text) (monitor_index max_slots n : ℕ)
    → 1 ≤ n
    → n ≤ max_slots
    → is_unused (saved_slots state dest_key) n ≡ true
    → is_global_workspace_slot n state.global_workspace_slots ≡ false
    → (slot : ℕ) × (first_unused_adopt_slot state dest_key monitor_index max_slots ≡ pos slot)
      × (1 ≤ slot)
      × (slot ≤ max_slots)
      × (is_unused (saved_slots state dest_key) slot ≡ true)
      × (is_global_workspace_slot slot state.global_workspace_slots ≡ false)
unfolding first_unused_adopt_slot is_adoptable
adopt_slot-is_free state dest_key monitor_index max_slots n from to unused own =
    let usable = is_adoptable state dest_key max_slots in
    let preferred = preferred_slot monitor_index max_slots in
    let (low, high) = preferred_slot_bounds monitor_index max_slots in
    let (slot, chosen) = search_slot_complete usable preferred max_slots n from to (ground arith) in
    let (above, below, ok) = search_slot_sound usable preferred max_slots slot low high chosen in
    (slot, rw (chosen, first_unused_adopt_slot), above, omega arith, ground arith, ground arith)

-- A monitor with a saved slot keeps it.
pub resolve_monitor_slot-saved :
    (state : SessionState) (dest_key name : Text) (monitor_index max_slots : ℕ) (slot : ℤ)
    → get (saved_slots state dest_key) name ≡ some slot
    → resolve_monitor_slot state dest_key name monitor_index max_slots ≡ slot
unfolding resolve_monitor_slot
resolve_monitor_slot-saved state dest_key name monitor_index max_slots slot e = ground arith
