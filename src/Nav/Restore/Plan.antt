-- ===== src/Nav/Restore/Plan.antt =====
-- crates/tsk-core/src/workspace_nav.rs: which workspace each monitor is to show.
use hypr_taskspace.Prelude.{
  ℕ, suc, ◌+◌, ◌-◌, ◌≤◌, ◌<◌, true, false, Option, none, some, List, [], ◌∷◌, map, ◌≡◌, refl, sym,
  ap, ◌∙◌, arith, length, get_elem?, get_elem?-lt,
}
use hypr_taskspace.Prelude.Text.{Text}
use hypr_taskspace.Prelude.Int.{ℤ, pos, ℤ_eq}
use hypr_taskspace.Prelude.Dict.{Dict, get}
use hypr_taskspace.Models.{SessionState}
use hypr_taskspace.Host.{Monitor}
use hypr_taskspace.Nav.Slots.{
  workspace_name_at_relative, resolve_monitor_slot, unsaved_slot, search_slot, preferred_slot,
  is_unused, saved_slots,
}
use hypr_taskspace.Nav.Restore.{Target, plan_targets}

unsaved_slot-fresh :
    (index max_slots : ℕ) → index < max_slots → unsaved_slot [] index max_slots ≡ suc index
unfolding unsaved_slot search_slot
unsaved_slot-fresh index max_slots h = omega arith

-- The n-th monitor, counted from an index, with the slot after it and the name at it.
abbrev pub in_order : List Text → ℕ → List Monitor → List (Text × ℤ × Option Text)
in_order allowed index [] = []
in_order allowed index (m ∷ monitors) =
    (m.name, pos (suc index), get_elem? allowed index) ∷ in_order allowed (suc index) monitors

abbrev pub described : Target → Text × ℤ × Option Text
described t = (t.monitor, t.slot, some t.workspace)

-- Without a saved layout, and with a name for every monitor, the targets can be planned and are
-- one for each monitor, in their order: the n-th monitor, counted from the first one's index, with
-- slot n + 1 and the taskspace's name at n.
pub plan_targets-fresh :
    (state : SessionState) (key : Text) (allowed : List Text) (index : ℕ) (monitors : List Monitor)
    → saved_slots state key ≡ []
    → index + length monitors ≤ length allowed
    → (targets : List Target) × (plan_targets state key (length allowed) allowed index monitors
        ≡ some targets)
      × (map described targets ≡ in_order allowed index monitors)
unfolding plan_targets resolve_monitor_slot workspace_name_at_relative get
plan_targets-fresh state key allowed index [] fresh h = ([], refl, refl)
plan_targets-fresh state key allowed index (m ∷ monitors) fresh h =
    let slot = unsaved_slot-fresh index (length allowed) (omega arith) in
    let (name, named) = get_elem?-lt allowed index (omega arith) in
    let (rest, planned, order) =
      plan_targets-fresh state key allowed (suc index) monitors fresh (omega arith) in
    let own : resolve_monitor_slot state key m.name index (length allowed) ≡ pos (suc index) =
      ground arith in
    let place : suc index - 1 ≡ index = omega arith in
    let shows : workspace_name_at_relative allowed (pos (suc index)) ≡ some name =
      rw (place, named) in
    let first : Target = record { monitor = m.name; slot = pos (suc index); workspace = name } in
    (
      first ∷ rest,
      ground arith,
      ap (λ r. described first ∷ r) order
          ∙ ap (λ r. (m.name, pos (suc index), r) ∷ in_order allowed (suc index) monitors)
              (sym named),
    )

unsaved_slot-collides :
    (saved : Dict ℤ) (index max_slots : ℕ)
    → index + 2 ≤ max_slots
    → is_unused saved (index + 1) ≡ false
    → is_unused saved (index + 2) ≡ true
    → (unsaved_slot saved index max_slots ≡ index + 2)
      × (unsaved_slot saved (suc index) max_slots ≡ index + 2)
unfolding unsaved_slot search_slot
unsaved_slot-collides saved index max_slots room taken free =
    let own : preferred_slot index max_slots ≡ index + 1 = omega arith in
    let next : preferred_slot (suc index) max_slots ≡ index + 2 = omega arith in
    let above : max_slots - (index + 1) ≡ suc (max_slots - (index + 2)) = omega arith in
    let after : index + 1 + 1 ≡ index + 2 = omega arith in
    (rw (unsaved_slot, own, taken, above, after, free), rw (unsaved_slot, next, free))

-- The plan for two monitors without saved slots, at the indices i and i + 1, gives both the slot i
-- + 2 and the workspace of that slot, if slot i + 1 is saved for another monitor, slot i + 2 is
-- not, i + 2 is at most the maximum and the slot has a name.
pub plan_targets-collides :
    (state : SessionState) (key : Text) (max_slots : ℕ) (allowed : List Text) (index : ℕ)
    (m1 m2 : Monitor) (name : Text)
    → get (saved_slots state key) m1.name ≡ none
    → get (saved_slots state key) m2.name ≡ none
    → is_unused (saved_slots state key) (index + 1) ≡ false
    → is_unused (saved_slots state key) (index + 2) ≡ true
    → index + 2 ≤ max_slots
    → get_elem? allowed (index + 1) ≡ some name
    → plan_targets state key max_slots allowed index (m1 ∷ m2 ∷ [])
      ≡ some (
          record { monitor = m1.name; slot = pos (index + 2); workspace = name }
          ∷ record { monitor = m2.name; slot = pos (index + 2); workspace = name }
          ∷ [])
unfolding plan_targets resolve_monitor_slot workspace_name_at_relative
plan_targets-collides state key max_slots allowed index m1 m2 name new1 new2 taken free room named =
    let saved = saved_slots state key in
    let (slot1, slot2) = unsaved_slot-collides saved index max_slots room taken free in
    let own1 : resolve_monitor_slot state key m1.name index max_slots ≡ pos (index + 2) =
      ground arith in
    let own2 : resolve_monitor_slot state key m2.name (suc index) max_slots ≡ pos (index + 2) =
      ground arith in
    let place : index + 2 - 1 ≡ index + 1 = omega arith in
    let shows : workspace_name_at_relative allowed (pos (index + 2)) ≡ some name =
      rw (place, named) in
    ground arith
