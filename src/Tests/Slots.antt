-- ===== src/Tests/Slots.antt =====
-- Slots of the sample session and of its monitors.
use hypr_taskspace.Prelude.{ℕ, ◌≡◌, refl, arith, true, false, ◌≤◌, [], ◌∷◌, max}
use hypr_taskspace.Prelude.Int.{pos}
use hypr_taskspace.Prelude.Text.{Text_eq, codes}
use hypr_taskspace.Prelude.Dict.{get}
use hypr_taskspace.Tests.Sample.{session}
use hypr_taskspace.Workspaces.{allowed_workspace_names, is_global_workspace_slot}
use hypr_taskspace.Workspaces.Names.{allowed-Distinct}
use hypr_taskspace.Prelude.{Distinct}
use hypr_taskspace.Nav.Slots.{is_unused, unsaved_slot, saved_slots, first_unused_adopt_slot}
use hypr_taskspace.Nav.Slots.Choice.{unsaved_slot-fits, adopt_slot-is_free}

allowed-Distinct_example : Distinct (allowed_workspace_names session)
allowed-Distinct_example = allowed-Distinct session (omega arith)

adopt_slot-is_free_example :
    (slot : ℕ) × (first_unused_adopt_slot session (codes "task:t3fa0") 1 4 ≡ pos slot)
    × (1 ≤ slot)
    × (slot ≤ 4)
    × (is_unused (saved_slots session (codes "task:t3fa0")) slot ≡ true)
    × (is_global_workspace_slot slot session.global_workspace_slots ≡ false)
unfolding saved_slots is_global_workspace_slot get
adopt_slot-is_free_example =
    adopt_slot-is_free session (codes "task:t3fa0") 1 4 3 (omega arith) (omega arith) refl refl

unsaved_slot-fits_example :
    (1 ≤ unsaved_slot ((codes "DP-1", pos 1) ∷ []) 0 4)
    × (unsaved_slot ((codes "DP-1", pos 1) ∷ []) 0 4 ≤ max 4 1)
    × ((n : ℕ)
        → 1 ≤ n
        → n ≤ 4
        → is_unused ((codes "DP-1", pos 1) ∷ []) n ≡ true
        → is_unused ((codes "DP-1", pos 1) ∷ []) (unsaved_slot ((codes "DP-1", pos 1) ∷ []) 0 4)
          ≡ true)
unsaved_slot-fits_example = unsaved_slot-fits ((codes "DP-1", pos 1) ∷ []) 0 4
