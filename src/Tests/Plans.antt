-- ===== src/Tests/Plans.antt =====
-- Layouts of the sample monitors.
use hypr_taskspace.Prelude.{
  ℕ, ◌+◌, true, false, Option, none, some, ◌≡◌, refl, arith, List, [], ◌∷◌, ◌++◌, map, All, Member,
  here, there, contains,
}
use hypr_taskspace.Prelude.Int.{pos}
use hypr_taskspace.Prelude.Text.{Text, Text_eq, codes}
use hypr_taskspace.Prelude.Dict.{get}
use hypr_taskspace.Workspaces.{allowed_workspace_names}
use hypr_taskspace.Host.{Monitor}
use hypr_taskspace.Nav.Slots.{saved_slots, resolve_monitor_slot, workspace_name_at_relative}
use hypr_taskspace.Nav.Layout.{capture_monitor_slots}
use hypr_taskspace.Nav.Layout.Laws.{capture-restore}
use hypr_taskspace.Prelude.Text.{text_eq_iff}
use hypr_taskspace.Nav.Slots.{relative_slot_in_allowed}
use hypr_taskspace.Nav.Restore.{Target, plan_targets}
use hypr_taskspace.Nav.Restore.Plan.{in_order, described, plan_targets-fresh, plan_targets-collides}
use hypr_taskspace.Nav.OnStart.{global_workspace_monitors, preferred_on_start_monitor_from_layout}
use hypr_taskspace.Nav.OnStart.Laws.{AvoidsSlot, on_start-avoids_global}
use hypr_taskspace.Models.{SessionState}
use hypr_taskspace.Tests.Sample.{desk, session, start, left_monitor, right_monitor}

abbrev names : List Text
names = codes "1" ∷ codes "t3fa0-2" ∷ codes "t3fa0-3" ∷ []

-- Eight workspaces.
abbrev many : List Text
many = names ++ (codes "t3fa0-4" ∷ codes "t3fa0-5" ∷ names)

abbrev monitors : List Monitor
monitors = left_monitor ∷ right_monitor ∷ []

plan_targets-fresh_example :
    (targets : List Target) × (plan_targets session (codes "task:t3fa0") 3 names 0 monitors
      ≡ some targets)
    × (map described targets ≡ in_order names 0 monitors)
unfolding saved_slots get
plan_targets-fresh_example =
    plan_targets-fresh session (codes "task:t3fa0") names 0 monitors refl (omega arith)

-- The first slot is saved for another monitor, and the two are plugged in.
abbrev unplugged : SessionState
unplugged = record session {
  last_monitor_workspace = (codes "task:t3fa0", (codes "HDMI-1", pos 1) ∷ []) ∷ [];
}

plan_targets-collides_example :
    plan_targets unplugged (codes "task:t3fa0") 3 names 0 monitors
    ≡ some (
        record { monitor = codes "DP-1"; slot = pos 2; workspace = codes "t3fa0-2" }
        ∷ record { monitor = codes "DP-2"; slot = pos 2; workspace = codes "t3fa0-2" }
        ∷ [])
unfolding saved_slots get
plan_targets-collides_example =
    plan_targets-collides unplugged (codes "task:t3fa0") 3 names 0 left_monitor right_monitor
      (codes "t3fa0-2") refl refl refl refl (omega arith) refl

on_start-avoids_global_example :
    (chosen : Monitor) × ((preferred_on_start_monitor_from_layout desk
        (λ name. name)
        session
        (codes "t3b71")
        none
        monitors
        start).0
      ≡ some chosen.name)
    × Member chosen monitors
    × All (AvoidsSlot session monitors chosen.name) session.global_workspace_slots
unfolding global_workspace_monitors hypr_taskspace.Workspaces.default_taskspace_workspace_name
    hypr_taskspace.Prelude.Decimal.to_string get
on_start-avoids_global_example =
    on_start-avoids_global desk (λ name. name) session (codes "t3b71") monitors right_monitor start
      (there (here refl)) refl

capture-restore_example :
    workspace_name_at_relative names (
      resolve_monitor_slot
        (capture_monitor_slots (codes "task:t3fa0") names monitors session)
        (codes "task:t3fa0")
        (codes "DP-2")
        1
        3)
    ≡ some (codes "t3fa0-3")
unfolding relative_slot_in_allowed
capture-restore_example =
    capture-restore (codes "task:t3fa0") names monitors session right_monitor (pos 3) 1 3
      (
        λ x. elim x [
          | here p ↦ let e = (text_eq_iff (codes "DP-1") (codes "DP-2")).1 p in cc
          | there y ↦ elim y [ ]
        ],
        (λ x. elim x [ ], tt),
      )
      (there (here refl)) refl
