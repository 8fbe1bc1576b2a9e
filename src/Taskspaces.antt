-- ===== src/Taskspaces.antt =====
-- crates/tsk-core/src/taskspaces.rs: how many workspaces of the default taskspace the bar shows.
use hypr_taskspace.Prelude.{
  ℕ, ◌-◌, true, List, [], ◌∷◌, Option, none, some, ◌≡◌, length, max, min, ◌^◌, if◌then◌else◌,
}
use hypr_taskspace.Prelude.Int.{ℤ, pos, int_leb, as_u32}
use hypr_taskspace.Prelude.Text.{Text}

abbrev pub default_min_visible_workspaces : ℕ
default_min_visible_workspaces = 5

abbrev pub int_max : ℤ → ℤ → ℤ
int_max a b = if int_leb a b then b else a

-- `iter().max()`
unfoldable pub highest : List ℤ → Option ℤ
highest [] = none
highest (a ∷ more) = elim (highest more) [ none ↦ some a | some b ↦ some (int_max a b) ]

abbrev pub or_zero : Option ℤ → ℤ
or_zero none = pos 0
or_zero (some a) = a

unfoldable pub visible_default_workspace_count : List Text → ℤ → List ℤ → ℕ
unfolding highest
visible_default_workspace_count allowed active_rel occupied =
    let total = length allowed in
    let highest_occupied = as_u32 (or_zero (highest occupied)) in
    let active = as_u32 (int_max active_rel (pos 0)) in
    min (min (max (max active highest_occupied) default_min_visible_workspaces) total) 10

-- The slot is an `i32`.
abbrev pub FitsI32 : ℤ → Type 0
FitsI32 slot = int_leb slot (pos (2 ^ 31 - 1)) ≡ true
