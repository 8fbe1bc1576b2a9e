-- ===== src/Slots.antt =====
-- crates/tsk-core/src/workspace_slots.rs: the slot files that the key bindings read.
use hypr_taskspace.Prelude.{ℕ, suc, Option, none, some, List, [], ◌∷◌, if◌then◌else◌, take}
use hypr_taskspace.Prelude.Int.{ℤ}
use hypr_taskspace.Prelude.Text.{Text, is_empty}
use hypr_taskspace.Workspaces.{bar_workspace_names}
use hypr_taskspace.Host.{System, M, ◌>>=◌, ◌>>◌, pure, ask, act, skip, get_session}

module _ (h : System) where
  open h use {World, write_slot, read_slot, switch_workspace, move_active_window}

  -- The loop over the names, from the slot `n` on.
  unfoldable pub write_slots : ℕ → List Text → M World (Unit {0})
  write_slots n [] = skip
  write_slots n (name ∷ names) = act (write_slot n name) >> write_slots (suc n) names

  unfoldable pub write_slot_cache : M World (Unit {0})
  unfolding write_slots
  write_slot_cache = do state ← get_session; write_slots 1 (take 10 (bar_workspace_names state))

  -- `trim()` is part of reading the file; an empty text is no target.
  unfoldable pub read_slot_target : ℤ → M World (Option Text)
  read_slot_target relative = do
    text ← ask (read_slot relative)
    pure (elim text [ none ↦ none | some target ↦ if is_empty target then none else some target ])

  unfoldable pub switch_slot : ℤ → M World (Option Text)
  unfolding read_slot_target
  switch_slot relative = do
    target ← read_slot_target relative
    elim target [ none ↦ skip | some name ↦ act (switch_workspace name) ]
    pure target

  unfoldable pub move_slot : ℤ → M World (Option Text)
  unfolding read_slot_target
  move_slot relative = do
    target ← read_slot_target relative
    elim target [ none ↦ skip | some name ↦ act (move_active_window name) ]
    pure target
