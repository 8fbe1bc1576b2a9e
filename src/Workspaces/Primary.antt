-- ===== src/Workspaces/Primary.antt =====
-- crates/tsk-core/src/workspaces.rs: the first workspace of a task that is its own.
use hypr_taskspace.Prelude.{
  ℕ, zero, suc, ◌+◌, ◌≤◌, ◌<◌, Bool, true, false, not, some, ◌≡◌, ◌≢◌, sym, ◌∙◌, arith, Bool-cases,
  inl, inr, find, List,
}
use hypr_taskspace.Prelude.Text.{Text}
use hypr_taskspace.Models.{SessionState, task}
use hypr_taskspace.Workspaces.{
  count_from, primary_task_workspace_slot, primary_task_workspace, is_global_workspace_slot,
  slot_name,
}
use hypr_taskspace.Workspaces.Names.{current_name, current_name-task}

-- A search along a range finds the least number that passes.
pub find-count_from :
    (p : ℕ → Bool) (lo count n : ℕ)
    → lo ≤ n
    → n < lo + count
    → p n ≡ true
    → (k : ℕ) × (find p (count_from lo count) ≡ some k) × (lo ≤ k) × (k ≤ n) × (p k ≡ true)
find-count_from p lo zero n low high h = absurd (omega arith)
find-count_from p lo (suc count) n low high h = elim (Bool-cases (p lo)) [
  | inl hit ↦ (lo, rw hit, omega arith, low, hit)
  | inr miss ↦
      let ne : n ≢ lo = λ e. ground arith in
      let (k, found, above, below, pass) =
        find-count_from p (suc lo) count n (omega arith) (omega arith) h in
      (k, rw (miss, found), omega arith, below, pass)
]

-- If slot n, 1 ≤ n ≤ the slot count, is not global, then the primary slot is at least 1, at most n
-- and not global.
primary_slot-least :
    (count : ℕ) (globals : List ℕ) (n : ℕ)
    → 1 ≤ n
    → n ≤ count
    → is_global_workspace_slot n globals ≡ false
    → (1 ≤ primary_task_workspace_slot count globals)
      × (primary_task_workspace_slot count globals ≤ n)
      × (is_global_workspace_slot (primary_task_workspace_slot count globals) globals ≡ false)
unfolding primary_task_workspace_slot
primary_slot-least count globals n low high free =
    let (k, found, above, below, pass) =
      find-count_from (λ slot. not (is_global_workspace_slot slot globals)) 1 count n low
        (omega arith) (rw free) in
    rw (found, primary_task_workspace_slot) (above, below, ground arith)

-- So a task's primary workspace is one of its taskspace's names, the one of the primary slot.
pub primary-current_name :
    (state : SessionState) (id : Text) (n : ℕ)
    → state.context_mode ≡ task
    → state.current_task_id ≡ some id
    → 1 ≤ n
    → n ≤ state.default_workspace_count
    → is_global_workspace_slot n state.global_workspace_slots ≡ false
    → primary_task_workspace id state.default_workspace_count state.global_workspace_slots
      ≡ current_name state
          (primary_task_workspace_slot state.default_workspace_count state.global_workspace_slots)
unfolding primary_task_workspace slot_name
primary-current_name state id n mode current low high free =
    let (_, _, own) =
      primary_slot-least state.default_workspace_count state.global_workspace_slots n low high
        free in
    sym (current_name-task state id _ mode current ∙ rw own)
