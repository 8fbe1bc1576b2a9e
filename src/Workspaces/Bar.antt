-- ===== src/Workspaces/Bar.antt =====
-- crates/tsk-core/src/workspaces.rs: mapping a Hyprland workspace name to a name of the bar, and
-- the workspaces that belong to one task alone.
use hypr_taskspace.Prelude.{
  ℕ, suc, ◌-◌, ◌≤◌, List, map, true, false, ◌&&◌, none, some, if◌then◌else◌, ◌≡◌, ap, ◌∙◌, ◌≢◌,
  arith, Member, Bool-cases, Option-cases, inl, inr, contains, contains_sound, contains_complete,
  get_elem?-Member, ℕ_eq, leb,
}
use hypr_taskspace.Prelude.Text.{Text, Text_eq}
use hypr_taskspace.Prelude.Decimal.{parse_u32, u32_max, parse_u32-to_string}
use hypr_taskspace.Models.{SessionState, task}
use hypr_taskspace.Workspaces.{
  count_from, relative_slot_from_name, task_workspace_name, slot_name, allowed_workspace_names,
  default_taskspace_workspace_name, is_global_workspace_slot, is_default_taskspace_workspace_name,
  resolve_by_slot, resolve_bar_workspace_name,
}
use hypr_taskspace.Workspaces.Names.{
  current_name, allowed-eq, get_elem?-allowed, relative_slot-current_name,
  relative_slot-task_workspace_name, relative_slot-default_name, parse_u32-task_workspace_name,
  Member-map-count_from, current_name-task,
}

resolve_by_slot-Member :
    (name : Text) (state : SessionState) (bar : List Text) (rel : ℕ) (found : Text)
    → resolve_by_slot name state bar rel ≡ some found
    → Member found bar
unfolding resolve_by_slot
resolve_by_slot-Member name state bar rel found h = ground (
  arith,
  contains_sound bar (default_taskspace_workspace_name rel),
  get_elem?-Member bar (rel - 1) found,
)

-- A name that any workspace name is mapped to is one of the bar's names.
resolve-Member :
    (name : Text) (state : SessionState) (bar : List Text) (found : Text)
    → resolve_bar_workspace_name name state bar ≡ some found
    → Member found bar
unfolding resolve_bar_workspace_name
resolve-Member name state bar found h = elim (Bool-cases (contains bar name)) [
  | inl listed ↦ ground (arith, contains_sound bar name listed)
  | inr other ↦ elim (Option-cases (relative_slot_from_name name)) [
    | inl unknown ↦ ground arith
    | inr (rel, known) ↦ resolve_by_slot-Member name state bar rel found (ground arith)
  ]
]

allowed-current_name :
    (state : SessionState) (name : Text)
    → contains (allowed_workspace_names state) name ≡ true
    → (k : ℕ) × (1 ≤ k) × (k ≤ state.default_workspace_count) × (name ≡ current_name state k)
allowed-current_name state name h =
    let m : Member name (map (current_name state) (count_from 1 state.default_workspace_count)) =
      rw (allowed-eq state) at (contains_sound (allowed_workspace_names state) name h) in
    let (k, low, high, p) = Member-map-count_from (current_name state) 1 _ name m in
    (k, low, omega arith, p)

-- A listed name whose slot is known is the name of that slot.
listed_slot :
    (state : SessionState) (name : Text) (n : ℕ)
    → state.default_workspace_count ≤ u32_max
    → contains (allowed_workspace_names state) name ≡ true
    → relative_slot_from_name name ≡ some n
    → name ≡ current_name state n
listed_slot state name n h listed slot =
    let (k, low, high, p) = allowed-current_name state name listed in
    let back : relative_slot_from_name name ≡ some k =
      ap relative_slot_from_name p ∙ relative_slot-current_name state k (omega arith) in
    let same : k ≡ n = ground arith in p ∙ ap (current_name state) same

-- Workspace n of any task, also of one whose taskspace is not shown, is mapped to the current
-- taskspace's name of slot n, if 1 ≤ n ≤ the slot count and the count fits u32.
pub resolve-task_workspace_name :
    (state : SessionState) (other : Text) (n : ℕ)
    → state.default_workspace_count ≤ u32_max
    → 1 ≤ n
    → n ≤ state.default_workspace_count
    → resolve_bar_workspace_name (task_workspace_name other n) state (allowed_workspace_names state)
      ≡ some (current_name state n)
unfolding resolve_bar_workspace_name resolve_by_slot is_default_taskspace_workspace_name
resolve-task_workspace_name state other n fits low high =
    let names = allowed_workspace_names state in
    let name = task_workspace_name other n in
    let slot = relative_slot-task_workspace_name other n (omega arith) in
    let dash = parse_u32-task_workspace_name other n in
    let at_slot = get_elem?-allowed state (n - 1) (omega arith) in
    let next : suc (n - 1) ≡ n = omega arith in
    elim (Bool-cases (contains names name)) [
      | inl listed ↦ rw listed (ap some (listed_slot state name n fits listed slot))
      | inr new ↦ elim (Bool-cases (contains names (default_taskspace_workspace_name n))) [
        | inl shared ↦
            let same =
              listed_slot state (default_taskspace_workspace_name n) n fits shared
                (relative_slot-default_name n (omega arith)) in
            ground (arith, rw next at at_slot)
        | inr own ↦ ground (arith, rw next at at_slot)
      ]
    ]

parse_u32-default_name :
    (n : ℕ) → n ≤ u32_max → parse_u32 (default_taskspace_workspace_name n) ≡ some n
unfolding default_taskspace_workspace_name
parse_u32-default_name n h = parse_u32-to_string n h

-- A number is a workspace of the default taskspace exactly when it is one of its slots.
pub is_default-default_name :
    (n count : ℕ)
    → n ≤ u32_max
    → is_default_taskspace_workspace_name (default_taskspace_workspace_name n) count
      ≡ (leb 1 n && leb n count)
unfolding is_default_taskspace_workspace_name
is_default-default_name n count h = rw (parse_u32-default_name n h)

pub is_default-task_workspace_name :
    (id : Text) (n count : ℕ)
    → is_default_taskspace_workspace_name (task_workspace_name id n) count ≡ false
unfolding is_default_taskspace_workspace_name
is_default-task_workspace_name id n count = rw (parse_u32-task_workspace_name id n)

-- A number in the list of a task's taskspace has a global slot.
listed_number :
    (state : SessionState) (id : Text) (n : ℕ)
    → n ≤ u32_max
    → is_global_workspace_slot n state.global_workspace_slots ≡ false
    → default_taskspace_workspace_name n ≢ slot_name state id n
unfolding slot_name
listed_number state id n h own =
    ground (arith, parse_u32-task_workspace_name id n, parse_u32-default_name n h)

slot_name-global :
    (state : SessionState) (id : Text) (n : ℕ)
    → is_global_workspace_slot n state.global_workspace_slots ≡ true
    → slot_name state id n ≡ default_taskspace_workspace_name n
unfolding slot_name
slot_name-global state id n global = rw global

-- In task mode with a current task, the default workspace n is mapped to itself if slot n is
-- global and to nothing if it is not; 1 ≤ n ≤ the slot count and the count fits u32.
resolve-default_name :
    (state : SessionState) (id : Text) (n : ℕ)
    → state.context_mode ≡ task
    → state.current_task_id ≡ some id
    → state.default_workspace_count ≤ u32_max
    → 1 ≤ n
    → n ≤ state.default_workspace_count
    → resolve_bar_workspace_name
        (default_taskspace_workspace_name n)
        state
        (allowed_workspace_names state)
      ≡ (if is_global_workspace_slot n state.global_workspace_slots
          then some (default_taskspace_workspace_name n)
          else none)
unfolding resolve_bar_workspace_name resolve_by_slot
resolve-default_name state id n mode current fits low high =
    let names = allowed_workspace_names state in
    let name = default_taskspace_workspace_name n in
    let small : n ≤ u32_max = omega arith in
    let slot = relative_slot-default_name n small in
    let number = parse_u32-default_name n small in
    let in_range = is_default-default_name n state.default_workspace_count small in
    let mine = current_name-task state id n mode current in
    let next : suc (n - 1) ≡ n = omega arith in
    let at_slot = rw next at (get_elem?-allowed state (n - 1) (omega arith)) in
    elim (Bool-cases (contains names name)) [
      | inl listed ↦ elim (Bool-cases (is_global_workspace_slot n state.global_workspace_slots)) [
        | inl global ↦ rw (listed, global)
        | inr own ↦
            absurd (
              listed_number state id n small own (listed_slot state name n fits listed slot ∙ mine))
      ]
      | inr new ↦ elim (Bool-cases (is_global_workspace_slot n state.global_workspace_slots)) [
        | inl global ↦
            let same : current_name state n ≡ name = mine ∙ slot_name-global state id n global in
            let found =
              contains_complete (get_elem?-Member names (n - 1) name (at_slot ∙ ap some same)) in
            absurd (cc)
        | inr own ↦ ground arith
      ]
    ]
