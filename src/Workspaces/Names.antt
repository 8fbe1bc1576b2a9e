-- ===== src/Workspaces/Names.antt =====
-- crates/tsk-core/src/workspaces.rs: a name determines its slot, so the names of a taskspace are
-- distinct and a slot can be read back from any of them.
use native.Mathlib.Nat.{le_refl}
use native.Mathlib.Decide.{dec_lt}
use hypr_taskspace.Prelude.{
  ℕ, zero, suc, ◌+◌, ◌≤◌, ◌<◌, ◌∷◌, [], ◌++◌, map, true, Option, none, some, ◌≡◌, refl, sym, ap,
  ◌∙◌, ◌≢◌, arith, length, get_elem?, Member, here, there, Distinct, All, Bool-cases, inl, inr,
  ℕ_eq, get_elem?-ge, position, position-get_elem?,
}
use hypr_taskspace.Prelude.Text.{Text, Text_eq}
use hypr_taskspace.Prelude.Decimal.{
  to_string, parse_u32, u32_max, is_digit, parse_u32-to_string, parse_u32-not_digit,
  to_string-digits,
}
use hypr_taskspace.Models.{ContextMode, SessionState, default, task}
use hypr_taskspace.Workspaces.{
  count_from, rsplit_once, relative_slot_from_name, task_workspace_name, slot_name, context_names,
  default_taskspace_workspace_name, default_taskspace_workspace_names, allowed_workspace_names,
  is_global_workspace_slot, task_taskspace_workspace_names,
}

rsplit_once-lacks : (sep : ℕ) (s : Text) → All (λ c. c ≢ sep) s → rsplit_once sep s ≡ none
unfolding rsplit_once
rsplit_once-lacks sep [] h = refl
rsplit_once-lacks sep (c ∷ s) (p, h) = ground (arith, rsplit_once-lacks sep s h)

-- Behind the last separator there is none.
pub rsplit_once-append :
    (sep : ℕ) (before behind : Text)
    → All (λ c. c ≢ sep) behind
    → rsplit_once sep (before ++ sep ∷ behind) ≡ some (before, behind)
unfolding rsplit_once
rsplit_once-append sep [] behind h = ground (arith, rsplit_once-lacks sep behind h)
rsplit_once-append sep (c ∷ before) behind h = rw (rsplit_once-append sep before behind h)

digits-lack-dash : (s : Text) → All (λ c. is_digit c ≡ true) s → All (λ c. c ≢ b'-') s
digits-lack-dash [] h = tt
digits-lack-dash (c ∷ s) (p, h) = (ground arith, digits-lack-dash s h)

Member-append_mid : (s : Text) (c : ℕ) (t : Text) → Member c (s ++ c ∷ t)
Member-append_mid [] c t = here refl
Member-append_mid (x ∷ s) c t = there (Member-append_mid s c t)

-- A name with a dash is no number.
pub parse_u32-task_workspace_name :
    (id : Text) (n : ℕ) → parse_u32 (task_workspace_name id n) ≡ none
unfolding task_workspace_name
parse_u32-task_workspace_name id n =
    parse_u32-not_digit _ b'-' (Member-append_mid id b'-' (to_string n)) refl (omega arith)

pub relative_slot-task_workspace_name :
    (id : Text) (n : ℕ) → n ≤ u32_max → relative_slot_from_name (task_workspace_name id n) ≡ some n
unfolding relative_slot_from_name task_workspace_name
relative_slot-task_workspace_name id n h = ground (
  arith,
  parse_u32-task_workspace_name id n,
  rsplit_once-append b'-' id (to_string n) (digits-lack-dash _ (to_string-digits n)),
  parse_u32-to_string n h,
)

pub relative_slot-default_name :
    (n : ℕ) → n ≤ u32_max → relative_slot_from_name (default_taskspace_workspace_name n) ≡ some n
unfolding relative_slot_from_name default_taskspace_workspace_name
relative_slot-default_name n h = ground (arith, parse_u32-to_string n h)

pub relative_slot-slot_name :
    (state : SessionState) (id : Text) (n : ℕ)
    → n ≤ u32_max
    → relative_slot_from_name (slot_name state id n) ≡ some n
unfolding slot_name
relative_slot-slot_name state id n h =
    elim (Bool-cases (is_global_workspace_slot n state.global_workspace_slots)) [
      | inl global ↦ rw global (relative_slot-default_name n h)
      | inr own ↦ rw own (relative_slot-task_workspace_name id n h)
    ]

module _ {ℓ} {A : Type ℓ} (f : ℕ → A) where
  pub length-map-count_from : (lo n : ℕ) → length (map f (count_from lo n)) ≡ n
  length-map-count_from lo zero = refl
  length-map-count_from lo (suc n) = ap suc (length-map-count_from (suc lo) n)

  pub get_elem?-map-count_from :
      (lo n i : ℕ) → i < n → get_elem? (map f (count_from lo n)) i ≡ some (f (lo + i))
  get_elem?-map-count_from lo zero i h = elim h [ ]
  get_elem?-map-count_from lo (suc n) zero h = ap (λ k. some (f k)) (omega arith)
  get_elem?-map-count_from lo (suc n) (suc i) h =
      get_elem?-map-count_from (suc lo) n i (omega arith) ∙ ap (λ k. some (f k)) (omega arith)

  pub Member-map-count_from :
      (lo n : ℕ) (a : A)
      → Member a (map f (count_from lo n))
      → (k : ℕ) × (lo ≤ k) × (k < lo + n) × (a ≡ f k)
  Member-map-count_from lo zero a m = elim m [ ]
  Member-map-count_from lo (suc n) a (here p) = (lo, le_refl lo, omega arith, p)
  Member-map-count_from lo (suc n) a (there m) =
      let (k, low, high, p) = Member-map-count_from (suc lo) n a m in
      (k, omega arith, omega arith, p)

-- A family of names from which the slot is read back has no name twice.
map-count_from-Distinct :
    (f : ℕ → Text) (lo n : ℕ)
    → ((k : ℕ) → k < lo + n → relative_slot_from_name (f k) ≡ some k)
    → Distinct (map f (count_from lo n))
map-count_from-Distinct f lo zero back = tt
map-count_from-Distinct f lo (suc n) back = (
  λ m.
      let (k, low, high, p) = Member-map-count_from f (suc lo) n (f lo) m in
      let e : some lo ≡ some k =
        sym (back lo (omega arith)) ∙ ap relative_slot_from_name p ∙ back k (omega arith) in
      absurd (ground arith),
  map-count_from-Distinct f (suc lo) n (λ k h. back k (omega arith)),
)

-- The names of a context are a family over its slots.
context_name : SessionState → ContextMode → Option Text → ℕ → Text
context_name state default id = default_taskspace_workspace_name
context_name state task none = default_taskspace_workspace_name
context_name state task (some id) = slot_name state id

context_names-eq :
    (state : SessionState) (mode : ContextMode) (id : Option Text)
    → context_names state mode id
      ≡ map (context_name state mode id) (count_from 1 state.default_workspace_count)
unfolding context_names context_name default_taskspace_workspace_names
    task_taskspace_workspace_names
context_names-eq state default id = refl
context_names-eq state task none = refl
context_names-eq state task (some id) = refl

relative_slot-context_name :
    (state : SessionState) (mode : ContextMode) (id : Option Text) (n : ℕ)
    → n ≤ u32_max
    → relative_slot_from_name (context_name state mode id n) ≡ some n
unfolding context_name
relative_slot-context_name state default id n h = relative_slot-default_name n h
relative_slot-context_name state task none n h = relative_slot-default_name n h
relative_slot-context_name state task (some id) n h = relative_slot-slot_name state id n h

-- The name of slot `n` in the current taskspace.
pub current_name : SessionState → ℕ → Text
unfolding context_name
current_name state = context_name state state.context_mode state.current_task_id

pub allowed-eq :
    (state : SessionState)
    → allowed_workspace_names state
      ≡ map (current_name state) (count_from 1 state.default_workspace_count)
unfolding allowed_workspace_names current_name
allowed-eq state = context_names-eq state state.context_mode state.current_task_id

-- In a task's taskspace the slot's name is shared if the slot is global, and the task's own if not.
pub current_name-task :
    (state : SessionState) (id : Text) (n : ℕ)
    → state.context_mode ≡ task
    → state.current_task_id ≡ some id
    → current_name state n ≡ slot_name state id n
unfolding current_name slot_name
current_name-task state id n mode current = rw (mode, current, context_name)

-- Every taskspace has one name for each slot.
pub length-allowed :
    (state : SessionState) → length (allowed_workspace_names state) ≡ state.default_workspace_count
length-allowed state = rw (allowed-eq state) (length-map-count_from _ 1 _)

pub get_elem?-allowed :
    (state : SessionState) (i : ℕ)
    → i < state.default_workspace_count
    → get_elem? (allowed_workspace_names state) i ≡ some (current_name state (suc i))
get_elem?-allowed state i h =
    rw (allowed-eq state)
      (get_elem?-map-count_from _ 1 _ i h ∙ ap (λ k. some (current_name state k)) (omega arith))

pub relative_slot-current_name :
    (state : SessionState) (n : ℕ)
    → n ≤ u32_max
    → relative_slot_from_name (current_name state n) ≡ some n
unfolding current_name
relative_slot-current_name state =
    relative_slot-context_name state state.context_mode state.current_task_id

-- The allowed names of a session are distinct, if its slot count fits u32.
pub allowed-Distinct :
    (state : SessionState)
    → state.default_workspace_count ≤ u32_max
    → Distinct (allowed_workspace_names state)
allowed-Distinct state h = rw (allowed-eq state) (
    map-count_from-Distinct (current_name state) 1 _
      (λ k lt. relative_slot-current_name state k (omega arith)))

-- The slot that is read from the name at place i of the allowed names is i + 1, if the slot count
-- fits u32.
relative_slot-allowed :
    (state : SessionState) (i : ℕ) (name : Text)
    → state.default_workspace_count ≤ u32_max
    → get_elem? (allowed_workspace_names state) i ≡ some name
    → relative_slot_from_name name ≡ some (suc i)
relative_slot-allowed state i name h e = elim (dec_lt i state.default_workspace_count) [
  | yes lt ↦
      let same : name ≡ current_name state (suc i) = ground (arith, get_elem?-allowed state i lt) in
      rw same (relative_slot-current_name state (suc i) (omega arith))
  | no ge ↦
      let e' =
        get_elem?-ge (allowed_workspace_names state) i (omega (arith, length-allowed state)) in
      cc
]

-- The place of the name that was taken at place i of the allowed names is i, if the slot count
-- fits u32.
pub position-allowed :
    (state : SessionState) (i : ℕ) (name : Text)
    → state.default_workspace_count ≤ u32_max
    → get_elem? (allowed_workspace_names state) i ≡ some name
    → position (allowed_workspace_names state) name ≡ some i
position-allowed state i name h =
    position-get_elem? (allowed_workspace_names state) i name (allowed-Distinct state h)
