-- ===== src/Workspaces/Owner.antt =====
-- crates/tsk-core/src/workspaces.rs: which task owns a workspace, and that every workspace of a
-- taskspace is a managed one.
use mathlib.Core.List.{append_assoc}
use hypr_taskspace.Prelude.{
  ℕ, ◌≤◌, ◌∷◌, [], ◌++◌, true, false, some, ◌≡◌, refl, ap, ◌≢◌, arith, Member, All, find_sound,
  find_complete, All-Member, List,
}
use hypr_taskspace.Prelude.Text.{Text, starts_with, is_empty}
use hypr_taskspace.Prelude.Decimal.{to_string, u32_max, to_string-ne-nil}
use hypr_taskspace.Prelude.Dict.{values}
use hypr_taskspace.Models.{SessionState, Task, is_archived, task}
use hypr_taskspace.Workspaces.{
  claims, slot_name, task_for_workspace_name, task_workspace_name, is_managed_workspace_name,
  default_taskspace_workspace_name,
}
use hypr_taskspace.Workspaces.Names.{current_name, current_name-task}
use hypr_taskspace.Workspaces.Bar.{is_default-task_workspace_name, is_default-default_name}

-- The ids that the program makes have no dash.
abbrev pub NoDash : Text → Type 0
NoDash = All (λ c. c ≢ b'-')

starts_with_dash : (a rest : Text) → starts_with (a ++ b'-' ∷ []) (a ++ b'-' ∷ rest) ≡ true
starts_with_dash [] rest = refl
starts_with_dash (c ∷ a) rest = ground (arith, starts_with_dash a rest)

-- Two dash-free texts before a dash are equal if one starts with the other.
prefix_unique :
    (a b rest : Text)
    → NoDash a
    → NoDash b
    → starts_with (a ++ b'-' ∷ []) (b ++ b'-' ∷ rest) ≡ true
    → a ≡ b
prefix_unique [] [] rest ha hb h = refl
prefix_unique [] (d ∷ b) rest ha (p, hb) h = ground arith
prefix_unique (c ∷ a) [] rest (p, ha) hb h = ground arith
prefix_unique (c ∷ a) (d ∷ b) rest (p, ha) (q, hb) h = ground (arith, prefix_unique a b rest ha hb)

is_empty-append : (s : Text) (c : ℕ) (t : Text) → is_empty (s ++ c ∷ t) ≡ false
is_empty-append [] c t = refl
is_empty-append (x ∷ s) c t = refl

pub task_name-ne-nil : (id : Text) (n : ℕ) → is_empty (task_workspace_name id n) ≡ false
unfolding task_workspace_name
task_name-ne-nil id n = is_empty-append id b'-' (to_string n)

pub default_name-ne-nil : (n : ℕ) → is_empty (default_taskspace_workspace_name n) ≡ false
unfolding default_taskspace_workspace_name
default_name-ne-nil n = ground (arith, to_string-ne-nil n)

pub claims-own :
    (t : Task) (n : ℕ) → is_archived t.status ≡ false → claims (task_workspace_name t.id n) t ≡ true
unfolding claims task_workspace_name
claims-own t n live = ground (arith, starts_with_dash t.id (to_string n))

claims-id :
    (t : Task) (id : Text) (n : ℕ)
    → NoDash t.id
    → NoDash id
    → claims (task_workspace_name id n) t ≡ true
    → t.id ≡ id
unfolding claims task_workspace_name
claims-id t id n ht hid h = ground (arith, prefix_unique t.id id (to_string n) ht hid)

claims-live : (t : Task) (name : Text) → claims name t ≡ true → is_archived t.status ≡ false
unfolding claims
claims-live t name h = ground arith

-- The owner that is found for a workspace of a live task of the table is a live task of the table
-- with that task's id, if no task id has a dash.
pub owner-task_workspace_name :
    (state : SessionState) (t : Task) (n : ℕ)
    → All (λ u. NoDash u.id) (values state.tasks)
    → Member t (values state.tasks)
    → is_archived t.status ≡ false
    → (u : Task) × (task_for_workspace_name state (task_workspace_name t.id n) ≡ some u)
      × Member u (values state.tasks)
      × (u.id ≡ t.id)
      × (is_archived u.status ≡ false)
unfolding task_for_workspace_name
owner-task_workspace_name state t n plain m live =
    let name = task_workspace_name t.id n in
    let (u, e) = find_complete (claims name) m (claims-own t n live) in
    let (mu, h) = find_sound (claims name) (values state.tasks) u e in
    (
      u,
      rw (is_default-task_workspace_name t.id n state.default_workspace_count) e,
      mu,
      claims-id u t.id n (All-Member _ mu plain) (All-Member _ m plain) h,
      claims-live u name h,
    )

-- If a live task with id a stands first in the table, it is found as the owner of each workspace
-- of a task whose id is a, a dash and more.
pub owner_of_dashed :
    (state : SessionState) (t u : Task) (rest : Text) (more : List (Text × Task)) (n : ℕ)
    → state.tasks ≡ (t.id, t) ∷ more
    → is_archived t.status ≡ false
    → u.id ≡ t.id ++ b'-' ∷ rest
    → task_for_workspace_name state (task_workspace_name u.id n) ≡ some t
unfolding task_for_workspace_name claims task_workspace_name
owner_of_dashed state t u rest more n first live p =
    let own : starts_with (t.id ++ b'-' ∷ []) (u.id ++ b'-' ∷ to_string n) ≡ true =
      rw (p, append_assoc t.id (b'-' ∷ rest) (b'-' ∷ to_string n))
        (starts_with_dash t.id (rest ++ b'-' ∷ to_string n)) in
    let number = is_default-task_workspace_name u.id n state.default_workspace_count in
    ground (arith, ap (λ m. values m) first)

-- The workspaces of the default taskspace are managed, and so are those of a live task.
pub default_name-managed :
    (state : SessionState) (n : ℕ)
    → state.default_workspace_count ≤ u32_max
    → 1 ≤ n
    → n ≤ state.default_workspace_count
    → is_managed_workspace_name state (default_taskspace_workspace_name n) ≡ true
unfolding is_managed_workspace_name
default_name-managed state n fits low high =
    let number = is_default-default_name n state.default_workspace_count (omega arith) in
    ground (arith, default_name-ne-nil n)

pub task_name-managed :
    (state : SessionState) (t : Task) (n : ℕ)
    → Member t (values state.tasks)
    → is_archived t.status ≡ false
    → is_managed_workspace_name state (task_workspace_name t.id n) ≡ true
unfolding is_managed_workspace_name task_for_workspace_name
task_name-managed state t n m live =
    let name = task_workspace_name t.id n in
    let (u, e) = find_complete (claims name) m (claims-own t n live) in
    let number = is_default-task_workspace_name t.id n state.default_workspace_count in
    ground (arith, task_name-ne-nil t.id n)

-- In task mode with a live current task of the table, each name of the taskspace from slot 1 to
-- the slot count is a managed one, if the count fits u32.
pub current_name-managed :
    (state : SessionState) (t : Task) (n : ℕ)
    → state.context_mode ≡ task
    → state.current_task_id ≡ some t.id
    → Member t (values state.tasks)
    → is_archived t.status ≡ false
    → state.default_workspace_count ≤ u32_max
    → 1 ≤ n
    → n ≤ state.default_workspace_count
    → is_managed_workspace_name state (current_name state n) ≡ true
unfolding slot_name
current_name-managed state t n mode current m live fits low high = ground (
  arith,
  current_name-task state t.id n mode current,
  default_name-managed state n fits low high,
  task_name-managed state t n m live,
)
