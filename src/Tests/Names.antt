-- ===== src/Tests/Names.antt =====
-- Names and slots of the sample session.
use hypr_taskspace.Prelude.{some, ◌≡◌, refl, arith, true, false, Member, here, there, [], ◌∷◌}
use hypr_taskspace.Prelude.Text.{Text_eq, codes}
use hypr_taskspace.Prelude.Dict.{values}
use hypr_taskspace.Prelude.Decimal.{to_string, parse_u32}
use hypr_taskspace.Models.{Task, is_archived}
use hypr_taskspace.Workspaces.{
  allowed_workspace_names, relative_slot_from_name, resolve_bar_workspace_name, task_workspace_name,
  default_taskspace_workspace_name, is_global_workspace_slot, task_for_workspace_name,
  is_managed_workspace_name, task_taskspace_workspace_names, slot_name, workspace_display_label,
}
use hypr_taskspace.Workspaces.Names.{current_name}
use hypr_taskspace.Workspaces.Bar.{resolve-task_workspace_name}
use hypr_taskspace.Workspaces.Owner.{
  owner_of_dashed, owner-task_workspace_name, current_name-managed,
}
use hypr_taskspace.Tests.Sample.{session, billing, search_page, named_task}

allowed_names :
    allowed_workspace_names session
    ≡ codes "1" ∷ codes "t3fa0-2" ∷ codes "t3fa0-3" ∷ codes "t3fa0-4" ∷ []
unfolding allowed_workspace_names task_taskspace_workspace_names slot_name is_global_workspace_slot
    task_workspace_name default_taskspace_workspace_name to_string
allowed_names = refl

labels :
    (workspace_display_label (codes "10") ≡ codes "0")
    × (workspace_display_label (codes "auth-fix-2") ≡ codes "2")
    × (workspace_display_label (codes "scratch") ≡ codes "scratch")
unfolding workspace_display_label relative_slot_from_name parse_u32 to_string
labels = (refl, refl, refl)

resolve-task_workspace_name_example :
    resolve_bar_workspace_name
      (task_workspace_name (codes "t3b71") 3)
      session
      (allowed_workspace_names session)
    ≡ some (current_name session 3)
resolve-task_workspace_name_example =
    resolve-task_workspace_name session (codes "t3b71") 3 (omega arith) (omega arith) (omega arith)

owner-task_workspace_name_example :
    (u : Task) × (task_for_workspace_name session (task_workspace_name (codes "t3b71") 2) ≡ some u)
    × Member u (values session.tasks)
    × (u.id ≡ codes "t3b71")
    × (is_archived u.status ≡ false)
owner-task_workspace_name_example =
    owner-task_workspace_name session search_page 2 (omega arith) (there (here refl)) refl

current_name-managed_example : is_managed_workspace_name session (current_name session 4) ≡ true
current_name-managed_example =
    current_name-managed session billing 4 refl refl (here refl) refl (omega arith) (omega arith)
      (omega arith)

-- The task "a" stands before the task "a-b".
owner_of_dashed_example :
    task_for_workspace_name
      (record session {
        tasks =
            (codes "a", named_task (codes "a") (codes "A"))
            ∷ (codes "a-b", named_task (codes "a-b") (codes "B"))
            ∷ [];
      })
      (task_workspace_name (codes "a-b") 2)
    ≡ some (named_task (codes "a") (codes "A"))
owner_of_dashed_example =
    owner_of_dashed
      (record session {
        tasks =
            (codes "a", named_task (codes "a") (codes "A"))
            ∷ (codes "a-b", named_task (codes "a-b") (codes "B"))
            ∷ [];
      })
      (named_task (codes "a") (codes "A")) (named_task (codes "a-b") (codes "B")) (codes "b")
      ((codes "a-b", named_task (codes "a-b") (codes "B")) ∷ []) 2 refl refl refl
