-- ===== src/Tests/Sync.antt =====
-- Focusing workspaces and switching taskspaces in the sample session.
use hypr_taskspace.Prelude.{none, some, ◌≡◌, ◌≢◌, ◌↔◌, refl, arith, true, here, there, ◌++◌}
use hypr_taskspace.Prelude.Int.{pos}
use hypr_taskspace.Prelude.Text.{Text_eq, codes}
use hypr_taskspace.Prelude.Dict.{get, contains_key}
use hypr_taskspace.Tests.Sample.{session, search_page, desk, start}
use hypr_taskspace.Models.{task}
use hypr_taskspace.Workspaces.{task_workspace_name}
use hypr_taskspace.ContextSync.{sync_from_workspace_name, taskspace_would_change}
use hypr_taskspace.ContextSync.Context.{context, context_of, sync-context, would_change_iff}
use hypr_taskspace.ContextSync.Laws.{sync-task_workspace}
use hypr_taskspace.Nav.Switch.{ok, err, set_taskspace}
use hypr_taskspace.Nav.Switch.Laws.{set_taskspace-task, set_taskspace-error}

sync-task_workspace_example :
    (context (sync_from_workspace_name desk (task_workspace_name (codes "t3b71") 3) start).1.session
      ≡ record { mode = task; task_id = some (codes "t3b71") })
    × (get
          (sync_from_workspace_name desk
            (task_workspace_name (codes "t3b71") 3)
            start).1.session.last_workspace
          (codes "task:t3b71")
        ≡ some (pos 3))
sync-task_workspace_example =
    sync-task_workspace desk start search_page 3 (omega arith, (omega arith, tt))
      (there (here refl)) refl (omega arith) (omega arith) (omega arith)

sync-context_example :
    context (sync_from_workspace_name desk (codes "2") start).1.session
    ≡ context_of session (codes "2")
sync-context_example = sync-context desk (codes "2") start refl

would_change_iff_example :
    ((taskspace_would_change desk (codes "2") start).0 ≡ true)
    ↔ (context (sync_from_workspace_name desk (codes "2") start).1.session ≢ context session)
would_change_iff_example = would_change_iff desk (codes "2") start refl

set_taskspace-task_example :
    ((set_taskspace desk task (some (codes "t3b71")) start).0 ≡ ok)
    × (context (set_taskspace desk task (some (codes "t3b71")) start).1.session
        ≡ record { mode = task; task_id = some (codes "t3b71") })
unfolding contains_key
set_taskspace-task_example = set_taskspace-task desk (codes "t3b71") start refl

set_taskspace-error_example :
    ((set_taskspace desk task (some (codes "zz")) start).0
      ≡ err (codes "Unknown task: " ++ codes "zz"))
    × (context (set_taskspace desk task (some (codes "zz")) start).1.session ≡ context session)
    × ((set_taskspace desk task none start).0 ≡ err (codes "task_id required for task taskspace"))
    × (context (set_taskspace desk task none start).1.session ≡ context session)
unfolding contains_key
set_taskspace-error_example = set_taskspace-error desk (codes "zz") start refl
