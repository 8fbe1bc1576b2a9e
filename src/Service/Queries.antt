-- ===== src/Service/Queries.antt =====
-- crates/tsk-core/src/service.rs: looking tasks up and listing them.
use hypr_taskspace.Prelude.{not, List, map, ◌++◌, filter}
use hypr_taskspace.Prelude.Text.{Text, codes}
use hypr_taskspace.Prelude.Dict.{values}
use hypr_taskspace.Models.{SessionState, Task, is_archived}
use hypr_taskspace.Config.{TskConfig}
use hypr_taskspace.TaskIds.{
  TaskLookup, found, not_found, ambiguous_prefix, lookup_task, short_task_id, join,
}
use hypr_taskspace.Host.{System, ◌>>=◌, pure, get_session}
use hypr_taskspace.Service.{Result, done, error, D, lift, with_state}
use hypr_taskspace.Service.Tasks.{unknown_task}

module _ (h : System) (config : TskConfig) where
  open h use {World}

  unfoldable pub list_active_tasks : D World (Result (List Task))
  list_active_tasks = with_state h config (do
    state ← lift get_session
    pure (done (filter (λ t. not (is_archived t.status)) (values state.tasks))))

  unfoldable pub list_archived_tasks : D World (Result (List Task))
  list_archived_tasks = with_state h config (do
    state ← lift get_session
    pure (done (filter (λ t. is_archived t.status) (values state.tasks))))

  unfoldable pub resolve_found : SessionState → Text → TaskLookup → Result Task
  resolve_found state name_or_id (found t) = done t
  resolve_found state name_or_id not_found = error (unknown_task name_or_id)
  resolve_found state name_or_id (ambiguous_prefix ids) = error (
      codes "Ambiguous task prefix '"
      ++ name_or_id
      ++ codes "': matches "
      ++ join (codes ", ") (map (short_task_id state) ids))

  unfoldable pub resolve_task : Text → D World (Result Task)
  resolve_task name_or_id = with_state h config (do
    state ← lift get_session
    pure (resolve_found state name_or_id (lookup_task state name_or_id)))
