-- ===== src/TaskCleanup/Laws.antt =====
-- crates/tsk-core/src/task_cleanup.rs: what closing and stopping leave, and which windows belong to a
-- task.
use hypr_taskspace.Prelude.{List, [], ◌∷◌, ◌≡◌, refl, arith, Option-cases, inl, inr}
use hypr_taskspace.Models.{Task}
use hypr_taskspace.Config.{TskConfig}
use hypr_taskspace.Host.{System, Env, HyprWindow}
use hypr_taskspace.TaskCleanup.{
  is_active_task_context, clients_for_task, close_all, close_task_windows, stop_task_container,
  run_archive_teardown,
}

module _ (h : System) where
  open h use {World}

  pub is_active_task_context-session :
      (t : Task) (s : Env World) → (is_active_task_context h t s).1.session ≡ s.session
  unfolding is_active_task_context
  is_active_task_context-session t s = ground arith

  close_all-session :
      (clients : List HyprWindow) (s : Env World) → (close_all h clients s).1.session ≡ s.session
  unfolding close_all
  close_all-session [] s = refl
  close_all-session (client ∷ clients) s = close_all-session clients _

  clients_for_task-session :
      (config : TskConfig) (t : Task) (s : Env World)
      → (clients_for_task h config t s).1.session ≡ s.session
  unfolding clients_for_task
  clients_for_task-session config t s = ground arith

  pub close_task_windows-session :
      (config : TskConfig) (t : Task) (s : Env World)
      → (close_task_windows h config t s).1.session ≡ s.session
  unfolding close_task_windows
  close_task_windows-session config t s =
      let (clients, s1) = clients_for_task h config t s in
      elim (Option-cases clients) [
        | inl unknown ↦ ground (arith, clients_for_task-session config t s)
        | inr (found, e) ↦
            ground (arith, clients_for_task-session config t s, close_all-session found s1)
      ]

  -- Tearing a task down leaves the session alone.
  pub run_archive_teardown-session :
      (config : TskConfig) (t : Task) (s : Env World)
      → (run_archive_teardown h config t s).1.session ≡ s.session
  unfolding run_archive_teardown stop_task_container
  run_archive_teardown-session config t s = ground (arith, close_task_windows-session config t s)
