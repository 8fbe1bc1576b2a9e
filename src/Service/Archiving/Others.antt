-- ===== src/Service/Archiving/Others.antt =====
-- crates/tsk-core/src/service.rs: what archiving a task does to the others, and what its second half does
-- on its own.
use hypr_taskspace.Prelude.{
  false, Option, none, some, ◌≡◌, ◌≢◌, refl, arith, Bool-cases, Option-cases, inl, inr, sym,
}
use hypr_taskspace.Prelude.Text.{Text, text_eq_iff}
use hypr_taskspace.Prelude.Dict.{Dict, get, insert, get-insert_ne}
use hypr_taskspace.Models.{ContextMode, SessionState, Task, archived, default, task}
use hypr_taskspace.Config.{TskConfig}
use hypr_taskspace.Host.{System, StateChangeKind, asked, full, taskspace}
use hypr_taskspace.Nav.Switch.External.{Outcome-cases}
use hypr_taskspace.Nav.Switch.{set_taskspace}
use hypr_taskspace.Nav.Switch.Laws.{set_taskspace-SameTables}
use hypr_taskspace.TaskCleanup.{purge_task_windows, is_active_task_context, run_archive_teardown}
use hypr_taskspace.TaskCleanup.Laws.{is_active_task_context-session}
use hypr_taskspace.Service.{Daemon, with_config, with_state, commit_state, finish_commit}
use hypr_taskspace.Service.External.{commit_state-session}
use hypr_taskspace.Service.Answers.{Responds, commit_state-answers}
use hypr_taskspace.Service.Tasks.{
  change_task, with_task, leave_taskspace, leave_task, leave_for_archive, prepare_archive,
  archive_entry, complete_archive, tear_down, archive_task,
}
use hypr_taskspace.Valid.{is_live-insert, is_at_home, is_valid}
use hypr_taskspace.Valid.Archive.{Result-cases, commit_state-done}

archive_entry-others :
    (id j : Text) (state : SessionState)
    → j ≢ id
    → get (archive_entry id state).tasks j ≡ get state.tasks j
unfolding change_task purge_task_windows
archive_entry-others id j state other = elim (Option-cases (get state.tasks id)) [
  | inl unknown ↦ ground arith
  | inr (t, found) ↦
      ground (
        arith,
        get-insert_ne state.tasks id j (record t { status = archived }) (λ e. other (sym e)),
      )
]

is_at_home-archived :
    (mode : ContextMode) (id : Text) (t : Task) (tasks : Dict Task)
    → is_at_home mode (some id) (insert tasks id (record t { status = archived })) ≡ false
unfolding is_at_home
is_at_home-archived default id t tasks = refl
is_at_home-archived task id t tasks =
    ground (arith, is_live-insert tasks id (record t { status = archived }) id, text_eq_iff id id)

archive_entry-invalid :
    (id : Text) (t : Task) (state : SessionState)
    → get state.tasks id ≡ some t
    → state.current_task_id ≡ some id
    → is_valid (archive_entry id state) ≡ false
unfolding change_task purge_task_windows is_valid
archive_entry-invalid id t state found here =
    ground (arith, is_at_home-archived state.context_mode id t state.tasks)

module _ (h : System) (config : TskConfig) where
  open h use {World}

  -- Both sessions have the entry that the stored one had.
  abbrev SameEntry : Text → Daemon World → Daemon World → Type 0
  SameEntry j before after =
      (get after.stored.tasks j ≡ get before.stored.tasks j)
      × (get after.env.session.tasks j ≡ get before.stored.tasks j)

  commit_state-SameEntry :
      {A : Type 0} (change : Option StateChangeKind) (result : A) (j : Text)
      (before d : Daemon World)
      → SameEntry j before d
      → SameEntry j before (commit_state h config change result d).1
  unfolding commit_state finish_commit
  commit_state-SameEntry change result j before d same =
      ground (arith, commit_state-session h config change result d)

  leave_task-SameEntry :
      (t : Task) (j : Text) (d : Daemon World)
      → SameEntry j d d
      → SameEntry j d (leave_task h config t d).1
  unfolding leave_task leave_taskspace
  leave_task-SameEntry t j d loaded =
      let (was_current, s1) = is_active_task_context h t d.env in
      let (switched, s2) = set_taskspace h default none s1 in
      let d2 : Daemon World = record d { env = s2 } in
      let quiet = is_active_task_context-session h t d.env in
      let tables = (set_taskspace-SameTables h default none s1).tasks in
      let same2 : SameEntry j d d2 = ground (arith, quiet, tables) in
      let committed = commit_state-SameEntry (some taskspace) tt j d d2 same2 in
      elim (Bool-cases was_current) [
        | inl here ↦ elim (Outcome-cases switched) [
          | inl success ↦ ground (arith, committed)
          | inr (e, failure) ↦ ground (arith, same2)
        ]
        | inr away ↦ ground (arith, quiet)
      ]

  prepare_archive-SameEntry :
      (id j : Text) (d : Daemon World)
      → get (prepare_archive h config id d).1.stored.tasks j ≡ get d.stored.tasks j
  unfolding prepare_archive leave_for_archive with_task with_state with_config
  prepare_archive-SameEntry id j d =
      let s1 = with_config config d.stored in
      let env1 = record (asked h.can_load d.env) { session = s1 } in
      elim (Option-cases (get d.stored.tasks id)) [
        | inl unknown ↦ ground arith
        | inr (t, found) ↦
            let env2 = record env1 { world = h.capture_browser t env1.world } in
            let d2 : Daemon World = record { env = env2; stored = d.stored } in
            let left = leave_task-SameEntry t j d2 (refl, refl) in
            elim (Result-cases (leave_task h config t d2).0) [
              | inl (u, e) ↦ ground (arith, left)
              | inr (inl (e, stopped)) ↦ ground (arith, left)
              | inr (inr stopped) ↦ ground (arith, left)
            ]
      ]

  complete_archive-others :
      (id j : Text) (d : Daemon World)
      → j ≢ id
      → get (complete_archive h config id d).1.stored.tasks j ≡ get d.stored.tasks j
  unfolding complete_archive with_task with_state with_config
  complete_archive-others id j d other =
      let s1 = with_config config d.stored in
      let env2 = record (asked h.can_load d.env) { session = archive_entry id s1 } in
      let d2 : Daemon World = record { env = env2; stored = d.stored } in
      let kept = archive_entry-others id j s1 other in
      let committed = commit_state-SameEntry (some full) tt j d d2 (refl, kept) in
      elim (Option-cases (get d.stored.tasks id)) [
        | inl unknown ↦ ground arith
        | inr (t, found) ↦ ground (arith, committed)
      ]

  -- Archiving a task leaves every other task in the stored table as it was, whether it succeeds,
  -- is refused or fails on its way.
  pub archive_task-others :
      (id j : Text) (d : Daemon World)
      → j ≢ id
      → get (archive_task h config id d).1.stored.tasks j ≡ get d.stored.tasks j
  unfolding archive_task tear_down
  archive_task-others id j d other =
      let (prepared, d1) = prepare_archive h config id d in
      let first = prepare_archive-SameEntry id j d in
      elim (Result-cases prepared) [
        | inl (t, left) ↦
            let (closed, s2) = run_archive_teardown h config t d1.env in
            let d2 : Daemon World = record d1 { env = s2 } in
            ground (arith, first, complete_archive-others id j d2 other)
        | inr (inl (e, stopped)) ↦ ground (arith, first)
        | inr (inr stopped) ↦ ground (arith, first)
      ]

  -- The second half of archiving does not look at the current task: if the database and the
  -- runtime directory work, the task is in the stored table and has become the stored session's
  -- current one since the first half, the session that is stored is not valid.
  pub complete_archive-current :
      (works : Responds h) (id : Text) (t : Task) (d : Daemon World)
      → get d.stored.tasks id ≡ some t
      → d.stored.current_task_id ≡ some id
      → is_valid (complete_archive h config id d).1.stored ≡ false
  unfolding complete_archive with_task with_state with_config
  complete_archive-current works id t d found here =
      let s1 = with_config config d.stored in
      let env2 = record (asked h.can_load d.env) { session = archive_entry id s1 } in
      let d2 : Daemon World = record { env = env2; stored = d.stored } in
      let answer = commit_state-answers h config works (some full) tt d2 in
      let (_, stored) = commit_state-done h config (some full) tt tt d2 answer in
      let invalid = archive_entry-invalid id t s1 found here in
      ground (arith, works.loads d.env.world, stored, invalid)
