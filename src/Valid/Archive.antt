-- ===== src/Valid/Archive.antt =====
-- crates/tsk-core/src/service.rs: archiving tasks, one by one and after a reboot, and creating them
-- keep the daemon safe.
use hypr_taskspace.Prelude.{
  true, false, Option, none, some, ◌≡◌, ◌⊎◌, refl, arith, Bool-cases, Option-cases, inl, inr,
}
use hypr_taskspace.Prelude.Text.{Text}
use hypr_taskspace.Prelude.Dict.{get}
use hypr_taskspace.Models.{SessionState, Task, archived, default}
use hypr_taskspace.Config.{TskConfig}
use hypr_taskspace.Host.{System, Env, StateChangeKind, asked, taskspace, full}
use hypr_taskspace.ContextSync.{is_id}
use hypr_taskspace.Nav.Switch.{set_taskspace}
use hypr_taskspace.Nav.Switch.Laws.{set_taskspace-default}
use hypr_taskspace.TaskCleanup.{is_active_task_context, purge_task_windows, run_archive_teardown}
use hypr_taskspace.TaskCleanup.Laws.{run_archive_teardown-session}
use hypr_taskspace.Service.{
  Result, done, error, failed, Daemon, with_config, with_state, commit_state, finish_commit,
}
use hypr_taskspace.Service.Tasks.{
  change_task, with_task, leave_taskspace, leave_task, leave_for_archive, prepare_archive,
  archive_entry, complete_archive, tear_down, archive_task,
}
use hypr_taskspace.Valid.{is_valid, IsValid, insert-IsValid, entry-keyed}
use hypr_taskspace.Valid.Daemon.{IsSafe, KeepsSafe, commit_state-KeepsSafe}
use hypr_taskspace.Valid.Tasks.{with_task-KeepsSafe, leave_task-KeepsSafe}
use hypr_taskspace.Valid.Rules.{safe_rules, with_config-IsValid}

archive_entry-IsValid :
    (id : Text) (state : SessionState)
    → IsValid state
    → is_id id state.current_task_id ≡ false
    → IsValid (archive_entry id state)
unfolding change_task purge_task_windows is_valid
archive_entry-IsValid id state valid elsewhere = elim (Option-cases (get state.tasks id)) [
  | inl unknown ↦ ground arith
  | inr (t, found) ↦
      let kept =
        insert-IsValid state id (record t { status = archived }) valid
          (entry-keyed state id t valid found) (λ here. ground arith) in
      ground (arith, kept)
]

pub Result-cases :
    {A : Type 0} (r : Result A)
    → ((a : A) × (r ≡ done a)) ⊎ (((e : Text) × (r ≡ error e)) ⊎ (r ≡ failed))
Result-cases (done a) = inl (a, refl)
Result-cases (error e) = inr (inl (e, refl))
Result-cases failed = inr (inr refl)

module _ (h : System) (config : TskConfig) where
  open h use {World}

  -- The stored session is at another task, or at none.
  abbrev pub Elsewhere : Text → Daemon World → Type 0
  Elsewhere id d = is_id id d.stored.current_task_id ≡ false

  pub complete_archive-IsSafe :
      (id : Text) (d : Daemon World)
      → IsSafe d
      → Elsewhere id d
      → IsSafe (complete_archive h config id d).1
  unfolding complete_archive with_task with_state with_config
  complete_archive-IsSafe id d safe elsewhere =
      let s1 = with_config config d.stored in
      let valid1 = with_config-IsValid config d.stored safe.0 in
      let s2 = archive_entry id s1 in
      let env2 = record (asked h.can_load d.env) { session = s2 } in
      let d2 : Daemon World = record { env = env2; stored = d.stored } in
      let valid2 = archive_entry-IsValid id s1 valid1 elsewhere in
      let committed = (commit_state-KeepsSafe h config (some full) tt).at d2 (safe.0, valid2) in
      elim (Option-cases (get s1.tasks id)) [
        | inl unknown ↦ ground (arith, valid1)
        | inr (t, found) ↦ ground (arith, committed, valid1)
      ]

  -- A commit that succeeds gives the answer and stores the session at hand.
  pub commit_state-done :
      {A : Type 0} (change : Option StateChangeKind) (result a : A) (d : Daemon World)
      → (commit_state h config change result d).0 ≡ done a
      → (a ≡ result) × ((commit_state h config change result d).1.stored ≡ d.env.session)
  unfolding commit_state finish_commit
  commit_state-done change result a d succeeds = ground arith

  leave_taskspace-left :
      (d : Daemon World)
      → (leave_taskspace h config d).0 ≡ done tt
      → (leave_taskspace h config d).1.stored.current_task_id ≡ none
  unfolding leave_taskspace
  leave_taskspace-left d succeeds =
      let s1 = (set_taskspace h default none d.env).1 in
      ground (
        arith,
        set_taskspace-default h none d.env,
        commit_state-done (some taskspace) tt tt (record d { env = s1 }),
      )

  active_context-here :
      (t : Task) (s : Env World)
      → is_id t.id s.session.current_task_id ≡ true
      → (is_active_task_context h t s).0 ≡ true
  unfolding is_active_task_context
  active_context-here t s here = ground arith

  leave_task-Elsewhere :
      (t : Task) (d : Daemon World)
      → d.env.session.current_task_id ≡ d.stored.current_task_id
      → (leave_task h config t d).0 ≡ done tt
      → Elsewhere t.id (leave_task h config t d).1
  unfolding leave_task
  leave_task-Elsewhere t d loaded succeeds =
      let (was_current, s1) = is_active_task_context h t d.env in
      let left = leave_taskspace-left (record d { env = s1 }) in
      elim (Bool-cases was_current) [
        | inl here ↦ ground (arith, left)
        | inr away ↦ ground (arith, active_context-here t d.env)
      ]

  leave_for_archive-Elsewhere :
      (t u : Task) (d : Daemon World)
      → d.env.session.current_task_id ≡ d.stored.current_task_id
      → (leave_for_archive h config t d).0 ≡ done u
      → Elsewhere t.id (leave_for_archive h config t d).1
  unfolding leave_for_archive
  leave_for_archive-Elsewhere t u d loaded succeeds =
      let env1 = record d.env { world = h.capture_browser t d.env.world } in
      let d1 : Daemon World = record d { env = env1 } in
      elim (Result-cases (leave_task h config t d1).0) [
        | inl (done_unit, left) ↦ ground (arith, leave_task-Elsewhere t d1 loaded left)
        | inr (inl (e, stopped)) ↦ ground arith
        | inr (inr stopped) ↦ ground arith
      ]

  pub prepare_archive-Elsewhere :
      (id : Text) (u : Task) (d : Daemon World)
      → IsSafe d
      → (prepare_archive h config id d).0 ≡ done u
      → Elsewhere id (prepare_archive h config id d).1
  unfolding prepare_archive with_task with_state with_config
  prepare_archive-Elsewhere id u d safe succeeds =
      let s1 = with_config config d.stored in
      let d1 : Daemon World = record {
        env = record (asked h.can_load d.env) { session = s1 };
        stored = d.stored;
      } in
      elim (Option-cases (get s1.tasks id)) [
        | inl unknown ↦ ground arith
        | inr (t, found) ↦
            let same = entry-keyed s1 id t (with_config-IsValid config d.stored safe.0) found in
            ground (arith, leave_for_archive-Elsewhere t u d1 refl)
      ]

  leave_for_archive-KeepsSafe : (t : Task) → KeepsSafe (leave_for_archive h config t)
  unfolding leave_for_archive
  leave_for_archive-KeepsSafe t = search (safe_rules, leave_task-KeepsSafe)

  pub prepare_archive-KeepsSafe : (id : Text) → KeepsSafe (prepare_archive h config id)
  unfolding prepare_archive
  prepare_archive-KeepsSafe id =
      search (safe_rules, with_task-KeepsSafe, leave_for_archive-KeepsSafe)

  tear_down-IsSafe :
      (id : Text) (t : Task) (d : Daemon World)
      → IsSafe d
      → Elsewhere id d
      → IsSafe (tear_down h config id t d).1
  unfolding tear_down
  tear_down-IsSafe id t d safe elsewhere =
      let (closed, s1) = run_archive_teardown h config t d.env in
      let d1 : Daemon World = record d { env = s1 } in
      let same = run_archive_teardown-session h config t d.env in
      let safe1 : IsSafe d1 = ground (arith, same) in
      ground (arith, complete_archive-IsSafe id d1 safe1 elsewhere)

  pub archive_task-KeepsSafe : (id : Text) → KeepsSafe (archive_task h config id)
  unfolding archive_task
  archive_task-KeepsSafe id = record {
    at = λ d safe.
        let (prepared, d1) = prepare_archive h config id d in
        let safe1 = (prepare_archive-KeepsSafe id).at d safe in
        elim (Result-cases prepared) [
          | inl (u, left) ↦
              let elsewhere = prepare_archive-Elsewhere id u d safe left in
              ground (arith, safe1, tear_down-IsSafe id u d1 safe1 elsewhere)
          | inr (inl (e, stopped)) ↦ ground (arith, safe1)
          | inr (inr stopped) ↦ ground (arith, safe1)
        ];
  }
