-- ===== src/Service/Archiving.antt =====
-- crates/tsk-core/src/service.rs: what archiving a task does to the stored session.
pub mod Others
use hypr_taskspace.Prelude.{
  Bool, true, false, not, Option, none, some, List, [], ◌∷◌, ◌≡◌, ◌≢◌, refl, arith, Bool-cases,
  Option-cases, inl, inr, All,
}
use hypr_taskspace.Prelude.Text.{Text, text_eq, text_eq_iff}
use hypr_taskspace.Prelude.Dict.{Dict, get, insert, retain, values, get-insert_self}
use hypr_taskspace.Models.{SessionState, Task, TaskStatus, WindowRecord, archived}
use hypr_taskspace.Config.{TskConfig}
use hypr_taskspace.Host.{System, asked, full}
use hypr_taskspace.ContextSync.{is_id}
use hypr_taskspace.TaskCleanup.{purge_task_windows, run_archive_teardown}
use hypr_taskspace.TaskCleanup.Laws.{run_archive_teardown-session}
use hypr_taskspace.Service.{Daemon, Result, done, error, failed, with_config, with_state}
use hypr_taskspace.Service.Tasks.{
  change_task, with_task, archive_entry, complete_archive, tear_down, prepare_archive, archive_task,
}
use hypr_taskspace.Valid.Daemon.{IsSafe}
use hypr_taskspace.Valid.Archive.{
  Result-cases, commit_state-done, prepare_archive-Elsewhere, prepare_archive-KeepsSafe, Elsewhere,
}

-- No record of a window belongs to the task.
abbrev pub NoWindows : Text → Dict WindowRecord → Type 0
NoWindows id windows = All (λ (w : WindowRecord). w.task_id ≢ some id) (values windows)

-- The task is in the table and archived, has no windows, and is not the current one.
pub record IsPutAway (id : Text) (state : SessionState) : Type 0 where
  pub entry : (t : Task) × (get state.tasks id ≡ some t) × (t.status ≡ archived)
  pub no_windows : NoWindows id state.windows
  pub elsewhere : state.current_task_id ≢ some id

pub is_id-ne : (id : Text) (current : Option Text) → is_id id current ≡ false → current ≢ some id
is_id-ne id none h = ground arith
is_id-ne id (some other) h = ground (arith, text_eq_iff other id)

pub retain-NoWindows :
    (id : Text) (windows : Dict WindowRecord)
    → NoWindows id (retain (λ _ (w : WindowRecord). not (is_id id w.task_id)) windows)
unfolding retain
retain-NoWindows id [] = tt
retain-NoWindows id ((k, w) ∷ windows) = elim (Bool-cases (is_id id w.task_id)) [
  | inl own ↦ rw own (retain-NoWindows id windows)
  | inr other ↦ rw other (is_id-ne id w.task_id other, retain-NoWindows id windows)
]

archive_entry-IsPutAway :
    (id : Text) (t : Task) (state : SessionState)
    → get state.tasks id ≡ some t
    → is_id id state.current_task_id ≡ false
    → IsPutAway id (archive_entry id state)
unfolding change_task purge_task_windows
archive_entry-IsPutAway id t state found elsewhere =
    let same : (archive_entry id state).current_task_id ≡ state.current_task_id = ground arith in
    record {
      entry = (
        record t { status = archived },
        ground (arith, get-insert_self state.tasks id (record t { status = archived })),
        refl,
      );
      no_windows = ground (arith, retain-NoWindows id state.windows);
      elsewhere = rw same (is_id-ne id state.current_task_id elsewhere);
    }

module _ (h : System) (config : TskConfig) where
  open h use {World}

  complete_archive-done :
      (id : Text) (d : Daemon World)
      → (complete_archive h config id d).0 ≡ done tt
      → (t : Task) × (get d.stored.tasks id ≡ some t)
        × ((complete_archive h config id d).1.stored
            ≡ archive_entry id (with_config config d.stored))
  unfolding complete_archive with_task with_state with_config
  complete_archive-done id d succeeds =
      let s2 = archive_entry id (with_config config d.stored) in
      let d2 : Daemon World = record {
        env = record (asked h.can_load d.env) { session = s2 };
        stored = d.stored;
      } in
      elim (Option-cases (get d.stored.tasks id)) [
        | inl unknown ↦ ground arith
        | inr (t, found) ↦
            (t, found, ground (arith, commit_state-done h config (some full) tt tt d2))
      ]

  tear_down-done :
      (id : Text) (t : Task) (d : Daemon World)
      → (tear_down h config id t d).0 ≡ done tt
      → Elsewhere h config id d
      → IsPutAway id (tear_down h config id t d).1.stored
  unfolding tear_down with_config
  tear_down-done id t d succeeds elsewhere =
      let (closed, s1) = run_archive_teardown h config t d.env in
      let d1 : Daemon World = record d { env = s1 } in
      elim (Bool-cases closed) [
        | inl went ↦
            let completed : (complete_archive h config id d1).0 ≡ done tt = ground arith in
            let (u, found, stored) = complete_archive-done id d1 completed in
            let away = archive_entry-IsPutAway id u (with_config config d.stored) found elsewhere in
            let same : (tear_down h config id t d).1.stored
                ≡ archive_entry id (with_config config d.stored) =
              ground arith in
            rw same away
        | inr stuck ↦ ground arith
      ]

  -- Archiving a task of a valid session, if it succeeds, leaves the task in the stored table as an
  -- archived one, without windows, and not as the current task.
  pub archive_task-IsPutAway :
      (id : Text) (d : Daemon World)
      → IsSafe d
      → (archive_task h config id d).0 ≡ done tt
      → IsPutAway id (archive_task h config id d).1.stored
  unfolding archive_task
  archive_task-IsPutAway id d safe succeeds =
      let (prepared, d1) = prepare_archive h config id d in
      elim (Result-cases prepared) [
        | inl (t, left) ↦
            let elsewhere = prepare_archive-Elsewhere h config id t d safe left in
            let same : archive_task h config id d ≡ tear_down h config id t d1 = ground arith in
            rw same (tear_down-done id t d1 (ground arith) elsewhere)
        | inr (inl (e, stopped)) ↦ ground arith
        | inr (inr stopped) ↦ ground arith
      ]
