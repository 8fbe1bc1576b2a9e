-- ===== src/Service/Switching.antt =====
-- crates/tsk-core/src/service.rs: what switching to a task and deleting one do to the stored session.
use hypr_taskspace.Prelude.{true, false, none, some, ◌≡◌, ◌≢◌, arith, Option-cases, inl, inr, ◌++◌}
use hypr_taskspace.Prelude.Text.{Text, text_eq_iff, codes}
use hypr_taskspace.Prelude.Dict.{Dict, get, remove, get-insert_self, get-remove, contains_key}
use hypr_taskspace.Models.{SessionState, Task, task, active}
use hypr_taskspace.Config.{TskConfig}
use hypr_taskspace.Host.{System, asked, full, taskspace}
use hypr_taskspace.ContextSync.{is_id}
use hypr_taskspace.ContextSync.Context.{context}
use hypr_taskspace.Nav.Switch.{Outcome, ok, err, set_taskspace}
use hypr_taskspace.Nav.Switch.Laws.{set_taskspace-task, set_taskspace-SameTables}
use hypr_taskspace.TaskCleanup.{
  purge_task_windows, purge_task_session_keys, close_task_windows, stop_task_container,
  remove_task_container,
}
use hypr_taskspace.Service.{Daemon, done, with_config, with_state}
use hypr_taskspace.Service.Tasks.{
  put_task, default_slot, with_task, finish_switch, enter_switched, switch_live, switch_task,
  leave_task, delete_entry, remove_entry, remove_left, delete_task,
}
use hypr_taskspace.Valid.{entry-keyed}
use hypr_taskspace.Valid.Daemon.{IsSafe}
use hypr_taskspace.Valid.Rules.{with_config-IsValid}
use hypr_taskspace.Valid.Archive.{Result-cases, commit_state-done}
use hypr_taskspace.Service.Archiving.{NoWindows, retain-NoWindows, is_id-ne}

-- The session is at the task, which stands in the table as given.
pub record IsAt (id : Text) (t : Task) (state : SessionState) : Type 0 where
  pub context_at : context state ≡ record { mode = task; task_id = some id }
  pub entry : get state.tasks id ≡ some t

-- Nothing of the task is left: no entry, no windows, no remembered workspace, no remembered layout of the
-- monitors, and it is not the current one.
pub record IsGone (id : Text) (state : SessionState) : Type 0 where
  pub no_entry : get state.tasks id ≡ none
  pub no_windows : NoWindows id state.windows
  pub no_workspace : get state.last_workspace (codes "task:" ++ id) ≡ none
  pub no_layout : get state.last_monitor_workspace (codes "task:" ++ id) ≡ none
  pub elsewhere : state.current_task_id ≢ some id

delete_entry-elsewhere :
    (id : Text) (state : SessionState) → is_id id (delete_entry id state).current_task_id ≡ false
unfolding purge_task_session_keys purge_task_windows
delete_entry-elsewhere id state = ground arith

delete_entry-windows :
    (id : Text) (state : SessionState)
    → (delete_entry id state).windows ≡ (purge_task_windows id state).windows
unfolding purge_task_session_keys
delete_entry-windows id state = ground arith

delete_entry-tasks :
    (id : Text) (state : SessionState) → (delete_entry id state).tasks ≡ remove state.tasks id
unfolding purge_task_session_keys purge_task_windows
delete_entry-tasks id state = ground arith

delete_entry-slots :
    (id : Text) (state : SessionState)
    → ((delete_entry id state).last_workspace ≡ remove state.last_workspace (codes "task:" ++ id))
      × ((delete_entry id state).last_monitor_workspace
          ≡ remove state.last_monitor_workspace (codes "task:" ++ id))
unfolding purge_task_session_keys purge_task_windows
delete_entry-slots id state = (ground arith, ground arith)

get-remove_self : {A : Type 0} (m : Dict A) (k : Text) → get (remove m k) k ≡ none
get-remove_self m k = ground (arith, get-remove m k k, text_eq_iff k k)

delete_entry-IsGone : (id : Text) (state : SessionState) → IsGone id (delete_entry id state)
unfolding purge_task_windows
delete_entry-IsGone id state = record {
  no_entry =
      ground (arith, delete_entry-tasks id state, get-remove state.tasks id id, text_eq_iff id id);
  no_windows = rw (delete_entry-windows id state) (retain-NoWindows id state.windows);
  no_workspace =
      rw ((delete_entry-slots id state).0)
        (get-remove_self state.last_workspace (codes "task:" ++ id));
  no_layout =
      rw ((delete_entry-slots id state).1)
        (get-remove_self state.last_monitor_workspace (codes "task:" ++ id));
  elsewhere = is_id-ne id _ (delete_entry-elsewhere id state);
}

module _ (h : System) (config : TskConfig) where
  open h use {World}

  remove_entry-stored :
      (id : Text) (t : Task) (d : Daemon World)
      → (remove_entry h config id t d).0 ≡ done tt
      → (state : SessionState) × ((remove_entry h config id t d).1.stored ≡ delete_entry id state)
  unfolding remove_entry
  remove_entry-stored id t d succeeds =
      let s1 = (stop_task_container h t d.env).1 in
      let s2 = (remove_task_container h t s1).1 in
      let s3 = record s2 {
        world = h.remove_data_dir t (h.remove_checkout t s2.world);
        session = delete_entry id s2.session;
      } in
      (
        s2.session,
        ground (arith, commit_state-done h config (some full) tt tt (record d { env = s3 })),
      )

  remove_left-IsGone :
      (id : Text) (t : Task) (d : Daemon World)
      → (remove_left h config id t d).0 ≡ done tt
      → IsGone id (remove_left h config id t d).1.stored
  unfolding remove_left
  remove_left-IsGone id t d succeeds =
      let (closed, s1) = close_task_windows h config t d.env in
      let d1 : Daemon World = record d { env = s1 } in
      elim (Option-cases closed) [
        | inl stuck ↦ ground arith
        | inr (n, went) ↦
            let same : remove_left h config id t d ≡ remove_entry h config id t d1 = ground arith in
            let (state, stored) = remove_entry-stored id t d1 (ground arith) in
            rw same (rw stored (delete_entry-IsGone id state))
      ]

  -- Deleting a task, if it succeeds, stores a session in which the task has no entry, no windows,
  -- no remembered workspace and no remembered layout of the monitors, and is not the current task.
  pub delete_task-IsGone :
      (id : Text) (d : Daemon World)
      → (delete_task h config id d).0 ≡ done tt
      → IsGone id (delete_task h config id d).1.stored
  unfolding delete_task with_task with_state
  delete_task-IsGone id d succeeds =
      let s1 = with_config config d.stored in
      let d1 : Daemon World = record {
        env = record (asked h.can_load d.env) { session = s1 };
        stored = d.stored;
      } in
      elim (Option-cases (get s1.tasks id)) [
        | inl unknown ↦ ground arith
        | inr (t, found) ↦
            let (left, d2) = leave_task h config t d1 in
            elim (Result-cases left) [
              | inl (done_unit, e) ↦
                  let same : delete_task h config id d ≡ remove_left h config id t d2 =
                    ground arith in
                  rw same (remove_left-IsGone id t d2 (ground arith))
              | inr (inl (e, stopped)) ↦ ground arith
              | inr (inr stopped) ↦ ground arith
            ]
      ]

  finish_switch-stored :
      (id : Text) (t u : Task) (switched : Outcome) (d : Daemon World)
      → (finish_switch h config id t switched d).0 ≡ done u
      → (u ≡ t)
        × ((finish_switch h config id t switched d).1.stored ≡ default_slot id d.env.session)
  unfolding finish_switch
  finish_switch-stored id t u ok d succeeds =
      let env1 = record d.env { session = default_slot id d.env.session } in
      let d1 : Daemon World = record d { env = env1 } in
      ground (arith, commit_state-done h config (some taskspace) t u d1)
  finish_switch-stored id t u (err e) d fails = ground arith

  enter_switched-IsAt :
      (id : Text) (t u : Task) (d : Daemon World)
      → get d.env.session.tasks id ≡ some t
      → (enter_switched h config id t d).0 ≡ done u
      → (u ≡ t) × IsAt id t (enter_switched h config id t d).1.stored
  unfolding enter_switched default_slot contains_key
  enter_switched-IsAt id t u d entry succeeds =
      let (switched, s1) = set_taskspace h task (some id) d.env in
      let d1 : Daemon World = record d { env = s1 } in
      let known : contains_key d.env.session.tasks id ≡ true = ground arith in
      let arrived = set_taskspace-task h id d.env known in
      let same = set_taskspace-SameTables h task (some id) d.env in
      let (answer, stored) = finish_switch-stored id t u switched d1 succeeds in
      (
        answer,
        record {
          context_at = ground (arith, arrived, stored);
          entry = ground (arith, same.tasks, stored);
        },
      )

  switch_live-IsAt :
      (id : Text) (t u : Task) (d : Daemon World)
      → t.id ≡ id
      → (switch_live h config id t d).0 ≡ done u
      → (u.status ≡ active) × IsAt id u (switch_live h config id t d).1.stored
  unfolding switch_live
  switch_live-IsAt id t u d same succeeds =
      let opened = record t { status = active; last_active_at = (h.now d.env.world).0 } in
      let state = put_task opened d.env.session in
      let d1 : Daemon World = record d { env = record (asked h.now d.env) { session = state } } in
      let entry : get state.tasks id ≡ some opened =
        ground (arith, get-insert_self d.env.session.tasks t.id opened) in
      let (answer, at) = enter_switched-IsAt id opened u d1 entry succeeds in
      (ground arith, rw answer at)

  -- A switch to a task of a valid session, if it succeeds, stores a session that is at the task,
  -- with the task that is answered as its entry, active.
  pub switch_task-IsAt :
      (id : Text) (u : Task) (d : Daemon World)
      → IsSafe d
      → (switch_task h config id d).0 ≡ done u
      → (u.status ≡ active) × IsAt id u (switch_task h config id d).1.stored
  unfolding switch_task with_task with_state
  switch_task-IsAt id u d safe succeeds =
      let s1 = with_config config d.stored in
      let d1 : Daemon World = record {
        env = record (asked h.can_load d.env) { session = s1 };
        stored = d.stored;
      } in
      elim (Option-cases (get s1.tasks id)) [
        | inl unknown ↦ ground arith
        | inr (t, found) ↦
            let same = entry-keyed s1 id t (with_config-IsValid config d.stored safe.0) found in
            let run : switch_task h config id d ≡ switch_live h config id t d1 = ground arith in
            rw run (switch_live-IsAt id t u d1 same (ground arith))
      ]
