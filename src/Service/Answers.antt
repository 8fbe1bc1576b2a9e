-- ===== src/Service/Answers.antt =====
-- crates/tsk-core/src/service.rs: when switching answers with an error, and that it succeeds otherwise.
use hypr_taskspace.Prelude.{
  ◌++◌, true, false, Option, some, ◌≡◌, refl, arith, Option-cases, inl, inr,
}
use hypr_taskspace.Prelude.Text.{Text, codes}
use hypr_taskspace.Prelude.Dict.{get, contains_key, get-insert_self}
use hypr_taskspace.Models.{taskspace_key, Task, task, active}
use hypr_taskspace.Config.{TskConfig}
use hypr_taskspace.Host.{System, StateChangeKind, asked, taskspace}
use hypr_taskspace.Nav.Switch.{set_taskspace}
use hypr_taskspace.Nav.Switch.Laws.{set_taskspace-task}
use hypr_taskspace.Service.{
  Daemon, done, error, with_config, with_state, commit_state, finish_commit, write_runtime_files,
}
use hypr_taskspace.Service.Tasks.{
  unknown_task, put_task, default_slot, with_task, finish_switch, enter_switched, switch_live,
  switch_task,
}
use hypr_taskspace.Valid.{is_live, entry-keyed}
use hypr_taskspace.Valid.Daemon.{IsSafe}

-- The database and the runtime directory do what they are asked.
pub record Responds (h : System) : Type 0 where
  pub loads : (w : h.World) → (h.can_load w).0 ≡ true
  pub saves : (w : h.World) → (h.can_save w).0 ≡ true
  pub writes : (key : Text) (w : h.World) → (h.write_context key w).0 ≡ true

module _ (h : System) (config : TskConfig) where
  open h use {World}

  -- If the database can be read and the task is not a live one of it, a switch answers with a
  -- message, stores nothing and asks the compositor for nothing.
  pub switch_task-refused :
      (id : Text) (d : Daemon World)
      → (h.can_load d.env.world).0 ≡ true
      → is_live d.stored.tasks id ≡ false
      → ((e : Text) × ((switch_task h config id d).0 ≡ error e))
        × ((switch_task h config id d).1.stored ≡ d.stored)
        × ((switch_task h config id d).1.env.world ≡ (h.can_load d.env.world).1)
  unfolding switch_task with_task with_state with_config is_live
  switch_task-refused id d loads gone = elim (Option-cases (get d.stored.tasks id)) [
    | inl unknown ↦ ((unknown_task id, ground arith), ground arith, ground arith)
    | inr (t, found) ↦
        ((codes "Task is archived: " ++ id, ground arith), ground arith, ground arith)
  ]

  pub commit_state-answers :
      Responds h
      → {A : Type 0} (change : Option StateChangeKind) (result : A) (d : Daemon World)
      → (commit_state h config change result d).0 ≡ done result
  unfolding commit_state finish_commit write_runtime_files
  commit_state-answers works change result d =
      let key = taskspace_key d.env.session in
      let saves = works.saves d.env.world in
      let writes = works.writes key (h.can_save d.env.world).1 in rw saves (rw writes refl)

  enter_switched-answers :
      Responds h
      → (id : Text) (t : Task) (d : Daemon World) → contains_key d.env.session.tasks id ≡ true
      → (enter_switched h config id t d).0 ≡ done t
  unfolding enter_switched finish_switch
  enter_switched-answers works id t d known =
      let s1 = (set_taskspace h task (some id) d.env).1 in
      let d1 : Daemon World = record d {
        env = record s1 { session = default_slot id s1.session };
      } in
      ground (
        arith,
        set_taskspace-task h id d.env known,
        commit_state-answers works (some taskspace) t d1,
      )

  -- If the database and the runtime directory work, a switch to a live task of a valid session
  -- succeeds, whatever the compositor answers.
  pub switch_task-succeeds :
      (works : Responds h) (id : Text) (d : Daemon World)
      → IsSafe d
      → is_live d.stored.tasks id ≡ true
      → (u : Task) × ((switch_task h config id d).0 ≡ done u)
  unfolding switch_task switch_live with_task with_state with_config is_live contains_key
  switch_task-succeeds works id d safe live = elim (Option-cases (get d.stored.tasks id)) [
    | inl unknown ↦ ground arith
    | inr (t, found) ↦
        let s1 = asked h.can_load d.env in
        let s2 = asked h.now s1 in
        let opened = record t { status = active; last_active_at = (h.now s1.world).0 } in
        let state = put_task opened (with_config config d.stored) in
        let d2 : Daemon World = record { env = record s2 { session = state }; stored = d.stored } in
        let same = entry-keyed d.stored id t safe.0 found in
        let entry : get state.tasks id ≡ some opened =
          ground (arith, get-insert_self d.stored.tasks t.id opened) in
        let known : contains_key state.tasks id ≡ true = ground arith in
        (
          opened,
          ground (arith, works.loads d.env.world, enter_switched-answers works id opened d2 known),
        )
  ]
