-- ===== src/Service/Keys.antt =====
-- crates/tsk-core/src/service.rs: what the key bindings for workspaces and windows call.
use hypr_taskspace.Prelude.{ℕ, Bool, false, Option, none, some, if◌then◌else◌, contains}
use hypr_taskspace.Prelude.Int.{ℤ, pos}
use hypr_taskspace.Prelude.Text.{Text, Text_eq, text_eq}
use hypr_taskspace.Models.{SessionState, taskspace_key}
use hypr_taskspace.Workspaces.{allowed_workspace_names}
use hypr_taskspace.Config.{TskConfig}
use hypr_taskspace.Host.{System, full, ◌>>=◌, ◌>>◌, pure, get_session, modify, ask, act, skip}
use hypr_taskspace.ContextSync.{is_some, sync_from_workspace_name}
use hypr_taskspace.Nav.Slots.{workspace_name_for_relative}
use hypr_taskspace.Nav.Go
use hypr_taskspace.Slots.{read_slot_target, move_slot}
use hypr_taskspace.WindowRegistry.{RestoreReport}
use hypr_taskspace.WindowRegistry
use hypr_taskspace.Service.{
  on_option, Result, done, failed, D, lift, put_stored, take_stored, with_state, commit_state,
}

module _ (h : System) (config : TskConfig) where
  open h use {World, can_load, can_save, switch_workspace}

  -- The switch is stored if there was one.
  unfoldable pub store_switch : Option Text → D World (Result (Option Text))
  store_switch none = pure (done none)
  store_switch (some name) = commit_state h config none (some name)

  unfoldable pub workspace_go : ℤ → D World (Result (Option Text))
  unfolding store_switch
  workspace_go relative =
      with_state h config (do name ← lift (Go.workspace_go h relative); store_switch name)

  -- `load_state().ok()` with the name of the slot
  unfoldable pub stored_target : ℤ → D World (Option Text)
  stored_target relative = do
    loads ← lift (ask can_load)
    let name : D World (Option Text) = (do
      take_stored config
      state ← lift get_session
      pure (workspace_name_for_relative state relative))
    if loads then name else pure none

  -- The slot file, or else the stored session.
  unfoldable pub dispatch_target : ℤ → D World (Option Text)
  unfolding stored_target
  dispatch_target relative = do
    cached ← lift (read_slot_target h relative)
    on_option cached (stored_target relative) (λ name. pure (some name))

  unfoldable pub workspace_dispatch : ℤ → D World (Result (Option Text))
  unfolding dispatch_target
  workspace_dispatch relative = do
    target ← dispatch_target relative
    on_option target skip (λ name. lift (act (switch_workspace name)))
    pure (done target)

  -- The session is loaded again before it is stored. If its taskspace is another one by then, the
  -- change is made once more on that session, else the changed session is stored.
  unfoldable pub save_slot : ℤ → Text → SessionState → Text → D World (Result (Option Text))
  save_slot relative initial_key worked name = with_state h config (do
    fresh ← lift get_session
    let redo : D World (Result (Option Text)) = (do
      again ← lift (Go.sync_workspace_slot h relative)
      state ← lift get_session
      commit_state h config none (workspace_name_for_relative state relative))
    let keep : D World (Result (Option Text)) = (do
      lift (modify (λ _. worked))
      commit_state h config none (some name))
    if text_eq (taskspace_key fresh) initial_key then keep else redo)

  unfoldable pub remember_slot_from : ℤ → Text → D World (Result (Option Text))
  unfolding save_slot
  remember_slot_from relative initial_key = do
    synced ← lift (Go.sync_workspace_slot h relative)
    worked ← lift get_session
    on_option synced (pure (done none)) (λ name. save_slot relative initial_key worked name)

  unfoldable pub remember_workspace_go : ℤ → D World (Result (Option Text))
  unfolding remember_slot_from
  remember_workspace_go relative = with_state h config (do
    initial ← lift get_session
    with_state h config (remember_slot_from relative (taskspace_key initial)))

  unfoldable pub save_name : Text → Text → SessionState → D World (Result (Option Text))
  save_name name initial_key worked = with_state h config (do
    fresh ← lift get_session
    if text_eq (taskspace_key fresh) initial_key
        then lift (modify (λ _. worked))
        else (do changed ← lift (sync_from_workspace_name h name); skip)
    commit_state h config none (some name))

  unfoldable pub remember_name_from : Text → Text → D World (Result (Option Text))
  unfolding save_name
  remember_name_from name initial_key = do
    state ← lift get_session
    let remember : D World (Result (Option Text)) = (do
      changed ← lift (sync_from_workspace_name h name)
      worked ← lift get_session
      save_name name initial_key worked)
    if contains (allowed_workspace_names state) name then remember else pure (done none)

  unfoldable pub remember_workspace_goto : Text → D World (Result (Option Text))
  unfolding remember_name_from
  remember_workspace_goto name = with_state h config (do
    initial ← lift get_session
    with_state h config (remember_name_from name (taskspace_key initial)))

  unfoldable pub workspace_move_dispatch : ℤ → D World (Result (Option Text))
  workspace_move_dispatch relative = do
    moved ← lift (move_slot h relative)
    let load : D World (Result (Option Text)) =
        with_state h config
          (do name ← lift (Go.move_window_to_relative h relative); pure (done name))
    on_option moved load (λ name. pure (done (some name)))

  -- Going to the slot that was found, with a session that is loaded again.
  unfoldable pub go_found : Option ℕ → D World (Result (Option Text))
  unfolding workspace_go
  go_found none = pure (done none)
  go_found (some relative) = workspace_go (pos relative)

  unfoldable pub workspace_next : D World (Result (Option Text))
  unfolding go_found
  workspace_next =
      with_state h config (do relative ← lift (Go.workspace_next_relative h); go_found relative)

  unfoldable pub workspace_prev : D World (Result (Option Text))
  unfolding go_found
  workspace_prev =
      with_state h config (do relative ← lift (Go.workspace_prev_relative h); go_found relative)

  unfoldable pub workspace_goto : Text → D World (Result (Option Text))
  unfolding store_switch
  workspace_goto name =
      with_state h config (do result ← lift (Go.workspace_goto_name h name); store_switch result)

  unfoldable pub restore_windows : Bool → D World (Result RestoreReport)
  restore_windows dry_run = with_state h config (do
    restored ← lift (WindowRegistry.restore_windows h dry_run)
    on_option restored (pure failed) (λ report.
        if dry_run then pure (done report) else commit_state h config (some full) report))

  -- Here only the database is written.
  unfoldable pub sync_window_registry : D World (Result ℕ)
  sync_window_registry = with_state h config (do
    synced ← lift (WindowRegistry.sync_window_registry h)
    saved ← (if is_some synced then lift (ask can_save) else pure false)
    on_option synced (pure failed)
        (λ count. if saved then put_stored >> pure (done count) else pure failed))
