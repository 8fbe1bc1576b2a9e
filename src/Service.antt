-- ===== src/Service.antt =====
-- crates/tsk-core/src/service.rs: the operations of the daemon that change the taskspace, with what
-- they store and announce.
pub mod External
pub mod Workspaces
pub mod Keys
pub mod Tasks
pub mod Queries
pub mod Create
pub mod Reboot
pub mod Steps
pub mod Archiving
pub mod Switching
pub mod Answers
use hypr_taskspace.Prelude.{
  ℕ, Bool, true, false, not, ◌&&◌, Option, none, some, List, [], ◌∷◌, if◌then◌else◌,
}
use hypr_taskspace.Prelude.Int.{ℤ}
use hypr_taskspace.Prelude.Text.{Text, codes, is_empty, text_eq}
use hypr_taskspace.Models.{ContextMode, SessionState, default, task, taskspace_key}
use hypr_taskspace.Workspaces.{allowed_workspace_names, is_managed_workspace_name}
use hypr_taskspace.Config.{TskConfig}
use hypr_taskspace.Host.{
  System, StateChangeKind, workspace, taskspace, Env, State, M, ◌>>=◌, ◌>>◌, pure, get_session,
  modify, ask, act, skip,
}
use hypr_taskspace.Nav.Go.{workspace_go}
use hypr_taskspace.Nav.Hotplug.{should_treat_as_monitor_hotplug, reconcile_monitor_topology}
use hypr_taskspace.Nav.Switch.{Outcome, ok, err, set_taskspace, sync_taskspace_from_external}
use hypr_taskspace.ContextSync.{sync_from_workspace_name, taskspace_would_change}
use hypr_taskspace.SwitchGuard.{should_ignore_external_revert}
use hypr_taskspace.Slots.{write_slot_cache}

pub data Result (A : Type 0) : Type 0 where
  done : A → Result A
  -- `TskError::Other`
  error : Text → Result A
  -- an error of the database or of a process
  failed : Result A

-- The session that the operation at hand works on, the world, and the session in the database.
pub record Daemon (W : Type 0) : Type 0 where
  pub env : Env W
  pub stored : SessionState

abbrev pub D : Type 0 → Type 0 → Type 0
D W = State (Daemon W)

-- An operation on the session at hand leaves the database alone.
abbrev pub lift : {W A : Type 0} → M W A → D W A
lift m d = ((m d.env).0, record d { env = (m d.env).1 })

-- `?`: an error ends the operation.
abbrev pub and_then : {W A B : Type 0} → Result A → (A → D W (Result B)) → D W (Result B)
and_then (done a) k = k a
and_then (error e) k = pure (error e)
and_then failed k = pure failed

-- A branch on an answer.
abbrev pub on_option : {A B : Type 0} → Option A → B → (A → B) → B
on_option none m f = m
on_option (some a) m f = f a

abbrev pub on_outcome : {B : Type 0} → Outcome → B → (Text → B) → B
on_outcome ok m f = m
on_outcome (err e) m f = f e

-- The stored session, with the slots of the settings.
unfoldable pub with_config : TskConfig → SessionState → SessionState
with_config config state = record state {
  default_workspace_count = config.default_workspace_count;
  global_workspace_slots = config.global_workspace_slots;
}

abbrev pub take_stored : {W : Type 0} → TskConfig → D W (Unit {0})
take_stored config d =
    (tt, record d { env = record d.env { session = with_config config d.stored } })

abbrev pub put_stored : {W : Type 0} → D W (Unit {0})
put_stored d = (tt, record d { stored = d.env.session })

module _ (h : System) (config : TskConfig) where
  open h use {World, active_workspace, write_context, can_load, can_save, publish}

  -- `let mut state = self.load_state()?;` with the rest of the operation
  unfoldable pub with_state : {A : Type 0} → D World (Result A) → D World (Result A)
  with_state op = do
    loads ← lift (ask can_load)
    if loads then take_stored config >> op else pure failed

  unfoldable pub write_runtime_files : M World Bool
  write_runtime_files = do
    state ← get_session
    written ← ask (write_context (taskspace_key state))
    if written then write_slot_cache h >> pure true else pure false

  unfoldable pub announce : Option StateChangeKind → M World (Unit {0})
  announce none = skip
  announce (some kind) = act (publish kind)

  -- What follows the transaction.
  unfoldable pub finish_commit : {A : Type 0} → Option StateChangeKind → A → D World (Result A)
  finish_commit change result = do
    put_stored
    written ← lift write_runtime_files
    if written then lift (announce change) >> pure (done result) else pure failed

  -- `commit_state`, and the answer that the caller gives if it succeeds. With no kind of change this
  -- is `persist_workspace_switch` too.
  unfoldable pub commit_state : {A : Type 0} → Option StateChangeKind → A → D World (Result A)
  commit_state change result = do
    saved ← lift (ask can_save)
    if saved then finish_commit change result else pure failed

  -- The focus event came too late: another workspace is active by now.
  unfoldable pub is_stale : Text → Option (Option Text) → Bool
  is_stale workspace_name none = false
  is_stale workspace_name (some none) = false
  is_stale workspace_name (some (some active)) =
      not (is_empty active) && not (text_eq active workspace_name)

  unfoldable pub follow_external : Text → D World (Result Bool)
  follow_external workspace_name = do
    state ← lift get_session
    let old_allowed = allowed_workspace_names state
    let key = taskspace_key state
    synced ← lift (sync_taskspace_from_external h workspace_name old_allowed key)
    on_outcome synced (commit_state (some taskspace) true) (λ e. pure (error e))

  -- The event would change the taskspace: a side effect of a new monitor, an echo of the last switch,
  -- or a change that the user made.
  unfoldable pub cross_taskspace : Text → D World (Result Bool)
  cross_taskspace workspace_name = do
    hotplug ← lift (should_treat_as_monitor_hotplug h workspace_name)
    let adopt : D World (Result Bool) = (do
      lift (reconcile_monitor_topology h)
      commit_state (some workspace) true)
    let switch : D World (Result Bool) = (do
      echo ← lift (should_ignore_external_revert h workspace_name)
      if echo then pure (done false) else follow_external workspace_name)
    if hotplug then adopt else switch

  unfoldable pub stay_in_taskspace : Text → D World (Result Bool)
  stay_in_taskspace workspace_name = do
    changed ← lift (sync_from_workspace_name h workspace_name)
    if changed then commit_state none true else pure (done false)

  unfoldable pub apply_fresh : Text → D World (Result Bool)
  apply_fresh workspace_name = do
    crosses ← lift (taskspace_would_change h workspace_name)
    if crosses then cross_taskspace workspace_name else stay_in_taskspace workspace_name

  unfoldable pub apply_managed : Text → D World (Result Bool)
  apply_managed workspace_name = do
    active ← lift (ask active_workspace)
    if is_stale workspace_name active then pure (done false) else apply_fresh workspace_name

  unfoldable pub apply_external_workspace : Text → D World (Result Bool)
  apply_external_workspace workspace_name = do
    state ← lift get_session
    let managed = is_managed_workspace_name state workspace_name
    if config.hyprland_enabled && managed then apply_managed workspace_name else pure (done false)

  unfoldable pub sync_external_workspace : Text → D World (Result Bool)
  sync_external_workspace workspace_name = with_state (apply_external_workspace workspace_name)
