-- ===== src/Valid/Rules.antt =====
-- Steps on the session at hand that keep it valid, and the rules with which `search` goes through an
-- operation of the daemon.
use hypr_taskspace.Prelude.{ℕ, Bool, List, [], ◌∷◌, Option, none, some, ◌≡◌, refl, arith}
use hypr_taskspace.Prelude.Int.{ℤ}
use hypr_taskspace.Prelude.Text.{Text}
use hypr_taskspace.Models.{SessionState, default}
use hypr_taskspace.Config.{TskConfig}
use hypr_taskspace.Host.{System, Env, M, ◌>>=◌, pure, get_session, modify, ask, act, skip}
use hypr_taskspace.ContextSync.{sync_from_workspace_name, taskspace_would_change}
use hypr_taskspace.ContextSync.Context.{would_change-session}
use hypr_taskspace.Nav.Layout.{clear_navigation_memory}
use hypr_taskspace.Nav.Refresh.{refresh_monitor_slots, refresh-frame}
use hypr_taskspace.Nav.Go
use hypr_taskspace.Nav.Hotplug.{reconcile_monitor_topology, should_treat_as_monitor_hotplug}
use hypr_taskspace.Nav.Hotplug.Laws.{hotplug-session, reconcile-SameButLayout}
use hypr_taskspace.Nav.Switch.{
  Outcome, ok, err, setup_default_taskspace_workspaces, set_taskspace, sync_taskspace_from_external,
}
use hypr_taskspace.SwitchGuard.{echo-session, should_ignore_external_revert}
use hypr_taskspace.Slots.{read_slot_target, move_slot}
use hypr_taskspace.Workspaces.{count_from}
use hypr_taskspace.WindowRegistry
use hypr_taskspace.Service.{D, lift, with_config, put_stored, take_stored, on_option, on_outcome}
use hypr_taskspace.Valid.{IsValid, is_valid, is_valid-SameButLayout}
use hypr_taskspace.Valid.Sync.{sync-IsValid}
use hypr_taskspace.Valid.Nav.{
  sync_workspace_slot-IsValid, workspace_go-IsValid, workspace_goto_name-IsValid, leave-IsValid,
  sync_external-IsValid,
}
use hypr_taskspace.Valid.Windows.{sync_window_registry-is_valid, restore_windows-is_valid}
use hypr_taskspace.Valid.Daemon.{
  KeepsSafe, KeepsValid, pure-KeepsSafe, lift-KeepsSafe, if-KeepsSafe, bind-KeepsSafe,
  and_then-KeepsSafe, seq-KeepsSafe, with_state-KeepsSafe, commit_state-KeepsSafe,
}

module _ {W A : Type 0} where
  pub same-KeepsValid :
      (m : M W A) → ((s : Env W) → is_valid (m s).1.session ≡ is_valid s.session) → KeepsValid m
  same-KeepsValid m same = record { at = λ s valid. ground (arith, same s) }

  pub ask-KeepsValid : (query : W → A × W) → KeepsValid (ask query)
  ask-KeepsValid query = record { at = λ s valid. valid }

  pub pure-KeepsValid : (a : A) → KeepsValid {W = W} (pure a)
  pure-KeepsValid a = record { at = λ s valid. valid }

module _ {W : Type 0} where
  pub get-KeepsValid : KeepsValid {W = W} get_session
  get-KeepsValid = record { at = λ s valid. valid }

  pub act-KeepsValid : (change : W → W) → KeepsValid (act change)
  act-KeepsValid change = record { at = λ s valid. valid }

  pub skip-KeepsValid : KeepsValid {W = W} skip
  skip-KeepsValid = record { at = λ s valid. valid }

  pub skip-KeepsSafe : KeepsSafe {W = W} skip
  skip-KeepsSafe = record { at = λ d safe. safe }

  pub modify-KeepsValid :
      (f : SessionState → SessionState)
      → ((state : SessionState) → IsValid state → IsValid (f state))
      → KeepsValid {W = W} (modify f)
  modify-KeepsValid f k = record { at = λ s valid. k s.session valid }

pub with_config-IsValid :
    (config : TskConfig) (state : SessionState) → IsValid state → IsValid (with_config config state)
unfolding with_config is_valid
with_config-IsValid config state valid = valid

-- What follows may use that the session it read is valid.
pub bind_get-KeepsSafe :
    {W B : Type 0} (f : SessionState → D W B)
    → ((state : SessionState) → IsValid state → KeepsSafe (f state))
    → KeepsSafe (lift get_session >>= f)
bind_get-KeepsSafe f k = record { at = λ d safe. (k d.env.session safe.1).at d safe }

pub put_stored-KeepsSafe : {W : Type 0} → KeepsSafe {W = W} put_stored
put_stored-KeepsSafe = record { at = λ d safe. (safe.1, safe.1) }

pub take_stored-KeepsSafe :
    {W : Type 0} (config : TskConfig) → KeepsSafe {W = W} (take_stored config)
take_stored-KeepsSafe config = record {
  at = λ d safe. (safe.0, with_config-IsValid config d.stored safe.0);
}

pub option-KeepsSafe :
    {W A B : Type 0} (o : Option A) (m : D W B) (f : A → D W B)
    → KeepsSafe m
    → ((a : A) → o ≡ some a → KeepsSafe (f a))
    → KeepsSafe (on_option o m f)
option-KeepsSafe none m f km kf = km
option-KeepsSafe (some a) m f km kf = kf a refl

pub outcome-KeepsSafe :
    {W B : Type 0} (o : Outcome) (m : D W B) (f : Text → D W B)
    → KeepsSafe m
    → ((e : Text) → KeepsSafe (f e))
    → KeepsSafe (on_outcome o m f)
outcome-KeepsSafe ok m f km kf = km
outcome-KeepsSafe (err e) m f km kf = kf e

pub clear-IsValid : (state : SessionState) → IsValid state → IsValid (clear_navigation_memory state)
unfolding clear_navigation_memory is_valid
clear-IsValid state valid = valid

module _ (h : System) where
  open h use {World}

  pub sync-KeepsValid : (name : Text) → KeepsValid (sync_from_workspace_name h name)
  sync-KeepsValid name = record { at = sync-IsValid h name }

  pub slot-KeepsValid : (relative : ℤ) → KeepsValid (Go.sync_workspace_slot h relative)
  slot-KeepsValid relative = record { at = sync_workspace_slot-IsValid h relative }

  pub go-KeepsValid : (relative : ℤ) → KeepsValid (Go.workspace_go h relative)
  go-KeepsValid relative = record { at = workspace_go-IsValid h relative }

  pub goto-KeepsValid : (name : Text) → KeepsValid (Go.workspace_goto_name h name)
  goto-KeepsValid name = record { at = workspace_goto_name-IsValid h name }

  pub next-KeepsValid : KeepsValid (Go.workspace_next_relative h)
  unfolding Go.workspace_next_relative Go.active_relative
  next-KeepsValid = record { at = λ s valid. ground arith }

  pub prev-KeepsValid : KeepsValid (Go.workspace_prev_relative h)
  unfolding Go.workspace_prev_relative Go.active_relative
  prev-KeepsValid = record { at = λ s valid. ground arith }

  pub move_window-KeepsValid : (relative : ℤ) → KeepsValid (Go.move_window_to_relative h relative)
  unfolding Go.move_window_to_relative
  move_window-KeepsValid relative = record { at = λ s valid. ground arith }

  pub refresh-KeepsValid : KeepsValid (refresh_monitor_slots h)
  unfolding is_valid
  refresh-KeepsValid = record { at = λ s valid. ground (arith, refresh-frame h s) }

  pub reconcile-KeepsValid : KeepsValid (reconcile_monitor_topology h)
  reconcile-KeepsValid = record {
    at = λ s valid. ground (arith, is_valid-SameButLayout (reconcile-SameButLayout h s));
  }

  pub leave-KeepsValid : KeepsValid (set_taskspace h default none)
  leave-KeepsValid = record { at = leave-IsValid h }

  pub external-KeepsValid :
      (name : Text) (allowed : List Text) (key : Text)
      → KeepsValid (sync_taskspace_from_external h name allowed key)
  external-KeepsValid name allowed key = record { at = sync_external-IsValid h name allowed key }

  pub would_change-KeepsValid : (name : Text) → KeepsValid (taskspace_would_change h name)
  would_change-KeepsValid name = record {
    at = λ s valid. ground (arith, would_change-session h name s);
  }

  pub hotplug-KeepsValid : (name : Text) → KeepsValid (should_treat_as_monitor_hotplug h name)
  hotplug-KeepsValid name = record { at = λ s valid. ground (arith, hotplug-session h name s) }

  pub echo-KeepsValid : (name : Text) → KeepsValid (should_ignore_external_revert h name)
  echo-KeepsValid name = record { at = λ s valid. ground (arith, echo-session h name s) }

  remove_slots-KeepsValid : (slots : List ℕ) → KeepsValid (Go.remove_slots h slots)
  unfolding Go.remove_slots
  remove_slots-KeepsValid [] = skip-KeepsValid
  remove_slots-KeepsValid (slot ∷ slots) = record {
    at = λ s valid. (remove_slots-KeepsValid slots).at _ valid;
  }

  pub clear_slots-KeepsValid : KeepsValid (Go.clear_runtime_slot_cache h)
  unfolding Go.clear_runtime_slot_cache
  clear_slots-KeepsValid = remove_slots-KeepsValid (count_from 1 10)

  pub setup-KeepsValid : (count : ℕ) → KeepsValid (setup_default_taskspace_workspaces h count)
  unfolding setup_default_taskspace_workspaces
  setup-KeepsValid count = record { at = λ s valid. ground arith }

  pub read_slot-KeepsValid : (relative : ℤ) → KeepsValid (read_slot_target h relative)
  unfolding read_slot_target
  read_slot-KeepsValid relative = record { at = λ s valid. ground arith }

  pub move_slot-KeepsValid : (relative : ℤ) → KeepsValid (move_slot h relative)
  unfolding move_slot read_slot_target
  move_slot-KeepsValid relative = record { at = λ s valid. ground arith }

  pub sync_windows-KeepsValid : KeepsValid (WindowRegistry.sync_window_registry h)
  sync_windows-KeepsValid = same-KeepsValid _ (sync_window_registry-is_valid h)

  pub restore_windows-KeepsValid :
      (dry_run : Bool) → KeepsValid (WindowRegistry.restore_windows h dry_run)
  restore_windows-KeepsValid dry_run = same-KeepsValid _ (restore_windows-is_valid h dry_run)

pub ruleset valid_rules = (
  ask-KeepsValid, pure-KeepsValid, get-KeepsValid, act-KeepsValid, skip-KeepsValid,
  modify-KeepsValid, with_config-IsValid, clear-IsValid, sync-KeepsValid, slot-KeepsValid,
  go-KeepsValid, goto-KeepsValid, next-KeepsValid, prev-KeepsValid, move_window-KeepsValid,
  refresh-KeepsValid, reconcile-KeepsValid, leave-KeepsValid, external-KeepsValid,
  would_change-KeepsValid, hotplug-KeepsValid, echo-KeepsValid, clear_slots-KeepsValid,
  setup-KeepsValid, read_slot-KeepsValid, move_slot-KeepsValid, sync_windows-KeepsValid,
  restore_windows-KeepsValid,
)

pub ruleset safe_rules = (
  valid_rules, pure-KeepsSafe, skip-KeepsSafe, lift-KeepsSafe, if-KeepsSafe, bind-KeepsSafe,
  seq-KeepsSafe, and_then-KeepsSafe, option-KeepsSafe, outcome-KeepsSafe, with_state-KeepsSafe,
  commit_state-KeepsSafe,
)
