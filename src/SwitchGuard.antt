-- ===== src/SwitchGuard.antt =====
-- crates/tsk-core/src/taskspace_switch_guard.rs: for two seconds after an intentional switch, focus
-- events of the taskspace that was left are no switch back.
use hypr_taskspace.Prelude.{
  ◌≡◌, arith, ℕ, ◌-◌, ◌*◌, Bool, false, not, Option, none, some, List, if◌then◌else◌, ltb, contains,
}
use hypr_taskspace.Prelude.Text.{Text, Text_eq, text_eq}
use hypr_taskspace.Models.{taskspace_key}
use hypr_taskspace.Host.{Env, System, M, ◌>>=◌, pure, RecentSwitch, ask, get_session}

-- Two seconds, in nanoseconds; both statics use it.
abbrev pub guard_ttl : ℕ
guard_ttl = 2 * 1_000_000_000

-- The tests of `should_ignore_external_revert` behind the reading of the clock.
unfoldable pub ignores : RecentSwitch → ℕ → Text → Text → Bool
ignores recent now key workspace_name =
    if ltb guard_ttl (now - recent.at)
    then false
    else if not (text_eq key recent.dest_key)
    then false
    else contains recent.old_allowed workspace_name

module _ (h : System) where
  open h use {World, now}

  abbrev pub get_recent : M World (Option RecentSwitch)
  get_recent s = (s.recent, s)

  -- `record(dest_key, old_allowed)`
  unfoldable pub record_switch : Text → List Text → M World (Unit {0})
  record_switch dest_key old_allowed s =
      let (at, w) = now s.world in
      (
        tt,
        record s {
          world = w;
          recent = some (record { dest_key = dest_key; old_allowed = old_allowed; at = at });
        },
      )

  unfoldable pub should_ignore_from : Option RecentSwitch → Text → M World Bool
  should_ignore_from none workspace_name = pure false
  should_ignore_from (some recent) workspace_name = do
    at ← ask now
    state ← get_session
    pure (ignores recent at (taskspace_key state) workspace_name)

  unfoldable pub should_ignore_external_revert : Text → M World Bool
  unfolding should_ignore_from
  should_ignore_external_revert workspace_name = do
    recent ← get_recent
    should_ignore_from recent workspace_name

  pub echo-session :
      (name : Text) (s : Env World) → (should_ignore_external_revert name s).1.session ≡ s.session
  unfolding should_ignore_external_revert should_ignore_from
  echo-session name s = ground arith
