-- ===== src/Valid/Daemon.antt =====
-- Operations of the daemon (crates/tsk-core/src/service.rs) that keep the session at hand and the
-- stored one valid, with a rule for each way to build an operation.
use hypr_taskspace.Prelude.{Bool, true, false, Option, ◌≡◌, refl, arith, if◌then◌else◌}
use hypr_taskspace.Models.{SessionState}
use hypr_taskspace.Config.{TskConfig}
use hypr_taskspace.Host.{System, Env, StateChangeKind, M, ◌>>=◌, ◌>>◌, pure, asked}
use hypr_taskspace.Service.{
  Result, done, error, failed, Daemon, D, lift, with_config, and_then, with_state, commit_state,
  finish_commit,
}
use hypr_taskspace.Service.External.{commit_state-session}
use hypr_taskspace.Valid.{IsValid, is_valid}

abbrev pub IsSafe : {W : Type 0} → Daemon W → Type 0
IsSafe d = IsValid d.stored × IsValid d.env.session

-- The operation leads from safe daemons to safe ones, whether or not it fails.
pub record KeepsSafe {W A : Type 0} (m : D W A) : Type 0 where
  pub at : (d : Daemon W) → IsSafe d → IsSafe (m d).1

-- A step on the session at hand leads from valid sessions to valid ones.
pub record KeepsValid {W A : Type 0} (m : M W A) : Type 0 where
  pub at : (s : Env W) → IsValid s.session → IsValid (m s).1.session

module _ {W A : Type 0} where
  pub pure-KeepsSafe : (a : A) → KeepsSafe {W = W} (pure a)
  pure-KeepsSafe a = record { at = λ d h. h }

  pub lift-KeepsSafe : (m : M W A) → KeepsValid m → KeepsSafe (lift m)
  lift-KeepsSafe m k = record { at = λ d h. (h.0, k.at d.env h.1) }

  pub if-KeepsSafe :
      (b : Bool) (m n : D W A) → KeepsSafe m → KeepsSafe n → KeepsSafe (if b then m else n)
  if-KeepsSafe true m n km kn = km
  if-KeepsSafe false m n km kn = kn

module _ {W B : Type 0} where
  pub seq-KeepsSafe :
      (m : D W (Unit {0})) (n : D W B) → KeepsSafe m → KeepsSafe n → KeepsSafe (m >> n)
  seq-KeepsSafe m n km kn = record { at = λ d h. kn.at (m d).1 (km.at d h) }

module _ {W A B : Type 0} where
  pub bind-KeepsSafe :
      (m : D W A) (f : A → D W B) → KeepsSafe m → ((a : A) → KeepsSafe (f a)) → KeepsSafe (m >>= f)
  bind-KeepsSafe m f km kf = record { at = λ d h. (kf (m d).0).at (m d).1 (km.at d h) }

  pub and_then-KeepsSafe :
      (r : Result A) (f : A → D W (Result B))
      → ((a : A) → KeepsSafe (f a))
      → KeepsSafe (and_then r f)
  and_then-KeepsSafe (done a) f kf = kf a
  and_then-KeepsSafe (error e) f kf = pure-KeepsSafe (error e)
  and_then-KeepsSafe failed f kf = pure-KeepsSafe failed

with_config-is_valid :
    (config : TskConfig) (state : SessionState)
    → is_valid (with_config config state) ≡ is_valid state
unfolding with_config is_valid
with_config-is_valid config state = refl

module _ (h : System) (config : TskConfig) where
  open h use {World}

  pub with_state-KeepsSafe :
      {A : Type 0} (op : D World (Result A)) → KeepsSafe op → KeepsSafe (with_state h config op)
  unfolding with_state
  with_state-KeepsSafe op k = record {
    at = λ d safe.
        let d1 : Daemon World = record {
          env = record (asked h.can_load d.env) { session = with_config config d.stored };
          stored = d.stored;
        } in
        ground (arith, with_config-is_valid config d.stored, k.at d1);
  }

  pub commit_state-KeepsSafe :
      {A : Type 0} (change : Option StateChangeKind) (result : A)
      → KeepsSafe (commit_state h config change result)
  unfolding commit_state finish_commit
  commit_state-KeepsSafe change result = record {
    at = λ d safe. ground (arith, commit_state-session h config change result d);
  }
