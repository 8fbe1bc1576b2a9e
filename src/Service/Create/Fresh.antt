-- ===== src/Service/Create/Fresh.antt =====
-- crates/tsk-core/src/registry.rs: the id of a new task is a new one.
use hypr_taskspace.Prelude.{ℕ, zero, suc, true, false, ◌≡◌, arith, ◌⊎◌, inl, inr, Bool-cases}
use hypr_taskspace.Prelude.Dict.{contains_key}
use hypr_taskspace.Host.{System, Env}
use hypr_taskspace.Service.Create.{generate_task_id, unique_id_in, unique_task_id}

module _ (h : System) where
  open h use {World}

  -- Each of the ids that are drawn in a number of rounds is the id of a task already.
  abbrev pub AllTaken : ℕ → Env World → Type 0
  AllTaken zero s = Unit {0}
  AllTaken (suc rounds) s =
      (contains_key s.session.tasks (generate_task_id h s).0 ≡ true)
      × AllTaken rounds (generate_task_id h s).1

  unique_id_in-fresh :
      (rounds : ℕ) (s : Env World)
      → (contains_key s.session.tasks (unique_id_in h rounds s).0 ≡ false) ⊎ AllTaken rounds s
  unfolding unique_id_in generate_task_id
  unique_id_in-fresh zero s = inr tt
  unique_id_in-fresh (suc rounds) s =
      let (candidate, s1) = generate_task_id h s in
      elim (Bool-cases (contains_key s.session.tasks candidate)) [
        | inr free ↦ inl (ground arith)
        | inl taken ↦ elim (unique_id_in-fresh rounds s1) [
          | inl fresh ↦ inl (ground arith)
          | inr all ↦ inr (taken, all)
        ]
      ]

  -- The id of a new task is that of no task of the session, unless all of 256 drawn ids are taken.
  pub unique_task_id-fresh :
      (s : Env World)
      → (contains_key s.session.tasks (unique_task_id h s).0 ≡ false) ⊎ AllTaken 256 s
  unfolding unique_task_id
  unique_task_id-fresh s = unique_id_in-fresh 256 s
