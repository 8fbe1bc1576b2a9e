-- ===== src/Service/Create.antt =====
-- crates/tsk-core/src/service.rs: creating a task. Its checkout, files and hook are parameters.
pub mod Fresh
use hypr_taskspace.Prelude.{
  ℕ, zero, suc, ◌+◌, ◌-◌, ◌/◌, ◌%◌, Bool, true, false, not, ◌&&◌, Option, none, some, List, [], ◌∷◌,
  ◌++◌, ltb, leb, if◌then◌else◌, filter, length,
}
use hypr_taskspace.Prelude.Text.{Text, codes, is_empty}
use hypr_taskspace.Prelude.Decimal.{to_string}
use hypr_taskspace.Prelude.Dict.{contains_key, values}
use hypr_taskspace.Models.{SessionState, Task, active, is_archived}
use hypr_taskspace.Config.{TskConfig}
use hypr_taskspace.Host.{
  System, Provisioned, full, M, ◌>>=◌, ◌>>◌, pure, get_session, modify, ask, act, skip,
}
use hypr_taskspace.Service.{
  on_option, on_outcome, Result, done, error, failed, D, lift, and_then, with_state, commit_state,
}
use hypr_taskspace.Service.Tasks.{put_task, switch_task}

-- The byte as two hexadecimal digits.
abbrev hex_digit : ℕ → ℕ
hex_digit n = if ltb n 10 then b'0' + n else b'a' + (n - 10)

abbrev hex_bytes : List ℕ → Text
hex_bytes [] = []
hex_bytes (byte ∷ bytes) = hex_digit (byte / 16) ∷ hex_digit (byte % 16) ∷ hex_bytes bytes

abbrev no_image : Text
no_image =
    codes
      "Distrobox isolation requested, but no image is configured ([distrobox].image is empty). Set a supported Distrobox image for this host (Arch: quay.io/toolbx/arch-toolbox:latest)."

-- What the caller asks for: the repository and the fork are parameters of the model.
pub record NewTask : Type 0 where
  pub name : Text
  pub switch : Bool
  pub container_isolation : Bool
  pub defer_container_create : Bool
  pub handoff_markdown : Option Text

unfoldable pub active_count : SessionState → ℕ
active_count state = length (filter (λ (t : Task). not (is_archived t.status)) (values state.tasks))

module _ (h : System) where
  open h use {World, random_bytes, uuid_like_suffix}

  unfoldable pub generate_task_id : M World Text
  generate_task_id = do bytes ← ask random_bytes; pure (b't' ∷ hex_bytes bytes)

  -- The loop, with the number of rounds left.
  unfoldable pub unique_id_in : ℕ → M World Text
  unfolding generate_task_id
  unique_id_in zero = do suffix ← ask uuid_like_suffix; pure (b't' ∷ suffix)
  unique_id_in (suc rounds) = do
    let more = unique_id_in rounds
    state ← get_session
    candidate ← generate_task_id
    if contains_key state.tasks candidate then more else pure candidate

  unfoldable pub unique_task_id : M World Text
  unfolding unique_id_in
  unique_task_id = unique_id_in 256

module _ (h : System) (config : TskConfig) where
  open h use {World, now, provision, write_handoff, create_container, run_on_create}

  unfoldable pub new_task : NewTask → Text → Provisioned → ℕ → Task
  new_task request task_id made at = record {
    id = task_id;
    name = request.name;
    status = active;
    repo_url = made.repo_url;
    repo_path = made.repo_path;
    source_repo_path = made.source_repo_path;
    branch = made.branch;
    container_name = config.container_prefix ++ codes "-" ++ task_id;
    container_isolation = request.container_isolation;
    workspace_count = config.default_workspace_count;
    browser_profile = some made.browser_profile;
    created_at = at;
    last_active_at = at;
    listed_at = at;
    agent_notes_path = some made.notes_path;
    ports = [];
  }

  unfoldable pub run_hook : NewTask → Task → D World (Result Task)
  run_hook request t = do
    if request.defer_container_create then skip else lift (act (run_on_create t))
    pure (done t)

  -- The task is stored before it is switched to. A deferred container defers switch and hook.
  unfoldable pub insert_task : NewTask → Task → D World (Result Task)
  unfolding run_hook
  insert_task request made = do
    at ← lift (ask now)
    let t = record made { last_active_at = at }
    lift (modify (put_task t))
    stored ← commit_state h config (some full) tt
    and_then stored (λ _.
        if request.switch && not request.defer_container_create
        then (do switched ← switch_task h config t.id; and_then switched (run_hook request))
        else run_hook request t)

  unfoldable pub make_container : NewTask → Task → D World (Result (Unit {0}))
  make_container request t =
      let make : D World (Result (Unit {0})) = (do
        created ← lift (ask (create_container t.container_name))
        if created then pure (done tt) else pure failed) in
      if not request.container_isolation
      then pure (done tt)
      else if is_empty config.distrobox_image
      then pure (error no_image)
      else if request.defer_container_create
      then pure (done tt)
      else make

  unfoldable pub store_handoff : NewTask → Task → D World Bool
  store_handoff request t =
      on_option request.handoff_markdown (pure true)
        (λ markdown. lift (ask (write_handoff t markdown)))

  unfoldable pub finish_task : NewTask → Task → D World (Result Task)
  unfolding insert_task make_container store_handoff
  finish_task request t = do
    written ← store_handoff request t
    made ← (if written then make_container request t else pure failed)
    and_then made (λ _. insert_task request t)

  unfoldable pub make_task : NewTask → D World (Result Task)
  unfolding new_task finish_task
  make_task request = do
    state ← lift get_session
    task_id ← lift (unique_task_id h)
    provisioned ← lift (ask (provision state task_id request.name))
    at ← lift (ask now)
    on_option provisioned (pure failed)
        (λ made. finish_task request (new_task request task_id made at))

  unfoldable pub create_task : NewTask → D World (Result Task)
  unfolding make_task
  create_task request = with_state h config (do
    state ← lift get_session
    if leb config.max_tasks (active_count state)
        then pure (
            error (codes "Maximum task limit (" ++ to_string config.max_tasks ++ codes ") reached"))
        else make_task request)
