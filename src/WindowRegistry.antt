-- ===== src/WindowRegistry.antt =====
-- crates/tsk-core/src/window_registry.rs: the home workspace of every window, and bringing windows
-- back to it.
pub mod Laws
use hypr_taskspace.Prelude.{
  ℕ, zero, suc, ◌+◌, Bool, true, false, not, ◌&&◌, ◌||◌, Option, none, some, List, [], ◌∷◌, ◌++◌,
  map, if◌then◌else◌, contains, filter, find, length,
}
use hypr_taskspace.Prelude.Int.{ℤ, pos, negsuc}
use hypr_taskspace.Prelude.Text.{Text, Text_eq, codes, is_empty, text_eq, starts_with}
use hypr_taskspace.Prelude.Decimal.{to_string}
use hypr_taskspace.Prelude.Dict.{Dict, get, insert, retain, values}
use hypr_taskspace.Models.{SessionState, Task, WindowRecord, is_archived}
use hypr_taskspace.Workspaces.{task_for_workspace_name}
use hypr_taskspace.Host.{
  System, HyprWindow, Env, M, ◌>>=◌, ◌>>◌, pure, get_session, modify, ask, act, skip,
}
use hypr_taskspace.Nav.Slots.{or_else}

pub record RestoreMove : Type 0 where
  pub address : Text
  pub title : Text
  pub from : Text
  pub to : Text

pub record RestoreReport : Type 0 where
  pub synced : ℕ
  pub restored : ℕ
  pub already_home : ℕ
  pub skipped : ℕ
  pub moves : List RestoreMove

-- `i32`'s `Display`
unfoldable pub int_to_string : ℤ → Text
int_to_string (pos n) = to_string n
int_to_string (negsuc n) = b'-' ∷ to_string (suc n)

unfoldable pub client_workspace_name : HyprWindow → Text
client_workspace_name client =
    if not (is_empty client.workspace_name)
    then client.workspace_name
    else int_to_string client.workspace

-- Whether a title starts with the id of a live task in brackets.
unfoldable pub is_titled : Text → Task → Bool
is_titled title t = not (is_archived t.status) && starts_with (b'[' ∷ t.id ++ b']' ∷ []) title

abbrev pub task_id_of : Option Task → Option Text
task_id_of none = none
task_id_of (some t) = some t.id

unfoldable pub infer_task_id : SessionState → Text → Text → Option Text
infer_task_id state workspace_name title =
    or_else (task_id_of (task_for_workspace_name state workspace_name))
      (task_id_of (find (is_titled title) (values state.tasks)))

unfoldable pub is_ephemeral_window : HyprWindow → Bool
is_ephemeral_window client =
    text_eq client.title (codes "tsk tasks") || text_eq client.class_name (codes "org.tsk.task-tui")

-- The record that a new window starts from.
unfoldable pub new_record : HyprWindow → Text → Option Text → WindowRecord
new_record client workspace_name task_id = record {
  hypr_address = client.address;
  task_id = task_id;
  title = [];
  class_name = [];
  workspace = pos 0;
  workspace_name = [];
  home_workspace_name = workspace_name;
  pid = none;
}

-- The record of a window after a look at it: its home and its task stay once they are known.
unfoldable pub updated_record : HyprWindow → Text → Option Text → WindowRecord → WindowRecord
updated_record client workspace_name task_id entry = record {
  hypr_address = entry.hypr_address;
  task_id = or_else entry.task_id task_id;
  title = client.title;
  class_name = client.class_name;
  workspace = client.workspace;
  workspace_name = workspace_name;
  home_workspace_name =
      if is_empty entry.home_workspace_name then workspace_name else entry.home_workspace_name;
  pid = client.pid;
}

-- One round of the loop over the clients.
unfoldable pub sync_client : HyprWindow → SessionState → SessionState
unfolding new_record updated_record
sync_client client state =
    let workspace_name = client_workspace_name client in
    let task_id = infer_task_id state workspace_name client.title in
    let entry : WindowRecord = elim (get state.windows client.address) [
      | none ↦ new_record client workspace_name task_id
      | some entry ↦ entry
    ] in
    let updated = updated_record client workspace_name task_id entry in
    if is_ephemeral_window client
    then state
    else record state { windows = insert state.windows client.address updated }

unfoldable pub sync_clients : List HyprWindow → SessionState → SessionState
sync_clients [] state = state
sync_clients (client ∷ clients) state = sync_clients clients (sync_client client state)

-- Windows that are gone lose their record; the others are looked at one by one.
unfoldable pub sync_windows_from : List HyprWindow → SessionState → SessionState
unfolding sync_clients
sync_windows_from clients state =
    let live = map (λ (c : HyprWindow). c.address) clients in
    sync_clients clients
      (record state { windows = retain (λ address _. contains live address) state.windows })

abbrev pub registered : List HyprWindow → List HyprWindow
registered = filter (λ (c : HyprWindow). not (is_ephemeral_window c))

-- Why a client is not moved, or the move that brings it home.
pub data Placement : Type 0 where
  skip_window home : Placement
  away : RestoreMove → Placement

unfoldable pub placement : SessionState → HyprWindow → Placement
placement state client =
    if is_ephemeral_window client then skip_window else elim (get state.windows client.address) [
      | none ↦ skip_window
      | some entry ↦
          if is_empty entry.home_workspace_name
          then skip_window
          else if text_eq (client_workspace_name client) entry.home_workspace_name
          then home
          else away (record {
            address = client.address;
            title = client.title;
            from = client_workspace_name client;
            to = entry.home_workspace_name;
          })
    ]

-- The home of a window that is elsewhere.
unfoldable pub misplaced_from : SessionState → HyprWindow → Option Text
misplaced_from state client =
    if is_ephemeral_window client then none else elim (get state.windows client.address) [
      | none ↦ none
      | some entry ↦
          if is_empty entry.home_workspace_name
            || text_eq (client_workspace_name client) entry.home_workspace_name
          then none
          else some entry.home_workspace_name
    ]

unfoldable pub misplaced_clients : SessionState → List HyprWindow → List (HyprWindow × Text)
unfolding misplaced_from
misplaced_clients state [] = []
misplaced_clients state (client ∷ clients) =
    let rest = misplaced_clients state clients in
    elim (misplaced_from state client) [ none ↦ rest | some workspace ↦ (client, workspace) ∷ rest ]

abbrev pub count_placement : Placement → RestoreReport → RestoreReport
count_placement skip_window report = record report { skipped = report.skipped + 1 }
count_placement home report = record report { already_home = report.already_home + 1 }
count_placement (away m) report = record report { moves = report.moves ++ m ∷ [] }

-- The loop of `restore_windows` over the clients.
unfoldable pub report_clients : SessionState → List HyprWindow → RestoreReport → RestoreReport
report_clients state [] report = report
report_clients state (client ∷ clients) report =
    report_clients state clients (count_placement (placement state client) report)

abbrev pub empty_report : ℕ → RestoreReport
empty_report synced = record {
  synced = synced;
  restored = 0;
  already_home = 0;
  skipped = 0;
  moves = [];
}

-- A moved window is recorded at its home.
unfoldable pub record_move : RestoreMove → SessionState → SessionState
record_move m state = elim (get state.windows m.address) [
  | none ↦ state
  | some entry ↦ record state {
    windows = insert state.windows m.address (record entry { workspace_name = m.to });
  }
]

module _ (h : System) where
  open h use {World, available, get_clients, move_window_silent}

  -- `sync_window_registry`; `none` is the error of the query
  unfoldable pub sync_window_registry : M World (Option ℕ)
  sync_window_registry = do
    running ← ask available
    let sync : M World (Option ℕ) = (do
      listed ← ask get_clients
      elim listed [
        | none ↦ pure none
        | some clients ↦
            modify (sync_windows_from clients) >> pure (some (length (registered clients)))
      ])
    if running then sync else pure (some 0)

  unfoldable pub apply_moves : List RestoreMove → M World (Unit {0})
  apply_moves [] = skip
  apply_moves (m ∷ moves) = do
    act (move_window_silent m.address m.to)
    modify (record_move m)
    apply_moves moves

  unfoldable pub restore_clients : Bool → ℕ → List HyprWindow → M World (Option RestoreReport)
  restore_clients dry_run synced clients = do
    state ← get_session
    let report = report_clients state clients (empty_report synced)
    if dry_run then skip else apply_moves report.moves
    pure (some (record report { restored = length report.moves }))

  unfoldable pub restore_running : Bool → ℕ → M World (Option RestoreReport)
  restore_running dry_run synced = do
    running ← ask available
    let restore : M World (Option RestoreReport) = (do
      listed ← ask get_clients
      elim listed [ none ↦ pure none | some clients ↦ restore_clients dry_run synced clients ])
    if running then restore else pure (some (empty_report synced))

  unfoldable pub restore_windows : Bool → M World (Option RestoreReport)
  restore_windows dry_run = do
    synced ← sync_window_registry
    elim synced [ none ↦ pure none | some n ↦ restore_running dry_run n ]
