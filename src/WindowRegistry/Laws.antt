-- ===== src/WindowRegistry/Laws.antt =====
-- crates/tsk-core/src/window_registry.rs: the report counts every window once, the two searches for
-- misplaced windows agree, and a home that is known stays.
use mathlib.Core.Path.{subst}
use hypr_taskspace.Prelude.{
  ℕ, suc, ◌+◌, true, false, Option, none, some, List, [], ◌∷◌, ◌++◌, map, ◌≡◌, ◌≢◌, refl, sym, ap,
  ◌∙◌, arith, length, contains, Bool-cases, Option-cases, inl, inr, if◌then◌else◌,
}
use hypr_taskspace.Prelude.Text.{Text, Text_eq, is_empty, text_eq, text_eq_iff}
use hypr_taskspace.Prelude.Dict.{get, insert, get-insert_self, get-insert_ne, get-retain_key}
use hypr_taskspace.Models.{SessionState, WindowRecord}
use hypr_taskspace.Host.{HyprWindow}
use hypr_taskspace.WindowRegistry.{
  RestoreMove, RestoreReport, client_workspace_name, infer_task_id, is_ephemeral_window,
  updated_record, sync_client, sync_clients, sync_windows_from, Placement, skip_window, home, away,
  placement, misplaced_from, misplaced_clients, count_placement, report_clients, empty_report,
}

length-snoc {ℓ} : {A : Type ℓ} (xs : List A) (x : A) → length (xs ++ x ∷ []) ≡ suc (length xs)
length-snoc [] x = refl
length-snoc (y ∷ xs) x = ap suc (length-snoc xs x)

abbrev counted : RestoreReport → ℕ
counted report = report.skipped + report.already_home + length report.moves

count_placement-suc :
    (p : Placement) (report : RestoreReport)
    → counted (count_placement p report) ≡ suc (counted report)
count_placement-suc skip_window report = omega arith
count_placement-suc home report = omega arith
count_placement-suc (away m) report = omega (arith, length-snoc report.moves m)

report_clients-counted :
    (state : SessionState) (clients : List HyprWindow) (report : RestoreReport)
    → counted (report_clients state clients report) ≡ counted report + length clients
unfolding report_clients
report_clients-counted state [] report = omega arith
report_clients-counted state (client ∷ clients) report =
    let p = placement state client in
    omega (
      arith,
      report_clients-counted state clients (count_placement p report),
      count_placement-suc p report,
    )

-- The report counts every window once: those skipped, those at home and the moves add up to the
-- number of windows.
pub report-partition :
    (state : SessionState) (clients : List HyprWindow) (synced : ℕ)
    → (report_clients state clients (empty_report synced)).skipped
        + (report_clients state clients (empty_report synced)).already_home
        + length (report_clients state clients (empty_report synced)).moves
      ≡ length clients
report-partition state clients synced =
    omega (arith, report_clients-counted state clients (empty_report synced))

-- The window and the workspace it is brought to.
abbrev pub move_to : RestoreMove → Text × Text
move_to m = (m.address, m.to)

abbrev pub home_of : HyprWindow × Text → Text × Text
home_of (client, workspace) = (client.address, workspace)

append-nil {ℓ} : {A : Type ℓ} (xs : List A) → xs ++ [] ≡ xs
append-nil [] = refl
append-nil (x ∷ xs) = ap (λ r. x ∷ r) (append-nil xs)

append_assoc {ℓ} : {A : Type ℓ} (xs ys zs : List A) → (xs ++ ys) ++ zs ≡ xs ++ (ys ++ zs)
append_assoc [] ys zs = refl
append_assoc (x ∷ xs) ys zs = ap (λ r. x ∷ r) (append_assoc xs ys zs)

-- Adding the moves of one window.
abbrev one_move : Placement → List RestoreMove
one_move skip_window = []
one_move home = []
one_move (away m) = m ∷ []

count_placement-moves :
    (p : Placement) (report : RestoreReport)
    → (count_placement p report).moves ≡ report.moves ++ one_move p
count_placement-moves skip_window report = sym (append-nil report.moves)
count_placement-moves home report = sym (append-nil report.moves)
count_placement-moves (away m) report = refl

abbrev all_moves : SessionState → List HyprWindow → List RestoreMove
all_moves state [] = []
all_moves state (client ∷ clients) = one_move (placement state client) ++ all_moves state clients

report_clients-moves :
    (state : SessionState) (clients : List HyprWindow) (report : RestoreReport)
    → (report_clients state clients report).moves ≡ report.moves ++ all_moves state clients
unfolding report_clients
report_clients-moves state [] report = sym (append-nil report.moves)
report_clients-moves state (client ∷ clients) report =
    let p = placement state client in
    report_clients-moves state clients (count_placement p report)
    ∙ ap (λ r. r ++ all_moves state clients) (count_placement-moves p report)
    ∙ append_assoc report.moves (one_move p) (all_moves state clients)

all_moves-misplaced :
    (state : SessionState) (clients : List HyprWindow)
    → map move_to (all_moves state clients) ≡ map home_of (misplaced_clients state clients)
unfolding misplaced_clients misplaced_from placement
all_moves-misplaced state [] = refl
all_moves-misplaced state (client ∷ clients) =
    elim (Option-cases (get state.windows client.address)) [
      | inl unknown ↦ ground (arith, all_moves-misplaced state clients)
      | inr (entry, known) ↦ ground (arith, all_moves-misplaced state clients)
    ]

-- The moves of the report bring exactly the misplaced windows to their homes, in the same order.
pub moves-misplaced :
    (state : SessionState) (clients : List HyprWindow) (synced : ℕ)
    → map move_to (report_clients state clients (empty_report synced)).moves
      ≡ map home_of (misplaced_clients state clients)
moves-misplaced state clients synced =
    ap (λ r. map move_to r) (report_clients-moves state clients (empty_report synced))
    ∙ all_moves-misplaced state clients

-- The home that a record gives a window, if it gives one.
abbrev pub known_home : Option WindowRecord → Option Text
known_home none = none
known_home (some entry) =
    if is_empty entry.home_workspace_name then none else some entry.home_workspace_name

updated-home :
    (client : HyprWindow) (name : Text) (id : Option Text) (entry : WindowRecord) (workspace : Text)
    → known_home (some entry) ≡ some workspace
    → known_home (some (updated_record client name id entry)) ≡ some workspace
unfolding updated_record
updated-home client name id entry workspace h = ground arith

sync_client-known :
    (client : HyprWindow) (state : SessionState) (entry : WindowRecord)
    → get state.windows client.address ≡ some entry
    → is_ephemeral_window client ≡ false
    → (sync_client client state).windows
      ≡ insert state.windows client.address (
          updated_record client
            (client_workspace_name client)
            (infer_task_id state (client_workspace_name client) client.title)
            entry)
unfolding sync_client
sync_client-known client state entry known lasting = rw (lasting, known)

sync_client-elsewhere :
    (client : HyprWindow) (state : SessionState) (address : Text)
    → text_eq client.address address ≡ false
    → get (sync_client client state).windows address ≡ get state.windows address
unfolding sync_client
sync_client-elsewhere client state address other =
    let ne : client.address ≢ address = λ e. ground (arith, text_eq_iff client.address address) in
    elim (Bool-cases (is_ephemeral_window client)) [
      | inl passing ↦ rw passing
      | inr lasting ↦ rw lasting (get-insert_ne state.windows client.address address _ ne)
    ]

sync_client-ephemeral :
    (client : HyprWindow) (state : SessionState)
    → is_ephemeral_window client ≡ true
    → sync_client client state ≡ state
unfolding sync_client
sync_client-ephemeral client state passing = rw passing

sync_client-own :
    (client : HyprWindow) (state : SessionState) (workspace : Text)
    → is_ephemeral_window client ≡ false
    → known_home (get state.windows client.address) ≡ some workspace
    → known_home (get (sync_client client state).windows client.address) ≡ some workspace
sync_client-own client state workspace lasting h =
    elim (Option-cases (get state.windows client.address)) [
      | inl unknown ↦ absurd (ground arith)
      | inr (entry, known) ↦
          let name = client_workspace_name client in
          let id = infer_task_id state name client.title in
          let updated = updated_record client name id entry in
          let stored = get-insert_self state.windows client.address updated in
          let kept = updated-home client name id entry workspace (rw known at h) in
          rw (sync_client-known client state entry known lasting, stored) kept
    ]

sync_client-home :
    (client : HyprWindow) (state : SessionState) (address workspace : Text)
    → known_home (get state.windows address) ≡ some workspace
    → known_home (get (sync_client client state).windows address) ≡ some workspace
sync_client-home client state address workspace h = elim (Bool-cases (is_ephemeral_window client)) [
  | inl passing ↦ rw (sync_client-ephemeral client state passing) h
  | inr lasting ↦ elim (Bool-cases (text_eq client.address address)) [
    | inl same ↦
        let e : client.address ≡ address = (text_eq_iff client.address address).0 same in
        subst (λ a. known_home (get (sync_client client state).windows a) ≡ some workspace) e
          (sync_client-own client state workspace lasting (rw e h))
    | inr other ↦ rw (sync_client-elsewhere client state address other) h
  ]
]

sync_clients-home :
    (clients : List HyprWindow) (state : SessionState) (address workspace : Text)
    → known_home (get state.windows address) ≡ some workspace
    → known_home (get (sync_clients clients state).windows address) ≡ some workspace
unfolding sync_clients
sync_clients-home [] state address workspace h = h
sync_clients-home (client ∷ clients) state address workspace h =
    sync_clients-home clients (sync_client client state) address workspace
      (sync_client-home client state address workspace h)

abbrev pub addresses : List HyprWindow → List Text
addresses clients = map (λ (c : HyprWindow). c.address) clients

sync_clients-absent :
    (clients : List HyprWindow) (state : SessionState) (address : Text)
    → contains (addresses clients) address ≡ false
    → get (sync_clients clients state).windows address ≡ get state.windows address
unfolding sync_clients
sync_clients-absent [] state address absent = refl
sync_clients-absent (client ∷ clients) state address absent =
    let other : text_eq client.address address ≡ false =
      ground (arith, text_eq_iff client.address address) in
    sync_clients-absent clients (sync_client client state) address (ground arith)
    ∙ sync_client-elsewhere client state address other

-- A window that is open and has a nonempty recorded home keeps this home when the records are
-- synchronised.
pub sync_windows-home :
    (clients : List HyprWindow) (state : SessionState) (address workspace : Text)
    → contains (addresses clients) address ≡ true
    → known_home (get state.windows address) ≡ some workspace
    → known_home (get (sync_windows_from clients state).windows address) ≡ some workspace
unfolding sync_windows_from
sync_windows-home clients state address workspace open_now h =
    let kept = get-retain_key (contains (addresses clients)) state.windows address in
    sync_clients-home clients _ address workspace (rw (kept, open_now) h)

-- An address that no open window has is without a record after the records are synchronised.
sync_windows-gone :
    (clients : List HyprWindow) (state : SessionState) (address : Text)
    → contains (addresses clients) address ≡ false
    → get (sync_windows_from clients state).windows address ≡ none
unfolding sync_windows_from
sync_windows-gone clients state address closed =
    let kept = get-retain_key (contains (addresses clients)) state.windows address in
    sync_clients-absent clients _ address closed ∙ rw (kept, closed)
