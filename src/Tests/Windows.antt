-- ===== src/Tests/Windows.antt =====
-- The windows of the sample session: an editor at home, a browser elsewhere, a window without record.
use hypr_taskspace.Prelude.{none, some, ◌≡◌, refl, List, [], ◌∷◌, map}
use hypr_taskspace.Prelude.Int.{pos}
use hypr_taskspace.Prelude.Text.{Text, codes}
use hypr_taskspace.Prelude.Dict.{get}
use hypr_taskspace.Models.{SessionState, WindowRecord}
use hypr_taskspace.Host.{HyprWindow}
use hypr_taskspace.WindowRegistry.{
  report_clients, empty_report, misplaced_clients, sync_windows_from, client_workspace_name,
  is_ephemeral_window,
}
use hypr_taskspace.WindowRegistry.Laws.{
  move_to, home_of, known_home, moves-misplaced, sync_windows-home,
}
use hypr_taskspace.Tests.Sample.{session}

abbrev window : Text → Text → HyprWindow
window address name = record {
  address = address;
  title = codes "a window";
  class_name = codes "app";
  workspace = pos 2;
  workspace_name = name;
  pid = none;
}

abbrev at_home : Text → Text → WindowRecord
at_home address name = record {
  hypr_address = address;
  task_id = some (codes "t3fa0");
  title = codes "a window";
  class_name = codes "app";
  workspace = pos 2;
  workspace_name = name;
  home_workspace_name = name;
  pid = none;
}

abbrev windowed : SessionState
windowed = record session {
  windows =
      (codes "0x1", at_home (codes "0x1") (codes "t3fa0-2"))
      ∷ (codes "0x2", at_home (codes "0x2") (codes "t3fa0-3"))
      ∷ [];
}

abbrev clients : List HyprWindow
clients =
    window (codes "0x1") (codes "t3fa0-2")
    ∷ window (codes "0x2") (codes "2")
    ∷ window (codes "0x3") (codes "2")
    ∷ []

misplaced :
    misplaced_clients windowed clients ≡ (window (codes "0x2") (codes "2"), codes "t3fa0-3") ∷ []
unfolding misplaced_clients is_ephemeral_window get client_workspace_name
misplaced = refl

moves-misplaced_example :
    map move_to (report_clients windowed clients (empty_report 3)).moves
    ≡ map home_of (misplaced_clients windowed clients)
moves-misplaced_example = moves-misplaced windowed clients 3

sync_windows-home_example :
    known_home (get (sync_windows_from clients windowed).windows (codes "0x2"))
    ≡ some (codes "t3fa0-3")
unfolding get
sync_windows-home_example =
    sync_windows-home clients windowed (codes "0x2") (codes "t3fa0-3") refl refl
