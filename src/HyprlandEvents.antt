-- ===== src/HyprlandEvents.antt =====
-- crates/tsk-core/src/hyprland_events.rs: the events that Hyprland writes to its socket. A chunk is
-- the bytes of one read; `String::from_utf8_lossy`, which decodes each by itself, and `str::trim` are
-- parameters.
pub mod Chunks
use hypr_taskspace.Prelude.{
  ℕ, Bool, true, false, not, ◌||◌, Option, none, some, List, [], ◌∷◌, ◌++◌, if◌then◌else◌, ◌==◌,
  ℕ_eq, contains,
}
use hypr_taskspace.Prelude.Text.{Text, Text_eq, codes, is_empty, text_eq, starts_with}

abbrev pub onto_first : ℕ → List Text → Text → List Text × Text
onto_first c [] rest = ([], c ∷ rest)
onto_first c (line ∷ lines) rest = ((c ∷ line) ∷ lines, rest)

-- One more character in front of lines and a rest.
abbrev pub add_char : ℕ → List Text × Text → List Text × Text
add_char c (lines, rest) = if c == 10 then ([] ∷ lines, rest) else onto_first c lines rest

-- The loop over the newlines of the buffer: the lines that are complete, and what stays in it.
unfoldable pub take_lines : Text → List Text × Text
take_lines [] = ([], [])
take_lines (c ∷ s) = add_char c (take_lines s)

-- `read_events`: the lines of the chunks, one after the other, from a buffer.
unfoldable pub read_chunks : (List ℕ → Text) → Text → List (List ℕ) → List Text × Text
unfolding take_lines
read_chunks from_utf8_lossy buf [] = ([], buf)
read_chunks from_utf8_lossy buf (chunk ∷ chunks) =
    let here = take_lines (buf ++ from_utf8_lossy chunk) in
    let later = read_chunks from_utf8_lossy here.1 chunks in (here.0 ++ later.0, later.1)

-- `split_once(">>")`
unfoldable pub split_event : Text → Option (Text × Text)
split_event [] = none
split_event (c ∷ s) =
    let rest = split_event s in
    if starts_with (codes ">>") (c ∷ s)
    then some ([], elim s [ [] ↦ [] | d ∷ payload ↦ payload ])
    else elim rest [ none ↦ none | some (event, payload) ↦ some (c ∷ event, payload) ]

-- What `parse_line` passes to the callback.
unfoldable pub parse_line : (Text → Text) → Text → Option (Text × Text)
unfolding split_event
parse_line trim line = elim (split_event line) [
  | none ↦ none
  | some (event, payload) ↦ some (trim event, trim payload)
]

-- The callbacks of the lines, each line trimmed.
unfoldable pub events_of : (Text → Text) → List Text → List (Text × Text)
unfolding parse_line
events_of trim [] = []
events_of trim (line ∷ lines) =
    let later = events_of trim lines in
    elim (parse_line trim (trim line)) [ none ↦ later | some event ↦ event ∷ later ]

unfoldable pub is_monitor_topology_event : Text → Bool
is_monitor_topology_event event =
    contains
      (codes "monitoradded"
        ∷ codes "monitoraddedv2"
        ∷ codes "monitorremoved"
        ∷ codes "monitorremovedv2"
        ∷ [])
      event

unfoldable pub is_full_refresh_event : Text → Bool
unfolding is_monitor_topology_event
is_full_refresh_event event =
    contains
      (codes "openwindow"
        ∷ codes "closewindow"
        ∷ codes "movewindow"
        ∷ codes "movewindowv2"
        ∷ codes "createworkspace"
        ∷ codes "createworkspacev2"
        ∷ codes "destroyworkspace"
        ∷ codes "destroyworkspacev2"
        ∷ [])
      event
    || is_monitor_topology_event event

unfoldable pub is_workspace_focus_event : Text → Bool
is_workspace_focus_event event = text_eq event (codes "workspacev2")

unfoldable pub is_monitor_focus_event : Text → Bool
is_monitor_focus_event event = contains (codes "focusedmon" ∷ codes "focusedmonv2" ∷ []) event
