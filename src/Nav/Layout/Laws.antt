-- ===== src/Nav/Layout/Laws.antt =====
-- crates/tsk-core/src/workspace_nav.rs: what is remembered when a taskspace is left brings every
-- monitor back to its workspace.
use hypr_taskspace.Prelude.{
  ℕ, false, none, some, List, [], ◌∷◌, map, ◌≡◌, ◌≢◌, refl, sym, ap, ◌∙◌, Member, here, there,
  Distinct, Option-cases, inl, inr, contains, contains_complete,
}
use hypr_taskspace.Prelude.Int.{ℤ}
use hypr_taskspace.Prelude.Text.{Text, Text_eq}
use hypr_taskspace.Prelude.Dict.{Dict, get, insert, get-insert_self, get-insert_ne, get-retain_key}
use hypr_taskspace.Models.{SessionState}
use hypr_taskspace.Host.{Monitor}
use hypr_taskspace.Nav.Slots.{
  relative_slot_in_allowed, saved_slots, resolve_monitor_slot, workspace_name_at_relative,
}
use hypr_taskspace.Nav.Slots.Choice.{resolve_monitor_slot-saved}
use hypr_taskspace.Nav.Slots.Names.{name_at-relative_slot}
use hypr_taskspace.Nav.Layout.{
  live_monitor_names, record_slots, capture_slots, capture_monitor_slots,
}

abbrev pub names_of : List Monitor → List Text
names_of monitors = map (λ (m : Monitor). m.name) monitors

Member-name :
    {m : Monitor} {monitors : List Monitor} → Member m monitors → Member m.name (names_of monitors)
Member-name (here p) = here (ap (λ (x : Monitor). x.name) p)
Member-name (there m) = there (Member-name m)

-- A monitor that is not listed keeps its entry.
record_slots-absent :
    (allowed : List Text) (monitors : List Monitor) (slots : Dict ℤ) (name : Text)
    → ¬ (Member name (names_of monitors))
    → get (record_slots allowed monitors slots) name ≡ get slots name
unfolding record_slots
record_slots-absent allowed [] slots name absent = refl
record_slots-absent allowed (m ∷ monitors) slots name absent =
    let other : m.name ≢ name = λ e. absent (here (sym e)) in
    let rest : ¬ (Member name (names_of monitors)) = λ x. absent (there x) in
    elim (Option-cases (relative_slot_in_allowed m.workspace_name allowed)) [
      | inl elsewhere ↦ rw elsewhere (record_slots-absent allowed monitors slots name rest)
      | inr (slot, found) ↦ rw found (
          record_slots-absent allowed monitors (insert slots m.name slot) name rest
          ∙ get-insert_ne slots m.name name slot other)
    ]

record_slots-listed :
    (allowed : List Text) (monitors : List Monitor) (slots : Dict ℤ) (m : Monitor) (slot : ℤ)
    → Distinct (names_of monitors)
    → Member m monitors
    → relative_slot_in_allowed m.workspace_name allowed ≡ some slot
    → get (record_slots allowed monitors slots) m.name ≡ some slot
unfolding record_slots
record_slots-listed allowed [] slots m slot distinct member found = elim member [ ]
record_slots-listed allowed (x ∷ monitors) slots m slot (fresh, distinct) (here p) found =
    let found' : relative_slot_in_allowed x.workspace_name allowed ≡ some slot =
      ap (λ (y : Monitor). relative_slot_in_allowed y.workspace_name allowed) (sym p) ∙ found in
    let name : m.name ≡ x.name = ap (λ (y : Monitor). y.name) p in
    rw (found', name)
      (record_slots-absent allowed monitors (insert slots x.name slot) x.name fresh
        ∙ get-insert_self slots x.name slot)
record_slots-listed allowed (x ∷ monitors) slots m slot (fresh, distinct) (there member) found =
    record_slots-listed allowed monitors _ m slot distinct member found

saved-capture :
    (key : Text) (allowed : List Text) (monitors : List Monitor) (state : SessionState)
    → saved_slots (capture_monitor_slots key allowed monitors state) key
      ≡ capture_slots allowed monitors (saved_slots state key)
unfolding capture_monitor_slots saved_slots
saved-capture key allowed monitors state =
    let slots = capture_slots allowed monitors (saved_slots state key) in
    rw (saved_slots, get-insert_self state.last_monitor_workspace key slots)

-- A monitor that shows a workspace of the taskspace is remembered with its slot.
pub capture-listed :
    (key : Text) (allowed : List Text) (monitors : List Monitor) (state : SessionState)
    (m : Monitor) (slot : ℤ)
    → Distinct (names_of monitors)
    → Member m monitors
    → relative_slot_in_allowed m.workspace_name allowed ≡ some slot
    → get (saved_slots (capture_monitor_slots key allowed monitors state) key) m.name ≡ some slot
unfolding capture_slots
capture-listed key allowed monitors state m slot distinct member found =
    rw (saved-capture key allowed monitors state)
      (record_slots-listed allowed monitors _ m slot distinct member found)

-- After the layout of a taskspace is captured, the slot that a listed monitor gets there stands
-- for the workspace that it shows, if this is one of the taskspace's names and the monitors have
-- distinct names.
pub capture-restore :
    (key : Text) (allowed : List Text) (monitors : List Monitor) (state : SessionState)
    (m : Monitor) (slot : ℤ) (index max_slots : ℕ)
    → Distinct (names_of monitors)
    → Member m monitors
    → relative_slot_in_allowed m.workspace_name allowed ≡ some slot
    → workspace_name_at_relative allowed (
        resolve_monitor_slot
          (capture_monitor_slots key allowed monitors state)
          key
          m.name
          index
          max_slots)
      ≡ some m.workspace_name
capture-restore key allowed monitors state m slot index max_slots distinct member found =
    let after = capture_monitor_slots key allowed monitors state in
    let saved = capture-listed key allowed monitors state m slot distinct member found in
    rw (resolve_monitor_slot-saved after key m.name index max_slots slot saved)
      (name_at-relative_slot allowed m.workspace_name slot found)

-- After the layout of a taskspace is captured from at least one monitor, a name that is not listed
-- has no slot there.
capture-gone :
    (key : Text) (allowed : List Text) (first : Monitor) (others : List Monitor)
    (state : SessionState) (name : Text)
    → contains (names_of (first ∷ others)) name ≡ false
    → get (saved_slots (capture_monitor_slots key allowed (first ∷ others) state) key) name ≡ none
unfolding capture_slots live_monitor_names
capture-gone key allowed first others state name gone =
    let live = names_of (first ∷ others) in
    let absent : ¬ (Member name live) = λ x. let listed = contains_complete x in cc in
    let dropped = get-retain_key (contains live) (saved_slots state key) name in
    rw (saved-capture key allowed (first ∷ others) state)
      (record_slots-absent allowed (first ∷ others) _ name absent ∙ rw (dropped, gone))
