-- ===== src/Nav/OnStart/Laws.antt =====
-- crates/tsk-core/src/workspace_nav.rs: the programs of a new task start away from the global workspaces.
use hypr_taskspace.Prelude.{
  ℕ, Bool, true, false, not, ◌||◌, none, some, List, [], ◌∷◌, ◌++◌, ◌≡◌, ◌≢◌, sym, ap, arith, All,
  find, contains, Member, here, there, find_sound, find_complete,
}
use hypr_taskspace.Prelude.Int.{ℤ, int_eq_iff}
use hypr_taskspace.Prelude.Text.{Text, Text_eq, codes, text_eq, text_eq_iff}
use hypr_taskspace.Prelude.Dict.{Dict, get}
use hypr_taskspace.Models.{SessionState}
use hypr_taskspace.Workspaces.{default_taskspace_workspace_name}
use hypr_taskspace.Host.{System, Monitor, Env}
use hypr_taskspace.Nav.OnStart.{
  as_i32, saved_on, reserved_for, reserved_slots, global_workspace_monitors, override_name,
  chosen_monitor, preferred_on_start_monitor_from_layout,
}

-- The monitor is not the first one that shows the global workspace of the slot, and the slot is not
-- saved for it in the default taskspace.
pub record AvoidsSlot (state : SessionState) (monitors : List Monitor) (name : Text) (slot : ℕ)
    : Type 0 where
  pub not_showing :
      (g : Monitor)
      → find
          (λ (m : Monitor). text_eq m.workspace_name (default_taskspace_workspace_name slot))
          monitors
        ≡ some g
      → name ≢ g.name
  pub not_saved :
      (m : Dict ℤ)
      → get state.last_monitor_workspace (codes "default") ≡ some m
      → ¬ Member (name, as_i32 slot) m

contains-append :
    (xs ys : List Text) (a : Text) → contains (xs ++ ys) a ≡ (contains xs a || contains ys a)
contains-append [] ys a = ground arith
contains-append (x ∷ xs) ys a = ground (arith, contains-append xs ys a)

saved_on-contains :
    (slot : ℤ) (m : Dict ℤ) (name : Text)
    → Member (name, slot) m
    → contains (saved_on slot m) name ≡ true
unfolding saved_on
saved_on-contains slot [] name h = elim h [ ]
saved_on-contains slot ((k, v) ∷ m) name (here e) =
    let own : k ≡ name = sym (ap (λ p. p.0) e) in
    let same : v ≡ slot = sym (ap (λ p. p.1) e) in
    ground (arith, int_eq_iff v slot, text_eq_iff k name)
saved_on-contains slot ((k, v) ∷ m) name (there h) = ground (arith, saved_on-contains slot m name h)

free-AvoidsSlot :
    (state : SessionState) (monitors : List Monitor) (name : Text) (slot : ℕ)
    → contains (reserved_for state monitors slot) name ≡ false
    → AvoidsSlot state monitors name slot
unfolding reserved_for
free-AvoidsSlot state monitors name slot free = record {
  not_showing = λ g shows same. ground (arith, text_eq_iff g.name name);
  not_saved = λ m saved listed. ground (arith, saved_on-contains (as_i32 slot) m name listed);
}

unreserved-AvoidsSlot :
    (state : SessionState) (monitors : List Monitor) (slots : List ℕ) (name : Text)
    → contains (reserved_slots state monitors slots) name ≡ false
    → All (AvoidsSlot state monitors name) slots
unfolding reserved_slots
unreserved-AvoidsSlot state monitors [] name free = tt
unreserved-AvoidsSlot state monitors (first ∷ slots) name free =
    let rest = reserved_slots state monitors slots in
    let both = contains-append (reserved_for state monitors first) rest name in
    (
      free-AvoidsSlot state monitors name first (ground (arith, both)),
      unreserved-AvoidsSlot state monitors slots name (ground (arith, both)),
    )

module _ (h : System) (trim : Text → Text) where
  -- Without an override, and if some listed monitor is not reserved for a global workspace, the
  -- programs of a new task start on a listed monitor that, for every global slot, is not the first
  -- one that shows the slot's workspace and does not have the slot saved for it in the default
  -- taskspace.
  pub on_start-avoids_global :
      (state : SessionState) (task_id : Text) (monitors : List Monitor) (m : Monitor)
      (s : Env h.World)
      → Member m monitors
      → contains (global_workspace_monitors state monitors) m.name ≡ false
      → (chosen : Monitor) × ((preferred_on_start_monitor_from_layout h trim state task_id none
            monitors s).0
          ≡ some chosen.name)
        × Member chosen monitors
        × All (AvoidsSlot state monitors chosen.name) state.global_workspace_slots
  unfolding preferred_on_start_monitor_from_layout chosen_monitor override_name
      global_workspace_monitors
  on_start-avoids_global state task_id [] m s listed free = elim listed [ ]
  on_start-avoids_global state task_id (first ∷ others) m s listed free =
      let reserved = global_workspace_monitors state (first ∷ others) in
      let passes : Monitor → Bool = λ x. not (contains reserved x.name) in
      let (chosen, found) = find_complete passes listed (rw free) in
      let (member, ok) = find_sound passes (first ∷ others) chosen found in
      let unreserved : contains reserved chosen.name ≡ false = ground arith in
      (
        chosen,
        rw (chosen_monitor, found),
        member,
        unreserved-AvoidsSlot state (first ∷ others) state.global_workspace_slots chosen.name
            unreserved,
      )
