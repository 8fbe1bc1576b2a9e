-- ===== src/Valid.antt =====
-- When a session is valid: every task stands under its own id, once, and the session is in default
-- mode without a task or at a task of the table that is not archived. The operations of
-- crates/tsk-core/src/service.rs take this for granted.
pub mod Sync
pub mod Nav
pub mod Windows
pub mod Daemon
pub mod Rules
pub mod Keys
pub mod Events
pub mod Tasks
pub mod Archive
pub mod Lifecycle
pub mod Reach
use hypr_taskspace.Prelude.{
  Bool, true, false, not, ◌&&◌, Option, none, some, List, [], ◌∷◌, if◌then◌else◌, ◌≡◌, refl, arith,
  find, Bool-cases, sym, ap, ◌∙◌,
}
use hypr_taskspace.Prelude.Text.{Text, text_eq, text_eq_iff}
use hypr_taskspace.Prelude.Dict.{
  Dict, get, insert, remove, contains_key, values, get-insert, get-remove,
}
use hypr_taskspace.Models.{ContextMode, default, task, SessionState, Task, is_archived}
use hypr_taskspace.Workspaces.{is_some_and, claims}
use hypr_taskspace.ContextSync.{is_id, enter_default, enter_task}
use hypr_taskspace.Nav.Refresh.{SameButLayout}

-- Each key is the id of its task, and stands there once.
unfoldable pub is_keyed : Dict Task → Bool
is_keyed [] = true
is_keyed ((k, t) ∷ tasks) = text_eq t.id k && not (contains_key tasks k) && is_keyed tasks

-- A task of the table that is not archived.
unfoldable pub is_live : Dict Task → Text → Bool
is_live tasks id = is_some_and (λ (t : Task). not (is_archived t.status)) (get tasks id)

unfoldable pub is_at_home : ContextMode → Option Text → Dict Task → Bool
is_at_home default none tasks = true
is_at_home default (some id) tasks = false
is_at_home task none tasks = false
is_at_home task (some id) tasks = is_live tasks id

unfoldable pub is_valid : SessionState → Bool
is_valid state =
    is_keyed state.tasks && is_at_home state.context_mode state.current_task_id state.tasks

-- What a session must be, as a type.
abbrev pub IsValid : SessionState → Type 0
IsValid state = is_valid state ≡ true

pub is_valid-SameButLayout : {a b : SessionState} → SameButLayout a b → is_valid b ≡ is_valid a
unfolding is_valid
is_valid-SameButLayout same = rw same.context_mode (rw same.current_task_id (rw same.tasks refl))

pub get-keyed :
    (tasks : Dict Task) (id : Text) (t : Task)
    → is_keyed tasks ≡ true
    → get tasks id ≡ some t
    → t.id ≡ id
unfolding is_keyed get
get-keyed [] id t keyed h = ground arith
get-keyed ((k, u) ∷ tasks) id t keyed h =
    ground (arith, text_eq_iff k id, text_eq_iff u.id k, get-keyed tasks id t)

-- The task that is found for a workspace is a live one of the table.
pub is_live-find :
    (tasks : Dict Task) (name : Text) (t : Task)
    → is_keyed tasks ≡ true
    → find (claims name) (values tasks) ≡ some t
    → is_live tasks t.id ≡ true
unfolding is_keyed is_live get contains_key claims
is_live-find [] name t keyed h = ground arith
is_live-find ((k, u) ∷ tasks) name t keyed h =
    ground (arith, text_eq_iff u.id k, text_eq_iff k t.id, is_live-find tasks name t)

contains_key-insert :
    (tasks : Dict Task) (k j : Text) (t : Task)
    → text_eq k j ≡ false
    → contains_key (insert tasks k t) j ≡ contains_key tasks j
unfolding contains_key
contains_key-insert tasks k j t other = ground (arith, get-insert tasks k t j)

pub is_keyed-insert :
    (tasks : Dict Task) (k : Text) (t : Task)
    → is_keyed tasks ≡ true
    → t.id ≡ k
    → is_keyed (insert tasks k t) ≡ true
unfolding is_keyed insert contains_key get
is_keyed-insert [] k t keyed e = ground (arith, text_eq_iff t.id k)
is_keyed-insert ((j, u) ∷ tasks) k t keyed e = ground (
  arith,
  text_eq_iff t.id j,
  text_eq_iff j k,
  text_eq_iff k j,
  contains_key-insert tasks k j t,
  is_keyed-insert tasks k t,
)

pub is_live-insert :
    (tasks : Dict Task) (k : Text) (t : Task) (j : Text)
    → is_live (insert tasks k t) j
      ≡ (if text_eq k j then not (is_archived t.status) else is_live tasks j)
unfolding is_live
is_live-insert tasks k t j = ground (arith, get-insert tasks k t j)

contains_key-remove :
    (tasks : Dict Task) (k j : Text)
    → contains_key tasks j ≡ false
    → contains_key (remove tasks k) j ≡ false
unfolding contains_key
contains_key-remove tasks k j h = ground (arith, get-remove tasks k j)

pub is_keyed-remove :
    (tasks : Dict Task) (k : Text) → is_keyed tasks ≡ true → is_keyed (remove tasks k) ≡ true
unfolding is_keyed remove
is_keyed-remove [] k keyed = refl
is_keyed-remove ((j, u) ∷ tasks) k keyed =
    ground (arith, contains_key-remove tasks k j, is_keyed-remove tasks k)

pub is_live-remove :
    (tasks : Dict Task) (k j : Text)
    → is_live (remove tasks k) j ≡ (if text_eq k j then false else is_live tasks j)
unfolding is_live
is_live-remove tasks k j = ground (arith, get-remove tasks k j)

is_at_home-insert :
    (mode : ContextMode) (current : Option Text) (tasks : Dict Task) (k : Text) (t : Task)
    → is_at_home mode current tasks ≡ true
    → (is_id k current ≡ true → is_archived t.status ≡ false)
    → is_at_home mode current (insert tasks k t) ≡ true
unfolding is_at_home
is_at_home-insert default none tasks k t home live = refl
is_at_home-insert default (some id) tasks k t home live = ground arith
is_at_home-insert task none tasks k t home live = ground arith
is_at_home-insert task (some id) tasks k t home live =
    ground (arith, is_live-insert tasks k t id, text_eq_iff k id, text_eq_iff id k)

-- Storing a task under its id keeps the session valid, if the current task is not archived by it.
pub insert-IsValid :
    (state : SessionState) (k : Text) (t : Task)
    → IsValid state
    → t.id ≡ k
    → (is_id k state.current_task_id ≡ true → is_archived t.status ≡ false)
    → IsValid (record state { tasks = insert state.tasks k t })
unfolding is_valid
insert-IsValid state k t valid e live = ground (
  arith,
  is_keyed-insert state.tasks k t,
  is_at_home-insert state.context_mode state.current_task_id state.tasks k t,
)

is_at_home-remove :
    (mode : ContextMode) (current : Option Text) (tasks : Dict Task) (k : Text)
    → is_at_home mode current tasks ≡ true
    → is_id k current ≡ false
    → is_at_home mode current (remove tasks k) ≡ true
unfolding is_at_home
is_at_home-remove default none tasks k home other = refl
is_at_home-remove default (some id) tasks k home other = ground arith
is_at_home-remove task none tasks k home other = ground arith
is_at_home-remove task (some id) tasks k home other =
    ground (arith, is_live-remove tasks k id, text_eq_iff k id, text_eq_iff id k)

-- Removing a task other than the current one keeps the session valid.
pub remove-IsValid :
    (state : SessionState) (k : Text)
    → IsValid state
    → is_id k state.current_task_id ≡ false
    → IsValid (record state { tasks = remove state.tasks k })
unfolding is_valid
remove-IsValid state k valid other = ground (
  arith,
  is_keyed-remove state.tasks k,
  is_at_home-remove state.context_mode state.current_task_id state.tasks k,
)

is_at_home-live :
    (mode : ContextMode) (tasks : Dict Task) (id : Text)
    → is_at_home mode (some id) tasks ≡ true
    → is_live tasks id ≡ true
unfolding is_at_home
is_at_home-live default tasks id home = ground arith
is_at_home-live task tasks id home = home

-- The current task of a valid session is live.
pub current-is_live :
    (state : SessionState) (id : Text)
    → IsValid state
    → state.current_task_id ≡ some id
    → is_live state.tasks id ≡ true
unfolding is_valid
current-is_live state id valid h = is_at_home-live state.context_mode state.tasks id (ground arith)

pub entry-keyed :
    (state : SessionState) (id : Text) (t : Task)
    → IsValid state
    → get state.tasks id ≡ some t
    → t.id ≡ id
unfolding is_valid
entry-keyed state id t valid h = get-keyed state.tasks id t (ground arith) h

pub enter_default-IsValid : (state : SessionState) → IsValid state → IsValid (enter_default state)
unfolding is_valid is_at_home
enter_default-IsValid state valid = ground arith

pub enter_task-IsValid :
    (id : Text) (state : SessionState)
    → IsValid state
    → is_live state.tasks id ≡ true
    → IsValid (enter_task id state)
unfolding is_valid is_at_home
enter_task-IsValid id state valid live = ground arith
