-- ===== src/TaskIds/Lookup.antt =====
-- crates/tsk-core/src/task_ids.rs: the short id that is displayed for a task finds that task again.
use mathlib.Core.Path.{subst}
use hypr_taskspace.Prelude.{
  ℕ, zero, suc, ◌≤◌, ◌∷◌, [], ◌++◌, List, map, Bool, true, false, not, ◌&&◌, none, some, ◌≡◌, refl,
  sym, ap, ◌∙◌, arith, take, length, all, filter, find, All, Bool-cases, inl, inr, ◌⊎◌,
}
use hypr_taskspace.Prelude.Text.{
  Text, starts_with, to_ascii_lowercase, lower_char, eq_ignore_ascii_case, text_eq_iff,
}
use hypr_taskspace.Prelude.Dict.{get, values}
use hypr_taskspace.Models.{SessionState, Task, is_archived}
use hypr_taskspace.TaskIds.{
  is_unique_at, unique_id_prefix, other_ids, is_nil, active_task_ids, short_task_id, lookup_task,
  found, pick_match, prefix_matches,
}
use hypr_taskspace.TaskIds.Prefix.{first_unique_lem, take-length}

abbrev live : List Task → List Task
live = filter λ t. not (is_archived t.status)

abbrev others_of : Text → List Task → List Text
others_of id xs = other_ids id (map (λ t. t.id) (live xs))

abbrev matches_of : Text → List Task → List Task
matches_of q xs = filter (λ t. starts_with q (to_ascii_lowercase t.id)) (live xs)

pub starts_no : Text → List Text → Bool
starts_no q others = all (λ other. not (starts_with q other)) others

-- Tasks whose ids all differ from `id` have no match if `q` starts none of the others.
matches_of-others :
    (id q : Text) (xs : List Task)
    → All (λ u. eq_ignore_ascii_case u.id id ≡ false) xs
    → starts_no q (others_of id xs) ≡ true
    → matches_of q xs ≡ []
unfolding starts_no other_ids
matches_of-others id q [] h k = refl
matches_of-others id q (u ∷ xs) (p, h) k = ground (arith, matches_of-others id q xs h)

matches_of-append :
    (q : Text) (xs ys : List Task) → matches_of q (xs ++ ys) ≡ matches_of q xs ++ matches_of q ys
matches_of-append q [] ys = refl
matches_of-append q (u ∷ xs) ys = ground (arith, matches_of-append q xs ys)

starts_no-append :
    (id q : Text) (xs ys : List Task)
    → starts_no q (others_of id (xs ++ ys))
      ≡ (starts_no q (others_of id xs) && starts_no q (others_of id ys))
unfolding starts_no other_ids
starts_no-append id q [] ys = refl
starts_no-append id q (u ∷ xs) ys = ground (arith, starts_no-append id q xs ys)

eq_ignore_case_refl : (s : Text) → eq_ignore_ascii_case s s ≡ true
eq_ignore_case_refl s = (text_eq_iff (to_ascii_lowercase s) (to_ascii_lowercase s)).1 refl

starts_with-take :
    (n : ℕ) (s : Text) → starts_with (to_ascii_lowercase (take n s)) (to_ascii_lowercase s) ≡ true
starts_with-take zero s = refl
starts_with-take (suc n) [] = refl
starts_with-take (suc n) (c ∷ s) = ground (arith, starts_with-take n s)

lower-take : (n : ℕ) (s : Text) → to_ascii_lowercase (take n s) ≡ take n (to_ascii_lowercase s)
lower-take zero s = refl
lower-take (suc n) [] = refl
lower-take (suc n) (c ∷ s) = ap (λ r. lower_char c ∷ r) (lower-take n s)

-- The table holds `t` at its id, and no other task has this id, whatever the case of its letters.
pub record Holds (state : SessionState) (t : Task) (before after : List Task) : Type 0 where
  pub keyed : get state.tasks t.id ≡ some t
  pub listed : values state.tasks ≡ before ++ t ∷ after
  pub differs : All (λ u. eq_ignore_ascii_case u.id t.id ≡ false) before
  pub differs_after : All (λ u. eq_ignore_ascii_case u.id t.id ≡ false) after
  pub is_live : is_archived t.status ≡ false

self_match :
    (t : Task) (after : List Task) (n : ℕ)
    → is_archived t.status ≡ false
    → matches_of (take n (to_ascii_lowercase t.id)) after ≡ []
    → matches_of (take n (to_ascii_lowercase t.id)) (t ∷ after) ≡ t ∷ []
self_match t after n alive none_after =
    let own = rw (lower-take n t.id) at (starts_with-take n t.id) in ground arith

skip_self :
    (t : Task) (after : List Task) (q : Text)
    → starts_no q (others_of t.id (t ∷ after)) ≡ true
    → starts_no q (others_of t.id after) ≡ true
unfolding starts_no other_ids
skip_self t after q h = ground (arith, eq_ignore_case_refl t.id)

and-left : {a : Bool} (b : Bool) → (a && b) ≡ true → a ≡ true
and-left {a} b h = ground arith

and-right : (a : Bool) {b : Bool} → (a && b) ≡ true → b ≡ true
and-right a {b} h = ground arith

-- A prefix of the id of a live task that starts no other live id matches this task alone.
one_match :
    (state : SessionState) (t : Task) (before after : List Task) (n : ℕ)
    → Holds state t before after
    → starts_no (take n (to_ascii_lowercase t.id)) (others_of t.id (values state.tasks)) ≡ true
    → prefix_matches state (take n t.id) ≡ t ∷ []
unfolding prefix_matches
one_match state t before after n w h =
    let q = take n (to_ascii_lowercase t.id) in
    let all_others = subst (λ xs. starts_no q (others_of t.id xs) ≡ true) w.listed h in
    let split = sym (starts_no-append t.id q before (t ∷ after)) ∙ all_others in
    let none_before = matches_of-others t.id q before w.differs (and-left _ split) in
    let none_after =
      matches_of-others t.id q after w.differs_after (skip_self t after q (and-right _ split)) in
    rw (lower-take n t.id, w.listed)
      (matches_of-append q before (t ∷ after)
        ∙ ap (λ r. r ++ matches_of q (t ∷ after)) none_before
        ∙ self_match t after n w.is_live none_after)

take-ge : (n : ℕ) (s : Text) → length s ≤ n → take n s ≡ s
take-ge zero [] h = refl
take-ge zero (c ∷ s) h = absurd (omega arith)
take-ge (suc n) [] h = refl
take-ge (suc n) (c ∷ s) h = ap (λ r. c ∷ r) (take-ge n s (omega arith))

-- The displayed id is a prefix of the id that starts no other live id, or the whole id.
pub unique_prefix_form :
    (id : Text) (ids : List Text)
    → (n : ℕ) × (unique_id_prefix id ids ≡ take n id)
      × ((starts_no (take n (to_ascii_lowercase id)) (other_ids id ids) ≡ true)
          ⊎ (unique_id_prefix id ids ≡ id))
unfolding unique_id_prefix starts_no is_unique_at
unique_prefix_form id ids = elim (Bool-cases (is_nil (other_ids id ids))) [
  | inl alone ↦ (length id, rw alone (sym (take-length id)), inr (rw alone))
  | inr crowd ↦
      let (n, e, above, ok, least) =
        first_unique_lem id (other_ids id ids) 1 (length id) (omega arith) in
      elim ok [
        | inl unique ↦ (n, rw (crowd, e), inl unique)
        | inr long ↦ (n, rw (crowd, e), inr (rw (crowd, e) (take-ge n id long)))
      ]
]

lookup-one :
    (state : SessionState) (t : Task) (typed : Text)
    → get state.tasks typed ≡ none
    → find (λ u. eq_ignore_ascii_case u.name typed) (values state.tasks) ≡ none
    → prefix_matches state typed ≡ t ∷ []
    → lookup_task state typed ≡ found t
unfolding lookup_task pick_match
lookup-one state t typed no_id no_name one = ground arith

lookup-id :
    (state : SessionState) (t : Task) (typed : Text)
    → get state.tasks typed ≡ some t
    → lookup_task state typed ≡ found t
unfolding lookup_task
lookup-id state t typed e = ground arith

-- The short id of a live task finds this task again. Conditions: the table holds the task under
-- its id, no other task has the id up to the case of letters, no task is named like the short id,
-- and the short id is no key of the table unless it is the whole id.
pub lookup-short_task_id :
    (state : SessionState) (t : Task) (before after : List Task)
    → Holds state t before after
    → find (λ u. eq_ignore_ascii_case u.name (short_task_id state t.id)) (values state.tasks) ≡ none
    → (get state.tasks (short_task_id state t.id) ≡ none) ⊎ (short_task_id state t.id ≡ t.id)
    → lookup_task state (short_task_id state t.id) ≡ found t
unfolding short_task_id active_task_ids
lookup-short_task_id state t before after w unnamed (inr whole) =
    lookup-id state t _ (rw whole w.keyed)
lookup-short_task_id state t before after w unnamed (inl free) =
    let (n, e, ok) = unique_prefix_form t.id (map (λ u. u.id) (live (values state.tasks))) in
    elim ok [
      | inr whole ↦ lookup-id state t _ (rw whole w.keyed)
      | inl alone ↦
          lookup-one state t _ free unnamed (rw e (one_match state t before after n w alone))
    ]
