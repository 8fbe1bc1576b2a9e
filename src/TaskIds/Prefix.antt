-- ===== src/TaskIds/Prefix.antt =====
-- crates/tsk-core/src/task_ids.rs: the short id is a prefix of the id and starts no other one.
use native.Mathlib.Nat.{le_refl}
use hypr_taskspace.Prelude.{
  ℕ, zero, suc, ◌+◌, ◌≤◌, ◌<◌, ◌∷◌, [], List, true, false, ◌≡◌, refl, sym, ap, arith, take, length,
  Bool-cases, inl, inr, ◌⊎◌,
}
use hypr_taskspace.Prelude.Text.{Text, to_ascii_lowercase}
use hypr_taskspace.TaskIds.{is_unique_at, first_unique}

pub take-length {ℓ} : {A : Type ℓ} (xs : List A) → take (length xs) xs ≡ xs
take-length [] = refl
take-length (x ∷ xs) = ap (λ r. x ∷ r) (take-length xs)

-- What the search returns: a prefix that starts none of the others, and with any shorter one, from
-- where the search began, starting some other; or, after the last round, the whole id.
pub first_unique_lem :
    (id : Text) (others : List Text) (len rounds : ℕ)
    → len + rounds ≡ length id + 1
    → (n : ℕ) × (first_unique id (to_ascii_lowercase id) others len rounds ≡ take n id)
      × (len ≤ n + 1)
      × ((is_unique_at (to_ascii_lowercase id) others n ≡ true) ⊎ (length id ≤ n))
      × ((m : ℕ) → len ≤ m → m < n → is_unique_at (to_ascii_lowercase id) others m ≡ false)
unfolding first_unique
first_unique_lem id others len zero h = (
  length id,
  sym (take-length id),
  omega arith,
  inr (le_refl _),
  λ m low high. absurd (omega arith),
)
first_unique_lem id others len (suc rounds) h =
    elim (Bool-cases (is_unique_at (to_ascii_lowercase id) others len)) [
      | inl yes_at ↦ (len, rw yes_at, omega arith, inl yes_at, λ m low high. absurd (omega arith))
      | inr no_at ↦
          let (n, e, above, ok, least) =
            first_unique_lem id others (suc len) rounds (omega arith) in
          (n, rw (no_at, e), omega arith, ok, λ m low high. ground (arith, least m))
    ]
