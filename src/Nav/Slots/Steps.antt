-- ===== src/Nav/Slots/Steps.antt =====
-- crates/tsk-core/src/workspace_nav.rs: next and previous workspace.
use native.Mathlib.Nat.{mod-eq_of_lt, mod_self}
use native.Mathlib.Decide.{dec_lt}
use hypr_taskspace.Prelude.{
  ℕ, zero, suc, ◌+◌, ◌≤◌, ◌<◌, true, false, Option, none, some, ◌≡◌, refl, arith, ◌%◌, ltb,
  if◌then◌else◌, ◌⊎◌, inl, inr,
}
use hypr_taskspace.Nav.Slots.{next_relative_from, prev_relative_from}

-- Within the slots only the last one wraps.
mod_cases :
    (n c : ℕ) → c ≤ suc n → ((c < suc n) × (c % suc n ≡ c)) ⊎ ((c ≡ suc n) × (c % suc n ≡ 0))
mod_cases n c h = elim (dec_lt c (suc n)) [
  | yes lt ↦ inl (lt, mod-eq_of_lt lt)
  | no ge ↦ let e : c ≡ suc n = omega arith in inr (e, rw e (mod_self (suc n)))
]

-- A wrapping step on from a slot between 1 and the last one is undone by a wrapping step back.
prev-next :
    (last c d : ℕ)
    → 1 ≤ c
    → c ≤ last
    → next_relative_from last (some c) true ≡ some d
    → prev_relative_from last (some d) true ≡ some c
unfolding next_relative_from prev_relative_from
prev-next zero c d low high h = absurd (omega arith)
prev-next (suc n) c d low high h = ground (arith, mod_cases n c high)

-- A wrapping step back from a slot between 1 and the last one is undone by a wrapping step on.
pub next-prev :
    (last c d : ℕ)
    → 1 ≤ c
    → c ≤ last
    → prev_relative_from last (some c) true ≡ some d
    → next_relative_from last (some d) true ≡ some c
unfolding next_relative_from prev_relative_from
next-prev zero c d low high h = absurd (omega arith)
next-prev (suc n) c d low high h = ground (arith, mod_cases n d)

-- With at least one name a wrapping step always gives a slot of the taskspace.
pub next_wrap_bounds :
    (n : ℕ) (current : Option ℕ)
    → (d : ℕ) × (next_relative_from (suc n) current true ≡ some d) × (1 ≤ d) × (d ≤ suc n)
unfolding next_relative_from
next_wrap_bounds n none = (1, refl, omega arith, omega arith)
next_wrap_bounds n (some c) = (c % suc n + 1, refl, omega arith, grind arith)

-- Without wrapping a step is refused exactly at the end, and else moves by one.
pub next_bounded :
    (last c : ℕ)
    → 1 ≤ c
    → c ≤ last
    → next_relative_from last (some c) false ≡ (if ltb c last then some (c + 1) else none)
unfolding next_relative_from
next_bounded zero c low high = absurd (omega arith)
next_bounded (suc n) c low high = refl
