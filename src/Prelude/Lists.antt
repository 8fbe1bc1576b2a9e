-- ===== src/Prelude/Lists.antt =====
-- Lists measured and indexed by native numbers, under the library's names, and Rust's iterator
-- operations on them.
use Prim.Native.Nat.{ℕ, zero, suc, ◌≤◌, ◌<◌}
use mathlib.Core.Path.{◌≡◌, refl, sym, ap, ◌∙◌, subst}
use mathlib.Core.Logic.{inl, inr}
use mathlib.Core.Bool.{Bool, true, false, ◌&&◌, ◌||◌}
use mathlib.Core.List.{List, [], ◌∷◌}
use mathlib.Core.Option.{Option, none, some}
use native.Mathlib.Omega.{arith}
use hypr_taskspace.Prelude.Tests.{Eq, ◌==◌, if◌then◌else◌, Bool-cases}

module _ {ℓ} {A : Type ℓ} where
  abbrev pub length : List A → ℕ
  length [] = 0
  length (x ∷ xs) = suc (length xs)

  abbrev pub get_elem? : List A → ℕ → Option A
  get_elem? [] i = none
  get_elem? (x ∷ xs) zero = some x
  get_elem? (x ∷ xs) (suc i) = get_elem? xs i

  abbrev pub take : ℕ → List A → List A
  take zero xs = []
  take (suc n) [] = []
  take (suc n) (x ∷ xs) = x ∷ take n xs

  -- `iter().find(p)`
  abbrev pub find : (A → Bool) → List A → Option A
  find p [] = none
  find p (x ∷ xs) = if p x then some x else find p xs

  -- `iter().filter(p)`
  abbrev pub filter : (A → Bool) → List A → List A
  filter p [] = []
  filter p (x ∷ xs) = if p x then x ∷ filter p xs else filter p xs

  -- `iter().any(p)`
  abbrev pub any : (A → Bool) → List A → Bool
  any p [] = false
  any p (x ∷ xs) = p x || any p xs

  -- `iter().all(p)`
  abbrev pub all : (A → Bool) → List A → Bool
  all p [] = true
  all p (x ∷ xs) = p x && all p xs

  -- `iter().next()`, `first()`
  abbrev pub head? : List A → Option A
  head? [] = none
  head? (x ∷ xs) = some x

  -- `sort_by`: a stable sort, where `before a b` says that `a` may stand before `b`
  abbrev pub insert_sorted : (A → A → Bool) → A → List A → List A
  insert_sorted before a [] = a ∷ []
  insert_sorted before a (x ∷ xs) = if before a x then a ∷ x ∷ xs else x ∷ insert_sorted before a xs

  abbrev pub sort_by : (A → A → Bool) → List A → List A
  sort_by before [] = []
  sort_by before (x ∷ xs) = insert_sorted before x (sort_by before xs)

  -- Membership as data: which element it is.
  pub data Member (a : A) : List A → Type ℓ where
    here : {x : A} {xs : List A} → a ≡ x → Member a (x ∷ xs)
    there : {x : A} {xs : List A} → Member a xs → Member a (x ∷ xs)

  pub get_elem?-lt : (xs : List A) (i : ℕ) → i < length xs → (a : A) × (get_elem? xs i ≡ some a)
  get_elem?-lt [] i h = elim h [ ]
  get_elem?-lt (x ∷ xs) zero h = (x, refl)
  get_elem?-lt (x ∷ xs) (suc i) h = get_elem?-lt xs i (omega arith)

  pub get_elem?-ge : (xs : List A) (i : ℕ) → length xs ≤ i → get_elem? xs i ≡ none
  get_elem?-ge [] i h = refl
  get_elem?-ge (x ∷ xs) zero h = absurd (omega arith)
  get_elem?-ge (x ∷ xs) (suc i) h = get_elem?-ge xs i (omega arith)

  -- Two places hold two elements.
  abbrev pub Distinct : List A → Type ℓ
  Distinct [] = Unit
  Distinct (x ∷ xs) = (¬ (Member x xs)) × Distinct xs

module _ {ℓ κ} {A : Type ℓ} (P : A → Type κ) where
  abbrev pub All : List A → Type κ
  All [] = Unit
  All (x ∷ xs) = P x × All xs

module _ {ℓ κ} {A : Type ℓ} (P : A → Type κ) where
  pub All-Member : {a : A} {xs : List A} → Member a xs → All P xs → P a
  All-Member (here {x} e) (p, h) = subst P (sym e) p
  All-Member (there m) (p, h) = All-Member m h

module _ {ℓ} {A : Type ℓ} where
  pub find_sound :
      (p : A → Bool) (xs : List A) (a : A) → find p xs ≡ some a → Member a xs × (p a ≡ true)
  find_sound p [] a h = cc
  find_sound p (x ∷ xs) a h = elim (Bool-cases (p x)) [
    | inl hit ↦ (here (ground arith), ground arith)
    | inr miss ↦ let (m, holds) = find_sound p xs a (rw miss at h) in (there m, holds)
  ]

  pub find_complete :
      (p : A → Bool) {a : A} {xs : List A}
      → Member a xs
      → p a ≡ true
      → (b : A) × (find p xs ≡ some b)
  find_complete p (here {x} e) h = (x, rw (ap p (sym e) ∙ h))
  find_complete p (there {x} m) h = elim (Bool-cases (p x)) [
    | inl hit ↦ (x, rw hit)
    | inr miss ↦ let (b, e) = find_complete p m h in (b, rw (miss, e))
  ]

module _ {ℓ} {A : Type ℓ} ⦃e : Eq A⦄ where
  -- `iter().any(|x| x == a)`, `contains(&a)`
  abbrev pub contains : List A → A → Bool
  contains [] a = false
  contains (x ∷ xs) a = x == a || contains xs a

  -- `iter().position(|x| x == a)`
  abbrev pub position : List A → A → Option ℕ
  position [] a = none
  position (x ∷ xs) a =
      if x == a then some 0 else elim (position xs a) [ none ↦ none | some i ↦ some (suc i) ]

  pub contains_sound : (xs : List A) (a : A) → contains xs a ≡ true → Member a xs
  contains_sound [] a h = cc
  contains_sound (x ∷ xs) a h = elim (Bool-cases (x == a)) [
    | inl same ↦ here (sym ((e.equals_iff x a).0 same))
    | inr other ↦ there (contains_sound xs a (rw other at h))
  ]

  pub contains_complete : {a : A} {xs : List A} → Member a xs → contains xs a ≡ true
  contains_complete {a} (here {x} p) = rw ((e.equals_iff x a).1 (sym p))
  contains_complete {a} (there {x} {xs} m) = ground (arith, contains_complete m)

  pub position_sound :
      (xs : List A) (a : A) (i : ℕ) → position xs a ≡ some i → get_elem? xs i ≡ some a
  position_sound [] a i h = cc
  position_sound (x ∷ xs) a zero h = ground (arith, e.equals_iff x a)
  position_sound (x ∷ xs) a (suc i) h = ground (arith, e.equals_iff x a, position_sound xs a i)

  pub position-none : (xs : List A) (a : A) → ¬ (Member a xs) → position xs a ≡ none
  position-none [] a h = refl
  position-none (x ∷ xs) a h = elim (Bool-cases (x == a)) [
    | inl same ↦ absurd (h (here (sym ((e.equals_iff x a).0 same))))
    | inr other ↦ rw other (ground (arith, position-none xs a (λ m. h (there m))))
  ]

  pub position-Member : {a : A} {xs : List A} → Member a xs → (i : ℕ) × (position xs a ≡ some i)
  position-Member {a} (here {x} p) = (0, rw ((e.equals_iff x a).1 (sym p)) refl)
  position-Member {a} (there {x} {xs} m) = elim (Bool-cases (x == a)) [
    | inl same ↦ (0, rw same refl)
    | inr other ↦ let (i, found) = position-Member m in (suc i, rw other (rw found refl))
  ]

  pub get_elem?-Member : (xs : List A) (i : ℕ) (a : A) → get_elem? xs i ≡ some a → Member a xs
  get_elem?-Member [] i a h = cc
  get_elem?-Member (x ∷ xs) zero a h = here (cc)
  get_elem?-Member (x ∷ xs) (suc i) a h = there (get_elem?-Member xs i a h)

  pub position-get_elem? :
      (xs : List A) (i : ℕ) (a : A) → Distinct xs → get_elem? xs i ≡ some a → position xs a ≡ some i
  position-get_elem? [] i a d h = cc
  position-get_elem? (x ∷ xs) zero a d h = ground (arith, e.equals_iff x a)
  position-get_elem? (x ∷ xs) (suc i) a (fresh, d) h = elim (Bool-cases (x == a)) [
    | inl same ↦ absurd (fresh (rw ((e.equals_iff x a).0 same) (get_elem?-Member xs i a h)))
    | inr other ↦ rw (other, position-get_elem? xs i a d h)
  ]
