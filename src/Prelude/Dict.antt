-- ===== src/Prelude/Dict.antt =====
-- Rust's `HashMap<String, V>` as a list of entries. The order of iteration, which Rust leaves open,
-- is the order of the list: what is proved holds for every order.
use mathlib.Core.Path.{◌≡◌, refl}
use mathlib.Core.Logic.{◌≢◌, inl, inr}
use mathlib.Core.Bool.{Bool, true, false}
use mathlib.Core.List.{List, [], ◌∷◌}
use mathlib.Core.Option.{Option, none, some}
use native.Mathlib.Omega.{arith}
use hypr_taskspace.Prelude.Tests.{if◌then◌else◌, Bool-cases}
use hypr_taskspace.Prelude.Text.{Text, text_eq, text_eq_iff}

module _ {ℓ} where
  abbrev pub Dict : Type ℓ → Type ℓ
  Dict V = List (Text × V)

module _ {ℓ} {V : Type ℓ} where
  -- `get(key)`
  unfoldable pub get : Dict V → Text → Option V
  get [] k = none
  get ((j, v) ∷ m) k = if text_eq j k then some v else get m k

  -- `insert(key, value)`
  unfoldable pub insert : Dict V → Text → V → Dict V
  insert [] k v = (k, v) ∷ []
  insert ((j, w) ∷ m) k v = if text_eq j k then (j, v) ∷ m else (j, w) ∷ insert m k v

  -- `retain(|key, value| keep)`
  unfoldable pub retain : (Text → V → Bool) → Dict V → Dict V
  retain keep [] = []
  retain keep ((j, v) ∷ m) = if keep j v then (j, v) ∷ retain keep m else retain keep m

  -- `remove(key)`
  unfoldable pub remove : Dict V → Text → Dict V
  remove [] k = []
  remove ((j, v) ∷ m) k = if text_eq j k then remove m k else (j, v) ∷ remove m k

  -- `collect()` from pairs, where a later entry replaces an earlier one
  abbrev pub collect_into : Dict V → List (Text × V) → Dict V
  collect_into m [] = m
  collect_into m ((k, v) ∷ more) = collect_into (insert m k v) more

  abbrev pub keys : Dict V → List Text
  keys [] = []
  keys ((j, v) ∷ m) = j ∷ keys m

  abbrev pub values : Dict V → List V
  values [] = []
  values ((j, v) ∷ m) = v ∷ values m

  -- `contains_key(key)`
  unfoldable pub contains_key : Dict V → Text → Bool
  unfolding get
  contains_key m k = elim (get m k) [ none ↦ false | some v ↦ true ]

  -- `get(key).cloned().unwrap_or(default)`
  abbrev pub get_or : Dict V → Text → V → V
  get_or m k d = elim (get m k) [ none ↦ d | some v ↦ v ]

  pub get-insert :
      (m : Dict V) (k : Text) (v : V) (j : Text)
      → get (insert m k v) j ≡ (if text_eq k j then some v else get m j)
  unfolding get insert
  get-insert [] k v j = refl
  get-insert ((i, w) ∷ m) k v j =
      ground (arith, text_eq_iff k j, text_eq_iff i k, text_eq_iff i j, get-insert m k v j)

  pub get-insert_self : (m : Dict V) (k : Text) (v : V) → get (insert m k v) k ≡ some v
  get-insert_self m k v = rw get-insert (rw ((text_eq_iff k k).1 refl))

  pub get-insert_ne : (m : Dict V) (k j : Text) (v : V) → k ≢ j → get (insert m k v) j ≡ get m j
  get-insert_ne m k j v h = ground (arith, get-insert m k v j, text_eq_iff k j)

  -- A filter on the key alone.
  pub get-retain_key :
      (keep : Text → Bool) (m : Dict V) (k : Text)
      → get (retain (λ j _. keep j) m) k ≡ (if keep k then get m k else none)
  unfolding get retain
  get-retain_key keep [] k = ground arith
  get-retain_key keep ((j, v) ∷ m) k = elim (Bool-cases (text_eq j k)) [
    | inl same ↦
        let e : j ≡ k = (text_eq_iff j k).0 same in
        rw e (ground (arith, text_eq_iff k k, get-retain_key keep m k))
    | inr other ↦ ground (arith, get-retain_key keep m k)
  ]

  pub get-remove :
      (m : Dict V) (k j : Text) → get (remove m k) j ≡ (if text_eq k j then none else get m j)
  unfolding get remove
  get-remove [] k j = ground arith
  get-remove ((i, v) ∷ m) k j =
      ground (arith, text_eq_iff k j, text_eq_iff i k, text_eq_iff i j, get-remove m k j)
