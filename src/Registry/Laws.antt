-- ===== src/Registry/Laws.antt =====
-- crates/tsk-core/src/registry.rs: what is loaded after a map was stored.
use hypr_taskspace.Prelude.{
  true, false, Option, none, some, List, [], ◌∷◌, map, ◌≡◌, refl, sym, arith, if◌then◌else◌, find,
  contains, All, Bool-cases, Option-cases, inl, inr,
}
use hypr_taskspace.Prelude.Text.{Text, Text_eq, text_eq, text_eq_iff}
use hypr_taskspace.Prelude.Dict.{Dict, get, insert, values, collect_into, get-insert}
use hypr_taskspace.Registry.{Table, Codec, load_rows, is_stored, upsert_changed, sync_rows}

abbrev pub find_row : {Row : Type 0} → (Row → Text) → Text → List Row → Option Row
find_row key k rows = find (λ row. text_eq (key row) k) rows

-- No key stands twice.
abbrev pub HasKey : {Row : Type 0} → (Row → Text) → List Row → Type 0
HasKey key [] = Unit {0}
HasKey key (row ∷ rows) = (find_row key (key row) rows ≡ none) × HasKey key rows

-- What the program relies on of a table whose primary key is a column.
pub record IsLawful {Row : Type 0} (t : Table Row) (key : Row → Text) : Type 0 where
  pub distinct : (r : t.Rows) → HasKey key (t.rows r)
  pub find-replace :
      (row : Row) (r : t.Rows) (k : Text)
      → find_row key k (t.rows (t.replace row r))
        ≡ (if text_eq (key row) k then some row else find_row key k (t.rows r))
  pub find-delete_absent :
      (keep : List Text) (r : t.Rows) (k : Text)
      → find_row key k (t.rows (t.delete_absent keep r))
        ≡ (if contains keep k then find_row key k (t.rows r) else none)

-- A value that is good is the one that its row is read as.
pub record IsCodec {Row A : Type 0} (c : Codec Row A) (key : Row → Text) (IsGood : A → Type 0)
    : Type 0 where
  pub decode-encode : (a : A) → IsGood a → c.decode (c.encode a) ≡ a
  pub key-encode : (a : A) → key (c.encode a) ≡ c.id a
  pub id-decode : (row : Row) → c.id (c.decode row) ≡ key row
  pub same_sound : (a b : A) → c.same a b ≡ true → a ≡ b

-- Every value stands under its id, once.
abbrev pub IsKeyedBy : {A : Type 0} → (A → Text) → Dict A → Type 0
IsKeyedBy id [] = Unit {0}
IsKeyedBy id ((k, a) ∷ m) = (id a ≡ k) × (get m k ≡ none) × IsKeyedBy id m

abbrev pub decoded : {Row A : Type 0} → (Row → A) → Option Row → Option A
decoded decode none = none
decoded decode (some row) = some (decode row)

module _ {Row A : Type 0} (t : Table Row) (c : Codec Row A) (key : Row → Text) (IsGood : A → Type 0)
    (lawful : IsLawful t key) (codec : IsCodec c key IsGood) where
  abbrev entry_of : Row → Text × A
  entry_of row = (c.id (c.decode row), c.decode row)

  abbrev find_value : Text → List A → Option A
  find_value k stored = find (λ a. text_eq (c.id a) k) stored

  abbrev Unique : List A → Type 0
  Unique [] = Unit {0}
  Unique (a ∷ more) = (find_value (c.id a) more ≡ none) × Unique more

  -- The value that is read for a key.
  abbrev got : Text → t.Rows → Option A
  got k r = decoded c.decode (find_row key k (t.rows r))

  get-collect :
      (rows : List Row) (m : Dict A) (k : Text)
      → HasKey key rows
      → get (collect_into m (map entry_of rows)) k
        ≡ elim (find_row key k rows) [ none ↦ get m k | some row ↦ some (c.decode row) ]
  get-collect [] m k d = refl
  get-collect (row ∷ rows) m k (fresh, d) =
      let a = c.decode row in
      let more = get-collect rows (insert m (c.id a) a) k d in
      ground (
        arith,
        more,
        get-insert m (c.id a) a k,
        codec.id-decode row,
        text_eq_iff (key row) k,
        text_eq_iff (c.id a) k,
      )

  pub get-load : (r : t.Rows) (k : Text) → get (load_rows t c r) k ≡ got k r
  unfolding load_rows get
  get-load r k = elim (Option-cases (find_row key k (t.rows r))) [
    | inl absent ↦ ground (arith, get-collect (t.rows r) [] k (lawful.distinct r))
    | inr (row, found) ↦ ground (arith, get-collect (t.rows r) [] k (lawful.distinct r))
  ]

  -- The table after one round of the loop.
  abbrev written : Dict A → A → t.Rows → t.Rows
  written existing a r = if is_stored t c existing a then r else t.replace (c.encode a) r

  got-replace :
      (a : A) (r : t.Rows) (k : Text)
      → IsGood a
      → got k (t.replace (c.encode a) r) ≡ (if text_eq (c.id a) k then some a else got k r)
  got-replace a r k good = rw (lawful.find-replace (c.encode a) r k) (
      rw (codec.key-encode a) (elim (Bool-cases (text_eq (c.id a) k)) [
        | inl own ↦ rw own (rw (codec.decode-encode a good) refl)
        | inr other ↦ rw other refl
      ]))

  got-written :
      (existing : Dict A) (a : A) (r : t.Rows) (k : Text)
      → IsGood a
      → got (c.id a) r ≡ get existing (c.id a)
      → got k (written existing a r) ≡ (if text_eq (c.id a) k then some a else got k r)
  unfolding is_stored
  got-written existing a r k good seen = elim (Option-cases (get existing (c.id a))) [
    | inl absent ↦ ground (arith, got-replace a r k good)
    | inr (b, found) ↦ elim (Bool-cases (c.same b a)) [
      | inl same ↦ let e = codec.same_sound b a same in ground (arith, text_eq_iff (c.id a) k)
      | inr other ↦ ground (arith, got-replace a r k good)
    ]
  ]

  -- The values that are still to come are not touched by the round.
  seen-written :
      (existing : Dict A) (a : A) (r : t.Rows) (more : List A)
      → IsGood a
      → got (c.id a) r ≡ get existing (c.id a)
      → find_value (c.id a) more ≡ none
      → All (λ b. got (c.id b) r ≡ get existing (c.id b)) more
      → All (λ b. got (c.id b) (written existing a r) ≡ get existing (c.id b)) more
  seen-written existing a r [] good seen fresh later = tt
  seen-written existing a r (b ∷ more) good seen fresh (seen_b, later) = (
    ground (
      arith,
      got-written existing a r (c.id b) good seen,
      text_eq_iff (c.id a) (c.id b),
      text_eq_iff (c.id b) (c.id a),
    ),
    seen-written existing a r more good seen (ground arith) later,
  )

  -- What the loop leaves under a key: the value that was to be stored, or what was there.
  get-upsert :
      (existing : Dict A) (desired : List A) (r : t.Rows) (k : Text)
      → All IsGood desired
      → Unique desired
      → All (λ a. got (c.id a) r ≡ get existing (c.id a)) desired
      → got k (upsert_changed t c existing desired r)
        ≡ elim (find_value k desired) [ none ↦ got k r | some a ↦ some a ]
  unfolding upsert_changed
  get-upsert existing [] r k good unique seen = refl
  get-upsert existing (a ∷ more) r k (good_a, good) (fresh, unique) (seen_a, seen) =
      let r1 = written existing a r in
      let seen1 = seen-written existing a r more good_a seen_a fresh seen in
      ground (
        arith,
        get-upsert existing more r1 k good unique seen1,
        got-written existing a r k good_a seen_a,
        text_eq_iff (c.id a) k,
      )

  find_value-values : (m : Dict A) (k : Text) → IsKeyedBy c.id m → find_value k (values m) ≡ get m k
  unfolding get
  find_value-values [] k keyed = refl
  find_value-values ((j, a) ∷ m) k (same, fresh, keyed) =
      ground (arith, find_value-values m k keyed)

  Unique-values : (m : Dict A) → IsKeyedBy c.id m → Unique (values m)
  Unique-values [] keyed = tt
  Unique-values ((j, a) ∷ m) (same, fresh, keyed) =
      (ground (arith, find_value-values m (c.id a) keyed), Unique-values m keyed)

  seen-load :
      (stored : List A) (r : t.Rows)
      → All (λ a. got (c.id a) r ≡ get (load_rows t c r) (c.id a)) stored
  seen-load [] r = tt
  seen-load (a ∷ more) r = (sym (get-load r (c.id a)), seen-load more r)

  contains-ids :
      (stored : List A) (k : Text)
      → contains (map c.id stored) k ≡ elim (find_value k stored) [ none ↦ false | some a ↦ true ]
  contains-ids [] k = refl
  contains-ids (a ∷ more) k = ground (arith, contains-ids more k)

  -- A map that is stored in a table, over whatever the table held before, is the one that is loaded
  -- from it: under every key the same value, or none. Conditions: every value stands under its id,
  -- once, and is one that its row is read as.
  pub load-sync :
      (desired : Dict A) (r : t.Rows) (k : Text)
      → IsKeyedBy c.id desired
      → All IsGood (values desired)
      → get (load_rows t c (sync_rows t c desired r)) k ≡ get desired k
  unfolding sync_rows
  load-sync desired r k keyed good =
      let existing = load_rows t c r in
      let stored = values desired in
      let r1 = upsert_changed t c existing stored r in
      let upserted =
        get-upsert existing stored r k good (Unique-values desired keyed) (seen-load stored r) in
      let loaded = get-load (t.delete_absent (map c.id stored) r1) k in
      let deleted = lawful.find-delete_absent (map c.id stored) r1 k in
      let kept = contains-ids stored k in
      let value = find_value-values desired k keyed in
      elim (Option-cases (find_value k stored)) [
        | inl absent ↦ ground (arith, upserted, loaded, deleted, kept, value)
        | inr (a, found) ↦ ground (arith, upserted, loaded, deleted, kept, value)
      ]
