-- ===== src/Registry/Again.antt =====
-- crates/tsk-core/src/registry.rs: what is loaded later, when rows that cannot be read in full are
-- read in another way.
use mathlib.Core.Path.{subst}
use hypr_taskspace.Prelude.{
  some, List, [], ◌∷◌, map, ◌≡◌, refl, sym, ap, ◌∙◌, arith, if◌then◌else◌, contains, All,
  Bool-cases, Option-cases, inl, inr,
}
use hypr_taskspace.Prelude.Text.{Text, Text_eq, text_eq}
use hypr_taskspace.Prelude.Dict.{Dict, get, values}
use hypr_taskspace.Registry.{Table, Codec, load_rows, is_stored, upsert_changed, sync_rows}
use hypr_taskspace.Registry.Laws.{
  find_row, IsLawful, IsCodec, IsKeyedBy, decoded, get-load, load-sync,
}

found_sound :
    {Row : Type 0} (key : Row → Text) (P : Row → Type 0) (k : Text) (row : Row) (rows : List Row)
    → All P rows
    → find_row key k rows ≡ some row
    → P row
found_sound key P k row [] all h = ground arith
found_sound key P k row (first ∷ rows) (good, all) h = elim (Bool-cases (text_eq (key first) k)) [
  | inl own ↦ let same : first ≡ row = ground arith in subst P same good
  | inr other ↦ found_sound key P k row rows all (ground arith)
]

module _ {Row A : Type 0} (t : Table Row) (c : Codec Row A) (key : Row → Text) (IsGood : A → Type 0)
    (lawful : IsLawful t key) (codec : IsCodec c key IsGood) where
  -- What holds of every row that is found.
  abbrev AllFound : (Row → Type 0) → t.Rows → Type 0
  AllFound P r = (k : Text) (row : Row) → find_row key k (t.rows r) ≡ some row → P row

  AllFound-replace :
      (P : Row → Type 0) (new : Row) (r : t.Rows)
      → P new
      → AllFound P r
      → AllFound P (t.replace new r)
  AllFound-replace P new r good all k row h = elim (Bool-cases (text_eq (key new) k)) [
    | inl own ↦
        let same : new ≡ row = ground (arith, lawful.find-replace new r k) in subst P same good
    | inr other ↦ all k row (ground (arith, lawful.find-replace new r k))
  ]

  AllFound-delete :
      (P : Row → Type 0) (keep : List Text) (r : t.Rows)
      → AllFound P r
      → AllFound P (t.delete_absent keep r)
  AllFound-delete P keep r all k row h = elim (Bool-cases (contains keep k)) [
    | inl kept ↦ all k row (ground (arith, lawful.find-delete_absent keep r k))
    | inr gone ↦ absurd (ground (arith, lawful.find-delete_absent keep r k))
  ]

  AllFound-upsert :
      (P : Row → Type 0) (existing : Dict A) (desired : List A) (r : t.Rows)
      → All (λ a. P (c.encode a)) desired
      → AllFound P r
      → AllFound P (upsert_changed t c existing desired r)
  unfolding upsert_changed
  AllFound-upsert P existing [] r new all = all
  AllFound-upsert P existing (a ∷ more) r (good, new) all =
      AllFound-upsert P existing more
        (if is_stored t c existing a then r else t.replace (c.encode a) r) new
        (elim (Bool-cases (is_stored t c existing a)) [
          | inl same ↦ rw same all
          | inr other ↦ rw other (AllFound-replace P (c.encode a) r good all)
        ])

  AllFound-rows : (P : Row → Type 0) (r : t.Rows) → All P (t.rows r) → AllFound P r
  AllFound-rows P r all k row h = found_sound key P k row (t.rows r) all h

  good-agree :
      (decode : Row → A) (again : IsCodec (record c { decode = decode }) key IsGood)
      (stored : List A)
      → All IsGood stored
      → All (λ a. decode (c.encode a) ≡ c.decode (c.encode a)) stored
  good-agree decode again [] good = tt
  good-agree decode again (a ∷ stored) (good_a, good) = (
    again.decode-encode a good_a ∙ sym (codec.decode-encode a good_a),
    good-agree decode again stored good,
  )

  decoded-agree :
      (decode : Row → A) (k : Text) (r : t.Rows)
      → ((j : Text) (row : Row) → find_row key j (t.rows r) ≡ some row → decode row ≡ c.decode row)
      → decoded decode (find_row key k (t.rows r)) ≡ decoded c.decode (find_row key k (t.rows r))
  decoded-agree decode k r agree = elim (Option-cases (find_row key k (t.rows r))) [
    | inl absent ↦ rw absent refl
    | inr (row, found) ↦ rw found (ap (λ a. some a) (agree k row found))
  ]

  -- The same, if the rows are read in another way later, which agrees on the rows that the table held
  -- before.
  pub load_again-sync :
      (decode : Row → A) (again : IsCodec (record c { decode = decode }) key IsGood)
      (desired : Dict A) (r : t.Rows) (k : Text)
      → IsKeyedBy c.id desired
      → All IsGood (values desired)
      → All (λ row. decode row ≡ c.decode row) (t.rows r)
      → get (load_rows t (record c { decode = decode }) (sync_rows t c desired r)) k ≡ get desired k
  unfolding sync_rows
  load_again-sync decode again desired r k keyed good old =
      let stored = values desired in
      let Agrees : Row → Type 0 = λ row. decode row ≡ c.decode row in
      let r1 = upsert_changed t c (load_rows t c r) stored r in
      let r2 = t.delete_absent (map c.id stored) r1 in
      let found0 = AllFound-rows Agrees r old in
      let found1 =
        AllFound-upsert Agrees (load_rows t c r) stored r (good-agree decode again stored good)
          found0 in
      let found2 = AllFound-delete Agrees (map c.id stored) r1 found1 in
      let later = get-load t (record c { decode = decode }) key IsGood lawful again r2 k in
      let first = get-load t c key IsGood lawful codec r2 k in
      let whole = load-sync t c key IsGood lawful codec desired r k keyed good in
      later ∙ (decoded-agree decode k r2 found2 ∙ (sym first ∙ whole))
