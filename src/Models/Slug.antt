-- ===== src/Models/Slug.antt =====
-- crates/tsk-core/src/models.rs: `slugify`. `to_lowercase` is Rust's, of which nothing is assumed.
use hypr_taskspace.Prelude.{
  ℕ, Bool, true, false, ◌&&◌, ◌||◌, [], ◌∷◌, map, ◌≡◌, ◌≢◌, refl, arith, leb, All, Option, none,
  some, head?, if◌then◌else◌, Bool-cases, inl, inr, ◌==◌, ℕ_eq,
}
use hypr_taskspace.Prelude.Text.{Text, codes, is_empty}

unfoldable pub is_ascii_alphanumeric : ℕ → Bool
is_ascii_alphanumeric c =
    (leb b'a' c && leb c b'z') || (leb b'A' c && leb c b'Z') || (leb b'0' c && leb c b'9')

abbrev pub dash_other : ℕ → ℕ
dash_other c = if is_ascii_alphanumeric c then c else b'-'

-- `trim_matches('-')`, one end after the other
unfoldable pub trim_start : Text → Text
trim_start [] = []
trim_start (c ∷ s) = if c == b'-' then trim_start s else c ∷ s

unfoldable pub trim_end : Text → Text
trim_end [] = []
trim_end (c ∷ s) = let rest = trim_end s in if is_empty rest && (c == b'-') then [] else c ∷ rest

unfoldable pub slugify : (Text → Text) → Text → Text
unfolding is_ascii_alphanumeric trim_start trim_end
slugify to_lowercase name =
    let trimmed = trim_end (trim_start (map dash_other (to_lowercase name))) in
    if is_empty trimmed then codes "task" else trimmed

abbrev pub is_slug_char : ℕ → Bool
is_slug_char c = is_ascii_alphanumeric c || (c == b'-')

-- The last character.
abbrev pub last? : Text → Option ℕ
last? [] = none
last? (c ∷ []) = some c
last? (c ∷ d ∷ s) = last? (d ∷ s)

abbrev AllSlug : Text → Type 0
AllSlug s = All (λ c. is_slug_char c ≡ true) s

dash_other-slug : (s : Text) → AllSlug (map dash_other s)
dash_other-slug [] = tt
dash_other-slug (c ∷ s) = (ground arith, dash_other-slug s)

trim_start-slug : (s : Text) → AllSlug s → AllSlug (trim_start s)
unfolding trim_start
trim_start-slug [] h = tt
trim_start-slug (c ∷ s) (p, h) = elim (Bool-cases (c == b'-')) [
  | inl dash ↦ rw dash (trim_start-slug s h)
  | inr other ↦ rw other (p, h)
]

trim_end-slug : (s : Text) → AllSlug s → AllSlug (trim_end s)
unfolding trim_end
trim_end-slug [] h = tt
trim_end-slug (c ∷ s) (p, h) = elim (Bool-cases (is_empty (trim_end s) && (c == b'-'))) [
  | inl cut ↦ rw cut tt
  | inr stays ↦ rw stays (p, trim_end-slug s h)
]

trim_start-head : (s : Text) → head? (trim_start s) ≢ some b'-'
unfolding trim_start
trim_start-head [] h = cc
trim_start-head (c ∷ s) h = ground (arith, trim_start-head s)

trim_end-head : (s : Text) → head? s ≢ some b'-' → head? (trim_end s) ≢ some b'-'
unfolding trim_end
trim_end-head [] ok h = cc
trim_end-head (c ∷ s) ok h = ground arith

last?-cons : (c : ℕ) (s : Text) → last? (c ∷ s) ≡ (if is_empty s then some c else last? s)
last?-cons c [] = refl
last?-cons c (d ∷ s) = refl

trim_end-last : (s : Text) → last? (trim_end s) ≢ some b'-'
unfolding trim_end
trim_end-last [] h = cc
trim_end-last (c ∷ s) h = ground (arith, trim_end-last s, last?-cons c (trim_end s))

-- A slug is not empty, has only ASCII letters, digits and dashes, and neither starts nor ends with
-- a dash, whatever to_lowercase does.
pub slugify-form :
    (to_lowercase : Text → Text) (name : Text)
    → (is_empty (slugify to_lowercase name) ≡ false)
      × All (λ c. is_slug_char c ≡ true) (slugify to_lowercase name)
      × (head? (slugify to_lowercase name) ≢ some b'-')
      × (last? (slugify to_lowercase name) ≢ some b'-')
unfolding slugify
slugify-form to_lowercase name =
    let dashed = map dash_other (to_lowercase name) in
    let trimmed = trim_end (trim_start dashed) in
    elim (Bool-cases (is_empty trimmed)) [
      | inl nothing ↦ rw nothing (refl, (refl, (refl, (refl, (refl, tt)))), λ h. cc, λ h. cc)
      | inr something ↦ rw something (
        something,
        trim_end-slug (trim_start dashed)
            (trim_start-slug dashed (dash_other-slug (to_lowercase name))),
        trim_end-head (trim_start dashed) (trim_start-head dashed),
        trim_end-last (trim_start dashed),
      )
    ]
