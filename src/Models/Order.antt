-- ===== src/Models/Order.antt =====
-- crates/tsk-core/src/models.rs: the orders in which tasks are listed. `to_lowercase` is Rust's, of
-- which nothing is assumed.
use hypr_taskspace.Prelude.{
  ℕ, [], ◌∷◌, ◌≡◌, ◌≢◌, ◌⊎◌, refl, sym, ap, arith, ltb, ℕ_eq, if◌then◌else◌,
}
use hypr_taskspace.Prelude.Text.{Text}
use hypr_taskspace.Models.{Task}

pub data Ordering : Type 0 where
  less equal greater : Ordering

abbrev pub reverse : Ordering → Ordering
reverse less = greater
reverse equal = equal
reverse greater = less

abbrev pub then_with : Ordering → Ordering → Ordering
then_with less o = less
then_with equal o = o
then_with greater o = greater

abbrev pub cmp_nat : ℕ → ℕ → Ordering
cmp_nat a b = if ltb a b then less else if ltb b a then greater else equal

-- `str`'s order
unfoldable pub cmp_text : Text → Text → Ordering
cmp_text [] [] = equal
cmp_text [] (d ∷ t) = less
cmp_text (c ∷ s) [] = greater
cmp_text (c ∷ s) (d ∷ t) = then_with (cmp_nat c d) (cmp_text s t)

-- What the two orders share: the time stamps newest first, then the names, then the ids.
unfoldable pub newest_first : (Text → Text) → ℕ → ℕ → Task → Task → Ordering
unfolding cmp_text
newest_first to_lowercase at other_at a b =
    then_with (cmp_nat other_at at)
      (then_with (cmp_text (to_lowercase a.name) (to_lowercase b.name)) (cmp_text a.id b.id))

unfoldable pub cmp_list_order : (Text → Text) → Task → Task → Ordering
unfolding newest_first
cmp_list_order to_lowercase a b = newest_first to_lowercase a.listed_at b.listed_at a b

unfoldable pub cmp_access_order : (Text → Text) → Task → Task → Ordering
unfolding newest_first
cmp_access_order to_lowercase a b = newest_first to_lowercase a.last_active_at b.last_active_at a b

then_with-reverse :
    (o p o' p' : Ordering)
    → o' ≡ reverse o
    → p' ≡ reverse p
    → then_with o' p' ≡ reverse (then_with o p)
then_with-reverse o p o' p' e f = ground arith

then_with-equal : (o p : Ordering) → then_with o p ≡ equal → (o ≡ equal) × (p ≡ equal)
then_with-equal less p h = ground arith
then_with-equal equal p h = (refl, h)
then_with-equal greater p h = ground arith

cmp_nat-reverse : (a b : ℕ) → cmp_nat b a ≡ reverse (cmp_nat a b)
cmp_nat-reverse a b = ground arith

cmp_text-reverse : (s t : Text) → cmp_text t s ≡ reverse (cmp_text s t)
unfolding cmp_text
cmp_text-reverse [] [] = refl
cmp_text-reverse [] (d ∷ t) = refl
cmp_text-reverse (c ∷ s) [] = refl
cmp_text-reverse (c ∷ s) (d ∷ t) =
    then_with-reverse (cmp_nat c d) (cmp_text s t) (cmp_nat d c) (cmp_text t s)
      (cmp_nat-reverse c d) (cmp_text-reverse s t)

cmp_text-equal : (s t : Text) → cmp_text s t ≡ equal → s ≡ t
unfolding cmp_text
cmp_text-equal [] [] h = refl
cmp_text-equal [] (d ∷ t) h = ground arith
cmp_text-equal (c ∷ s) [] h = ground arith
cmp_text-equal (c ∷ s) (d ∷ t) h =
    let (heads, tails) = then_with-equal (cmp_nat c d) (cmp_text s t) h in
    ground (arith, cmp_text-equal s t tails)

-- A chain of two comparisons by a key each is transitive if each key's comparison is.
cmp_nat_trans : (a b c : ℕ) → cmp_nat a b ≡ less → cmp_nat b c ≡ less → cmp_nat a c ≡ less
cmp_nat_trans a b c h k = ground arith

cmp_text_trans : (s t u : Text) → cmp_text s t ≡ less → cmp_text t u ≡ less → cmp_text s u ≡ less
unfolding cmp_text
cmp_text_trans [] [] u h k = ground arith
cmp_text_trans [] (d ∷ t) [] h k = ground arith
cmp_text_trans [] (d ∷ t) (e ∷ u) h k = refl
cmp_text_trans (c ∷ s) [] u h k = ground arith
cmp_text_trans (c ∷ s) (d ∷ t) [] h k = ground arith
cmp_text_trans (c ∷ s) (d ∷ t) (e ∷ u) h k = ground (arith, cmp_text_trans s t u)

newest_first-reverse :
    (to_lowercase : Text → Text) (at other_at : ℕ) (a b : Task)
    → newest_first to_lowercase other_at at b a
      ≡ reverse (newest_first to_lowercase at other_at a b)
unfolding newest_first
newest_first-reverse to_lowercase at other_at a b =
    let names = cmp_text-reverse (to_lowercase a.name) (to_lowercase b.name) in
    let ids = cmp_text-reverse a.id b.id in
    then_with-reverse _ _ _ _ (cmp_nat-reverse other_at at) (then_with-reverse _ _ _ _ names ids)

-- A comparison by two keys, for three things.
then_with_trans :
    (ab bc ac ab' bc' ac' : Ordering)
    → (ab ≡ less → bc ≡ less → ac ≡ less)
    → (ab ≡ equal → ac ≡ bc)
    → (bc ≡ equal → ac ≡ ab)
    → (ab' ≡ less → bc' ≡ less → ac' ≡ less)
    → then_with ab ab' ≡ less
    → then_with bc bc' ≡ less
    → then_with ac ac' ≡ less
then_with_trans ab bc ac ab' bc' ac' both first second more h k = ground arith

cmp_text-left : (s t u : Text) → cmp_text s t ≡ equal → cmp_text s u ≡ cmp_text t u
cmp_text-left s t u h = ap (λ x. cmp_text x u) (cmp_text-equal s t h)

cmp_text-right : (s t u : Text) → cmp_text t u ≡ equal → cmp_text s u ≡ cmp_text s t
cmp_text-right s t u h = ap (cmp_text s) (sym (cmp_text-equal t u h))

newest_first_trans :
    (to_lowercase : Text → Text) (at_a at_b at_c : ℕ) (a b c : Task)
    → newest_first to_lowercase at_a at_b a b ≡ less
    → newest_first to_lowercase at_b at_c b c ≡ less
    → newest_first to_lowercase at_a at_c a c ≡ less
unfolding newest_first
newest_first_trans to_lowercase at_a at_b at_c a b c h k =
    let la = to_lowercase a.name in
    let lb = to_lowercase b.name in
    let lc = to_lowercase c.name in
    then_with_trans (cmp_nat at_b at_a) (cmp_nat at_c at_b) (cmp_nat at_c at_a) _ _ _
      (λ x y. cmp_nat_trans at_c at_b at_a y x) (λ x. ground arith) (λ x. ground arith)
      (then_with_trans (cmp_text la lb) (cmp_text lb lc) (cmp_text la lc) _ _ _
        (cmp_text_trans la lb lc) (cmp_text-left la lb lc) (cmp_text-right la lb lc)
        (cmp_text_trans a.id b.id c.id))
      h k

newest_first-id :
    (to_lowercase : Text → Text) (at other_at : ℕ) (a b : Task)
    → newest_first to_lowercase at other_at a b ≡ equal
    → a.id ≡ b.id
unfolding newest_first
newest_first-id to_lowercase at other_at a b h =
    let (_, names) = then_with-equal (cmp_nat other_at at) _ h in
    let (_, ids) = then_with-equal (cmp_text (to_lowercase a.name) (to_lowercase b.name)) _ names in
    cmp_text-equal a.id b.id ids

-- Of two tasks with different ids one stands before the other in the list order, and the
-- comparison the other way round says so too, whatever to_lowercase does.
cmp_list_order-total :
    (to_lowercase : Text → Text) (a b : Task)
    → a.id ≢ b.id
    → ((cmp_list_order to_lowercase a b ≡ less) × (cmp_list_order to_lowercase b a ≡ greater))
      ⊎ ((cmp_list_order to_lowercase a b ≡ greater) × (cmp_list_order to_lowercase b a ≡ less))
unfolding cmp_list_order
cmp_list_order-total to_lowercase a b differ = ground (
  arith,
  newest_first-reverse to_lowercase a.listed_at b.listed_at a b,
  newest_first-id to_lowercase a.listed_at b.listed_at a b,
)

-- In the list order a task before a second one that is before a third one is before the third one.
cmp_list_order_trans :
    (to_lowercase : Text → Text) (a b c : Task)
    → cmp_list_order to_lowercase a b ≡ less
    → cmp_list_order to_lowercase b c ≡ less
    → cmp_list_order to_lowercase a c ≡ less
unfolding cmp_list_order
cmp_list_order_trans to_lowercase a b c =
    newest_first_trans to_lowercase a.listed_at b.listed_at c.listed_at a b c
