-- ===== src/Prelude/Decimal.antt =====
-- `u32`'s `Display` and `FromStr`.
use Prim.Native.Nat.{ℕ, zero, suc, ◌+◌, ◌-◌, ◌*◌, ◌/◌, ◌%◌, ◌^◌, ◌≤◌, ◌<◌}
use mathlib.Core.Path.{◌≡◌, refl, ◌∙◌}
use mathlib.Core.Logic.{◌≢◌, dite}
use mathlib.Core.Bool.{Bool, true, false, ◌&&◌}
use mathlib.Core.List.{[], ◌∷◌, ◌++◌}
use mathlib.Core.Option.{Option, none, some}
use mathlib.Core.WellFounded as WF
use mathlib.Core.WellFounded.{Acc, Acc-prop, WellFounded}
use native.Mathlib.Decide.{dec_lt}
use native.Mathlib.Omega.{arith}
use hypr_taskspace.Prelude.Tests.{leb, if◌then◌else◌, nat_eq}
use hypr_taskspace.Prelude.Lists.{All, Member, here, there}
use hypr_taskspace.Prelude.Text.{Text, codes}

abbrev pub u32_max : ℕ
u32_max = 2 ^ 32 - 1

Acc-below : (k n : ℕ) → n < k → Acc ◌<◌ n
Acc-below zero n h = elim h [ ]
Acc-below (suc k) n h = Acc.intro n (λ m hm. Acc-below k m (omega arith))

unfoldable pub lt_wf : WellFounded ◌<◌
unfolding Acc-below
lt_wf = record { apply = λ n. Acc-below (suc n) n (omega arith) }

digit : ℕ → ℕ
digit d = b'0' + d

to_string_acc : (n : ℕ) → Acc ◌<◌ n → Text
to_string_acc n (Acc.intro _ smaller) =
    dite (dec_lt 9 n)
      (λ h. to_string_acc (n / 10) (smaller (n / 10) (omega arith)) ++ digit (n % 10) ∷ [])
      (λ _. digit n ∷ [])

-- `n.to_string()`
unfoldable pub to_string : ℕ → Text
unfolding to_string_acc lt_wf dec_lt digit
to_string n = to_string_acc n (lt_wf.apply n)

abbrev pub is_digit : ℕ → Bool
is_digit c = leb b'0' c && leb c b'9'

-- The digits behind the number `acc` that is read so far; `none` on another character and on overflow.
parse_digits : ℕ → Text → Option ℕ
parse_digits acc [] = some acc
parse_digits acc (c ∷ s) =
    let next = acc * 10 + (c - b'0') in
    let rest = parse_digits next s in if is_digit c && leb next u32_max then rest else none

-- `parse::<u32>()`: one leading `+` is accepted before a digit.
unfoldable pub parse_u32 : Text → Option ℕ
unfolding parse_digits
parse_u32 [] = none
parse_u32 (c ∷ []) = if nat_eq c b'+' then none else parse_digits 0 (c ∷ [])
parse_u32 (c ∷ d ∷ s) = if nat_eq c b'+' then parse_digits 0 (d ∷ s) else parse_digits 0 (c ∷ d ∷ s)

to_string_tests :
    (to_string 0 ≡ codes "0") × (to_string 10 ≡ codes "10") × (to_string 4096 ≡ codes "4096")
unfolding to_string
to_string_tests = (refl, refl, refl)

parse_u32_tests :
    (parse_u32 (codes "007") ≡ some 7)
    × (parse_u32 (codes "+3") ≡ some 3)
    × (parse_u32 (codes "-3") ≡ none)
    × (parse_u32 (codes "+") ≡ none)
    × (parse_u32 (codes "4294967295") ≡ some u32_max)
    × (parse_u32 (codes "4294967296") ≡ none)
unfolding parse_u32
parse_u32_tests = (refl, refl, refl, refl, refl, refl)

-- Any two proofs of `Acc` are equal, so printing makes one step at a time.
to_string_acc-step :
    (n : ℕ) (w : Acc ◌<◌ n) (w' : Acc ◌<◌ (n / 10))
    → to_string_acc n w
      ≡ dite
          (dec_lt 9 n)
          (λ _. to_string_acc (n / 10) w' ++ digit (n % 10) ∷ [])
          (λ _. digit n ∷ [])
unfolding to_string_acc
to_string_acc-step n (Acc.intro _ smaller) w' = λ i.
    dite (dec_lt 9 n)
      (λ h.
        to_string_acc (n / 10) (Acc-prop (smaller (n / 10) (omega arith)) w' i)
        ++ digit (n % 10) ∷ [])
      (λ _. digit n ∷ [])

to_string-step : (n : ℕ) → 9 < n → to_string n ≡ to_string (n / 10) ++ digit (n % 10) ∷ []
unfolding to_string
to_string-step n h = ground (arith, to_string_acc-step n (lt_wf.apply n) (lt_wf.apply (n / 10)))

to_string-small : (n : ℕ) → n ≤ 9 → to_string n ≡ digit n ∷ []
unfolding to_string
to_string-small n h = ground (arith, to_string_acc-step n (lt_wf.apply n) (lt_wf.apply (n / 10)))

-- Induction along the digits of a number.
digits_ind {ℓ} :
    (P : ℕ → Text → Type ℓ)
    → ((n : ℕ) → n ≤ 9 → P n (digit n ∷ []))
    → ((n : ℕ)
        → 9 < n
        → P (n / 10) (to_string (n / 10))
        → P n (to_string (n / 10) ++ digit (n % 10) ∷ []))
    → (n : ℕ) → P n (to_string n)
digits_ind P one more n = WF.induction lt_wf {C = λ m. P m (to_string m)} n λ m ih.
    elim (dec_lt 9 m) [
      | yes h ↦ rw (to_string-step m h) (more m h (ih (m / 10) (omega arith)))
      | no h ↦ rw (to_string-small m (omega arith)) (one m (omega arith))
    ]

All-append_one {ℓ} : (P : ℕ → Type ℓ) (s : Text) (c : ℕ) → All P s → P c → All P (s ++ c ∷ [])
All-append_one P [] c h p = (p, tt)
All-append_one P (x ∷ s) c (q, h) p = (q, All-append_one P s c h p)

append_one-ne-nil : (s : Text) (c : ℕ) → s ++ c ∷ [] ≢ []
append_one-ne-nil [] c = cc
append_one-ne-nil (x ∷ s) c = cc

infixl 5 ◌>>=◌
abbrev ◌>>=◌ : Option ℕ → (ℕ → Option ℕ) → Option ℕ
none >>= f = none
some a >>= f = f a

parse_digits-append :
    (acc : ℕ) (s t : Text)
    → parse_digits acc (s ++ t) ≡ (parse_digits acc s >>= λ n. parse_digits n t)
unfolding parse_digits
parse_digits-append acc [] t = refl
parse_digits-append acc (c ∷ s) t = ground (arith, parse_digits-append (acc * 10 + (c - b'0')) s t)

parse_digits-last :
    (n : ℕ) → 9 < n → n ≤ u32_max → parse_digits (n / 10) (digit (n % 10) ∷ []) ≡ some n
unfolding parse_digits digit
parse_digits-last n h fits = ground arith

parse_digits-to_string : (n : ℕ) → n ≤ u32_max → parse_digits 0 (to_string n) ≡ some n
unfolding parse_digits digit
parse_digits-to_string =
    digits_ind (λ n s. n ≤ u32_max → parse_digits 0 s ≡ some n) (λ n h fits. ground arith)
      λ n h ih fits.
        rw (parse_digits-append 0 (to_string (n / 10)) _, ih (omega arith))
          (parse_digits-last n h fits)

-- A printed number is one or more digits.
pub to_string-digits : (n : ℕ) → All (λ c. is_digit c ≡ true) (to_string n)
unfolding digit
to_string-digits =
    digits_ind (λ n s. All (λ c. is_digit c ≡ true) s) (λ n h. (ground arith, tt))
      λ n h ih. All-append_one _ (to_string (n / 10)) _ ih (ground arith)

pub to_string-ne-nil : (n : ℕ) → to_string n ≢ []
to_string-ne-nil = digits_ind (λ n s. s ≢ []) (λ n h. cc) (λ n h ih. append_one-ne-nil _ _)

parse_u32-digits :
    (s : Text) → s ≢ [] → All (λ c. is_digit c ≡ true) s → parse_u32 s ≡ parse_digits 0 s
unfolding parse_u32
parse_u32-digits [] ne ds = absurd (ne refl)
parse_u32-digits (c ∷ []) ne ds = ground arith
parse_u32-digits (c ∷ d ∷ s) ne ds = ground arith

-- Every `u32` is read back from its print.
pub parse_u32-to_string : (n : ℕ) → n ≤ u32_max → parse_u32 (to_string n) ≡ some n
parse_u32-to_string n h =
    parse_u32-digits (to_string n) (to_string-ne-nil n) (to_string-digits n)
    ∙ parse_digits-to_string n h

-- A text with a character that is no digit behind its first one is no number.
parse_digits-not_digit :
    (acc : ℕ) (s : Text) (c : ℕ) → Member c s → is_digit c ≡ false → parse_digits acc s ≡ none
unfolding parse_digits
parse_digits-not_digit acc [] c m h = elim m [ ]
parse_digits-not_digit acc (x ∷ s) c (here p) h = rw (← p) (ground arith)
parse_digits-not_digit acc (x ∷ s) c (there m) h =
    ground (arith, parse_digits-not_digit (acc * 10 + (x - b'0')) s c m h)

pub parse_u32-not_digit :
    (s : Text) (c : ℕ) → Member c s → is_digit c ≡ false → c ≢ b'+' → parse_u32 s ≡ none
unfolding parse_u32
parse_u32-not_digit [] c m h ne = refl
parse_u32-not_digit (x ∷ []) c m h ne = ground (arith, parse_digits-not_digit 0 (x ∷ []) c m h)
parse_u32-not_digit (x ∷ d ∷ s) c (here p) h ne =
    ground (arith, parse_digits-not_digit 0 (x ∷ d ∷ s) c (here p) h)
parse_u32-not_digit (x ∷ d ∷ s) c (there m) h ne = ground (
  arith,
  parse_digits-not_digit 0 (x ∷ d ∷ s) c (there m) h,
  parse_digits-not_digit 0 (d ∷ s) c m h,
)

-- Two numbers with one print are equal.
pub to_string-injective : (m n : ℕ) → m ≤ u32_max → n ≤ u32_max → to_string m ≡ to_string n → m ≡ n
to_string-injective m n hm hn p =
    let a = parse_u32-to_string m hm in let b = parse_u32-to_string n hn in cc (a, b, p)
