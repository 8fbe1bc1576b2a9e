-- ===== src/Tests/Codes.antt =====
-- Maps written as lists of numbers and read back, in place of JSON.
use mathlib.Core.List.{append_assoc, append-nil}
use hypr_taskspace.Prelude.{
  ℕ, zero, suc, Option, none, some, List, [], ◌∷◌, ◌++◌, length, ◌≡◌, refl, sym, ◌∙◌, ap,
}
use hypr_taskspace.Prelude.Int.{ℤ, pos, negsuc}
use hypr_taskspace.Prelude.Text.{Text}
use hypr_taskspace.Prelude.Dict.{Dict}
use hypr_taskspace.Registry.State.{Maps}
use hypr_taskspace.Registry.State.Laws.{IsMaps}

-- Writing a value, and reading it from the front of a text.
record Coded (A : Type 0) : Type 0 where
  put : A → Text
  read : Text → Option (A × Text)
  read-put : (a : A) (rest : Text) → read (put a ++ rest) ≡ some (a, rest)

abbrev read_code : Text → Option (ℕ × Text)
read_code [] = none
read_code (n ∷ rest) = some (n, rest)

abbrev code : Coded ℕ
code = record { put = λ n. n ∷ []; read = read_code; read-put = λ n rest. refl }

abbrev put_int : ℤ → Text
put_int (pos n) = 0 ∷ n ∷ []
put_int (negsuc n) = 1 ∷ n ∷ []

abbrev read_int : Text → Option (ℤ × Text)
read_int [] = none
read_int (s ∷ []) = none
read_int (zero ∷ n ∷ rest) = some (pos n, rest)
read_int (suc s ∷ n ∷ rest) = some (negsuc n, rest)

read_int-put : (a : ℤ) (rest : Text) → read_int (put_int a ++ rest) ≡ some (a, rest)
read_int-put (pos n) rest = refl
read_int-put (negsuc n) rest = refl

abbrev int : Coded ℤ
int = record { put = put_int; read = read_int; read-put = read_int-put }

abbrev and_read : {A B : Type 0} → Option (A × Text) → (A → Text → Option B) → Option B
and_read none k = none
and_read (some (a, rest)) k = k a rest

module _ {A B : Type 0} (a : Coded A) (b : Coded B) where
  abbrev read_pair : Text → Option ((A × B) × Text)
  read_pair s =
      and_read (a.read s) (λ x rest. and_read (b.read rest) (λ y more. some ((x, y), more)))

  read_pair-put :
      (p : A × B) (rest : Text) → read_pair ((a.put p.0 ++ b.put p.1) ++ rest) ≡ some (p, rest)
  read_pair-put (x, y) rest =
      rw (append_assoc (a.put x) (b.put y) rest)
        (rw (a.read-put x (b.put y ++ rest)) (rw (b.read-put y rest) refl))

  abbrev pair : Coded (A × B)
  pair = record { put = λ p. a.put p.0 ++ b.put p.1; read = read_pair; read-put = read_pair-put }

module _ {A : Type 0} (c : Coded A) where
  abbrev put_all : List A → Text
  put_all [] = []
  put_all (a ∷ more) = c.put a ++ put_all more

  abbrev read_all : ℕ → Text → Option (List A × Text)
  read_all zero s = some ([], s)
  read_all (suc n) s =
      and_read (c.read s)
        (λ a rest. and_read (read_all n rest) (λ more last. some (a ∷ more, last)))

  read_all-put :
      (stored : List A) (rest : Text)
      → read_all (length stored) (put_all stored ++ rest) ≡ some (stored, rest)
  read_all-put [] rest = refl
  read_all-put (a ∷ more) rest =
      rw (append_assoc (c.put a) (put_all more) rest)
        (rw (c.read-put a (put_all more ++ rest)) (rw (read_all-put more rest) refl))

  abbrev read_list : Text → Option (List A × Text)
  read_list [] = none
  read_list (n ∷ s) = read_all n s

  abbrev list : Coded (List A)
  list = record {
    put = λ stored. length stored ∷ put_all stored;
    read = read_list;
    read-put = read_all-put;
  }

  -- The whole text.
  abbrev from_str : Text → Option A
  from_str s = and_read (c.read s) (λ a rest. some a)

  from_str-put : (a : A) → from_str (c.put a) ≡ some a
  from_str-put a = ap from_str (sym (append-nil (c.put a))) ∙ rw (c.read-put a []) refl

abbrev dict : {A : Type 0} → Coded A → Coded (Dict A)
dict c = list (pair (list code) c)

pub coded_maps : Maps
coded_maps = record {
  slots_to_string = (dict int).put;
  slots_from_str = from_str (dict int);
  monitors_to_string = (dict (dict int)).put;
  monitors_from_str = from_str (dict (dict int));
}

pub coded-IsMaps : IsMaps coded_maps
unfolding coded_maps
coded-IsMaps = record {
  slots = λ m. m;
  slots-from = from_str-put (dict int);
  get-slots = λ m k. refl;
  monitors = λ m. m;
  monitors-from = from_str-put (dict (dict int));
  get-monitors = λ m k j. refl;
}
