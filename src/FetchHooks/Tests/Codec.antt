-- ===== src/FetchHooks/Tests/Codec.antt =====
-- Values as texts of numbers, which are read back from the front of a longer text.
use effect_native.Prelude.{
  ℕ, zero, suc, ◌≡◌, refl, ap, Bool, true, false, Option, none, some, List, [], ◌∷◌, ◌++◌, Text,
  length,
}
use effect_native.Prelude.Int.{ℤ, pos, negsuc}

pub record Codec (A : Type 0) : Type 0 where
  pub write : A → Text
  pub read : Text → Option (A × Text)
  pub back : (a : A) (rest : Text) → read (write a ++ rest) ≡ some (a, rest)

abbrev pub then {ℓ} :
    {A : Type 0} {B : Type ℓ} → Option (A × Text) → (A → Text → Option B) → Option B
then none f = none
then (some (a, rest)) f = f a rest

abbrev pub read_number : Text → Option (ℕ × Text)
read_number [] = none
read_number (n ∷ rest) = some (n, rest)

abbrev pub number : Codec ℕ
number = record { write = λ n. n ∷ []; read = read_number; back = λ n rest. refl }

pub append_assoc : (a b c : Text) → (a ++ b) ++ c ≡ a ++ (b ++ c)
append_assoc [] b c = refl
append_assoc (x ∷ a) b c = ap (λ t. x ∷ t) (append_assoc a b c)

module _ {A B : Type 0} (a : Codec A) (b : Codec B) where
  abbrev pub read_pair : Text → Option ((A × B) × Text)
  read_pair t = then (a.read t) (λ u r. then (b.read r) (λ v s. some ((u, v), s)))

  pub pair_back :
      (x : A) (y : B) (rest : Text)
      → read_pair ((a.write x ++ b.write y) ++ rest) ≡ some ((x, y), rest)
  pair_back x y rest = rw (append_assoc (a.write x) (b.write y) rest, a.back x, b.back y)

  abbrev pub pair : Codec (A × B)
  pair = record {
    write = λ p. a.write p.0 ++ b.write p.1;
    read = read_pair;
    back = λ p rest. pair_back p.0 p.1 rest;
  }

module _ {A B : Type 0} (a : Codec A) (to : A → B) (from : B → A)
    (h : (y : B) → to (from y) ≡ y) where
  abbrev pub read_as : Text → Option (B × Text)
  read_as t = then (a.read t) (λ u r. some (to u, r))

  pub as_back : (y : B) (rest : Text) → read_as (a.write (from y) ++ rest) ≡ some (y, rest)
  as_back y rest = rw (a.back (from y), h y)

  abbrev pub renamed : Codec B
  renamed = record { write = λ y. a.write (from y); read = read_as; back = as_back }

module _ {A : Type 0} (a : Codec A) where
  abbrev pub write_all : List A → Text
  write_all [] = []
  write_all (x ∷ xs) = a.write x ++ write_all xs

  abbrev pub read_all : ℕ → Text → Option (List A × Text)
  read_all zero t = some ([], t)
  read_all (suc n) t = then (a.read t) (λ x r. then (read_all n r) (λ xs s. some (x ∷ xs, s)))

  pub all_back :
      (xs : List A) (rest : Text) → read_all (length xs) (write_all xs ++ rest) ≡ some (xs, rest)
  all_back [] rest = refl
  all_back (x ∷ xs) rest =
      rw (append_assoc (a.write x) (write_all xs) rest, a.back x, all_back xs rest)

  abbrev pub read_list : Text → Option (List A × Text)
  read_list [] = none
  read_list (n ∷ t) = read_all n t

  abbrev pub list : Codec (List A)
  list = record { write = λ xs. length xs ∷ write_all xs; read = read_list; back = all_back }

abbrev pub to_bool : ℕ → Bool
to_bool zero = false
to_bool (suc n) = true

abbrev pub from_bool : Bool → ℕ
from_bool false = 0
from_bool true = 1

pub bool_back : (b : Bool) → to_bool (from_bool b) ≡ b
bool_back true = refl
bool_back false = refl

abbrev pub bool : Codec Bool
bool = renamed number to_bool from_bool bool_back

abbrev pub to_int : Bool × ℕ → ℤ
to_int (true, n) = pos n
to_int (false, n) = negsuc n

abbrev pub from_int : ℤ → Bool × ℕ
from_int (pos n) = (true, n)
from_int (negsuc n) = (false, n)

pub int_back : (z : ℤ) → to_int (from_int z) ≡ z
int_back (pos n) = refl
int_back (negsuc n) = refl

abbrev pub int : Codec ℤ
int = renamed (pair bool number) to_int from_int int_back

-- `none` is the empty list.
abbrev pub to_option {ℓ} : {A : Type ℓ} → List A → Option A
to_option [] = none
to_option (x ∷ xs) = some x

abbrev pub from_option {ℓ} : {A : Type ℓ} → Option A → List A
from_option none = []
from_option (some x) = x ∷ []

pub option_back : {A : Type 0} (o : Option A) → to_option (from_option o) ≡ o
option_back none = refl
option_back (some x) = refl

abbrev pub option : {A : Type 0} → Codec A → Codec (Option A)
option a = renamed (list a) to_option from_option option_back
