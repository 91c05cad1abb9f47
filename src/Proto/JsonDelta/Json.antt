-- ===== src/Proto/JsonDelta/Json.antt =====
-- JSON values as Python holds them, and `==` on them. Integers are unbounded; a float is the bit
-- pattern of an IEEE double, `True` and `False` are the integers 1 and 0 to `==`, and an integer
-- equals a float of the same exact value.
use aigenora.Prelude.{
  ℕ, suc, ◌+◌, ◌-◌, ◌*◌, ◌/◌, ◌%◌, ◌^◌, String, ◌≡◌, refl, ap, Bool, true, false, not, ◌&&◌, ◌||◌,
  Option, none, some, List, [], ◌∷◌, str_eq, ◌==◌, if◌then◌else◌, length,
}
use aigenora.Prelude.Int.{ℤ, pos, negsuc}
use aigenora.Proto.JsonDelta.Dict.{Assoc, lookup, Distinct}

mutual
  pub data Value : Type 0 where
    null : Value
    bool : Bool → Value
    int : ℤ → Value
    float : ℕ → Value
    str : String → Value
    arr : Elements → Value
    obj : Members → Value

  pub data Members : Type 0 where
    no_members : Members
    member : String → Value → Members → Members

  pub data Elements : Type 0 where
    no_elements : Elements
    element : Value → Elements → Elements

unfoldable pub items : Elements → List Value
items no_elements = []
items (element v xs) = v ∷ items xs

unfoldable pub from_items : List Value → Elements
from_items [] = no_elements
from_items (v ∷ vs) = element v (from_items vs)

unfoldable pub entries : Members → Assoc Value
entries no_members = []
entries (member k v fs) = (k, v) ∷ entries fs

unfoldable pub from_entries : Assoc Value → Members
from_entries [] = no_members
from_entries ((k, v) ∷ l) = member k v (from_entries l)

pub items-from_items : (l : List Value) → items (from_items l) ≡ l
unfolding items from_items
items-from_items [] = refl
items-from_items (v ∷ l) = ap (λ t. v ∷ t) (items-from_items l)

pub from_items-items : (xs : Elements) → from_items (items xs) ≡ xs
unfolding items from_items
from_items-items no_elements = refl
from_items-items (element v xs) = ap (element v) (from_items-items xs)

pub entries-from_entries : (l : Assoc Value) → entries (from_entries l) ≡ l
unfolding entries from_entries
entries-from_entries [] = refl
entries-from_entries ((k, v) ∷ l) = ap (λ t. (k, v) ∷ t) (entries-from_entries l)

pub from_entries-entries : (fs : Members) → from_entries (entries fs) ≡ fs
unfolding entries from_entries
from_entries-entries no_members = refl
from_entries-entries (member k v fs) = ap (member k v) (from_entries-entries fs)

-- A number that `==` compares: an integer, or the bits of a float.
pub data Number : Type 0 where
  whole : ℤ → Number
  double : ℕ → Number

unfoldable pub as_number : Value → Option Number
as_number (bool true) = some (whole (pos 1))
as_number (bool false) = some (whole (pos 0))
as_number (int n) = some (whole n)
as_number (float bits) = some (double bits)
as_number _ = none

abbrev exponent : ℕ → ℕ
exponent bits = bits / 2 ^ 52 % 2048

abbrev mantissa : ℕ → ℕ
mantissa bits = bits % 2 ^ 52

unfoldable pub is_nan : ℕ → Bool
is_nan bits = exponent bits == 2047 && not (mantissa bits == 0)

abbrev is_zero : ℕ → Bool
is_zero bits = exponent bits == 0 && mantissa bits == 0

-- The size of a finite float, times 2 ^ 1074.
abbrev scaled : ℕ → ℕ
scaled bits =
    if exponent bits == 0 then mantissa bits else (2 ^ 52 + mantissa bits) * 2 ^ (exponent bits - 1)

unfoldable pub double_eq : ℕ → ℕ → Bool
double_eq a b =
    if is_nan a || is_nan b then false else if a == b then true else is_zero a && is_zero b

unfoldable pub ℤ_eq : ℤ → ℤ → Bool
ℤ_eq (pos a) (pos b) = a == b
ℤ_eq (negsuc a) (negsuc b) = a == b
ℤ_eq _ _ = false

unfoldable pub whole_double_eq : ℤ → ℕ → Bool
whole_double_eq n bits = if exponent bits == 2047 then false else elim n [
  | pos a ↦ a * 2 ^ 1074 == scaled bits && (a == 0 || bits / 2 ^ 63 == 0)
  | negsuc a ↦ suc a * 2 ^ 1074 == scaled bits && bits / 2 ^ 63 == 1
]

unfoldable pub number_eq : Number → Number → Bool
number_eq (whole a) (whole b) = ℤ_eq a b
number_eq (whole a) (double b) = whole_double_eq a b
number_eq (double a) (whole b) = whole_double_eq b a
number_eq (double a) (double b) = double_eq a b

unfoldable pub number_eq_value : Number → Value → Bool
number_eq_value n v = elim (as_number v) [ none ↦ false | some m ↦ number_eq n m ]

abbrev is_null : Value → Bool
is_null null = true
is_null _ = false

abbrev is_str : String → Value → Bool
is_str s (str t) = str_eq s t
is_str s _ = false

-- `a == b`
unfoldable mutual
  pub eq : Value → Value → Bool
  eq null w = is_null w
  eq (bool b) w = number_eq_value (whole (if b then pos 1 else pos 0)) w
  eq (int n) w = number_eq_value (whole n) w
  eq (float bits) w = number_eq_value (double bits) w
  eq (str s) w = is_str s w
  eq (arr xs) w = elim w [ arr ys ↦ eq_items xs ys | _ ↦ false ]
  eq (obj fs) w = elim w [
    | obj gs ↦ length (entries fs) == length (entries gs) && eq_members fs (entries gs)
    | _ ↦ false
  ]

  pub eq_items : Elements → Elements → Bool
  eq_items no_elements ys = elim ys [ no_elements ↦ true | element _ _ ↦ false ]
  eq_items (element x xs) ys = elim ys [
    | no_elements ↦ false
    | element y zs ↦ eq x y && eq_items xs zs
  ]

  -- Each key of a dict has an equal value in the other.
  pub eq_members : Members → Assoc Value → Bool
  eq_members no_members g = true
  eq_members (member k v fs) g =
      elim (lookup k g) [ none ↦ false | some w ↦ eq v w ] && eq_members fs g

-- A value that JSON text stands for: no NaN, and each key of an object once.
unfoldable mutual
  pub IsJson : Value → Type 0
  IsJson null = Unit
  IsJson (bool b) = Unit
  IsJson (int n) = Unit
  IsJson (float bits) = is_nan bits ≡ false
  IsJson (str s) = Unit
  IsJson (arr xs) = AllJson xs
  IsJson (obj fs) = Distinct (entries fs) × AllJsonMembers fs

  pub AllJson : Elements → Type 0
  AllJson no_elements = Unit
  AllJson (element x xs) = IsJson x × AllJson xs

  pub AllJsonMembers : Members → Type 0
  AllJsonMembers no_members = Unit
  AllJsonMembers (member k v fs) = IsJson v × AllJsonMembers fs
