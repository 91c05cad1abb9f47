-- ===== src/Proto/JsonDelta/Equality.antt =====
-- `==` on JSON values: what it says of a value and itself, of arrays and of objects.

use mathlib.Core.Path.{subst}
use aigenora.Prelude.{
  String, ◌≡◌, refl, true, false, Option, none, some, ◌∷◌, arith, eq_iff, str_eq, eq_refl,
  Option-cases, Bool-cases, ◌≢◌, inl, inr,
}
use aigenora.Prelude.Int.{ℤ, pos, negsuc}
use aigenora.Proto.JsonDelta.Dict.{Assoc, lookup, Distinct, length_le}
use aigenora.Proto.JsonDelta.Json.{
  Value, null, bool, int, float, str, arr, obj, Elements, no_elements, element, Members, no_members,
  member, items, entries, eq, IsJson, AllJson, AllJsonMembers, number_eq_value, number_eq,
  as_number, double_eq, ℤ_eq, eq_items, eq_members,
}
use aigenora.Proto.JsonDelta.{eq_list}

ℤ_eq_refl : (n : ℤ) → ℤ_eq n n ≡ true
unfolding ℤ_eq
ℤ_eq_refl (pos n) = ground arith
ℤ_eq_refl (negsuc n) = ground arith

-- Each entry is found in the dict.
abbrev pub Sub : Members → Assoc Value → Type 0
Sub no_members g = Unit
Sub (member k v fs) g = (lookup k g ≡ some v) × Sub fs g

Sub-cons :
    (k : String) (v : Value) (fs : Members) (g : Assoc Value)
    → lookup k (entries fs) ≡ none
    → Sub fs g
    → Sub fs ((k, v) ∷ g)
unfolding lookup entries
Sub-cons k v no_members g h s = tt
Sub-cons k v (member j w fs) g h s =
    (ground (arith, eq_iff k j, eq_iff j k), Sub-cons k v fs g (ground arith) s.1)

pub Sub-self : (fs : Members) → Distinct (entries fs) → Sub fs (entries fs)
unfolding lookup entries
Sub-self no_members d = tt
Sub-self (member k v fs) d =
    (ground (arith, eq_iff k k), Sub-cons k v fs (entries fs) d.0 (Sub-self fs d.1))

-- A value without NaN and without repeated keys equals itself.
mutual
  unfolding eq IsJson number_eq_value number_eq as_number double_eq entries

  pub eq_of_self : (v : Value) → IsJson v → eq v v ≡ true
  eq_of_self null h = refl
  eq_of_self (bool true) h = ℤ_eq_refl (pos 1)
  eq_of_self (bool false) h = ℤ_eq_refl (pos 0)
  eq_of_self (int n) h = ℤ_eq_refl n
  eq_of_self (float b) h = ground arith
  eq_of_self (str s) h = eq_refl s
  eq_of_self (arr xs) h = eq_items_refl xs h
  eq_of_self (obj fs) h = ground (arith, eq_members_refl fs (entries fs) h.1 (Sub-self fs h.0))

  eq_items_refl : (xs : Elements) → AllJson xs → eq_items xs xs ≡ true
  eq_items_refl no_elements h = refl
  eq_items_refl (element x xs) h = ground (arith, eq_of_self x h.0, eq_items_refl xs h.1)

  eq_members_refl :
      (fs : Members) (g : Assoc Value) → AllJsonMembers fs → Sub fs g → eq_members fs g ≡ true
  eq_members_refl no_members g h s = refl
  eq_members_refl (member k v fs) g h s =
      ground (arith, eq_of_self v h.0, eq_members_refl fs g h.1 s.1, s.0)

pub eq-arr : (xs ys : Elements) → eq (arr xs) (arr ys) ≡ eq_list (items xs) (items ys)
unfolding eq eq_list items
eq-arr no_elements no_elements = refl
eq-arr no_elements (element y ys) = refl
eq-arr (element x xs) no_elements = refl
eq-arr (element x xs) (element y ys) = ground (arith, eq-arr xs ys)

-- Two dicts hold equal values under the same keys.
abbrev pub Agree : Option Value → Option Value → Type 0
Agree none none = Unit
Agree none (some w) = ⊥
Agree (some v) none = ⊥
Agree (some v) (some w) = eq v w ≡ true

-- What two dicts hold under a key that both have.
pub Agree-at :
    (a b : Option Value) (v w : Value) → Agree a b → a ≡ some v → b ≡ some w → eq v w ≡ true
Agree-at none b v w h p q = cc
Agree-at (some x) none v w h p q = cc
Agree-at (some x) (some y) v w h p q = ground (arith, h)

pub Agree-present : (a b : Option Value) (v : Value) → Agree a b → a ≡ some v → b ≢ none
Agree-present none b v h p q = cc
Agree-present (some x) none v h p q = h
Agree-present (some x) (some y) v h p q = cc

pub Agree-absent : (a b : Option Value) → Agree a b → b ≡ none → a ≡ none
Agree-absent none b h q = refl
Agree-absent (some x) none h q = absurd h
Agree-absent (some x) (some y) h q = cc

pub Agree-absent' : (a b : Option Value) → Agree a b → a ≡ none → b ≡ none
Agree-absent' none none h q = refl
Agree-absent' none (some y) h q = absurd h
Agree-absent' (some x) b h q = cc

eq_members_of_Agree :
    (fs : Members) (f g : Assoc Value)
    → Sub fs f
    → ((k : String) → Agree (lookup k f) (lookup k g))
    → eq_members fs g ≡ true
unfolding eq
eq_members_of_Agree no_members f g s h = refl
eq_members_of_Agree (member k v fs) f g s h = elim (Option-cases (lookup k g)) [
  | inl gone ↦ absurd (Agree-present (lookup k f) (lookup k g) v (h k) s.0 gone)
  | inr (w, found) ↦
      ground
        (arith, Agree-at (lookup k f) (lookup k g) v w (h k) s.0, eq_members_of_Agree fs f g s.1 h)
]

-- Two objects that hold equal values under the same keys are equal.
pub eq_of_Agree :
    (f g : Members)
    → Distinct (entries f)
    → Distinct (entries g)
    → ((k : String) → Agree (lookup k (entries f)) (lookup k (entries g)))
    → eq (obj f) (obj g) ≡ true
unfolding eq
eq_of_Agree f g df dg h =
    let le =
      length_le (entries f) (entries g) df dg
        (λ k. Agree-absent (lookup k (entries f)) (lookup k (entries g)) (h k)) in
    let ge =
      length_le (entries g) (entries f) dg df
        (λ k. Agree-absent' (lookup k (entries f)) (lookup k (entries g)) (h k)) in
    ground (arith, le, ge, eq_members_of_Agree f (entries f) (entries g) (Sub-self f df) h)

pub AllJson_lookup :
    (fs : Members) (k : String) (v : Value)
    → AllJsonMembers fs
    → lookup k (entries fs) ≡ some v
    → IsJson v
unfolding IsJson lookup entries
AllJson_lookup no_members k v h e = absurd (ground arith)
AllJson_lookup (member j w fs) k v h e = elim (Bool-cases (str_eq j k)) [
  | inl same ↦ let p : w ≡ v = ground arith in subst IsJson p h.0
  | inr other ↦ AllJson_lookup fs k v h.1 (ground arith)
]
