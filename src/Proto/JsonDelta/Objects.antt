-- ===== src/Proto/JsonDelta/Objects.antt =====
-- The operations that `_diff` of aigenora/proto/json_delta.py appends for two objects, on the entries:
-- the removals, the changes below the common keys, and the additions.
use mathlib.Core.Path.{subst}
use aigenora.Prelude.{
  String, ◌≡◌, refl, ◌∙◌, sym, false, Option, none, some, List, [], ◌∷◌, map, arith, eq_iff, str_eq,
  eq_refl, ok, inl, inr, if◌then◌else◌, Bool-cases,
}
use aigenora.Proto.JsonDelta.Dict.{
  Assoc, lookup, insert, contains, without, Distinct, lookup-insert, lookup-without,
  Distinct-insert, Distinct-without, contains-lookup,
}
use aigenora.Proto.JsonDelta.Json.{Value, entries-from_entries}
use aigenora.Proto.JsonDelta.Equality.{Agree}
use aigenora.Proto.JsonDelta.{key, Operation, set, remove, removals, additions, join}
use aigenora.Proto.JsonDelta.Apply.{remove_child, set_child, put_child}
use aigenora.Proto.JsonDelta.Perform.{
  perform, perform_all, perform_all-append, perform_all-prefixed, prefixed, object,
}

abbrev pub erase : Assoc Value → Assoc Value → Assoc Value
erase [] l = l
erase ((k, v) ∷ gone) l = erase gone (without k l)

abbrev pub add_all : Assoc Value → Assoc Value → Assoc Value
add_all [] l = l
add_all ((k, v) ∷ new) l = add_all new (insert k v l)

perform-remove_entry :
    (k : String) (l : Assoc Value) (v : Value)
    → lookup k l ≡ some v
    → perform (remove (key k) []) (object l) ≡ ok (object (without k l))
unfolding perform remove_child object
perform-remove_entry k l v h = ground (arith, h, contains-lookup k l, entries-from_entries l)

perform-set_entry :
    (k : String) (v : Value) (l : Assoc Value)
    → perform (set (key k ∷ []) v) (object l) ≡ ok (object (insert k v l))
unfolding perform set_child put_child object
perform-set_entry k v l = rw entries-from_entries

module _ {V : Type 0} where
  lookup_here : (k : String) (v : V) (l : Assoc V) → lookup k ((k, v) ∷ l) ≡ some v
  unfolding lookup
  lookup_here k v l = rw (eq_refl k) refl

  other_key :
      (k j : String) (v : V) (l : Assoc V)
      → lookup k l ≡ none
      → lookup j l ≡ some v
      → str_eq k j ≡ false
  other_key k j v l h e = ground (arith, eq_iff k j)

  lookup_later :
      (k j : String) (v w : V) (l : Assoc V)
      → lookup k l ≡ none
      → lookup j l ≡ some w
      → lookup j ((k, v) ∷ l) ≡ some w
  unfolding lookup
  lookup_later k j v w l h e = rw (other_key k j w l h e) e

still_present :
    (k j : String) (v w : Value) (gone l : Assoc Value)
    → lookup k gone ≡ none
    → ((i : String) (u : Value)
        → lookup i ((k, v) ∷ gone) ≡ some u
        → (x : Value) × (lookup i l ≡ some x))
    → lookup j gone ≡ some w
    → (x : Value) × (lookup j (without k l) ≡ some x)
still_present k j v w gone l d h e =
    let (x, p) = h j w (lookup_later k j v w gone d e) in
    (x, lookup-without k j l ∙ rw (other_key k j w gone d e) p)

pub perform_all-removals :
    (gone l : Assoc Value)
    → Distinct gone
    → ((j : String) (u : Value) → lookup j gone ≡ some u → (x : Value) × (lookup j l ≡ some x))
    → perform_all (removals [] gone) (object l) ≡ ok (object (erase gone l))
unfolding perform_all removals
perform_all-removals [] l d h = refl
perform_all-removals ((k, v) ∷ gone) l d h =
    let (x, e) = h k v (lookup_here k v gone) in
    rw (perform-remove_entry k l x e)
      (perform_all-removals gone (without k l) d.1 (λ j u. still_present k j v u gone l d.0 h))

pub lookup-erase :
    (j : String) (gone l : Assoc Value)
    → lookup j (erase gone l) ≡ (if contains j gone then none else lookup j l)
unfolding contains
lookup-erase j [] l = refl
lookup-erase j ((k, v) ∷ gone) l =
    ground (arith, eq_iff k j, lookup-erase j gone (without k l), lookup-without k j l)

pub Distinct-erase : (gone l : Assoc Value) → Distinct l → Distinct (erase gone l)
Distinct-erase [] l d = d
Distinct-erase ((k, v) ∷ gone) l d = Distinct-erase gone (without k l) (Distinct-without k l d)

pub perform_all-additions :
    (new l : Assoc Value) → perform_all (additions [] new) (object l) ≡ ok (object (add_all new l))
unfolding perform_all additions
perform_all-additions [] l = refl
perform_all-additions ((k, v) ∷ new) l =
    rw (perform-set_entry k v l) (perform_all-additions new (insert k v l))

pub lookup-add_all :
    (j : String) (new l : Assoc Value)
    → Distinct new
    → lookup j (add_all new l) ≡ elim (lookup j new) [ none ↦ lookup j l | some v ↦ some v ]
unfolding lookup
lookup-add_all j [] l d = refl
lookup-add_all j ((k, v) ∷ new) l d =
    ground (arith, eq_iff k j, lookup-add_all j new (insert k v l) d.1, lookup-insert k j v l)

pub Distinct-add_all : (new l : Assoc Value) → Distinct l → Distinct (add_all new l)
Distinct-add_all [] l d = d
Distinct-add_all ((k, v) ∷ new) l d = Distinct-add_all new (insert k v l) (Distinct-insert k v l d)

-- The operations change the value of one entry, from `a` to one equal to `b`.
abbrev pub Changes : String → List Operation → Option Value → Option Value → Type 0
Changes k ops a b =
    (inner : List Operation) × (c : Value) × (c' : Value) × (ops ≡ map (prefixed (key k)) inner)
    × (a ≡ some c)
    × (perform_all inner c ≡ ok c')
    × Agree (some c') b

abbrev pub After : Option (List Operation) → Option Value → Option Value → Option Value → Type 0
After none a b g = a ≡ b
After (some _) a b g = Agree a g

later-Changes :
    (k j : String) (ops ops' : List Operation) (e : Assoc (List Operation)) (c : Value)
    (l g : Assoc Value)
    → lookup k e ≡ none
    → ((i : String) (os : List Operation)
        → lookup i ((k, ops) ∷ e) ≡ some os
        → Changes i os (lookup i l) (lookup i g))
    → lookup j e ≡ some ops'
    → Changes j ops' (lookup j (insert k c l)) (lookup j g)
later-Changes k j ops ops' e c l g d h at =
    subst (λ a. Changes j ops' a (lookup j g))
      (sym (lookup-insert k j c l ∙ rw (other_key k j ops' e d at) refl))
      (h j ops' (lookup_later k j ops ops' e d at))

After-here :
    (k : String) (ops : List Operation) (e : Assoc (List Operation)) (c : Value)
    (l g m : Assoc Value)
    → lookup k e ≡ none
    → After (lookup k e) (lookup k m) (lookup k (insert k c l)) (lookup k g)
    → Agree (some c) (lookup k g)
    → After (lookup k ((k, ops) ∷ e)) (lookup k m) (lookup k l) (lookup k g)
After-here k ops e c l g m d after same =
    let p : lookup k (insert k c l) ≡ some c = lookup-insert k k c l ∙ rw (eq_refl k) refl in
    let q : lookup k m ≡ lookup k (insert k c l) =
      subst (λ o. After o (lookup k m) (lookup k (insert k c l)) (lookup k g)) d after in
    rw (lookup_here k ops e) (subst (λ a. Agree a (lookup k g)) (sym (q ∙ p)) same)

After-at :
    (k j : String) (ops : List Operation) (e : Assoc (List Operation)) (c : Value)
    (l g m : Assoc Value)
    → lookup k e ≡ none
    → ((i : String) → After (lookup i e) (lookup i m) (lookup i (insert k c l)) (lookup i g))
    → Agree (some c) (lookup k g)
    → After (lookup j ((k, ops) ∷ e)) (lookup j m) (lookup j l) (lookup j g)
unfolding lookup
After-at k j ops e c l g m d after same = elim (Bool-cases (str_eq k j)) [
  | inl here ↦
      subst (λ i. After (lookup i ((k, ops) ∷ e)) (lookup i m) (lookup i l) (lookup i g))
        ((eq_iff k j).0 here) (After-here k ops e c l g m d (after k) same)
  | inr other ↦
      let p : lookup j (insert k c l) ≡ lookup j l = lookup-insert k j c l ∙ rw other refl in
      rw other (subst (λ a. After (lookup j e) (lookup j m) a (lookup j g)) p (after j))
]

-- The changes below the common keys run one after the other, and none disturbs another.
pub perform_all-join :
    (e : Assoc (List Operation)) (l g : Assoc Value)
    → Distinct e
    → Distinct l
    → ((k : String) (ops : List Operation)
        → lookup k e ≡ some ops
        → Changes k ops (lookup k l) (lookup k g))
    → (m : Assoc Value) × (perform_all (join e) (object l) ≡ ok (object m))
      × Distinct m
      × ((j : String) → After (lookup j e) (lookup j m) (lookup j l) (lookup j g))
unfolding perform_all join
perform_all-join [] l g de dl h = (l, refl, dl, λ j. unfold lookup in refl)
perform_all-join ((k, ops) ∷ e) l g de dl h =
    let (inner, c, c', shape, at, run, same) = h k ops (lookup_here k ops e) in
    let (m, done, dm, after) =
      perform_all-join e (insert k c' l) g de.1 (Distinct-insert k c' l dl)
        (λ j ops'. later-Changes k j ops ops' e c' l g de.0 h) in
    (
      m,
      perform_all-append ops (join e) (object l)
          ∙ rw (shape, perform_all-prefixed k l c inner at, run) done,
      dm,
      λ j. After-at k j ops e c' l g m de.0 after same,
    )
