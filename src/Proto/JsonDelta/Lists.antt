-- ===== src/Proto/JsonDelta/Lists.antt =====
-- Equal lists, and what the loops of `_diff_list` of aigenora/proto/json_delta.py find in two lists.
use mathlib.Core.List.{reverse, reverse-append, reverse-reverse}
use aigenora.Prelude.{
  ℕ, zero, suc, ◌+◌, ◌-◌, ◌≤◌, ◌≡◌, refl, ap, ◌∙◌, sym, true, some, List, [], ◌∷◌, ◌++◌, arith,
  Bool-cases, inl, inr, length, take, drop, leb, ◌&&◌, length-append, length-drop, take-append-drop,
}
use aigenora.Proto.JsonDelta.Json.{
  Value, Elements, no_elements, element, items, eq, IsJson, AllJson,
}
use aigenora.Proto.JsonDelta.Equality.{eq_of_self}
use aigenora.Proto.JsonDelta.{eq_list, common_prefix, common_suffix, find_drop}

-- Every element equals itself.
abbrev pub Reflexive : List Value → Type 0
Reflexive [] = Unit
Reflexive (x ∷ xs) = (eq x x ≡ true) × Reflexive xs

pub Reflexive-items : (xs : Elements) → AllJson xs → Reflexive (items xs)
unfolding items IsJson
Reflexive-items no_elements h = tt
Reflexive-items (element x xs) h = (eq_of_self x h.0, Reflexive-items xs h.1)

pub eq_list_refl : (l : List Value) → Reflexive l → eq_list l l ≡ true
unfolding eq_list
eq_list_refl [] h = refl
eq_list_refl (x ∷ xs) h = ground (arith, eq_list_refl xs h.1)

pub Reflexive-drop : (n : ℕ) (l : List Value) → Reflexive l → Reflexive (drop n l)
Reflexive-drop zero l h = h
Reflexive-drop (suc n) [] h = h
Reflexive-drop (suc n) (x ∷ l) h = Reflexive-drop n l h.1

pub Reflexive-take : (n : ℕ) (l : List Value) → Reflexive l → Reflexive (take n l)
Reflexive-take zero l h = tt
Reflexive-take (suc n) [] h = tt
Reflexive-take (suc n) (x ∷ l) h = (h.0, Reflexive-take n l h.1)

pub eq_list-append :
    (a b c d : List Value)
    → eq_list a b ≡ true
    → eq_list c d ≡ true
    → eq_list (a ++ c) (b ++ d) ≡ true
unfolding eq_list
eq_list-append [] [] c d h k = k
eq_list-append [] (y ∷ b) c d h k = absurd (ground arith)
eq_list-append (x ∷ a) [] c d h k = absurd (ground arith)
eq_list-append (x ∷ a) (y ∷ b) c d h k = ground (arith, eq_list-append a b c d)

reverse_cons : (x : Value) (l : List Value) → reverse (x ∷ l) ≡ reverse l ++ x ∷ []
reverse_cons x l = reverse-append (x ∷ []) l

eq_list-reverse : (a b : List Value) → eq_list a b ≡ true → eq_list (reverse a) (reverse b) ≡ true
unfolding eq_list
eq_list-reverse [] [] h = refl
eq_list-reverse [] (y ∷ b) h = absurd (ground arith)
eq_list-reverse (x ∷ a) [] h = absurd (ground arith)
eq_list-reverse (x ∷ a) (y ∷ b) h =
    rw (reverse_cons x a, reverse_cons y b)
      (eq_list-append (reverse a) (reverse b) (x ∷ []) (y ∷ []) (eq_list-reverse a b (ground arith))
        (ground arith))

length-reverse : (l : List Value) → length (reverse l) ≡ length l
length-reverse [] = refl
length-reverse (x ∷ l) =
    ap length (reverse_cons x l)
    ∙ omega (arith, length-append (reverse l) (x ∷ []), length-reverse l)

drop-length : (a b : List Value) → drop (length a) (a ++ b) ≡ b
drop-length [] b = refl
drop-length (x ∷ a) b = drop-length a b

drop-nil : (n : ℕ) → drop {A = Value} n [] ≡ []
drop-nil zero = refl
drop-nil (suc n) = refl

drop-drop : (p q : ℕ) (l : List Value) → drop q (drop p l) ≡ drop (p + q) l
drop-drop zero q l = ap (λ n. drop n l) (omega arith)
drop-drop (suc p) q [] = drop-nil q ∙ sym (drop-nil (suc p + q))
drop-drop (suc p) q (x ∷ l) =
    let e : suc (p + q) ≡ suc p + q = omega arith in drop-drop p q l ∙ ap (λ n. drop n (x ∷ l)) e

pub drop_to : (p q n : ℕ) (l : List Value) → p + q ≡ n → drop q (drop p l) ≡ drop n l
drop_to p q n l e = drop-drop p q l ∙ ap (λ k. drop k l) e

drop-reverse : (s : ℕ) (l : List Value) → drop (length l - s) (reverse l) ≡ reverse (take s l)
drop-reverse s l =
    let n : length l - s ≡ length (reverse (drop s l)) =
      omega (arith, length-reverse (drop s l), length-drop s l) in
    let r : reverse l ≡ reverse (drop s l) ++ reverse (take s l) =
      ap reverse (sym (take-append-drop s l)) ∙ reverse-append (take s l) (drop s l) in
    ap (λ k. drop k (reverse l)) n
    ∙ ap (drop (length (reverse (drop s l)))) r
    ∙ drop-length (reverse (drop s l)) (reverse (take s l))

-- The last elements, from the front of the reverse.
drop_last : (s : ℕ) (l : List Value) → drop (length l - s) l ≡ reverse (take s (reverse l))
drop_last s l =
    ap (λ n. drop (n - s) l) (sym (length-reverse l))
    ∙ ap (drop (length (reverse l) - s)) (sym (reverse-reverse l))
    ∙ drop-reverse s (reverse l)

pub common_prefix_lem :
    (l m : List Value)
    → (common_prefix l m ≤ length l)
      × (common_prefix l m ≤ length m)
      × (eq_list (take (common_prefix l m) l) (take (common_prefix l m) m) ≡ true)
unfolding common_prefix eq_list
common_prefix_lem [] m = (omega arith, omega arith, refl)
common_prefix_lem (x ∷ l) [] = (omega arith, omega arith, refl)
common_prefix_lem (x ∷ l) (y ∷ m) = ground (arith, common_prefix_lem l m)

-- The last `s` elements of two lists behind a common prefix are those that the reverses begin with.
last_of_drop :
    (p s : ℕ) (l : List Value)
    → s + p ≤ length l
    → drop (length l - s) l ≡ reverse (take s (reverse (drop p l)))
last_of_drop p s l h =
    let e : p + (length (drop p l) - s) ≡ length l - s = omega (arith, length-drop p l, h) in
    sym (drop_to p (length (drop p l) - s) (length l - s) l e) ∙ drop_last s (drop p l)

pub common_suffix_lem :
    (p : ℕ) (l m : List Value)
    → p ≤ length l
    → p ≤ length m
    → (common_suffix p l m + p ≤ length l)
      × (common_suffix p l m + p ≤ length m)
      × (eq_list (drop (length l - common_suffix p l m) l) (drop (length m - common_suffix p l m) m)
          ≡ true)
unfolding common_suffix
common_suffix_lem p l m hl hm =
    let (le, le', same) = common_prefix_lem (reverse (drop p l)) (reverse (drop p m)) in
    let s = common_prefix (reverse (drop p l)) (reverse (drop p m)) in
    let sl : s + p ≤ length l = omega (arith, length-drop p l, length-reverse (drop p l), le, hl) in
    let sm : s + p ≤ length m =
      omega (arith, length-drop p m, length-reverse (drop p m), le', hm) in
    (
      sl,
      sm,
      rw (last_of_drop p s l sl, last_of_drop p s m sm)
          (eq_list-reverse (take s (reverse (drop p l))) (take s (reverse (drop p m))) same),
    )

first_fits :
    (x y : Value) (l m : List Value)
    → eq_list (y ∷ l) (take (length (y ∷ l)) m) ≡ true
    → eq_list (drop 1 (x ∷ y ∷ l)) (take (length (x ∷ y ∷ l) - 1) m) ≡ true
first_fits x y l m h =
    let e : length (y ∷ l) ≡ length (x ∷ y ∷ l) - 1 = omega arith in
    ap (λ n. eq_list (y ∷ l) (take n m)) (sym e) ∙ h

later_fits :
    (j : ℕ) (x : Value) (l m : List Value)
    → eq_list (drop j l) (take (length l - j) m) ≡ true
    → eq_list (drop (suc j) (x ∷ l)) (take (length (x ∷ l) - suc j) m) ≡ true
later_fits j x l m h =
    let e : length l - j ≡ length (x ∷ l) - suc j = omega arith in
    ap (λ n. eq_list (drop j l) (take n m)) (sym e) ∙ h

pub find_drop_lem :
    (d k : ℕ) (l m : List Value)
    → find_drop d l m ≡ some k
    → (j : ℕ) × (k ≡ d + j)
      × (j ≤ length l)
      × (length l - j ≤ length m)
      × (eq_list (drop j l) (take (length l - j) m) ≡ true)
unfolding find_drop
find_drop_lem d k [] m h = absurd (ground arith)
find_drop_lem d k (x ∷ []) m h = absurd (ground arith)
find_drop_lem d k (x ∷ y ∷ l) m h =
    elim (Bool-cases
      (leb (length (y ∷ l)) (length m) && eq_list (y ∷ l) (take (length (y ∷ l)) m))) [
        | inl fits ↦ (1, ground arith, omega arith, ground arith, first_fits x y l m (ground arith))
        | inr other ↦
            let (j, e, le, fit, same) = find_drop_lem (d + 1) k (y ∷ l) m (ground arith) in
            (suc j, omega arith, omega arith, omega arith, later_fits j x (y ∷ l) m same)
      ]
