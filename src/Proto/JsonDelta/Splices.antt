-- ===== src/Proto/JsonDelta/Splices.antt =====
-- The operations that `_diff_list` of aigenora/proto/json_delta.py appends turn the previous array
-- into one that is equal to the current array.
use mathlib.Core.List.{append-nil, append_assoc}
use mathlib.Core.Path.{subst}
use aigenora.Prelude.{
  ℕ, zero, suc, ◌+◌, ◌-◌, ◌≤◌, ◌≡◌, refl, ap, ◌∙◌, sym, true, List, [], ◌∷◌, ◌++◌, arith,
  Bool-cases, Option-cases, inl, inr, length, take, drop, ltb, not, ◌||◌, ◌==◌, length-drop,
  take-append-drop, ok,
}
use aigenora.Proto.JsonDelta.Json.{Value, arr, from_items, items-from_items}
use aigenora.Proto.JsonDelta.{
  Operation, splice, eq_list, common_prefix, common_suffix, find_drop, shift_ops, diff_list,
}
use aigenora.Proto.JsonDelta.Apply.{update_at, splice_target_at}
use aigenora.Proto.JsonDelta.Perform.{perform, perform_all}
use aigenora.Proto.JsonDelta.Lists.{
  Reflexive, Reflexive-drop, Reflexive-take, eq_list_refl, eq_list-append, common_prefix_lem,
  common_suffix_lem, find_drop_lem,
}

-- The array of some elements.
abbrev pub array : List Value → Value
array l = arr (from_items l)

pub perform-splice :
    (i d : ℕ) (vs l : List Value)
    → i + d ≤ length l
    → perform (splice [] i d vs) (array l) ≡ ok (array (take i l ++ (vs ++ drop (i + d) l)))
unfolding perform update_at splice_target_at
perform-splice i d vs l h = rw (items-from_items l, items-from_items vs) (ground arith)

-- The operations lead from one list to a list equal to another.
abbrev pub Leads : List Operation → List Value → List Value → Type 0
Leads os l m = (r : List Value) × (perform_all os (array l) ≡ ok (array r)) × (eq_list r m ≡ true)

Leads-by_splice :
    (i d : ℕ) (vs l m : List Value)
    → i + d ≤ length l
    → eq_list (take i l ++ (vs ++ drop (i + d) l)) m ≡ true
    → Leads (splice [] i d vs ∷ []) l m
unfolding perform_all
Leads-by_splice i d vs l m h e =
    (take i l ++ (vs ++ drop (i + d) l), rw (perform-splice i d vs l h), e)

take-take : (p e : ℕ) (l : List Value) → p ≤ e → take p (take e l) ≡ take p l
take-take zero e l h = refl
take-take (suc p) zero l h = absurd (omega arith)
take-take (suc p) (suc e) [] h = refl
take-take (suc p) (suc e) (x ∷ l) h = ap (λ t. x ∷ t) (take-take p e l (omega arith))

in_three : (p e : ℕ) (m : List Value) → p ≤ e → take p m ++ (drop p (take e m) ++ drop e m) ≡ m
in_three p e m h =
    ap (λ t. t ++ (drop p (take e m) ++ drop e m)) (sym (take-take p e m h))
    ∙ sym (append_assoc (take p (take e m)) (drop p (take e m)) (drop e m))
    ∙ ap (λ t. t ++ drop e m) (take-append-drop p (take e m))
    ∙ take-append-drop e m

drop_all : (l : List Value) → drop (0 + length l) l ≡ []
drop_all [] = refl
drop_all (x ∷ l) = ap (λ n. drop n (x ∷ l)) e ∙ drop_all l
  where
    e : 0 + suc (length l) ≡ suc (0 + length l)
    e = omega arith

take_all : (n : ℕ) (l : List Value) → length l ≤ n → take n l ≡ l
take_all zero [] h = refl
take_all zero (x ∷ l) h = absurd (omega arith)
take_all (suc n) [] h = refl
take_all (suc n) (x ∷ l) h = ap (λ t. x ∷ t) (take_all n l (omega arith))

drop_front :
    (j : ℕ) (l : List Value)
    → j ≤ length l
    → perform (splice [] 0 j []) (array l) ≡ ok (array (drop j l))
drop_front j l h =
    perform-splice 0 j [] l (omega (arith, h)) ∙ ap (λ n. ok (array (drop n l))) (omega arith)

append_back :
    (n : ℕ) (vs l : List Value)
    → length l ≡ n
    → perform (splice [] n 0 vs) (array l) ≡ ok (array (l ++ vs))
append_back n vs l e =
    perform-splice n 0 vs l (omega (arith, e))
    ∙ ap (λ t. ok (array (t ++ (vs ++ drop (n + 0) l)))) (take_all n l (omega (arith, e)))
    ∙ ap (λ k. ok (array (l ++ (vs ++ drop k l)))) (omega (arith, e))
    ∙ ap (λ t. ok (array (l ++ (vs ++ t)))) (drop_all l)
    ∙ ap (λ t. ok (array (l ++ t))) (append-nil vs)

-- A common prefix and a common suffix stay, and what is between them is replaced.
middle-Leads :
    (l m : List Value) (p s : ℕ)
    → Reflexive m
    → s + p ≤ length l
    → s + p ≤ length m
    → eq_list (take p l) (take p m) ≡ true
    → eq_list (drop (length l - s) l) (drop (length m - s) m) ≡ true
    → Leads (splice [] p (length l - s - p) (drop p (take (length m - s) m)) ∷ []) l m
middle-Leads l m p s r hl hm front back =
    Leads-by_splice p (length l - s - p) (drop p (take (length m - s) m)) l m (omega (arith, hl)) (
      ap (λ n. eq_list (take p l ++ (drop p (take (length m - s) m) ++ drop n l)) m)
        (omega (arith, hl))
      ∙ sym (
          ap (eq_list (take p l ++ (drop p (take (length m - s) m) ++ drop (length l - s) l)))
            (in_three p (length m - s) m (omega (arith, hm))))
      ∙ eq_list-append (take p l) (take p m)
          (drop p (take (length m - s) m) ++ drop (length l - s) l)
          (drop p (take (length m - s) m) ++ drop (length m - s) m) front
          (eq_list-append (drop p (take (length m - s) m)) (drop p (take (length m - s) m))
            (drop (length l - s) l) (drop (length m - s) m)
            (eq_list_refl (drop p (take (length m - s) m))
              (Reflexive-drop p (take (length m - s) m) (Reflexive-take (length m - s) m r)))
            back))

shift-Leads :
    (l m : List Value) (j : ℕ)
    → Reflexive m
    → j ≤ length l
    → length l - j ≤ length m
    → eq_list (drop j l) (take (length l - j) m) ≡ true
    → Leads (shift_ops [] j (length l - j) m) l m
unfolding shift_ops
shift-Leads l m j r h fit same = elim (Bool-cases (ltb (length l - j) (length m))) [
  | inl more ↦ rw more (
    drop j l ++ drop (length l - j) m,
    unfold perform_all in
        rw
          (
            drop_front j l h,
            append_back (length l - j) (drop (length l - j) m) (drop j l) (length-drop j l),
          )
          refl,
    sym (ap (eq_list (drop j l ++ drop (length l - j) m)) (take-append-drop (length l - j) m))
        ∙ eq_list-append (drop j l) (take (length l - j) m) (drop (length l - j) m)
            (drop (length l - j) m) same
            (eq_list_refl (drop (length l - j) m) (Reflexive-drop (length l - j) m r)),
  )
  | inr whole ↦ rw whole (
    drop j l,
    unfold perform_all in rw (drop_front j l h) refl,
    sym (ap (eq_list (drop j l)) (take_all (length l - j) m (ground arith))) ∙ same,
  )
]

shift_at :
    (l m : List Value) (k j : ℕ)
    → Reflexive m
    → k ≡ j
    → j ≤ length l
    → length l - j ≤ length m
    → eq_list (drop j l) (take (length l - j) m) ≡ true
    → Leads (shift_ops [] k (length l - k) m) l m
shift_at l m k j r e le fit same =
    subst (λ n. Leads (shift_ops [] n (length l - n) m) l m) (sym e)
      (shift-Leads l m j r le fit same)

replace-Leads : (l m : List Value) → Reflexive m → Leads (splice [] 0 (length l) m ∷ []) l m
replace-Leads l m r = Leads-by_splice 0 (length l) m l m (omega arith) (
    ap (λ t. eq_list (m ++ t) m) (drop_all l)
    ∙ ap (λ t. eq_list t m) (append-nil m)
    ∙ eq_list_refl m r)

pub diff_list-Leads : (l m : List Value) → Reflexive m → Leads (diff_list l m []) l m
unfolding diff_list
diff_list-Leads l m r =
    let (pl, pm, front) = common_prefix_lem l m in
    let (sl, sm, back) = common_suffix_lem (common_prefix l m) l m pl pm in
    elim (Bool-cases
      (not (common_prefix l m == 0) || not (common_suffix (common_prefix l m) l m == 0))) [
        | inl some_common ↦ rw some_common (
            middle-Leads l m (common_prefix l m) (common_suffix (common_prefix l m) l m) r sl sm
              front back)
        | inr none_common ↦ elim (Option-cases (find_drop 0 l m)) [
          | inl never ↦ rw (none_common, never) (replace-Leads l m r)
          | inr (k, found) ↦
              rw (none_common, found)
                (let (j, e, le, fit, same) = find_drop_lem 0 k l m found in
                  shift_at l m k j r (e ∙ omega arith) le fit same)
        ]
      ]
