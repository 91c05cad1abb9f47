-- ===== src/Proto/JsonDelta/Roundtrip.antt =====
-- `apply_json_delta` after `make_json_delta` of aigenora/proto/json_delta.py.
use mathlib.Core.Path.{subst}
use aigenora.Prelude.{
  ◌≡◌, refl, ap, ◌∙◌, sym, true, false, ◌||◌, [], map, arith, ok, Bool-cases, inl, inr, length, ltb,
  length-map, ◌↔◌,
}
use aigenora.Proto.JsonDelta.Json.{Value, items-from_items, eq, IsJson, arr, obj}
use aigenora.Proto.JsonDelta.{diff, to_wire, is_deep, path_of, delta_ops, make_json_delta, max_ops}
use aigenora.Proto.JsonDelta.Apply.{apply_json_delta}
use aigenora.Proto.JsonDelta.Perform.{perform_all}
use aigenora.Proto.JsonDelta.Reaches.{diff-Reaches, set_reaches}
use aigenora.Proto.JsonDelta.Wire.{apply_all-to_wire}

-- Every delta keeps the bounds that apply_json_delta checks: at most 1024 operations, and no path of
-- more than 32 steps.
pub delta_ops-bounds :
    (v w : Value)
    → (ltb max_ops (length (delta_ops v w)) ≡ false) × (is_deep (delta_ops v w) ≡ false)
unfolding delta_ops
delta_ops-bounds v w =
    elim (Bool-cases (ltb max_ops (length (diff v w [])) || is_deep (diff v w []))) [
      | inl over ↦ rw over (refl, unfold is_deep path_of in refl)
      | inr within ↦ rw within (ground arith, ground arith)
    ]

delta_ops_reaches :
    (v w : Value)
    → IsJson v
    → IsJson w
    → (r : Value) × (perform_all (delta_ops v w) v ≡ ok r) × (eq r w ≡ true)
unfolding delta_ops
delta_ops_reaches v w jv jw =
    elim (Bool-cases (ltb max_ops (length (diff v w [])) || is_deep (diff v w []))) [
      | inl over ↦ rw over (set_reaches v w jw)
      | inr within ↦ rw within (diff-Reaches v w jv jw)
    ]

apply_json_delta-make_json_delta :
    (v w : Value) → apply_json_delta v (make_json_delta v w) ≡ perform_all (delta_ops v w) v
unfolding apply_json_delta make_json_delta
apply_json_delta-make_json_delta v w =
    let (short, shallow) = delta_ops-bounds v w in
    rw (items-from_items (map to_wire (delta_ops v w)), length-map (delta_ops v w) to_wire, short)
      (apply_all-to_wire (delta_ops v w) v shallow)

-- For JSON values, a delta of two values applies to the first without an error, and the result
-- equals the second.
pub delta_roundtrip :
    (previous current : Value)
    → IsJson previous
    → IsJson current
    → (result : Value) × (apply_json_delta previous (make_json_delta previous current) ≡ ok result)
      × (eq result current ≡ true)
delta_roundtrip previous current jp jc =
    let (r, run, same) = delta_ops_reaches previous current jp jc in
    (r, apply_json_delta-make_json_delta previous current ∙ run, same)

diff_of_eq : (v w : Value) → eq v w ≡ true → diff v w [] ≡ []
unfolding diff eq
diff_of_eq (arr xs) (arr ys) h = rw h refl
diff_of_eq (arr xs) w h = absurd (ground arith)
diff_of_eq (obj fs) (obj gs) h = rw h refl
diff_of_eq (obj fs) w h = absurd (ground arith)
diff_of_eq v w h = rw h refl

empty_of_eq : (v w : Value) → eq v w ≡ true → delta_ops v w ≡ []
unfolding delta_ops is_deep
empty_of_eq v w h = rw (diff_of_eq v w h) refl

eq_of_empty : (v w : Value) → IsJson v → IsJson w → delta_ops v w ≡ [] → eq v w ≡ true
unfolding perform_all
eq_of_empty v w jv jw e =
    let (r, run, same) = delta_ops_reaches v w jv jw in
    let p : ok v ≡ ok r = ap (λ os. perform_all os v) (sym e) ∙ run in
    let q : v ≡ r = cc in subst (λ x. eq x w ≡ true) (sym q) same

-- For JSON values, the delta has no operation exactly where the two values are equal.
pub delta_empty :
    (previous current : Value)
    → IsJson previous
    → IsJson current
    → (delta_ops previous current ≡ []) ↔ (eq previous current ≡ true)
delta_empty previous current jp jc =
    (eq_of_empty previous current jp jc, empty_of_eq previous current)
