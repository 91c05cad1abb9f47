-- ===== src/Proto/JsonDelta/Tests.antt =====
-- Deltas of concrete values, and the theorems of Roundtrip at them.
use aigenora.Prelude.{◌≡◌, refl, true, false, List, [], ◌∷◌, ok, err, ◌↔◌, length, ltb}
use aigenora.Prelude.Int.{pos}
use aigenora.Proto.JsonDelta.Json.{
  Value, int, bool, str, arr, obj, null, from_items, from_entries, eq, IsJson, entries, items,
  as_number, double_eq, is_nan, number_eq, number_eq_value, whole_double_eq, ℤ_eq,
}
use aigenora.Proto.JsonDelta.Dict.{lookup, sort, missing, contains, str_leb, place}
use aigenora.Proto.JsonDelta.{
  max_ops, diff, removals, join, diff_list, common_prefix, common_suffix, find_drop, additions,
  eq_list, is_deep, path_of, remove_at, shift_ops, key, set, remove, splice, delta_ops,
  make_json_delta, not_array,
}
use aigenora.Proto.JsonDelta.Apply.{apply_json_delta}
use aigenora.Proto.JsonDelta.Roundtrip.{delta_roundtrip, delta_empty, delta_ops-bounds}

abbrev list : List Value → Value
list l = arr (from_items l)

-- A hand, a score that is gone and a log that grows.
abbrev before : Value
before = obj (
    from_entries (
      ("score", int (pos 3))
      ∷ ("log", list (str "a" ∷ str "b" ∷ str "c" ∷ []))
      ∷ ("turn", int (pos 0))
      ∷ []))

abbrev after : Value
after = obj (
    from_entries (
      ("turn", int (pos 1))
      ∷ ("log", list (str "b" ∷ str "c" ∷ str "d" ∷ []))
      ∷ ("winner", null)
      ∷ []))

before_to_after :
    delta_ops before after
    ≡ remove (key "score") []
      ∷ splice (key "log" ∷ []) 0 1 []
      ∷ splice (key "log" ∷ []) 2 0 (str "d" ∷ [])
      ∷ set (key "turn" ∷ []) (int (pos 1))
      ∷ set (key "winner" ∷ []) null
      ∷ []
unfolding delta_ops diff eq entries from_entries lookup removals sort missing contains join str_leb
    from_items diff_list common_prefix items common_suffix find_drop place as_number double_eq
    is_nan number_eq number_eq_value whole_double_eq ℤ_eq additions eq_list is_deep path_of
    remove_at shift_ops
before_to_after = refl

-- `1` and `True` are equal, so the delta between them is empty.
one_and_true : delta_ops (int (pos 1)) (bool true) ≡ []
unfolding delta_ops diff eq number_eq_value as_number number_eq ℤ_eq is_deep
one_and_true = refl

malformed : apply_json_delta before null ≡ err not_array
unfolding apply_json_delta
malformed = refl

before-IsJson : IsJson before
unfolding IsJson entries from_entries from_items lookup
before-IsJson = ((refl, (refl, (refl, tt))), (tt, ((tt, (tt, (tt, tt))), (tt, tt))))

after-IsJson : IsJson after
unfolding IsJson entries from_entries from_items lookup
after-IsJson = ((refl, (refl, (refl, tt))), (tt, ((tt, (tt, (tt, tt))), (tt, tt))))

delta_roundtrip_example :
    (result : Value) × (apply_json_delta before (make_json_delta before after) ≡ ok result)
    × (eq result after ≡ true)
delta_roundtrip_example = delta_roundtrip before after before-IsJson after-IsJson

delta_empty_example : (delta_ops before after ≡ []) ↔ (eq before after ≡ true)
delta_empty_example = delta_empty before after before-IsJson after-IsJson

delta_ops-bounds_example :
    (ltb max_ops (length (delta_ops before after)) ≡ false)
    × (is_deep (delta_ops before after) ≡ false)
delta_ops-bounds_example = delta_ops-bounds before after
