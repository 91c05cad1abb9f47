-- ===== src/Proto/JsonDelta/Apply.antt =====
-- `apply_json_delta` of aigenora/proto/json_delta.py.
use aigenora.Prelude.{
  ℕ, ◌+◌, ◌-◌, String, Bool, true, false, not, ◌&&◌, Option, none, some, List, [], ◌∷◌, ◌++◌,
  length, take, drop, get_elem?, set as set_elem, str_eq, ltb, leb, ◌==◌, if◌then◌else◌, Result, ok,
  err, ◌>>=◌, ◌>>◌, raise_if,
}
use aigenora.Prelude.Int.{pos}
use aigenora.Proto.JsonDelta.Dict.{Assoc, lookup, contains, insert, without}
use aigenora.Proto.JsonDelta.Json.{
  Value, null, int, str, arr, obj, items, from_items, entries, from_entries,
}
use aigenora.Proto.JsonDelta.{
  DeltaError, not_array, too_many, not_object, set_fields, remove_invalid, splice_fields,
  splice_target, splice_bounds, unsupported, bad_path, bad_token, missing_path, out_of_bounds,
  type_mismatch, set_target, remove_target, max_path_depth, max_ops, Token, key, index,
}

-- The element or the entry that a step leads to.
unfoldable pub get_child : Value → Token → Result DeltaError Value
get_child (obj fs) (key k) = elim (lookup k (entries fs)) [
  | none ↦ err missing_path
  | some v ↦ ok v
]
get_child (arr xs) (index n) = elim (get_elem? (items xs) n) [
  | none ↦ err out_of_bounds
  | some v ↦ ok v
]
get_child _ _ = err type_mismatch

-- The parent with the value at a step replaced: what a change in place of that value amounts to.
unfoldable pub put_child : Value → Token → Value → Value
put_child (obj fs) (key k) v = obj (from_entries (insert k v (entries fs)))
put_child (arr xs) (index n) v = arr (from_items (set_elem (items xs) n v))
put_child parent _ v = parent

-- `_resolve_value`, and a change in place of the value that it returns.
unfoldable pub update_at :
    (Value → Result DeltaError Value) → List Token → Value → Result DeltaError Value
unfolding get_child put_child
update_at f [] v = f v
update_at f (t ∷ ts) v = do
  child ← get_child v t
  child' ← update_at f ts child
  ok (put_child v t child')

-- `_resolve_parent` of a path that is not empty, and a change in place of the parent at the last
-- step.
unfoldable pub update_parent :
    (Value → Token → Result DeltaError Value) → Token → List Token → Value → Result DeltaError Value
unfolding get_child put_child
update_parent f t [] v = f v t
update_parent f t (u ∷ us) v = do
  child ← get_child v t
  child' ← update_parent f u us child
  ok (put_child v t child')

unfoldable pub set_child : Value → Value → Token → Result DeltaError Value
unfolding put_child
set_child v (obj fs) (key k) = ok (put_child (obj fs) (key k) v)
set_child v (arr xs) (index n) =
    if ltb n (length (items xs)) then ok (put_child (arr xs) (index n) v) else err set_target
set_child v _ _ = err set_target

unfoldable pub remove_child : Value → Token → Result DeltaError Value
remove_child (obj fs) (key k) =
    if contains k (entries fs)
    then ok (obj (from_entries (without k (entries fs))))
    else err remove_target
remove_child (arr xs) (index n) =
    if ltb n (length (items xs))
    then ok (arr (from_items (take n (items xs) ++ drop (n + 1) (items xs))))
    else err remove_target
remove_child _ _ = err remove_target

-- An integer that is no bool and not negative.
abbrev pub as_index : Option Value → Option ℕ
as_index (some (int (pos n))) = some n
as_index _ = none

abbrev as_items : Option Value → Option (List Value)
as_items (some (arr xs)) = some (items xs)
as_items _ = none

abbrev splice_items :
    List Value → Option ℕ → Option ℕ → Option (List Value) → Result DeltaError Value
splice_items l (some i) (some d) (some vs) =
    if leb i (length l) && leb d (length l - i)
    then ok (arr (from_items (take i l ++ (vs ++ drop (i + d) l))))
    else err splice_bounds
splice_items l _ _ _ = err splice_bounds

-- The splice of a resolved target.
unfoldable pub splice_target_at :
    Option Value → Option Value → Option Value → Value → Result DeltaError Value
splice_target_at i d vs (arr xs) = splice_items (items xs) (as_index i) (as_index d) (as_items vs)
splice_target_at i d vs _ = err splice_target

abbrev token_of : Value → Result DeltaError Token
token_of (str k) = ok (key k)
token_of (int (pos n)) = ok (index n)
token_of _ = err bad_token

unfoldable pub tokens_of : List Value → Result DeltaError (List Token)
tokens_of [] = ok []
tokens_of (v ∷ vs) = do t ← token_of v; ts ← tokens_of vs; ok (t ∷ ts)

-- `_validate_path`
unfoldable pub validate_path : Option Value → Result DeltaError (List Token)
unfolding tokens_of
validate_path (some (arr xs)) =
    if ltb max_path_depth (length (items xs)) then err bad_path else tokens_of (items xs)
validate_path _ = err bad_path

unfoldable pub has_keys : List String → Assoc Value → Bool
has_keys [] d = true
has_keys (k ∷ ks) d = contains k d && has_keys ks d

-- `set(operation) == {…}`
unfoldable pub keys_are : List String → Assoc Value → Bool
unfolding has_keys
keys_are ks d = length d == length ks && has_keys ks d

-- The root that a path leads to, or its part, set to a value.
unfoldable pub set_at : Value → List Token → Value → Result DeltaError Value
unfolding update_parent
set_at v [] root = ok v
set_at v (t ∷ ts) root = update_parent (set_child v) t ts root

abbrev value_or_null : Option Value → Value
value_or_null none = null
value_or_null (some v) = v

unfoldable pub apply_set : Assoc Value → List Token → Value → Result DeltaError Value
unfolding set_at
apply_set d path root = do
  raise_if (not (keys_are ("op" ∷ "path" ∷ "value" ∷ []) d)) set_fields
  set_at (value_or_null (lookup "value" d)) path root

unfoldable pub apply_remove : Assoc Value → List Token → Value → Result DeltaError Value
apply_remove d [] root = err remove_invalid
apply_remove d (t ∷ ts) root = do
  raise_if (not (keys_are ("op" ∷ "path" ∷ []) d)) remove_invalid
  update_parent remove_child t ts root

unfoldable pub apply_splice : Assoc Value → List Token → Value → Result DeltaError Value
apply_splice d path root = do
  raise_if (not (keys_are ("op" ∷ "path" ∷ "index" ∷ "delete" ∷ "items" ∷ []) d)) splice_fields
  update_at (splice_target_at (lookup "index" d) (lookup "delete" d) (lookup "items" d)) path root

abbrev is_kind : String → Option Value → Bool
is_kind name (some (str s)) = str_eq s name
is_kind name _ = false

-- The body of the loop of `apply_json_delta`, on the result so far.
unfoldable pub apply_operation : Value → Value → Result DeltaError Value
unfolding validate_path apply_set apply_remove apply_splice
apply_operation root (obj fs) = do
  path ← validate_path (lookup "path" (entries fs))
  if is_kind "set" (lookup "op" (entries fs))
      then apply_set (entries fs) path root
      else if is_kind "remove" (lookup "op" (entries fs))
      then apply_remove (entries fs) path root
      else if is_kind "splice" (lookup "op" (entries fs))
      then apply_splice (entries fs) path root
      else err unsupported
apply_operation root _ = err not_object

unfoldable pub apply_all : Value → List Value → Result DeltaError Value
unfolding apply_operation
apply_all root [] = ok root
apply_all root (o ∷ os) = apply_operation root o >>= λ next. apply_all next os

unfoldable pub apply_json_delta : Value → Value → Result DeltaError Value
unfolding apply_all
apply_json_delta previous (arr os) = do
  raise_if (ltb max_ops (length (items os))) too_many
  apply_all previous (items os)
apply_json_delta previous _ = err not_array
