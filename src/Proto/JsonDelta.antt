-- ===== src/Proto/JsonDelta.antt =====
-- aigenora/proto/json_delta.py: the delta between two JSON values and its application. Values are
-- immutable here and share no part, as parsed JSON does, so a deep copy is the value itself; a
-- change in place of the value that a path leads to is the value with that part changed.
pub mod Dict
pub mod Json
pub mod Apply
mod Equality
mod Objects
mod Lists
mod Splices
mod Perform
mod Wire
mod Diff
mod Leads
mod Reaches
pub mod Roundtrip
mod Tests
use aigenora.Prelude.{
  ℕ, zero, suc, ◌+◌, ◌-◌, String, Bool, true, false, not, ◌&&◌, ◌||◌, Option, none, some, List, [],
  ◌∷◌, ◌++◌, map, length, take, drop, get_elem?, set as set_elem, str_eq, ltb, leb, ◌==◌,
  if◌then◌else◌, Result, ok, err, ◌>>=◌, ◌>>◌, raise_if,
}
use mathlib.Core.List.{reverse}
use aigenora.Prelude.Int.{pos, negsuc}
use Dict.{Assoc, lookup, contains, insert, without, sort, missing}
use Json.{
  Value, null, bool, int, float, str, arr, obj, Elements, no_elements, element, Members, no_members,
  member, items, from_items, entries, from_entries, eq,
}

-- The messages of `JsonDeltaError`.
pub data DeltaError : Type 0 where
  not_array too_many not_object set_fields remove_invalid splice_fields splice_target splice_bounds
        unsupported bad_path bad_token missing_path out_of_bounds type_mismatch set_target
        remove_target :
      DeltaError

abbrev pub max_path_depth : ℕ
max_path_depth = 32

abbrev pub max_ops : ℕ
max_ops = 1024

-- A step of a path.
pub data Token : Type 0 where
  key : String → Token
  index : ℕ → Token

-- The dictionaries that `_diff` appends; `remove` has the first step of its path apart, since that
-- path is never empty.
pub data Operation : Type 0 where
  set : List Token → Value → Operation
  remove : Token → List Token → Operation
  splice : List Token → ℕ → ℕ → List Value → Operation

-- List equality, `previous[a:] == current[:b]`.
unfoldable pub eq_list : List Value → List Value → Bool
eq_list [] [] = true
eq_list [] (_ ∷ _) = false
eq_list (_ ∷ _) [] = false
eq_list (x ∷ xs) (y ∷ ys) = eq x y && eq_list xs ys

-- The number of rounds of a loop that runs while two elements at one place are equal.
unfoldable pub common_prefix : List Value → List Value → ℕ
common_prefix [] ys = 0
common_prefix (x ∷ xs) [] = 0
common_prefix (x ∷ xs) (y ∷ ys) = let rest = common_prefix xs ys in if eq x y then suc rest else 0

-- The loop that counts from the ends, and stops at the common prefix.
unfoldable pub common_suffix : ℕ → List Value → List Value → ℕ
common_suffix prefix previous current =
    common_prefix (reverse (drop prefix previous)) (reverse (drop prefix current))

-- `for drop in range(…)`: the first count of dropped elements behind which the previous list is a
-- prefix of the current one; `rest` is the previous list without the first `dropped` elements, and
-- the last element is never dropped.
unfoldable pub find_drop : ℕ → List Value → List Value → Option ℕ
unfolding eq_list
find_drop dropped [] current = none
find_drop dropped (x ∷ []) current = none
find_drop dropped (x ∷ y ∷ rest) current =
    let later = find_drop (dropped + 1) (y ∷ rest) current in
    if leb (length (y ∷ rest)) (length current)
      && eq_list (y ∷ rest) (take (length (y ∷ rest)) current)
    then some (dropped + 1)
    else later

unfoldable pub shift_ops : List Token → ℕ → ℕ → List Value → List Operation
shift_ops path dropped overlap current =
    splice path 0 dropped []
    ∷ (if ltb overlap (length current)
        then splice path overlap 0 (drop overlap current) ∷ []
        else [])

-- `_diff_list`
unfoldable pub diff_list : List Value → List Value → List Token → List Operation
diff_list previous current path =
    let prefix = common_prefix previous current in
    let suffix = common_suffix prefix previous current in
    if not (prefix == 0) || not (suffix == 0)
    then splice path prefix (length previous - suffix - prefix)
        (drop prefix (take (length current - suffix) current))
      ∷ []
    else elim (find_drop 0 previous current) [
      | some dropped ↦ shift_ops path dropped (length previous - dropped) current
      | none ↦ splice path 0 (length previous) current ∷ []
    ]

-- `[*path, key]` of a removal.
unfoldable pub remove_at : List Token → String → Operation
remove_at [] k = remove (key k) []
remove_at (t ∷ ts) k = remove t (ts ++ key k ∷ [])

unfoldable pub removals : List Token → Assoc Value → List Operation
unfolding remove_at
removals path [] = []
removals path ((k, v) ∷ l) = remove_at path k ∷ removals path l

unfoldable pub additions : List Token → Assoc Value → List Operation
additions path [] = []
additions path ((k, v) ∷ l) = set (path ++ key k ∷ []) v ∷ additions path l

unfoldable pub join : Assoc (List Operation) → List Operation
join [] = []
join ((k, ops) ∷ l) = ops ++ join l

-- `_diff`. The recursive calls for the common keys are made as the previous dict is walked, and
-- their operations are appended in the order of the keys.
unfoldable mutual
  pub diff : Value → Value → List Token → List Operation
  diff (arr xs) current path = elim current [
    | arr ys ↦ if eq (arr xs) (arr ys) then [] else diff_list (items xs) (items ys) path
    | other ↦ set path other ∷ []
  ]
  diff (obj fs) current path =
      let common = diff_common fs in
      elim current [
        | obj gs ↦
            if eq (obj fs) (obj gs)
            then []
            else removals path (sort (missing (entries gs) (entries fs)))
              ++ (join (sort (common (entries gs) path))
                  ++ additions path (sort (missing (entries fs) (entries gs))))
        | other ↦ set path other ∷ []
      ]
  diff previous current path = if eq previous current then [] else set path current ∷ []

  -- For each key of the previous dict that the current one has: the operations of the recursive call.
  pub diff_common : Members → Assoc Value → List Token → Assoc (List Operation)
  diff_common no_members g path = []
  diff_common (member k v fs) g path =
      let rest = diff_common fs g path in
      elim (lookup k g) [ none ↦ rest | some w ↦ (k, diff v w (path ++ key k ∷ [])) ∷ rest ]

abbrev pub token_value : Token → Value
token_value (key k) = str k
token_value (index n) = int (pos n)

abbrev pub path_value : List Token → Value
path_value path = arr (from_items (map token_value path))

-- The dictionary of an operation.
unfoldable pub to_wire : Operation → Value
to_wire (set path v) =
    obj (member "op" (str "set") (member "path" (path_value path) (member "value" v no_members)))
to_wire (remove t ts) =
    obj (member "op" (str "remove") (member "path" (path_value (t ∷ ts)) no_members))
to_wire (splice path i d vs) = obj (
    member "op" (str "splice") (
      member "path" (path_value path) (
        member "index" (int (pos i))
          (member "delete" (int (pos d)) (member "items" (arr (from_items vs)) no_members)))))

unfoldable pub path_of : Operation → List Token
path_of (set path _) = path
path_of (remove t ts) = t ∷ ts
path_of (splice path _ _ _) = path

unfoldable pub is_deep : List Operation → Bool
unfolding path_of
is_deep [] = false
is_deep (o ∷ os) = ltb max_path_depth (length (path_of o)) || is_deep os

-- `make_json_delta` before its result is written out as JSON.
unfoldable pub delta_ops : Value → Value → List Operation
unfolding is_deep
delta_ops previous current =
    let ops = diff previous current [] in
    if ltb max_ops (length ops) || is_deep ops then set [] current ∷ [] else ops

unfoldable pub make_json_delta : Value → Value → Value
unfolding delta_ops
make_json_delta previous current = arr (from_items (map to_wire (delta_ops previous current)))
