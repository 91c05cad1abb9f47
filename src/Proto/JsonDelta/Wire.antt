-- ===== src/Proto/JsonDelta/Wire.antt =====
-- The operations of a delta as JSON, for aigenora/proto/json_delta.py: each is applied as it is meant.
use aigenora.Prelude.{
  ◌≡◌, refl, false, some, List, [], ◌∷◌, map, arith, ok, Result-cases, inl, inr, length, ltb,
  length-map,
}
use aigenora.Proto.JsonDelta.Dict.{lookup, contains}
use aigenora.Proto.JsonDelta.Json.{Value, entries, items-from_items}
use aigenora.Proto.JsonDelta.{
  Token, key, index, Operation, set, remove, splice, token_value, path_value, to_wire, path_of,
  is_deep, max_path_depth,
}
use aigenora.Proto.JsonDelta.Apply.{
  tokens_of, validate_path, apply_set, apply_remove, apply_splice, apply_operation, apply_all,
  keys_are, has_keys,
}
use aigenora.Proto.JsonDelta.Perform.{perform, perform_all}

tokens_of-token_value : (path : List Token) → tokens_of (map token_value path) ≡ ok path
unfolding tokens_of
tokens_of-token_value [] = refl
tokens_of-token_value (key k ∷ path) = rw (tokens_of-token_value path) refl
tokens_of-token_value (index n ∷ path) = rw (tokens_of-token_value path) refl

validate_path-path_value :
    (path : List Token)
    → ltb max_path_depth (length path) ≡ false
    → validate_path (some (path_value path)) ≡ ok path
unfolding validate_path
validate_path-path_value path h =
    rw (items-from_items (map token_value path), length-map path token_value, h)
      (tokens_of-token_value path)

apply_operation-to_wire :
    (o : Operation) (root : Value)
    → ltb max_path_depth (length (path_of o)) ≡ false
    → apply_operation root (to_wire o) ≡ perform o root
unfolding apply_operation to_wire perform path_of lookup entries apply_set apply_remove apply_splice
    keys_are has_keys contains
apply_operation-to_wire (set path v) root h = rw (validate_path-path_value path h) refl
apply_operation-to_wire (remove t ts) root h = rw (validate_path-path_value (t ∷ ts) h) refl
apply_operation-to_wire (splice path i d vs) root h = rw (validate_path-path_value path h) refl

pub apply_all-to_wire :
    (os : List Operation) (root : Value)
    → is_deep os ≡ false
    → apply_all root (map to_wire os) ≡ perform_all os root
unfolding apply_all perform_all is_deep
apply_all-to_wire [] root h = refl
apply_all-to_wire (o ∷ os) root h = elim (Result-cases (perform o root)) [
  | inr (e, raised) ↦ rw (apply_operation-to_wire o root (ground arith), raised) refl
  | inl (v, returned) ↦
      rw (apply_operation-to_wire o root (ground arith), returned)
        (apply_all-to_wire os v (ground arith))
]
