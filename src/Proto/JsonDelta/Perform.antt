-- ===== src/Proto/JsonDelta/Perform.antt =====
-- What one operation of a delta does, on operations as data; and an operation inside one entry of an
-- object, which changes that entry alone.
use aigenora.Prelude.{
  String, ◌≡◌, refl, ap, ◌∙◌, sym, some, List, [], ◌∷◌, ◌++◌, map, arith, eq_refl, Result, ok, err,
  ◌>>=◌, Result-cases, inl, inr,
}
use aigenora.Prelude.Int.{pos}
use aigenora.Proto.JsonDelta.Dict.{Assoc, lookup, insert, lookup-insert, insert_same, insert-insert}
use aigenora.Proto.JsonDelta.Json.{
  Value, int, arr, obj, from_items, from_entries, entries-from_entries,
}
use aigenora.Proto.JsonDelta.{Token, key, Operation, set, remove, splice, DeltaError}
use aigenora.Proto.JsonDelta.Apply.{
  set_at, update_parent, update_at, set_child, remove_child, splice_target_at, get_child, put_child,
}

unfoldable pub perform : Operation → Value → Result DeltaError Value
unfolding set_at
perform (set path v) root = set_at v path root
perform (remove t ts) root = update_parent remove_child t ts root
perform (splice path i d vs) root =
    update_at
      (splice_target_at (some (int (pos i))) (some (int (pos d))) (some (arr (from_items vs)))) path
      root

unfoldable pub perform_all : List Operation → Value → Result DeltaError Value
unfolding perform
perform_all [] root = ok root
perform_all (o ∷ os) root = perform o root >>= perform_all os

unfoldable pub prefixed : Token → Operation → Operation
prefixed t (set path v) = set (t ∷ path) v
prefixed t (remove u us) = remove t (u ∷ us)
prefixed t (splice path i d vs) = splice (t ∷ path) i d vs

-- The object with given entries.
unfoldable pub object : Assoc Value → Value
object l = obj (from_entries l)

pub perform_all-append :
    (os ps : List Operation) (root : Value)
    → perform_all (os ++ ps) root ≡ (perform_all os root >>= perform_all ps)
unfolding perform_all
perform_all-append [] ps root = refl
perform_all-append (o ∷ os) ps root = elim (Result-cases (perform o root)) [
  | inl (v, returned) ↦ rw returned (perform_all-append os ps v)
  | inr (e, raised) ↦ rw raised
]

-- A change of the entry `k`, which holds `c`.
abbrev enter : String → Assoc Value → Result DeltaError Value → Result DeltaError Value
enter k l r = r >>= λ c'. ok (object (insert k c' l))

get_child-object :
    (k : String) (l : Assoc Value) (c : Value)
    → lookup k l ≡ some c
    → get_child (object l) (key k) ≡ ok c
unfolding get_child object
get_child-object k l c h = ground (arith, h, entries-from_entries l)

put_child-object :
    (k : String) (l : Assoc Value) (c : Value)
    → put_child (object l) (key k) c ≡ object (insert k c l)
unfolding put_child object
put_child-object k l c = rw entries-from_entries

enter_put :
    (k : String) (l : Assoc Value) (r : Result DeltaError Value)
    → (r >>= λ c'. ok (put_child (object l) (key k) c')) ≡ enter k l r
enter_put k l (err e) = refl
enter_put k l (ok c) = ap ok (put_child-object k l c)

enter-insert :
    (k : String) (l : Assoc Value) (c : Value) (r : Result DeltaError Value)
    → enter k (insert k c l) r ≡ enter k l r
enter-insert k l c (err e) = refl
enter-insert k l c (ok v) = ap (λ m. ok (object m)) (insert-insert k v c l)

pub perform-prefixed :
    (k : String) (l : Assoc Value) (c : Value) (o : Operation)
    → lookup k l ≡ some c
    → perform (prefixed (key k) o) (object l) ≡ enter k l (perform o c)
unfolding perform prefixed
perform-prefixed k l c (set [] v) h = unfold set_child object put_child in rw entries-from_entries
perform-prefixed k l c (set (t ∷ ts) v) h =
    rw (get_child-object k l c h) (enter_put k l (update_parent (set_child v) t ts c))
perform-prefixed k l c (remove t ts) h =
    rw (get_child-object k l c h) (enter_put k l (update_parent remove_child t ts c))
perform-prefixed k l c (splice path i d vs) h =
    unfold update_at in
    rw (get_child-object k l c h) (
      enter_put k l (
        update_at
          (splice_target_at (some (int (pos i))) (some (int (pos d))) (some (arr (from_items vs))))
          path c))

-- Operations inside one entry run as they would on its value alone.
pub perform_all-prefixed :
    (k : String) (l : Assoc Value) (c : Value) (os : List Operation)
    → lookup k l ≡ some c
    → perform_all (map (prefixed (key k)) os) (object l) ≡ enter k l (perform_all os c)
unfolding perform_all
perform_all-prefixed k l c [] h = ap (λ m. ok (object m)) (sym (insert_same k c l h))
perform_all-prefixed k l c (o ∷ os) h = elim (Result-cases (perform o c)) [
  | inr (e, raised) ↦ rw (perform-prefixed k l c o h, raised)
  | inl (c1, returned) ↦
      rw (perform-prefixed k l c o h, returned)
        (perform_all-prefixed k (insert k c1 l) c1 os (lookup-insert k k c1 l ∙ rw (eq_refl k))
          ∙ enter-insert k l c1 (perform_all os c1))
]
