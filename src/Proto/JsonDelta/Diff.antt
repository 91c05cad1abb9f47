-- ===== src/Proto/JsonDelta/Diff.antt =====
-- A delta below a longer path is the delta below the shorter one with each path extended.
use mathlib.Core.List.{map-append}
use aigenora.Prelude.{
  ℕ, String, ◌≡◌, refl, ap, sym, List, [], ◌∷◌, ◌++◌, map, arith, Bool-cases, Option-cases, inl,
  inr, length, ◌-◌,
}
use aigenora.Proto.JsonDelta.Dict.{Assoc, lookup, place, sort, missing}
use aigenora.Proto.JsonDelta.Json.{Value, arr, obj, Members, no_members, member, items, entries, eq}
use aigenora.Proto.JsonDelta.{
  Token, key, Operation, set, remove, diff, diff_common, diff_list, shift_ops, removals, additions,
  join, find_drop,
}
use aigenora.Proto.JsonDelta.Perform.{prefixed}

map_values : {V W : Type 0} → (V → W) → Assoc V → Assoc W
map_values f [] = []
map_values f ((k, v) ∷ l) = (k, f v) ∷ map_values f l

module _ {V W : Type 0} (f : V → W) where
  place-map_values :
      (k : String) (v : V) (l : Assoc V)
      → place k (f v) (map_values f l) ≡ map_values f (place k v l)
  unfolding place map_values
  place-map_values k v [] = refl
  place-map_values k v ((j, w) ∷ l) = ground (arith, place-map_values k v l)

  sort-map_values : (l : Assoc V) → sort (map_values f l) ≡ map_values f (sort l)
  unfolding sort map_values
  sort-map_values [] = refl
  sort-map_values ((k, v) ∷ l) = rw (sort-map_values l) (place-map_values k v (sort l))

join-map_values :
    (g : Operation → Operation) (l : Assoc (List Operation))
    → join (map_values (map g) l) ≡ map g (join l)
unfolding join map_values
join-map_values g [] = refl
join-map_values g ((k, os) ∷ l) = rw (join-map_values g l) (sym (map-append g os (join l)))

removals-prefixed :
    (t : Token) (path : List Token) (l : Assoc Value)
    → removals (t ∷ path) l ≡ map (prefixed t) (removals path l)
unfolding removals prefixed
removals-prefixed t path [] = refl
removals-prefixed t [] ((k, v) ∷ l) = ap (λ m. remove t (key k ∷ []) ∷ m) (removals-prefixed t [] l)
removals-prefixed t (u ∷ us) ((k, v) ∷ l) =
    ap (λ m. remove t (u ∷ (us ++ key k ∷ [])) ∷ m) (removals-prefixed t (u ∷ us) l)

additions-prefixed :
    (t : Token) (path : List Token) (l : Assoc Value)
    → additions (t ∷ path) l ≡ map (prefixed t) (additions path l)
unfolding additions prefixed
additions-prefixed t path [] = refl
additions-prefixed t path ((k, v) ∷ l) =
    ap (λ m. set (t ∷ (path ++ key k ∷ [])) v ∷ m) (additions-prefixed t path l)

shift_ops-prefixed :
    (t : Token) (path : List Token) (dropped overlap : ℕ) (l : List Value)
    → shift_ops (t ∷ path) dropped overlap l ≡ map (prefixed t) (shift_ops path dropped overlap l)
unfolding shift_ops prefixed
shift_ops-prefixed t path dropped overlap l = ground arith

diff_list-prefixed :
    (t : Token) (path : List Token) (l m : List Value)
    → diff_list l m (t ∷ path) ≡ map (prefixed t) (diff_list l m path)
unfolding diff_list prefixed
diff_list-prefixed t path l m = elim (Option-cases (find_drop 0 l m)) [
  | inl never ↦ ground (arith, never)
  | inr (dropped, found) ↦
      ground (arith, found, shift_ops-prefixed t path dropped (length l - dropped) m)
]

object_ops-prefixed :
    (t : Token) (path : List Token) (gone new : Assoc Value)
    (common common' : Assoc (List Operation))
    → common' ≡ map_values (map (prefixed t)) common
    → removals (t ∷ path) gone ++ (join (sort common') ++ additions (t ∷ path) new)
      ≡ map (prefixed t) (removals path gone ++ (join (sort common) ++ additions path new))
object_ops-prefixed t path gone new common common' e =
    rw
      (
        removals-prefixed t path gone,
        additions-prefixed t path new,
        e,
        sort-map_values (map (prefixed t)) common,
        join-map_values (prefixed t) (sort common),
      )
      (rw (
        map-append (prefixed t) (removals path gone),
        map-append (prefixed t) (join (sort common)) (additions path new),
      ))

mutual
  unfolding diff prefixed map_values

  pub diff-prefixed :
      (v w : Value) (t : Token) (path : List Token)
      → diff v w (t ∷ path) ≡ map (prefixed t) (diff v w path)
  diff-prefixed (arr xs) (arr ys) t path =
      ground (arith, diff_list-prefixed t path (items xs) (items ys))
  diff-prefixed (arr xs) _ t path = refl
  diff-prefixed (obj fs) (obj gs) t path = elim (Bool-cases (eq (obj fs) (obj gs))) [
    | inl same ↦ rw same
    | inr differ ↦ rw differ (
        object_ops-prefixed t path (sort (missing (entries gs) (entries fs)))
          (sort (missing (entries fs) (entries gs))) (diff_common fs (entries gs) path)
          (diff_common fs (entries gs) (t ∷ path)) (diff_common-prefixed fs (entries gs) t path))
  ]
  diff-prefixed (obj fs) _ t path = refl
  diff-prefixed _ w t path = ground arith

  diff_common-prefixed :
      (fs : Members) (g : Assoc Value) (t : Token) (path : List Token)
      → diff_common fs g (t ∷ path) ≡ map_values (map (prefixed t)) (diff_common fs g path)
  diff_common-prefixed no_members g t path = refl
  diff_common-prefixed (member k v fs) g t path = elim (Option-cases (lookup k g)) [
    | inl gone ↦ ground (arith, gone, diff_common-prefixed fs g t path)
    | inr (w, found) ↦
        ground
          (arith, found, diff_common-prefixed fs g t path, diff-prefixed v w t (path ++ key k ∷ []))
  ]
