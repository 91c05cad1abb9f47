-- ===== src/Proto/JsonDelta/Dict.antt =====
-- Python's dict with text keys, in insertion order, for aigenora/proto/json_delta.py.
use Prim.Native.String.{compare}
use Prim.Native.Nat.{Ordering}
use aigenora.Prelude.{
  suc, ◌≤◌, String, ◌≡◌, ◌∙◌, refl, Bool, true, false, Option, none, some, List, [], ◌∷◌, arith,
  eq_iff, str_eq, if◌then◌else◌, length, Option-cases, inl, inr,
}

abbrev pub Assoc : Type 0 → Type 0
Assoc V = List (String × V)

-- `a <= b` on texts, by code points
unfoldable pub str_leb : String → String → Bool
str_leb a b = elim (compare a b) [ Ordering.gt ↦ false | _ ↦ true ]

module _ {V : Type 0} where
  unfoldable pub lookup : String → Assoc V → Option V
  lookup k [] = none
  lookup k ((j, v) ∷ l) = if str_eq j k then some v else lookup k l

  -- `k in d`
  unfoldable pub contains : String → Assoc V → Bool
  contains k [] = false
  contains k ((j, v) ∷ l) = if str_eq j k then true else contains k l

  -- `d[k] = v`
  unfoldable pub insert : String → V → Assoc V → Assoc V
  insert k v [] = (k, v) ∷ []
  insert k v ((j, w) ∷ l) = if str_eq j k then (j, v) ∷ l else (j, w) ∷ insert k v l

  -- `del d[k]`
  unfoldable pub without : String → Assoc V → Assoc V
  without k [] = []
  without k ((j, w) ∷ l) = let rest = without k l in if str_eq j k then rest else (j, w) ∷ rest

  unfoldable pub place : String → V → Assoc V → Assoc V
  place k v [] = (k, v) ∷ []
  place k v ((j, w) ∷ l) = if str_leb k j then (k, v) ∷ (j, w) ∷ l else (j, w) ∷ place k v l

  -- The entries in the order of `sorted` of the keys.
  unfoldable pub sort : Assoc V → Assoc V
  unfolding place
  sort [] = []
  sort ((k, v) ∷ l) = place k v (sort l)

  -- Each key once.
  abbrev pub Distinct : Assoc V → Type 0
  Distinct [] = Unit
  Distinct ((k, v) ∷ l) = (lookup k l ≡ none) × Distinct l

  pub lookup-insert :
      (k j : String) (v : V) (l : Assoc V)
      → lookup j (insert k v l) ≡ (if str_eq k j then some v else lookup j l)
  unfolding lookup insert
  lookup-insert k j v [] = refl
  lookup-insert k j v ((i, w) ∷ l) =
      ground (arith, eq_iff k j, eq_iff i k, eq_iff i j, lookup-insert k j v l)

  pub lookup-without :
      (k j : String) (l : Assoc V)
      → lookup j (without k l) ≡ (if str_eq k j then none else lookup j l)
  unfolding lookup without
  lookup-without k j [] = ground arith
  lookup-without k j ((i, w) ∷ l) =
      ground (arith, eq_iff k j, eq_iff i k, eq_iff i j, lookup-without k j l)

  pub Distinct-insert : (k : String) (v : V) (l : Assoc V) → Distinct l → Distinct (insert k v l)
  unfolding insert lookup
  Distinct-insert k v [] d = (refl, tt)
  Distinct-insert k v ((i, w) ∷ l) d =
      ground (arith, eq_iff i k, eq_iff k i, Distinct-insert k v l d.1, lookup-insert k i v l)

  pub Distinct-without : (k : String) (l : Assoc V) → Distinct l → Distinct (without k l)
  unfolding without
  Distinct-without k [] d = tt
  Distinct-without k ((i, w) ∷ l) d = ground (arith, Distinct-without k l d.1, lookup-without k i l)

  pub insert_same : (k : String) (v : V) (l : Assoc V) → lookup k l ≡ some v → insert k v l ≡ l
  unfolding insert lookup
  insert_same k v [] h = cc
  insert_same k v ((i, w) ∷ l) h = ground (arith, insert_same k v l)

  pub insert-insert :
      (k : String) (v w : V) (l : Assoc V) → insert k v (insert k w l) ≡ insert k v l
  unfolding insert
  insert-insert k v w [] = ground (arith, eq_iff k k)
  insert-insert k v w ((i, u) ∷ l) = ground (arith, insert-insert k v w l)

  pub contains-lookup :
      (k : String) (l : Assoc V) → contains k l ≡ elim (lookup k l) [ none ↦ false | some _ ↦ true ]
  unfolding contains lookup
  contains-lookup k [] = refl
  contains-lookup k ((i, w) ∷ l) = ground (arith, contains-lookup k l)

  lookup-place :
      (k j : String) (v : V) (l : Assoc V)
      → lookup k l ≡ none
      → lookup j (place k v l) ≡ (if str_eq k j then some v else lookup j l)
  unfolding lookup place
  lookup-place k j v [] h = refl
  lookup-place k j v ((i, w) ∷ l) h =
      ground (arith, eq_iff k j, eq_iff i k, eq_iff i j, lookup-place k j v l)

  pub lookup-sort : (j : String) (l : Assoc V) → Distinct l → lookup j (sort l) ≡ lookup j l
  unfolding lookup sort
  lookup-sort j [] d = refl
  lookup-sort j ((i, w) ∷ l) d =
      ground (arith, lookup-place i j w (sort l), lookup-sort i l d.1, lookup-sort j l d.1)

  Distinct-place :
      (k : String) (v : V) (l : Assoc V) → lookup k l ≡ none → Distinct l → Distinct (place k v l)
  unfolding place lookup
  Distinct-place k v [] h d = (refl, tt)
  Distinct-place k v ((i, w) ∷ l) h d =
      ground (arith, eq_iff i k, eq_iff k i, Distinct-place k v l, lookup-place k i v l)

  pub Distinct-sort : (l : Assoc V) → Distinct l → Distinct (sort l)
  unfolding sort
  Distinct-sort [] d = tt
  Distinct-sort ((i, w) ∷ l) d =
      Distinct-place i w (sort l) (lookup-sort i l d.1 ∙ d.0) (Distinct-sort l d.1)

  without_absent : (k : String) (l : Assoc V) → lookup k l ≡ none → without k l ≡ l
  unfolding without lookup
  without_absent k [] h = refl
  without_absent k ((i, w) ∷ l) h = ground (arith, without_absent k l)

  length-without :
      (k : String) (v : V) (l : Assoc V)
      → Distinct l
      → lookup k l ≡ some v
      → length l ≡ suc (length (without k l))
  unfolding without lookup
  length-without k v [] d h = cc
  length-without k v ((i, w) ∷ l) d h =
      ground (arith, eq_iff i k, length-without k v l, without_absent k l)

-- The entries whose key the other dict lacks: `set(d) - set(other)`.
unfoldable pub missing : {V W : Type 0} → Assoc W → Assoc V → Assoc V
missing other [] = []
missing other ((k, v) ∷ l) =
    let rest = missing other l in if contains k other then rest else (k, v) ∷ rest

module _ {V W : Type 0} (other : Assoc W) where
  pub lookup-missing :
      (j : String) (l : Assoc V)
      → lookup j (missing other l) ≡ (if contains j other then none else lookup j l)
  unfolding missing lookup
  lookup-missing j [] = ground arith
  lookup-missing j ((i, v) ∷ l) = ground (arith, eq_iff i j, lookup-missing j l)

  pub Distinct-missing : (l : Assoc V) → Distinct l → Distinct (missing other l)
  unfolding missing
  Distinct-missing [] d = tt
  Distinct-missing ((i, v) ∷ l) d = ground (arith, Distinct-missing l d.1, lookup-missing i l)

tail_absent :
    {V W : Type 0} (k : String) (v : V) (l : Assoc V) (m : Assoc W) (j : String)
    → lookup k l ≡ none
    → (lookup j m ≡ none → lookup j ((k, v) ∷ l) ≡ none)
    → lookup j (without k m) ≡ none
    → lookup j l ≡ none
unfolding lookup
tail_absent k v l m j d h gone = ground (arith, eq_iff k j, lookup-without k j m)

-- Where each key of one dict is a key of the other, the other is at least as long.
pub length_le :
    {V W : Type 0} (l : Assoc V) (m : Assoc W)
    → Distinct l
    → Distinct m
    → ((k : String) → lookup k m ≡ none → lookup k l ≡ none)
    → length l ≤ length m
length_le [] m d e h = omega arith
length_le ((k, v) ∷ l) m d e h = elim (Option-cases (lookup k m)) [
  | inl absent ↦ absurd (unfold lookup in ground (arith, eq_iff k k, h k absent))
  | inr (w, found) ↦ omega (
    arith,
    length-without k w m e found,
    length_le l (without k m) d.1 (Distinct-without k m e) (λ j. tail_absent k v l m j d.0 (h j)),
  )
]
