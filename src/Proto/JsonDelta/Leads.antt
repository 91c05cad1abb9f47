-- ===== src/Proto/JsonDelta/Leads.antt =====
-- The operations that `_diff` of aigenora/proto/json_delta.py appends for two dicts lead to a dict that
-- equals the current one.
use mathlib.Core.Path.{subst}
use aigenora.Prelude.{
  String, ◌≡◌, refl, ap, ◌∙◌, sym, true, Option, none, some, List, [], ◌∷◌, ◌++◌, arith, eq_iff, ok,
  inl, inr, if◌then◌else◌, Option-cases,
}
use aigenora.Proto.JsonDelta.Dict.{
  Assoc, lookup, contains, sort, missing, Distinct, Distinct-sort, Distinct-missing, lookup-sort,
  lookup-missing, contains-lookup,
}
use aigenora.Proto.JsonDelta.Json.{
  Value, obj, Members, no_members, member, from_entries, entries, entries-from_entries,
  from_entries-entries, eq, AllJsonMembers,
}
use aigenora.Proto.JsonDelta.Equality.{Agree, eq_of_self, eq_of_Agree, AllJson_lookup}
use aigenora.Proto.JsonDelta.{Token, key, Operation, diff, diff_common, removals, additions, join}
use aigenora.Proto.JsonDelta.Perform.{perform_all, perform_all-append, object}
use aigenora.Proto.JsonDelta.Diff.{diff-prefixed}
use aigenora.Proto.JsonDelta.Objects.{
  erase, add_all, perform_all-removals, lookup-erase, Distinct-erase, perform_all-additions,
  lookup-add_all, Distinct-add_all, Changes, After, perform_all-join,
}

abbrev pub Reaches : Value → Value → Type 0
Reaches v w = (r : Value) × (perform_all (diff v w []) v ≡ ok r) × (eq r w ≡ true)

module _ (g : Assoc Value) (path : List Token) where
  lookup-diff_common :
      (k : String) (fs : Members) (v w : Value)
      → lookup k (entries fs) ≡ some v
      → lookup k g ≡ some w
      → lookup k (diff_common fs g path) ≡ some (diff v w (path ++ key k ∷ []))
  unfolding lookup diff_common entries
  lookup-diff_common k no_members v w h e = absurd (ground arith)
  lookup-diff_common k (member j u fs) v w h e = elim (Option-cases (lookup j g)) [
    | inl gone ↦ ground (arith, eq_iff j k, gone, lookup-diff_common k fs v w)
    | inr (x, found) ↦ ground (arith, eq_iff j k, found, lookup-diff_common k fs v w)
  ]

  not_before :
      (k : String) (fs : Members)
      → lookup k (entries fs) ≡ none
      → lookup k (diff_common fs g path) ≡ none
  unfolding lookup diff_common entries
  not_before k no_members h = refl
  not_before k (member j u fs) h = elim (Option-cases (lookup j g)) [
    | inl gone ↦ ground (arith, eq_iff j k, gone, not_before k fs)
    | inr (x, found) ↦ ground (arith, eq_iff j k, found, not_before k fs)
  ]

  not_after :
      (k : String) (fs : Members) → lookup k g ≡ none → lookup k (diff_common fs g path) ≡ none
  unfolding lookup diff_common entries
  not_after k no_members h = refl
  not_after k (member j u fs) h = elim (Option-cases (lookup j g)) [
    | inl gone ↦ ground (arith, eq_iff j k, gone, not_after k fs)
    | inr (x, found) ↦ ground (arith, eq_iff j k, found, not_after k fs)
  ]

  Distinct-diff_common : (fs : Members) → Distinct (entries fs) → Distinct (diff_common fs g path)
  unfolding diff_common entries
  Distinct-diff_common no_members d = tt
  Distinct-diff_common (member j v fs) d = elim (Option-cases (lookup j g)) [
    | inl gone ↦ ground (arith, gone, Distinct-diff_common fs d.1)
    | inr (w, found) ↦ ground (arith, found, Distinct-diff_common fs d.1, not_before j fs d.0)
  ]

Agree-none : {a b : Option Value} → a ≡ none → b ≡ none → Agree a b
Agree-none p q = rw (p, q) tt

Agree-some :
    {a b : Option Value} {x y : Value} → a ≡ some x → b ≡ some y → eq x y ≡ true → Agree a b
Agree-some p q h = rw (p, q) h

object_of : (fs : Members) → object (entries fs) ≡ obj fs
unfolding object
object_of fs = ap obj (from_entries-entries fs)

object-eq :
    (l : Assoc Value) (gs : Members)
    → Distinct l
    → Distinct (entries gs)
    → ((j : String) → Agree (lookup j l) (lookup j (entries gs)))
    → eq (object l) (obj gs) ≡ true
unfolding object
object-eq l gs dl dg h =
    eq_of_Agree (from_entries l) gs (subst Distinct (sym (entries-from_entries l)) dl) dg (λ j.
      subst (λ k. Agree (lookup j k) (lookup j (entries gs))) (sym (entries-from_entries l)) (h j))

-- Two dicts, and the delta of each value that is under one key of both.
module _ (fs gs : Members) (df : Distinct (entries fs)) (dg : Distinct (entries gs))
    (json : AllJsonMembers gs)
    (child : (k : String) (v w : Value)
      → lookup k (entries fs) ≡ some v
      → lookup k (entries gs) ≡ some w
      → Reaches v w) where
  abbrev gone : Assoc Value
  gone = sort (missing (entries gs) (entries fs))

  abbrev new : Assoc Value
  new = sort (missing (entries fs) (entries gs))

  abbrev common : Assoc (List Operation)
  common = sort (diff_common fs (entries gs) [])

  abbrev remaining : Assoc Value
  remaining = erase gone (entries fs)

  lookup-gone :
      (j : String)
      → lookup j gone ≡ (if contains j (entries gs) then none else lookup j (entries fs))
  lookup-gone j =
      lookup-sort j (missing (entries gs) (entries fs))
        (Distinct-missing (entries gs) (entries fs) df)
      ∙ lookup-missing (entries gs) j (entries fs)

  lookup-new :
      (j : String)
      → lookup j new ≡ (if contains j (entries fs) then none else lookup j (entries gs))
  lookup-new j =
      lookup-sort j (missing (entries fs) (entries gs))
        (Distinct-missing (entries fs) (entries gs) dg)
      ∙ lookup-missing (entries fs) j (entries gs)

  lookup-common : (j : String) → lookup j common ≡ lookup j (diff_common fs (entries gs) [])
  lookup-common j =
      lookup-sort j (diff_common fs (entries gs) []) (Distinct-diff_common (entries gs) [] fs df)

  gone_present :
      (j : String) (u : Value)
      → lookup j gone ≡ some u
      → (x : Value) × (lookup j (entries fs) ≡ some x)
  gone_present j u h = (u, ground (arith, lookup-gone j))

  remaining_kept :
      (j : String) (w : Value)
      → lookup j (entries gs) ≡ some w
      → lookup j remaining ≡ lookup j (entries fs)
  remaining_kept j w h = ground (
    arith,
    lookup-erase j gone (entries fs),
    contains-lookup j gone,
    lookup-gone j,
    contains-lookup j (entries gs),
  )

  remaining_gone : (j : String) → lookup j (entries gs) ≡ none → lookup j remaining ≡ none
  remaining_gone j h = elim (Option-cases (lookup j (entries fs))) [
    | inl absent ↦ ground (arith, absent, lookup-erase j gone (entries fs))
    | inr (v, found) ↦ ground (
      arith,
      found,
      lookup-erase j gone (entries fs),
      contains-lookup j gone,
      lookup-gone j,
      contains-lookup j (entries gs),
    )
  ]

  changes :
      (k : String) (ops : List Operation)
      → lookup k common ≡ some ops
      → Changes k ops (lookup k remaining) (lookup k (entries gs))
  changes k ops h = elim (Option-cases (lookup k (entries fs))) [
    | inl absent ↦ absurd (ground (arith, lookup-common k, not_before (entries gs) [] k fs absent))
    | inr (v, before) ↦ elim (Option-cases (lookup k (entries gs))) [
      | inl absent ↦ absurd (ground (arith, lookup-common k, not_after (entries gs) [] k fs absent))
      | inr (w, after) ↦
          let (c', run, same) = child k v w before after in
          let at : lookup k common ≡ some (diff v w (key k ∷ [])) =
            lookup-common k ∙ lookup-diff_common (entries gs) [] k fs v w before after in
          let e : ops ≡ diff v w (key k ∷ []) = cc in
          (
            diff v w [],
            v,
            c',
            e ∙ diff-prefixed v w (key k) [],
            remaining_kept k w after ∙ before,
            run,
            subst (λ b. Agree (some c') b) (sym after) same,
          )
    ]
  ]

  kept_at_end :
      (m : Assoc Value) (j : String) → lookup j new ≡ none → lookup j (add_all new m) ≡ lookup j m
  kept_at_end m j h = ground (
    arith,
    h,
    lookup-add_all j new m (
        Distinct-sort (missing (entries fs) (entries gs))
          (Distinct-missing (entries fs) (entries gs) dg)),
  )

  added_at_end :
      (m : Assoc Value) (j : String) (w : Value)
      → lookup j new ≡ some w
      → lookup j (add_all new m) ≡ some w
  added_at_end m j w h = ground (
    arith,
    h,
    lookup-add_all j new m (
        Distinct-sort (missing (entries fs) (entries gs))
          (Distinct-missing (entries fs) (entries gs) dg)),
  )

  Agree-at_end :
      (m : Assoc Value) (j : String)
      → After (lookup j common) (lookup j m) (lookup j remaining) (lookup j (entries gs))
      → Agree (lookup j (add_all new m)) (lookup j (entries gs))
  Agree-at_end m j after = elim (Option-cases (lookup j (entries gs))) [
    | inl absent ↦
        let p : lookup j new ≡ none =
          ground (arith, absent, lookup-new j, contains-lookup j (entries fs)) in
        let q : lookup j common ≡ none = lookup-common j ∙ not_after (entries gs) [] j fs absent in
        let k : lookup j m ≡ lookup j remaining =
          subst (λ o. After o (lookup j m) (lookup j remaining) (lookup j (entries gs))) q after in
        Agree-none (kept_at_end m j p ∙ k ∙ remaining_gone j absent) absent
    | inr (w, found) ↦ elim (Option-cases (lookup j (entries fs))) [
      | inl absent ↦
          let p : lookup j new ≡ some w =
            ground (arith, absent, found, lookup-new j, contains-lookup j (entries fs)) in
          Agree-some (added_at_end m j w p) found (eq_of_self w (AllJson_lookup gs j w json found))
      | inr (v, before) ↦
          let p : lookup j new ≡ none =
            ground (arith, before, found, lookup-new j, contains-lookup j (entries fs)) in
          let q : lookup j common ≡ some (diff v w (key j ∷ [])) =
            lookup-common j ∙ lookup-diff_common (entries gs) [] j fs v w before found in
          subst (λ a. Agree a (lookup j (entries gs))) (sym (kept_at_end m j p))
            (subst (λ o. After o (lookup j m) (lookup j remaining) (lookup j (entries gs))) q after)
    ]
  ]

  pub object_reaches :
      (r : Value) × (perform_all (removals [] gone ++ (join common ++ additions [] new)) (obj fs)
        ≡ ok r)
      × (eq r (obj gs) ≡ true)
  object_reaches =
      let first : perform_all (removals [] gone) (obj fs) ≡ ok (object remaining) =
        ap (perform_all (removals [] gone)) (sym (object_of fs))
        ∙ perform_all-removals gone (entries fs)
            (Distinct-sort (missing (entries gs) (entries fs))
              (Distinct-missing (entries gs) (entries fs) df))
            gone_present in
      let (m, run, dm, after) =
        perform_all-join common remaining (entries gs)
          (Distinct-sort (diff_common fs (entries gs) [])
            (Distinct-diff_common (entries gs) [] fs df))
          (Distinct-erase gone (entries fs) df) changes in
      (
        object (add_all new m),
        perform_all-append (removals [] gone) (join common ++ additions [] new) (obj fs)
            ∙ rw
                (first, perform_all-append (join common) (additions [] new) (object remaining), run)
                (perform_all-additions new m),
        object-eq (add_all new m) gs (Distinct-add_all new m dm) dg
            (λ j. Agree-at_end m j (after j)),
      )
