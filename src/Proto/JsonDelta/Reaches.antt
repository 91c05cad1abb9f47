-- ===== src/Proto/JsonDelta/Reaches.antt =====
-- What `_diff` of aigenora/proto/json_delta.py appends leads from the previous value to one that
-- equals the current value.
use mathlib.Core.Path.{subst}
use aigenora.Prelude.{
  String, ◌≡◌, refl, ap, ◌∙◌, sym, true, some, [], ◌∷◌, arith, str_eq, ok, inl, inr, if◌then◌else◌,
  Bool-cases,
}
use aigenora.Proto.JsonDelta.Dict.{lookup}
use aigenora.Proto.JsonDelta.Json.{
  Value, arr, obj, Elements, Members, no_members, member, items, from_items, entries,
  from_items-items, items-from_items, eq, IsJson, AllJson, AllJsonMembers,
}
use aigenora.Proto.JsonDelta.Equality.{eq_of_self, eq-arr, AllJson_lookup}
use aigenora.Proto.JsonDelta.{set, diff, diff_list, eq_list}
use aigenora.Proto.JsonDelta.Perform.{perform, perform_all}
use aigenora.Proto.JsonDelta.Lists.{Reflexive-items}
use aigenora.Proto.JsonDelta.Splices.{diff_list-Leads}
use aigenora.Proto.JsonDelta.Leads.{Reaches, object_reaches}

no_change :
    (v w : Value) → eq v w ≡ true → (r : Value) × (perform_all [] v ≡ ok r) × (eq r w ≡ true)
unfolding perform_all
no_change v w same = (v, refl, same)

pub set_reaches :
    (v w : Value)
    → IsJson w
    → (r : Value) × (perform_all (set [] w ∷ []) v ≡ ok r) × (eq r w ≡ true)
unfolding perform_all perform
set_reaches v w j = (w, refl, eq_of_self w j)

unequal-Reaches :
    (v w : Value) → IsJson w → diff v w [] ≡ (if eq v w then [] else set [] w ∷ []) → Reaches v w
unequal-Reaches v w j e = elim (Bool-cases (eq v w)) [
  | inl same ↦ (v, unfold perform_all in rw (e, same) refl, same)
  | inr differ ↦ rw (e, differ) (set_reaches v w j)
]

array_reaches :
    (xs ys : Elements)
    → AllJson ys
    → (r : Value) × (perform_all (diff_list (items xs) (items ys) []) (arr xs) ≡ ok r)
      × (eq r (arr ys) ≡ true)
array_reaches xs ys j =
    let (l, run, same) = diff_list-Leads (items xs) (items ys) (Reflexive-items ys j) in
    (
      arr (from_items l),
      ap (λ zs. perform_all (diff_list (items xs) (items ys) []) (arr zs))
            (sym (from_items-items xs))
          ∙ run,
      eq-arr (from_items l) ys ∙ ap (λ m. eq_list m (items ys)) (items-from_items l) ∙ same,
    )

mutual
  unfolding diff IsJson entries lookup

  pub diff-Reaches : (v w : Value) → IsJson v → IsJson w → Reaches v w
  diff-Reaches (arr xs) (arr ys) jv jw = elim (Bool-cases (eq (arr xs) (arr ys))) [
    | inl same ↦ rw same (no_change (arr xs) (arr ys) same)
    | inr differ ↦ rw differ (array_reaches xs ys jw)
  ]
  diff-Reaches (arr xs) w jv jw = set_reaches (arr xs) w jw
  diff-Reaches (obj fs) (obj gs) jv jw = elim (Bool-cases (eq (obj fs) (obj gs))) [
    | inl same ↦ rw same (no_change (obj fs) (obj gs) same)
    | inr differ ↦ rw differ (
        object_reaches fs gs jv.0 jw.0 jw.1 (λ k v w before after.
          member-Reaches fs k v w jv.1 before (AllJson_lookup gs k w jw.1 after)))
  ]
  diff-Reaches (obj fs) w jv jw = set_reaches (obj fs) w jw
  diff-Reaches v w jv jw = unequal-Reaches v w jw refl

  member-Reaches :
      (fs : Members) (k : String) (v w : Value)
      → AllJsonMembers fs
      → lookup k (entries fs) ≡ some v
      → IsJson w
      → Reaches v w
  member-Reaches no_members k v w jf h jw = absurd (ground arith)
  member-Reaches (member j u fs) k v w jf h jw = elim (Bool-cases (str_eq j k)) [
    | inl here ↦
        let e : u ≡ v = ground arith in subst (λ x. Reaches x w) e (diff-Reaches u w jf.0 jw)
    | inr other ↦ member-Reaches fs k v w jf.1 (ground arith) jw
  ]
