-- ===== src/Proto/Group/Authority/Accepted.antt =====
-- What `apply_input` of `GroupAuthority` in aigenora/proto/group.py answers, and what it leaves.

use Prim.Native.String.{len}
use aigenora.Prelude.{
  ℕ, ◌+◌, String, ◌≡◌, refl, ap, ◌∙◌, sym, true, false, not, ok, err, Result, ok_of_bind,
  ok_injective, passed, leb, ◌==◌, arith, inl, inr, ◌⊎◌, Bool-cases, length,
}
use aigenora.Prelude.Int.{pos, ltb_ℤ}
use aigenora.Proto.JsonDelta.Json.{
  Value, arr, no_elements, obj, from_items, from_entries, no_members, bool,
}
use aigenora.Proto.Group
use aigenora.Proto.Group.{Codec, GroupError, Member, canonical_json, validate_json, get}
use aigenora.Proto.Group.Replica.{is_list}
use aigenora.Proto.Group.Checkpoints.{is_object}
use aigenora.Proto.Group.Authority.{
  Hooks, Authority, Normalized, normalize_result, as_dict, as_array, as_bool, as_text_or_none,
  get_or, GroupConfig,
}
use aigenora.Proto.Group.Authority.Frames.{build_envelopes}
use aigenora.Proto.Group.Authority.Inputs.{
  Envelopes, Receipt, duplicate, accepted, apply_input, take_input, handle_action, count_input,
  counted, with_receipt, take_checked, check_input, last_envelopes, count_of,
}

-- The input was the actor's next one, the hook's result is in order, and the frame was built.
abbrev pub Handled :
    Codec → Hooks → String → ℕ → Authority → Envelopes × Receipt → Authority → Type 0
Handled c hooks actor n a answer a' =
    (r : Normalized) × (is_list r.events ≡ true)
    × (build_envelopes c hooks "frame" r.events r.direct true (counted actor n r a)
        ≡ (ok answer.0, a'))
    × (answer.1 ≡ accepted n a'.seq a'.previous_hash a'.completed)

normalize_result-list :
    (config : GroupConfig) (v : Value) {r : Normalized}
    → normalize_result config v ≡ ok r
    → is_list r.events ≡ true
unfolding normalize_result
normalize_result-list config v h =
    let (d, a1, h1) = ok_of_bind (as_dict v Group.result_object) _ h in
    let (state, a2, h2) = ok_of_bind (as_dict (get d "state") Group.result_state) _ h1 in
    let (events, a3, h3) =
      ok_of_bind (as_array (get_or d "events" (arr no_elements)) Group.result_events) _ h2 in
    let (a4, h4) =
      passed (ltb_ℤ config.max_events_per_action (pos (length events))) Group.too_many_events _
        h3 in
    let (direct, a5, h5) =
      ok_of_bind (as_dict (get_or d "direct" (obj no_members)) Group.result_direct) _ h4 in
    let (completed, a6, h6) =
      ok_of_bind (as_bool (get_or d "completed" (bool false)) Group.result_completed) _ h5 in
    let (outcome, a7, h7) =
      ok_of_bind (as_text_or_none (get d "outcome") Group.result_outcome) _ h6 in
    let (u, a8, h8) = ok_of_bind (validate_json 0 (obj (from_entries state))) _ h7 in
    let (u', a9, h9) = ok_of_bind (validate_json 0 (arr (from_items events))) _ h8 in
    let (u'', a10, h10) = ok_of_bind (validate_json 0 (obj (from_entries direct))) _ h9 in
    ap (λ n. is_list n.events) (sym (ok_injective h10))

handle_action-list :
    (c : Codec) (hooks : Hooks) (m : Member) (action : Value) (a : Authority) {r : Normalized}
    → handle_action c hooks m action a ≡ ok r
    → is_list r.events ≡ true
unfolding handle_action
handle_action-list c hooks m action a h =
    let (b1, h1) = passed (not (is_object action)) Group.action_object _ h in
    let (text, b2, h2) = ok_of_bind (canonical_json c action) _ h1 in
    let (b3, h3) =
      passed (ltb_ℤ a.config.max_action_bytes (pos (len text))) Group.action_too_large _ h2 in
    let (result, b4, h4) = ok_of_bind (hooks.handle (obj (from_entries a.state)) m action) _ h3 in
    normalize_result-list a.config result h4

pub pair_path :
    {A B : Type 0} {x x' : A} {y y' : B} → x ≡ x' → y ≡ y' → ◌≡◌ {A = A × B} (x, y) (x', y')
pair_path p q = rw (p, q) refl

with_receipt-ok :
    (n : ℕ) (run : Result GroupError Envelopes × Authority) {answer : Envelopes × Receipt}
    {a' : Authority}
    → with_receipt n run ≡ (ok answer, a')
    → (run ≡ (ok answer.0, a')) × (answer.1 ≡ accepted n a'.seq a'.previous_hash a'.completed)
with_receipt-ok n (err x, a) h = let failed = ap (λ t. t.0) h in cc
with_receipt-ok n (ok envelopes, a) {answer} {a'} h =
    let given : (envelopes, accepted n a.seq a.previous_hash a.completed) ≡ answer =
      ok_injective (ap (λ t. t.0) h) in
    let left = ap (λ t. t.1) h in
    (
      pair_path (ap (λ t. ok t.0) given) left,
      sym (ap (λ t. t.1) given) ∙ ap (λ s. accepted n s.seq s.previous_hash s.completed) left,
    )

-- A repeated input, which is answered with the last envelopes, or the actor's next one.
abbrev pub Answered :
    Codec → Hooks → String → ℕ → ℕ → Authority → Envelopes × Receipt → Authority → Type 0
Answered c hooks actor n previous a answer a' =
    ((leb n previous ≡ true) × ((last_envelopes a, duplicate n a.seq) ≡ answer) × (a ≡ a'))
    ⊎ ((n ≡ previous + 1) × Handled c hooks actor n a answer a')

count_input-Handled :
    (c : Codec) (hooks : Hooks) (actor : String) (n : ℕ) (result : Result GroupError Normalized)
    (a : Authority) {answer : Envelopes × Receipt} {a' : Authority}
    → ((r : Normalized) → result ≡ ok r → is_list r.events ≡ true)
    → count_input c hooks actor n result a ≡ (ok answer, a')
    → Handled c hooks actor n a answer a'
unfolding count_input
count_input-Handled c hooks actor n (err x) a listed h = let failed = ap (λ t. t.0) h in cc
count_input-Handled c hooks actor n (ok r) a listed h =
    let (run, receipt) = with_receipt-ok n _ h in (r, listed r refl, run, receipt)

take_input-Answered :
    (c : Codec) (hooks : Hooks) (actor : String) (m : Member) (n : ℕ) (action : Value)
    (previous : ℕ) (a : Authority) {answer : Envelopes × Receipt} {a' : Authority}
    → take_input c hooks actor m n action previous a ≡ (ok answer, a')
    → Answered c hooks actor n previous a answer a'
unfolding take_input
take_input-Answered c hooks actor m n action previous a h = elim (Bool-cases (leb n previous)) [
  | inl old ↦ let e = rw old at h in inl (old, ok_injective (ap (λ t. t.0) e), ap (λ t. t.1) e)
  | inr new ↦ elim (Bool-cases (n == previous + 1)) [
    | inl next ↦ inr (
      ground (arith, next),
      count_input-Handled c hooks actor n (handle_action c hooks m action a) a
          (λ r. handle_action-list c hooks m action a) (rw (new, next) at h),
    )
    | inr gap ↦ let e = rw (new, gap) at h in let failed = ap (λ t. t.0) e in cc
  ]
]

take_checked-ok :
    (c : Codec) (hooks : Hooks) (actor : String) (action : Value)
    (checked : Result GroupError (Member × ℕ)) (a : Authority) {answer : Envelopes × Receipt}
    {a' : Authority}
    → take_checked c hooks actor action checked a ≡ (ok answer, a')
    → (m : Member) × (n : ℕ) × (checked ≡ ok (m, n))
      × Answered c hooks actor n (count_of actor a.last_client_seq) a answer a'
take_checked-ok c hooks actor action (err x) a h = let failed = ap (λ t. t.0) h in cc
take_checked-ok c hooks actor action (ok (m, n)) a h = (
  m,
  n,
  refl,
  take_input-Answered c hooks actor m n action (count_of actor a.last_client_seq) a h,
)

pub apply_input-Answered :
    (c : Codec) (hooks : Hooks) (actor : String) (client_seq action : Value) (a : Authority)
    {answer : Envelopes × Receipt} {a' : Authority}
    → apply_input c hooks actor client_seq action a ≡ (ok answer, a')
    → (m : Member) × (n : ℕ) × (check_input c actor client_seq a ≡ ok (m, n))
      × Answered c hooks actor n (count_of actor a.last_client_seq) a answer a'
unfolding apply_input
apply_input-Answered c hooks actor client_seq action a h =
    take_checked-ok c hooks actor action (check_input c actor client_seq a) a h
