-- ===== src/Proto/Group/Sync/Lost.antt =====
-- An input whose frame cannot be built, in `apply_input` of aigenora/proto/group.py.
use aigenora.Prelude.{
  ℕ, ◌+◌, String, ◌≡◌, refl, ap, ◌∙◌, sym, true, false, [], ok, err, Result, leb, ◌==◌, eq_refl,
  arith,
}
use aigenora.Proto.JsonDelta.Dict.{Assoc, insert, lookup-insert}
use aigenora.Proto.JsonDelta.Json.{Value}
use aigenora.Proto.Group.{Codec, GroupError, Member}
use aigenora.Proto.Group.Authority.{Hooks, Authority, Normalized}
use aigenora.Proto.Group.Authority.Frames.{
  Plan, Rendered, render_members, publish_rendered, build_planned, build_envelopes, advanced,
}
use aigenora.Proto.Group.Authority.Inputs.{
  duplicate, apply_input, check_input, take_input, handle_action, count_input, counted, take_result,
  count_of, last_envelopes, with_receipt,
}
use aigenora.Proto.Group.Sync.Inputs.{repeat}

-- The state after an input that counts although its frame was not built.
abbrev pub after_lost : String → ℕ → Normalized → Authority → Authority
after_lost actor n result a = advanced true (counted actor n result a)

publish_rendered-err :
    (p : Plan) (run : Result GroupError (Assoc Rendered)) (a : Authority) {x : GroupError}
    {s : Authority}
    → publish_rendered p run a ≡ (err x, s)
    → a ≡ s
unfolding publish_rendered
publish_rendered-err p (err y) a h = ap (λ t. t.1) h
publish_rendered-err p (ok rendered) a h = let failed = ap (λ t. t.0) h in cc

build_planned-err :
    (c : Codec) (hooks : Hooks) (plan : Result GroupError Plan) (a : Authority) {x : GroupError}
    {s : Authority}
    → build_planned c hooks plan a ≡ (err x, s)
    → a ≡ s
unfolding build_planned
build_planned-err c hooks (err y) a h = ap (λ t. t.1) h
build_planned-err c hooks (ok p) a h =
    publish_rendered-err p (render_members c hooks a p a.members []) a h

build_envelopes-err :
    (c : Codec) (hooks : Hooks) (kind : String) (events : Value) (direct : Assoc Value)
    (a : Authority) {x : GroupError} {s : Authority}
    → build_envelopes c hooks kind events direct true a ≡ (err x, s)
    → advanced true a ≡ s
unfolding build_envelopes
build_envelopes-err c hooks kind events direct a h = build_planned-err c hooks _ (advanced true a) h

count_input-err :
    (c : Codec) (hooks : Hooks) (actor : String) (n : ℕ) (result : Normalized) (a : Authority)
    (x : GroupError)
    → build_envelopes c hooks "frame" result.events result.direct true (counted actor n result a)
      ≡ (err x, after_lost actor n result a)
    → count_input c hooks actor n (ok result) a ≡ (err x, after_lost actor n result a)
unfolding count_input
count_input-err c hooks actor n result a x h = ap (with_receipt n) h

take_next :
    (c : Codec) (hooks : Hooks) (actor : String) (m : Member) (n : ℕ) (action : Value)
    (previous : ℕ) (a : Authority) (result : Normalized)
    → n ≡ previous + 1
    → handle_action c hooks m action a ≡ ok result
    → take_input c hooks actor m n action previous a ≡ count_input c hooks actor n (ok result) a
unfolding take_input
take_next c hooks actor m n action previous a result next handled =
    let new : leb n previous ≡ false = ground arith in
    let same : (n == previous + 1) ≡ true = ground arith in rw (new, same, handled) refl

old : (n k : ℕ) → k ≡ n → leb n k ≡ true
old n k e = ground arith

count_of-insert : (actor : String) (n : ℕ) (l : Assoc ℕ) → count_of actor (insert actor n l) ≡ n
count_of-insert actor n l = rw (lookup-insert actor actor n l, eq_refl actor) refl

-- Where the hook's result is in order and does not end the group, but the frame cannot be
-- built, apply_input raises; the state, the sequence number and the actor's number are those behind the
-- input all the same, and the input, sent again, is answered as a duplicate with the envelopes of the
-- frame before.
pub apply_input-lost :
    (c : Codec) (hooks : Hooks) (actor : String) (client_seq action action' : Value) (a : Authority)
    (m : Member) (n : ℕ) (result : Normalized) {x : GroupError} {s : Authority}
    → check_input c actor client_seq a ≡ ok (m, n)
    → n ≡ count_of actor a.last_client_seq + 1
    → handle_action c hooks m action a ≡ ok result
    → result.completed ≡ false
    → build_envelopes c hooks "frame" result.events result.direct true (counted actor n result a)
      ≡ (err x, s)
    → (apply_input c hooks actor client_seq action a ≡ (err x, after_lost actor n result a))
      × ((after_lost actor n result a).seq ≡ a.seq + 1)
      × (apply_input c hooks actor client_seq action' (after_lost actor n result a)
          ≡ (ok (last_envelopes a, duplicate n (a.seq + 1)), after_lost actor n result a))
unfolding apply_input take_result
apply_input-lost c hooks actor client_seq action action' a m n result {x} checked next handled live
      fails =
    (
      rw checked (
          take_next c hooks actor m n action (count_of actor a.last_client_seq) a result next
            handled
          ∙ count_input-err c hooks actor n result a x (
              fails
              ∙ ap (λ t. (err x, t))
                  (sym (
                    build_envelopes-err c hooks "frame" result.events result.direct
                      (counted actor n result a) fails)))),
      refl,
      repeat c hooks actor client_seq action' a (after_lost actor n result a) m n (last_envelopes a)
          checked refl live
          (old n (count_of actor (insert actor n a.last_client_seq))
            (count_of-insert actor n a.last_client_seq))
          refl,
    )
