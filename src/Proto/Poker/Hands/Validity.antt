-- ===== src/Proto/Poker/Hands/Validity.antt =====
-- A selection of valid cards is valid, and the ranking of five valid cards returns a tuple of a known
-- category: aigenora/proto/poker.py.
use aigenora.Prelude.{
  ℕ, ◌≡◌, refl, String, Bool, true, false, List, [], ◌∷◌, arith, length, ◌==◌, ok, raise_if,
  ok_of_bind, Option, none, some, if◌then◌else◌,
}
use aigenora.Proto.JsonDelta.Json.{Value}
use aigenora.Proto.Poker.{PokerRuleError, repeated_face}
use aigenora.Proto.Poker.Hands.{
  Face, card_face, seen_face, validated, evaluate_five, rank_five, rank_pairs, top_count,
  eq_numbers, sorted, count_values, distinct, ranks_of, same_suit, straight_high,
}
use aigenora.Proto.Poker.Hands.Choice.{category_name}
use aigenora.Proto.Poker.Hands.Selections.{Selected, stop, keep, skip}

-- Whatever is new to one set of faces is new to the other.
abbrev Fewer : List Face → List Face → Type 0
Fewer seen' seen = (f : Face) → seen_face f seen ≡ false → seen_face f seen' ≡ false

raise_if_ok : (b : Bool) (x : PokerRuleError) {u : Unit {0}} → raise_if b x ≡ ok u → b ≡ false
raise_if_ok true x h = absurd cc
raise_if_ok false x h = refl

validated_cons :
    (seen : List Face) (card : Value) (cards : List Value) (faces : List Face)
    → validated seen (card ∷ cards) ≡ ok faces
    → (face : Face) × (rest : List Face) × (card_face card ≡ ok face)
      × (seen_face face seen ≡ false)
      × (validated (face ∷ seen) cards ≡ ok rest)
unfolding validated
validated_cons seen card cards faces h =
    let (face, read, h1) = ok_of_bind (card_face card) _ h in
    let (u, fresh, h2) = ok_of_bind (raise_if (seen_face face seen) repeated_face) _ h1 in
    let (rest, later, h3) = ok_of_bind (validated (face ∷ seen) cards) _ h2 in
    (face, rest, read, raise_if_ok (seen_face face seen) repeated_face fresh, later)

pub Selected-validated :
    {c l : List Value} (seen seen' : List Face) (faces : List Face)
    → Selected c l
    → Fewer seen' seen
    → validated seen l ≡ ok faces
    → (faces' : List Face) × (validated seen' c ≡ ok faces')
unfolding validated seen_face
Selected-validated seen seen' faces stop few h = ([], refl)
Selected-validated seen seen' faces (keep {x = x} {c = c} {l = l} s) few h =
    let (face, rest, read, fresh, later) = validated_cons seen x l faces h in
    let (rest', e) =
      Selected-validated (face ∷ seen) (face ∷ seen') rest s (λ f n. ground (arith, few f, n))
        later in
    (face ∷ rest', rw (read, few face fresh, e) refl)
Selected-validated seen seen' faces (skip {x = x} {c = c} {l = l} s) few h =
    let (face, rest, read, fresh, later) = validated_cons seen x l faces h in
    Selected-validated (face ∷ seen) seen' rest s (λ f n. few f (ground (arith, n))) later

abbrev pub HasCategory : List ℕ → Type 0
HasCategory rank = (name : String) × (category_name rank ≡ some name)

HasCategory-if :
    (b : Bool) (x y : List ℕ) → HasCategory x → HasCategory y → HasCategory (if b then x else y)
HasCategory-if true x y p q = p
HasCategory-if false x y p q = q

rank_pairs-HasCategory : (pairs ranks : List ℕ) → HasCategory (rank_pairs pairs ranks)
unfolding rank_pairs category_name
rank_pairs-HasCategory (p ∷ q ∷ []) ranks = (_, refl)
rank_pairs-HasCategory (p ∷ []) ranks = (_, refl)
rank_pairs-HasCategory _ ranks = (_, refl)

pub rank_five-HasCategory :
    (ranks : List ℕ) (flush : Bool) (straight : Option ℕ)
    → HasCategory (rank_five ranks flush straight)
unfolding rank_five category_name
rank_five-HasCategory ranks true (some high) = (_, refl)
rank_five-HasCategory ranks true none =
    HasCategory-if (top_count ranks == 4) _ _ (_, refl)
      (HasCategory-if (eq_numbers (sorted (count_values ranks (distinct ranks))) (2 ∷ 3 ∷ [])) _ _
        (_, refl) (_, refl))
rank_five-HasCategory ranks false (some high) =
    HasCategory-if (top_count ranks == 4) _ _ (_, refl)
      (HasCategory-if (eq_numbers (sorted (count_values ranks (distinct ranks))) (2 ∷ 3 ∷ [])) _ _
        (_, refl) (_, refl))
rank_five-HasCategory ranks false none =
    HasCategory-if (top_count ranks == 4) _ _ (_, refl)
      (HasCategory-if (eq_numbers (sorted (count_values ranks (distinct ranks))) (2 ∷ 3 ∷ [])) _ _
        (_, refl)
        (HasCategory-if (top_count ranks == 3) _ _ (_, refl) (rank_pairs-HasCategory _ ranks)))

-- Five valid cards are ranked.
pub evaluate_five_returns :
    (hand : List Value) (faces : List Face)
    → length hand ≡ 5
    → validated [] hand ≡ ok faces
    → (rank : List ℕ) × (evaluate_five hand ≡ ok rank) × HasCategory rank
unfolding evaluate_five
evaluate_five_returns hand faces five h =
    rw (five, h)
      (
        _,
        refl,
        rank_five-HasCategory (ranks_of faces) (same_suit faces) (straight_high (ranks_of faces)),
      )
