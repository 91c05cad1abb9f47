-- ===== src/Proto/Poker/Hands/Tests.antt =====
-- Hands of concrete cards, and the theorem at them.

use aigenora.Prelude.{ℕ, String, ◌≡◌, refl, arith, List, [], ◌∷◌, map, ok, err}
use aigenora.Prelude.Int.{pos}
use aigenora.Proto.JsonDelta.Dict.{lookup}
use aigenora.Proto.JsonDelta.Json.{Value, int, str, obj, from_entries, entries}
use aigenora.Proto.Poker.{repeated_face}
use aigenora.Proto.Poker.Hands.{
  Face, card_face, seen_face, validated, same_suit, put_number, sorted, sorted_down, other_than,
  distinct, count, with_count, max_of, eq_numbers, straight_high, count_values, top_count, top_rank,
  rank_pairs, rank_five, evaluate_five,
}
use aigenora.Proto.Poker.Hands.Choice.{BestHand, best_poker_hand, card_id}
use aigenora.Proto.Poker.Hands.Best.{best_poker_hand_lem, NotBelow, Five}

abbrev card : String → ℕ → String → Value
card suit rank id =
    obj (from_entries (("suit", str suit) ∷ ("rank", int (pos rank)) ∷ ("card_id", str id) ∷ []))

abbrev text_of : Value → String
text_of (str s) = s
text_of _ = ""

abbrev wheel : List Value
wheel =
    card "clubs" 14 "a"
    ∷ card "hearts" 2 "b"
    ∷ card "spades" 3 "c"
    ∷ card "spades" 4 "d"
    ∷ card "clubs" 5 "e"
    ∷ []

abbrev full_house : List Value
full_house =
    card "clubs" 9 "a"
    ∷ card "hearts" 9 "b"
    ∷ card "spades" 3 "c"
    ∷ card "spades" 9 "d"
    ∷ card "clubs" 3 "e"
    ∷ []

abbrev six : List Value
six = card "diamonds" 6 "f" ∷ wheel

abbrev faces : List Face
faces =
    record { suit = "diamonds"; rank = 6 }
    ∷ record { suit = "clubs"; rank = 14 }
    ∷ record { suit = "hearts"; rank = 2 }
    ∷ record { suit = "spades"; rank = 3 }
    ∷ record { suit = "spades"; rank = 4 }
    ∷ record { suit = "clubs"; rank = 5 }
    ∷ []

rank_of_wheel : evaluate_five wheel ≡ ok (4 ∷ 5 ∷ [])
unfolding evaluate_five validated card_face seen_face lookup entries from_entries same_suit
    put_number sorted sorted_down other_than distinct count with_count max_of eq_numbers
    straight_high count_values top_count top_rank rank_pairs rank_five
rank_of_wheel = refl

rank_of_full_house : evaluate_five full_house ≡ ok (6 ∷ 9 ∷ 3 ∷ [])
unfolding evaluate_five validated card_face seen_face lookup entries from_entries same_suit
    put_number sorted sorted_down other_than distinct count with_count max_of eq_numbers
    straight_high count_values top_count top_rank rank_pairs rank_five
rank_of_full_house = refl

repeated_card : validated [] (card "clubs" 9 "a" ∷ card "clubs" 9 "b" ∷ []) ≡ err repeated_face
unfolding validated card_face seen_face lookup entries from_entries
repeated_card = refl

six_valid : validated [] six ≡ ok faces
unfolding validated card_face seen_face lookup entries from_entries
six_valid = refl

best_poker_hand_lem_example :
    (result : BestHand) × (hand : List Value) × (best_poker_hand text_of six ≡ ok result)
    × Five hand six
    × (evaluate_five hand ≡ ok (result.rank))
    × (result.card_ids ≡ map (λ card. text_of (card_id card)) hand)
    × ((other : List Value) → Five other six → NotBelow (result.rank) other)
best_poker_hand_lem_example =
    best_poker_hand_lem text_of six faces (omega arith) (omega arith) six_valid
