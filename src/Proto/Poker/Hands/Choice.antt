-- ===== src/Proto/Poker/Hands/Choice.antt =====
-- `best_poker_hand` of aigenora/proto/poker.py.

use aigenora.Prelude.{
  ℕ, zero, suc, String, Bool, true, false, ◌&&◌, ◌||◌, List, [], ◌∷◌, ◌++◌, map, length, ltb, ◌==◌,
  if◌then◌else◌, Option, none, some, Result, ok, err, ◌>>=◌, ◌>>◌, raise_if,
}
use aigenora.Proto.JsonDelta.Json.{Value, str, obj, entries}
use aigenora.Proto.JsonDelta.Dict.{lookup}
use aigenora.Proto.Poker.{PokerRuleError, bad_count, no_selection, no_category}
use aigenora.Proto.Poker.Hands.{validated, evaluate_five}

-- `a < b` on tuples
unfoldable pub tuple_lt : List ℕ → List ℕ → Bool
tuple_lt [] [] = false
tuple_lt [] (m ∷ ms) = true
tuple_lt (n ∷ ns) [] = false
tuple_lt (n ∷ ns) (m ∷ ms) = ltb n m || (n == m && tuple_lt ns ms)

-- `combinations(cards, n)`, in its order.
unfoldable pub combinations : {A : Type 0} → ℕ → List A → List (List A)
combinations zero l = [] ∷ []
combinations (suc n) [] = []
combinations (suc n) (x ∷ l) = map (λ c. x ∷ c) (combinations n l) ++ combinations (suc n) l

-- `best_rank` and `best_cards`
pub record Selection : Type 0 where
  pub rank : List ℕ
  pub cards : List Value

abbrev pub better : Option Selection → Selection → Selection
better none new = new
better (some old) new = if tuple_lt (old.rank) (new.rank) then new else old

-- The loop over the combinations.
unfoldable pub select_best :
    Option Selection → List (List Value) → Result PokerRuleError (Option Selection)
unfolding evaluate_five tuple_lt
select_best best [] = ok best
select_best best (candidate ∷ candidates) = do
  rank ← evaluate_five candidate
  select_best (some (better best (record { rank = rank; cards = candidate }))) candidates

-- `HAND_CATEGORY_NAMES[rank[0]]`
unfoldable pub category_name : List ℕ → Option String
category_name [] = none
category_name (n ∷ _) =
    if n == 8
    then some "straight_flush"
    else if n == 7
    then some "four_of_a_kind"
    else if n == 6
    then some "full_house"
    else if n == 5
    then some "flush"
    else if n == 4
    then some "straight"
    else if n == 3
    then some "three_of_a_kind"
    else if n == 2
    then some "two_pair"
    else if n == 1
    then some "one_pair"
    else if n == 0
    then some "high_card"
    else none

-- The result of `best_poker_hand`.
pub record BestHand : Type 0 where
  pub category : String
  pub rank : List ℕ
  pub card_ids : List String

abbrev or_else : Option Value → Option Value → Option Value
or_else (some v) w = some v
or_else none w = w

abbrev value_or : Value → Option Value → Value
value_or v none = v
value_or _ (some w) = w

-- `card.get("card_id", card.get("code", ""))`
unfoldable pub card_id : Value → Value
card_id (obj fs) =
    value_or (str "") (or_else (lookup "card_id" (entries fs)) (lookup "code" (entries fs)))
card_id _ = str ""

abbrev known_category : Option String → Result PokerRuleError String
known_category none = err no_category
known_category (some name) = ok name

-- The result of a selection; `text_of` is `str` of a JSON value.
unfoldable pub report : (Value → String) → Option Selection → Result PokerRuleError BestHand
unfolding category_name card_id
report text_of none = err no_selection
report text_of (some best) = do
  name ← known_category (category_name (best.rank))
  ok (record {
    category = name;
    rank = best.rank;
    card_ids = map (λ card. text_of (card_id card)) (best.cards);
  })

unfoldable pub best_poker_hand : (Value → String) → List Value → Result PokerRuleError BestHand
unfolding validated select_best combinations report
best_poker_hand text_of cards = do
  raise_if (ltb (length cards) 5 || ltb 7 (length cards)) bad_count
  faces ← validated [] cards
  best ← select_best none (combinations 5 cards)
  report text_of best
