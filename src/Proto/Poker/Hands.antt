-- ===== src/Proto/Poker/Hands.antt =====
-- The hand ranking of aigenora/proto/poker.py. A card is the JSON object that the hooks hold; a rank
-- tuple is a list of numbers.
mod Order
mod Choice
mod Selections
mod Validity
mod Best
mod Tests
use mathlib.Core.List.{reverse}
use aigenora.Prelude.{
  ℕ, zero, suc, ◌+◌, ◌-◌, String, Bool, true, false, not, ◌&&◌, ◌||◌, List, [], ◌∷◌, ◌++◌, map,
  length, ltb, leb, ◌==◌, str_eq, if◌then◌else◌, Option, none, some, Result, ok, err, ◌>>=◌, ◌>>◌,
  raise_if,
}
use aigenora.Prelude.Int.{pos}
use aigenora.Proto.JsonDelta.Json.{Value, int, str, obj, entries}
use aigenora.Proto.JsonDelta.Dict.{lookup}
use aigenora.Proto.Poker.{
  PokerRuleError, not_five, bad_count, not_object, bad_card, repeated_face, no_selection,
  no_category,
}

-- The pair that `_validated_ranks_and_suits` keeps of a card.
pub record Face : Type 0 where
  suit : String
  rank : ℕ

-- `suit in SUITS`
abbrev is_suit : String → Bool
is_suit s = str_eq s "clubs" || str_eq s "diamonds" || str_eq s "hearts" || str_eq s "spades"

abbrev pub face_of : Option Value → Option Value → Result PokerRuleError Face
face_of (some (int (pos r))) (some (str s)) =
    if ltb r 2 || ltb 14 r || not (is_suit s)
    then err bad_card
    else ok (record { suit = s; rank = r })
face_of _ _ = err bad_card

unfoldable pub card_face : Value → Result PokerRuleError Face
card_face (obj fs) = face_of (lookup "rank" (entries fs)) (lookup "suit" (entries fs))
card_face _ = err not_object

abbrev pub face_eq : Face → Face → Bool
face_eq f g = str_eq (f.suit) (g.suit) && f.rank == g.rank

unfoldable pub seen_face : Face → List Face → Bool
seen_face f [] = false
seen_face f (g ∷ gs) = face_eq f g || seen_face f gs

-- `_validated_ranks_and_suits`, with the set of the faces seen so far.
unfoldable pub validated : List Face → List Value → Result PokerRuleError (List Face)
unfolding card_face seen_face
validated seen [] = ok []
validated seen (card ∷ cards) = do
  face ← card_face card
  raise_if (seen_face face seen) repeated_face
  rest ← validated (face ∷ seen) cards
  ok (face ∷ rest)

abbrev pub ranks_of : List Face → List ℕ
ranks_of [] = []
ranks_of (f ∷ fs) = f.rank ∷ ranks_of fs

-- `len(set(suits)) == 1`
unfoldable pub same_suit : List Face → Bool
same_suit [] = false
same_suit (f ∷ []) = true
same_suit (f ∷ g ∷ fs) = str_eq (f.suit) (g.suit) && same_suit (g ∷ fs)

unfoldable pub put_number : ℕ → List ℕ → List ℕ
put_number n [] = n ∷ []
put_number n (m ∷ ms) = if leb n m then n ∷ m ∷ ms else m ∷ put_number n ms

unfoldable pub sorted : List ℕ → List ℕ
unfolding put_number
sorted [] = []
sorted (n ∷ ns) = put_number n (sorted ns)

-- `sorted(…, reverse=True)` of numbers
unfoldable pub sorted_down : List ℕ → List ℕ
unfolding sorted
sorted_down ns = reverse (sorted ns)

unfoldable pub other_than : ℕ → List ℕ → List ℕ
other_than n [] = []
other_than n (m ∷ ms) = let rest = other_than n ms in if m == n then rest else m ∷ rest

-- The keys of `Counter(ranks)`, in the order of their first appearance.
unfoldable pub distinct : List ℕ → List ℕ
unfolding other_than
distinct [] = []
distinct (n ∷ ns) = n ∷ other_than n (distinct ns)

unfoldable pub count : ℕ → List ℕ → ℕ
count n [] = 0
count n (m ∷ ms) = let rest = count n ms in if m == n then suc rest else rest

-- The keys that a counter has a number of times.
unfoldable pub with_count : ℕ → List ℕ → List ℕ → List ℕ
unfolding count
with_count times ranks [] = []
with_count times ranks (n ∷ ns) =
    let rest = with_count times ranks ns in if count n ranks == times then n ∷ rest else rest

-- The maximum of a sequence that is not empty.
unfoldable pub max_of : List ℕ → ℕ
max_of [] = 0
max_of (n ∷ ns) = let rest = max_of ns in if ltb rest n then n else rest

unfoldable pub eq_numbers : List ℕ → List ℕ → Bool
eq_numbers [] [] = true
eq_numbers (n ∷ ns) (m ∷ ms) = n == m && eq_numbers ns ms
eq_numbers _ _ = false

abbrev head : List ℕ → ℕ
head [] = 0
head (n ∷ ns) = n

abbrev last : List ℕ → ℕ
last [] = 0
last (n ∷ []) = n
last (n ∷ m ∷ ns) = last (m ∷ ns)

-- `_straight_high`
unfoldable pub straight_high : List ℕ → Option ℕ
unfolding sorted_down distinct eq_numbers
straight_high ranks =
    let unique = sorted_down (distinct ranks) in
    if not (length unique == 5)
    then none
    else if eq_numbers unique (14 ∷ 5 ∷ 4 ∷ 3 ∷ 2 ∷ [])
    then some 5
    else if head unique - last unique == 4
    then some (head unique)
    else none

-- The counts of the ranks, and the groups of the greatest count.
unfoldable pub count_values : List ℕ → List ℕ → List ℕ
unfolding count
count_values ranks [] = []
count_values ranks (n ∷ ns) = count n ranks ∷ count_values ranks ns

-- `groups[0][0]` and `groups[0][1]`: the greatest count, and the greatest rank that has it.
unfoldable pub top_count : List ℕ → ℕ
unfolding max_of count_values distinct
top_count ranks = max_of (count_values ranks (distinct ranks))

unfoldable pub top_rank : List ℕ → ℕ
unfolding top_count with_count max_of distinct
top_rank ranks = max_of (with_count (top_count ranks) ranks (distinct ranks))

-- The returns of `evaluate_five` behind the last test for three of a kind, by the ranks that come
-- twice, the higher first.
unfoldable pub rank_pairs : List ℕ → List ℕ → List ℕ
unfolding sorted_down other_than max_of
rank_pairs (p ∷ q ∷ []) ranks = 2 ∷ p ∷ q ∷ max_of (other_than p (other_than q ranks)) ∷ []
rank_pairs (p ∷ []) ranks = 1 ∷ p ∷ sorted_down (other_than p ranks)
rank_pairs _ ranks = 0 ∷ sorted_down ranks

-- `evaluate_five` of checked cards: their ranks, whether they are a flush, and the high card of a
-- straight.
unfoldable pub rank_five : List ℕ → Bool → Option ℕ → List ℕ
unfolding sorted sorted_down other_than distinct count_values with_count max_of eq_numbers top_count
    top_rank rank_pairs
rank_five ranks true (some high) = 8 ∷ high ∷ []
rank_five ranks flush straight =
    if top_count ranks == 4
    then 7 ∷ top_rank ranks ∷ max_of (other_than (top_rank ranks) ranks) ∷ []
    else if eq_numbers (sorted (count_values ranks (distinct ranks))) (2 ∷ 3 ∷ [])
    then 6
      ∷ max_of (with_count 3 ranks (distinct ranks))
      ∷ max_of (with_count 2 ranks (distinct ranks))
      ∷ []
    else if flush
    then 5 ∷ sorted_down ranks
    else elim straight [
      | some high ↦ 4 ∷ high ∷ []
      | none ↦
          if top_count ranks == 3
          then 3 ∷ top_rank ranks ∷ sorted_down (other_than (top_rank ranks) ranks)
          else rank_pairs (sorted_down (with_count 2 ranks (distinct ranks))) ranks
    ]

unfoldable pub evaluate_five : List Value → Result PokerRuleError (List ℕ)
unfolding validated same_suit straight_high rank_five
evaluate_five hand = do
  raise_if (not (length hand == 5)) not_five
  faces ← validated [] hand
  ok (rank_five (ranks_of faces) (same_suit faces) (straight_high (ranks_of faces)))
