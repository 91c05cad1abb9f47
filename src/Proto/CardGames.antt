-- ===== src/Proto/CardGames.antt =====
-- The card rules of aigenora/proto/card_games.py. A card is a dict of JSON values.
mod Follow
mod Max
mod Trick
mod Tests
use aigenora.Prelude.{
  ℕ, suc, ◌+◌, String, Bool, true, false, not, ◌&&◌, ◌||◌, List, [], ◌∷◌, length, ltb, ◌==◌, str_eq,
  if◌then◌else◌, Option, none, some, Result, ok, err, ◌>>=◌, ◌>>◌, raise_if,
}
use aigenora.Prelude.Int.{pos}
use aigenora.Proto.JsonDelta.Json.{Value, int, str}
use aigenora.Proto.JsonDelta.Dict.{Assoc, lookup}

pub data CardGameError : Type 0 where
  bad_led_suit bad_trump_suit must_follow empty_trick bad_suit bad_rank : CardGameError

abbrev pub Card : Type 0
Card = Assoc Value

-- `suit in SUITS`
abbrev pub is_standard : String → Bool
is_standard s = str_eq s "clubs" || str_eq s "diamonds" || str_eq s "hearts" || str_eq s "spades"

abbrev suit_of : Option Value → Result CardGameError String
suit_of (some (str s)) = if is_standard s || str_eq s "joker" then ok s else err bad_suit
suit_of _ = err bad_suit

-- `_card_suit`
unfoldable pub card_suit : Card → Result CardGameError String
card_suit card = suit_of (lookup "suit" card)

-- `rank in RANK_LABELS`
abbrev is_rank : ℕ → Bool
is_rank r = (ltb 1 r && ltb r 15) || r == 16 || r == 17

abbrev rank_of : Option Value → Result CardGameError ℕ
rank_of (some (int (pos r))) = if is_rank r then ok r else err bad_rank
rank_of _ = err bad_rank

-- `_card_rank`
unfoldable pub card_rank : Card → Result CardGameError ℕ
card_rank card = rank_of (lookup "rank" card)

-- `any(…)` over the hand, which stops at the first card of the suit.
unfoldable pub holds_suit : String → List Card → Result CardGameError Bool
unfolding card_suit
holds_suit suit [] = ok false
holds_suit suit (card ∷ cards) = do
  s ← card_suit card
  if str_eq s suit then ok true else holds_suit suit cards

unfoldable pub validate_follow_suit : List Card → Card → String → Result CardGameError (Unit {0})
unfolding card_suit holds_suit
validate_follow_suit hand_cards played_card led_suit = do
  raise_if (not (is_standard led_suit)) bad_led_suit
  played ← card_suit played_card
  if str_eq played led_suit
      then ok tt
      else holds_suit led_suit hand_cards >>= λ holds. raise_if holds must_follow

-- The pair that `strength` returns.
pub record Strength : Type 0 where
  tier : ℕ
  rank : ℕ

-- `a < b` on those pairs
abbrev pub weaker : Strength → Strength → Bool
weaker a b = ltb (a.tier) (b.tier) || (a.tier == b.tier && ltb (a.rank) (b.rank))

abbrev pub is_trump : Option String → String → Bool
is_trump none s = false
is_trump (some t) s = str_eq s t

unfoldable pub strength : String → Option String → Card → Result CardGameError Strength
unfolding card_suit card_rank
strength led_suit trump_suit card = do
  s ← card_suit card
  r ← card_rank card
  ok (record {
    tier = if is_trump trump_suit s then 2 else if str_eq s led_suit then 1 else 0;
    rank = r;
  })

unfoldable pub strengths : String → Option String → List Card → Result CardGameError (List Strength)
unfolding strength
strengths led_suit trump_suit [] = ok []
strengths led_suit trump_suit (card ∷ cards) = do
  s ← strength led_suit trump_suit card
  ss ← strengths led_suit trump_suit cards
  ok (s ∷ ss)

-- The greatest key so far, and its index.
pub record Lead : Type 0 where
  place : ℕ
  best : Strength

abbrev pub take_lead : Lead → Lead → Lead
take_lead old new = if weaker (old.best) (new.best) then new else old

-- `max(range(…), key=…)` from an index on: the first of the greatest keys.
unfoldable pub lead_of : Lead → ℕ → List Strength → Lead
lead_of lead n [] = lead
lead_of lead n (s ∷ ss) = lead_of (take_lead lead (record { place = n; best = s })) (suc n) ss

abbrev pub bad_trump : Option String → Bool
bad_trump none = false
bad_trump (some t) = not (is_standard t)

abbrev pub winner_of : List Strength → Result CardGameError ℕ
winner_of [] = err empty_trick
winner_of (s ∷ ss) = ok ((lead_of (record { place = 0; best = s }) 1 ss).place)

unfoldable pub winning_trick_index : List Card → String → Option String → Result CardGameError ℕ
unfolding strengths lead_of
winning_trick_index trick led_suit trump_suit = do
  raise_if (length trick == 0) empty_trick
  raise_if (not (is_standard led_suit)) bad_led_suit
  raise_if (bad_trump trump_suit) bad_trump_suit
  ss ← strengths led_suit trump_suit trick
  winner_of ss
