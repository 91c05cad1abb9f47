-- ===== src/Proto/CardGames/Tests.antt =====
-- Tricks of concrete cards, and the theorems at them.
use aigenora.Prelude.{
  ℕ, String, ◌≡◌, refl, not, ◌||◌, List, [], ◌∷◌, str_eq, if◌then◌else◌, some, ok, err, get_elem?,
  ◌<◌,
}
use aigenora.Prelude.Int.{pos}
use aigenora.Proto.JsonDelta.Dict.{lookup}
use aigenora.Proto.JsonDelta.Json.{int, str}
use aigenora.Proto.CardGames.{
  Card, card_suit, card_rank, holds_suit, strength, strengths, lead_of, winning_trick_index,
  validate_follow_suit, must_follow,
}
use aigenora.Proto.CardGames.Follow.{has_suit, validate_follow_suit_lem}
use aigenora.Proto.CardGames.Trick.{Face, Shows, Beats, winning_trick_index-Unbeaten}

abbrev card : String → ℕ → Card
card suit rank = ("suit", str suit) ∷ ("rank", int (pos rank)) ∷ []

abbrev trick : List Card
trick = card "hearts" 10 ∷ card "hearts" 14 ∷ card "spades" 2 ∷ card "clubs" 13 ∷ []

abbrev face : String → ℕ → Face
face suit rank = record { suit = suit; rank = rank }

abbrev later_faces : List Face
later_faces = face "hearts" 14 ∷ face "spades" 2 ∷ face "clubs" 13 ∷ []

trick-Shows : Shows trick (face "hearts" 10 ∷ later_faces)
unfolding card_suit card_rank lookup
trick-Shows = ((refl, refl, (refl, refl, (refl, refl, (refl, refl, tt)))))

-- The smallest trump wins.
trump_wins : winning_trick_index trick "hearts" (some "spades") ≡ ok 2
unfolding winning_trick_index strengths strength card_suit card_rank lookup lead_of
trump_wins = refl

off_suit : validate_follow_suit trick (card "clubs" 13) "hearts" ≡ err must_follow
unfolding validate_follow_suit holds_suit card_suit lookup
off_suit = refl

winning_trick_index-Unbeaten_example :
    (i : ℕ) × (best : Face) × (winning_trick_index trick "hearts" (some "spades") ≡ ok i)
    × (get_elem? (face "hearts" 10 ∷ later_faces) i ≡ some best)
    × ((k : ℕ) (g : Face)
        → get_elem? (face "hearts" 10 ∷ later_faces) k ≡ some g
        → ¬ Beats "hearts" (some "spades") g best)
    × ((k : ℕ) (g : Face)
        → k < i
        → get_elem? (face "hearts" 10 ∷ later_faces) k ≡ some g
        → Beats "hearts" (some "spades") best g)
winning_trick_index-Unbeaten_example =
    winning_trick_index-Unbeaten trick (face "hearts" 10) later_faces "hearts" (some "spades")
      trick-Shows refl refl

spade_suit : card_suit (card "spades" 2) ≡ ok "spades"
unfolding card_suit lookup
spade_suit = refl

club_suit : card_suit (card "clubs" 13) ≡ ok "clubs"
unfolding card_suit lookup
club_suit = refl

validate_follow_suit_lem_example :
    validate_follow_suit (card "spades" 2 ∷ []) (card "clubs" 13) "spades" ≡ (
      if str_eq "clubs" "spades" || not (has_suit "spades" ("spades" ∷ []))
      then ok tt
      else err must_follow)
validate_follow_suit_lem_example =
    validate_follow_suit_lem (card "spades" 2 ∷ []) ("spades" ∷ []) (card "clubs" 13) "clubs"
      "spades" refl (spade_suit, refl) club_suit
