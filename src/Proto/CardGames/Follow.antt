-- ===== src/Proto/CardGames/Follow.antt =====
-- Following suit in aigenora/proto/card_games.py.
use aigenora.Prelude.{
  ◌≡◌, refl, String, Bool, true, false, not, ◌||◌, List, [], ◌∷◌, str_eq, if◌then◌else◌, ok, err,
  Bool-cases, inl, inr,
}
use aigenora.Proto.CardGames.{
  Card, must_follow, card_suit, holds_suit, validate_follow_suit, is_standard,
}

-- Each card has a suit; and one of them has a given suit.
abbrev pub Suited : List Card → List String → Type 0
Suited [] suits = suits ≡ []
Suited (card ∷ cards) [] = ⊥
Suited (card ∷ cards) (s ∷ suits) = (card_suit card ≡ ok s) × Suited cards suits

unfoldable pub has_suit : String → List String → Bool
has_suit suit [] = false
has_suit suit (s ∷ suits) = str_eq s suit || has_suit suit suits

holds_suit-Suited :
    (suit : String) (cards : List Card) (suits : List String)
    → Suited cards suits
    → holds_suit suit cards ≡ ok (has_suit suit suits)
unfolding holds_suit has_suit
holds_suit-Suited suit [] suits h = rw h refl
holds_suit-Suited suit (card ∷ cards) [] h = absurd h
holds_suit-Suited suit (card ∷ cards) (s ∷ suits) h = elim (Bool-cases (str_eq s suit)) [
  | inl same ↦ rw (h.0, same) refl
  | inr other ↦ rw (h.0, other) (holds_suit-Suited suit cards suits h.1)
]

-- For a standard led suit and cards that have a suit, validate_follow_suit returns exactly where the
-- played card is of the led suit or the hand has no card of it, and raises must_follow otherwise.
pub validate_follow_suit_lem :
    (hand : List Card) (suits : List String) (card : Card) (suit led_suit : String)
    → is_standard led_suit ≡ true
    → Suited hand suits
    → card_suit card ≡ ok suit
    → validate_follow_suit hand card led_suit
      ≡ (if str_eq suit led_suit || not (has_suit led_suit suits) then ok tt else err must_follow)
unfolding validate_follow_suit
validate_follow_suit_lem hand suits card suit led_suit led suited played =
    elim (Bool-cases (str_eq suit led_suit)) [
      | inl follows ↦ rw (led, played, follows) refl
      | inr off ↦ elim (Bool-cases (has_suit led_suit suits)) [
        | inl holds ↦
            rw (led, played, off, holds_suit-Suited led_suit hand suits suited, holds) refl
        | inr lacks ↦
            rw (led, played, off, holds_suit-Suited led_suit hand suits suited, lacks) refl
      ]
    ]
