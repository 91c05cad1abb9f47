-- ===== src/Proto/CardGames/Trick.antt =====
-- The winner of a trick in aigenora/proto/card_games.py, by the rules of the game.
use mathlib.Core.Path.{subst}
use mathlib.Core.Option.{some-injective}
use aigenora.Prelude.{
  ℕ, zero, suc, ◌≡◌, refl, ap, ◌∙◌, String, true, false, List, [], ◌∷◌, Option, none, some, arith,
  ok, get_elem?, inl, inr, Bool-cases, ◌<◌, sym, eq_iff, str_eq, if◌then◌else◌,
}
use aigenora.Proto.CardGames.{
  Card, Strength, weaker, strengths, winning_trick_index, is_standard, bad_trump, is_trump,
  strength, card_suit, card_rank,
}
use aigenora.Proto.CardGames.Max.{strengths-Greatest}

-- What the rules read of a card.
pub record Face : Type 0 where
  pub suit : String
  pub rank : ℕ

-- The cards show these faces.
abbrev pub Shows : List Card → List Face → Type 0
Shows [] [] = Unit
Shows (card ∷ cards) (f ∷ fs) =
    (card_suit card ≡ ok f.suit) × (card_rank card ≡ ok f.rank) × Shows cards fs
Shows _ _ = ⊥

-- Neither a trump nor of the led suit.
abbrev pub IsOff : String → Option String → Face → Type 0
IsOff led_suit trump_suit f = ¬ (trump_suit ≡ some f.suit) × ¬ (f.suit ≡ led_suit)

-- One face beats another: a trump any other suit, the led suit a suit that is off, and otherwise, within
-- one suit or off both, the higher rank.
pub data Beats (led_suit : String) (trump_suit : Option String) (g f : Face) : Type 0 where
  trumps : trump_suit ≡ some g.suit → ¬ (trump_suit ≡ some f.suit) → Beats led_suit trump_suit g f
  follows : g.suit ≡ led_suit → IsOff led_suit trump_suit f → Beats led_suit trump_suit g f
  tops : g.suit ≡ f.suit → f.rank < g.rank → Beats led_suit trump_suit g f
  tops_off :
      IsOff led_suit trump_suit g
      → IsOff led_suit trump_suit f
      → f.rank < g.rank
      → Beats led_suit trump_suit g f

abbrev key : String → Option String → Face → Strength
key led_suit trump_suit f = record {
  tier = if is_trump trump_suit f.suit then 2 else if str_eq f.suit led_suit then 1 else 0;
  rank = f.rank;
}

abbrev keys : String → Option String → List Face → List Strength
keys led_suit trump_suit [] = []
keys led_suit trump_suit (f ∷ fs) = key led_suit trump_suit f ∷ keys led_suit trump_suit fs

strengths-keys :
    (trick : List Card) (faces : List Face) (led_suit : String) (trump_suit : Option String)
    → Shows trick faces
    → strengths led_suit trump_suit trick ≡ ok (keys led_suit trump_suit faces)
unfolding strengths strength
strengths-keys [] [] led_suit trump_suit h = refl
strengths-keys [] (f ∷ fs) led_suit trump_suit h = absurd h
strengths-keys (card ∷ cards) [] led_suit trump_suit h = absurd h
strengths-keys (card ∷ cards) (f ∷ fs) led_suit trump_suit (suited, ranked, rest) =
    rw (suited, ranked, strengths-keys cards fs led_suit trump_suit rest) refl

key_at :
    (led_suit : String) (trump_suit : Option String) (faces : List Face) (k : ℕ) (g : Face)
    → get_elem? faces k ≡ some g
    → get_elem? (keys led_suit trump_suit faces) k ≡ some (key led_suit trump_suit g)
key_at led_suit trump_suit [] k g h = absurd cc
key_at led_suit trump_suit (f ∷ fs) zero g h =
    ap (λ t. some (key led_suit trump_suit t)) (some-injective f g h)
key_at led_suit trump_suit (f ∷ fs) (suc k) g h = key_at led_suit trump_suit fs k g h

face_at :
    (led_suit : String) (trump_suit : Option String) (faces : List Face) (k : ℕ) (s : Strength)
    → get_elem? (keys led_suit trump_suit faces) k ≡ some s
    → (f : Face) × (get_elem? faces k ≡ some f) × (key led_suit trump_suit f ≡ s)
face_at led_suit trump_suit [] k s h = absurd cc
face_at led_suit trump_suit (f ∷ fs) zero s h =
    (f, refl, some-injective (key led_suit trump_suit f) s h)
face_at led_suit trump_suit (f ∷ fs) (suc k) s h = face_at led_suit trump_suit fs k s h

is_trump_iff :
    (trump_suit : Option String) (s : String)
    → (is_trump trump_suit s ≡ true → trump_suit ≡ some s)
      × (trump_suit ≡ some s → is_trump trump_suit s ≡ true)
is_trump_iff none s = (λ h. cc, λ h. absurd cc)
is_trump_iff (some t) s =
    (λ h. ap some (sym ((eq_iff s t).0 h)), λ h. (eq_iff s t).1 (sym (some-injective t s h)))

Beats-weaker :
    (led_suit : String) (trump_suit : Option String) (g f : Face)
    → Beats led_suit trump_suit g f
    → weaker (key led_suit trump_suit f) (key led_suit trump_suit g) ≡ true
Beats-weaker led_suit trump_suit g f (trumps yes_g not_f) =
    ground (arith, is_trump_iff trump_suit f.suit, is_trump_iff trump_suit g.suit)
Beats-weaker led_suit trump_suit g f (follows led_g off) = ground (
  arith,
  is_trump_iff trump_suit f.suit,
  is_trump_iff trump_suit g.suit,
  eq_iff f.suit led_suit,
  eq_iff g.suit led_suit,
)
Beats-weaker led_suit trump_suit g f (tops same higher) = rw same (ground (arith, higher))
Beats-weaker led_suit trump_suit g f (tops_off off_g off_f higher) = ground (
  arith,
  is_trump_iff trump_suit f.suit,
  is_trump_iff trump_suit g.suit,
  eq_iff f.suit led_suit,
  eq_iff g.suit led_suit,
)

trumps_agree :
    (trump_suit : Option String) (s t : String)
    → is_trump trump_suit s ≡ true
    → is_trump trump_suit t ≡ true
    → s ≡ t
trumps_agree none s t p q = cc
trumps_agree (some u) s t p q = (eq_iff s u).0 p ∙ sym ((eq_iff t u).0 q)

is_off :
    (led_suit : String) (trump_suit : Option String) (f : Face)
    → is_trump trump_suit f.suit ≡ false
    → str_eq f.suit led_suit ≡ false
    → IsOff led_suit trump_suit f
is_off led_suit trump_suit f p q = (
  λ e. let yes_f = (is_trump_iff trump_suit f.suit).1 e in cc,
  λ e. let yes_f = (eq_iff f.suit led_suit).1 e in cc,
)

-- Of two faces neither of which is a trump.
plain-Beats :
    (led_suit : String) (trump_suit : Option String) (g f : Face)
    → is_trump trump_suit g.suit ≡ false
    → is_trump trump_suit f.suit ≡ false
    → weaker (key led_suit trump_suit f) (key led_suit trump_suit g) ≡ true
    → Beats led_suit trump_suit g f
plain-Beats led_suit trump_suit g f no_g no_f h = elim (Bool-cases (str_eq f.suit led_suit)) [
  | inl led_f ↦ elim (Bool-cases (str_eq g.suit led_suit)) [
    | inl led_g ↦
        tops ((eq_iff g.suit led_suit).0 led_g ∙ sym ((eq_iff f.suit led_suit).0 led_f))
          (ground (arith, h, no_g, no_f, led_f, led_g))
    | inr off_g ↦ absurd (ground (arith, h, no_g, no_f, led_f, off_g))
  ]
  | inr off_f ↦ elim (Bool-cases (str_eq g.suit led_suit)) [
    | inl led_g ↦
        follows ((eq_iff g.suit led_suit).0 led_g) (is_off led_suit trump_suit f no_f off_f)
    | inr off_g ↦
        tops_off (is_off led_suit trump_suit g no_g off_g) (is_off led_suit trump_suit f no_f off_f)
          (ground (arith, h, no_g, no_f, off_f, off_g))
  ]
]

weaker-Beats :
    (led_suit : String) (trump_suit : Option String) (g f : Face)
    → weaker (key led_suit trump_suit f) (key led_suit trump_suit g) ≡ true
    → Beats led_suit trump_suit g f
weaker-Beats led_suit trump_suit g f h = elim (Bool-cases (is_trump trump_suit f.suit)) [
  | inl trump_f ↦ elim (Bool-cases (is_trump trump_suit g.suit)) [
    | inl trump_g ↦
        tops (trumps_agree trump_suit g.suit f.suit trump_g trump_f)
          (ground (arith, h, trump_f, trump_g))
    | inr no_g ↦ absurd (ground (arith, h, trump_f, no_g))
  ]
  | inr no_f ↦ elim (Bool-cases (is_trump trump_suit g.suit)) [
    | inl trump_g ↦
        trumps ((is_trump_iff trump_suit g.suit).0 trump_g)
          (λ e. let yes_f = (is_trump_iff trump_suit f.suit).1 e in cc)
    | inr no_g ↦ plain-Beats led_suit trump_suit g f no_g no_f h
  ]
]

-- Where there are cards, each with a valid suit and rank, and the led suit and the trump suit are
-- standard, winning_trick_index returns the index of a card that beats every card before it and that no
-- card of the trick beats: a trump beats every other suit, the led suit beats the suits that are
-- neither, and the higher rank beats the lower one within a suit and among those.
pub winning_trick_index-Unbeaten :
    (trick : List Card) (f : Face) (fs : List Face) (led_suit : String) (trump_suit : Option String)
    → Shows trick (f ∷ fs)
    → is_standard led_suit ≡ true
    → bad_trump trump_suit ≡ false
    → (i : ℕ) × (best : Face) × (winning_trick_index trick led_suit trump_suit ≡ ok i)
      × (get_elem? (f ∷ fs) i ≡ some best)
      × ((k : ℕ) (g : Face) → get_elem? (f ∷ fs) k ≡ some g → ¬ Beats led_suit trump_suit g best)
      × ((k : ℕ) (g : Face)
          → k < i
          → get_elem? (f ∷ fs) k ≡ some g
          → Beats led_suit trump_suit best g)
winning_trick_index-Unbeaten trick f fs led_suit trump_suit shows led trump =
    let (i, won, (s, at, over, first)) =
      strengths-Greatest trick led_suit trump_suit (key led_suit trump_suit f)
        (keys led_suit trump_suit fs) led trump
        (strengths-keys trick (f ∷ fs) led_suit trump_suit shows) in
    let (best, stands, same) = face_at led_suit trump_suit (f ∷ fs) i s at in
    (
      i,
      best,
      won,
      stands,
      λ k g there beats.
          let not_weaker =
            over k (key led_suit trump_suit g) (key_at led_suit trump_suit (f ∷ fs) k g there) in
          let weak = Beats-weaker led_suit trump_suit g best beats in cc,
      λ k g before there. weaker-Beats led_suit trump_suit best g (
          subst (λ t. weaker (key led_suit trump_suit g) t ≡ true) (sym same)
            (first k (key led_suit trump_suit g) before
              (key_at led_suit trump_suit (f ∷ fs) k g there))),
    )
