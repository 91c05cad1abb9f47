-- ===== src/Proto/Poker/Hands/Best.antt =====
-- `best_poker_hand` of aigenora/proto/poker.py finds the best five cards.
use mathlib.Core.Path.{subst}
use aigenora.Prelude.{
  ℕ, zero, suc, ◌≡◌, ◌≤◌, take, length-take, refl, ap, sym, ◌∙◌, String, false, List, [], ◌∷◌, map,
  arith, length, ltb, inl, inr, ok, Bool-cases, none, some, ◌||◌,
}
use aigenora.Proto.JsonDelta.Json.{Value}
use aigenora.Proto.Poker.Hands.{Face, validated, evaluate_five}
use aigenora.Proto.Poker.Hands.Choice.{
  tuple_lt, combinations, Selection, better, select_best, report, BestHand, best_poker_hand,
  card_id,
}
use aigenora.Proto.Poker.Hands.Order.{tuple_lt_irrefl, not_lt_of_lt, not_lt_trans}
use aigenora.Proto.Poker.Hands.Selections.{
  Selected, stop, keep, skip, In, combinations_sound, combinations_complete,
}
use aigenora.Proto.Poker.Hands.Validity.{Selected-validated, HasCategory, evaluate_five_returns}

-- A hand is ranked, and a rank is not below it.
abbrev pub NotBelow : List ℕ → List Value → Type 0
NotBelow top hand = (rank : List ℕ) × (evaluate_five hand ≡ ok rank) × (tuple_lt top rank ≡ false)

better_or :
    (old new : Selection) (P : Selection → Type 0) → P old → P new → P (better (some old) new)
better_or old new P p q = elim (Bool-cases (tuple_lt (old.rank) (new.rank))) [
  | inl above ↦ rw above q
  | inr not_above ↦ rw not_above p
]

not_below_old : (old new : Selection) → tuple_lt ((better (some old) new).rank) (old.rank) ≡ false
not_below_old old new = elim (Bool-cases (tuple_lt (old.rank) (new.rank))) [
  | inl above ↦
      rw above (not_lt_of_lt (old.rank) (new.rank) (old.rank) above (tuple_lt_irrefl (old.rank)))
  | inr not_above ↦ rw not_above (tuple_lt_irrefl (old.rank))
]

not_below_new : (old new : Selection) → tuple_lt ((better (some old) new).rank) (new.rank) ≡ false
not_below_new old new = elim (Bool-cases (tuple_lt (old.rank) (new.rank))) [
  | inl above ↦ rw above (tuple_lt_irrefl (new.rank))
  | inr not_above ↦ rw not_above not_above
]

In-all :
    (top : List ℕ) (h : List Value) (hands : List (List Value))
    → NotBelow top h
    → ((hand : List Value) → In hand hands → NotBelow top hand)
    → (hand : List Value) → In hand (h ∷ hands)
    → NotBelow top hand
In-all top h hands n rest hand (inl e) = subst (NotBelow top) (sym e) n
In-all top h hands n rest hand (inr i) = rest hand i

-- The loop keeps a property that the selection before it and each ranked hand have, and no hand is
-- above what it selects.
module _ (P : Selection → Type 0) where
  abbrev AllRanked : List (List Value) → Type 0
  AllRanked hands =
      (hand : List Value)
      → In hand hands
      → (rank : List ℕ) × (evaluate_five hand ≡ ok rank) × P (record { rank = rank; cards = hand })

  abbrev Outcome : Selection → List (List Value) → Type 0
  Outcome old hands =
      (best : Selection) × (select_best (some old) hands ≡ ok (some best))
      × P best
      × (tuple_lt (best.rank) (old.rank) ≡ false)
      × ((hand : List Value) → In hand hands → NotBelow (best.rank) hand)

  select_best_some :
      (old : Selection) (hands : List (List Value)) → P old → AllRanked hands → Outcome old hands
  unfolding select_best
  select_best_some old [] p all = (old, refl, p, tuple_lt_irrefl (old.rank), λ hand i. absurd i)
  select_best_some old (h ∷ hands) p all =
      let (rank, e, q) = all h (inl refl) in
      let new : Selection = record { rank = rank; cards = h } in
      let (best, run, pb, above, rest) =
        select_best_some (better (some old) new) hands (better_or old new P p q)
          (λ hand i. all hand (inr i)) in
      (
        best,
        rw e run,
        pb,
        not_lt_trans (best.rank) ((better (some old) new).rank) (old.rank) above
            (not_below_old old new),
        In-all (best.rank) h hands
            (
              rank,
              e,
              not_lt_trans (best.rank) ((better (some old) new).rank) rank above
                  (not_below_new old new),
            )
            rest,
      )

  select_best-none :
      (hands : List (List Value)) (first : List Value)
      → In first hands
      → AllRanked hands
      → (best : Selection) × (select_best none hands ≡ ok (some best))
        × P best
        × ((hand : List Value) → In hand hands → NotBelow (best.rank) hand)
  unfolding select_best
  select_best-none [] first i all = absurd i
  select_best-none (h ∷ hands) first i all =
      let (rank, e, q) = all h (inl refl) in
      let (best, run, pb, above, rest) =
        select_best_some (record { rank = rank; cards = h }) hands q (λ hand j. all hand (inr j)) in
      (best, rw e run, pb, In-all (best.rank) h hands (rank, e, above) rest)

take-Selected : (n : ℕ) (l : List Value) → Selected (take n l) l
take-Selected zero [] = stop
take-Selected zero (x ∷ l) = skip (take-Selected zero l)
take-Selected (suc n) [] = stop
take-Selected (suc n) (x ∷ l) = keep (take-Selected n l)

-- Five of the cards, in their order.
abbrev pub Five : List Value → List Value → Type 0
Five hand cards = Selected hand cards × (length hand ≡ 5)

abbrev Chosen : List Value → Selection → Type 0
Chosen cards s =
    Five (s.cards) cards × (evaluate_five (s.cards) ≡ ok (s.rank)) × HasCategory (s.rank)

all_ranked :
    (cards : List Value) (faces : List Face)
    → validated [] cards ≡ ok faces
    → AllRanked (Chosen cards) (combinations 5 cards)
all_ranked cards faces valid hand i =
    let (s, five) = combinations_sound 5 cards hand i in
    let (faces', v) = Selected-validated [] [] faces s (λ f n. n) valid in
    let (rank, e, c) = evaluate_five_returns hand faces' five v in (rank, e, ((s, five), e, c))

report_chosen :
    (text_of : Value → String) (best : Selection)
    → HasCategory (best.rank)
    → (result : BestHand) × (report text_of (some best) ≡ ok result)
      × (result.rank ≡ best.rank)
      × (result.card_ids ≡ map (λ card. text_of (card_id card)) (best.cards))
unfolding report
report_chosen text_of best (name, c) = rw c (_, refl, refl, refl)

-- Of five to seven valid cards best_poker_hand returns five, by their ids and their rank, and no five
-- of the cards rank higher.
pub best_poker_hand_lem :
    (text_of : Value → String) (cards : List Value) (faces : List Face)
    → 5 ≤ length cards
    → length cards ≤ 7
    → validated [] cards ≡ ok faces
    → (result : BestHand) × (hand : List Value) × (best_poker_hand text_of cards ≡ ok result)
      × Five hand cards
      × (evaluate_five hand ≡ ok (result.rank))
      × (result.card_ids ≡ map (λ card. text_of (card_id card)) hand)
      × ((other : List Value) → Five other cards → NotBelow (result.rank) other)
unfolding best_poker_hand
best_poker_hand_lem text_of cards faces low high valid =
    let first =
      combinations_complete (take-Selected 5 cards) 5 (omega (arith, length-take 5 cards, low)) in
    let (best, run, chosen, top) =
      select_best-none (Chosen cards) (combinations 5 cards) (take 5 cards) first
        (all_ranked cards faces valid) in
    let (result, reported, r, ids) = report_chosen text_of best (chosen.2) in
    let inside : ltb (length cards) 5 || ltb 7 (length cards) ≡ false = ground (arith, low, high) in
    (
      result,
      best.cards,
      rw (inside, valid, run) reported,
      chosen.0,
      chosen.1 ∙ ap ok (sym r),
      ids,
      λ other five.
          subst (λ k. NotBelow k other) (sym r)
            (top other (combinations_complete (five.0) 5 (five.1))),
    )
