-- ===== src/Proto/CardGames/Max.antt =====
-- The loop of Python's `max` in `winning_trick_index` of aigenora/proto/card_games.py.
use mathlib.Core.Path.{subst}
use mathlib.Core.Option.{some-injective}
use aigenora.Prelude.{
  ℕ, zero, suc, ◌+◌, ◌≡◌, refl, ap, ◌∙◌, String, true, false, List, [], ◌∷◌, length, ◌==◌, Option,
  some, arith, ok, get_elem?, inl, inr, Bool-cases, ◌<◌, sym,
}
use aigenora.Proto.CardGames.{
  Card, Strength, weaker, strengths, Lead, take_lead, lead_of, winner_of, winning_trick_index,
  is_standard, bad_trump,
}

not_weaker_trans : (a b c : Strength) → weaker a b ≡ false → weaker b c ≡ false → weaker a c ≡ false
not_weaker_trans a b c p q = ground (arith, p, q)

not_weaker_old : (old new : Lead) → weaker ((take_lead old new).best) (old.best) ≡ false
not_weaker_old old new = elim (Bool-cases (weaker (old.best) (new.best))) [
  | inl above ↦ rw above (ground (arith, above))
  | inr not_above ↦ rw not_above (ground arith)
]

not_weaker_new : (old new : Lead) → weaker ((take_lead old new).best) (new.best) ≡ false
not_weaker_new old new = elim (Bool-cases (weaker (old.best) (new.best))) [
  | inl above ↦ rw above (ground arith)
  | inr not_above ↦ rw not_above not_above
]

take_lead_or : (old new : Lead) (P : Lead → Type 0) → P old → P new → P (take_lead old new)
take_lead_or old new P p q = elim (Bool-cases (weaker (old.best) (new.best))) [
  | inl above ↦ rw above q
  | inr not_above ↦ rw not_above p
]

-- A lead of a list of keys: it stands in the list at its place.
abbrev StandsIn : List Strength → Lead → Type 0
StandsIn all lead = get_elem? all (lead.place) ≡ some (lead.best)

-- Keys that follow a place of a list.
abbrev Follows : List Strength → ℕ → List Strength → Type 0
Follows all n ss = (k : ℕ) → get_elem? all (n + k) ≡ get_elem? ss k

over_all :
    (b t : Strength) (ss : List Strength)
    → weaker b t ≡ false
    → ((k : ℕ) (u : Strength) → get_elem? ss k ≡ some u → weaker b u ≡ false)
    → (k : ℕ) (u : Strength) → get_elem? (t ∷ ss) k ≡ some u
    → weaker b u ≡ false
over_all b t ss h rest zero u e = let p : t ≡ u = cc in subst (λ v. weaker b v ≡ false) p h
over_all b t ss h rest (suc k) u e = rest k u e

lead_of-best :
    (all : List Strength) (lead : Lead) (n : ℕ) (ss : List Strength)
    → Follows all n ss
    → StandsIn all lead
    → StandsIn all (lead_of lead n ss)
      × (weaker ((lead_of lead n ss).best) (lead.best) ≡ false)
      × ((k : ℕ) (t : Strength)
          → get_elem? ss k ≡ some t
          → weaker ((lead_of lead n ss).best) t ≡ false)
unfolding lead_of
lead_of-best all lead n [] f s = (s, ground arith, λ k t e. absurd cc)
lead_of-best all lead n (t ∷ ss) f s =
    let new : Lead = record { place = n; best = t } in
    let here : get_elem? all n ≡ some t = ap (get_elem? all) (omega arith) ∙ f 0 in
    let (stands, above, rest) =
      lead_of-best all (take_lead lead new) (suc n) ss
        (λ k. ap (get_elem? all) (omega arith) ∙ f (suc k))
        (take_lead_or lead new (StandsIn all) s here) in
    (
      stands,
      not_weaker_trans ((lead_of (take_lead lead new) (suc n) ss).best) ((take_lead lead new).best)
          (lead.best) above (not_weaker_old lead new),
      over_all ((lead_of (take_lead lead new) (suc n) ss).best) t ss
          (not_weaker_trans ((lead_of (take_lead lead new) (suc n) ss).best)
            ((take_lead lead new).best) t above (not_weaker_new lead new))
          rest,
    )

-- Every key before a place is weaker than a lead's.
abbrev Leads : List Strength → Lead → Type 0
Leads all lead =
    (k : ℕ) (t : Strength) → k < lead.place → get_elem? all k ≡ some t → weaker t (lead.best) ≡ true

-- No key before a place of the list is stronger than a lead's.
abbrev Tops : List Strength → Lead → ℕ → Type 0
Tops all lead n =
    (k : ℕ) (t : Strength) → k < n → get_elem? all k ≡ some t → weaker (lead.best) t ≡ false

take_lead-Leads :
    (all : List Strength) (lead : Lead) (n : ℕ) (t : Strength)
    → Leads all lead
    → Tops all lead n
    → Leads all (take_lead lead (record { place = n; best = t }))
take_lead-Leads all lead n t first tops = elim (Bool-cases (weaker (lead.best) t)) [
  | inl above ↦
      rw above (λ k u before there. let kept = tops k u before there in ground (arith, kept, above))
  | inr not_above ↦ rw not_above first
]

take_lead-Tops :
    (all : List Strength) (lead : Lead) (n : ℕ) (t : Strength)
    → get_elem? all n ≡ some t
    → Tops all lead n
    → Tops all (take_lead lead (record { place = n; best = t })) (suc n)
take_lead-Tops all lead n t here tops k u before there = elim (Bool-cases (k == n)) [
  | inl last ↦
      let same : k ≡ n = ground (arith, last) in
      let is_new : t ≡ u = some-injective t u (sym here ∙ ap (get_elem? all) (sym same) ∙ there) in
      subst (λ v. weaker ((take_lead lead (record { place = n; best = t })).best) v ≡ false) is_new
        (not_weaker_new lead (record { place = n; best = t }))
  | inr earlier ↦
      let k_before : k < n = ground (arith, earlier, before) in
      not_weaker_trans ((take_lead lead (record { place = n; best = t })).best) (lead.best) u
        (not_weaker_old lead (record { place = n; best = t })) (tops k u k_before there)
]

lead_of-Leads :
    (all : List Strength) (lead : Lead) (n : ℕ) (ss : List Strength)
    → Follows all n ss
    → Leads all lead
    → Tops all lead n
    → Leads all (lead_of lead n ss)
unfolding lead_of
lead_of-Leads all lead n [] f first tops = first
lead_of-Leads all lead n (t ∷ ss) f first tops =
    let here : get_elem? all n ≡ some t = ap (get_elem? all) (omega arith) ∙ f 0 in
    lead_of-Leads all (take_lead lead (record { place = n; best = t })) (suc n) ss
      (λ k. ap (get_elem? all) (omega arith) ∙ f (suc k)) (take_lead-Leads all lead n t first tops)
      (take_lead-Tops all lead n t here tops)

-- The key at a place is the first of the greatest.
abbrev Greatest : List Strength → ℕ → Type 0
Greatest ss i =
    (s : Strength) × (get_elem? ss i ≡ some s)
    × ((k : ℕ) (t : Strength) → get_elem? ss k ≡ some t → weaker s t ≡ false)
    × ((k : ℕ) (t : Strength) → k < i → get_elem? ss k ≡ some t → weaker t s ≡ true)

only_first : (s : Strength) (ss : List Strength) → Tops (s ∷ ss) (record { place = 0; best = s }) 1
only_first s ss zero t before there =
    subst (λ u. weaker s u ≡ false) (some-injective s t there) (ground arith)
only_first s ss (suc k) t before there = absurd (omega (arith, before))

winner_of-Greatest :
    (s : Strength) (ss : List Strength)
    → (i : ℕ) × (winner_of (s ∷ ss) ≡ ok i) × Greatest (s ∷ ss) i
winner_of-Greatest s ss =
    let lead : Lead = record { place = 0; best = s } in
    let f : Follows (s ∷ ss) 1 ss =
      λ k. let e : 1 + k ≡ suc k = omega arith in ap (get_elem? (s ∷ ss)) e in
    let (stands, above, rest) = lead_of-best (s ∷ ss) lead 1 ss f refl in
    (
      (lead_of lead 1 ss).place,
      refl,
      (
        (lead_of lead 1 ss).best,
        stands,
        over_all ((lead_of lead 1 ss).best) s ss above rest,
        lead_of-Leads (s ∷ ss) lead 1 ss f (λ k t before there. absurd (omega (arith, before)))
            (only_first s ss),
      ),
    )

pub strengths-Greatest :
    (trick : List Card) (led_suit : String) (trump_suit : Option String) (s : Strength)
    (ss : List Strength)
    → is_standard led_suit ≡ true
    → bad_trump trump_suit ≡ false
    → strengths led_suit trump_suit trick ≡ ok (s ∷ ss)
    → (i : ℕ) × (winning_trick_index trick led_suit trump_suit ≡ ok i) × Greatest (s ∷ ss) i
unfolding winning_trick_index
strengths-Greatest [] led_suit trump_suit s ss led trump keys = absurd (unfold strengths in cc)
strengths-Greatest (card ∷ cards) led_suit trump_suit s ss led trump keys =
    let (i, won, best) = winner_of-Greatest s ss in
    let some_card : length (card ∷ cards) == 0 ≡ false = ground arith in
    (i, rw (some_card, led, trump, keys) won, best)
