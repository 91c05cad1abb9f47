-- ===== src/Proto/Poker/Pots/Conservation.antt =====
-- No chip is lost or made by the side pots of aigenora/proto/poker.py.
use native.Mathlib.Nat.{mul-suc}
use aigenora.Prelude.{
  ℕ, suc, ◌+◌, ◌-◌, ◌*◌, ◌≤◌, ◌<◌, ◌≡◌, refl, ap, ◌∙◌, sym, String, not, List, [], ◌∷◌, ◌++◌, arith,
  leb, length, ok, raise_if, ok_of_bind, Bool-cases, inl, inr,
}
use aigenora.Proto.JsonDelta.Json.{Value}
use aigenora.Proto.JsonDelta.Dict.{Assoc, sort, place}
use aigenora.Proto.Poker.Pots.{
  Pot, levels, at_least, keys, participants, pot_at, pots_from, build_side_pots, read_object,
  check_amounts, all_known,
}
use aigenora.Proto.Poker.Pots.Levels.{
  Ascending, Covered, has_level, levels-Ascending, levels-Covered, reaches_next, Covered-next,
}

unfoldable pub total : Assoc ℕ → ℕ
total [] = 0
total ((k, a) ∷ l) = a + total l

unfoldable pub total_amount : List Pot → ℕ
total_amount [] = 0
total_amount (p ∷ ps) = p.amount + total_amount ps

-- What the contributions hold above a level.
excess : ℕ → Assoc ℕ → ℕ
excess previous [] = 0
excess previous ((k, a) ∷ l) = (a - previous) + excess previous l

excess_of_zero : (l : Assoc ℕ) → excess 0 l ≡ total l
unfolding excess total
excess_of_zero [] = refl
excess_of_zero ((k, a) ∷ l) = omega (arith, excess_of_zero l)

excess_of_top : (previous : ℕ) (l : Assoc ℕ) → Covered previous [] l → excess previous l ≡ 0
unfolding excess has_level
excess_of_top previous [] c = refl
excess_of_top previous ((k, a) ∷ l) c = ground (arith, c.0, excess_of_top previous l c.1)

reached_step :
    (p v a n x y : ℕ)
    → p < v
    → v ≤ a
    → x ≡ (v - p) * n + y
    → (a - p) + x ≡ (v - p) * suc n + ((a - v) + y)
reached_step p v a n x y h reached e = omega (arith, mul-suc (v - p) n, h, reached, e)

excess-at_least :
    (previous level : ℕ) (ls : List ℕ) (l : Assoc ℕ)
    → previous < level
    → Ascending level ls
    → Covered previous (level ∷ ls) l
    → excess previous l ≡ (level - previous) * length (at_least level l) + excess level l
unfolding excess at_least
excess-at_least previous level ls [] h asc c = omega arith
excess-at_least previous level ls ((k, a) ∷ l) h asc c = elim (Bool-cases (leb level a)) [
  | inl reached ↦ rw reached (
      reached_step previous level a (length (at_least level l)) (excess previous l) (excess level l)
        h (ground (arith, reached)) (excess-at_least previous level ls l h asc c.1))
  | inr below ↦ rw below (
      omega (
        arith,
        excess-at_least previous level ls l h asc c.1,
        reaches_next a previous level ls asc c.0 below,
        h,
      ))
]

length-place :
    {V : Type 0} (k : String) (v : V) (l : Assoc V) → length (place k v l) ≡ suc (length l)
unfolding place
length-place k v [] = refl
length-place k v ((j, w) ∷ l) = ground (arith, length-place k v l)

length-sort : {V : Type 0} (l : Assoc V) → length (sort l) ≡ length l
unfolding sort
length-sort [] = refl
length-sort ((k, v) ∷ l) = length-place k v (sort l) ∙ ap suc (length-sort l)

length-keys : (l : Assoc ℕ) → length (keys l) ≡ length l
unfolding keys
length-keys [] = refl
length-keys ((k, a) ∷ l) = ap suc (length-keys l)

length-participants :
    (level : ℕ) (l : Assoc ℕ) → length (participants level l) ≡ length (at_least level l)
unfolding participants
length-participants level l = length-keys (sort (at_least level l)) ∙ length-sort (at_least level l)

total_amount-append :
    (ps qs : List Pot) → total_amount (ps ++ qs) ≡ total_amount ps + total_amount qs
unfolding total_amount
total_amount-append [] qs = omega arith
total_amount-append (p ∷ ps) qs = omega (arith, total_amount-append ps qs)

pot_at_amount :
    (folded : List String) (l : Assoc ℕ) (previous level : ℕ) (ps : List Pot)
    → pot_at folded l previous level ≡ ok ps
    → total_amount ps ≡ (level - previous) * length (at_least level l)
unfolding pot_at total_amount
pot_at_amount folded l previous level ps h = ground (arith, h, length-participants level l)

pots_from_amount :
    (folded : List String) (l : Assoc ℕ) (previous : ℕ) (ls : List ℕ) (ps : List Pot)
    → Ascending previous ls
    → Covered previous ls l
    → pots_from folded l previous ls ≡ ok ps
    → total_amount ps ≡ excess previous l
unfolding pots_from total_amount
pots_from_amount folded l previous [] ps asc c h =
    let e : ps ≡ [] = cc in ap total_amount e ∙ sym (excess_of_top previous l c)
pots_from_amount folded l previous (level ∷ ls) ps asc c h =
    let (first, p, h1) = ok_of_bind (pot_at folded l previous level) _ h in
    let (rest, q, h2) = ok_of_bind (pots_from folded l level ls) _ h1 in
    let e : ps ≡ first ++ rest = cc in
    ap total_amount e
    ∙ omega (
      arith,
      total_amount-append first rest,
      pot_at_amount folded l previous level first p,
      pots_from_amount folded l level ls rest asc.1 (Covered-next previous level ls l asc.0 c) q,
      excess-at_least previous level ls l asc.0 asc.1 c,
    )

-- The amounts of the pots that build_side_pots returns add up to the contributions.
pub build_side_pots-total :
    (contributions : Value) (folded : List String) (pots : List Pot)
    → build_side_pots contributions folded ≡ ok pots
    → (given : Assoc Value) × (amounts : Assoc ℕ) × (read_object contributions ≡ ok given)
      × (check_amounts given ≡ ok amounts)
      × (total_amount pots ≡ total amounts)
unfolding build_side_pots
build_side_pots-total contributions folded pots h =
    let (given, read, h1) = ok_of_bind (read_object contributions) _ h in
    let (u, known, h2) = ok_of_bind (raise_if (not (all_known folded given)) _) _ h1 in
    let (amounts, checked, h3) = ok_of_bind (check_amounts given) _ h2 in
    (
      given,
      amounts,
      read,
      checked,
      pots_from_amount folded amounts 0 (levels amounts) pots (levels-Ascending amounts)
            (levels-Covered amounts) h3
          ∙ excess_of_zero amounts,
    )
