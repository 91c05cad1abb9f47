-- ===== src/Proto/Poker/Pots/Totality.antt =====
-- When `build_side_pots` of aigenora/proto/poker.py returns.
use aigenora.Prelude.{
  ℕ, ◌-◌, ◌*◌, ◌≤◌, ◌≡◌, refl, ◌∙◌, String, true, false, ◌||◌, List, [], ◌∷◌, ◌++◌, arith, ltb,
  ◌==◌, length, ok, Bool-cases, inl, inr, some, eq_iff, str_eq,
}
use aigenora.Proto.JsonDelta.Json.{Value}
use aigenora.Proto.JsonDelta.Dict.{Assoc, lookup, contains, sort, place}
use aigenora.Proto.Poker.Pots.{
  Pot, add_level, levels, at_least, keys, participants, among, unfolded, pot_at, pots_from,
  build_side_pots, read_object, check_amounts, all_known,
}

-- No amount, and no level, is above a bound.
abbrev pub Within : ℕ → Assoc ℕ → Type 0
Within top [] = Unit
Within top ((k, a) ∷ l) = (a ≤ top) × Within top l

abbrev LevelsWithin : ℕ → List ℕ → Type 0
LevelsWithin top [] = Unit
LevelsWithin top (level ∷ ls) = (level ≤ top) × LevelsWithin top ls

add_level-LevelsWithin :
    (top n : ℕ) (ls : List ℕ) → LevelsWithin top ls → n ≤ top → LevelsWithin top (add_level n ls)
unfolding add_level
add_level-LevelsWithin top n [] w h = (h, tt)
add_level-LevelsWithin top n (m ∷ ls) w h = ground (arith, add_level-LevelsWithin top n ls w.1)

levels-LevelsWithin : (top : ℕ) (l : Assoc ℕ) → Within top l → LevelsWithin top (levels l)
unfolding levels
levels-LevelsWithin top [] w = tt
levels-LevelsWithin top ((k, a) ∷ l) w = ground (
  arith,
  levels-LevelsWithin top l w.1,
  add_level-LevelsWithin top a (levels l) (levels-LevelsWithin top l w.1) w.0,
)

contains-at_least :
    (level a : ℕ) (k : String) (l : Assoc ℕ)
    → lookup k l ≡ some a
    → level ≤ a
    → contains k (at_least level l) ≡ true
unfolding lookup contains at_least
contains-at_least level a k [] h le = absurd (ground arith)
contains-at_least level a k ((j, b) ∷ l) h le = ground (arith, contains-at_least level a k l)

contains-place :
    (k j : String) (a : ℕ) (l : Assoc ℕ) → contains k (place j a l) ≡ (str_eq j k || contains k l)
unfolding contains place
contains-place k j a [] = ground arith
contains-place k j a ((i, b) ∷ l) = ground (arith, contains-place k j a l)

contains-sort : (k : String) (l : Assoc ℕ) → contains k (sort l) ≡ contains k l
unfolding contains sort
contains-sort k [] = refl
contains-sort k ((j, a) ∷ l) = ground (arith, contains-place k j a (sort l), contains-sort k l)

among-keys : (k : String) (l : Assoc ℕ) → among k (keys l) ≡ contains k l
unfolding among keys contains
among-keys k [] = refl
among-keys k ((j, a) ∷ l) = ground (arith, among-keys k l)

among-unfolded :
    (k : String) (folded ks : List String)
    → among k ks ≡ true
    → among k folded ≡ false
    → among k (unfolded folded ks) ≡ true
unfolding among unfolded
among-unfolded k folded [] h out = h
among-unfolded k folded (j ∷ ks) h out = ground (arith, eq_iff j k, among-unfolded k folded ks)

nonempty_of_among : (k : String) (ks : List String) → among k ks ≡ true → length ks == 0 ≡ false
unfolding among
nonempty_of_among k [] h = absurd (ground arith)
nonempty_of_among k (j ∷ ks) h = ground arith

among-participants :
    (level a : ℕ) (k : String) (l : Assoc ℕ)
    → lookup k l ≡ some a
    → level ≤ a
    → among k (participants level l) ≡ true
unfolding participants
among-participants level a k l h le =
    among-keys k (sort (at_least level l))
    ∙ contains-sort k (at_least level l)
    ∙ contains-at_least level a k l h le

pot_at_returns :
    (folded : List String) (l : Assoc ℕ) (previous level a : ℕ) (k : String)
    → lookup k l ≡ some a
    → level ≤ a
    → among k folded ≡ false
    → (ps : List Pot) × (pot_at folded l previous level ≡ ok ps)
unfolding pot_at
pot_at_returns folded l previous level a k h le out =
    let e =
      nonempty_of_among k (unfolded folded (participants level l)) (
        among-unfolded k folded (participants level l) (among-participants level a k l h le) out) in
    elim (Bool-cases (ltb 0 ((level - previous) * length (participants level l)))) [
      | inl some_amount ↦ rw (some_amount, e) (_, refl)
      | inr no_amount ↦ rw no_amount ([], refl)
    ]

pub pots_from_returns :
    (folded : List String) (l : Assoc ℕ) (previous : ℕ) (ls : List ℕ) (a : ℕ) (k : String)
    → lookup k l ≡ some a
    → LevelsWithin a ls
    → among k folded ≡ false
    → (ps : List Pot) × (pots_from folded l previous ls ≡ ok ps)
unfolding pots_from
pots_from_returns folded l previous [] a k h w out = ([], refl)
pots_from_returns folded l previous (level ∷ ls) a k h w out =
    let (first, p) = pot_at_returns folded l previous level a k h w.0 out in
    let (rest, q) = pots_from_returns folded l level ls a k h w.1 out in
    (first ++ rest, rw (p, q) refl)

-- Where the folded players are contributors, the contributions are in order, and a player who has
-- not folded contributed as much as anyone, build_side_pots returns pots.
pub build_side_pots_returns :
    (contributions : Value) (folded : List String) (given : Assoc Value) (amounts : Assoc ℕ)
    (k : String) (top : ℕ)
    → read_object contributions ≡ ok given
    → all_known folded given ≡ true
    → check_amounts given ≡ ok amounts
    → lookup k amounts ≡ some top
    → Within top amounts
    → among k folded ≡ false
    → (pots : List Pot) × (build_side_pots contributions folded ≡ ok pots)
unfolding build_side_pots
build_side_pots_returns contributions folded given amounts k top read known checked h w out =
    rw (read, known, checked)
      (pots_from_returns folded amounts 0 (levels amounts) top k h
        (levels-LevelsWithin top amounts w) out)
