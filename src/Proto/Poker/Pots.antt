-- ===== src/Proto/Poker/Pots.antt =====
-- The pots of aigenora/proto/poker.py. Contributions arrive as JSON; once they are checked they are an
-- association list of native numbers.
mod Levels
mod Conservation
mod Totality
mod Ranking
mod Refunds
mod Tests
use aigenora.Prelude.{
  ℕ, suc, ◌+◌, ◌-◌, ◌*◌, String, Bool, true, false, not, ◌&&◌, ◌||◌, List, [], ◌∷◌, ◌++◌, length,
  ltb, leb, ◌==◌, str_eq, if◌then◌else◌, Result, ok, err, ◌>>=◌, ◌>>◌, raise_if,
}
use aigenora.Prelude.Int.{pos, negsuc}
use aigenora.Proto.JsonDelta.Json.{Value, int, obj, entries}
use aigenora.Proto.JsonDelta.Dict.{Assoc, contains, insert, sort, str_leb}
use aigenora.Proto.Poker.{
  PokerRuleError, no_contributions, unknown_folded, bad_owner, bad_amount, no_eligible,
}

-- A dictionary of `build_side_pots`.
pub record Pot : Type 0 where
  amount : ℕ
  cap : ℕ
  contributors : List String
  eligible : List String

-- `not isinstance(contributions, dict) or not contributions`
unfoldable pub read_object : Value → Result PokerRuleError (Assoc Value)
read_object (obj fs) = raise_if (length (entries fs) == 0) no_contributions >> ok (entries fs)
read_object _ = err no_contributions

-- An integer that is no bool and not negative.
abbrev pub whole_amount : Value → Result PokerRuleError ℕ
whole_amount (int (pos a)) = ok a
whole_amount _ = err bad_amount

-- The checks of the loop over the contributions.
unfoldable pub check_amounts : Assoc Value → Result PokerRuleError (Assoc ℕ)
check_amounts [] = ok []
check_amounts ((k, v) ∷ l) = do
  raise_if (str_eq k "") bad_owner
  a ← whole_amount v
  rest ← check_amounts l
  ok ((k, a) ∷ rest)

unfoldable pub all_known : List String → Assoc Value → Bool
all_known [] l = true
all_known (k ∷ ks) l = contains k l && all_known ks l

-- A set of positive amounts, sorted.
unfoldable pub add_level : ℕ → List ℕ → List ℕ
add_level n [] = n ∷ []
add_level n (m ∷ ms) = if n == m then m ∷ ms else if ltb n m then n ∷ m ∷ ms else m ∷ add_level n ms

unfoldable pub levels : Assoc ℕ → List ℕ
unfolding add_level
levels [] = []
levels ((k, a) ∷ l) = let rest = levels l in if a == 0 then rest else add_level a rest

unfoldable pub at_least : ℕ → Assoc ℕ → Assoc ℕ
at_least level [] = []
at_least level ((k, a) ∷ l) =
    let rest = at_least level l in if leb level a then (k, a) ∷ rest else rest

unfoldable pub keys : Assoc ℕ → List String
keys [] = []
keys ((k, a) ∷ l) = k ∷ keys l

unfoldable pub participants : ℕ → Assoc ℕ → List String
unfolding keys
participants level l = keys (sort (at_least level l))

unfoldable pub among : String → List String → Bool
among k [] = false
among k (j ∷ js) = str_eq j k || among k js

unfoldable pub unfolded : List String → List String → List String
unfolded folded [] = []
unfolded folded (k ∷ ks) =
    let rest = unfolded folded ks in if among k folded then rest else k ∷ rest

-- The body of the loop over the levels: the pot of one level, where it has an amount. A level is
-- above the previous one, since the levels are sorted.
unfoldable pub pot_at : List String → Assoc ℕ → ℕ → ℕ → Result PokerRuleError (List Pot)
unfolding participants unfolded
pot_at folded l previous level =
    let contributors = participants level l in
    let amount = (level - previous) * length contributors in
    let eligible = unfolded folded contributors in
    if ltb 0 amount
    then raise_if (length eligible == 0) no_eligible
      >> ok (
          record { amount = amount; cap = level; contributors = contributors; eligible = eligible }
          ∷ [])
    else ok []

unfoldable pub pots_from : List String → Assoc ℕ → ℕ → List ℕ → Result PokerRuleError (List Pot)
unfolding pot_at
pots_from folded l previous [] = ok []
pots_from folded l previous (level ∷ ls) = do
  first ← pot_at folded l previous level
  rest ← pots_from folded l level ls
  ok (first ++ rest)

unfoldable pub build_side_pots : Value → List String → Result PokerRuleError (List Pot)
unfolding read_object check_amounts levels pots_from
build_side_pots contributions folded = do
  given ← read_object contributions
  raise_if (not (all_known folded given)) unknown_folded
  amounts ← check_amounts given
  pots_from folded amounts 0 (levels amounts)

-- The order of the key `(-amount, public_key)`.
unfoldable pub ranks_before : String → ℕ → String → ℕ → Bool
ranks_before k a j b = ltb b a || (a == b && str_leb k j)

unfoldable pub place_ranked : String → ℕ → Assoc ℕ → Assoc ℕ
unfolding ranks_before
place_ranked k a [] = (k, a) ∷ []
place_ranked k a ((j, b) ∷ l) =
    if ranks_before k a j b then (k, a) ∷ (j, b) ∷ l else (j, b) ∷ place_ranked k a l

unfoldable pub ranked : Assoc ℕ → Assoc ℕ
unfolding place_ranked
ranked [] = []
ranked ((k, a) ∷ l) = place_ranked k a (ranked l)

unfoldable pub zeros : Assoc ℕ → Assoc ℕ
zeros [] = []
zeros ((k, a) ∷ l) = (k, 0) ∷ zeros l

-- The result of `normalize_uncalled_contributions`.
pub record Ledger : Type 0 where
  contributions : Assoc ℕ
  refunds : Assoc ℕ

-- The unique unmatched excess of the highest contribution goes back to its owner.
unfoldable pub refund_top : Assoc ℕ → Assoc ℕ → Ledger
unfolding zeros
refund_top ((k, a) ∷ (j, b) ∷ _) l =
    if ltb b a
    then record { contributions = insert k (a - (a - b)) l; refunds = insert k (a - b) (zeros l) }
    else record { contributions = l; refunds = zeros l }
refund_top _ l = record { contributions = l; refunds = zeros l }

unfoldable pub normalize_uncalled_contributions : Value → Result PokerRuleError Ledger
unfolding read_object check_amounts ranked refund_top
normalize_uncalled_contributions contributions = do
  given ← read_object contributions
  amounts ← check_amounts given
  ok (refund_top (ranked amounts) amounts)
