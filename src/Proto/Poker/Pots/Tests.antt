-- ===== src/Proto/Poker/Pots/Tests.antt =====
-- Pots and refunds of concrete hands, and the theorems at them.
use aigenora.Prelude.{
  ℕ, String, ◌≡◌, refl, arith, true, false, List, [], ◌∷◌, some, ok, err, str_eq,
}
use aigenora.Prelude.Int.{pos}
use aigenora.Proto.JsonDelta.Dict.{Assoc, lookup, contains, insert, sort, place, str_leb, Distinct}
use aigenora.Proto.JsonDelta.Json.{Value, int, obj, from_entries, entries}
use aigenora.Proto.Poker.{no_eligible}
use aigenora.Proto.Poker.Pots.{
  Pot, Ledger, read_object, check_amounts, all_known, add_level, levels, at_least, keys,
  participants, among, unfolded, pot_at, pots_from, build_side_pots, ranks_before, place_ranked,
  ranked, zeros, refund_top, normalize_uncalled_contributions,
}
use aigenora.Proto.Poker.Pots.Conservation.{total, total_amount, build_side_pots-total}
use aigenora.Proto.Poker.Pots.Totality.{build_side_pots_returns}
use aigenora.Proto.Poker.Pots.Refunds.{Split, Matched, normalize_uncalled_contributions_lem}

-- Carol has folded; Alice bet more than anyone could call.
abbrev given : Assoc Value
given = ("alice", int (pos 100)) ∷ ("bob", int (pos 60)) ∷ ("carol", int (pos 20)) ∷ []

abbrev table : Value
table = obj (from_entries given)

abbrev amounts : Assoc ℕ
amounts = ("alice", 100) ∷ ("bob", 60) ∷ ("carol", 20) ∷ []

abbrev pots : List Pot
pots =
    record {
      amount = 60;
      cap = 20;
      contributors = "alice" ∷ "bob" ∷ "carol" ∷ [];
      eligible = "alice" ∷ "bob" ∷ [];
    }
    ∷ record {
      amount = 80;
      cap = 60;
      contributors = "alice" ∷ "bob" ∷ [];
      eligible = "alice" ∷ "bob" ∷ [];
    }
    ∷ record { amount = 40; cap = 100; contributors = "alice" ∷ []; eligible = "alice" ∷ [] }
    ∷ []

pots_of_table : build_side_pots table ("carol" ∷ []) ≡ ok pots
unfolding build_side_pots read_object check_amounts all_known add_level levels at_least keys
    participants among unfolded pot_at pots_from entries from_entries contains sort place str_leb
pots_of_table = refl

-- A pot that only a folded player reached has no winner.
top_folded : build_side_pots table ("alice" ∷ []) ≡ err no_eligible
unfolding build_side_pots read_object check_amounts all_known add_level levels at_least keys
    participants among unfolded pot_at pots_from entries from_entries contains sort place str_leb
top_folded = refl

refund_of_table :
    normalize_uncalled_contributions table
    ≡ ok (record {
      contributions = ("alice", 60) ∷ ("bob", 60) ∷ ("carol", 20) ∷ [];
      refunds = ("alice", 40) ∷ ("bob", 0) ∷ ("carol", 0) ∷ [];
    })
unfolding normalize_uncalled_contributions read_object check_amounts entries from_entries insert
    ranks_before place_ranked ranked zeros refund_top str_leb
refund_of_table = refl

table_read : read_object table ≡ ok given
unfolding read_object entries from_entries
table_read = refl

table_checked : check_amounts given ≡ ok amounts
unfolding check_amounts
table_checked = refl

build_side_pots-total_example :
    (given : Assoc Value) × (amounts : Assoc ℕ) × (read_object table ≡ ok given)
    × (check_amounts given ≡ ok amounts)
    × (total_amount pots ≡ total amounts)
build_side_pots-total_example = build_side_pots-total table ("carol" ∷ []) pots pots_of_table

carol_known : all_known ("carol" ∷ []) given ≡ true
unfolding all_known contains
carol_known = refl

alice_amount : lookup "alice" amounts ≡ some 100
unfolding lookup
alice_amount = refl

alice_in : among "alice" ("carol" ∷ []) ≡ false
unfolding among
alice_in = refl

build_side_pots_returns_example :
    (pots : List Pot) × (build_side_pots table ("carol" ∷ []) ≡ ok pots)
build_side_pots_returns_example =
    build_side_pots_returns table ("carol" ∷ []) given amounts "alice" 100 table_read carol_known
      table_checked alice_amount (omega arith, (omega arith, (omega arith, tt))) alice_in

given-Distinct : Distinct given
unfolding lookup
given-Distinct = (refl, (refl, (refl, tt)))

normalize_uncalled_contributions_lem_example :
    (ledger : Ledger) × (normalize_uncalled_contributions table ≡ ok ledger)
    × ((k : String) (a : ℕ) → lookup k amounts ≡ some a → Split ledger k a)
    × ((k m : String) (x y : ℕ)
        → str_eq k m ≡ false
        → lookup k (ledger.contributions) ≡ some x
        → lookup m (ledger.contributions) ≡ some y
        → Matched (ledger.contributions) k x)
normalize_uncalled_contributions_lem_example =
    normalize_uncalled_contributions_lem table given amounts table_read given-Distinct table_checked
