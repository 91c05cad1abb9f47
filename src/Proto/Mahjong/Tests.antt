-- ===== src/Proto/Mahjong/Tests.antt =====
-- Hands of concrete tiles, and the theorems at them.
use aigenora.Prelude.{
  ℕ, ◌-◌, String, ◌≡◌, refl, true, false, List, [], ◌∷◌, arith, ltb, Option, some, ◌↔◌, ok,
}
use aigenora.Prelude.Int.{pos}
use aigenora.Proto.JsonDelta.Dict.{lookup}
use aigenora.Proto.JsonDelta.Json.{Value, int, str, obj, from_entries, entries}
use aigenora.Proto.Mahjong.{
  tiles, place_in, tile_code, tile_codes, counter, less, less_run, sum_below, first_from, meld_of,
  can_form_melds, has_pair_shape, is_standard_shape, half_sum, all_below, any_below, is_seven_pairs,
  is_thirteen_orphans, shape_of, mahjong_win_kind, WinKind, standard,
}
use aigenora.Proto.Mahjong.Melds.{Melds}
use aigenora.Proto.Mahjong.Search.{can_form_melds-Melds}
use aigenora.Proto.Mahjong.Shapes.{Splits, is_standard_shape-Splits, mahjong_win_kind_lem}

abbrev tile : String → Value
tile code = obj (from_entries (("code", str code) ∷ []))

-- A triplet and a run of characters that share a tile, and a pair of winds.
abbrev hand : List Value
hand =
    tile "1m"
    ∷ tile "2m"
    ∷ tile "1m"
    ∷ tile "3m"
    ∷ tile "1m"
    ∷ tile "1m"
    ∷ tile "east"
    ∷ tile "east"
    ∷ []

abbrev codes : List ℕ
codes = 0 ∷ 1 ∷ 0 ∷ 2 ∷ 0 ∷ 0 ∷ 27 ∷ 27 ∷ []

hand_read : tile_codes hand ≡ ok codes
unfolding tile_codes tile_code place_in lookup entries from_entries
hand_read = refl

hand_wins : mahjong_win_kind hand (int (pos 2)) ≡ ok (some standard)
unfolding mahjong_win_kind tile_codes tile_code place_in lookup entries from_entries counter less
    less_run sum_below first_from meld_of can_form_melds has_pair_shape is_standard_shape all_below
    any_below is_seven_pairs is_thirteen_orphans shape_of half_sum
hand_wins = refl

hand_copies : any_below tiles (λ i. ltb 4 (counter codes i)) ≡ false
unfolding any_below counter
hand_copies = refl

can_form_melds-Melds_example : (can_form_melds 2 (counter codes) ≡ true) ↔ Melds 2 (counter codes)
can_form_melds-Melds_example = can_form_melds-Melds 2 (counter codes)

is_standard_shape-Splits_example :
    (is_standard_shape (counter codes) 2 ≡ true) ↔ Splits 2 (counter codes)
is_standard_shape-Splits_example = is_standard_shape-Splits (counter codes) 2

mahjong_win_kind_lem_example :
    (result : Option WinKind) × (mahjong_win_kind hand (int (pos 2)) ≡ ok result)
    × (Splits (4 - 2) (counter codes) → (kind : WinKind) × (result ≡ some kind))
    × (result ≡ some standard → Splits (4 - 2) (counter codes))
mahjong_win_kind_lem_example =
    mahjong_win_kind_lem hand 2 codes (omega arith) hand_read refl hand_copies
