-- ===== src/Proto/Mahjong.antt =====
-- The winning shapes of aigenora/proto/mahjong.py. A tile stands for its code by its place in the order
-- of `_tile_sort_key`: the characters 1 to 9 are 0 to 8, the dots 9 to 17, the bamboo tiles 18 to 26 and
-- the honors 27 to 33. A `Counter` is the function that it is on the codes, with 0 for a missing key,
-- so two dictionaries with the same counts are one.
mod Counts
mod Melds
mod Search
mod Shapes
mod Tests
use aigenora.Prelude.{
  ℕ, zero, suc, ◌+◌, ◌-◌, ◌*◌, ◌/◌, ◌%◌, String, Bool, true, false, not, ◌&&◌, ◌||◌, List, [], ◌∷◌,
  length, ltb, leb, ◌==◌, str_eq, if◌then◌else◌, Option, none, some, Result, ok, err, ◌>>=◌, ◌>>◌,
  raise_if,
}
use aigenora.Prelude.Int.{pos}
use aigenora.Proto.JsonDelta.Json.{Value, int, str, obj, entries}
use aigenora.Proto.JsonDelta.Dict.{lookup}

pub data MahjongRuleError : Type 0 where
  bad_meld_count bad_tile bad_code too_many_copies : MahjongRuleError

pub data WinKind : Type 0 where
  standard seven_pairs thirteen_orphans : WinKind

abbrev pub Counter : Type 0
Counter = ℕ → ℕ

abbrev pub tiles : ℕ
tiles = 34

-- The codes in the order of `_tile_sort_key`.
abbrev pub all_codes : List String
all_codes =
    "1m" ∷ "2m" ∷ "3m" ∷ "4m" ∷ "5m" ∷ "6m" ∷ "7m" ∷ "8m" ∷ "9m" ∷ "1p" ∷ "2p" ∷ "3p" ∷ "4p" ∷ "5p"
    ∷ "6p" ∷ "7p" ∷ "8p" ∷ "9p" ∷ "1s" ∷ "2s" ∷ "3s" ∷ "4s" ∷ "5s" ∷ "6s" ∷ "7s" ∷ "8s" ∷ "9s"
    ∷ "east" ∷ "south" ∷ "west" ∷ "north" ∷ "red" ∷ "green" ∷ "white" ∷ []

-- The place of a code in a list.
unfoldable pub place_in : String → List String → Option ℕ
place_in code [] = none
place_in code (c ∷ cs) =
    let rest = place_in code cs in
    if str_eq c code then some 0 else elim rest [ none ↦ none | some n ↦ some (suc n) ]

abbrev known_code : Option ℕ → Result MahjongRuleError ℕ
known_code none = err bad_code
known_code (some n) = ok n

abbrev code_of : Option Value → Result MahjongRuleError ℕ
code_of (some (str code)) = known_code (place_in code all_codes)
code_of _ = err bad_code

-- `_tile_code`
unfoldable pub tile_code : Value → Result MahjongRuleError ℕ
unfolding place_in
tile_code (obj fs) = code_of (lookup "code" (entries fs))
tile_code _ = err bad_tile

unfoldable pub tile_codes : List Value → Result MahjongRuleError (List ℕ)
unfolding tile_code
tile_codes [] = ok []
tile_codes (v ∷ vs) = do t ← tile_code v; ts ← tile_codes vs; ok (t ∷ ts)

-- `Counter(codes)`
unfoldable pub counter : List ℕ → Counter
counter [] i = 0
counter (t ∷ ts) i = let rest = counter ts i in if t == i then suc rest else rest

-- `counts[tile] -= k`, for a tile that has as many.
unfoldable pub less : ℕ → ℕ → Counter → Counter
less k tile c i = if i == tile then c i - k else c i

-- One less of each tile of the sequence from a tile.
unfoldable pub less_run : ℕ → Counter → Counter
less_run tile c i = if leb tile i && leb i (tile + 2) then c i - 1 else c i

-- `sum(counts.values())` over the first tiles.
unfoldable pub sum_below : ℕ → Counter → ℕ
sum_below zero c = 0
sum_below (suc n) c = c n + sum_below n c

-- `min(counts, key=_tile_sort_key)` among some tiles from one on.
unfoldable pub first_from : ℕ → ℕ → Counter → Option ℕ
first_from zero tile c = none
first_from (suc n) tile c =
    let rest = first_from n (suc tile) c in if ltb 0 (c tile) then some tile else rest

-- A numbered tile of rank 7 at most.
abbrev pub starts_run : ℕ → Bool
starts_run tile = ltb tile 27 && leb (tile % 9) 6

abbrev pub with_lowest : Option ℕ → (ℕ → Bool) → Bool
with_lowest none test = false
with_lowest (some tile) test = test tile

-- The two tries of `_can_form_melds` with the lowest tile, on the answers of its recursive calls.
unfoldable pub meld_of : Counter → ℕ → Bool → Bool → Bool
meld_of c tile after_triplet after_run =
    (leb 3 (c tile) && after_triplet)
    || (starts_run tile
        && (ltb 0 (c tile) && ltb 0 (c (tile + 1)) && ltb 0 (c (tile + 2)))
        && after_run)

-- `_can_form_melds`. The minimum of an empty counter is not reached, since the sum is positive there.
unfoldable pub can_form_melds : ℕ → Counter → Bool
unfolding less less_run sum_below first_from meld_of
can_form_melds zero c = sum_below tiles c == 0
can_form_melds (suc n) c =
    if not (sum_below tiles c == 3 * suc n)
    then false
    else with_lowest (first_from tiles 0 c) (λ tile.
      meld_of c tile (can_form_melds n (less 3 tile c)) (can_form_melds n (less_run tile c)))

-- The loop over the pairs, from the last of some tiles down; a later return of `True` is the same as
-- an earlier one.
unfoldable pub has_pair_shape : ℕ → ℕ → Counter → Bool
unfolding less can_form_melds
has_pair_shape zero melds c = false
has_pair_shape (suc tile) melds c =
    (leb 2 (c tile) && can_form_melds melds (less 2 tile c)) || has_pair_shape tile melds c

-- `_is_standard_shape`
unfoldable pub is_standard_shape : Counter → ℕ → Bool
unfolding has_pair_shape
is_standard_shape c melds = has_pair_shape tiles melds c

unfoldable pub half_sum : ℕ → Counter → ℕ
half_sum zero c = 0
half_sum (suc n) c = c n / 2 + half_sum n c

unfoldable pub all_below : ℕ → (ℕ → Bool) → Bool
all_below zero test = true
all_below (suc n) test = test n && all_below n test

-- `_is_seven_pairs`
unfoldable pub is_seven_pairs : Counter → Bool
unfolding half_sum all_below
is_seven_pairs c = half_sum tiles c == 7 && all_below tiles (λ i. c i % 2 == 0)

abbrev pub is_orphan : ℕ → Bool
is_orphan i = leb 27 i || i % 9 == 0 || i % 9 == 8

unfoldable pub any_below : ℕ → (ℕ → Bool) → Bool
any_below zero test = false
any_below (suc n) test = test n || any_below n test

-- `_is_thirteen_orphans`: the keys are the orphans, and one of them comes twice.
unfoldable pub is_thirteen_orphans : Counter → Bool
unfolding all_below any_below
is_thirteen_orphans c =
    all_below tiles (λ i. if is_orphan i then ltb 0 (c i) else not (ltb 0 (c i)))
    && any_below tiles (λ i. is_orphan i && c i == 2)

-- An integer that is no bool, between zero and four.
abbrev meld_number : Value → Result MahjongRuleError ℕ
meld_number (int (pos n)) = if leb n 4 then ok n else err bad_meld_count
meld_number _ = err bad_meld_count

-- The shape of a number of tiles that is right for the melds.
unfoldable pub shape_of : Counter → ℕ → Option WinKind
unfolding is_thirteen_orphans is_seven_pairs is_standard_shape
shape_of c melds =
    if melds == 0 && is_thirteen_orphans c
    then some thirteen_orphans
    else if melds == 0 && is_seven_pairs c
    then some seven_pairs
    else if is_standard_shape c (4 - melds)
    then some standard
    else none

-- `mahjong_win_kind`
unfoldable pub mahjong_win_kind : List Value → Value → Result MahjongRuleError (Option WinKind)
unfolding tile_codes counter shape_of any_below
mahjong_win_kind concealed_tiles meld_count = do
  melds ← meld_number meld_count
  codes ← tile_codes concealed_tiles
  if not (length codes == 3 * (4 - melds) + 2)
      then ok none
      else raise_if (any_below tiles (λ i. ltb 4 (counter codes i))) too_many_copies
        >> ok (shape_of (counter codes) melds)
