-- ===== src/Proto/Mahjong/Shapes.antt =====
-- The standard shape of aigenora/proto/mahjong.py: a pair and melds.
use aigenora.Prelude.{
  ℕ, zero, suc, ◌+◌, ◌-◌, ◌*◌, ◌≤◌, ◌<◌, ◌≡◌, refl, Bool, true, false, ◌&&◌, List, arith, length,
  ltb, leb, ◌==◌, if◌then◌else◌, Option, none, some, ◌↔◌, inl, inr, Bool-cases, ok,
}
use aigenora.Prelude.Int.{pos}
use aigenora.Proto.JsonDelta.Json.{Value, int}
use aigenora.Proto.Mahjong.{
  Counter, tiles, less, can_form_melds, has_pair_shape, is_standard_shape, WinKind, standard,
  seven_pairs, thirteen_orphans, is_thirteen_orphans, is_seven_pairs, shape_of, mahjong_win_kind,
  tile_codes, counter, any_below,
}
use aigenora.Proto.Mahjong.Melds.{Melds}
use aigenora.Proto.Mahjong.Search.{can_form_melds-Melds}

-- A pair below a tile, and melds of what remains.
abbrev PairBelow : ℕ → ℕ → Counter → Type 0
PairBelow n melds c =
    (pair : ℕ) × (pair < n) × (2 ≤ c pair) × (can_form_melds melds (less 2 pair c) ≡ true)

has_pair_shape_sound :
    (n melds : ℕ) (c : Counter) → has_pair_shape n melds c ≡ true → PairBelow n melds c
unfolding has_pair_shape
has_pair_shape_sound zero melds c h = absurd (ground arith)
has_pair_shape_sound (suc n) melds c h =
    elim (Bool-cases (leb 2 (c n) && can_form_melds melds (less 2 n c))) [
      | inl here ↦ (n, omega arith, ground (arith, here), ground (arith, here))
      | inr elsewhere ↦
          let (pair, lt, le, m) = has_pair_shape_sound n melds c (ground (arith, h, elsewhere)) in
          (pair, omega (arith, lt), le, m)
    ]

has_pair_shape_complete :
    (n melds : ℕ) (c : Counter) → PairBelow n melds c → has_pair_shape n melds c ≡ true
unfolding has_pair_shape
has_pair_shape_complete zero melds c (pair, lt, le, m) = absurd (omega (arith, lt))
has_pair_shape_complete (suc n) melds c (pair, lt, le, m) = elim (Bool-cases (pair == n)) [
  | inl here ↦ ground (arith, here, le, m)
  | inr other ↦
      ground (arith, has_pair_shape_complete n melds c (pair, ground (arith, lt, other), le, m))
]

-- The tiles are a pair and a number of melds.
abbrev pub Splits : ℕ → Counter → Type 0
Splits melds c = (pair : ℕ) × (pair < tiles) × (2 ≤ c pair) × Melds melds (less 2 pair c)

-- _is_standard_shape answers True exactly where the tiles are a pair and that many melds.
pub is_standard_shape-Splits :
    (c : Counter) (melds : ℕ) → (is_standard_shape c melds ≡ true) ↔ Splits melds c
unfolding is_standard_shape
is_standard_shape-Splits c melds = (
  λ h.
      let (pair, lt, le, m) = has_pair_shape_sound tiles melds c h in
      (pair, lt, le, (can_form_melds-Melds melds (less 2 pair c)).0 m),
  λ s.
      let (pair, lt, le, m) = s in
      has_pair_shape_complete tiles melds c
        (pair, lt, le, (can_form_melds-Melds melds (less 2 pair c)).1 m),
)

shape_of_split :
    (c : Counter) (melds : ℕ)
    → is_standard_shape c (4 - melds) ≡ true
    → (kind : WinKind) × (shape_of c melds ≡ some kind)
unfolding shape_of
shape_of_split c melds h = elim (Bool-cases (melds == 0 && is_thirteen_orphans c)) [
  | inl orphans ↦ rw orphans (_, refl)
  | inr not_orphans ↦ elim (Bool-cases (melds == 0 && is_seven_pairs c)) [
    | inl pairs ↦ rw (not_orphans, pairs) (_, refl)
    | inr not_pairs ↦ rw (not_orphans, not_pairs, h) (_, refl)
  ]
]

last_of_three :
    (a b s : Bool)
    → (if a
        then some thirteen_orphans
        else if b
        then some seven_pairs
        else if s
        then some standard
        else none)
      ≡ some standard
    → s ≡ true
last_of_three true b s h = absurd cc
last_of_three false true s h = absurd cc
last_of_three false false true h = refl
last_of_three false false false h = absurd cc

standard_only :
    (c : Counter) (melds : ℕ)
    → shape_of c melds ≡ some standard
    → is_standard_shape c (4 - melds) ≡ true
unfolding shape_of
standard_only c melds h =
    last_of_three (melds == 0 && is_thirteen_orphans c) (melds == 0 && is_seven_pairs c)
      (is_standard_shape c (4 - melds)) h

-- Where there are as many valid tiles as the melds ask for and no face more than four times,
-- mahjong_win_kind returns; it names a kind where the tiles are a pair and the missing melds, and
-- names the standard kind only there.
pub mahjong_win_kind_lem :
    (concealed_tiles : List Value) (melds : ℕ) (codes : List ℕ)
    → melds ≤ 4
    → tile_codes concealed_tiles ≡ ok codes
    → length codes ≡ 3 * (4 - melds) + 2
    → any_below tiles (λ i. ltb 4 (counter codes i)) ≡ false
    → (result : Option WinKind) × (mahjong_win_kind concealed_tiles (int (pos melds)) ≡ ok result)
      × (Splits (4 - melds) (counter codes) → (kind : WinKind) × (result ≡ some kind))
      × (result ≡ some standard → Splits (4 - melds) (counter codes))
unfolding mahjong_win_kind
mahjong_win_kind_lem concealed_tiles melds codes few read right copies =
    let p : leb melds 4 ≡ true = ground (arith, few) in
    let q : length codes == 3 * (4 - melds) + 2 ≡ true = ground (arith, right) in
    let shape = is_standard_shape-Splits (counter codes) (4 - melds) in
    (
      shape_of (counter codes) melds,
      rw (p, read, q, copies) refl,
      λ s. shape_of_split (counter codes) melds (shape.1 s),
      λ h. shape.0 (standard_only (counter codes) melds h),
    )
