-- ===== src/Proto/Mahjong/Melds.antt =====
-- What it is for tiles to split into melds, and that the lowest tile can be dealt with first: the
-- search of aigenora/proto/mahjong.py rests on it.
use mathlib.Core.Path.{subst}
use aigenora.Prelude.{
  ℕ, zero, suc, ◌+◌, ◌*◌, ◌≤◌, ◌<◌, ◌≡◌, sym, true, false, arith, ltb, ◌==◌, ◌⊎◌, inl, inr,
  Bool-cases,
}
use aigenora.Proto.Mahjong.{Counter, tiles, less, less_run, sum_below, starts_run}
use aigenora.Proto.Mahjong.Counts.{
  less-less, less_run-less, less_run-less_run, sum_below-less, sum_below-less_run, count_of_sum,
}

-- The tiles split into a number of melds: triplets of one tile, and runs of three in a suit.
pub data Melds : ℕ → Counter → Type 0 where
  no_melds : {c : Counter} → sum_below tiles c ≡ 0 → Melds 0 c
  triplet :
      {n : ℕ} {c : Counter} (tile : ℕ)
      → tile < tiles
      → 3 ≤ c tile
      → Melds n (less 3 tile c)
      → Melds (suc n) c
  run :
      {n : ℕ} {c : Counter} (tile : ℕ)
      → starts_run tile ≡ true
      → 0 < c tile
      → 0 < c (tile + 1)
      → 0 < c (tile + 2)
      → Melds n (less_run tile c)
      → Melds (suc n) c

run_in_tiles : (tile : ℕ) → starts_run tile ≡ true → tile + 2 < tiles
run_in_tiles tile h = ground (arith, h)

pub Melds-sum : {n : ℕ} {c : Counter} → Melds n c → sum_below tiles c ≡ 3 * n
Melds-sum (no_melds e) = e
Melds-sum {n = suc n} {c = c} (triplet tile lt le rest) =
    omega (arith, sum_below-less tiles 3 tile c lt le, Melds-sum rest)
Melds-sum {n = suc n} {c = c} (run tile s p q r rest) =
    omega (arith, sum_below-less_run tiles tile c (run_in_tiles tile s) p q r, Melds-sum rest)

-- The lowest tile that is there.
abbrev pub Lowest : ℕ → Counter → Type 0
Lowest i c = (i < tiles) × (0 < c i) × ((j : ℕ) → j < i → c j ≡ 0)

-- A meld of the lowest tile that leaves melds.
abbrev pub Begins : ℕ → ℕ → Counter → Type 0
Begins n i c =
    ((3 ≤ c i) × Melds n (less 3 i c))
    ⊎ ((starts_run i ≡ true)
        × (0 < c i)
        × (0 < c (i + 1))
        × (0 < c (i + 2))
        × Melds n (less_run i c))

Lowest-less : (i j : ℕ) (c : Counter) → Lowest i c → (i == j ≡ false) → Lowest i (less 3 j c)
unfolding less
Lowest-less i j c (lt, p, z) ne = (lt, ground (arith, p, ne), λ k h. ground (arith, z k h))

Lowest-less_run :
    (i j : ℕ) (c : Counter)
    → Lowest i c
    → 0 < c j
    → (i == j ≡ false)
    → Lowest i (less_run j c) × (i < j)
unfolding less_run
Lowest-less_run i j c (lt, p, z) h ne =
    let above : i < j = elim (Bool-cases (ltb j i)) [
      | inl below ↦ absurd (ground (arith, z j (ground (arith, below)), h))
      | inr not_below ↦ ground (arith, not_below, ne)
    ] in
    ((lt, ground (arith, p, above), λ k h. ground (arith, z k h)), above)

after_triplet :
    (m i j : ℕ) (c : Counter)
    → (i == j ≡ false)
    → j < tiles
    → 3 ≤ c j
    → Begins m i (less 3 j c)
    → Begins (suc m) i c
unfolding less less_run
after_triplet m i j c ne lt le (inl (at, rest)) = inl (
  ground (arith, at, ne),
  triplet j lt (ground (arith, le, ne)) (subst (Melds m) (less-less 3 3 i j c) rest),
)
after_triplet m i j c ne lt le (inr (s, p, q, r, rest)) = inr (
  s,
  ground (arith, p, ne),
  ground (arith, q),
  ground (arith, r),
  triplet j lt (ground (arith, p, q, r, ne, le)) (subst (Melds m) (less_run-less 3 i j c) rest),
)

after_run :
    (m i j : ℕ) (c : Counter)
    → i < j
    → starts_run j ≡ true
    → 0 < c j
    → 0 < c (j + 1)
    → 0 < c (j + 2)
    → Begins m i (less_run j c)
    → Begins (suc m) i c
unfolding less less_run
after_run m i j c above s p q r (inl (at, rest)) = inl (
  ground (arith, at, above),
  run j s (ground (arith, p, above)) (ground (arith, q, above)) (ground (arith, r, above))
      (subst (Melds m) (sym (less_run-less 3 j i c)) rest),
)
after_run m i j c above s p q r (inr (s', p', q', r', rest)) = inr (
  s',
  ground (arith, p', above),
  ground (arith, q'),
  ground (arith, r'),
  run j s (ground (arith, p, q', r', above)) (ground (arith, q, q', r', above))
      (ground (arith, r, q', r', above)) (subst (Melds m) (less_run-less_run i j c) rest),
)

none_left : (i : ℕ) (c : Counter) → Lowest i c → Melds 0 c → ⊥
none_left i c (lt, p, z) melds = ground (arith, count_of_sum tiles i c lt (Melds-sum melds), p)

-- The lowest tile can be dealt with first, by a triplet of it or by a run from it.
pub Melds-Begins : (n i : ℕ) (c : Counter) → Melds (suc n) c → Lowest i c → Begins n i c
Melds-Begins zero i c (triplet j lt le rest) low = elim (Bool-cases (i == j)) [
  | inl here ↦ let e : j ≡ i = ground (arith, here) in subst (λ t. Begins 0 t c) e (inl (le, rest))
  | inr ne ↦ absurd (none_left i (less 3 j c) (Lowest-less i j c low ne) rest)
]
Melds-Begins (suc m) i c (triplet j lt le rest) low = elim (Bool-cases (i == j)) [
  | inl here ↦
      let e : j ≡ i = ground (arith, here) in subst (λ t. Begins (suc m) t c) e (inl (le, rest))
  | inr ne ↦
      after_triplet m i j c ne lt le (Melds-Begins m i (less 3 j c) rest (Lowest-less i j c low ne))
]
Melds-Begins zero i c (run j s p q r rest) low = elim (Bool-cases (i == j)) [
  | inl here ↦
      let e : j ≡ i = ground (arith, here) in subst (λ t. Begins 0 t c) e (inr (s, p, q, r, rest))
  | inr ne ↦ absurd (none_left i (less_run j c) (Lowest-less_run i j c low p ne).0 rest)
]
Melds-Begins (suc m) i c (run j s p q r rest) low = elim (Bool-cases (i == j)) [
  | inl here ↦
      let e : j ≡ i = ground (arith, here) in
      subst (λ t. Begins (suc m) t c) e (inr (s, p, q, r, rest))
  | inr ne ↦
      let (later, above) = Lowest-less_run i j c low p ne in
      after_run m i j c above s p q r (Melds-Begins m i (less_run j c) rest later)
]
