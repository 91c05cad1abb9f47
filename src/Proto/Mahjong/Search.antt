-- ===== src/Proto/Mahjong/Search.antt =====
-- The search of aigenora/proto/mahjong.py finds a split into melds exactly where there is one.
use aigenora.Prelude.{
  ℕ, zero, suc, ◌+◌, ◌*◌, ◌≤◌, ◌<◌, ◌≡◌, refl, ◌∙◌, sym, Bool, true, false, ◌&&◌, arith, ltb, leb,
  ◌==◌, none, some, ◌↔◌, inl, inr, Bool-cases, Option-cases,
}
use aigenora.Proto.Mahjong.{
  Counter, tiles, less, less_run, sum_below, starts_run, first_from, can_form_melds, meld_of,
}
use aigenora.Proto.Mahjong.Melds.{
  Melds, no_melds, triplet, run, Melds-sum, Lowest, Begins, Melds-Begins,
}

first_from-some :
    (n tile i : ℕ) (c : Counter)
    → first_from n tile c ≡ some i
    → (tile ≤ i) × (i < tile + n) × (0 < c i) × ((j : ℕ) → tile ≤ j → j < i → c j ≡ 0)
unfolding first_from
first_from-some zero tile i c h = absurd (ground arith)
first_from-some (suc n) tile i c h = elim (Bool-cases (ltb 0 (c tile))) [
  | inl here ↦
      let e : tile ≡ i = ground (arith, here, h) in
      (
        omega (arith, e),
        omega (arith, e),
        ground (arith, here, e),
        λ j p q. absurd (omega (arith, e, p, q)),
      )
  | inr gone ↦
      let (le, lt, p, z) = first_from-some n (suc tile) i c (ground (arith, gone, h)) in
      (
        omega (arith, le),
        omega (arith, lt),
        p,
        λ j q r. elim (Bool-cases (j == tile)) [
          | inl same ↦ ground (arith, same, gone)
          | inr other ↦ z j (ground (arith, other, q)) r
        ],
      )
]

first_from-none :
    (n tile j : ℕ) (c : Counter) → first_from n tile c ≡ none → tile ≤ j → j < tile + n → c j ≡ 0
unfolding first_from
first_from-none zero tile j c h le lt = absurd (omega (arith, le, lt))
first_from-none (suc n) tile j c h le lt = elim (Bool-cases (j == tile)) [
  | inl same ↦ ground (arith, same, h)
  | inr other ↦
      first_from-none n (suc tile) j c (ground (arith, h)) (ground (arith, other, le))
        (omega (arith, lt))
]

sum_of_zeros : (n : ℕ) (c : Counter) → ((j : ℕ) → j < n → c j ≡ 0) → sum_below n c ≡ 0
unfolding sum_below
sum_of_zeros zero c z = refl
sum_of_zeros (suc n) c z =
    omega (arith, z n (omega arith), sum_of_zeros n c (λ j h. z j (omega (arith, h))))

Lowest-of_first : (i : ℕ) (c : Counter) → first_from tiles 0 c ≡ some i → Lowest i c
Lowest-of_first i c h =
    let (le, lt, p, z) = first_from-some tiles 0 i c h in
    (omega (arith, lt), p, λ j q. z j (omega arith) q)

equal_numbers : (a b : ℕ) → a ≡ b → a == b ≡ true
equal_numbers a b e = ground (arith, e)

can_form_melds-zero : (c : Counter) → can_form_melds 0 c ≡ true → sum_below tiles c ≡ 0
unfolding can_form_melds
can_form_melds-zero c h = ground (arith, h)

can_form_melds-sum :
    (n : ℕ) (c : Counter) → can_form_melds (suc n) c ≡ true → sum_below tiles c ≡ 3 * suc n
unfolding can_form_melds
can_form_melds-sum n c h = elim (Bool-cases (sum_below tiles c == 3 * suc n)) [
  | inl same ↦ ground (arith, same)
  | inr other ↦ absurd (ground (arith, rw other at h))
]

can_form_melds-none :
    (n : ℕ) (c : Counter) → first_from tiles 0 c ≡ none → can_form_melds (suc n) c ≡ false
unfolding can_form_melds
can_form_melds-none n c e = elim (Bool-cases (sum_below tiles c == 3 * suc n)) [
  | inl same ↦ rw (same, e) refl
  | inr other ↦ rw other refl
]

can_form_melds-some :
    (n i : ℕ) (c : Counter)
    → first_from tiles 0 c ≡ some i
    → sum_below tiles c ≡ 3 * suc n
    → can_form_melds (suc n) c
      ≡ meld_of c i (can_form_melds n (less 3 i c)) (can_form_melds n (less_run i c))
unfolding can_form_melds
can_form_melds-some n i c e s = rw (equal_numbers (sum_below tiles c) (3 * suc n) s, e) refl

meld_of-Begins :
    (n i : ℕ) (c : Counter) (a b : Bool)
    → (a ≡ true → Melds n (less 3 i c))
    → (b ≡ true → Melds n (less_run i c))
    → meld_of c i a b ≡ true
    → Begins n i c
unfolding meld_of
meld_of-Begins n i c a b f g h = elim (Bool-cases (leb 3 (c i) && a)) [
  | inl t ↦ inl (ground (arith, t), f (ground (arith, t)))
  | inr not_it ↦ inr (
    ground (arith, h, not_it),
    ground (arith, h, not_it),
    ground (arith, h, not_it),
    ground (arith, h, not_it),
    g (ground (arith, h, not_it)),
  )
]

meld_of_triplet : (i : ℕ) (c : Counter) (b : Bool) → 3 ≤ c i → meld_of c i true b ≡ true
unfolding meld_of
meld_of_triplet i c b le = ground (arith, le)

meld_of_run :
    (i : ℕ) (c : Counter) (a : Bool)
    → starts_run i ≡ true
    → 0 < c i
    → 0 < c (i + 1)
    → 0 < c (i + 2)
    → meld_of c i a true ≡ true
unfolding meld_of
meld_of_run i c a s p q r = ground (arith, s, p, q, r)

Melds-of_Begins : (n i : ℕ) (c : Counter) → i < tiles → Begins n i c → Melds (suc n) c
Melds-of_Begins n i c lt (inl (le, rest)) = triplet i lt le rest
Melds-of_Begins n i c lt (inr (s, p, q, r, rest)) = run i s p q r rest

can_form_melds_sound : (n : ℕ) (c : Counter) → can_form_melds n c ≡ true → Melds n c
can_form_melds_sound zero c h = no_melds (can_form_melds-zero c h)
can_form_melds_sound (suc n) c h = elim (Option-cases (first_from tiles 0 c)) [
  | inl empty ↦ absurd (cc (h, can_form_melds-none n c empty))
  | inr (i, found) ↦ Melds-of_Begins n i c ((Lowest-of_first i c found).0) (
      meld_of-Begins n i c (can_form_melds n (less 3 i c)) (can_form_melds n (less_run i c))
        (can_form_melds_sound n (less 3 i c)) (can_form_melds_sound n (less_run i c))
        (sym (can_form_melds-some n i c found (can_form_melds-sum n c h)) ∙ h))
]

can_form_melds_complete : (n : ℕ) (c : Counter) → Melds n c → can_form_melds n c ≡ true
can_form_melds_complete zero c m =
    unfold can_form_melds in equal_numbers (sum_below tiles c) 0 (Melds-sum m)
can_form_melds_complete (suc n) c m = elim (Option-cases (first_from tiles 0 c)) [
  | inl empty ↦ absurd (
      omega (
        arith,
        Melds-sum m,
        sum_of_zeros tiles c
            (λ j h. first_from-none tiles 0 j c empty (omega arith) (omega (arith, h))),
      ))
  | inr (i, found) ↦ elim (Melds-Begins n i c m (Lowest-of_first i c found)) [
    | inl (le, rest) ↦
        can_form_melds-some n i c found (Melds-sum m)
        ∙ rw (can_form_melds_complete n (less 3 i c) rest)
            (meld_of_triplet i c (can_form_melds n (less_run i c)) le)
    | inr (s, p, q, r, rest) ↦
        can_form_melds-some n i c found (Melds-sum m)
        ∙ rw (can_form_melds_complete n (less_run i c) rest)
            (meld_of_run i c (can_form_melds n (less 3 i c)) s p q r)
  ]
]

-- _can_form_melds answers True exactly where the tiles split into that many triplets and runs.
pub can_form_melds-Melds : (n : ℕ) (c : Counter) → (can_form_melds n c ≡ true) ↔ Melds n c
can_form_melds-Melds n c = (can_form_melds_sound n c, can_form_melds_complete n c)
