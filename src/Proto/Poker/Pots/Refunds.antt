-- ===== src/Proto/Poker/Pots/Refunds.antt =====
-- What `normalize_uncalled_contributions` of aigenora/proto/poker.py gives back.
use mathlib.Core.Path.{subst}
use aigenora.Prelude.{
  ℕ, ◌+◌, ◌-◌, ◌≤◌, ◌≡◌, refl, ap, ◌∙◌, sym, String, false, [], ◌∷◌, arith, ltb, if◌then◌else◌, ok,
  raise_if, ok_of_bind, Bool-cases, inl, inr, some, none, eq_iff, str_eq, eq_refl,
}
use aigenora.Proto.JsonDelta.Json.{Value}
use aigenora.Proto.JsonDelta.Dict.{Assoc, lookup, lookup-insert, Distinct}
use aigenora.Proto.Poker.{bad_owner}
use aigenora.Proto.Poker.Pots.{
  Ledger, ranked, zeros, refund_top, normalize_uncalled_contributions, read_object, check_amounts,
  whole_amount,
}
use aigenora.Proto.Poker.Pots.Ranking.{
  Descending, ranked-Descending, lookup-ranked, ranked-Distinct, lookup-Bounded, lookup-zeros,
}

-- A contribution is split into what stays and what is refunded.
abbrev pub Split : Ledger → String → ℕ → Type 0
Split r k a =
    (x : ℕ) × (y : ℕ) × (lookup k (r.contributions) ≡ some x)
    × (lookup k (r.refunds) ≡ some y)
    × (x + y ≡ a)

refund_top-Split :
    (r l : Assoc ℕ) (k : String) (a : ℕ)
    → ((i : String) → lookup i r ≡ lookup i l)
    → lookup k l ≡ some a
    → Split (refund_top r l) k a
unfolding refund_top lookup
refund_top-Split [] l k a same h = (a, 0, h, lookup-zeros k a l h, omega arith)
refund_top-Split (_ ∷ []) l k a same h = (a, 0, h, lookup-zeros k a l h, omega arith)
refund_top-Split ((i, b) ∷ (j, c) ∷ rest) l k a same h = elim (Bool-cases (ltb c b)) [
  | inr level ↦ rw level (a, 0, h, lookup-zeros k a l h, omega arith)
  | inl above ↦ rw above (elim (Bool-cases (str_eq i k)) [
    | inl here ↦ (
      b - (b - c),
      b - c,
      lookup-insert i k (b - (b - c)) l ∙ rw here refl,
      lookup-insert i k (b - c) (zeros l) ∙ rw here refl,
      ground (arith, same k, h),
    )
    | inr other ↦ (
      a,
      0,
      lookup-insert i k (b - (b - c)) l ∙ rw other h,
      lookup-insert i k (b - c) (zeros l) ∙ rw other (lookup-zeros k a l h),
      omega arith,
    )
  ])
]

-- Another player has contributed at least as much.
abbrev pub Matched : Assoc ℕ → String → ℕ → Type 0
Matched l k x = (j : String) × (y : ℕ) × (str_eq j k ≡ false) × (lookup j l ≡ some y) × (x ≤ y)

module _ (l : Assoc ℕ) (i j : String) (b c : ℕ) (rest : Assoc ℕ)
    (d : Distinct ((i, b) ∷ (j, c) ∷ rest)) (desc : Descending ((i, b) ∷ (j, c) ∷ rest))
    (same : (n : String) → lookup n ((i, b) ∷ (j, c) ∷ rest) ≡ lookup n l) where
  -- After the refund the top player's contribution is that of the next.
  lookup-kept :
      (n : String)
      → lookup n ((refund_top ((i, b) ∷ (j, c) ∷ rest) l).contributions)
        ≡ (if str_eq i n then some c else lookup n ((j, c) ∷ rest))
  unfolding refund_top lookup
  lookup-kept n = elim (Bool-cases (ltb c b)) [
    | inl above ↦
        let e : b - (b - c) ≡ c = ground arith in
        rw (above, e) (lookup-insert i n c l ∙ ground (arith, same n))
    | inr level ↦ let e : b ≡ c = ground (arith, desc.0.0) in rw level (sym (same n) ∙ rw e refl)
  ]

  kept-Matched :
      (k : String) (x : ℕ)
      → lookup k ((refund_top ((i, b) ∷ (j, c) ∷ rest) l).contributions) ≡ some x
      → Matched ((refund_top ((i, b) ∷ (j, c) ∷ rest) l).contributions) k x
  unfolding lookup
  kept-Matched k x h = elim (Bool-cases (str_eq i k)) [
    | inl here ↦
        let apart : str_eq i j ≡ false = ground (arith, eq_iff i j, eq_iff j i, d.0) in
        (
          j,
          c,
          ground (arith, eq_iff i k, eq_iff j k, eq_iff i j, here, apart),
          lookup-kept j ∙ rw (apart, eq_refl j) refl,
          ground (arith, lookup-kept k, h, here),
        )
    | inr other ↦ (
      i,
      c,
      other,
      lookup-kept i ∙ rw (eq_refl i) refl,
      lookup-Bounded c k x ((j, c) ∷ rest) (omega arith, desc.1.0)
          (ground (arith, lookup-kept k, h, other)),
    )
  ]

refund_top-Matched :
    (r l : Assoc ℕ) (k m : String) (x y : ℕ)
    → Distinct r
    → Descending r
    → ((n : String) → lookup n r ≡ lookup n l)
    → str_eq k m ≡ false
    → lookup k ((refund_top r l).contributions) ≡ some x
    → lookup m ((refund_top r l).contributions) ≡ some y
    → Matched ((refund_top r l).contributions) k x
unfolding refund_top lookup
refund_top-Matched [] l k m x y d desc same ne h h' = absurd (ground (arith, same k))
refund_top-Matched ((i, b) ∷ []) l k m x y d desc same ne h h' =
    absurd (ground (arith, same k, same m, eq_iff i k, eq_iff i m, eq_iff k m))
refund_top-Matched ((i, b) ∷ (j, c) ∷ rest) l k m x y d desc same ne h h' =
    kept-Matched l i j b c rest d desc same k x h

-- The checked amounts stand under the keys that were given.
checked_cons :
    (k : String) (v : Value) (l : Assoc Value) (amounts : Assoc ℕ)
    → check_amounts ((k, v) ∷ l) ≡ ok amounts
    → (a : ℕ) × (m : Assoc ℕ) × (check_amounts l ≡ ok m) × (amounts ≡ (k, a) ∷ m)
unfolding check_amounts
checked_cons k v l amounts h =
    let (u, named, h1) = ok_of_bind (raise_if (str_eq k "") bad_owner) _ h in
    let (a, read, h2) = ok_of_bind (whole_amount v) _ h1 in
    let (m, rest, h3) = ok_of_bind (check_amounts l) _ h2 in (a, m, rest, cc)

lookup-check_amounts :
    (k : String) (l : Assoc Value) (amounts : Assoc ℕ)
    → check_amounts l ≡ ok amounts
    → lookup k l ≡ none
    → lookup k amounts ≡ none
unfolding lookup
lookup-check_amounts k [] amounts h e =
    unfold check_amounts in let p : amounts ≡ [] = cc in ap (lookup k) p
lookup-check_amounts k ((j, v) ∷ l) amounts h e =
    let (a, m, rest, p) = checked_cons j v l amounts h in
    ap (lookup k) p ∙ ground (arith, e, lookup-check_amounts k l m rest)

check_amounts-Distinct :
    (l : Assoc Value) (amounts : Assoc ℕ)
    → check_amounts l ≡ ok amounts
    → Distinct l
    → Distinct amounts
check_amounts-Distinct [] amounts h d =
    unfold check_amounts in let p : amounts ≡ [] = cc in subst Distinct (sym p) tt
check_amounts-Distinct ((j, v) ∷ l) amounts h d =
    let (a, m, rest, p) = checked_cons j v l amounts h in
    subst Distinct (sym p)
      (lookup-check_amounts j l m rest d.0, check_amounts-Distinct l m rest d.1)

-- Where the contributions are in order, normalize_uncalled_contributions returns, what stays and
-- what is refunded add up to each contribution, and of two or more players none keeps more in than
-- another matches.
pub normalize_uncalled_contributions_lem :
    (contributions : Value) (given : Assoc Value) (amounts : Assoc ℕ)
    → read_object contributions ≡ ok given
    → Distinct given
    → check_amounts given ≡ ok amounts
    → (ledger : Ledger) × (normalize_uncalled_contributions contributions ≡ ok ledger)
      × ((k : String) (a : ℕ) → lookup k amounts ≡ some a → Split ledger k a)
      × ((k m : String) (x y : ℕ)
          → str_eq k m ≡ false
          → lookup k (ledger.contributions) ≡ some x
          → lookup m (ledger.contributions) ≡ some y
          → Matched (ledger.contributions) k x)
unfolding normalize_uncalled_contributions
normalize_uncalled_contributions_lem contributions given amounts read d checked =
    let da = check_amounts-Distinct given amounts checked d in
    (
      refund_top (ranked amounts) amounts,
      rw (read, checked) refl,
      λ k a. refund_top-Split (ranked amounts) amounts k a (λ i. lookup-ranked i amounts da),
      λ k m x y.
          refund_top-Matched (ranked amounts) amounts k m x y (ranked-Distinct amounts da)
            (ranked-Descending amounts) (λ i. lookup-ranked i amounts da),
    )
