-- ===== src/Proto/Poker/Hands/Selections.antt =====
-- The combinations that aigenora/proto/poker.py goes through are the selections of that many cards.
use mathlib.Core.Path.{subst}
use aigenora.Prelude.{
  ℕ, zero, suc, ◌≡◌, refl, ap, sym, List, [], ◌∷◌, ◌++◌, map, arith, length, ◌⊎◌, inl, inr,
}
use aigenora.Proto.Poker.Hands.Choice.{combinations}

-- A list without some of its elements.
pub data Selected {A : Type 0} : List A → List A → Type 0 where
  stop : Selected [] []
  keep : {x : A} {c l : List A} → Selected c l → Selected (x ∷ c) (x ∷ l)
  skip : {x : A} {c l : List A} → Selected c l → Selected c (x ∷ l)

abbrev pub In : {A : Type 0} → A → List A → Type 0
In x [] = ⊥
In x (y ∷ l) = (x ≡ y) ⊎ In x l

module _ {A : Type 0} where
  pub In-append_left : (x : A) (l m : List A) → In x l → In x (l ++ m)
  In-append_left x [] m i = elim i [ ]
  In-append_left x (y ∷ l) m (inl e) = inl e
  In-append_left x (y ∷ l) m (inr i) = inr (In-append_left x l m i)

  In-append_right : (x : A) (l m : List A) → In x m → In x (l ++ m)
  In-append_right x [] m i = i
  In-append_right x (y ∷ l) m i = inr (In-append_right x l m i)

  In-append : (x : A) (l m : List A) → In x (l ++ m) → In x l ⊎ In x m
  In-append x [] m i = inr i
  In-append x (y ∷ l) m (inl e) = inl (inl e)
  In-append x (y ∷ l) m (inr i) = elim (In-append x l m i) [ inl j ↦ inl (inr j) | inr j ↦ inr j ]

module _ {A : Type 0} where
  In-map_cons :
      (x : A) (c : List A) (cs : List (List A)) → In c cs → In (x ∷ c) (map (λ d. x ∷ d) cs)
  In-map_cons x c [] i = elim i [ ]
  In-map_cons x c (d ∷ cs) (inl e) = inl (ap (λ d. x ∷ d) e)
  In-map_cons x c (d ∷ cs) (inr i) = inr (In-map_cons x c cs i)

  In-of_map_cons :
      (x : A) (c : List A) (cs : List (List A))
      → In c (map (λ d. x ∷ d) cs)
      → (d : List A) × (c ≡ x ∷ d) × In d cs
  In-of_map_cons x c [] i = elim i [ ]
  In-of_map_cons x c (d ∷ cs) (inl e) = (d, e, inl refl)
  In-of_map_cons x c (d ∷ cs) (inr i) = let (e, p, j) = In-of_map_cons x c cs i in (e, p, inr j)

  nothing-Selected : (l : List A) → Selected [] l
  nothing-Selected [] = stop
  nothing-Selected (x ∷ l) = skip (nothing-Selected l)

  pub combinations_sound :
      (n : ℕ) (l c : List A) → In c (combinations n l) → Selected c l × (length c ≡ n)
  unfolding combinations
  combinations_sound zero l c (inl e) =
      subst (λ d. Selected d l × (length d ≡ 0)) (sym e) (nothing-Selected l, refl)
  combinations_sound zero l c (inr i) = absurd i
  combinations_sound (suc n) [] c i = absurd i
  combinations_sound (suc n) (x ∷ l) c i =
      elim (In-append c (map (λ d. x ∷ d) (combinations n l)) (combinations (suc n) l) i) [
        | inl j ↦
            let (d, e, k) = In-of_map_cons x c (combinations n l) j in
            let (s, p) = combinations_sound n l d k in
            subst (λ b. Selected b (x ∷ l) × (length b ≡ suc n)) (sym e) (keep s, ap suc p)
        | inr j ↦ let (s, p) = combinations_sound (suc n) l c j in (skip s, p)
      ]

  nil_of_length : (c : List A) → length c ≡ 0 → c ≡ []
  nil_of_length [] e = refl
  nil_of_length (x ∷ c) e = absurd (omega arith)

  pub combinations_complete :
      {c l : List A} → Selected c l → (n : ℕ) → length c ≡ n → In c (combinations n l)
  unfolding combinations
  combinations_complete stop zero e = inl refl
  combinations_complete stop (suc n) e = absurd (omega arith)
  combinations_complete (keep s) zero e = absurd (omega arith)
  combinations_complete (keep {x = x} {c = c} {l = l} s) (suc n) e =
      In-append_left (x ∷ c) (map (λ d. x ∷ d) (combinations n l)) (combinations (suc n) l)
        (In-map_cons x c (combinations n l) (combinations_complete s n (omega arith)))
  combinations_complete (skip {c = c} s) zero e = inl (nil_of_length c e)
  combinations_complete (skip {x = x} {c = c} {l = l} s) (suc n) e =
      In-append_right c (map (λ d. x ∷ d) (combinations n l)) (combinations (suc n) l)
        (combinations_complete s (suc n) e)
