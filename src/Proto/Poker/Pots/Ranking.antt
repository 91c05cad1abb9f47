-- ===== src/Proto/Poker/Pots/Ranking.antt =====
-- The ranking of the contributions in aigenora/proto/poker.py: descending, with the same entries.

use aigenora.Prelude.{
  ℕ, ◌≤◌, ◌≡◌, refl, ◌∙◌, String, [], ◌∷◌, arith, if◌then◌else◌, some, none, eq_iff, str_eq,
}
use aigenora.Proto.JsonDelta.Dict.{Assoc, lookup, Distinct}
use aigenora.Proto.Poker.Pots.{ranks_before, place_ranked, ranked, zeros}

-- No amount is above a bound.
abbrev pub Bounded : ℕ → Assoc ℕ → Type 0
Bounded top [] = Unit
Bounded top ((k, a) ∷ l) = (a ≤ top) × Bounded top l

abbrev pub Descending : Assoc ℕ → Type 0
Descending [] = Unit
Descending ((k, a) ∷ l) = Bounded a l × Descending l

Bounded-weaken : (a b : ℕ) (l : Assoc ℕ) → Bounded a l → a ≤ b → Bounded b l
Bounded-weaken a b [] w h = tt
Bounded-weaken a b ((k, c) ∷ l) w h = (omega (arith, w.0, h), Bounded-weaken a b l w.1 h)

Bounded-place_ranked :
    (top : ℕ) (k : String) (a : ℕ) (l : Assoc ℕ)
    → Bounded top l
    → a ≤ top
    → Bounded top (place_ranked k a l)
unfolding place_ranked
Bounded-place_ranked top k a [] w h = (h, tt)
Bounded-place_ranked top k a ((j, b) ∷ l) w h = ground (arith, Bounded-place_ranked top k a l w.1)

Descending-place_ranked :
    (k : String) (a : ℕ) (l : Assoc ℕ) → Descending l → Descending (place_ranked k a l)
unfolding place_ranked ranks_before
Descending-place_ranked k a [] d = (tt, tt)
Descending-place_ranked k a ((j, b) ∷ l) d = ground (
  arith,
  Bounded-weaken b a l d.0,
  Bounded-place_ranked b k a l d.0,
  Descending-place_ranked k a l d.1,
)

pub ranked-Descending : (l : Assoc ℕ) → Descending (ranked l)
unfolding ranked
ranked-Descending [] = tt
ranked-Descending ((k, a) ∷ l) = Descending-place_ranked k a (ranked l) (ranked-Descending l)

lookup-place_ranked :
    (k j : String) (a : ℕ) (l : Assoc ℕ)
    → lookup k l ≡ none
    → lookup j (place_ranked k a l) ≡ (if str_eq k j then some a else lookup j l)
unfolding lookup place_ranked
lookup-place_ranked k j a [] h = refl
lookup-place_ranked k j a ((i, b) ∷ l) h =
    ground (arith, eq_iff k j, eq_iff i k, eq_iff i j, lookup-place_ranked k j a l)

pub lookup-ranked : (j : String) (l : Assoc ℕ) → Distinct l → lookup j (ranked l) ≡ lookup j l
unfolding lookup ranked
lookup-ranked j [] d = refl
lookup-ranked j ((i, a) ∷ l) d =
    ground
      (arith, lookup-place_ranked i j a (ranked l), lookup-ranked i l d.1, lookup-ranked j l d.1)

Distinct-place_ranked :
    (k : String) (a : ℕ) (l : Assoc ℕ)
    → lookup k l ≡ none
    → Distinct l
    → Distinct (place_ranked k a l)
unfolding place_ranked lookup
Distinct-place_ranked k a [] h d = (refl, tt)
Distinct-place_ranked k a ((i, b) ∷ l) h d =
    ground (arith, eq_iff i k, eq_iff k i, Distinct-place_ranked k a l, lookup-place_ranked k i a l)

pub ranked-Distinct : (l : Assoc ℕ) → Distinct l → Distinct (ranked l)
unfolding ranked
ranked-Distinct [] d = tt
ranked-Distinct ((i, a) ∷ l) d =
    Distinct-place_ranked i a (ranked l) (lookup-ranked i l d.1 ∙ d.0) (ranked-Distinct l d.1)

pub lookup-Bounded :
    (top : ℕ) (k : String) (x : ℕ) (l : Assoc ℕ) → Bounded top l → lookup k l ≡ some x → x ≤ top
unfolding lookup
lookup-Bounded top k x [] w h = absurd (ground arith)
lookup-Bounded top k x ((j, b) ∷ l) w h = ground (arith, lookup-Bounded top k x l w.1)

pub lookup-zeros :
    (k : String) (a : ℕ) (l : Assoc ℕ) → lookup k l ≡ some a → lookup k (zeros l) ≡ some 0
unfolding lookup zeros
lookup-zeros k a [] h = absurd (ground arith)
lookup-zeros k a ((j, b) ∷ l) h = ground (arith, lookup-zeros k a l)
