-- ===== src/Proto/Poker/Pots/Levels.antt =====
-- The levels of the pots of aigenora/proto/poker.py: ascending, and one for each positive amount.
use aigenora.Prelude.{
  ℕ, ◌≤◌, ◌<◌, ◌≡◌, refl, Bool, true, false, ◌||◌, List, [], ◌∷◌, arith, leb, ◌==◌,
}
use aigenora.Proto.JsonDelta.Dict.{Assoc}
use aigenora.Proto.Poker.Pots.{add_level, levels}

-- Each level is above the one before it.
abbrev pub Ascending : ℕ → List ℕ → Type 0
Ascending previous [] = Unit
Ascending previous (level ∷ ls) = (previous < level) × Ascending level ls

unfoldable pub has_level : ℕ → List ℕ → Bool
has_level a [] = false
has_level a (level ∷ ls) = a == level || has_level a ls

-- Each amount is within the previous level or is a level itself.
abbrev pub Covered : ℕ → List ℕ → Assoc ℕ → Type 0
Covered previous ls [] = Unit
Covered previous ls ((k, a) ∷ l) = (leb a previous || has_level a ls ≡ true) × Covered previous ls l

Ascending-add_level :
    (previous n : ℕ) (ls : List ℕ)
    → Ascending previous ls
    → previous < n
    → Ascending previous (add_level n ls)
unfolding add_level
Ascending-add_level previous n [] asc h = (h, tt)
Ascending-add_level previous n (m ∷ ls) asc h = ground (arith, Ascending-add_level m n ls asc.1)

has_level-add_level :
    (a n : ℕ) (ls : List ℕ) → has_level a (add_level n ls) ≡ (a == n || has_level a ls)
unfolding has_level add_level
has_level-add_level a n [] = refl
has_level-add_level a n (m ∷ ls) = ground (arith, has_level-add_level a n ls)

pub levels-Ascending : (l : Assoc ℕ) → Ascending 0 (levels l)
unfolding levels
levels-Ascending [] = tt
levels-Ascending ((k, a) ∷ l) =
    ground (arith, levels-Ascending l, Ascending-add_level 0 a (levels l))

Covered-later : (n : ℕ) (ls : List ℕ) (l : Assoc ℕ) → Covered 0 ls l → Covered 0 (add_level n ls) l
Covered-later n ls [] c = tt
Covered-later n ls ((k, a) ∷ l) c =
    (ground (arith, c.0, has_level-add_level a n ls), Covered-later n ls l c.1)

pub levels-Covered : (l : Assoc ℕ) → Covered 0 (levels l) l
unfolding levels
levels-Covered [] = tt
levels-Covered ((k, a) ∷ l) =
    ground
      (arith, levels-Covered l, Covered-later a (levels l) l, has_level-add_level a a (levels l))

-- No level of the rest is at or below the one that it stands behind.
pub not_below :
    (a previous : ℕ) (ls : List ℕ) → Ascending previous ls → a ≤ previous → has_level a ls ≡ false
unfolding has_level
not_below a previous [] asc h = refl
not_below a previous (level ∷ ls) asc h = ground (arith, not_below a level ls asc.1)

-- An amount above the previous level reaches the next one.
pub reaches_next :
    (a previous level : ℕ) (ls : List ℕ)
    → Ascending level ls
    → leb a previous || has_level a (level ∷ ls) ≡ true
    → leb level a ≡ false
    → a ≤ previous
unfolding has_level
reaches_next a previous level ls asc c below = ground (arith, not_below a level ls asc)

pub Covered-next :
    (previous level : ℕ) (ls : List ℕ) (l : Assoc ℕ)
    → previous < level
    → Covered previous (level ∷ ls) l
    → Covered level ls l
unfolding has_level
Covered-next previous level ls [] h c = tt
Covered-next previous level ls ((k, a) ∷ l) h c =
    (ground (arith, c.0), Covered-next previous level ls l h c.1)
