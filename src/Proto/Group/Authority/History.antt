-- ===== src/Proto/Group/Authority/History.antt =====
-- The checkpoint history that `_build_envelopes` of aigenora/proto/group.py keeps.
use mathlib.Core.Path.{subst}
use aigenora.Prelude.{
  ℕ, zero, suc, ◌≤◌, ◌≡◌, refl, ap, sym, ◌⊎◌, inl, inr, Bool, true, false, List, [], ◌∷◌, ltb, ◌==◌,
  length, arith, Bool-cases, if◌then◌else◌,
}
use aigenora.Proto.JsonDelta.Dict.{Assoc}
use aigenora.Proto.Group.Authority.{Authority, Checkpoint}
use aigenora.Proto.Group.Authority.Frames.{
  put_number, lowest, pop_number, trim, remember, publish, Plan, Rendered,
}

-- One of the numbers.
Holds : ℕ → List (ℕ × Checkpoint) → Type 0
Holds n [] = ⊥
Holds n ((m, k) ∷ rest) = (m ≡ n) ⊎ Holds n rest

lowest_step :
    (n m : ℕ) (k : Checkpoint) (rest : List (ℕ × Checkpoint)) (b : Bool)
    → ltb m n ≡ b
    → lowest n ((m, k) ∷ rest) ≡ lowest (if b then m else n) rest
unfolding lowest
lowest_step n m k rest b e = ap (λ t. lowest (if t then m else n) rest) e

-- The start or one of the numbers.
Among : ℕ → ℕ → List (ℕ × Checkpoint) → Type 0
Among x n l = (x ≡ n) ⊎ Holds x l

from_head :
    (x m n : ℕ) (k : Checkpoint) (rest : List (ℕ × Checkpoint))
    → Among x m rest
    → Among x n ((m, k) ∷ rest)
unfolding Among Holds
from_head x m n k rest (inl e) = inr (inl (sym e))
from_head x m n k rest (inr h) = inr (inr h)

from_tail :
    (x m n : ℕ) (k : Checkpoint) (rest : List (ℕ × Checkpoint))
    → Among x n rest
    → Among x n ((m, k) ∷ rest)
unfolding Among Holds
from_tail x m n k rest (inl e) = inl e
from_tail x m n k rest (inr h) = inr (inr h)

lowest-Among : (n : ℕ) (l : List (ℕ × Checkpoint)) → Among (lowest n l) n l
lowest-Among n [] = unfold lowest Among in inl refl
lowest-Among n ((m, k) ∷ rest) = elim (Bool-cases (ltb m n)) [
  | inl lower ↦
      subst (λ x. Among x n ((m, k) ∷ rest)) (sym (lowest_step n m k rest true lower))
        (from_head (lowest m rest) m n k rest (lowest-Among m rest))
  | inr not_lower ↦
      subst (λ x. Among x n ((m, k) ∷ rest)) (sym (lowest_step n m k rest false not_lower))
        (from_tail (lowest n rest) m n k rest (lowest-Among n rest))
]

length-pop_number :
    (n : ℕ) (l : List (ℕ × Checkpoint)) → Holds n l → length l ≡ suc (length (pop_number n l))
unfolding pop_number Holds
length-pop_number n [] h = absurd h
length-pop_number n ((m, k) ∷ rest) h = elim (Bool-cases (m == n)) [
  | inl same ↦ rw same refl
  | inr other ↦ rw other (elim h [
    | inl e ↦ absurd (ground arith)
    | inr later ↦ ap suc (length-pop_number n rest later)
  ])
]

pop_one :
    (m : ℕ) (k : Checkpoint) (rest : List (ℕ × Checkpoint))
    → Holds (lowest m rest) ((m, k) ∷ rest)
    → length (pop_number (lowest m rest) ((m, k) ∷ rest)) ≡ length rest
pop_one m k rest held = omega (arith, length-pop_number (lowest m rest) ((m, k) ∷ rest) held)

pop-lowest :
    (m : ℕ) (k : Checkpoint) (rest : List (ℕ × Checkpoint))
    → length (pop_number (lowest m rest) ((m, k) ∷ rest)) ≡ length rest
unfolding Among Holds
pop-lowest m k rest =
    pop_one m k rest (elim (lowest-Among m rest) [ inl e ↦ inl (sym e) | inr h ↦ inr h ])

length-trim : (fuel : ℕ) (l : List (ℕ × Checkpoint)) → length l ≤ fuel → length (trim fuel l) ≤ 256
unfolding trim
length-trim zero [] h = omega arith
length-trim zero (x ∷ l) h = absurd (omega arith)
length-trim (suc fuel) [] h = omega arith
length-trim (suc fuel) ((m, k) ∷ rest) h = elim (Bool-cases (ltb 256 (suc (length rest)))) [
  | inl over ↦ rw over (
      length-trim fuel (pop_number (lowest m rest) ((m, k) ∷ rest))
        (omega (arith, pop-lowest m k rest)))
  | inr within ↦ rw within (ground arith)
]

-- The history that a frame leaves has at most 256 checkpoints, whatever it had before.
pub publish-length :
    (p : Plan) (rendered : Assoc Rendered) (a : Authority)
    → length (publish p rendered a).checkpoint_history ≤ 256
unfolding publish remember
publish-length p rendered a =
    let longer = put_number a.seq p.checkpoint a.checkpoint_history in
    length-trim (length longer) longer (omega arith)
