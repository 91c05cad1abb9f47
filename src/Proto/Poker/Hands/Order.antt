-- ===== src/Proto/Poker/Hands/Order.antt =====
-- The order of rank tuples in aigenora/proto/poker.py.
use aigenora.Prelude.{ℕ, ◌≡◌, refl, true, false, List, [], ◌∷◌, arith}
use aigenora.Proto.Poker.Hands.Choice.{tuple_lt}

pub tuple_lt_irrefl : (a : List ℕ) → tuple_lt a a ≡ false
unfolding tuple_lt
tuple_lt_irrefl [] = refl
tuple_lt_irrefl (n ∷ a) = ground (arith, tuple_lt_irrefl a)

tuple_lt_trans : (a b c : List ℕ) → tuple_lt a b ≡ true → tuple_lt b c ≡ true → tuple_lt a c ≡ true
unfolding tuple_lt
tuple_lt_trans a [] [] p q = absurd (ground arith)
tuple_lt_trans a (m ∷ b) [] p q = absurd (ground arith)
tuple_lt_trans [] b (l ∷ c) p q = refl
tuple_lt_trans (n ∷ a) [] (l ∷ c) p q = absurd (ground arith)
tuple_lt_trans (n ∷ a) (m ∷ b) (l ∷ c) p q = ground (arith, tuple_lt_trans a b c)

-- What is not below a tuple is not below a smaller one.
pub not_lt_of_lt :
    (a b c : List ℕ) → tuple_lt a b ≡ true → tuple_lt a c ≡ false → tuple_lt b c ≡ false
not_lt_of_lt a b c p q = ground (arith, tuple_lt_trans a b c)

pub not_lt_trans :
    (a b c : List ℕ) → tuple_lt a b ≡ false → tuple_lt b c ≡ false → tuple_lt a c ≡ false
unfolding tuple_lt
not_lt_trans a [] [] p q = p
not_lt_trans a [] (l ∷ c) p q = absurd (ground arith)
not_lt_trans [] (m ∷ b) c p q = absurd (ground arith)
not_lt_trans (n ∷ a) (m ∷ b) [] p q = refl
not_lt_trans (n ∷ a) (m ∷ b) (l ∷ c) p q = ground (arith, not_lt_trans a b c)
