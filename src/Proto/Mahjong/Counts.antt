-- ===== src/Proto/Mahjong/Counts.antt =====
-- Counters of aigenora/proto/mahjong.py: what taking tiles away does to their counts and their sum.
use mathlib.Core.Path.{fun_ext}
use aigenora.Prelude.{ℕ, zero, suc, ◌+◌, ◌≤◌, ◌<◌, ◌≡◌, refl, ap, ◌∙◌, arith}
use aigenora.Proto.Mahjong.{Counter, less, less_run, sum_below}

pub less-less : (a b i j : ℕ) (c : Counter) → less a i (less b j c) ≡ less b j (less a i c)
unfolding less
less-less a b i j c = fun_ext (λ k. ground arith)

pub less_run-less : (a i j : ℕ) (c : Counter) → less_run i (less a j c) ≡ less a j (less_run i c)
unfolding less less_run
less_run-less a i j c = fun_ext (λ k. ground arith)

pub less_run-less_run :
    (i j : ℕ) (c : Counter) → less_run i (less_run j c) ≡ less_run j (less_run i c)
unfolding less_run
less_run-less_run i j c = fun_ext (λ k. ground arith)

less_run_of_less :
    (i : ℕ) (c : Counter) → less_run i c ≡ less 1 i (less 1 (i + 1) (less 1 (i + 2) c))
unfolding less less_run
less_run_of_less i c = fun_ext (λ k. ground arith)

sum_below-less_above : (n a i : ℕ) (c : Counter) → n ≤ i → sum_below n (less a i c) ≡ sum_below n c
unfolding sum_below less
sum_below-less_above zero a i c h = refl
sum_below-less_above (suc n) a i c h = ground (arith, sum_below-less_above n a i c)

pub sum_below-less :
    (n a i : ℕ) (c : Counter) → i < n → a ≤ c i → sum_below n (less a i c) + a ≡ sum_below n c
unfolding sum_below less
sum_below-less zero a i c h le = absurd (omega arith)
sum_below-less (suc n) a i c h le =
    ground (arith, sum_below-less n a i c, sum_below-less_above n a i c)

pub sum_below-less_run :
    (n i : ℕ) (c : Counter)
    → i + 2 < n
    → 0 < c i
    → 0 < c (i + 1)
    → 0 < c (i + 2)
    → sum_below n (less_run i c) + 3 ≡ sum_below n c
sum_below-less_run n i c h p q r =
    let two : Counter = less 1 (i + 2) c in
    let one : Counter = less 1 (i + 1) two in
    let q' : 1 ≤ two (i + 1) = unfold less in ground (arith, q) in
    let p' : 1 ≤ one i = unfold less in ground (arith, p) in
    ap (λ d. sum_below n d + 3) (less_run_of_less i c)
    ∙ omega (
      arith,
      sum_below-less n 1 (i + 2) c h (omega (arith, r)),
      sum_below-less n 1 (i + 1) two (omega (arith, h)) q',
      sum_below-less n 1 i one (omega (arith, h)) p',
    )

pub count_of_sum : (n i : ℕ) (c : Counter) → i < n → sum_below n c ≡ 0 → c i ≡ 0
unfolding sum_below
count_of_sum zero i c h z = absurd (omega arith)
count_of_sum (suc n) i c h z = ground (arith, count_of_sum n i c)
