-- ===== src/Programs/Schedule/Sum.antt =====
-- Sums over the threads of a process.
use uprobe_tests.Base.{
  ℕ, zero, suc, ◌+◌, ◌*◌, ◌<◌, ◌≡◌, ◌≢◌, refl, ◌==◌, Bool-cases, inl, inr, arith,
}

abbrev pub sum : (n : ℕ) → (ℕ → ℕ) → ℕ
sum zero f = 0
sum (suc n) f = f n + sum n f

-- The sum with one summand changed.
sum-same : (n : ℕ) (f g : ℕ → ℕ) → ((j : ℕ) → j < n → g j ≡ f j) → sum n g ≡ sum n f
sum-same zero f g same = refl
sum-same (suc n) f g same =
    omega (arith, same n (omega arith), sum-same n f g (λ j lt. same j (omega arith)))

pub sum-change :
    (n i d : ℕ) (f g : ℕ → ℕ)
    → i < n
    → d + g i ≡ f i
    → ((j : ℕ) → j ≢ i → g j ≡ f j)
    → d + sum n g ≡ sum n f
sum-change zero i d f g lt here there = absurd (omega arith)
sum-change (suc n) i d f g lt here there = elim (Bool-cases (n == i)) [
  | inl last ↦
      let n_i : n ≡ i = ground (arith, last) in
      let rest = sum-same n f g (λ j j_lt. there j (ground (arith, n_i, j_lt))) in
      let here_n : d + g n ≡ f n = rw (← n_i) at here in omega (arith, here_n, rest)
  | inr before ↦
      let n_i : n ≢ i = ground (arith, before) in
      omega (arith, there n n_i, sum-change n i d f g (ground (arith, before, lt)) here there)
]

pub sum-const : (n c : ℕ) → sum n (λ i. c) ≡ n * c
sum-const zero c = omega arith
sum-const (suc n) c = grind (arith, sum-const n c)
