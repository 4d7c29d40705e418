-- ===== src/Programs/Main/Passed.antt =====
-- When the user programs of uprobes.w report a pass.
use uprobe_tests.Base.{
  ℕ, zero, suc, ◌+◌, ◌≤◌, ◌<◌, ◌≡◌, ◌⊎◌, ◌↔◌, inl, inr, refl, Bool, true, false, ◌&&◌, ◌==◌, ltb,
  arith, ℤ, pos, is_zero, Bool-cases,
}
use uprobe_tests.Programs.Main.{
  max_threads, Report, Pthread, Part, then_part, or_report, create_from, join_from, gather,
  all_passed, report, positive, main,
}

-- The first `n` threads: pthread does its part, and they return 0.
pub record Good (P : Pthread) (n : ℕ) : Type 0 where
  pub created : (k : ℕ) → k < n → P.create k ≡ 0
  pub joined : (k : ℕ) → k < n → P.join k ≡ 0
  pub returned_0 : (k : ℕ) → k < n → P.result k ≡ pos 0

abbrev pub passes : (n : ℕ) → Part (ℕ × ℤ) → Bool
passes n (Part.ended r) = false
passes n (Part.goes_on stopped) = all_passed n stopped

zero_of : (r : ℤ) → is_zero r ≡ true → r ≡ pos 0
zero_of (pos n) e = ground (arith, e)
zero_of (ℤ.negsuc n) e = absurd (ground (arith, e))

module _ (P : Pthread) where
  create_from_ok :
      (left i : ℕ)
      → i + left ≤ 1000
      → ((k : ℕ) → i ≤ k → k < i + left → P.create k ≡ 0)
      → create_from P left i ≡ Part.goes_on tt
  unfolding create_from
  create_from_ok zero i le all = refl
  create_from_ok (suc left) i le all =
      let here : P.create i ≡ 0 = all i (omega arith) (omega arith) in
      let fits : ltb i 1000 ≡ true = ground arith in
      rw (fits, here)
        (create_from_ok left (suc i) (omega arith) (λ k lo hi. all k (omega arith) (omega arith)))

  create_from_inv :
      (left i : ℕ)
      → create_from P left i ≡ Part.goes_on tt
      → i ≤ 1000
      → (i + left ≤ 1000) × ((k : ℕ) → i ≤ k → k < i + left → P.create k ≡ 0)
  unfolding create_from
  create_from_inv zero i e le = (omega arith, λ k lo hi. absurd (omega arith))
  create_from_inv (suc left) i e le = elim (Bool-cases (ltb i 1000)) [
    | inr over ↦ absurd (ground (arith, over, e))
    | inl fits ↦ elim (Bool-cases (P.create i == 0)) [
      | inr bad ↦ absurd (ground (arith, fits, bad, e))
      | inl here ↦
          let rest : create_from P left (suc i) ≡ Part.goes_on tt = ground (arith, fits, here, e) in
          let (le1, all) = create_from_inv left (suc i) rest (ground (arith, fits)) in
          (
            omega arith,
            λ k lo hi. elim (Bool-cases (k == i)) [
              | inl e1 ↦ ground (arith, e1, here)
              | inr e1 ↦ all k (ground (arith, e1)) (omega arith)
            ],
          )
    ]
  ]

  join_from_ok :
      (left i : ℕ) (results : ℤ)
      → (results ≡ pos 0) ⊎ (0 < left)
      → ((k : ℕ) → i ≤ k → k < i + left → P.join k ≡ 0)
      → ((k : ℕ) → i ≤ k → k < i + left → P.result k ≡ pos 0)
      → join_from P left i results ≡ Part.goes_on (i + left, pos 0)
  unfolding join_from
  join_from_ok zero i results start joined zeros = ground (arith, start)
  join_from_ok (suc left) i results start joined zeros =
      let here : P.join i ≡ 0 = joined i (omega arith) (omega arith) in
      let now : P.result i ≡ pos 0 = zeros i (omega arith) (omega arith) in
      rw (here, now)
        (ground (
          arith,
          join_from_ok left (suc i) (pos 0) (inl refl)
              (λ k lo hi. joined k (omega arith) (omega arith))
              (λ k lo hi. zeros k (omega arith) (omega arith)),
        ))

  join_from_inv :
      (left i n : ℕ) (results : ℤ)
      → n ≡ i + left
      → passes n (join_from P left i results) ≡ true
      → (k : ℕ) → i ≤ k
      → k < n
      → (P.join k ≡ 0) × (P.result k ≡ pos 0)
  unfolding join_from
  join_from_inv zero i n results end e k lo hi = absurd (omega arith)
  join_from_inv (suc left) i n results end e k lo hi = elim (Bool-cases (P.join i == 0)) [
    | inr bad ↦ absurd (ground (arith, bad, e))
    | inl here ↦ elim (Bool-cases (is_zero (P.result i))) [
      | inr bad ↦ absurd (ground (arith, here, bad, e))
      | inl now ↦
          let rest : passes n (join_from P left (suc i) (P.result i)) ≡ true =
            ground (arith, here, now, e) in
          elim (Bool-cases (k == i)) [
            | inl e1 ↦
                let k_i : k ≡ i = ground arith in rw k_i (ground arith, zero_of (P.result i) now)
            | inr e1 ↦
                join_from_inv left (suc i) n (P.result i) (omega arith) rest k
                  (ground (arith, e1, lo)) hi
          ]
    ]
  ]

  pub gather_ok :
      (n : ℕ) (stale : ℤ)
      → 0 < n
      → n ≤ max_threads
      → Good P n
      → gather P n stale ≡ Part.goes_on (n, pos 0)
  unfolding gather
  gather_ok n stale some_threads fit g =
      let n_n : 0 + n ≡ n = omega arith in
      rw (create_from_ok n 0 (omega arith) (λ k lo hi. g.created k (omega arith))) (
        rw n_n at (
          join_from_ok n 0 stale (inr some_threads) (λ k lo hi. g.joined k (omega arith))
            (λ k lo hi. g.returned_0 k (omega arith))))

  pub gather_inv :
      (n : ℕ) (stale : ℤ) → passes n (gather P n stale) ≡ true → (n ≤ max_threads) × Good P n
  unfolding gather
  gather_inv n stale e = go (create_from P n 0) refl e
    where
      go :
          (c : Part Unit)
          → create_from P n 0 ≡ c
          → passes n (then_part c (λ _. join_from P n 0 stale)) ≡ true
          → (n ≤ max_threads) × Good P n
      go (Part.ended r) c p = absurd (ground (arith, p))
      go (Part.goes_on tt) c p =
          let (fit, all) = create_from_inv n 0 c (omega arith) in
          let back = join_from_inv n 0 n stale (omega arith) p in
          (
            omega arith,
            record {
              created = λ k hi. all k (omega arith) (omega arith);
              joined = λ k hi. (back k (omega arith) (omega arith)).0;
              returned_0 = λ k hi. (back k (omega arith) (omega arith)).1;
            },
          )

abbrev reported : (n : ℕ) → Part (ℕ × ℤ) → Report
reported n p = or_report p (report n)

reported-passed : (n : ℕ) (p : Part (ℕ × ℤ)) → reported n p ≡ Report.passed → passes n p ≡ true
reported-passed n (Part.ended r) e = absurd (ground (arith, e))
reported-passed n (Part.goes_on stopped) e = elim (Bool-cases (all_passed n stopped)) [
  | inl good ↦ good
  | inr bad ↦ absurd (ground (arith, bad, e))
]

abbrev pub given : (argc : ℕ) → (num_threads niter : ℤ) → Bool
given argc num_threads niter = argc == 3 && ltb 0 (positive num_threads) && ltb 0 (positive niter)

pub main-passed_within :
    (P : Pthread) (argc : ℕ) (num_threads niter stale : ℤ)
    → (main P argc num_threads niter stale ≡ Report.passed) ↔ (
        (argc ≡ 3)
        × (0 < positive num_threads)
        × (positive num_threads ≤ max_threads)
        × (0 < positive niter)
        × Good P (positive num_threads))
unfolding main
main-passed_within P argc num_threads niter stale = (to, from)
  where
    n : ℕ
    n = positive num_threads

    to :
        main P argc num_threads niter stale ≡ Report.passed
        → (argc ≡ 3) × (0 < n) × (n ≤ max_threads) × (0 < positive niter) × Good P n
    to e = elim (Bool-cases (given argc num_threads niter)) [
      | inr bad ↦ absurd (ground (arith, bad, e))
      | inl fine ↦
          let ran : reported n (gather P n stale) ≡ Report.passed = ground (arith, fine, e) in
          let (fit, good) = gather_inv P n stale (reported-passed n (gather P n stale) ran) in
          (ground (arith, fine), ground (arith, fine), fit, ground (arith, fine), good)
    ]

    from :
        (argc ≡ 3) × (0 < n) × (n ≤ max_threads) × (0 < positive niter) × Good P n
        → main P argc num_threads niter stale ≡ Report.passed
    from (three, some_threads, fit, some_rounds, good) =
        let fine : given argc num_threads niter ≡ true =
          ground (arith, three, some_threads, some_rounds) in
        let ran : gather P n stale ≡ Part.goes_on (n, pos 0) =
          gather_ok P n stale some_threads fit good in
        ground (arith, fine, ran)

-- On i386, where the `void *` that `pthread_join` stores has the size of `results`, and for at most 1000
-- threads, which `thread` has room for: `main` of uthread.c reports a pass exactly if it has three
-- arguments of which the last two are positive, every `pthread_create` and `pthread_join` succeeds,
-- and every thread returns 0.
pub main-passed :
    (P : Pthread) (argc : ℕ) (num_threads niter stale : ℤ)
    → positive num_threads ≤ max_threads
    → (main P argc num_threads niter stale ≡ Report.passed) ↔ (
        (argc ≡ 3)
        × (0 < positive num_threads)
        × (0 < positive niter)
        × Good P (positive num_threads))
main-passed P argc num_threads niter stale fit =
    let (to, from) = main-passed_within P argc num_threads niter stale in
    (
      λ e.
          let (three, some_threads, _, some_rounds, good) = to e in
          (three, some_threads, some_rounds, good),
      λ (three, some_threads, some_rounds, good).
          from (three, some_threads, fit, some_rounds, good),
    )
