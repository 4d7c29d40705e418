-- ===== src/Programs/Main/Unreg.antt =====
-- When unreg.c reports a pass, and what too many threads do.
use uprobe_tests.Base.{
  ℕ, zero, suc, ◌+◌, ◌≤◌, ◌<◌, ◌≡◌, ◌↔◌, inl, inr, refl, true, ◌==◌, ltb, arith, if◌then◌else◌, ℤ,
  pos, Bool-cases,
}
use uprobe_tests.Programs.Main.{
  max_threads, Failure, Report, Pthread, Part, then_part, or_report, create_from, gather,
  all_passed, positive, main, half, unreg_rounds, unreg_main,
}
use uprobe_tests.Programs.Main.Passed.{Good, passes, given, gather_ok, gather_inv}

-- Both halves of a round pass.
pub record GoodRound (P Q : ℕ → Pthread) (n j : ℕ) : Type 0 where
  pub seen : Good (P j) n
  pub not_seen : Good (Q j) n

abbrev judged : (n : ℕ) → Part (ℕ × ℤ) → Part ℤ
judged n p =
    then_part p (λ stopped.
      if all_passed n stopped then Part.goes_on stopped.1 else Part.ended Failure.failed)

judged-passes : (n : ℕ) (p : Part (ℕ × ℤ)) (r : ℤ) → judged n p ≡ Part.goes_on r → passes n p ≡ true
judged-passes n (Part.ended f) r e = absurd (ground (arith, e))
judged-passes n (Part.goes_on stopped) r e = elim (Bool-cases (all_passed n stopped)) [
  | inl good ↦ good
  | inr bad ↦ absurd (ground (arith, bad, e))
]

module _ (P Q : ℕ → Pthread) (n : ℕ) where
  half_ok :
      (R : Pthread) (stale : ℤ)
      → 0 < n
      → n ≤ max_threads
      → Good R n
      → half P Q R n stale ≡ Part.goes_on (pos 0)
  half_ok R stale some_threads fit good =
      rw (gather_ok R n stale some_threads fit good) (ground arith)

  half_inv :
      (R : Pthread) (stale r : ℤ)
      → half P Q R n stale ≡ Part.goes_on r
      → (n ≤ max_threads) × Good R n
  half_inv R stale r e = gather_inv R n stale (judged-passes n (gather R n stale) r e)

  unreg_rounds_ok :
      (left j : ℕ) (stale : ℤ)
      → 0 < n
      → n ≤ max_threads
      → ((k : ℕ) → j ≤ k → k < j + left → GoodRound P Q n k)
      → unreg_rounds P Q left j n stale ≡ Report.passed
  unfolding unreg_rounds
  unreg_rounds_ok zero j stale some_threads fit all = refl
  unreg_rounds_ok (suc left) j stale some_threads fit all =
      let g = all j (omega arith) (omega arith) in
      rw
        (
          half_ok (P j) stale some_threads fit g.seen,
          half_ok (Q j) (pos 0) some_threads fit g.not_seen,
        )
        (unreg_rounds_ok left (suc j) (pos 0) some_threads fit
          (λ k lo hi. all k (omega arith) (omega arith)))

  second_passed :
      (j : ℕ) (stale r : ℤ) (q : Part ℤ) (f : ℤ → Report)
      → half P Q (P j) n stale ≡ Part.goes_on r
      → half P Q (Q j) n r ≡ q
      → or_report q f ≡ Report.passed
      → (r2 : ℤ) × ((n ≤ max_threads) × GoodRound P Q n j) × (f r2 ≡ Report.passed)
  second_passed j stale r (Part.ended _) f p_e q_e e = absurd (ground (arith, e))
  second_passed j stale r (Part.goes_on r2) f p_e q_e e =
      let (fit, seen) = half_inv (P j) stale r p_e in
      let (_, not_seen) = half_inv (Q j) r r2 q_e in
      (r2, (fit, record { seen = seen; not_seen = not_seen }), e)

  round_passed :
      (j : ℕ) (stale : ℤ) (p : Part ℤ) (f : ℤ → Report)
      → half P Q (P j) n stale ≡ p
      → or_report (then_part p (half P Q (Q j) n)) f ≡ Report.passed
      → (r2 : ℤ) × ((n ≤ max_threads) × GoodRound P Q n j) × (f r2 ≡ Report.passed)
  round_passed j stale (Part.ended _) f p_e e = absurd (ground (arith, e))
  round_passed j stale (Part.goes_on r) f p_e e =
      second_passed j stale r (half P Q (Q j) n r) f p_e refl e

  unreg_rounds_inv :
      (left j : ℕ) (stale : ℤ)
      → unreg_rounds P Q left j n stale ≡ Report.passed
      → (k : ℕ) → j ≤ k
      → k < j + left
      → (n ≤ max_threads) × GoodRound P Q n k
  unfolding unreg_rounds
  unreg_rounds_inv zero j stale e k lo hi = absurd (omega arith)
  unreg_rounds_inv (suc left) j stale e k lo hi =
      let (r2, first, rest) =
        round_passed j stale (half P Q (P j) n stale) (unreg_rounds P Q left (suc j) n) refl e in
      elim (Bool-cases (k == j)) [
        | inl here ↦ let k_j : k ≡ j = ground (arith, here) in rw k_j first
        | inr later ↦
            unreg_rounds_inv left (suc j) r2 rest k (ground (arith, later, lo)) (omega arith)
      ]

-- `main` of unreg.c reports a pass exactly if it has three arguments of which the last two are
-- positive, the number of threads is at most 1000, and in each round every `pthread_create` and
-- `pthread_join` succeeds and every thread returns 0, of those that must see the probes and of those
-- that must not.
pub unreg_main-passed :
    (P Q : ℕ → Pthread) (argc : ℕ) (num_threads niter stale : ℤ)
    → (unreg_main P Q argc num_threads niter stale ≡ Report.passed) ↔ (
        (argc ≡ 3)
        × (0 < positive num_threads)
        × (positive num_threads ≤ max_threads)
        × (0 < positive niter)
        × ((j : ℕ) → j < positive niter → GoodRound P Q (positive num_threads) j))
unfolding unreg_main
unreg_main-passed P Q argc num_threads niter stale = (to, from)
  where
    n : ℕ
    n = positive num_threads

    to :
        unreg_main P Q argc num_threads niter stale ≡ Report.passed
        → (argc ≡ 3)
          × (0 < n)
          × (n ≤ max_threads)
          × (0 < positive niter)
          × ((j : ℕ) → j < positive niter → GoodRound P Q n j)
    to e = elim (Bool-cases (given argc num_threads niter)) [
      | inr bad ↦ absurd (ground (arith, bad, e))
      | inl fine ↦
          let ran : unreg_rounds P Q (positive niter) 0 n stale ≡ Report.passed =
            ground (arith, fine, e) in
          let all = unreg_rounds_inv P Q n (positive niter) 0 stale ran in
          (
            ground (arith, fine),
            ground (arith, fine),
            (all 0 (omega arith) (ground (arith, fine))).0,
            ground (arith, fine),
            λ j lt. (all j (omega arith) (omega arith)).1,
          )
    ]

    from :
        (argc ≡ 3)
          × (0 < n)
          × (n ≤ max_threads)
          × (0 < positive niter)
          × ((j : ℕ) → j < positive niter → GoodRound P Q n j)
        → unreg_main P Q argc num_threads niter stale ≡ Report.passed
    from (three, some_threads, fit, some_rounds, all) =
        let fine : given argc num_threads niter ≡ true =
          ground (arith, three, some_threads, some_rounds) in
        let ran : unreg_rounds P Q (positive niter) 0 n stale ≡ Report.passed =
          unreg_rounds_ok P Q n (positive niter) 0 stale some_threads fit
            (λ k lo hi. all k (omega arith)) in
        ground (arith, fine, ran)

create_from_over :
    (P : Pthread) (left i : ℕ)
    → i ≤ max_threads
    → max_threads < i + left
    → ((k : ℕ) → k < max_threads → P.create k ≡ 0)
    → create_from P left i ≡ Part.ended Failure.overrun
unfolding create_from
create_from_over P zero i le over all = absurd (omega arith)
create_from_over P (suc left) i le over all = elim (Bool-cases (ltb i 1000)) [
  | inr done ↦ ground (arith, done)
  | inl more ↦
      let here : P.create i ≡ 0 = all i (ground (arith, more)) in
      rw (more, here) (create_from_over P left (suc i) (ground (arith, more)) (omega arith) all)
]

-- With more than 1000 threads to start and the first 1000 started, `main` stores the next one behind
-- its array of 1000: the number is not checked.
pub main-overrun :
    (P : Pthread) (n : ℕ) (niter : ℕ) (stale : ℤ)
    → max_threads < n
    → ((k : ℕ) → k < max_threads → P.create k ≡ 0)
    → main P 3 (pos n) (pos (suc niter)) stale ≡ Report.failure Failure.overrun
unfolding main gather
main-overrun P n niter stale over all =
    let fine : given 3 (pos n) (pos (suc niter)) ≡ true = ground (arith, over) in
    let ran : create_from P n 0 ≡ Part.ended Failure.overrun =
      create_from_over P n 0 (omega arith) (omega arith) all in
    rw (fine, ran) refl
