-- ===== src/Programs/Main.antt =====
-- `main` of the user programs of uprobes.w, as a function of what pthread answers and what the threads
-- return, on i386: there the `void *` that `pthread_join` stores through `(void **)&results` has the four
-- bytes of `results`.
pub mod Passed
pub mod Unreg
pub mod Last
use uprobe_tests.Base.{
  ℕ, zero, suc, ◌+◌, ◌-◌, ◌≤◌, ◌<◌, ◌≡◌, ◌⊎◌, ◌↔◌, inl, inr, refl, Bool, true, false, ◌&&◌, ◌==◌,
  ltb, arith, if◌then◌else◌, ℤ, pos, is_zero, Bool-cases, is_neg,
}

abbrev pub max_threads : ℕ
max_threads = 1000

-- `overrun` marks a store behind `thread[MAX_THREADS]`, which the code does not prevent: what follows is
-- undefined in C, and the model stops. The others are `report_test_fail` and `report_fail`.
pub data Failure : Type 0 where
  overrun test_failed failed : Failure

-- How `main` ends: by the usage message, by a failure or by `report_pass`.
pub data Report : Type 0 where
  usage : Report
  failure : Failure → Report
  passed : Report

-- What `pthread_create` and `pthread_join` return for thread `i`, and what the thread returned.
pub record Pthread : Type 0 where
  pub create : ℕ → ℕ
  pub join : ℕ → ℕ
  pub result : ℕ → ℤ

-- What a part of `main` gives: a failure that ends the program, or what the next part reads.
pub data Part (A : Type 0) : Type 0 where
  ended : Failure → Part A
  goes_on : A → Part A

abbrev pub then_part : {A B : Type 0} → Part A → (A → Part B) → Part B
then_part (Part.ended r) f = Part.ended r
then_part (Part.goes_on x) f = f x

abbrev pub or_report : {A : Type 0} → Part A → (A → Report) → Report
or_report (Part.ended r) f = Report.failure r
or_report (Part.goes_on x) f = f x

module _ (P : Pthread) where
  -- The loop that starts the threads, at `i` with `left` to go. The code has no test of `i`: the one here
  -- is that of the store into `thread[i]`.
  unfoldable pub create_from : (left i : ℕ) → Part Unit
  create_from zero i = Part.goes_on tt
  create_from (suc left) i =
      if ltb i max_threads
      then (if P.create i == 0 then create_from left (suc i) else Part.ended Failure.test_failed)
      else Part.ended Failure.overrun

  -- The loop that joins them: where it stops, and `results` there.
  unfoldable pub join_from : (left i : ℕ) → (results : ℤ) → Part (ℕ × ℤ)
  join_from zero i results = Part.goes_on (i, results)
  join_from (suc left) i results =
      if P.join i == 0
      then (if is_zero (P.result i)
          then join_from left (suc i) (P.result i)
          else Part.goes_on (i, P.result i))
      else Part.ended Failure.test_failed

  -- Starts `n` threads and gathers them around; `results` holds `stale` before.
  unfoldable pub gather : (n : ℕ) → (stale : ℤ) → Part (ℕ × ℤ)
  unfolding create_from join_from
  gather n stale = then_part (create_from n 0) (λ _. join_from n 0 stale)

  -- Where the last thread runs another function, it is started after the loop.
  unfoldable pub gather_with_last : (n : ℕ) → (stale : ℤ) → Part (ℕ × ℤ)
  unfolding create_from join_from
  gather_with_last n stale =
      then_part (create_from (n - 1) 0)
        (λ _. then_part (create_from 1 (n - 1)) (λ _. join_from n 0 stale))

-- `i == num_threads && results == 0`.
abbrev pub all_passed : (n : ℕ) → ℕ × ℤ → Bool
all_passed n stopped = stopped.0 == n && is_zero stopped.1

abbrev pub report : (n : ℕ) → ℕ × ℤ → Report
report n stopped = if all_passed n stopped then Report.passed else Report.failure Failure.failed

-- What `atoi` gives for an argument, where it must be positive.
abbrev pub positive : ℤ → ℕ
positive (pos n) = n
positive (ℤ.negsuc _) = 0

-- `main` of uthread.c, fork_thread.c and fork_and_defunc.c, with the arguments as `atoi` reads them.
unfoldable pub main : Pthread → (argc : ℕ) → (num_threads niter : ℤ) → (stale : ℤ) → Report
unfolding gather
main P argc num_threads niter stale =
    if argc == 3 && ltb 0 (positive num_threads) && ltb 0 (positive niter)
    then or_report (gather P (positive num_threads) stale) (report (positive num_threads))
    else Report.usage

-- `main` of tdie.c, texec.c and suicide.c.
unfoldable pub main_with_last :
    Pthread → (argc : ℕ) → (num_threads niter : ℤ) → (stale : ℤ) → Report
unfolding gather_with_last
main_with_last P argc num_threads niter stale =
    if argc == 3 && ltb 0 (positive num_threads) && ltb 0 (positive niter)
    then or_report (gather_with_last P (positive num_threads) stale) (report (positive num_threads))
    else Report.usage

-- unreg.c: in each round first the threads that must see the probes, then those that must not. `P j`
-- answers in round `j` for the first, `Q j` for the second.
module _ (P Q : ℕ → Pthread) where
  abbrev pub half : Pthread → ℕ → ℤ → Part ℤ
  half R n stale = then_part (gather R n stale) (λ stopped.
      if all_passed n stopped then Part.goes_on stopped.1 else Part.ended Failure.failed)

  unfoldable pub unreg_rounds : (left j n : ℕ) → (stale : ℤ) → Report
  unfolding gather
  unreg_rounds zero j n stale = Report.passed
  unreg_rounds (suc left) j n stale =
      or_report (then_part (half (P j) n stale) (half (Q j) n)) (unreg_rounds left (suc j) n)

  unfoldable pub unreg_main : (argc : ℕ) → (num_threads niter : ℤ) → (stale : ℤ) → Report
  unfolding unreg_rounds
  unreg_main argc num_threads niter stale =
      if argc == 3 && ltb 0 (positive num_threads) && ltb 0 (positive niter)
      then unreg_rounds (positive niter) 0 (positive num_threads) stale
      else Report.usage
