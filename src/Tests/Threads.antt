-- ===== src/Tests/Threads.antt =====
-- Concrete runs of the user programs.
use uprobe_tests.Base.{
  ℕ, zero, suc, ◌+◌, ◌*◌, ◌%◌, ◌≤◌, ◌<◌, ◌≡◌, ◌↔◌, refl, inl, true, false, Option, none, some, List,
  [], ◌∷◌, All, arith, ℤ, pos,
}
use uprobe_tests.Slot.{Probed}
use uprobe_tests.Slot.Memory.{i386, cell_mod}
use uprobe_tests.Slot.User.{Outcome}
use uprobe_tests.Slot.Counts.{Ends}
use uprobe_tests.Programs.{fork_thread}
use uprobe_tests.Programs.Tally.{Tally}
use uprobe_tests.Programs.Counted.{called_on, unreg_thread_1-passes}
use uprobe_tests.Programs.Uncounted.{unreg_thread_2-passes}
use uprobe_tests.Programs.Forked.{verdict, child_hits, fork_thread-verdict}
use uprobe_tests.Programs.Schedule.{Thread, System, run}
use uprobe_tests.Programs.Schedule.Together.{calls_ahead}
use uprobe_tests.Programs.Schedule.Sum.{sum}
use uprobe_tests.Programs.Schedule.Run.{IsDisjoint, times, Survives, start_with}
use uprobe_tests.Programs.Schedule.Passed.{AllDone, has_failed, run-safe, run-AllDone}
use uprobe_tests.Programs.Main.{Pthread, Report, main, unreg_main, positive}
use uprobe_tests.Programs.Main.Passed.{Good, main-passed}
use uprobe_tests.Programs.Unreg.{Place, Gives, counted_thread, uncounted_thread, unreg-passes}
use uprobe_tests.Tests.{kernel, start}

-- Nothing is mapped but what is stored.
abbrev fresh : Probed
fresh = record { mem = λ q. none; world = start }

abbrev pub threads : ℕ → Thread
threads i = record { tid = 7 + i; sp = 10 + i; table = 100 + 100 * i }

pub threads-IsDisjoint : IsDisjoint 2 threads
threads-IsDisjoint = record {
  small = λ i lt. omega arith;
  stacks = λ i j lt j_lt. inl (omega arith);
  tables = λ i j lt j_lt differ. ground (arith, differ);
}

-- Both start, the second runs on to its end, and then the first.
abbrev pub again : (n i : ℕ) → List ℕ → List ℕ
again zero i rest = rest
again (suc n) i rest = i ∷ again n i rest

again-All :
    (n i : ℕ) (rest : List ℕ) → i < 2 → All (λ i. i < 2) rest → All (λ i. i < 2) (again n i rest)
again-All zero i rest lt all = all
again-All (suc n) i rest lt all = (lt, again-All n i rest lt all)

abbrev pub schedule : List ℕ
schedule = 0 ∷ again 13 1 (again 12 0 [])

pub schedule-All : All (λ i. i < 2) schedule
schedule-All =
    (omega arith, again-All 13 1 (again 12 0 []) (omega arith) (again-All 12 0 [] (omega arith) tt))

pub enough : (i : ℕ) → i < 2 → 2 + 1 * (1 + 10) ≤ times i schedule
enough zero lt = omega arith
enough (suc zero) lt = omega arith
enough (suc (suc i)) lt = absurd (omega arith)

run-AllDone_example :
    Survives
      (AllDone kernel 10 1 2 threads threads-IsDisjoint (omega arith) (omega arith) fresh)
      (run kernel i386 true 10 1 threads schedule (start_with fresh))
run-AllDone_example =
    run-AllDone kernel 10 1 2 threads threads-IsDisjoint (omega arith) (omega arith) fresh schedule
      schedule-All enough

run-safe_example :
    Survives
      (λ y.
        ((i : ℕ) → i < 2 → has_failed (y.at i) ≡ false)
        × ((hits : ℕ) × (hits + sum 2 (λ i. calls_ahead 10 1 (y.at i)) ≡ 2 * (1 * 10))
            × (y.shared.world.num_probes % cell_mod ≡ (fresh.world.num_probes + hits) % cell_mod)))
      (run kernel i386 true 10 1 threads (0 ∷ 1 ∷ 0 ∷ 1 ∷ 1 ∷ []) (start_with fresh))
run-safe_example =
    run-safe kernel 10 1 2 threads threads-IsDisjoint (omega arith) (omega arith) fresh
      (0 ∷ 1 ∷ 0 ∷ 1 ∷ 1 ∷ [])
      (omega arith, (omega arith, (omega arith, (omega arith, (omega arith, tt)))))

system_of :
    (P : System → Type 0) (o : Option System) → Survives P o → (y : System) × ((o ≡ some y) × P y)
system_of P none p = absurd p
system_of P (some y) p = (y, (refl, p))

abbrev pub all_fine : Pthread
all_fine = record { create = λ i. 0; join = λ i. 0; result = λ i. pos 0 }

abbrev argc : ℕ
argc = 3

main-passed_example : (main all_fine argc (pos 2) (pos 1) (pos 9) ≡ Report.passed) ↔ (
    (argc ≡ 3) × (0 < positive (pos 2)) × (0 < positive (pos 1)) × Good all_fine (positive (pos 2)))
main-passed_example = main-passed all_fine argc (pos 2) (pos 1) (pos 9) (omega arith)

fork_thread-verdict_example :
    Ends
      (λ v t.
        (v ≡ verdict true 3)
        × Tally 10 100 7 (called_on 1 (3 + 3)) (3 + 3 + child_hits true 3) fresh t)
      (fork_thread kernel i386 true true 7 8 10 100 3 fresh)
fork_thread-verdict_example =
    fork_thread-verdict kernel 7 8 10 100 (omega arith) (omega arith) (inl (omega arith)) true 3
      fresh (omega arith)

abbrev place : ℕ → Place
place i = record {
  tid = 7 + i % 2;
  sp = 10;
  table = 100 + 100 * (i % 2);
  found = fresh;
  small = omega arith;
  apart = inl (omega arith);
}

outcome_of :
    (Q : ℤ → Probed → Type 0) (o : Outcome)
    → Ends (λ v t. (v ≡ pos 0) × Q v t) o
    → (t : Probed) × (o ≡ Outcome.returned (pos 0) t)
outcome_of Q (Outcome.returned v t) (e, _) = (t, rw e refl)
outcome_of Q (Outcome.exited _) p = absurd p
outcome_of Q Outcome.fault p = absurd p
outcome_of Q Outcome.oops p = absurd p

counted_end :
    (i : ℕ) → (t : Probed) × (counted_thread kernel (place i) ≡ Outcome.returned (pos 0) t)
counted_end i =
    let x = place i in
    outcome_of _ _ (unreg_thread_1-passes kernel x.tid x.sp x.table x.small x.apart x.found)

uncounted_end :
    (i : ℕ) → (t : Probed) × (uncounted_thread kernel false (place i) ≡ Outcome.returned (pos 0) t)
uncounted_end i =
    let x = place i in
    outcome_of _ _ (unreg_thread_2-passes kernel x.tid x.sp x.table x.small x.apart x.found)

counted_ends : Gives 2 all_fine (counted_thread kernel) place
counted_ends = record {
  created = λ i lt. refl;
  joined = λ i lt. refl;
  left = λ i. (counted_end i).0;
  result = λ i lt. (counted_end i).1;
}

uncounted_ends : Gives 2 all_fine (uncounted_thread kernel false) place
uncounted_ends = record {
  created = λ i lt. refl;
  joined = λ i lt. refl;
  left = λ i. (uncounted_end i).0;
  result = λ i lt. (uncounted_end i).1;
}

unreg-passes_example :
    unreg_main (λ j. all_fine) (λ j. all_fine) 3 (pos 2) (pos 5) (pos 9) ≡ Report.passed
unreg-passes_example =
    unreg-passes kernel (λ j. all_fine) (λ j. all_fine) 2 5 (pos 9) (λ j. place) (λ j. place)
      (λ j. false) (omega arith) (omega arith) (omega arith) (λ j lt. counted_ends)
      (λ j lt. uncounted_ends)
