-- ===== src/Programs/Unreg.antt =====
-- unreg.c as a whole on i386: its threads return what `main` wants of them.
use uprobe_tests.Base.{arith, Bool, ℕ, ◌≤◌, ◌<◌, ◌≡◌, refl, true, false, ℤ, pos}
use uprobe_tests.Kernel.{Kernel}
use uprobe_tests.Slot.{Probed}
use uprobe_tests.Slot.Memory.{i386, cell_mod}
use uprobe_tests.Slot.User.{Outcome}
use uprobe_tests.Slot.Counts.{Ends, Ends-mono}
use uprobe_tests.Programs.{call_id, all_uncounted, unreg_thread_1, unreg_thread_2}
use uprobe_tests.Programs.Tally.{StackApart, call_id-Tally}
use uprobe_tests.Programs.Counted.{Ends-bind, after, with_table-Tally, unreg_thread_1-passes}
use uprobe_tests.Programs.Uncounted.{unreg_thread_2-passes}
use uprobe_tests.Programs.Main.{Report, Pthread, unreg_main}
use uprobe_tests.Programs.Main.Passed.{Good}
use uprobe_tests.Programs.Main.Unreg.{unreg_main-passed}

-- A thread of the program: its id, its stack, its table, and the memory and the module as it finds them.
pub record Place : Type 0 where
  pub tid : ℕ
  pub sp : ℕ
  pub table : ℕ
  pub found : Probed
  pub small : tid < cell_mod
  pub apart : StackApart sp table

-- pthread starts and joins `n` threads, and gives for each the result of its run.
pub record Gives (n : ℕ) (P : Pthread) (thread : Place → Outcome) (places : ℕ → Place)
    : Type 0 where
  pub created : (i : ℕ) → i < n → P.create i ≡ 0
  pub joined : (i : ℕ) → i < n → P.join i ≡ 0
  pub left : ℕ → Probed
  pub result : (i : ℕ) → i < n → thread (places i) ≡ Outcome.returned (P.result i) (left i)

Gives-Good :
    (Q : Place → ℤ → Probed → Type 0) (n : ℕ) (P : Pthread) (thread : Place → Outcome)
    (places : ℕ → Place)
    → ((x : Place) → Ends (λ v t. (v ≡ pos 0) × Q x v t) (thread x))
    → Gives n P thread places
    → Good P n
Gives-Good Q n P thread places passes g = record {
  created = g.created;
  joined = g.joined;
  returned_0 = λ i lt. (rw (g.result i lt) at (passes (places i))).0;
}

abbrev pub counted_thread : Kernel → Place → Outcome
counted_thread K x = unreg_thread_1 K i386 true x.tid x.sp x.table x.found

-- The second thread, whether or not the probes are still registered.
abbrev pub uncounted_thread : Kernel → (registered : Bool) → Place → Outcome
uncounted_thread K registered x = unreg_thread_2 K i386 registered x.tid x.sp x.table x.found

-- With the probes still registered the first call gives 0, which is not -1, and so the thread returns 0.
second_thread_blind :
    (K : Kernel) (registered : Bool) (x : Place)
    → Ends (λ v t. (v ≡ pos 0) × Unit {0}) (uncounted_thread K registered x)
unfolding unreg_thread_2 all_uncounted
second_thread_blind K false x =
    Ends-mono _ _ (uncounted_thread K false x)
      (unreg_thread_2-passes K x.tid x.sp x.table x.small x.apart x.found) (λ v t (e, _). (e, tt))
second_thread_blind K true x =
    Ends-bind _ _ (call_id K i386 true x.tid x.sp x.table 0 _) _
      (call_id-Tally K x.tid x.sp x.table x.small x.apart 0 (after 1 0) (after 1 1) 0 x.found _
        (omega arith) (omega arith) refl (λ j differ. ground (arith, differ))
        (with_table-Tally K x.tid x.sp x.table x.small x.apart 1 x.found))
      (λ v t (e, y). rw e (refl, tt))

-- If the module registers its probes for the first half of each round, and pthread starts and joins
-- the threads and gives their results, then unreg.c passes on i386, for 1 to 1000 threads and any
-- number of rounds above 0, whether or not the probes are taken back for the second half: the threads
-- that must not see them return 0 in both cases. Each thread runs with its own table, with its stack
-- outside of it and an id of 32 bits, from any memory and any state of the module.
pub unreg-passes :
    (K : Kernel) (P Q : ℕ → Pthread) (n niter : ℕ) (stale : ℤ) (first second : ℕ → ℕ → Place)
    (still_registered : ℕ → Bool)
    → 0 < n
    → n ≤ 1000
    → 0 < niter
    → ((j : ℕ) → j < niter → Gives n (P j) (counted_thread K) (first j))
    → ((j : ℕ) → j < niter → Gives n (Q j) (uncounted_thread K (still_registered j)) (second j))
    → unreg_main P Q 3 (pos n) (pos niter) stale ≡ Report.passed
unreg-passes K P Q n niter stale first second still_registered some_threads fit some_rounds seen
      not_seen =
    (unreg_main-passed P Q 3 (pos n) (pos niter) stale).1 (
      refl,
      some_threads,
      fit,
      some_rounds,
      λ j lt. record {
        seen =
            Gives-Good _ n (P j) (counted_thread K) (first j)
              (λ x. unreg_thread_1-passes K x.tid x.sp x.table x.small x.apart x.found) (seen j lt);
        not_seen =
            Gives-Good _ n (Q j) (uncounted_thread K (still_registered j)) (second j)
              (second_thread_blind K (still_registered j)) (not_seen j lt);
      },
    )
