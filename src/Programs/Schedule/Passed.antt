-- ===== src/Programs/Schedule/Passed.antt =====
-- uthread.c passes under any schedule that lets its threads end.
use uprobe_tests.Base.{
  ℕ, zero, suc, ◌+◌, ◌*◌, ◌%◌, ◌≤◌, ◌<◌, ◌≡◌, ◌∙◌, ap, refl, not, is_zero, Bool, true, false,
  Option, some, List, All, arith, ℤ, pos, is_neg,
}
use uprobe_tests.Kernel.{Kernel}
use uprobe_tests.Slot.{Probed}
use uprobe_tests.Slot.Memory.{i386, cell_mod}
use uprobe_tests.Programs.Counted.{called_on}
use uprobe_tests.Programs.Schedule.{At, Thread, System, run}
use uprobe_tests.Programs.Schedule.Alone.{ahead}
use uprobe_tests.Programs.Schedule.Together.{SlotsHold, Stands, calls_ahead}
use uprobe_tests.Programs.Schedule.Sum.{sum, sum-const}
use uprobe_tests.Programs.Schedule.Run.{
  IsDisjoint, times, Survives, Survives-mono, start_with, start_with-Sound, run-Ran,
}
use uprobe_tests.Programs.Main.{Report, Pthread, main}
use uprobe_tests.Programs.Main.Passed.{main-passed}

ended :
    (total cnt : ℕ) (th : Thread) (p : At) (y : System)
    → ahead total cnt p ≡ 0
    → Stands total cnt th p y.shared.mem
    → (p ≡ At.finished (pos 0)) × SlotsHold th (called_on total cnt) y.shared.mem
ended total cnt th At.starting y e st = absurd (omega arith)
ended total cnt th (At.calling left ids error) y e st = absurd (omega arith)
ended total cnt th (At.finished v) y e (v_0, slots) = (ap At.finished v_0, slots)

-- A thread that has ended with an error.
abbrev pub has_failed : At → Bool
has_failed At.starting = false
has_failed (At.calling left ids error) = is_neg error
has_failed (At.finished v) = not (is_zero v)

not_failed :
    (total cnt : ℕ) (th : Thread) (p : At) (y : System)
    → Stands total cnt th p y.shared.mem
    → has_failed p ≡ false
not_failed total cnt th At.starting y st = refl
not_failed total cnt th (At.calling left ids error) y st = st.no_error
not_failed total cnt th (At.finished v) y (v_0, _) = rw v_0 refl

-- All calls made.
none_ahead :
    (total cnt n : ℕ) (at : ℕ → At)
    → ((i : ℕ) → i < n → ahead total cnt (at i) ≡ 0)
    → sum n (λ i. calls_ahead total cnt (at i)) ≡ 0
none_ahead total cnt zero at all = refl
none_ahead total cnt (suc n) at all = omega (
  arith,
  none_here (at n) (all n (omega arith)),
  none_ahead total cnt n at (λ i lt. all i (omega arith)),
)
  where
    none_here : (p : At) → ahead total cnt p ≡ 0 → calls_ahead total cnt p ≡ 0
    none_here At.starting e = absurd (omega arith)
    none_here (At.calling left ids error) e = absurd (omega arith)
    none_here (At.finished v) e = refl

module _ (K : Kernel) (total cnt n : ℕ) (threads : ℕ → Thread) (apart : IsDisjoint n threads)
    (fit : total ≤ 10) (few : cnt ≤ 2147483648) where
  -- On i386, with a probe on each of the at most ten functions that are called, no thread ever sees an
  -- error and the process goes on, under any schedule of `n` threads; the hits counted in the module,
  -- modulo 2 ^ 32, and the calls still to make add up to `cnt * total` for each thread. There are at
  -- most 2 ^ 31 rounds, the threads' ids have 32 bits, their tables do not overlap, and the stacks are
  -- outside the tables; a step is a call of a probe function.
  pub run-safe :
      (b : Probed) (schedule : List ℕ)
      → All (λ i. i < n) schedule
      → Survives
          (λ y.
            ((i : ℕ) → i < n → has_failed (y.at i) ≡ false)
            × ((hits : ℕ) × (hits + sum n (λ i. calls_ahead total cnt (y.at i)) ≡ n * (cnt * total))
                × (y.shared.world.num_probes % cell_mod ≡ (b.world.num_probes + hits) % cell_mod)))
          (run K i386 true total cnt threads schedule (start_with b))
  run-safe b schedule all =
      Survives-mono _ _ (run K i386 true total cnt threads schedule (start_with b))
        (run-Ran K total cnt n threads apart fit few b schedule (start_with b) all
          (start_with-Sound total cnt n threads b))
        (λ y r. (
          λ i lt. not_failed total cnt (threads i) (y.at i) y (r.sound.stands i lt),
          (r.sound.hits, r.sound.balance ∙ sum-const n (cnt * total), r.sound.counted),
        ))

  -- What all threads have reached in the end.
  pub record AllDone (b : Probed) (y : System) : Type 0 where
    pub results : (i : ℕ) → i < n → y.at i ≡ At.finished (pos 0)
    pub slots : (i : ℕ) → i < n → SlotsHold (threads i) (called_on total cnt) y.shared.mem
    pub counted :
        y.shared.world.num_probes % cell_mod ≡ (b.world.num_probes + n * (cnt * total)) % cell_mod

  -- On i386, with a probe on each of the at most ten functions that are called, any schedule of `n`
  -- threads that gives each of them at least `2 + cnt * (1 + total)` steps ends with every thread
  -- returning 0, every slot of a function that is called holding `cnt` calls, and `n * cnt * total`
  -- hits counted in the module, modulo 2 ^ 32. There are at most 2 ^ 31 rounds, the threads' ids have
  -- 32 bits, their tables do not overlap, and the stacks are outside the tables; a step is a call of a
  -- probe function.
  pub run-AllDone :
      (b : Probed) (schedule : List ℕ)
      → All (λ i. i < n) schedule
      → ((i : ℕ) → i < n → 2 + cnt * (1 + total) ≤ times i schedule)
      → Survives (AllDone b) (run K i386 true total cnt threads schedule (start_with b))
  run-AllDone b schedule all enough =
      Survives-mono _ _ (run K i386 true total cnt threads schedule (start_with b))
        (run-Ran K total cnt n threads apart fit few b schedule (start_with b) all
          (start_with-Sound total cnt n threads b))
        (λ y r.
          let done : (i : ℕ) → i < n → ahead total cnt (y.at i) ≡ 0 =
            λ i lt. omega (arith, r.closer i, enough i lt) in
          record {
            results = λ i lt.
                (ended total cnt (threads i) (y.at i) y (done i lt) (r.sound.stands i lt)).0;
            slots = λ i lt.
                (ended total cnt (threads i) (y.at i) y (done i lt) (r.sound.stands i lt)).1;
            counted =
                let no_more = none_ahead total cnt n y.at done in
                let all_hits : r.sound.hits ≡ n * (cnt * total) =
                  omega (arith, r.sound.balance, no_more, sum-const n (cnt * total)) in
                rw all_hits at r.sound.counted;
          })

Survives-some :
    (P : System → Type 0) (o : Option System) (y : System) → o ≡ some y → Survives P o → P y
Survives-some P o y e p = rw e at p

finished_ok :
    (total cnt : ℕ) (th : Thread) (p : At) (y : System) (v : ℤ)
    → p ≡ At.finished v
    → Stands total cnt th p y.shared.mem
    → v ≡ pos 0
finished_ok total cnt th p y v e st = (rw e at st).0

-- uthread.c as a whole: where the threads have run under a schedule and each has ended with the result
-- that `pthread_join` gives, and pthread starts and joins them, `main` reports a pass, and all calls
-- have been counted in the module. The conditions are those of the two theorems above, with the ten probe functions, 1 to 1000 threads and 1 to 2 ^ 31 rounds.
pub uthread-passes :
    (K : Kernel) (P : Pthread) (n cnt : ℕ) (stale : ℤ) (threads : ℕ → Thread) (b : Probed)
    (schedule : List ℕ) (y : System)
    → 0 < n
    → n ≤ 1000
    → 0 < cnt
    → cnt ≤ 2147483648
    → IsDisjoint n threads
    → All (λ i. i < n) schedule
    → run K i386 true 10 cnt threads schedule (start_with b) ≡ some y
    → ((i : ℕ) → i < n → y.at i ≡ At.finished (P.result i))
    → ((i : ℕ) → i < n → P.create i ≡ 0)
    → ((i : ℕ) → i < n → P.join i ≡ 0)
    → (main P 3 (pos n) (pos cnt) stale ≡ Report.passed)
      × (y.shared.world.num_probes % cell_mod ≡ (b.world.num_probes + n * (cnt * 10)) % cell_mod)
uthread-passes K P n cnt stale threads b schedule y some_threads fit some_rounds few apart all ran
      results created joined =
    let r = Survives-some _ _ y ran (
      run-Ran K 10 cnt n threads apart (omega arith) few b schedule (start_with b) all
        (start_with-Sound 10 cnt n threads b)) in
    let done : (i : ℕ) → i < n → ahead 10 cnt (y.at i) ≡ 0 =
      λ i lt. ap (ahead 10 cnt) (results i lt) in
    let no_more = none_ahead 10 cnt n y.at done in
    let all_hits : r.sound.hits ≡ n * (cnt * 10) =
      omega (arith, r.sound.balance, no_more, sum-const n (cnt * 10)) in
    (
      (main-passed P 3 (pos n) (pos cnt) stale fit).1 (
        refl,
        some_threads,
        some_rounds,
        record {
          created = created;
          joined = joined;
          returned_0 = λ i lt.
              finished_ok 10 cnt (threads i) (y.at i) y (P.result i) (results i lt)
                (r.sound.stands i lt);
        },
      ),
      rw all_hits at r.sound.counted,
    )
