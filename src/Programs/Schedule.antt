-- ===== src/Programs/Schedule.antt =====
-- `thread_1` of uthread.c as steps that the threads of the process take in any order. One step is a
-- call of a probe function, with the handler; the threads share the memory and the module.
pub mod Sum
pub mod Alone
pub mod Together
pub mod Run
pub mod Passed
use uprobe_tests.Base.{
  ℕ, zero, suc, ◌+◌, ◌*◌, Bool, true, false, Option, none, some, List, [], ◌∷◌, ◌==◌, if◌then◌else◌,
  ℤ, pos, is_neg,
}
use uprobe_tests.Kernel.{Kernel}
use uprobe_tests.Slot.{Probed}
use uprobe_tests.Slot.Memory.{Arch}
use uprobe_tests.Slot.User.{Outcome}
use uprobe_tests.Programs.{ids_from, with_table, call_id}

-- Where a thread is: before it builds its table, in its loop with `left` rounds to start and the calls
-- `ids` to make in this one, or at its end with a result.
pub data At : Type 0 where
  starting : At
  calling : (left : ℕ) → (ids : List ℕ) → (error : ℤ) → At
  finished : ℤ → At

-- What a thread has of its own: its id, its stack and the block that `calloc` gives it.
pub record Thread : Type 0 where
  pub tid : ℕ
  pub sp : ℕ
  pub table : ℕ

pub record System : Type 0 where
  pub at : ℕ → At
  pub shared : Probed

abbrev pub and_next : {A B : Type 0} → Option A → (A → Option B) → Option B
and_next none f = none
and_next (some x) f = f x

module _ (K : Kernel) (a : Arch) (registered : Bool) (total cnt : ℕ) where
  -- After a call; `none` is the end of the process.
  abbrev pub after_call : (left : ℕ) → List ℕ → Outcome → Option (At × Probed)
  after_call left ids (Outcome.returned error s) =
      some (if is_neg error then At.finished error else At.calling left ids error, s)
  after_call left ids (Outcome.exited _) = none
  after_call left ids Outcome.fault = none
  after_call left ids Outcome.oops = none

  unfoldable pub advance : Thread → At → Probed → Option (At × Probed)
  advance th At.starting s =
      some (At.calling cnt [] (pos 0), with_table K a registered th.tid th.sp th.table s)
  advance th (At.calling zero [] error) s = some (At.finished (pos 0), s)
  advance th (At.calling (suc left) [] error) s = some (At.calling left (ids_from 0 total) error, s)
  advance th (At.calling left (id ∷ ids) error) s =
      after_call left ids (call_id K a registered th.tid th.sp th.table id s)
  advance th (At.finished v) s = some (At.finished v, s)

  -- A thread that has the process for itself.
  unfoldable pub alone : (steps : ℕ) → Thread → At → Probed → Option (At × Probed)
  unfolding advance
  alone zero th p s = some (p, s)
  alone (suc n) th p s = and_next (advance th p s) (λ (p1, s1). alone n th p1 s1)

  abbrev pub put_back : System → (i : ℕ) → Option (At × Probed) → Option System
  put_back y i none = none
  put_back y i (some (p, s)) = some (record { at = λ j. if j == i then p else y.at j; shared = s })

  -- Thread `i` takes a step.
  unfoldable pub step : (ℕ → Thread) → (i : ℕ) → System → Option System
  unfolding advance
  step threads i y = put_back y i (advance (threads i) (y.at i) y.shared)

  unfoldable pub run : (ℕ → Thread) → (schedule : List ℕ) → System → Option System
  unfolding step
  run threads [] y = some y
  run threads (i ∷ schedule) y = and_next (step threads i y) (run threads schedule)
