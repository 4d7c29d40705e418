-- ===== src/Programs/Schedule/Alone.antt =====
-- The steps of a thread that has the process for itself are `thread_1`.
use uprobe_tests.Base.{
  ℕ, zero, suc, ◌+◌, ◌*◌, ◌≤◌, ◌≡◌, refl, Bool, false, Option, none, some, List, [], ◌∷◌, arith,
  length, ℤ, pos, is_neg,
}
use uprobe_tests.Kernel.{Kernel}
use uprobe_tests.Slot.{Probed}
use uprobe_tests.Slot.Memory.{Arch}
use uprobe_tests.Slot.User.{Outcome}
use uprobe_tests.Programs.{
  ids_from, bind, unless_neg, pass, with_table, call_id, round, rounds, thread_1,
}
use uprobe_tests.Programs.Schedule.{At, Thread, and_next, after_call, alone}

pub length-ids_from : (i n : ℕ) → length (ids_from i n) ≡ n
length-ids_from i zero = refl
length-ids_from i (suc n) = omega (arith, length-ids_from (suc i) n)

-- The end of a thread, seen from outside.
abbrev pub ending : Outcome → Option (At × Probed)
ending (Outcome.returned v s) = some (At.finished v, s)
ending (Outcome.exited _) = none
ending Outcome.fault = none
ending Outcome.oops = none

-- The last result is an error only at the end.
abbrev pub IsGoing : At → Type 0
IsGoing At.starting = Unit
IsGoing (At.calling left ids error) = is_neg error ≡ false
IsGoing (At.finished v) = Unit

-- Steps to the end.
abbrev pub ahead : (total cnt : ℕ) → At → ℕ
ahead total cnt At.starting = 2 + cnt * (1 + total)
ahead total cnt (At.calling left ids error) = 1 + length ids + left * (1 + total)
ahead total cnt (At.finished v) = 0

module _ (K : Kernel) (a : Arch) (registered : Bool) (total cnt : ℕ) (th : Thread) where
  -- What is left of `thread_1`.
  abbrev rest : At → Probed → Outcome
  rest At.starting s = thread_1 K a registered th.tid th.sp th.table (ids_from 0 total) cnt s
  rest (At.calling left ids error) s =
      bind
        (bind (round K a registered th.tid th.sp th.table ids error s)
          (unless_neg (rounds K a registered th.tid th.sp th.table left (ids_from 0 total))))
        (unless_neg pass)
  rest (At.finished v) s = Outcome.returned v s

  alone-finished :
      (n : ℕ) (v : ℤ) (s : Probed)
      → alone K a registered total cnt n th (At.finished v) s ≡ some (At.finished v, s)
  unfolding alone
  alone-finished zero v s = refl
  alone-finished (suc n) v s = alone-finished n v s

  alone-after_call :
      (n left : ℕ) (ids : List ℕ) (o : Outcome)
      → ((error : ℤ) (s : Probed)
          → is_neg error ≡ false
          → alone K a registered total cnt n th (At.calling left ids error) s
            ≡ ending (rest (At.calling left ids error) s))
      → and_next
          (after_call K a registered total cnt left ids o)
          (λ (p, s). alone K a registered total cnt n th p s)
        ≡ ending (
            bind
              (bind
                (bind o (unless_neg (round K a registered th.tid th.sp th.table ids)))
                (unless_neg (rounds K a registered th.tid th.sp th.table left (ids_from 0 total))))
              (unless_neg pass))
  alone-after_call n left ids (Outcome.returned (pos k) s) later = later (pos k) s refl
  alone-after_call n left ids (Outcome.returned (ℤ.negsuc k) s) later =
      alone-finished n (ℤ.negsuc k) s
  alone-after_call n left ids (Outcome.exited _) later = refl
  alone-after_call n left ids Outcome.fault later = refl
  alone-after_call n left ids Outcome.oops later = refl

  alone-rest :
      (n : ℕ) (p : At) (s : Probed)
      → ahead total cnt p ≤ n
      → IsGoing p
      → alone K a registered total cnt n th p s ≡ ending (rest p s)
  unfolding alone thread_1 round
  alone-rest n (At.finished v) s le g = alone-finished n v s
  alone-rest zero At.starting s le g = absurd (omega arith)
  alone-rest zero (At.calling left ids error) s le g = absurd (omega arith)
  alone-rest (suc n) At.starting s le g =
      alone-rest n (At.calling cnt [] (pos 0)) (with_table K a registered th.tid th.sp th.table s)
        (omega arith) refl
  alone-rest (suc n) (At.calling left [] (ℤ.negsuc k)) s le g = absurd (ground (arith, g))
  alone-rest (suc n) (At.calling zero [] (pos k)) s le g = alone-finished n (pos 0) s
  alone-rest (suc n) (At.calling (suc left) [] (pos k)) s le g =
      let len = length-ids_from 0 total in
      let shorter : ahead total cnt (At.calling left (ids_from 0 total) (pos k)) ≤ n =
        grind (arith, len) in
      alone-rest n (At.calling left (ids_from 0 total) (pos k)) s shorter refl
  alone-rest (suc n) (At.calling left (id ∷ ids) error) s le g =
      alone-after_call n left ids (call_id K a registered th.tid th.sp th.table id s)
        (λ e t good. alone-rest n (At.calling left ids e) t (omega arith) good)

  -- A thread of uthread.c that has the process for itself, given at least
  -- `2 + cnt * (1 + total)` steps, ends as `thread_1` with calls of the first `total` functions in
  -- each of `cnt` rounds: with its result and in its state, or with the end of the process.
  pub alone-thread_1 :
      (n : ℕ) (s : Probed)
      → 2 + cnt * (1 + total) ≤ n
      → alone K a registered total cnt n th At.starting s
        ≡ ending (thread_1 K a registered th.tid th.sp th.table (ids_from 0 total) cnt s)
  alone-thread_1 n s le = alone-rest n At.starting s le tt
