-- ===== src/Programs.antt =====
-- The user programs of uprobes.w: uthread.c, tdie.c, texec.c, suicide.c, unreg.c, fork_thread.c and
-- fork_and_defunc.c. A thread builds a table of ten slots and calls the probe functions with it;
-- `main` starts the threads and reports what they returned.
pub mod Main
pub mod Tally
pub mod Counted
pub mod Uncounted
pub mod Wide
pub mod Forked
pub mod Schedule
pub mod Unreg
pub mod Files
pub mod System
use uprobe_tests.Base.{
  ℕ, zero, suc, ◌+◌, ◌*◌, Bool, true, false, not, List, [], ◌∷◌, ◌==◌, if◌then◌else◌, ℤ, pos,
  is_neg, eq_int, minus_one,
}
use uprobe_tests.Kernel.{Kernel, World}
use uprobe_tests.Slot.{Probed}
use uprobe_tests.Slot.Memory.{Arch}
use uprobe_tests.Slot.User.{Outcome, probe, slot_cells, build_probe_table}

-- `NUM_PROBES`.
abbrev pub table_size : ℕ
table_size = 10

-- `i`, `i + 1` and so on, `n` of them.
abbrev pub ids_from : ℕ → ℕ → List ℕ
ids_from i zero = []
ids_from i (suc n) = i ∷ ids_from (suc i) n

-- What follows a call that returned, with its result.
abbrev pub bind : Outcome → (ℤ → Probed → Outcome) → Outcome
bind (Outcome.returned v s) f = f v s
bind (Outcome.exited status) f = Outcome.exited status
bind Outcome.fault f = Outcome.fault
bind Outcome.oops f = Outcome.oops

-- What follows `if ((error = ...) < 0) break;`.
abbrev pub unless_neg : (ℤ → Probed → Outcome) → ℤ → Probed → Outcome
unless_neg f error s = if is_neg error then Outcome.returned error s else f error s

-- What follows `if ((error = ...) != -1) ...;`, where `g` is the consequence.
abbrev pub if_uncounted : {A : Type 0} → (ℤ → Probed → A) → (Probed → A) → ℤ → Probed → A
if_uncounted g f error s = if eq_int error minus_one then f s else g error s

abbrev pub pass : ℤ → Probed → Outcome
pass error s = Outcome.returned (pos 0) s

abbrev pub exit : ℕ → ℤ → Probed → Outcome
exit status error s = Outcome.exited status

-- The module after a call: a program that dies in it leaves the module as it was in `s`.
abbrev pub world_after : Probed → Outcome → (ℤ → Probed → World) → World
world_after s (Outcome.returned v t) f = f v t
world_after s (Outcome.exited status) f = s.world
world_after s Outcome.fault f = s.world
world_after s Outcome.oops f = s.world

module _ (K : Kernel) (a : Arch) (registered : Bool) (tid sp table : ℕ) where
  -- `probe_##id(&probe_table[id])`.
  abbrev pub call_id : ℕ → Probed → Outcome
  call_id id s = probe K a registered tid sp (table + id * slot_cells a) s

  abbrev pub with_table : Probed → Probed
  with_table s = record s { mem = build_probe_table a table_size table s.mem }

  -- The calls of one round of the loop, from `error` on; those of uthread.c are `ids_from 0 10`.
  unfoldable pub round : List ℕ → ℤ → Probed → Outcome
  round [] error s = Outcome.returned error s
  round (id ∷ ids) error s = bind (call_id id s) (unless_neg (round ids))

  -- `for (i = 0; i < cnt; ++i)` over the rounds.
  unfoldable pub rounds : (cnt : ℕ) → List ℕ → ℤ → Probed → Outcome
  rounds zero ids error s = Outcome.returned error s
  rounds (suc n) ids error s = bind (round ids error s) (unless_neg (rounds n ids))

  -- `thread_1` of uthread.c, tdie.c and texec.c, and of suicide.c with `ids_from 0 9`.
  unfoldable pub thread_1 : List ℕ → (cnt : ℕ) → Probed → Outcome
  unfolding rounds
  thread_1 ids cnt s = bind (rounds cnt ids (pos 0) (with_table s)) (unless_neg pass)

  -- `suicide_thread`: the result of the probe function is dropped.
  unfoldable pub suicide_thread : Probed → Outcome
  suicide_thread s = bind (call_id 9 (with_table s)) pass

  -- `exec_thread`: once `execl` has the process, it ends with the status of the shell; if `execl`
  -- fails, the function ends without a `return`, and `left` is what the caller finds.
  unfoldable pub exec_thread : (execl_ok : Bool) (shell : ℕ) (left : ℤ) → Probed → Outcome
  exec_thread execl_ok shell left s =
      bind (call_id 0 (with_table s))
        (unless_neg (λ error t. if execl_ok then Outcome.exited shell else Outcome.returned left t))

  -- The chain of calls of unreg.c's `thread_2`, which wants -1 of each.
  unfoldable pub all_uncounted : List ℕ → Probed → Outcome
  all_uncounted [] s = Outcome.returned (pos 0) s
  all_uncounted (id ∷ ids) s =
      bind (call_id id s) (if_uncounted Outcome.returned (all_uncounted ids))

  unfoldable pub unreg_thread_1 : Probed → Outcome
  unfolding round
  unreg_thread_1 s = bind (round (ids_from 0 table_size) (pos 0) (with_table s)) (unless_neg pass)

  unfoldable pub unreg_thread_2 : Probed → Outcome
  unfolding all_uncounted
  unreg_thread_2 s = all_uncounted (ids_from 0 table_size) (with_table s)

  -- The loop of the forked child in fork_thread.c and fork_and_defunc.c.
  unfoldable pub child_loop : (cnt : ℕ) → Probed → Outcome
  child_loop zero s = Outcome.exited 0
  child_loop (suc n) s = bind (call_id 0 s) (if_uncounted (exit 1) (child_loop n))

  -- The module when that loop has ended.
  unfoldable pub child_world : (cnt : ℕ) → Probed → World
  child_world zero s = s.world
  child_world (suc n) s =
      world_after s (call_id 0 s) (if_uncounted (λ error t. t.world) (child_world n))

-- `thread_die` of tdie.c stores to address 1.
abbrev pub thread_die : Probed → Outcome
thread_die s = Outcome.fault

-- `WEXITSTATUS` of what `wait` gives: 0 for a child that a signal has killed.
abbrev pub exit_status : Outcome → ℕ
exit_status (Outcome.returned v s) = 0
exit_status (Outcome.exited status) = status
exit_status Outcome.fault = 0
exit_status Outcome.oops = 0

-- The returns after the second loop.
abbrev pub waited : (status : ℕ) → ℤ → Probed → Outcome
waited status error s =
    if not (status == 0) then Outcome.returned (pos status) s else Outcome.returned (pos 0) s

-- `fork_thread` of fork_thread.c where `fork` succeeds. The child has a copy of the memory, and the
-- thread id `child`; `inherited` is whether the kernel has the probes in it too. The module that counts
-- the hits is the same for both: the child runs first, and the parent goes on with its own memory and
-- the module as the child has left it. What the child prints is left out.
module _ (K : Kernel) (a : Arch) (registered inherited : Bool) (tid child sp table : ℕ) where
  -- The parent when its child has ended.
  abbrev pub after_child : (cnt : ℕ) → Probed → Probed
  after_child cnt s = record s { world = child_world K a inherited child sp table cnt s }

  unfoldable pub fork_thread : (cnt : ℕ) → Probed → Outcome
  unfolding child_loop child_world rounds
  fork_thread cnt s =
      let forked = with_table K a registered tid sp table s in
      let status = exit_status (child_loop K a inherited child sp table cnt forked) in
      bind (rounds K a registered tid sp table cnt (0 ∷ []) (pos 0) (after_child cnt forked)) (
        unless_neg (λ error t.
          bind (rounds K a registered tid sp table cnt (0 ∷ []) error t)
            (unless_neg (waited status))))

  -- That of fork_and_defunc.c does not wait.
  unfoldable pub fork_and_defunc_thread : (cnt : ℕ) → Probed → Outcome
  unfolding child_world rounds
  fork_and_defunc_thread cnt s =
      bind
        (rounds K a registered tid sp table cnt (0 ∷ []) (pos 0)
          (after_child cnt (with_table K a registered tid sp table s)))
        (unless_neg (exit 0))
