-- ===== src/Programs/Files.antt =====
-- Which thread of a user program runs which function, file by file.
use uprobe_tests.Base.{ℕ, suc, Bool, ◌==◌, if◌then◌else◌, ℤ}
use uprobe_tests.Kernel.{Kernel}
use uprobe_tests.Slot.{Probed}
use uprobe_tests.Slot.Memory.{Arch}
use uprobe_tests.Slot.User.{Outcome}
use uprobe_tests.Programs.{table_size, ids_from, thread_1, suicide_thread, exec_thread, thread_die}
use uprobe_tests.Programs.Schedule.{Thread}
use uprobe_tests.Programs.Main.{Report, Pthread, main, main_with_last}

module _ (K : Kernel) (a : Arch) (registered : Bool) (th : Thread) where
  -- `thread_1` with all probe functions, as in uthread.c, tdie.c and texec.c.
  abbrev pub all_probes : (cnt : ℕ) → Probed → Outcome
  all_probes = thread_1 K a registered th.tid th.sp th.table (ids_from 0 table_size)

  -- texec.c sleeps a second between the calls of `probe_4` and `probe_5`.
  abbrev pub texec_thread_1 : (cnt : ℕ) → Probed → Outcome
  texec_thread_1 = all_probes

  abbrev pub uthread_thread : (n cnt i : ℕ) → Probed → Outcome
  uthread_thread n cnt i = all_probes cnt

  -- The last thread of tdie.c is `thread_die`.
  abbrev pub tdie_thread : (n cnt i : ℕ) → Probed → Outcome
  tdie_thread n cnt i = if suc i == n then thread_die else all_probes cnt

  -- The last thread of texec.c is `exec_thread`.
  abbrev pub texec_thread :
      (execl_ok : Bool) → (shell : ℕ) → (left : ℤ) → (n cnt i : ℕ) → Probed → Outcome
  texec_thread execl_ok shell left n cnt i =
      if suc i == n
      then exec_thread K a registered th.tid th.sp th.table execl_ok shell left
      else texec_thread_1 cnt

  -- The last thread of suicide.c is `suicide_thread`; the others leave the last probe function alone.
  abbrev pub suicide_threads : (n cnt i : ℕ) → Probed → Outcome
  suicide_threads n cnt i =
      if suc i == n
      then suicide_thread K a registered th.tid th.sp th.table
      else thread_1 K a registered th.tid th.sp th.table (ids_from 0 9) cnt

-- The `main` functions, by file.
abbrev pub Main : Type 0
Main = Pthread → (argc : ℕ) → (num_threads niter : ℤ) → (stale : ℤ) → Report

abbrev pub uthread_main : Main
uthread_main = main

abbrev pub tdie_main : Main
tdie_main = main_with_last

abbrev pub texec_main : Main
texec_main = main_with_last

abbrev pub suicide_main : Main
suicide_main = main_with_last

abbrev pub fork_thread_main : Main
fork_thread_main = main

abbrev pub fork_and_defunc_main : Main
fork_and_defunc_main = main
