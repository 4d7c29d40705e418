-- ===== src/Existing/PongWa7.antt =====
-- uprobes.existing/pong_wa7.c, built with UPROBES_REG_CALLBACK: the handlers of pong.c with a count of
-- pending registrations, for which cleanup_module waits. One thread runs the handlers, another
-- cleanup_module, and the kernel completes what was put off; each step is one access to what they
-- share, and `pending_reg_done` one step of both its accesses. What the module prints is left out.
pub mod Pending
pub mod Quiet
pub mod Plain
pub mod Wakes
pub mod Ends
use uprobe_tests.Base.{ℕ, suc, ◌-◌, ◌≡◌, Bool, true, false, ◌&&◌, ◌==◌, if◌then◌else◌}
use uprobe_tests.Existing.Common.{inc}

-- What the handler thread does next; `entry_noted` and `return_noted` have an answer to record, and
-- `refused` stands before the `pending_reg_done` of a handler whose registration was refused.
pub data Pc : Type 0 where
  idle : Pc
  entry_check entry_add entry_register entry_noted entry_refused : Pc
  entry_check2 entry_add2 entry_unregister entry_clear : Pc
  return_check return_add return_unregister return_clear : Pc
  return_check2 return_add2 return_register return_noted return_refused : Pc

-- Where cleanup_module is: in `wait_event` it is about to test `pending_regs`, or sleeps until a
-- `wake_up`, or has gone on.
pub data Cleanup : Type 0 where
  not_started waiting asleep woken : Cleanup

-- `ops` counts what the kernel has put off and not completed.
pub record PongWa7 : Type 0 where
  pub ncalls : ℕ
  pub nreturns : ℕ
  pub entry_registered : Bool
  pub return_registered : Bool
  pub pending_regs : ℕ
  pub cleaning_up : Bool
  pub ops : ℕ
  pub pc : Pc
  pub cleanup : Cleanup

abbrev pub goto : Pc → PongWa7 → PongWa7
goto pc s = record s { pc = pc }

-- `if (atomic_read(&cleaning_up)) return;`
unfoldable pub unless_cleaning : Pc → PongWa7 → PongWa7
unless_cleaning next s = if s.cleaning_up then goto Pc.idle s else goto next s

-- `atomic_inc(&pending_regs);`
unfoldable pub add_pending : Pc → PongWa7 → PongWa7
add_pending next s = record s { pending_regs = suc s.pending_regs; pc = next }

-- A call that the kernel puts off.
unfoldable pub put_off : Pc → PongWa7 → PongWa7
put_off next s = record s { ops = suc s.ops; pc = next }

-- `wake_up(&pending_regs_waitq);`
abbrev pub wake_up : Cleanup → Cleanup
wake_up Cleanup.asleep = Cleanup.waiting
wake_up c = c

-- `if (atomic_dec_and_test(&pending_regs) && atomic_read(&cleaning_up)) wake_up(…);`
unfoldable pub pending_reg_done : PongWa7 → PongWa7
pending_reg_done s = record s {
  pending_regs = s.pending_regs - 1;
  cleanup = if s.pending_regs - 1 == 0 && s.cleaning_up then wake_up s.cleanup else s.cleanup;
}

-- The next step of the handler thread. `later` is the kernel's answer to a registration: whether it
-- was put off, or else refused.
unfoldable pub handler_step : (later : Bool) → Pc → PongWa7 → PongWa7
unfolding unless_cleaning add_pending put_off pending_reg_done
handler_step later Pc.idle s = s
handler_step later Pc.entry_check s = unless_cleaning Pc.entry_add s
handler_step later Pc.entry_add s = add_pending Pc.entry_register s
handler_step true Pc.entry_register s = put_off Pc.entry_noted s
handler_step false Pc.entry_register s = goto Pc.entry_refused s
handler_step later Pc.entry_noted s = record s { return_registered = true; pc = Pc.entry_check2 }
handler_step later Pc.entry_refused s = goto Pc.entry_check2 (pending_reg_done s)
handler_step later Pc.entry_check2 s = unless_cleaning Pc.entry_add2 s
handler_step later Pc.entry_add2 s = add_pending Pc.entry_unregister s
handler_step later Pc.entry_unregister s = put_off Pc.entry_clear s
handler_step later Pc.entry_clear s = record s { entry_registered = false; pc = Pc.idle }
handler_step later Pc.return_check s = unless_cleaning Pc.return_add s
handler_step later Pc.return_add s = add_pending Pc.return_unregister s
handler_step later Pc.return_unregister s = put_off Pc.return_clear s
handler_step later Pc.return_clear s = record s { return_registered = false; pc = Pc.return_check2 }
handler_step later Pc.return_check2 s = unless_cleaning Pc.return_add2 s
handler_step later Pc.return_add2 s = add_pending Pc.return_register s
handler_step true Pc.return_register s = put_off Pc.return_noted s
handler_step false Pc.return_register s = goto Pc.return_refused s
handler_step later Pc.return_noted s = record s { entry_registered = true; pc = Pc.idle }
handler_step later Pc.return_refused s = goto Pc.idle (pending_reg_done s)

-- The entry of a handler, with its first statement.
unfoldable pub enter : PongWa7 → PongWa7
enter s = record s { ncalls = inc s.ncalls; pc = Pc.entry_check }

unfoldable pub enter_return : PongWa7 → PongWa7
enter_return s = record s { nreturns = inc s.nreturns; pc = Pc.return_check }

-- The kernel completes a call and runs `reg_callback`.
unfoldable pub complete : PongWa7 → PongWa7
unfolding pending_reg_done
complete s = pending_reg_done (record s { ops = s.ops - 1 })

-- `atomic_set(&cleaning_up, 1)`.
unfoldable pub start_cleanup : PongWa7 → PongWa7
start_cleanup s = record s { cleaning_up = true; cleanup = Cleanup.waiting }

-- The test of `wait_event`. The kernel queues the thread before it, so that a `wake_up` after the test
-- is not lost.
unfoldable pub test_pending : PongWa7 → PongWa7
test_pending s = record s {
  cleanup = if s.pending_regs == 0 then Cleanup.woken else Cleanup.asleep;
}

-- The steps of the three. A handler may be entered whenever its thread runs none, so that the model
-- allows more runs than the kernel does.
pub data Step (s : PongWa7) : PongWa7 → Type 0 where
  enters : s.pc ≡ Pc.idle → Step s (enter s)
  enters_return : s.pc ≡ Pc.idle → Step s (enter_return s)
  handles : (later : Bool) → Step s (handler_step later s.pc s)
  completes : (n : ℕ) → s.ops ≡ suc n → Step s (complete s)
  starts_cleanup : s.cleanup ≡ Cleanup.not_started → Step s (start_cleanup s)
  tests : s.cleanup ≡ Cleanup.waiting → Step s (test_pending s)

pub data Steps (s : PongWa7) : PongWa7 → Type 0 where
  done : Steps s s
  and_step : {t u : PongWa7} → Steps s t → Step t u → Steps s u
