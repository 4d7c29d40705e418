-- ===== src/Existing/PongWa7/Pending.antt =====
-- The count of pending registrations in pong_wa7.c, and the wait for it.
use uprobe_tests.Base.{ℕ, ◌+◌, ◌≡◌, refl, Bool, true, false, arith, Bool-cases, inl, inr}
use uprobe_tests.Existing.PongWa7.{
  Pc, PongWa7, handler_step, unless_cleaning, add_pending, put_off, pending_reg_done, enter,
  enter_return, complete, start_cleanup, test_pending, Step, enters, enters_return, handles,
  completes, starts_cleanup, tests, Steps, done, and_step,
}

-- What the handler has counted and not yet handed to the kernel.
abbrev pub counted : Pc → ℕ
counted Pc.entry_register = 1
counted Pc.entry_refused = 1
counted Pc.entry_unregister = 1
counted Pc.return_unregister = 1
counted Pc.return_register = 1
counted Pc.return_refused = 1
counted _ = 0

abbrev pub IsCounted : PongWa7 → Type 0
IsCounted s = s.pending_regs ≡ s.ops + counted s.pc

unless_cleaning-IsCounted :
    (next : Pc) (s : PongWa7)
    → counted next ≡ 0
    → s.pending_regs ≡ s.ops
    → IsCounted (unless_cleaning next s)
unfolding unless_cleaning
unless_cleaning-IsCounted next s free h = elim (Bool-cases s.cleaning_up) [
  | inl on ↦ simp on (omega (arith, h))
  | inr off ↦ simp off (omega (arith, h, free))
]

handler_step-IsCounted :
    (later : Bool) (pc : Pc) (s : PongWa7)
    → s.pc ≡ pc
    → s.pending_regs ≡ s.ops + counted pc
    → IsCounted (handler_step later pc s)
unfolding handler_step add_pending put_off pending_reg_done
handler_step-IsCounted later Pc.idle s e h = rw e h
handler_step-IsCounted later Pc.entry_check s e h =
    unless_cleaning-IsCounted _ s refl (omega (arith, h))
handler_step-IsCounted later Pc.entry_add s e h = omega (arith, h)
handler_step-IsCounted true Pc.entry_register s e h = omega (arith, h)
handler_step-IsCounted false Pc.entry_register s e h = omega (arith, h)
handler_step-IsCounted later Pc.entry_noted s e h = omega (arith, h)
handler_step-IsCounted later Pc.entry_refused s e h = omega (arith, h)
handler_step-IsCounted later Pc.entry_check2 s e h =
    unless_cleaning-IsCounted _ s refl (omega (arith, h))
handler_step-IsCounted later Pc.entry_add2 s e h = omega (arith, h)
handler_step-IsCounted later Pc.entry_unregister s e h = omega (arith, h)
handler_step-IsCounted later Pc.entry_clear s e h = omega (arith, h)
handler_step-IsCounted later Pc.return_check s e h =
    unless_cleaning-IsCounted _ s refl (omega (arith, h))
handler_step-IsCounted later Pc.return_add s e h = omega (arith, h)
handler_step-IsCounted later Pc.return_unregister s e h = omega (arith, h)
handler_step-IsCounted later Pc.return_clear s e h = omega (arith, h)
handler_step-IsCounted later Pc.return_check2 s e h =
    unless_cleaning-IsCounted _ s refl (omega (arith, h))
handler_step-IsCounted later Pc.return_add2 s e h = omega (arith, h)
handler_step-IsCounted true Pc.return_register s e h = omega (arith, h)
handler_step-IsCounted false Pc.return_register s e h = omega (arith, h)
handler_step-IsCounted later Pc.return_noted s e h = omega (arith, h)
handler_step-IsCounted later Pc.return_refused s e h = omega (arith, h)

Step-IsCounted : (s t : PongWa7) → IsCounted s → Step s t → IsCounted t
unfolding enter enter_return complete start_cleanup test_pending pending_reg_done
Step-IsCounted s _ h (enters e) = let here = rw e at h in omega (arith, here)
Step-IsCounted s _ h (enters_return e) = let here = rw e at h in omega (arith, here)
Step-IsCounted s _ h (handles later) = handler_step-IsCounted later s.pc s refl h
Step-IsCounted s _ h (completes n e) = omega (arith, h, e)
Step-IsCounted s _ h (starts_cleanup e) = h
Step-IsCounted s _ h (tests e) = h

pub Steps-IsCounted : (s t : PongWa7) → IsCounted s → Steps s t → IsCounted t
Steps-IsCounted s _ h done = h
Steps-IsCounted s _ h (and_step {t} {u} steps step) =
    Step-IsCounted t u (Steps-IsCounted s t h steps) step

-- From a state with nothing pending in which no handler runs, `pending_regs` never falls below what
-- the kernel has still to complete: whenever it is 0, so that cleanup_module may go on, the kernel has
-- completed all that it put off, and the handler is not between its count and its call.
pub pending_regs_zero :
    (s t : PongWa7)
    → s.pc ≡ Pc.idle
    → s.pending_regs ≡ 0
    → s.ops ≡ 0
    → Steps s t
    → t.pending_regs ≡ 0
    → (t.ops ≡ 0) × (counted t.pc ≡ 0)
pending_regs_zero s t idle none_pending none_put_off steps now =
    let start : IsCounted s = rw (idle, none_pending, none_put_off) (omega arith) in
    let l = Steps-IsCounted s t start steps in (omega (arith, l, now), omega (arith, l, now))
