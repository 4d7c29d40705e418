-- ===== src/Existing/PongWa7/Wakes.antt =====
-- What is left to do in pong_wa7.c once cleanup_module waits, and that no `wake_up` is lost.
use uprobe_tests.Base.{
  ℕ, ◌+◌, ◌*◌, ◌-◌, ◌≤◌, ◌<◌, ◌≡◌, ◌∙◌, inl, inr, refl, Bool, true, false, ◌==◌, ◌&&◌, arith,
  Bool-cases, if◌then◌else◌,
}
use uprobe_tests.Existing.PongWa7.{
  Pc, Cleanup, PongWa7, handler_step, unless_cleaning, add_pending, put_off, enter, enter_return,
  start_cleanup, complete, pending_reg_done, wake_up, test_pending, Step, enters, enters_return,
  handles, completes, starts_cleanup, tests, Steps, done, and_step,
}

-- At most so many steps to the end of the handler once `cleaning_up` is set.
abbrev pub to_idle : Pc → ℕ
to_idle Pc.idle = 0
to_idle Pc.entry_check = 1
to_idle Pc.entry_add = 4
to_idle Pc.entry_register = 3
to_idle Pc.entry_noted = 2
to_idle Pc.entry_refused = 2
to_idle Pc.entry_check2 = 1
to_idle Pc.entry_add2 = 3
to_idle Pc.entry_unregister = 2
to_idle Pc.entry_clear = 1
to_idle Pc.return_check = 1
to_idle Pc.return_add = 4
to_idle Pc.return_unregister = 3
to_idle Pc.return_clear = 2
to_idle Pc.return_check2 = 1
to_idle Pc.return_add2 = 3
to_idle Pc.return_register = 2
to_idle Pc.return_noted = 1
to_idle Pc.return_refused = 1

abbrev pub is_idle : Pc → Bool
is_idle Pc.idle = true
is_idle _ = false

-- In `wait_event`.
abbrev pub in_wait : Cleanup → Bool
in_wait Cleanup.waiting = true
in_wait Cleanup.asleep = true
in_wait _ = false

abbrev pub to_test : Cleanup → ℕ
to_test Cleanup.waiting = 1
to_test _ = 0

-- What is left to do once `cleaning_up` is set, if no handler is entered.
unfoldable pub work : PongWa7 → ℕ
work s = 4 * to_idle s.pc + 2 * s.ops + to_test s.cleanup

abbrev pub is_asleep : Cleanup → Bool
is_asleep Cleanup.asleep = true
is_asleep _ = false

-- cleanup_module has set `cleaning_up`, and sleeps only while something is pending.
pub record IsAlert (s : PongWa7) : Type 0 where
  pub cleaning : in_wait s.cleanup ≡ true → s.cleaning_up ≡ true
  pub pending : is_asleep s.cleanup ≡ true → 0 < s.pending_regs

-- With less to do than before, and `cleaning_up` set.
pub record Less (w : ℕ) (s t : PongWa7) : Type 0 where
  pub less : work t < w
  pub cleaning : t.cleaning_up ≡ true

pub woken-to_test : (b : Bool) (c : Cleanup) → to_test (if b then wake_up c else c) ≤ 1
woken-to_test true Cleanup.not_started = omega arith
woken-to_test true Cleanup.waiting = omega arith
woken-to_test true Cleanup.asleep = omega arith
woken-to_test true Cleanup.woken = omega arith
woken-to_test false Cleanup.not_started = omega arith
woken-to_test false Cleanup.waiting = omega arith
woken-to_test false Cleanup.asleep = omega arith
woken-to_test false Cleanup.woken = omega arith

unless_cleaning-Less :
    (next : Pc) (s : PongWa7)
    → to_idle s.pc ≡ 1
    → s.cleaning_up ≡ true
    → Less (work s) s (unless_cleaning next s)
unfolding unless_cleaning work
unless_cleaning-Less next s e on = simp on (record { less = rw e (omega arith); cleaning = refl })

pub handler_step-Less :
    (later : Bool) (pc : Pc) (s : PongWa7)
    → s.pc ≡ pc
    → is_idle pc ≡ false
    → s.cleaning_up ≡ true
    → Less (work s) s (handler_step later pc s)
unfolding handler_step add_pending put_off pending_reg_done work
handler_step-Less later Pc.idle s e busy on = absurd (ground (arith, busy))
handler_step-Less later Pc.entry_check s e busy on = unless_cleaning-Less _ s (rw e refl) on
handler_step-Less later Pc.entry_check2 s e busy on = unless_cleaning-Less _ s (rw e refl) on
handler_step-Less later Pc.return_check s e busy on = unless_cleaning-Less _ s (rw e refl) on
handler_step-Less later Pc.return_check2 s e busy on = unless_cleaning-Less _ s (rw e refl) on
handler_step-Less true Pc.entry_register s e busy on = record {
  less = rw e (omega arith);
  cleaning = on;
}
handler_step-Less false Pc.entry_register s e busy on = record {
  less = rw e (omega arith);
  cleaning = on;
}
handler_step-Less true Pc.return_register s e busy on = record {
  less = rw e (omega arith);
  cleaning = on;
}
handler_step-Less false Pc.return_register s e busy on = record {
  less = rw e (omega arith);
  cleaning = on;
}
handler_step-Less later Pc.entry_refused s e busy on =
    let small = woken-to_test (s.pending_regs - 1 == 0 && s.cleaning_up) s.cleanup in
    record { less = rw e (omega (arith, small)); cleaning = on }
handler_step-Less later Pc.return_refused s e busy on =
    let small = woken-to_test (s.pending_regs - 1 == 0 && s.cleaning_up) s.cleanup in
    record { less = rw e (omega (arith, small)); cleaning = on }
handler_step-Less later _ s e busy on = record { less = rw e (omega arith); cleaning = on }

IsAlert-frame :
    (s t : PongWa7)
    → t.cleanup ≡ s.cleanup
    → t.cleaning_up ≡ s.cleaning_up
    → s.pending_regs ≤ t.pending_regs
    → IsAlert s
    → IsAlert t
IsAlert-frame s t same_place same_flag more a = record {
  cleaning = λ w. same_flag ∙ a.cleaning (rw same_place at w);
  pending = λ w. omega (arith, more, a.pending (rw same_place at w));
}

woken-is_asleep : (c : Cleanup) → is_asleep (wake_up c) ≡ false
woken-is_asleep Cleanup.not_started = refl
woken-is_asleep Cleanup.waiting = refl
woken-is_asleep Cleanup.asleep = refl
woken-is_asleep Cleanup.woken = refl

woken-in_wait : (c : Cleanup) → in_wait (wake_up c) ≡ in_wait c
woken-in_wait Cleanup.not_started = refl
woken-in_wait Cleanup.waiting = refl
woken-in_wait Cleanup.asleep = refl
woken-in_wait Cleanup.woken = refl

pub asleep-in_wait : (c : Cleanup) → is_asleep c ≡ true → in_wait c ≡ true
asleep-in_wait Cleanup.asleep e = refl
asleep-in_wait Cleanup.not_started e = absurd (ground (arith, e))
asleep-in_wait Cleanup.waiting e = absurd (ground (arith, e))
asleep-in_wait Cleanup.woken e = absurd (ground (arith, e))

-- The last one to be done wakes cleanup_module.
pending_reg_done-IsAlert : (s : PongWa7) → IsAlert s → IsAlert (pending_reg_done s)
unfolding pending_reg_done
pending_reg_done-IsAlert s a = elim (Bool-cases (s.pending_regs - 1 == 0 && s.cleaning_up)) [
  | inl last ↦
      let awake = woken-is_asleep s.cleanup in
      let same = woken-in_wait s.cleanup in
      rw last (record {
        cleaning = λ w. a.cleaning (rw same at w);
        pending = λ w. absurd (ground (arith, awake, w));
      })
  | inr others ↦ rw others (record {
    cleaning = a.cleaning;
    pending = λ w. let on = a.cleaning (asleep-in_wait s.cleanup w) in ground (arith, others, on);
  })
]

unless_cleaning-IsAlert : (next : Pc) (s : PongWa7) → IsAlert s → IsAlert (unless_cleaning next s)
unfolding unless_cleaning
unless_cleaning-IsAlert next s a = elim (Bool-cases s.cleaning_up) [
  | inl on ↦ simp on (IsAlert-frame s _ refl (simp on refl) (omega arith) a)
  | inr off ↦ simp off (IsAlert-frame s _ refl (simp off refl) (omega arith) a)
]

handler_step-IsAlert :
    (later : Bool) (pc : Pc) (s : PongWa7) → IsAlert s → IsAlert (handler_step later pc s)
unfolding handler_step add_pending put_off
handler_step-IsAlert later Pc.entry_check s a = unless_cleaning-IsAlert _ s a
handler_step-IsAlert later Pc.entry_check2 s a = unless_cleaning-IsAlert _ s a
handler_step-IsAlert later Pc.return_check s a = unless_cleaning-IsAlert _ s a
handler_step-IsAlert later Pc.return_check2 s a = unless_cleaning-IsAlert _ s a
handler_step-IsAlert true Pc.entry_register s a = IsAlert-frame s _ refl refl (omega arith) a
handler_step-IsAlert false Pc.entry_register s a = IsAlert-frame s _ refl refl (omega arith) a
handler_step-IsAlert true Pc.return_register s a = IsAlert-frame s _ refl refl (omega arith) a
handler_step-IsAlert false Pc.return_register s a = IsAlert-frame s _ refl refl (omega arith) a
handler_step-IsAlert later Pc.entry_refused s a =
    IsAlert-frame (pending_reg_done s) _ refl refl (omega arith) (pending_reg_done-IsAlert s a)
handler_step-IsAlert later Pc.return_refused s a =
    IsAlert-frame (pending_reg_done s) _ refl refl (omega arith) (pending_reg_done-IsAlert s a)
handler_step-IsAlert later _ s a = IsAlert-frame s _ refl refl (omega arith) a

Step-IsAlert : (s t : PongWa7) → IsAlert s → Step s t → IsAlert t
unfolding enter enter_return complete start_cleanup test_pending
Step-IsAlert s _ a (enters e) = IsAlert-frame s _ refl refl (omega arith) a
Step-IsAlert s _ a (enters_return e) = IsAlert-frame s _ refl refl (omega arith) a
Step-IsAlert s _ a (handles later) = handler_step-IsAlert later s.pc s a
Step-IsAlert s _ a (completes n e) =
    pending_reg_done-IsAlert _ (IsAlert-frame s _ refl refl (omega arith) a)
Step-IsAlert s _ a (starts_cleanup e) = record {
  cleaning = λ w. refl;
  pending = λ w. absurd (ground (arith, w));
}
Step-IsAlert s _ a (tests e) =
    let on : s.cleaning_up ≡ true = a.cleaning (rw e refl) in
    elim (Bool-cases (s.pending_regs == 0)) [
      | inl none_left ↦
          rw none_left (record { cleaning = λ w. on; pending = λ w. absurd (ground (arith, w)) })
      | inr some_left ↦
          rw some_left (record { cleaning = λ w. on; pending = λ w. ground (arith, some_left) })
    ]

pub Steps-IsAlert : (s t : PongWa7) → IsAlert s → Steps s t → IsAlert t
Steps-IsAlert s _ a done = a
Steps-IsAlert s _ a (and_step {t} {u} steps step) =
    Step-IsAlert t u (Steps-IsAlert s t a steps) step
