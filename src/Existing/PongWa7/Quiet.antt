-- ===== src/Existing/PongWa7/Quiet.antt =====
-- When the wait of cleanup_module in pong_wa7.c is enough, and when it is not.
use uprobe_tests.Base.{◌≡◌, refl, Bool, true, false, arith}
use uprobe_tests.Existing.PongWa7.{
  Pc, Cleanup, PongWa7, handler_step, unless_cleaning, enter, enter_return, complete, start_cleanup,
  test_pending, Step, enters, enters_return, handles, completes, starts_cleanup, tests, Steps, done,
  and_step,
}
use uprobe_tests.Existing.PongWa7.Pending.{counted, IsCounted, Steps-IsCounted}

-- The handler has found `cleaning_up` clear and not counted yet.
abbrev pub checked : Pc → Bool
checked Pc.entry_add = true
checked Pc.entry_add2 = true
checked Pc.return_add = true
checked Pc.return_add2 = true
checked _ = false

-- Nothing is pending, and nothing will be.
record IsQuiet (s : PongWa7) : Type 0 where
  cleaning : s.cleaning_up ≡ true
  none_pending : s.pending_regs ≡ 0
  none_put_off : s.ops ≡ 0
  unchecked : checked s.pc ≡ false

unless_cleaning-IsQuiet :
    (next : Pc) (s : PongWa7)
    → s.cleaning_up ≡ true
    → s.pending_regs ≡ 0
    → s.ops ≡ 0
    → IsQuiet (unless_cleaning next s)
unfolding unless_cleaning
unless_cleaning-IsQuiet next s cleaning pending ops =
    simp cleaning
      (record { cleaning = refl; none_pending = pending; none_put_off = ops; unchecked = refl })

handler_step-IsQuiet :
    (later : Bool) (pc : Pc) (s : PongWa7)
    → s.pc ≡ pc
    → counted pc ≡ 0
    → IsQuiet s
    → IsQuiet (handler_step later pc s)
unfolding handler_step
handler_step-IsQuiet later Pc.idle s e c q = q
handler_step-IsQuiet later Pc.entry_check s e c q =
    unless_cleaning-IsQuiet _ s q.cleaning q.none_pending q.none_put_off
handler_step-IsQuiet later Pc.entry_add s e c q = absurd (ground (arith, e, q.unchecked))
handler_step-IsQuiet later Pc.entry_register s e c q = absurd (omega (arith, c))
handler_step-IsQuiet later Pc.entry_noted s e c q = record {
  cleaning = q.cleaning;
  none_pending = q.none_pending;
  none_put_off = q.none_put_off;
  unchecked = refl;
}
handler_step-IsQuiet later Pc.entry_refused s e c q = absurd (omega (arith, c))
handler_step-IsQuiet later Pc.entry_check2 s e c q =
    unless_cleaning-IsQuiet _ s q.cleaning q.none_pending q.none_put_off
handler_step-IsQuiet later Pc.entry_add2 s e c q = absurd (ground (arith, e, q.unchecked))
handler_step-IsQuiet later Pc.entry_unregister s e c q = absurd (omega (arith, c))
handler_step-IsQuiet later Pc.entry_clear s e c q = record {
  cleaning = q.cleaning;
  none_pending = q.none_pending;
  none_put_off = q.none_put_off;
  unchecked = refl;
}
handler_step-IsQuiet later Pc.return_check s e c q =
    unless_cleaning-IsQuiet _ s q.cleaning q.none_pending q.none_put_off
handler_step-IsQuiet later Pc.return_add s e c q = absurd (ground (arith, e, q.unchecked))
handler_step-IsQuiet later Pc.return_unregister s e c q = absurd (omega (arith, c))
handler_step-IsQuiet later Pc.return_clear s e c q = record {
  cleaning = q.cleaning;
  none_pending = q.none_pending;
  none_put_off = q.none_put_off;
  unchecked = refl;
}
handler_step-IsQuiet later Pc.return_check2 s e c q =
    unless_cleaning-IsQuiet _ s q.cleaning q.none_pending q.none_put_off
handler_step-IsQuiet later Pc.return_add2 s e c q = absurd (ground (arith, e, q.unchecked))
handler_step-IsQuiet later Pc.return_register s e c q = absurd (omega (arith, c))
handler_step-IsQuiet later Pc.return_noted s e c q = record {
  cleaning = q.cleaning;
  none_pending = q.none_pending;
  none_put_off = q.none_put_off;
  unchecked = refl;
}
handler_step-IsQuiet later Pc.return_refused s e c q = absurd (omega (arith, c))

Step-IsQuiet : (s t : PongWa7) → IsCounted s → IsQuiet s → Step s t → IsQuiet t
unfolding enter enter_return complete start_cleanup test_pending
Step-IsQuiet s _ h q (enters e) = record {
  cleaning = q.cleaning;
  none_pending = q.none_pending;
  none_put_off = q.none_put_off;
  unchecked = refl;
}
Step-IsQuiet s _ h q (enters_return e) = record {
  cleaning = q.cleaning;
  none_pending = q.none_pending;
  none_put_off = q.none_put_off;
  unchecked = refl;
}
Step-IsQuiet s _ h q (handles later) =
    handler_step-IsQuiet later s.pc s refl (omega (arith, h, q.none_pending)) q
Step-IsQuiet s _ h q (completes n e) = absurd (omega (arith, e, q.none_put_off))
Step-IsQuiet s _ h q (starts_cleanup e) = record {
  cleaning = refl;
  none_pending = q.none_pending;
  none_put_off = q.none_put_off;
  unchecked = q.unchecked;
}
Step-IsQuiet s _ h q (tests e) = record {
  cleaning = q.cleaning;
  none_pending = q.none_pending;
  none_put_off = q.none_put_off;
  unchecked = q.unchecked;
}

Steps-IsQuiet : (s t : PongWa7) → IsCounted s → IsQuiet s → Steps s t → IsQuiet t
Steps-IsQuiet s _ h q done = q
Steps-IsQuiet s _ h q (and_step {t} {u} steps step) =
    Step-IsQuiet t u (Steps-IsCounted s t h steps) (Steps-IsQuiet s t h q steps) step

-- Once `cleaning_up` is set, nothing is pending, and the handler is not between a test of
-- `cleaning_up` that it passed and the count after it, nothing is ever put off again, whatever the
-- three threads do: the wait of cleanup_module is then enough.
pub stays_done :
    (s t : PongWa7)
    → s.cleaning_up ≡ true
    → s.pending_regs ≡ 0
    → s.ops ≡ 0
    → counted s.pc ≡ 0
    → checked s.pc ≡ false
    → Steps s t
    → (t.ops ≡ 0) × (t.pending_regs ≡ 0)
stays_done s t cleaning none_pending none_put_off uncounted unchecked steps =
    let h : IsCounted s = omega (arith, none_pending, none_put_off, uncounted) in
    let q =
      Steps-IsQuiet s t h
        (record {
          cleaning = cleaning;
          none_pending = none_pending;
          none_put_off = none_put_off;
          unchecked = unchecked;
        })
        steps in
    (q.none_put_off, q.none_pending)

-- If cleanup_module starts while the entry handler stands between its first test of `cleaning_up` and
-- the count after it, and nothing is pending, cleanup_module may go on at once, and the handler then
-- registers the return probe all the same: the kernel has a registration to complete when
-- cleanup_module no longer waits.
pub wakes_too_early :
    (s : PongWa7)
    → s.pc ≡ Pc.entry_add
    → s.cleanup ≡ Cleanup.not_started
    → s.pending_regs ≡ 0
    → s.ops ≡ 0
    → (t : PongWa7) × Steps s t × (t.cleanup ≡ Cleanup.woken) × (t.ops ≡ 1)
unfolding handler_step test_pending start_cleanup
wakes_too_early s here before none_pending none_put_off =
    let started : PongWa7 = start_cleanup s in
    let woken : PongWa7 = test_pending started in
    let added : PongWa7 = handler_step true woken.pc woken in
    let registered : PongWa7 = handler_step true added.pc added in
    let steps : Steps s woken = and_step (and_step done (starts_cleanup before)) (tests refl) in
    (
      registered,
      and_step (and_step steps (handles true)) (handles true),
      rw (here, none_pending) refl,
      rw (here, none_put_off) refl,
    )
