-- ===== src/Existing/PongWa7/Ends.antt =====
-- The wait of cleanup_module in pong_wa7.c ends.
use uprobe_tests.Base.{
  ℕ, suc, ◌+◌, ◌*◌, ◌≤◌, ◌≡◌, ◌⊎◌, ◌∙◌, ap, inl, inr, refl, Bool, true, false, arith, ◌-◌, ◌==◌,
  ◌&&◌, Bool-cases, if◌then◌else◌,
}
use uprobe_tests.Existing.PongWa7.{
  Pc, Cleanup, PongWa7, wake_up, handler_step, unless_cleaning, add_pending, put_off, enter,
  enter_return, start_cleanup, complete, pending_reg_done, test_pending, Step, enters,
  enters_return, handles, completes, starts_cleanup, tests, Steps, done, and_step,
}
use uprobe_tests.Existing.PongWa7.Pending.{IsCounted, Steps-IsCounted}
use uprobe_tests.Existing.PongWa7.Wakes.{
  to_idle, is_idle, in_wait, work, IsAlert, Steps-IsAlert, woken-to_test, handler_step-Less,
}

-- Whether a step does some of the work: the handler goes on, the kernel completes a call, or
-- cleanup_module tests `pending_regs`. The others are the entries of a handler.
abbrev pub as_work : {s t : PongWa7} → Step s t → ℕ
as_work (enters e) = 0
as_work (enters_return e) = 0
as_work {s} (handles later) = if is_idle s.pc then 0 else 1
as_work (completes n e) = 1
as_work (starts_cleanup e) = 0
as_work (tests e) = 1

abbrev pub as_entry : {s t : PongWa7} → Step s t → ℕ
as_entry (enters e) = 1
as_entry (enters_return e) = 1
as_entry _ = 0

unfoldable pub works : {s t : PongWa7} → Steps s t → ℕ
works done = 0
works (and_step steps step) = works steps + as_work step

unfoldable pub entries : {s t : PongWa7} → Steps s t → ℕ
entries done = 0
entries (and_step steps step) = entries steps + as_entry step

-- cleanup_module has been called.
abbrev has_started : Cleanup → Bool
has_started Cleanup.not_started = false
has_started _ = true

record Going (s : PongWa7) : Type 0 where
  cleaning : s.cleaning_up ≡ true
  started : has_started s.cleanup ≡ true

idle_lem : (pc : Pc) → is_idle pc ≡ true → pc ≡ Pc.idle
idle_lem Pc.idle e = refl
idle_lem _ e = absurd (ground (arith, e))

woken-has_started :
    (b : Bool) (c : Cleanup) → has_started (if b then wake_up c else c) ≡ has_started c
woken-has_started true Cleanup.not_started = refl
woken-has_started true Cleanup.waiting = refl
woken-has_started true Cleanup.asleep = refl
woken-has_started true Cleanup.woken = refl
woken-has_started false c = refl

unless_cleaning-started : (next : Pc) (s : PongWa7) → (unless_cleaning next s).cleanup ≡ s.cleanup
unfolding unless_cleaning
unless_cleaning-started next s = elim (Bool-cases s.cleaning_up) [
  | inl on ↦ simp on refl
  | inr off ↦ simp off refl
]

handler_step-started :
    (later : Bool) (pc : Pc) (s : PongWa7)
    → has_started (handler_step later pc s).cleanup ≡ has_started s.cleanup
unfolding handler_step add_pending put_off pending_reg_done
handler_step-started later Pc.entry_check s = ap has_started (unless_cleaning-started _ s)
handler_step-started later Pc.entry_check2 s = ap has_started (unless_cleaning-started _ s)
handler_step-started later Pc.return_check s = ap has_started (unless_cleaning-started _ s)
handler_step-started later Pc.return_check2 s = ap has_started (unless_cleaning-started _ s)
handler_step-started true Pc.entry_register s = refl
handler_step-started false Pc.entry_register s = refl
handler_step-started true Pc.return_register s = refl
handler_step-started false Pc.return_register s = refl
handler_step-started later Pc.entry_refused s = woken-has_started _ s.cleanup
handler_step-started later Pc.return_refused s = woken-has_started _ s.cleanup
handler_step-started later _ s = refl

record Spent (s t : PongWa7) (done_work entered : ℕ) : Type 0 where
  bound : work t + done_work ≤ work s + 4 * entered
  going : Going t

Step-Spent : (s t : PongWa7) → Going s → (st : Step s t) → Spent s t (as_work st) (as_entry st)
unfolding work enter enter_return complete pending_reg_done start_cleanup test_pending handler_step
Step-Spent s _ g (enters e) = record {
  bound = rw e (omega arith);
  going = record { cleaning = g.cleaning; started = g.started };
}
Step-Spent s _ g (enters_return e) = record {
  bound = rw e (omega arith);
  going = record { cleaning = g.cleaning; started = g.started };
}
Step-Spent s _ g (handles later) = elim (Bool-cases (is_idle s.pc)) [
  | inl idle ↦
      let here : s.pc ≡ Pc.idle = idle_lem s.pc idle in
      let stays : handler_step later s.pc s ≡ s = rw here refl in
      rw (idle, stays) (record { bound = omega arith; going = g })
  | inr busy ↦
      let l = handler_step-Less later s.pc s refl busy g.cleaning in
      rw busy (record {
        bound = omega (arith, l.less);
        going = record {
          cleaning = l.cleaning;
          started = handler_step-started later s.pc s ∙ g.started;
        };
      })
]
Step-Spent s _ g (completes n e) =
    let small = woken-to_test (s.pending_regs - 1 == 0 && s.cleaning_up) s.cleanup in
    record {
      bound = omega (arith, e, small);
      going = record { cleaning = g.cleaning; started = woken-has_started _ s.cleanup ∙ g.started };
    }
Step-Spent s _ g (starts_cleanup e) = absurd (ground (arith, e, g.started))
Step-Spent s _ g (tests e) = elim (Bool-cases (s.pending_regs == 0)) [
  | inl none_left ↦
      rw (none_left, e)
        (record { bound = omega arith; going = record { cleaning = g.cleaning; started = refl } })
  | inr some_left ↦
      rw (some_left, e)
        (record { bound = omega arith; going = record { cleaning = g.cleaning; started = refl } })
]

Steps-Spent : (s t : PongWa7) → Going s → (st : Steps s t) → Spent s t (works st) (entries st)
unfolding works entries
Steps-Spent s _ g done = record { bound = omega arith; going = g }
Steps-Spent s _ g (and_step {t} {u} steps step) =
    let one = Steps-Spent s t g steps in
    let two = Step-Spent t u one.going step in
    record { bound = omega (arith, one.bound, two.bound); going = two.going }

-- While cleanup_module waits there is some of the work to do.
work_left :
    (s : PongWa7)
    → IsCounted s
    → IsAlert s
    → in_wait s.cleanup ≡ true
    → (t : PongWa7) × (st : Step s t) × (as_work st ≡ 1)
work_left s counts a waits = go s.cleanup refl
  where
    go : (c : Cleanup) → s.cleanup ≡ c → (t : PongWa7) × (st : Step s t) × (as_work st ≡ 1)
    go Cleanup.waiting e = (test_pending s, tests e, refl)
    go Cleanup.asleep e =
        let some_pending = a.pending (rw e refl) in
        elim (Bool-cases (is_idle s.pc)) [
          | inr busy ↦ (handler_step true s.pc s, handles true, rw busy refl)
          | inl idle ↦
              let here : s.pc ≡ Pc.idle = idle_lem s.pc idle in
              let balance = rw here at counts in
              let ops : s.ops ≡ suc (s.ops - 1) = omega (arith, balance, some_pending) in
              (complete s, completes (s.ops - 1) ops, refl)
        ]
    go Cleanup.not_started e = absurd (ground (arith, e, waits))
    go Cleanup.woken e = absurd (ground (arith, e, waits))

started_lem : (c : Cleanup) → in_wait c ≡ true → has_started c ≡ true
started_lem Cleanup.waiting e = refl
started_lem Cleanup.asleep e = refl
started_lem Cleanup.not_started e = absurd (ground (arith, e))
started_lem Cleanup.woken e = refl

place : (c : Cleanup) → has_started c ≡ true → (c ≡ Cleanup.woken) ⊎ (in_wait c ≡ true)
place Cleanup.woken e = inl refl
place Cleanup.waiting e = inr refl
place Cleanup.asleep e = inr refl
place Cleanup.not_started e = absurd (ground (arith, e))

to_idle_bound : (pc : Pc) → to_idle pc ≤ 4
to_idle_bound Pc.idle = omega arith
to_idle_bound _ = omega arith

-- cleanup_module is not kept waiting for ever. From a state with nothing pending in which no handler runs
-- and cleanup_module has not been called, let any steps of the three threads lead to `t`, in which it
-- waits, awake or asleep, and any more to `u`. In `u` it has gone on, or some of the work can be done:
-- the handler goes on, the kernel completes a call that it put off, or cleanup_module tests
-- `pending_regs`. And from `t` to `u` at most 17 + 2 * ops such steps were taken, with 4 more for each
-- handler entered meanwhile, where `ops` calls were put off in `t`.
pub wait_ends :
    (s t u : PongWa7)
    → s.pc ≡ Pc.idle
    → s.pending_regs ≡ 0
    → s.ops ≡ 0
    → s.cleanup ≡ Cleanup.not_started
    → Steps s t
    → in_wait t.cleanup ≡ true
    → (more : Steps t u)
    → (works more ≤ 17 + 2 * t.ops + 4 * entries more)
      × ((u.cleanup ≡ Cleanup.woken) ⊎ ((v : PongWa7) × (st : Step u v) × (as_work st ≡ 1)))
unfolding work
wait_ends s t u idle none_pending none_put_off not_yet steps waits more =
    let start : IsCounted s = rw (idle, none_pending, none_put_off) (omega arith) in
    let calm : IsAlert s = record {
      cleaning = λ w. absurd (ground (arith, not_yet, w));
      pending = λ w. absurd (ground (arith, not_yet, w));
    } in
    let counts = Steps-IsCounted s t start steps in
    let alert = Steps-IsAlert s t calm steps in
    let going : Going t = record {
      cleaning = alert.cleaning waits;
      started = started_lem t.cleanup waits;
    } in
    let spent = Steps-Spent t u going more in
    let path = to_idle_bound t.pc in
    let test = woken-to_test false t.cleanup in
    (
      omega (arith, spent.bound, path, test),
      elim (place u.cleanup spent.going.started) [
        | inl woken ↦ inl woken
        | inr still ↦
            inr (work_left u (Steps-IsCounted t u counts more) (Steps-IsAlert t u alert more) still)
      ],
    )
