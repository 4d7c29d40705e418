-- ===== src/Existing/Pong/Turns.antt =====
-- The passes of pong.c: its two handlers take turns.
use uprobe_tests.Base.{
  ℕ, ◌+◌, ◌≡◌, ◌⊎◌, refl, true, false, ◌&&◌, ◌||◌, [], ◌∷◌, arith, Bool-cases, inl, inr, ◌==◌, ℤ,
  is_zero, eq_int, neg_einprogress,
}
use uprobe_tests.Kernel.{Arg, Event, Kernel, World}
use uprobe_tests.Kernel.Count.{add_if, registers, unregisters}
use uprobe_tests.Udbgfs.Session.{IsOpen, ProbeEvent, ProbeEvent-IsOpen}
use uprobe_tests.Existing.Common.{
  inc, IsDeferred, say_if, say_if-IsOpen, say_if-trace, note_answer-IsOpen, note_answer_flag,
  note_answer-trace,
}
use uprobe_tests.Existing.Pong.{Params, Pong, entry_handler, return_handler}

-- The kernel runs the handler of a probe that is registered.
pub data Step (H : Kernel) (c : Params) : Pong → Pong → Type 0 where
  enters : {s : Pong} → s.entry_registered ≡ true → Step H c s (entry_handler H c s)
  returns : {s : Pong} → s.return_registered ≡ true → Step H c s (return_handler H c s)

pub data Steps (H : Kernel) (c : Params) (s : Pong) : Pong → Type 0 where
  done : Steps H c s s
  and_step : {t u : Pong} → Steps H c s t → Step H c t u → Steps H c s u

-- Whose turn it is, and how the counters stand; with `stuck` neither probe is registered.
pub data Turn (s : Pong) : Type 0 where
  entry_next :
      s.entry_registered ≡ true → s.return_registered ≡ false → s.ncalls ≡ s.nreturns → Turn s
  return_next :
      s.entry_registered ≡ false → s.return_registered ≡ true → s.ncalls ≡ inc s.nreturns → Turn s
  stuck :
      s.entry_registered ≡ false
      → s.return_registered ≡ false
      → (s.ncalls ≡ s.nreturns) ⊎ (s.ncalls ≡ inc s.nreturns)
      → Turn s

-- Each probe has one registration outstanding exactly while its flag is set.
pub record IsLoaded (b s : Pong) : Type 0 where
  pub opened : IsOpen b.world s.world
  pub probes :
      (a : ℕ)
      → registers a s.world.trace + unregisters a b.world.trace
        ≡ registers a b.world.trace
          + unregisters a s.world.trace
          + add_if
              (s.entry_registered && a == s.entry_probe.addr)
              (add_if (s.return_registered && a == s.return_probe.addr) 0)

-- What `entry_handler` does.
record Entered (H : Kernel) (s t : Pong) : Type 0 where
  trace :
      t.world.trace
      ≡ Event.unregister_uprobe s.entry_probe
        ∷ Event.register_uretprobe s.return_probe (H.register_ret s.world.trace s.return_probe)
        ∷ s.world.trace
  opened : (b : World) → IsOpen b s.world → IsOpen b t.world
  entry_off : t.entry_registered ≡ false
  answer : t.return_registered ≡ (
      s.return_registered || eq_int (H.register_ret s.world.trace s.return_probe) neg_einprogress)
  calls : t.ncalls ≡ inc s.ncalls
  returns : t.nreturns ≡ s.nreturns
  entry_same : t.entry_probe ≡ s.entry_probe
  return_same : t.return_probe ≡ s.return_probe

-- What `return_handler` does.
record Returned (H : Kernel) (s t : Pong) : Type 0 where
  trace :
      (r : ℤ) × (t.world.trace
        ≡ Event.register_uprobe s.entry_probe r
          ∷ Event.unregister_uretprobe s.return_probe
          ∷ s.world.trace)
      × (is_zero r ≡ false)
      × (t.entry_registered ≡ (s.entry_registered || eq_int r neg_einprogress))
  opened : (b : World) → IsOpen b s.world → IsOpen b t.world
  return_off : t.return_registered ≡ false
  calls : t.ncalls ≡ s.ncalls
  returns : t.nreturns ≡ inc s.nreturns
  entry_same : t.entry_probe ≡ s.entry_probe
  return_same : t.return_probe ≡ s.return_probe

module _ (H : Kernel) (deferred : IsDeferred H) (c : Params) where
  entry_handler-Entered : (s : Pong) → Entered H s (entry_handler H c s)
  unfolding entry_handler
  entry_handler-Entered s = record {
    trace = simp (say_if-trace, note_answer-trace);
    opened = λ b o. ProbeEvent-IsOpen ProbeEvent.unregister (
        say_if-IsOpen H c.verbose _ _ b _ (
          note_answer-IsOpen H _ _ _ b _ (
            ProbeEvent-IsOpen ProbeEvent.register_ret
              (say_if-IsOpen H c.verbose _ _ b s.world o))));
    entry_off = refl;
    answer = simp (say_if-trace, note_answer_flag);
    calls = refl;
    returns = refl;
    entry_same = refl;
    return_same = refl;
  }

  return_handler-Returned : (s : Pong) → Returned H s (return_handler H c s)
  unfolding return_handler
  return_handler-Returned s =
      let told : World =
        say_if H c.verbose "returns = %d: Unregistering return handler\n"
          (Arg.num (inc s.nreturns) ∷ []) s.world in
      let gone : World = record told {
        trace = Event.unregister_uretprobe s.return_probe ∷ told.trace;
      } in
      let w : World = say_if H c.verbose "Registering entry handler\n" [] gone in
      record {
        trace = (
          H.register w.trace s.entry_probe,
          simp (say_if-trace, note_answer-trace),
          deferred.uprobe w.trace s.entry_probe,
          simp (note_answer_flag),
        );
        opened = λ b o. note_answer-IsOpen H _ _ _ b _ (
            ProbeEvent-IsOpen ProbeEvent.register (
              say_if-IsOpen H c.verbose _ _ b _ (
                ProbeEvent-IsOpen ProbeEvent.unregister_ret
                  (say_if-IsOpen H c.verbose _ _ b s.world o))));
        return_off = refl;
        calls = refl;
        returns = refl;
        entry_same = refl;
        return_same = refl;
      }

  -- Only one probe is registered at a time.
  Turn-entry : (s : Pong) → s.entry_registered ≡ true → Turn s → s.return_registered ≡ false
  Turn-entry s on (entry_next _ off _) = off
  Turn-entry s on (return_next off _ _) = absurd (ground arith)
  Turn-entry s on (stuck _ off _) = off

  Turn-return : (s : Pong) → s.return_registered ≡ true → Turn s → s.entry_registered ≡ false
  Turn-return s on (entry_next _ off _) = absurd (ground arith)
  Turn-return s on (return_next off _ _) = off
  Turn-return s on (stuck off _ _) = off

  Entered-Turn : (s t : Pong) → s.entry_registered ≡ true → Entered H s t → Turn s → Turn t
  Entered-Turn s t on e (entry_next _ off same) = elim (Bool-cases t.return_registered) [
    | inl r ↦ return_next e.entry_off r (ground (arith, e.calls, e.returns, same))
    | inr r ↦ stuck e.entry_off r (inr (ground (arith, e.calls, e.returns, same)))
  ]
  Entered-Turn s t on e (return_next off _ _) = absurd (ground arith)
  Entered-Turn s t on e (stuck off _ _) = absurd (ground arith)

  Returned-Turn : (s t : Pong) → s.return_registered ≡ true → Returned H s t → Turn s → Turn t
  Returned-Turn s t on e (entry_next _ off _) = absurd (ground arith)
  Returned-Turn s t on e (return_next _ _ same) = elim (Bool-cases t.entry_registered) [
    | inl r ↦ entry_next r e.return_off (ground (arith, e.calls, e.returns, same))
    | inr r ↦ stuck r e.return_off (inl (ground (arith, e.calls, e.returns, same)))
  ]
  Returned-Turn s t on e (stuck _ off _) = absurd (ground arith)

  Entered-IsLoaded :
      (b s t : Pong)
      → s.entry_registered ≡ true
      → s.return_registered ≡ false
      → Entered H s t
      → IsLoaded b s
      → IsLoaded b t
  unfolding registers unregisters
  Entered-IsLoaded b s t on off e l =
      let kept_off = deferred.uretprobe s.world.trace s.return_probe in
      record {
        opened = e.opened b.world l.opened;
        probes = λ a. ground (
          arith,
          l.probes a,
          on,
          off,
          kept_off,
          e.trace,
          e.entry_off,
          e.answer,
          e.entry_same,
          e.return_same,
        );
      }

  Returned-IsLoaded :
      (b s t : Pong)
      → s.return_registered ≡ true
      → s.entry_registered ≡ false
      → Returned H s t
      → IsLoaded b s
      → IsLoaded b t
  unfolding registers unregisters
  Returned-IsLoaded b s t on off e l =
      let (r, trace, kept_off, flag) = e.trace in
      record {
        opened = e.opened b.world l.opened;
        probes = λ a. ground (
          arith,
          l.probes a,
          on,
          off,
          kept_off,
          trace,
          e.return_off,
          flag,
          e.entry_same,
          e.return_same,
        );
      }

  pub Steps-IsLoaded :
      (b s t : Pong) → IsLoaded b s → Turn s → Steps H c s t → IsLoaded b t × Turn t
  Steps-IsLoaded b s _ l turn done = (l, turn)
  Steps-IsLoaded b s _ l turn (and_step {t} steps (enters on)) =
      let (l', turn') = Steps-IsLoaded b s t l turn steps in
      let e = entry_handler-Entered t in
      (Entered-IsLoaded b t _ on (Turn-entry t on turn') e l', Entered-Turn t _ on e turn')
  Steps-IsLoaded b s _ l turn (and_step {t} steps (returns on)) =
      let (l', turn') = Steps-IsLoaded b s t l turn steps in
      let e = return_handler-Returned t in
      (Returned-IsLoaded b t _ on (Turn-return t on turn') e l', Returned-Turn t _ on e turn')
