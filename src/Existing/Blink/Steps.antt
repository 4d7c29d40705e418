-- ===== src/Existing/Blink/Steps.antt =====
-- The hits of blink.c and blink2.c, in any order.
use uprobe_tests.Base.{
  ℕ, ◌+◌, ◌≡◌, true, false, ◌&&◌, not, [], ◌∷◌, arith, Bool-cases, inl, inr, ◌==◌, ℤ,
}
use uprobe_tests.Kernel.{Arg, Event, Kernel, World}
use uprobe_tests.Kernel.Count.{add_if, registers, unregisters}
use uprobe_tests.Udbgfs.Session.{IsOpen, ProbeEvent, ProbeEvent-IsOpen}
use uprobe_tests.Existing.Common.{
  inc, IsDeferred, say_if, say_if-IsOpen, say_if-trace, note_answer-IsOpen, note_answer_flag,
  note_answer-trace,
}
use uprobe_tests.Existing.Blink.{
  Params, Blink, divides, blink, register_blink, register_third, steady,
}

-- The steady probe is always registered; the other runs when it is.
pub data Steps (H : Kernel) (c : Params) (s : Blink) : Blink → Type 0 where
  done : Steps H c s s
  steady_hit : {t : Blink} → Steps H c s t → Steps H c s (steady H c t)
  blink_hit : {t : Blink} → Steps H c s t → t.registered ≡ true → Steps H c s (blink H c t)

-- The steady probe has one registration outstanding, and the other while its flag is set.
pub record IsLoaded (b : World) (s : Blink) : Type 0 where
  pub opened : IsOpen b s.world
  pub probes :
      (a : ℕ)
      → registers a s.world.trace + unregisters a b.trace
        ≡ registers a b.trace
          + unregisters a s.world.trace
          + add_if (a == s.usp_steady.addr) (add_if (s.registered && a == s.usp_blink.addr) 0)

module _ (H : Kernel) (deferred : IsDeferred H) (c : Params) where
  register_blink-IsLoaded :
      (b : World) (s : Blink)
      → s.registered ≡ false
      → IsLoaded b s
      → IsLoaded b (register_blink H c s)
  unfolding register_blink registers unregisters
  register_blink-IsLoaded b s off l =
      let after : World = record (s.world) {
        trace =
            Event.register_uprobe s.usp_blink (H.register s.world.trace s.usp_blink)
            ∷ s.world.trace;
      } in
      let r : ℤ = H.register s.world.trace s.usp_blink in
      let same =
        note_answer-trace H "steady handler's register_uprobe() failed; returned %d\n" r
          s.registered after in
      let flag =
        note_answer_flag H "steady handler's register_uprobe() failed; returned %d\n" r s.registered
          after in
      let kept_off = deferred.uprobe s.world.trace s.usp_blink in
      record {
        opened = note_answer-IsOpen H _ _ _ b _ (ProbeEvent-IsOpen ProbeEvent.register l.opened);
        probes = λ a. simp (same, flag) (ground (arith, l.probes a, off, kept_off));
      }

  register_third-IsLoaded :
      (b : World) (s : Blink) → IsLoaded b s → IsLoaded b (register_third H c s)
  unfolding register_third
  register_third-IsLoaded b s l =
      let told : Blink = record s {
        world =
            say_if H c.verbose "ncalls = %d: Registering blink handler\n" (Arg.num s.ncalls ∷ [])
              s.world;
      } in
      let l' : IsLoaded b told = record {
        opened = say_if-IsOpen H c.verbose _ _ b s.world l.opened;
        probes = λ a. simp (say_if-trace) (l.probes a);
      } in
      elim (Bool-cases (not s.registered && divides 3 s.ncalls)) [
        | inl third ↦
            let off : s.registered ≡ false = ground (arith, third) in
            elim (Bool-cases c.has_callback) [
              | inl has ↦ simp (third, has) (register_blink-IsLoaded b told off l')
              | inr without ↦ simp (third, without) l'
            ]
        | inr other ↦ simp other l
      ]

  steady-IsLoaded : (b : World) (s : Blink) → IsLoaded b s → IsLoaded b (steady H c s)
  unfolding steady
  steady-IsLoaded b s l =
      register_third-IsLoaded b (record s { ncalls = inc s.ncalls })
        (record { opened = l.opened; probes = l.probes })

  blink-IsLoaded :
      (b : World) (s : Blink) → s.registered ≡ true → IsLoaded b s → IsLoaded b (blink H c s)
  unfolding blink registers unregisters
  blink-IsLoaded b s on l = elim (Bool-cases (divides 5 s.ncalls)) [
    | inl fifth ↦
        let same =
          say_if-trace H c.verbose "ncalls = %d: Unregistering blink handler\n"
            (Arg.num s.ncalls ∷ []) s.world in
        simp fifth (record {
          opened =
              ProbeEvent-IsOpen ProbeEvent.unregister
                (say_if-IsOpen H c.verbose _ _ b s.world l.opened);
          probes = λ a. simp same (ground (arith, l.probes a, on));
        })
    | inr other ↦ simp other l
  ]

  pub Steps-IsLoaded : (b : World) (s t : Blink) → IsLoaded b s → Steps H c s t → IsLoaded b t
  Steps-IsLoaded b s _ l done = l
  Steps-IsLoaded b s _ l (steady_hit {t} steps) = steady-IsLoaded b t (Steps-IsLoaded b s t l steps)
  Steps-IsLoaded b s _ l (blink_hit {t} steps on) =
      blink-IsLoaded b t on (Steps-IsLoaded b s t l steps)
