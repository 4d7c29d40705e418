-- ===== src/Existing/Blink/Period.antt =====
-- When the second probe of blink.c is registered.
use uprobe_tests.Base.{
  ℕ, zero, suc, ◌<◌, ◌%◌, ltb, leb, ◌≡◌, refl, sym, ◌∙◌, Bool, true, false, ◌&&◌, ◌||◌, not, [],
  ◌∷◌, arith, Bool-cases, inl, inr, ℤ, eq_int, neg_einprogress, if◌then◌else◌,
}
use uprobe_tests.Kernel.{Arg, Event, Trace, Uprobe, Kernel, World}
use uprobe_tests.Existing.Common.{inc, say_if, note_answer_flag}
use uprobe_tests.Existing.Blink.{
  Params, Blink, divides, blink, register_blink, register_third, steady,
}

module _ (H : Kernel) (c : Params) where
  -- A hit of the one address that both probes of blink.c are at: the steady handler, and then the
  -- other if it was registered before the hit.
  pub hit : Blink → Blink
  hit s = if s.registered then blink H c (steady H c s) else steady H c s

  pub hits : ℕ → Blink → Blink
  hits zero s = s
  hits (suc n) s = hit (hits n s)

  -- With 15 hits the counts of three and five come round.
  abbrev pub in_period : ℕ → Bool
  in_period r = (leb 3 r && ltb r 5) || (leb 6 r && ltb r 10) || (leb 12 r && ltb r 15)

  period_step :
      (n : ℕ)
      → suc n < 2147483648
      → in_period (suc n % 15)
        ≡ (if in_period (n % 15) then not (divides 5 (suc n)) else divides 3 (suc n))
  period_step n lt = ground arith

  module _ (has : c.has_callback ≡ true)
      (later : (t : Trace) (u : Uprobe) → eq_int (H.register t u) neg_einprogress ≡ true) where
    steady-registered :
        (s : Blink)
        → ((steady H c s).registered ≡ (s.registered || divides 3 (inc s.ncalls)))
          × ((steady H c s).ncalls ≡ inc s.ncalls)
    unfolding steady register_third register_blink
    steady-registered s =
        let told : World =
          say_if H c.verbose "ncalls = %d: Registering blink handler\n"
            (Arg.num (inc s.ncalls) ∷ []) s.world in
        let r : ℤ = H.register told.trace s.usp_blink in
        let after : World = record told {
          trace = Event.register_uprobe s.usp_blink r ∷ told.trace;
        } in
        let flag =
          note_answer_flag H "steady handler's register_uprobe() failed; returned %d\n" r
            s.registered after in
        let late = later told.trace s.usp_blink in
        (ground (arith, flag, late, has), ground (arith, has))

    blink-registered :
        (s : Blink)
        → ((blink H c s).registered ≡ (s.registered && not (divides 5 s.ncalls)))
          × ((blink H c s).ncalls ≡ s.ncalls)
    unfolding blink
    blink-registered s = (ground arith, ground arith)

    -- Where the kernel puts off every registration, blink.c, starting from no hit with its second
    -- probe not registered, has after `n` hits of its address, `n` below 2 ^ 31, counted `n`, and
    -- its second probe is registered exactly where `n % 15` is 3 or 4, 6 to 9, or 12 to 14: from a
    -- multiple of three up to a multiple of five at which it was already registered. (Built with
    -- UPROBES_REG_CALLBACK.)
    pub hits_registered :
        (n : ℕ) (s : Blink)
        → n < 2147483648
        → s.ncalls ≡ 0
        → s.registered ≡ false
        → ((hits n s).ncalls ≡ n) × ((hits n s).registered ≡ in_period (n % 15))
    unfolding hits hit
    hits_registered zero s lt none_yet off = (none_yet, off)
    hits_registered (suc n) s lt none_yet off =
        let (e, r) = hits_registered n s (omega arith) none_yet off in
        let (r1, e1) = steady-registered (hits n s) in
        let (r2, e2) = blink-registered (steady H c (hits n s)) in
        let step = period_step n lt in
        let counted : inc (hits n s).ncalls ≡ suc n = omega (arith, e) in
        elim (Bool-cases (hits n s).registered) [
          | inl on ↦
              let was : in_period (n % 15) ≡ true = sym r ∙ on in
              let now : ((steady H c (hits n s)).registered
                    && not (divides 5 (steady H c (hits n s)).ncalls))
                  ≡ not (divides 5 (suc n)) =
                rw (r1, on, e1, counted) refl in
              let table : (if in_period (n % 15)
                    then not (divides 5 (suc n))
                    else divides 3 (suc n))
                  ≡ not (divides 5 (suc n)) =
                rw was refl in
              simp on (e2 ∙ e1 ∙ counted, r2 ∙ now ∙ sym table ∙ sym step)
          | inr not_on ↦
              let was : in_period (n % 15) ≡ false = sym r ∙ not_on in
              let now : ((hits n s).registered || divides 3 (inc (hits n s).ncalls))
                  ≡ divides 3 (suc n) =
                rw (not_on, counted) refl in
              let table : (if in_period (n % 15)
                    then not (divides 5 (suc n))
                    else divides 3 (suc n))
                  ≡ divides 3 (suc n) =
                rw was refl in
              simp not_on (e1 ∙ counted, r1 ∙ now ∙ sym table ∙ sym step)
        ]
