-- ===== src/Existing/Probe6/Report/Steps.antt =====
-- What the calls of the program and the report at the end add to what probe6.c shows.
use uprobe_tests.Base.{
  ℕ, ◌%◌, ◌≡◌, ◌<◌, refl, ap, ◌∙◌, true, List, [], ◌∷◌, ◌++◌, arith, String, min, Bool-cases, inl,
  inr, length, length-append, All,
}
use mathlib.Core.List.{append_assoc, append-nil}
use uprobe_tests.Kernel.{codes, Arg, Trace, Kernel, World}
use uprobe_tests.Udbgfs.{data_buf_size}
use uprobe_tests.Udbgfs.Buffer.{texts, texts-append, IsVsnprintf}
use uprobe_tests.Udbgfs.Cleanup.{write_cleanup_first}
use uprobe_tests.Udbgfs.Shows.{Shows, test_printk-Shows_texts}
use uprobe_tests.Existing.Infos.{Infos}
use uprobe_tests.Existing.Probe6.{Params, report, child_exit}
use uprobe_tests.Existing.Probed.{Fn, Work, End}
use uprobe_tests.Existing.Probed.Sums.{calls_of}
use uprobe_tests.Existing.Probe6.Report.{
  fn_name, has_entry, on_call, on_calls, probe_and_report, places, armed, armed_all, bump, AreApart,
  told, Line, called, count_line, if_verbose,
}
use uprobe_tests.Existing.Probe6.Report.Calls.{on_call-armed}
use uprobe_tests.Existing.Probe6.Report.Load.{Ready}

-- The lines of the calls, of which the newest stands first.
abbrev pub said : List Fn → List Line
said [] = []
said (f ∷ older) = said older ++ called f ∷ []

abbrev pub count_lines : (Fn → ℕ) → List (ℕ × Fn) → List Line
count_lines ns [] = []
count_lines ns ((a, f) ∷ ps) = count_line ns f ∷ count_lines ns ps

module _ {K : Kernel} {render : String → List Arg → List ℕ} (V : IsVsnprintf K render) (c : Params)
    (apart : AreApart K c) where
  abbrev pub counts : List Fn → Fn → ℕ
  counts [] f = 0
  counts (g ∷ older) f = bump K c g (counts older) f

  pub counts-calls_of : (calls : List Fn) (f : Fn) → counts calls f ≡ calls_of f calls % 4294967296
  unfolding calls_of
  counts-calls_of [] f = omega arith
  counts-calls_of (g ∷ older) f = ground (arith, counts-calls_of older f)

  pub fits_before :
      (ps qs : List Line)
      → length (texts render (ps ++ qs)) < data_buf_size
      → length (texts render ps) < data_buf_size
  fits_before ps qs fits = omega (
    arith,
    fits,
    ap length (texts-append render ps qs),
    length-append (texts render ps) (texts render qs),
  )

  told-Shows :
      (f : Fn) (ps : List Line) (older : List Fn) (w : World)
      → Shows w (texts render (ps ++ if_verbose c (said older)))
      → length (texts render (ps ++ if_verbose c (said (f ∷ older)))) < data_buf_size
      → Shows (told K c f w) (texts render (ps ++ if_verbose c (said (f ∷ older))))
        × ((told K c f w).entry ≡ w.entry)
  told-Shows f ps older w shown fits = elim (Bool-cases c.verbose) [
    | inl loud ↦
        let split = append_assoc ps (said older) (called f ∷ []) in
        let shown' : Shows w (texts render (ps ++ said older)) = rw loud at shown in
        let fits' : length (texts render (ps ++ (said older ++ called f ∷ []))) < data_buf_size =
          rw loud at fits in
        let more =
          test_printk-Shows_texts V "%s called\n" (Arg.str (codes (fn_name f)) ∷ []) w
            (ps ++ said older) shown' (rw (← split) at fits') in
        rw loud (rw (← split) more, refl)
    | inr quiet ↦ rw quiet (rw quiet at shown, refl)
  ]

  -- A call more.
  told-Ready :
      (f : Fn) (ns : Fn → ℕ) (ps : List Line) (older : List Fn) (s : Infos)
      → has_entry f ≡ true
      → Ready V c s ns (ps ++ if_verbose c (said older))
      → length (texts render (ps ++ if_verbose c (said (f ∷ older)))) < data_buf_size
      → Ready V c (on_call K c f s) (bump K c f ns) (ps ++ if_verbose c (said (f ∷ older)))
  told-Ready f ns ps older s has ready fits =
      let same : s ≡ record { world = s.world; probes = armed K c ns } =
        λ i. record { world = s.world; probes = ready.array i } in
      let (shown, unused) = told-Shows f ps older s.world ready.shows fits in
      rw (ap (on_call K c f) same ∙ on_call-armed K c apart f ns s.world has)
        (record { array = refl; shows = shown; unused = unused ∙ ready.unused })

  if_verbose_less :
      (ps qs rs : List Line)
      → length (texts render (ps ++ if_verbose c (qs ++ rs))) < data_buf_size
      → length (texts render (ps ++ if_verbose c qs)) < data_buf_size
  if_verbose_less ps qs rs fits = elim (Bool-cases c.verbose) [
    | inl loud ↦
        let fits' : length (texts render (ps ++ (qs ++ rs))) < data_buf_size = rw loud at fits in
        rw loud (fits_before (ps ++ qs) rs (rw (← append_assoc ps qs rs) at fits'))
    | inr quiet ↦ rw quiet (rw quiet at fits)
  ]

  -- All calls of the program.
  pub on_calls-Ready :
      (calls : List Fn) (ps : List Line) (s : Infos)
      → All (λ f. has_entry f ≡ true) calls
      → Ready V c s (λ _. 0) ps
      → length (texts render (ps ++ if_verbose c (said calls))) < data_buf_size
      → Ready V c (on_calls K c calls s) (counts calls) (ps ++ if_verbose c (said calls))
  unfolding on_calls
  on_calls-Ready [] ps s all ready fits =
      let none : ps ++ if_verbose c [] ≡ ps = elim (Bool-cases c.verbose) [
        | inl loud ↦ rw loud (append-nil ps)
        | inr quiet ↦ rw quiet (append-nil ps)
      ] in
      rw none ready
  on_calls-Ready (f ∷ older) ps s (has, all) ready fits =
      told-Ready f (counts older) ps older (on_calls K c older s) has
        (on_calls-Ready older ps s all ready (if_verbose_less ps (said older) (called f ∷ []) fits))
        fits

  -- The lines of `child_exit`.
  report-Shows :
      (ns : Fn → ℕ) (qs : List (ℕ × Fn)) (ps : List Line) (w : World)
      → Shows w (texts render ps)
      → length (texts render (ps ++ count_lines ns qs)) < data_buf_size
      → Shows (report K c (armed_all K c ns qs) w) (texts render (ps ++ count_lines ns qs))
  unfolding report
  report-Shows ns [] ps w shown fits = rw (append-nil ps) shown
  report-Shows ns ((a, f) ∷ qs) ps w shown fits =
      let split = append_assoc ps (count_line ns f ∷ []) (count_lines ns qs) in
      let fits' : length (texts render ((ps ++ count_line ns f ∷ []) ++ count_lines ns qs))
          < data_buf_size =
        rw split fits in
      rw (← split) (
        report-Shows ns qs (ps ++ count_line ns f ∷ []) _
          (test_printk-Shows_texts V "probe6 %s=%d calls\n"
            (Arg.str (codes (fn_name f)) ∷ Arg.num (ns f) ∷ []) w ps shown
            (fits_before (ps ++ count_line ns f ∷ []) (count_lines ns qs) fits'))
          fits')

  pub probe_and_report-Shows :
      (count : ℕ) (w : Work) (ns : Fn → ℕ) (ps : List Line) (s : Infos)
      → Ready V c (on_calls K c w.calls s) ns ps
      → ((t : Trace) (len : ℕ) → K.copy t len ≡ 0)
      → length (texts render (ps ++ count_lines ns places)) < data_buf_size
      → Shows
          (probe_and_report K c count (End.exits 0 w) s)
          (texts render (ps ++ count_lines ns places))
  unfolding probe_and_report child_exit
  probe_and_report-Shows count w ns ps s ready arrives fits =
      let hit : Infos = on_calls K c w.calls s in
      rw
        (
          write_cleanup_first K (λ v. (tt, (child_exit K c (record hit { world = v })).world)) count
              hit.world ready.unused (arrives hit.world.trace (min count 31)),
          ready.array,
        )
        (report-Shows ns places ps _
          (record {
            buf = ready.shows.buf;
            is_buf = ready.shows.is_buf;
            is_log = ready.shows.is_log;
          })
          fits)
