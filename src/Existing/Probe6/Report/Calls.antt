-- ===== src/Existing/Probe6/Report/Calls.antt =====
-- A call of a function with a probe counts in its entry alone.
use uprobe_tests.Base.{ℕ, ◌≡◌, refl, true, List, [], ◌∷◌, All, ◌==◌, if◌then◌else◌}
use uprobe_tests.Kernel.{Kernel, World}
use uprobe_tests.Existing.Infos.{Infos}
use uprobe_tests.Existing.Probe6.{Params, u_handler}
use uprobe_tests.Existing.Probed.{Fn}
use uprobe_tests.Existing.Probed.Sums.{is_fn}
use uprobe_tests.Existing.Probe6.Report.{
  has_entry, address, on_call, run_handlers, places, armed, armed_entry, armed_all, bump, AreApart,
  told,
}

module _ (K : Kernel) (c : Params) (f : Fn) (ns : Fn → ℕ) where
  abbrev after_entry : ℕ → Fn → Infos → Infos
  after_entry a g s = if is_fn g f then u_handler K c (armed_entry K c ns a g) s else s

  abbrev after_all : List (ℕ × Fn) → Infos → Infos
  after_all [] s = s
  after_all ((a, g) ∷ ps) s = after_all ps (after_entry a g s)

  run-armed_all :
      (ps : List (ℕ × Fn)) (s : Infos)
      → All (λ q. (address K q.1 == address K f) ≡ is_fn q.1 f) ps
      → run_handlers K c (address K f) (armed_all K c ns ps) s ≡ after_all ps s
  unfolding run_handlers
  run-armed_all [] s row = refl
  run-armed_all ((a, g) ∷ ps) s (same, row) =
      rw (run_handlers, same) (run-armed_all ps (after_entry a g s) row)

module _ (K : Kernel) (c : Params) (apart : AreApart K c) where
  abbrev here : (Fn → ℕ) → World → Infos
  here ns w = record { world = w; probes = armed K c ns }

  -- The call counts for its function, and is told if `verbose`.
  pub on_call-armed :
      (f : Fn) (ns : Fn → ℕ) (w : World)
      → has_entry f ≡ true
      → on_call K c f (record { world = w; probes = armed K c ns })
        ≡ record { world = told K c f w; probes = armed K c (bump K c f ns) }
  unfolding on_call u_handler
  on_call-armed Fn.add ns w has = run-armed_all K c Fn.add ns places (here ns w) apart.0
  on_call-armed Fn.bye ns w has = run-armed_all K c Fn.bye ns places (here ns w) apart.1.0
  on_call-armed Fn.adios ns w has = run-armed_all K c Fn.adios ns places (here ns w) apart.1.1.0
  on_call-armed Fn.au_revoir ns w has =
      run-armed_all K c Fn.au_revoir ns places (here ns w) apart.1.1.1.0
  on_call-armed Fn.auf_wiedersehen ns w has =
      run-armed_all K c Fn.auf_wiedersehen ns places (here ns w) apart.1.1.1.1.0
  on_call-armed Fn.arrivederci ns w has =
      run-armed_all K c Fn.arrivederci ns places (here ns w) apart.1.1.1.1.1.0
  on_call-armed Fn.subtract ns w has = absurd (cc has)
