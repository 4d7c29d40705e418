-- ===== src/Existing/Probe5/Report/Hits.antt =====
-- The state of probe5.c after any number of calls of `add`, and after `child_exit`.
use uprobe_tests.Base.{
  ℕ, suc, ◌%◌, min, ◌<◌, ◌≤◌, ◌≡◌, refl, ap, ◌∙◌, true, List, [], ◌∷◌, ◌++◌, String, arith,
  Bool-cases, inl, inr, ◌==◌, length, length-append, All, pos, is_zero,
}
use mathlib.Core.List.{append-nil, append_assoc}
use uprobe_tests.Kernel.{Arg, Trace, Kernel}
use uprobe_tests.Udbgfs.{data_buf_size, u_dbfs_init}
use uprobe_tests.Udbgfs.Buffer.{IsVsnprintf}
use uprobe_tests.Udbgfs.Cleanup.{write_cleanup_first}
use uprobe_tests.Udbgfs.Shows.{Shows, u_dbfs_init-Shows, u_dbfs_init_entry, test_printk-Shows}
use uprobe_tests.Existing.Probe5.{
  Params, Probe5, placed, add_inst, child_exit, register_usp, init_module,
}
use uprobe_tests.Existing.Probed.{Fn, Work, End}
use uprobe_tests.Existing.Probe5.Report.{
  Addresses, on_calls, probe_and_report, registering, called, copies, whole_report,
}

module _ {K : Kernel} {render : String → List Arg → List ℕ} (V : IsVsnprintf K render) (c : Params)
    (address : Addresses) where
  -- The state after `n` hits: `log` was shown before them.
  pub record AfterHits (vaddr : ℕ) (log : List ℕ) (n : ℕ) (s : Probe5) : Type 0 where
    pub place : s.usp.vaddr ≡ vaddr
    pub counted : s.ncalls ≡ n % 4294967296
    pub entry : s.world.entry ≡ 0
    pub shows : Shows s.world (log ++ called render c n)

  add_inst-AfterHits :
      (vaddr : ℕ) (log : List ℕ) (n : ℕ) (s : Probe5)
      → AfterHits vaddr log n s
      → length (log ++ called render c (suc n)) < data_buf_size
      → AfterHits vaddr log (suc n) (add_inst K c s)
  unfolding add_inst
  add_inst-AfterHits vaddr log n s h fits =
      let text : List ℕ = render "add() called\n" [] in
      elim (Bool-cases c.verbose) [
        | inl loud ↦
            let split = append_assoc log (copies render c n text) text in
            let shown : Shows s.world (log ++ copies render c n text) = rw loud at h.shows in
            let fits' : length (log ++ (copies render c n text ++ text)) < data_buf_size =
              rw loud at fits in
            rw loud (record {
              place = h.place;
              counted = omega (arith, h.counted);
              entry = h.entry;
              shows = rw (← split) (
                  test_printk-Shows V "add() called\n" [] s.world (log ++ copies render c n text)
                    shown
                    (omega (
                      arith,
                      fits',
                      ap length split,
                      length-append (log ++ copies render c n text) text,
                    )));
            })
        | inr quiet ↦ rw quiet (record {
          place = h.place;
          counted = omega (arith, h.counted);
          entry = h.entry;
          shows = rw quiet at h.shows;
        })
      ]

  called_less :
      (log : List ℕ) (n : ℕ)
      → length (log ++ called render c n) ≤ length (log ++ called render c (suc n))
  called_less log n = elim (Bool-cases c.verbose) [
    | inl loud ↦
        let text : List ℕ = render "add() called\n" [] in
        rw loud (
          omega (
            arith,
            length-append log (copies render c n text),
            length-append log (copies render c n text ++ text),
            length-append (copies render c n text) text,
          ))
    | inr quiet ↦ rw quiet (omega arith)
  ]

  pub on_calls-AfterHits :
      (log : List ℕ) (calls : List Fn) (s : Probe5)
      → All (λ f. f ≡ Fn.add) calls
      → AfterHits (address Fn.add) log 0 s
      → length (log ++ called render c (length calls)) < data_buf_size
      → AfterHits (address Fn.add) log (length calls) (on_calls K c address calls s)
  unfolding on_calls
  on_calls-AfterHits log [] s all h fits = h
  on_calls-AfterHits log (f ∷ older) s (is_add, all) h fits =
      let before : AfterHits (address Fn.add) log (length older) (on_calls K c address older s) =
        on_calls-AfterHits log older s all h
          (omega (arith, fits, called_less log (length older))) in
      let here : ((on_calls K c address older s).usp.vaddr == address f) ≡ true =
        rw is_add (ground (arith, before.place)) in
      rw here (add_inst-AfterHits (address Fn.add) log (length older) _ before fits)

  called_zero : (log : List ℕ) → log ++ called render c 0 ≡ log
  called_zero log = elim (Bool-cases c.verbose) [
    | inl loud ↦ rw loud (append-nil log)
    | inr quiet ↦ rw quiet (append-nil log)
  ]

  register_usp-AfterHits :
      (s : Probe5)
      → Shows s.world []
      → s.ncalls ≡ 0
      → s.world.entry ≡ 0
      → length (registering render c (placed K c s.usp).vaddr) < data_buf_size
      → (register_usp K c s).0 ≡ pos 0
      → AfterHits
          (placed K c s.usp).vaddr
          (registering render c (placed K c s.usp).vaddr)
          0
          (register_usp K c s).1
  unfolding register_usp
  register_usp-AfterHits s shown none_yet unused fits ok =
      let u = placed K c s.usp in
      let said =
        test_printk-Shows V "Registering uprobe on pid %d, vaddr %#lx\n"
          (Arg.num u.pid ∷ Arg.num u.vaddr ∷ []) s.world [] shown (omega (arith, fits)) in
      elim (Bool-cases (is_zero (K.register s.world.trace u))) [
        | inl registered ↦ rw registered (record {
          place = refl;
          counted = none_yet ∙ omega arith;
          entry = unused;
          shows =
              rw (called_zero (registering render c u.vaddr))
                (record { buf = said.buf; is_buf = said.is_buf; is_log = said.is_log });
        })
        | inr refused ↦ absurd (ground arith)
      ]

  pub init_module-AfterHits :
      (s : Probe5)
      → (init_module K c s).0 ≡ pos 0
      → s.ncalls ≡ 0
      → s.world.entry ≡ 0
      → length (registering render c (placed K c s.usp).vaddr) < data_buf_size
      → AfterHits
          (placed K c s.usp).vaddr
          (registering render c (placed K c s.usp).vaddr)
          0
          (init_module K c s).1
  unfolding init_module
  init_module-AfterHits s ok none_yet unused fits =
      elim (Bool-cases (is_zero (u_dbfs_init K "probe5" s.world).0)) [
        | inl made ↦ rw made (
            register_usp-AfterHits (record s { world = (u_dbfs_init K "probe5" s.world).1 })
              (u_dbfs_init-Shows K "probe5" s.world made) none_yet
              (u_dbfs_init_entry K "probe5" s.world ∙ unused) fits (rw made at ok))
        | inr bad ↦ absurd (ground arith)
      ]

  -- `child_exit` through the file `cleanup`.
  pub reported :
      (count n : ℕ) (vaddr : ℕ) (w : Work) (s : Probe5)
      → AfterHits vaddr (registering render c vaddr) n (on_calls K c address w.calls s)
      → ((t : Trace) (len : ℕ) → K.copy t len ≡ 0)
      → n < 2147483647
      → length (whole_report render c vaddr n) < data_buf_size
      → Shows (probe_and_report K c address count (End.exits 0 w) s) (whole_report render c vaddr n)
  unfolding probe_and_report child_exit
  reported count n vaddr w s h arrives small fits =
      let hit = on_calls K c address w.calls s in
      let counted : hit.ncalls ≡ n = h.counted ∙ omega arith in
      let before = registering render c vaddr ++ called render c n in
      let said =
        test_printk-Shows V "ncalls=%d\n" (Arg.num n ∷ []) hit.world before h.shows
          (omega (arith, fits, length-append before (render "ncalls=%d\n" (Arg.num n ∷ [])))) in
      record {
        buf = said.buf;
        is_buf =
            rw
              (
                write_cleanup_first K (λ v. (tt, (child_exit K c (record hit { world = v })).world))
                    count hit.world h.entry (arrives hit.world.trace (min count 31)),
                counted,
              )
              said.is_buf;
        is_log = said.is_log;
      }
