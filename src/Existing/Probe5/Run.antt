-- ===== src/Existing/Probe5/Run.antt =====
-- A run of probe5.c: load, hits, unload.
use uprobe_tests.Base.{
  ℕ, zero, suc, ◌+◌, ◌%◌, ◌≡◌, ◌∙◌, arith, Bool-cases, inl, inr, ◌==◌, ◌∷◌, pos, is_zero,
}
use uprobe_tests.Kernel.{Event, Kernel, World}
use uprobe_tests.Kernel.Count.{add_if, registers, unregisters}
use uprobe_tests.Udbgfs.{u_dbfs_init}
use uprobe_tests.Udbgfs.Session.{
  IsOpen, u_dbfs_init-IsOpen, u_dbfs_init-probes, test_printk-IsOpen, ProbeEvent, ProbeEvent-IsOpen,
  u_dbfs_cleanup-Closed,
}
use uprobe_tests.Existing.Common.{TakenBack}
use uprobe_tests.Existing.Probe5.{
  Params, Probe5, placed, add_inst, register_usp, init_module, cleanup_module,
}

-- The probe is registered once and not taken back.
record IsLoaded (before now : Probe5) : Type 0 where
  opened : IsOpen before.world now.world
  probes :
      (a : ℕ)
      → registers a now.world.trace + unregisters a before.world.trace
        ≡ registers a before.world.trace
          + unregisters a now.world.trace
          + add_if (a == now.usp.addr) 0

module _ (K : Kernel) (c : Params) where
  -- The handler runs `n` times.
  pub hits : ℕ → Probe5 → Probe5
  hits zero s = s
  hits (suc n) s = add_inst K c (hits n s)

  hits-ncalls : (n : ℕ) (s : Probe5) → s.ncalls ≡ 0 → (hits n s).ncalls ≡ n % 4294967296
  unfolding hits add_inst
  hits-ncalls zero s e = e ∙ omega arith
  hits-ncalls (suc n) s e = omega (arith, hits-ncalls n s e)

  add_inst-IsLoaded : (b s : Probe5) → IsLoaded b s → IsLoaded b (add_inst K c s)
  unfolding add_inst
  add_inst-IsLoaded b s l = elim (Bool-cases c.verbose) [
    | inl loud ↦
        rw loud
          (record { opened = test_printk-IsOpen K _ _ b.world s.world l.opened; probes = l.probes })
    | inr quiet ↦ rw quiet (record { opened = l.opened; probes = l.probes })
  ]

  hits-IsLoaded : (n : ℕ) (b s : Probe5) → IsLoaded b s → IsLoaded b (hits n s)
  unfolding hits
  hits-IsLoaded zero b s l = l
  hits-IsLoaded (suc n) b s l = add_inst-IsLoaded b (hits n s) (hits-IsLoaded n b s l)

  register_usp-IsLoaded :
      (b s : Probe5)
      → IsOpen b.world s.world
      → ((a : ℕ)
          → (registers a s.world.trace ≡ registers a b.world.trace)
            × (unregisters a s.world.trace ≡ unregisters a b.world.trace))
      → (register_usp K c s).0 ≡ pos 0
      → IsLoaded b (register_usp K c s).1
  unfolding register_usp registers unregisters
  register_usp-IsLoaded b s o same ok =
      elim (Bool-cases (is_zero (K.register s.world.trace (placed K c s.usp)))) [
        | inl zero_ret ↦ rw zero_ret (record {
          opened =
              ProbeEvent-IsOpen ProbeEvent.register (test_printk-IsOpen K _ _ b.world s.world o);
          probes = λ a. ground (arith, same a);
        })
        | inr failed ↦ absurd (ground arith)
      ]

  init_module-IsLoaded :
      (s : Probe5) → (init_module K c s).0 ≡ pos 0 → IsLoaded s (init_module K c s).1
  unfolding init_module
  init_module-IsLoaded s ok = elim (Bool-cases (is_zero (u_dbfs_init K "probe5" s.world).0)) [
    | inl made ↦ rw made (
        register_usp-IsLoaded s (record s { world = (u_dbfs_init K "probe5" s.world).1 })
          (u_dbfs_init-IsOpen K "probe5" s.world made) (u_dbfs_init-probes K "probe5" s.world)
          (rw made at ok))
    | inr bad ↦ absurd (ground arith)
  ]

  cleanup_module-TakenBack :
      (b s : Probe5) → IsLoaded b s → TakenBack b.world.trace (cleanup_module s).world.trace
  unfolding cleanup_module registers unregisters
  cleanup_module-TakenBack b s l =
      let gone : World = record (s.world) {
        trace = Event.unregister_uprobe s.usp ∷ s.world.trace;
      } in
      let d =
        u_dbfs_cleanup-Closed b.world gone (ProbeEvent-IsOpen ProbeEvent.unregister l.opened) in
      record {
        memory = d.memory;
        files = d.files;
        probes = λ a. ground (arith, l.probes a, d.registers_same a, d.unregisters_same a);
      }

  -- A run in which probe5.c loads, with `ncalls` 0 before, is hit any number of times and is
  -- unloaded takes back its probe, its debugfs entries and its memory; `ncalls` has counted the
  -- hits, modulo 2 ^ 32.
  pub probe5_run :
      (n : ℕ) (s : Probe5)
      → (init_module K c s).0 ≡ pos 0
      → s.ncalls ≡ 0
      → TakenBack s.world.trace (cleanup_module (hits n (init_module K c s).1)).world.trace
        × ((hits n (init_module K c s).1).ncalls ≡ n % 4294967296)
  unfolding init_module register_usp
  probe5_run n s ok none_yet = (
    cleanup_module-TakenBack s (hits n (init_module K c s).1)
        (hits-IsLoaded n s (init_module K c s).1 (init_module-IsLoaded s ok)),
    hits-ncalls n (init_module K c s).1 (ground arith),
  )
