-- ===== src/Existing/Probe5lim/Run.antt =====
-- A run of probe5lim.c: the probe goes at hit `limit`, and is taken back just once.
use uprobe_tests.Base.{
  ℕ, zero, suc, ◌+◌, ◌<◌, ◌≡◌, ◌&&◌, arith, Bool-cases, inl, inr, ◌==◌, ltb, leb, ◌∷◌,
  if◌then◌else◌, pos, is_zero,
}
use uprobe_tests.Kernel.{Event, Kernel, World}
use uprobe_tests.Kernel.Count.{add_if, registers, unregisters}
use uprobe_tests.Udbgfs.{u_dbfs_init}
use uprobe_tests.Udbgfs.Session.{
  IsOpen, u_dbfs_init-IsOpen, u_dbfs_init-probes, test_printk-IsOpen, ProbeEvent, ProbeEvent-IsOpen,
  u_dbfs_cleanup-Closed,
}
use uprobe_tests.Existing.Common.{TakenBack}
use uprobe_tests.Existing.Probe5lim.{
  Params, Probe5lim, placed, check_limit, add_inst, register_usp, init_module, cleanup_module,
}

-- One registration is outstanding exactly while the flag is set.
record IsLoaded (before now : Probe5lim) : Type 0 where
  opened : IsOpen before.world now.world
  probes :
      (a : ℕ)
      → registers a now.world.trace + unregisters a before.world.trace
        ≡ registers a before.world.trace
          + unregisters a now.world.trace
          + add_if (now.registered && a == now.usp.addr) 0

module _ (K : Kernel) (c : Params) where
  -- The handler runs `n` times.
  pub hits : ℕ → Probe5lim → Probe5lim
  hits zero s = s
  hits (suc n) s = add_inst K c (hits n s)

  -- After `n` hits on a module that has just been loaded.
  record HasHit (n limit : ℕ) (s : Probe5lim) : Type 0 where
    counted : s.ncalls ≡ n
    limited : s.limit ≡ limit
    flag : s.registered ≡ ltb n limit

  hits-HasHit :
      (n limit : ℕ) (s : Probe5lim) → n < 2147483648 → HasHit 0 limit s → HasHit n limit (hits n s)
  unfolding hits add_inst
  hits-HasHit zero limit s small h = h
  hits-HasHit (suc n) limit s small h =
      let r = hits-HasHit n limit s (omega arith) h in
      record {
        counted = ground (arith, r.counted);
        limited = ground (arith, r.limited);
        flag = ground (arith, r.counted, r.limited, r.flag);
      }

  check_limit-IsLoaded : (b s : Probe5lim) → IsLoaded b s → IsLoaded b (check_limit K c s)
  unfolding check_limit registers unregisters
  check_limit-IsLoaded b s l = elim (Bool-cases (s.registered && leb s.limit s.ncalls)) [
    | inl due ↦ rw due (record {
      opened =
          ProbeEvent-IsOpen ProbeEvent.unregister
            (test_printk-IsOpen K _ _ b.world s.world l.opened);
      probes = λ a. ground (arith, l.probes a);
    })
    | inr more ↦ rw more (record { opened = l.opened; probes = l.probes })
  ]

  add_inst-IsLoaded : (b s : Probe5lim) → IsLoaded b s → IsLoaded b (add_inst K c s)
  unfolding add_inst
  add_inst-IsLoaded b s l = elim (Bool-cases c.verbose) [
    | inl loud ↦ rw loud (
        check_limit-IsLoaded b _ (record {
          opened = test_printk-IsOpen K _ _ b.world s.world l.opened;
          probes = l.probes;
        }))
    | inr quiet ↦
        rw quiet (check_limit-IsLoaded b _ (record { opened = l.opened; probes = l.probes }))
  ]

  hits-IsLoaded : (n : ℕ) (b s : Probe5lim) → IsLoaded b s → IsLoaded b (hits n s)
  unfolding hits
  hits-IsLoaded zero b s l = l
  hits-IsLoaded (suc n) b s l = add_inst-IsLoaded b (hits n s) (hits-IsLoaded n b s l)

  register_usp-IsLoaded :
      (b s : Probe5lim)
      → IsOpen b.world s.world
      → ((a : ℕ)
          → (registers a s.world.trace ≡ registers a b.world.trace)
            × (unregisters a s.world.trace ≡ unregisters a b.world.trace))
      → (register_usp K c s).0 ≡ pos 0
      → IsLoaded b (register_usp K c s).1
  unfolding register_usp registers unregisters
  register_usp-IsLoaded b s o same ok =
      elim (Bool-cases (is_zero (K.register s.world.trace (placed K c s.usp)))) [
        | inl zero_ret ↦ rw zero_ret (record {
          opened =
              ProbeEvent-IsOpen ProbeEvent.register (test_printk-IsOpen K _ _ b.world s.world o);
          probes = λ a. ground (arith, same a);
        })
        | inr failed ↦ absurd (ground arith)
      ]

  init_module-IsLoaded :
      (s : Probe5lim) → (init_module K c s).0 ≡ pos 0 → IsLoaded s (init_module K c s).1
  unfolding init_module
  init_module-IsLoaded s ok = elim (Bool-cases (is_zero (u_dbfs_init K "probe5lim" s.world).0)) [
    | inl made ↦ rw made (
        register_usp-IsLoaded s (record s { world = (u_dbfs_init K "probe5lim" s.world).1 })
          (u_dbfs_init-IsOpen K "probe5lim" s.world made) (u_dbfs_init-probes K "probe5lim" s.world)
          (rw made at ok))
    | inr bad ↦ absurd (ground arith)
  ]

  -- The limit in force.
  abbrev pub the_limit : ℕ
  the_limit = if c.limit == 0 then 100 else c.limit

  init_module-HasHit :
      (s : Probe5lim)
      → (init_module K c s).0 ≡ pos 0
      → s.ncalls ≡ 0
      → HasHit 0 the_limit (init_module K c s).1
  unfolding init_module register_usp
  init_module-HasHit s ok none_yet = record {
    counted = ground arith;
    limited = ground arith;
    flag = ground arith;
  }

  cleanup_module-TakenBack :
      (b s : Probe5lim) → IsLoaded b s → TakenBack b.world.trace (cleanup_module s).world.trace
  unfolding cleanup_module registers unregisters
  cleanup_module-TakenBack b s l = elim (Bool-cases s.registered) [
    | inl on ↦
        let gone : World = record (s.world) {
          trace = Event.unregister_uprobe s.usp ∷ s.world.trace;
        } in
        let d =
          u_dbfs_cleanup-Closed b.world gone (ProbeEvent-IsOpen ProbeEvent.unregister l.opened) in
        rw on (record {
          memory = d.memory;
          files = d.files;
          probes = λ a. ground (arith, on, l.probes a, d.registers_same a, d.unregisters_same a);
        })
    | inr off ↦
        let d = u_dbfs_cleanup-Closed b.world s.world l.opened in
        rw off (record {
          memory = d.memory;
          files = d.files;
          probes = λ a. ground (arith, off, l.probes a, d.registers_same a, d.unregisters_same a);
        })
  ]

  -- After a load and `n` hits, `n` below 2 ^ 31, with `ncalls` 0 before, probe5lim.c has counted
  -- `n`, and its probe is still registered exactly if `n` is below the limit, which is 100 where
  -- the parameter is 0. Whenever it is unloaded, the probe has been unregistered as often as
  -- registered, whether by its handler or by the unloading, and the debugfs entries and the memory
  -- have been taken back.
  pub probe5lim_run :
      (n : ℕ) (s : Probe5lim)
      → (init_module K c s).0 ≡ pos 0
      → s.ncalls ≡ 0
      → n < 2147483648
      → ((hits n (init_module K c s).1).ncalls ≡ n)
        × ((hits n (init_module K c s).1).registered ≡ ltb n the_limit)
        × TakenBack s.world.trace (cleanup_module (hits n (init_module K c s).1)).world.trace
  probe5lim_run n s ok none_yet small =
      let h =
        hits-HasHit n the_limit (init_module K c s).1 small (init_module-HasHit s ok none_yet) in
      (
        h.counted,
        h.flag,
        cleanup_module-TakenBack s (hits n (init_module K c s).1)
            (hits-IsLoaded n s (init_module K c s).1 (init_module-IsLoaded s ok)),
      )
