-- ===== src/Existing/Rprobe6.antt =====
-- uprobes.existing/rprobe6.c: the probes of probe6.c, and probes of the returns where the kernel has
-- them.
pub mod Undo
use uprobe_tests.Base.{
  ℕ, String, Bool, true, false, List, [], ◌∷◌, ◌==◌, if◌then◌else◌, ℤ, pos, is_zero, minus_one,
}
use uprobe_tests.Kernel.{
  codes, Arg, Event, Handler, Kernel, World, register_call, register_ret_call, init_ret_call,
}
use uprobe_tests.Udbgfs.{test_printk, u_dbfs_init, u_dbfs_cleanup}
use uprobe_tests.Existing.Common.{inc}
use uprobe_tests.Existing.Infos.{Info, Infos, load, exit}
use uprobe_tests.Existing.Probe6.{placed, handled}

-- The parameters of the module, and which of ARCH_SUPPORTS_URETPROBES and UPROBES_INIT_URETPROBES
-- are set.
pub record Params : Type 0 where
  pub pid : ℕ
  pub verbose : Bool
  pub has_ret : Bool
  pub inits_ret : Bool

module _ (K : Kernel) (c : Params) where
  abbrev pub ret_handled : Info → Info
  ret_handled x = record x {
    rp = record (x.rp) { pid = c.pid; vaddr = x.u.vaddr; handler = Handler.rp_handler };
  }

  -- The part of `register_probes` under ARCH_SUPPORTS_URETPROBES, and what is common after it.
  unfoldable pub register_returns : Bool → Info → World → ℤ × Info × World
  register_returns false x w = (pos 0, record x { registered = true }, w)
  register_returns true x w =
      let y = ret_handled x in
      let r = register_ret_call K y.rp w in
      if is_zero r.0
      then (pos 0, record y { registered = true }, r.1)
      else (let told =
            (test_printk K "register_uretprobe for %s returned %d\n"
              (Arg.str x.fname ∷ Arg.int r.0 ∷ []) r.1).1 in
          (minus_one, y, record told { trace = Event.unregister_uprobe x.u ∷ told.trace }))

  -- From the call of `register_uprobe` on.
  unfoldable pub register_both : Info → World → ℤ × Info × World
  unfolding register_returns
  register_both x w =
      let r = register_call K x.u w in
      if is_zero r.0 then register_returns c.has_ret x r.1 else (
        minus_one,
        x,
        (test_printk K "register_uprobe for %s returned %d\n" (Arg.str x.fname ∷ Arg.int r.0 ∷ [])
            r.1).1,
      )

  unfoldable pub register_probes : Info → World → ℤ × Info × World
  unfolding register_both
  register_probes x w =
      if K.find_vaddr x.fname == 0
      then (
        minus_one,
        placed K c.pid Handler.u_handler x,
        (test_printk K "Unknown function %s\n" (Arg.str x.fname ∷ []) w).1,
      )
      else register_both (handled K c.pid Handler.u_handler x) w

  -- The body of the loop of `unregister_all`.
  unfoldable pub unregister_probes : Info → World → World
  unregister_probes x w =
      let t = Event.unregister_uprobe x.u ∷ w.trace in
      record w { trace = if c.has_ret then Event.unregister_uretprobe x.rp ∷ t else t }

  -- `rp_handler` counts at the entry whose `rp` it is called for.
  unfoldable pub count_return : ℕ → List Info → List Info
  count_return a [] = []
  count_return a (x ∷ xs) =
      let rest = count_return a xs in
      if x.rp.addr == a then record x { nret = inc x.nret } ∷ xs else x ∷ rest

  unfoldable pub rp_handler : (eax : ℕ) → Info → Infos → Infos
  unfolding count_return
  rp_handler eax x s = record {
    world =
        if c.verbose
        then (test_printk K "%s returns %#lx\n" (Arg.str x.fname ∷ Arg.num eax ∷ []) s.world).1
        else s.world;
    probes = count_return x.rp.addr s.probes;
  }

  unfoldable pub report : List Info → World → World
  report [] w = w
  report (x ∷ xs) w =
      report xs
        (test_printk K "rprobe6 %s=%d, calls=%d returns\n"
          (Arg.str x.fname ∷ Arg.num x.ncalls ∷ Arg.num x.nret ∷ []) w).1

  unfoldable pub child_exit : Infos → Infos
  unfolding report
  child_exit s = record s { world = report s.probes s.world }

  -- The part of `rprobe6_init` under UPROBES_INIT_URETPROBES, on the address of `main`.
  unfoldable pub init_returns : ℕ → World → Bool × World
  init_returns tramp w =
      let r = init_ret_call K c.pid tramp w in
      if tramp == 0 then (false, w) else if is_zero r.0 then (true, r.1) else (false, r.1)

  -- All that is under the two #ifdefs of `rprobe6_init`.
  unfoldable pub prepare : World → Bool × World
  unfolding init_returns
  prepare w =
      if c.has_ret
      then (if c.inits_ret then init_returns (K.find_vaddr (codes "main")) w else (true, w))
      else (true, w)

  -- What `rprobe6_init` does after them.
  unfoldable pub prepared : Infos → Bool × World → ℤ × Infos
  unfolding load register_probes unregister_probes
  prepared s (true, w) = load K register_probes unregister_probes (record s { world = w })
  prepared s (false, w) = (minus_one, record s { world = (u_dbfs_cleanup w).1 })

  unfoldable pub rprobe6_init : Infos → ℤ × Infos
  unfolding prepare prepared
  rprobe6_init s =
      let d = u_dbfs_init K "rprobe6" s.world in
      if is_zero d.0 then prepared s (prepare d.1) else (minus_one, record s { world = d.1 })

  unfoldable pub rprobe6_exit : Infos → Infos
  unfolding register_probes unregister_probes exit
  rprobe6_exit = exit K register_probes unregister_probes
