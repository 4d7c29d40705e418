-- ===== src/Kmods/Kunreg/Callback.antt =====
-- uprobes.w/kunreg.c, built with UPROBES_REG_CALLBACK: the module puts a probe on each of two functions
-- of unreg.c, whose handlers register and unregister the others. The fields `pid` and `vaddr`, which
-- `struct uprobe_consumer` does not have, are read as those of `struct uprobe`.
pub mod Untouched
pub mod Twice
pub mod Answers
use uprobe_tests.Base.{
  ℕ, String, Bool, true, false, not, ◌||◌, List, [], ◌∷◌, ◌==◌, if◌then◌else◌, ℤ, pos, is_zero,
  is_neg, minus_one, neg_enomem,
}
use uprobe_tests.Kernel.{
  Name, codes, Handler, Arg, Uprobe, Kernel, World, kmalloc_call, register_call,
}
use uprobe_tests.Udbgfs.{test_printk, u_dbfs_init, u_dbfs_cleanup}
use uprobe_tests.Resolve.{Config}
use uprobe_tests.Symbols.{Table}
use uprobe_tests.Kmods.{sizeof_consumer, init_uprobe_failed}
use uprobe_tests.Kmods.Kunreg.{Kunreg, accepted, register_all, unregister_all}

-- `pid` is the module's parameter; neither `find_vaddr` nor the size of `struct uprobe` is in the
-- repository.
module _ (K : Kernel) (pid : ℕ) (find_vaddr : Name → ℕ) (sizeof_uprobe : ℕ) where
  abbrev pub give_up : ℤ → World → ℤ × World
  give_up r w = (r, (u_dbfs_cleanup w).1)

  -- A probe on the function `name`; `good` says which answers of `register_uprobe` are taken for a
  -- success.
  unfoldable pub probe_on :
      (size : ℕ) → String → String → Handler → (good : ℤ → Bool) → World → ℤ × World
  probe_on size fmt name h good w =
      let k = kmalloc_call K size w in
      if k.0 == 0
      then give_up neg_enomem k.1
      else (let u : Uprobe = record {
        addr = k.0;
        pid = pid;
        vaddr = find_vaddr (codes name);
        handler = h;
      } in
          let told =
            (test_printk K fmt (Arg.num u.pid ∷ Arg.num u.vaddr ∷ Arg.str (codes name) ∷ [])
              k.1).1 in
          let r = register_call K u told in
          if good r.0 then (pos 0, r.1) else give_up minus_one r.1)

  abbrev pub probe_reg_all : World → ℤ × World
  probe_reg_all =
      probe_on sizeof_consumer "Registering uprobe for reg_all on pid %d, vaddr %#lx[%s]\n"
        "reg_all" Handler.register_all accepted

  abbrev pub probe_unreg_all : World → ℤ × World
  probe_unreg_all =
      probe_on sizeof_uprobe "Registering uprobe for unreg_all on pid %d, vaddr %#lx[%s]\n"
        "unreg_all" Handler.unregister_all is_zero

  unfoldable pub probe_both : World → ℤ × World
  unfolding probe_on
  probe_both w = let r = probe_reg_all w in if is_zero r.0 then probe_unreg_all r.1 else r

  unfoldable pub load : Config → Kunreg → ℤ × Kunreg
  unfolding probe_both
  load cfg s =
      if init_uprobe_failed K cfg
      then (minus_one, s)
      else (let d = u_dbfs_init K "kunreg" s.world in
          if is_neg d.0
          then (minus_one, record s { world = d.1 })
          else (let r = probe_both d.1 in (r.0, record s { world = r.1 })))

-- The functions of unreg.c at which the two probes stand.
pub data Hit : Type 0 where
  reg_all unreg_all : Hit

module _ (K : Kernel) (table : Table) where
  unfoldable pub hit : Hit → Kunreg → Kunreg
  hit Hit.reg_all s = register_all K table s
  hit Hit.unreg_all s = unregister_all s

  unfoldable pub hits : List Hit → Kunreg → Kunreg
  unfolding hit
  hits [] s = s
  hits (h ∷ hs) s = hits hs (hit h s)
