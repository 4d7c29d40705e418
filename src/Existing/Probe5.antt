-- ===== src/Existing/Probe5.antt =====
-- uprobes.existing/probe5.c: one probe that counts.
pub mod Run
pub mod Report
use uprobe_tests.Base.{
  ℕ, String, Bool, true, false, [], ◌∷◌, ◌==◌, if◌then◌else◌, ℤ, pos, is_zero, minus_one,
}
use uprobe_tests.Kernel.{Arg, Event, Handler, Uprobe, Kernel, World, register_call}
use uprobe_tests.Udbgfs.{test_printk, u_dbfs_init, u_dbfs_cleanup}
use uprobe_tests.Existing.Common.{inc, usp_addr}

-- The module's parameters.
pub record Params : Type 0 where
  pub pid : ℕ
  pub verbose : Bool
  pub vaddr : ℕ

pub record Probe5 : Type 0 where
  pub world : World
  pub ncalls : ℕ
  pub usp : Uprobe

-- `usp`, with the address of `add` in probeme4.
abbrev pub usp_init : Uprobe
usp_init = record { addr = usp_addr; pid = 0; vaddr = 0x080484a8; handler = Handler.add_inst }

module _ (K : Kernel) (c : Params) where
  unfoldable pub add_inst : Probe5 → Probe5
  add_inst s =
      let w = if c.verbose then (test_printk K "add() called\n" [] s.world).1 else s.world in
      record s { world = w; ncalls = inc s.ncalls }

  unfoldable pub child_exit : Probe5 → Probe5
  child_exit s = record s {
    world = (test_printk K "ncalls=%d\n" (Arg.num s.ncalls ∷ []) s.world).1;
  }

  abbrev pub placed : Uprobe → Uprobe
  placed u = record u { pid = c.pid; vaddr = if c.vaddr == 0 then u.vaddr else c.vaddr }

  unfoldable pub register_usp : Probe5 → ℤ × Probe5
  register_usp s =
      let u = placed s.usp in
      let told =
        (test_printk K "Registering uprobe on pid %d, vaddr %#lx\n"
          (Arg.num u.pid ∷ Arg.num u.vaddr ∷ []) s.world).1 in
      let r = register_call K u told in
      if is_zero r.0
      then (pos 0, record s { world = r.1; usp = u })
      else (minus_one, record s { world = (u_dbfs_cleanup r.1).1; usp = u })

  unfoldable pub init_module : Probe5 → ℤ × Probe5
  unfolding register_usp
  init_module s =
      let d = u_dbfs_init K "probe5" s.world in
      if is_zero d.0
      then register_usp (record s { world = d.1 })
      else (minus_one, record s { world = d.1 })

unfoldable pub cleanup_module : Probe5 → Probe5
cleanup_module s = record s {
  world =
      (u_dbfs_cleanup
        (record (s.world) { trace = Event.unregister_uprobe s.usp ∷ s.world.trace })).1;
}
