-- ===== src/Existing/Probe5lim.antt =====
-- uprobes.existing/probe5lim.c: a probe that its own handler takes back after `limit` hits.
pub mod Run
use uprobe_tests.Base.{
  ℕ, String, Bool, true, false, [], ◌∷◌, ◌&&◌, ◌==◌, leb, if◌then◌else◌, ℤ, pos, is_zero, minus_one,
}
use uprobe_tests.Kernel.{codes, Arg, Event, Handler, Uprobe, Kernel, World, register_call}
use uprobe_tests.Udbgfs.{test_printk, u_dbfs_init, u_dbfs_cleanup}
use uprobe_tests.Existing.Common.{inc, usp_addr}

-- The parameters of the module; `limit` is not negative.
pub record Params : Type 0 where
  pub pid : ℕ
  pub verbose : Bool
  pub vaddr : ℕ
  pub limit : ℕ

pub record Probe5lim : Type 0 where
  pub world : World
  pub ncalls : ℕ
  pub registered : Bool
  pub limit : ℕ
  pub usp : Uprobe

abbrev pub usp_init : Uprobe
usp_init = record { addr = usp_addr; pid = 0; vaddr = 0x080484a8; handler = Handler.add_inst }

module _ (K : Kernel) (c : Params) where
  -- `reg_callback`, for the probe `u`.
  unfoldable pub reg_callback : Uprobe → Bool → ℤ → World → World
  reg_callback u reg result w =
      let told =
        (test_printk K "%sregistration of uprobe on pid %d, vaddr %#lx was "
          (Arg.str (if reg then [] else codes "un") ∷ Arg.num u.pid ∷ Arg.num u.vaddr ∷ []) w).1 in
      if is_zero result
      then (test_printk K "successful\n" [] told).1
      else (test_printk K "unsuccessful; status = %d\n" (Arg.int result ∷ []) told).1

  -- The end of `add_inst`, from the test of `registered` on.
  unfoldable pub check_limit : Probe5lim → Probe5lim
  check_limit s =
      if s.registered && leb s.limit s.ncalls
      then (let told =
            (test_printk K "Unregistering uprobe on pid %d, vaddr %#lx\n"
              (Arg.num s.usp.pid ∷ Arg.num s.usp.vaddr ∷ []) s.world).1 in
          record s {
            world = record told { trace = Event.unregister_uprobe s.usp ∷ told.trace };
            registered = false;
          })
      else s

  unfoldable pub add_inst : Probe5lim → Probe5lim
  unfolding check_limit
  add_inst s =
      let w = if c.verbose then (test_printk K "add() called\n" [] s.world).1 else s.world in
      check_limit (record s { world = w; ncalls = inc s.ncalls })

  unfoldable pub child_exit : Probe5lim → Probe5lim
  child_exit s = record s {
    world = (test_printk K "ncalls=%d\n" (Arg.num s.ncalls ∷ []) s.world).1;
  }

  abbrev pub placed : Uprobe → Uprobe
  placed u = record u { pid = c.pid; vaddr = if c.vaddr == 0 then u.vaddr else c.vaddr }

  unfoldable pub register_usp : Probe5lim → ℤ × Probe5lim
  register_usp s =
      let u = placed s.usp in
      let told =
        (test_printk K "Registering uprobe on pid %d, vaddr %#lx\n"
          (Arg.num u.pid ∷ Arg.num u.vaddr ∷ []) s.world).1 in
      let r = register_call K u told in
      let limit = if c.limit == 0 then 100 else c.limit in
      if is_zero r.0
      then (pos 0, record s { world = r.1; usp = u; limit = limit; registered = true })
      else (minus_one, record s { world = (u_dbfs_cleanup r.1).1; usp = u; limit = limit })

  unfoldable pub init_module : Probe5lim → ℤ × Probe5lim
  unfolding register_usp
  init_module s =
      let d = u_dbfs_init K "probe5lim" s.world in
      if is_zero d.0
      then register_usp (record s { world = d.1 })
      else (minus_one, record s { world = d.1 })

unfoldable pub cleanup_module : Probe5lim → Probe5lim
cleanup_module s =
    let w =
      if s.registered
      then record (s.world) { trace = Event.unregister_uprobe s.usp ∷ s.world.trace }
      else s.world in
    record s { world = (u_dbfs_cleanup w).1 }
