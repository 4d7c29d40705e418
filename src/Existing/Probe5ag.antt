-- ===== src/Existing/Probe5ag.antt =====
-- uprobes.existing/probe5ag.c: `nprobes` probes at one address.
pub mod Array
pub mod Run
use uprobe_tests.Base.{
  ℕ, zero, suc, ◌+◌, ◌*◌, String, Bool, true, false, List, [], ◌∷◌, ◌==◌, if◌then◌else◌, ℤ, pos,
  is_zero, minus_one,
}
use uprobe_tests.Kernel.{Arg, Event, Handler, Uprobe, Kernel, World, kmalloc_call, register_call}
use uprobe_tests.Udbgfs.{test_printk, u_dbfs_init, u_dbfs_cleanup}
use uprobe_tests.Existing.Common.{inc, say_if}

-- The parameters of the module; `nprobes` is not negative.
pub record Params : Type 0 where
  pub pid : ℕ
  pub nprobes : ℕ
  pub verbose : Bool
  pub vaddr : ℕ

-- `block` is the address of the array.
pub record Probe5ag : Type 0 where
  pub world : World
  pub nhits : ℕ
  pub block : ℕ
  pub probes : List Uprobe

abbrev pub sizeof_uprobe : ℕ
sizeof_uprobe = 64

-- The array as `kzalloc` gives it.
unfoldable pub zeroed : (addr n : ℕ) → List Uprobe
zeroed addr zero = []
zeroed addr (suc n) =
    record { addr = addr; pid = 0; vaddr = 0; handler = Handler.null_handler }
    ∷ zeroed (addr + sizeof_uprobe) n

-- The loop of `shut_down`.
unfoldable pub unregister_set : List Uprobe → World → World
unregister_set [] w = w
unregister_set (u ∷ us) w =
    unregister_set us
      (if u.vaddr == 0 then w else record w { trace = Event.unregister_uprobe u ∷ w.trace })

unfoldable pub shut_down : Probe5ag → Probe5ag
unfolding unregister_set
shut_down s =
    let w = unregister_set s.probes s.world in
    record s { world = record w { trace = Event.kfree s.block ∷ w.trace } }

module _ (K : Kernel) (c : Params) where
  unfoldable pub add_inst : Probe5ag → Probe5ag
  add_inst s = record s {
    world = say_if K c.verbose "add() called\n" [] s.world;
    nhits = inc s.nhits;
  }

  unfoldable pub child_exit : Probe5ag → Probe5ag
  child_exit s = record s { world = (test_printk K "nhits=%d\n" (Arg.num s.nhits ∷ []) s.world).1 }

  abbrev pub placed : Uprobe → Uprobe
  placed u = record u { pid = c.pid; vaddr = c.vaddr; handler = Handler.add_inst }

  -- The loop of `init_module`: the last answer, the array and the world.
  unfoldable pub register_each : List Uprobe → World → ℤ × List Uprobe × World
  register_each [] w = (pos 0, [], w)
  register_each (u ∷ us) w =
      let r = register_call K (placed u) w in
      let rest = register_each us r.1 in
      if is_zero r.0 then (rest.0, placed u ∷ rest.1, rest.2) else (r.0, placed u ∷ us, r.1)

  -- What follows the loop.
  unfoldable pub conclude : ℤ → Probe5ag → ℤ × Probe5ag
  unfolding shut_down
  conclude r s =
      if is_zero r
      then (pos 0, s)
      else (let s' = shut_down s in (r, record s' { world = (u_dbfs_cleanup s'.world).1 }))

  -- `init_module` from the allocation on.
  unfoldable pub with_block : ℕ → Probe5ag → ℤ × Probe5ag
  unfolding zeroed register_each conclude
  with_block block s =
      let r = register_each (zeroed block c.nprobes) s.world in
      if block == 0
      then (minus_one, record s { world = (u_dbfs_cleanup s.world).1; block = 0 })
      else conclude r.0 (record s { world = r.2; block = block; probes = r.1 })

  unfoldable pub init_module : Probe5ag → ℤ × Probe5ag
  unfolding with_block
  init_module s =
      let d = u_dbfs_init K "probe5ag" s.world in
      let told =
        (test_printk K "Registering %d uprobes on pid %d, vaddr %#lx\n"
          (Arg.num c.nprobes ∷ Arg.num c.pid ∷ Arg.num c.vaddr ∷ []) d.1).1 in
      let k = kmalloc_call K (c.nprobes * sizeof_uprobe) told in
      if is_zero d.0
      then with_block k.0 (record s { world = k.1 })
      else (minus_one, record s { world = d.1 })

unfoldable pub cleanup_module : Probe5ag → Probe5ag
unfolding shut_down
cleanup_module s = let s' = shut_down s in record s' { world = (u_dbfs_cleanup s'.world).1 }
