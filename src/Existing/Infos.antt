-- ===== src/Existing/Infos.antt =====
-- The loops over the array `probes` of `struct probe_info` that probe6.c, rprobe6.c and suicide.c
-- have in common.
pub mod Rollback
use uprobe_tests.Base.{
  ℕ, String, Bool, true, false, List, [], ◌∷◌, map, if◌then◌else◌, ℤ, pos, is_zero, minus_one,
}
use uprobe_tests.Kernel.{Name, Arg, Kernel, World, Uprobe}
use uprobe_tests.Udbgfs.{test_printk, u_dbfs_init, u_dbfs_cleanup}

-- `struct probe_info`; `nret` and `rp` are rprobe6.c's.
pub record Info : Type 0 where
  pub fname : Name
  pub ncalls : ℕ
  pub nret : ℕ
  pub registered : Bool
  pub u : Uprobe
  pub rp : Uprobe

-- The array, up to the entry whose `fname` is NULL.
pub record Infos : Type 0 where
  pub world : World
  pub probes : List Info

abbrev pub clear : Info → Info
clear x = record x { registered = false }

-- `register_probes`: the result, the entry and the world after it.
abbrev pub Registrar : Type 0
Registrar = Info → World → ℤ × Info × World

module _ (K : Kernel) (register_probes : Registrar) (unregister : Info → World → World) where
  -- The second loop of the module's init: it stops at the first failure.
  unfoldable pub register_loop : List Info → World → Bool × List Info × World
  register_loop [] w = (true, [], w)
  register_loop (x ∷ xs) w =
      let told = (test_printk K "Registering probes for %s\n" (Arg.str x.fname ∷ []) w).1 in
      let r = register_probes x told in
      let rest = register_loop xs r.2 in
      if is_zero r.0 then (rest.0, r.1 ∷ rest.1, rest.2) else (false, r.1 ∷ xs, r.2)

  unfoldable pub unregister_if : Bool → Info → World → World
  unregister_if true x w = unregister x w
  unregister_if false x w = w

  unfoldable pub unregister_all : List Info → World → World
  unfolding unregister_if
  unregister_all [] w = w
  unregister_all (x ∷ xs) w = unregister_all xs (unregister_if x.registered x w)

  -- What follows the loop.
  unfoldable pub conclude : Bool × List Info × World → ℤ × Infos
  unfolding unregister_all
  conclude (true, xs, w) = (pos 0, record { world = w; probes = xs })
  conclude (false, xs, w) =
      (minus_one, record { world = (u_dbfs_cleanup (unregister_all xs w)).1; probes = xs })

  -- Both loops and what follows them.
  unfoldable pub load : Infos → ℤ × Infos
  unfolding register_loop conclude
  load s = conclude (register_loop (map clear s.probes) s.world)

  unfoldable pub init : String → Infos → ℤ × Infos
  unfolding load
  init name s =
      let d = u_dbfs_init K name s.world in
      if is_zero d.0 then load (record s { world = d.1 }) else (minus_one, record s { world = d.1 })

  unfoldable pub exit : Infos → Infos
  unfolding unregister_all
  exit s = record s { world = (u_dbfs_cleanup (unregister_all s.probes s.world)).1 }
