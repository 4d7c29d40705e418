-- ===== src/Kmods/Kunreg.antt =====
-- uprobes.w/kunreg.c, built without UPROBES_REG_CALLBACK: it keeps its probes in an array and
-- unregisters them.
pub mod Kept
pub mod Room
pub mod Removal
pub mod Callback
use uprobe_tests.Base.{
  ℕ, zero, suc, ◌+◌, String, Bool, true, false, not, ◌&&◌, ◌||◌, Option, none, some, List, [], ◌∷◌,
  ◌==◌, leb, if◌then◌else◌, length, ℤ, pos, is_zero, is_neg, eq_int, minus_one, neg_einprogress,
}
use uprobe_tests.Kernel.{
  Name, Handler, Arg, Event, Kernel, World, Io, kmalloc_call, uprobe_register_call,
}
use uprobe_tests.Udbgfs.{test_printk, u_dbfs_init, u_dbfs_cleanup}
use uprobe_tests.Resolve.{Config}
use uprobe_tests.Symbols.{Table, find_offset, find_inode, Body, for_each_glob}
use uprobe_tests.Kmods.{sizeof_consumer, probe_prefix, init_uprobe_failed}

-- An element of the static array `probes`.
pub record RegProbe : Type 0 where
  pub inode : ℕ
  pub offset : ℕ
  pub usp : ℕ

abbrev pub no_probe : RegProbe
no_probe = record { inode = 0; offset = 0; usp = 0 }

abbrev pub max_probes : ℕ
max_probes = 100

-- The static variables; `overrun` is set by a read or a write behind the end of `probes`, after which
-- nothing is known of the code.
pub record Kunreg : Type 0 where
  pub world : World
  pub num_reg_probes : ℕ
  pub probes : ℕ → RegProbe
  pub overrun : Bool

abbrev pub set_probe : (ℕ → RegProbe) → ℕ → RegProbe → ℕ → RegProbe
set_probe ps i p j = if i == j then p else ps j

abbrev pub accepted : ℤ → Bool
accepted r = is_zero r || eq_int r neg_einprogress

module _ (K : Kernel) (table : Table) where
  abbrev pub say : String → List Arg → Kunreg → Kunreg
  say fmt args s = record s { world = (test_printk K fmt args s.world).1 }

  -- After a call of `uprobe_register` for the inode, offset and consumer of `p`, with its result.
  unfoldable pub registered : RegProbe → ℤ → Kunreg → Option ℤ × Kunreg
  registered p ret s =
      if not (accepted ret)
      then (some (pos 0), say "register_uprobe() failed, returned %d\n" (Arg.int ret ∷ []) s)
      else (let n = suc s.num_reg_probes in
          let ok = say "OK\n" [] s in
          (
            none,
            say "Number of registerd probes = %d \n" (Arg.num n ∷ []) (record ok {
              probes = set_probe s.probes s.num_reg_probes p;
              num_reg_probes = n;
              overrun = s.overrun || leb max_probes s.num_reg_probes;
            }),
          ))

  -- The call of `uprobe_register`, with the lookups before it.
  unfoldable pub try_register : Name → ℕ → Kunreg → RegProbe × ℤ × Kunreg
  try_register found usp s =
      let i = find_inode K table found s.world in
      let offset = find_offset table found in
      let told =
        test_printk K "Registering uprobe on inode %d, offset %#lx[%s]\n"
          (Arg.num i.0 ∷ Arg.num offset ∷ Arg.str found ∷ []) i.1 in
      let r = uprobe_register_call K i.0 offset usp Handler.probe_handler told.1 in
      (record { inode = i.0; offset = offset; usp = usp }, r.0, record s { world = r.1 })

  unfoldable pub register_one : Body Kunreg
  unfolding registered try_register
  register_one found s =
      let k = kmalloc_call K sizeof_consumer s.world in
      let s' = record s { world = k.1 } in
      if k.0 == 0
      then (some (pos 0), say "kzalloc() failed, returned NULL" [] s')
      else (let t = try_register found k.0 s' in registered t.0 t.1 t.2)

  -- It returns 0 in every case.
  unfoldable pub register_all : Kunreg → Kunreg
  unfolding register_one
  register_all s =
      (for_each_glob (suc (length table)) table probe_prefix register_one 0
        (record s { num_reg_probes = 0 })).1

  unfoldable pub init_module : Config → Kunreg → ℤ × Kunreg
  unfolding register_all
  init_module cfg s =
      if init_uprobe_failed K cfg
      then (minus_one, s)
      else (let r = u_dbfs_init K "kunreg" s.world in
          let s' = record s { world = r.1 } in
          if is_neg r.0 then (minus_one, s') else (pos 0, register_all s'))

-- `for (i = …; i <= num_reg_probes; i++)`, by the number of rounds.
unfoldable pub unregister_loop : ℕ → ℕ → (ℕ → RegProbe) → World → World
unregister_loop zero i ps w = w
unregister_loop (suc rounds) i ps w =
    unregister_loop rounds (suc i) ps
      (record w { trace = Event.uprobe_unregister (ps i).inode (ps i).offset (ps i).usp ∷ w.trace })

unfoldable pub unregister_all : Kunreg → Kunreg
unfolding unregister_loop
unregister_all s = record s {
  world = unregister_loop (suc s.num_reg_probes) 0 s.probes s.world;
  overrun = s.overrun || leb max_probes s.num_reg_probes;
}

unfoldable pub cleanup_module : Kunreg → Kunreg
unfolding unregister_all
cleanup_module s = let s' = unregister_all s in record s' { world = (u_dbfs_cleanup s'.world).1 }
