-- ===== src/Kmods/Kunreg/Removal.antt =====
-- kunreg.c unregisters what it registered, and one probe more.
use uprobe_tests.Base.{
  ◌<◌, length, false, ℕ, zero, suc, ◌+◌, ◌≡◌, refl, sym, ap, ap₂, ◌∙◌, List, [], ◌∷◌, ◌++◌, arith,
  Bool-cases, inl, inr, is_neg,
}
use uprobe_tests.Kernel.{Kernel, World}
use uprobe_tests.Udbgfs.{u_dbfs_init}
use uprobe_tests.Resolve.{Config}
use uprobe_tests.Symbols.{Table}
use uprobe_tests.Kmods.{probe_prefix, init_uprobe_failed}
use uprobe_tests.Kmods.Kunreg.{
  max_probes, RegProbe, no_probe, Kunreg, register_all, init_module, unregister_loop,
  unregister_all, cleanup_module,
}
use uprobe_tests.Symbols.Loop.{matching}
use uprobe_tests.Kmods.Kunreg.Room.{init_module-Room, cleanup_module-Room}
use uprobe_tests.Kmods.Kunreg.Kept.{
  kept, taken, filled, Same, u_dbfs_init-Same, u_dbfs_cleanup-Same, IsKept, register_all-IsKept,
}

-- The static array is zero and no probe has been touched.
pub record IsFresh (s : Kunreg) : Type 0 where
  pub no_kept : kept s.world.trace ≡ []
  pub no_taken : taken s.world.trace ≡ []
  pub zeros : (i : ℕ) → s.probes i ≡ no_probe
  pub none_yet : s.num_reg_probes ≡ 0
  pub within : s.overrun ≡ false

module _ (K : Kernel) (table : Table) where
  init_module-IsKept :
      (cfg : Config) (s : Kunreg)
      → IsFresh s
      → IsKept [] [] (λ i. no_probe) (init_module K table cfg s).1
  unfolding init_module filled
  init_module-IsKept cfg s f = elim (Bool-cases (init_uprobe_failed K cfg)) [
    | inl missing ↦ rw missing (fresh s.world f.no_kept f.no_taken)
    | inr found ↦ elim (Bool-cases (is_neg (u_dbfs_init K "kunreg" s.world).0)) [
      | inl bad ↦ rw (found, bad) (fresh made (d.kept_same ∙ f.no_kept) (d.taken_same ∙ f.no_taken))
      | inr good ↦
          let loaded = record s { world = made } in
          let i = register_all-IsKept K table loaded in
          let r = register_all K table loaded in
          rw (found, good)
            (record {
              stored =
                  i.stored
                  ∙ ap (λ k. filled r.num_reg_probes r.probes ++ k) (d.kept_same ∙ f.no_kept);
              untaken = i.untaken ∙ d.taken_same ∙ f.no_taken;
              rest = λ j h. i.rest j h ∙ f.zeros j;
            })
    ]
  ]
    where
      made : World
      made = (u_dbfs_init K "kunreg" s.world).1

      d : Same made s.world
      d = u_dbfs_init-Same K "kunreg" s.world

      fresh :
          (w : World)
          → kept w.trace ≡ []
          → taken w.trace ≡ []
          → IsKept [] [] (λ i. no_probe) (record s { world = w })
      fresh w a b = record {
        stored = rw (f.none_yet, filled) a;
        untaken = b;
        rest = λ i h. f.zeros i;
      }

unregister_loop-taken :
    (rounds i : ℕ) (ps : ℕ → RegProbe) (ts : List RegProbe) (w : World)
    → taken w.trace ≡ filled i ps ++ ts
    → taken (unregister_loop rounds i ps w).trace ≡ filled (rounds + i) ps ++ ts
unfolding unregister_loop taken filled
unregister_loop-taken zero i ps ts w e = e ∙ ap (λ n. filled n ps ++ ts) (omega arith)
unregister_loop-taken (suc rounds) i ps ts w e =
    unregister_loop-taken rounds (suc i) ps ts _ (ap (◌∷◌ (ps i)) e)
    ∙ ap (λ n. filled n ps ++ ts) (omega arith)

pub unregister_all-taken :
    (s : Kunreg)
    → taken (unregister_all s).world.trace
      ≡ s.probes s.num_reg_probes ∷ filled s.num_reg_probes s.probes ++ taken s.world.trace
unfolding unregister_all filled
unregister_all-taken s =
    unregister_loop-taken (suc s.num_reg_probes) 0 s.probes (taken s.world.trace) s.world refl
    ∙ ap (λ n. filled n s.probes ++ taken s.world.trace) count
  where
    count : suc s.num_reg_probes + 0 ≡ suc s.num_reg_probes
    count = omega arith

pub cleanup_module-taken :
    (s : Kunreg)
    → taken (cleanup_module s).world.trace
      ≡ s.probes s.num_reg_probes ∷ filled s.num_reg_probes s.probes ++ taken s.world.trace
unfolding cleanup_module
cleanup_module-taken s =
    (u_dbfs_cleanup-Same (unregister_all s).world).taken_same ∙ unregister_all-taken s

-- Loaded with a zeroed array and then unloaded, kunreg.c takes back exactly the probes that the kernel
-- accepted, with the inode, offset and consumer of each, in the order of their registration, and then
-- one more, which is all zero and was never registered. Fewer than 100 symbols start with `_probe`; then
-- no element behind the array is read or written.
pub cleanup_module-init_module :
    (K : Kernel) (table : Table) (cfg : Config) (s : Kunreg)
    → length (matching table probe_prefix) < max_probes
    → IsFresh s
    → (taken (cleanup_module (init_module K table cfg s).1).world.trace
        ≡ no_probe ∷ kept (init_module K table cfg s).1.world.trace)
      × ((cleanup_module (init_module K table cfg s).1).overrun ≡ false)
cleanup_module-init_module K table cfg s few f = (
  cleanup_module-taken r
      ∙ ap₂ ◌∷◌ (i.rest r.num_reg_probes (omega arith))
          (ap (λ t. filled r.num_reg_probes r.probes ++ t) i.untaken ∙ sym i.stored),
  cleanup_module-Room (length (matching table probe_prefix)) r few
      (init_module-Room K table cfg s few (omega (arith, f.none_yet), f.within)),
)
  where
    r : Kunreg
    r = (init_module K table cfg s).1

    i : IsKept [] [] (λ i. no_probe) r
    i = init_module-IsKept K table cfg s f
