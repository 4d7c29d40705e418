-- ===== src/Kmods/Kunreg/Callback/Untouched.antt =====
-- kunreg.c calls `unregister_uprobe` nowhere.
use uprobe_tests.Base.{
  ℕ, zero, suc, ◌≡◌, refl, ◌∙◌, ap, List, [], ◌∷◌, arith, Bool-cases, Option-cases, inl, inr, ◌==◌,
  String, ℤ, is_neg, is_zero,
}
use uprobe_tests.Kernel.{Name, Event, Kernel, World}
use uprobe_tests.Kernel.Count.{unregisters}
use uprobe_tests.Udbgfs.{u_dbfs_init, u_dbfs_cleanup}
use uprobe_tests.Resolve.{Config}
use uprobe_tests.Symbols.{Table, strcmp_eq, find_inode}
use uprobe_tests.Symbols.Loop.{matching, run_all, for_each_glob-run_all}
use uprobe_tests.Kmods.{probe_prefix, init_uprobe_failed, sizeof_consumer}
use uprobe_tests.Kmods.Kunreg.{
  RegProbe, Kunreg, accepted, registered, try_register, register_one, register_all, unregister_loop,
  unregister_all, cleanup_module,
}
use uprobe_tests.Kmods.Kunreg.Callback.{
  probe_on, probe_reg_all, probe_unreg_all, probe_both, load, Hit, hit, hits,
}

-- Between the two no `unregister_uprobe` was called.
abbrev pub Untouched : World → World → Type 0
Untouched v w = (a : ℕ) → unregisters a v.trace ≡ unregisters a w.trace

find_inode-Untouched :
    (K : Kernel) (table : Table) (name : Name) (w : World)
    → Untouched (find_inode K table name w).1 w
unfolding find_inode unregisters
find_inode-Untouched K [] name w = λ a. refl
find_inode-Untouched K (s ∷ table) name w = elim (Bool-cases (strcmp_eq name s.name)) [
  | inl same ↦ rw same (λ a. ground arith)
  | inr other ↦ rw other (find_inode-Untouched K table name w)
]

u_dbfs_init-Untouched :
    (K : Kernel) (name : String) (w : World) → Untouched (u_dbfs_init K name w).1 w
unfolding u_dbfs_init unregisters
u_dbfs_init-Untouched K name w = λ a. ground arith

u_dbfs_cleanup-Untouched : (w : World) → Untouched (u_dbfs_cleanup w).1 w
unfolding u_dbfs_cleanup unregisters
u_dbfs_cleanup-Untouched w = λ a. ground arith

unregister_loop-Untouched :
    (rounds i : ℕ) (ps : ℕ → RegProbe) (w : World) → Untouched (unregister_loop rounds i ps w) w
unfolding unregister_loop unregisters
unregister_loop-Untouched zero i ps w = λ a. refl
unregister_loop-Untouched (suc rounds) i ps w = unregister_loop-Untouched rounds (suc i) ps _

unregister_all-Untouched : (s : Kunreg) → Untouched (unregister_all s).world s.world
unfolding unregister_all
unregister_all-Untouched s = unregister_loop-Untouched (suc s.num_reg_probes) 0 s.probes s.world

pub cleanup_module-Untouched : (s : Kunreg) → Untouched (cleanup_module s).world s.world
unfolding cleanup_module
cleanup_module-Untouched s =
    λ a. u_dbfs_cleanup-Untouched (unregister_all s).world a ∙ unregister_all-Untouched s a

module _ (K : Kernel) (table : Table) where
  registered-Untouched :
      (p : RegProbe) (ret : ℤ) (s : Kunreg) → Untouched (registered K table p ret s).1.world s.world
  unfolding registered
  registered-Untouched p ret s = elim (Bool-cases (accepted ret)) [
    | inl ok ↦ rw ok (λ a. refl)
    | inr failed ↦ rw failed (λ a. refl)
  ]

  try_register-Untouched :
      (found : Name) (usp : ℕ) (s : Kunreg)
      → Untouched (try_register K table found usp s).2.world s.world
  unfolding try_register unregisters
  try_register-Untouched found usp s = find_inode-Untouched K table found s.world

  register_one-Untouched :
      (found : Name) (s : Kunreg) → Untouched (register_one K table found s).1.world s.world
  unfolding register_one unregisters
  register_one-Untouched found s =
      let usp : ℕ = K.alloc s.world.trace sizeof_consumer in
      let asked : Kunreg = record s {
        world = record (s.world) { trace = Event.kmalloc sizeof_consumer usp ∷ s.world.trace };
      } in
      let t = try_register K table found usp asked in
      elim (Bool-cases (usp == 0)) [
        | inl null ↦ rw null (λ a. refl)
        | inr got ↦
            rw got
              (λ a. registered-Untouched t.0 t.1 t.2 a ∙ try_register-Untouched found usp asked a)
      ]

  run_all-Untouched :
      (names : List Name) (s : Kunreg)
      → Untouched (run_all names (register_one K table) s).1.world s.world
  unfolding run_all
  run_all-Untouched [] s = λ a. refl
  run_all-Untouched (x ∷ xs) s = elim (Option-cases (register_one K table x s).0) [
    | inl e ↦
        rw e
          (λ a. run_all-Untouched xs (register_one K table x s).1 a ∙ register_one-Untouched x s a)
    | inr (r, e) ↦ rw e (register_one-Untouched x s)
  ]

  register_all-Untouched : (s : Kunreg) → Untouched (register_all K table s).world s.world
  unfolding register_all
  register_all-Untouched s =
      let start : Kunreg = record s { num_reg_probes = 0 } in
      let same : register_all K table s
          ≡ (run_all (matching table probe_prefix) (register_one K table) start).1 =
        ap (λ r. r.1)
          (for_each_glob-run_all table probe_prefix (register_one K table) (omega arith) start) in
      rw same (run_all-Untouched (matching table probe_prefix) start)

  pub hit-Untouched : (h : Hit) (s : Kunreg) → Untouched (hit K table h s).world s.world
  unfolding hit
  hit-Untouched Hit.reg_all s = register_all-Untouched s
  hit-Untouched Hit.unreg_all s = unregister_all-Untouched s

  pub hits-Untouched : (hs : List Hit) (s : Kunreg) → Untouched (hits K table hs s).world s.world
  unfolding hits
  hits-Untouched [] s = λ a. refl
  hits-Untouched (h ∷ hs) s = λ a. hits-Untouched hs (hit K table h s) a ∙ hit-Untouched h s a

module _ (K : Kernel) (pid : ℕ) (find_vaddr : Name → ℕ) (sizeof_uprobe : ℕ) where
  probe_reg_all-Untouched :
      (w : World) → Untouched (probe_reg_all K pid find_vaddr sizeof_uprobe w).1 w
  unfolding probe_on u_dbfs_cleanup unregisters
  probe_reg_all-Untouched w = λ a. ground arith

  probe_unreg_all-Untouched :
      (w : World) → Untouched (probe_unreg_all K pid find_vaddr sizeof_uprobe w).1 w
  unfolding probe_on u_dbfs_cleanup unregisters
  probe_unreg_all-Untouched w = λ a. ground arith

  probe_both-Untouched : (w : World) → Untouched (probe_both K pid find_vaddr sizeof_uprobe w).1 w
  unfolding probe_both
  probe_both-Untouched w =
      let r = probe_reg_all K pid find_vaddr sizeof_uprobe w in
      elim (Bool-cases (is_zero r.0)) [
        | inl ok ↦ rw ok (λ a. probe_unreg_all-Untouched r.1 a ∙ probe_reg_all-Untouched w a)
        | inr failed ↦ rw failed (probe_reg_all-Untouched w)
      ]

  pub load-Untouched :
      (cfg : Config) (s : Kunreg)
      → Untouched (load K pid find_vaddr sizeof_uprobe cfg s).1.world s.world
  unfolding load
  load-Untouched cfg s = elim (Bool-cases (init_uprobe_failed K cfg)) [
    | inl missing ↦ rw missing (λ a. refl)
    | inr found ↦
        let d = u_dbfs_init K "kunreg" s.world in
        elim (Bool-cases (is_neg d.0)) [
          | inl bad ↦ rw (found, bad) (u_dbfs_init-Untouched K "kunreg" s.world)
          | inr good ↦
              rw (found, good)
                (λ a. probe_both-Untouched d.1 a ∙ u_dbfs_init-Untouched K "kunreg" s.world a)
        ]
  ]
