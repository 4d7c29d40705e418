-- ===== src/Kmods/Kunreg/Kept.antt =====
-- Which probes kunreg.c has registered and taken back, and that its array holds the former.
use uprobe_tests.Base.{
  ℕ, zero, suc, ◌≤◌, ◌≡◌, refl, ap, ◌∙◌, true, false, List, [], ◌∷◌, ◌++◌, arith, Bool-cases,
  Option-cases, inl, inr, ◌==◌, if◌then◌else◌, String, ℤ,
}
use uprobe_tests.Kernel.{Name, Event, Trace, Kernel, World}
use uprobe_tests.Udbgfs.{u_dbfs_init, u_dbfs_cleanup}
use uprobe_tests.Symbols.{Table, strcmp_eq, find_inode}
use uprobe_tests.Symbols.Loop.{matching, run_all, for_each_glob-run_all}
use uprobe_tests.Kmods.{probe_prefix, sizeof_consumer}
use uprobe_tests.Kmods.Kunreg.{
  RegProbe, Kunreg, set_probe, accepted, registered, try_register, register_one, register_all,
}

abbrev pub add_if_accepted : ℤ → RegProbe → List RegProbe → List RegProbe
add_if_accepted r p ps = if accepted r then p ∷ ps else ps

-- The probes that the kernel accepted, and those that were taken back, the latest first.
unfoldable pub kept : Trace → List RegProbe
kept [] = []
kept (Event.uprobe_register inode offset usp h r ∷ t) =
    add_if_accepted r (record { inode = inode; offset = offset; usp = usp }) (kept t)
kept (_ ∷ t) = kept t

unfoldable pub taken : Trace → List RegProbe
taken [] = []
taken (Event.uprobe_unregister inode offset usp ∷ t) =
    record { inode = inode; offset = offset; usp = usp } ∷ taken t
taken (_ ∷ t) = taken t

-- The first `n` elements of the array, the last of them first.
unfoldable pub filled : ℕ → (ℕ → RegProbe) → List RegProbe
filled zero ps = []
filled (suc n) ps = ps n ∷ filled n ps

pub record Same (v w : World) : Type 0 where
  pub kept_same : kept v.trace ≡ kept w.trace
  pub taken_same : taken v.trace ≡ taken w.trace

find_inode-Same :
    (K : Kernel) (table : Table) (name : Name) (w : World) → Same (find_inode K table name w).1 w
unfolding find_inode kept taken
find_inode-Same K [] name w = record { kept_same = refl; taken_same = refl }
find_inode-Same K (s ∷ table) name w = elim (Bool-cases (strcmp_eq name s.name)) [
  | inl same ↦ rw same (record { kept_same = ground arith; taken_same = ground arith })
  | inr other ↦ rw other (find_inode-Same K table name w)
]

pub u_dbfs_init-Same : (K : Kernel) (name : String) (w : World) → Same (u_dbfs_init K name w).1 w
unfolding u_dbfs_init kept taken
u_dbfs_init-Same K name w = record { kept_same = ground arith; taken_same = ground arith }

pub u_dbfs_cleanup-Same : (w : World) → Same (u_dbfs_cleanup w).1 w
unfolding u_dbfs_cleanup kept taken
u_dbfs_cleanup-Same w = record { kept_same = ground arith; taken_same = ground arith }

filled-set_probe :
    (n i : ℕ) (p : RegProbe) (ps : ℕ → RegProbe) → n ≤ i → filled n (set_probe ps i p) ≡ filled n ps
unfolding filled
filled-set_probe zero i p ps h = refl
filled-set_probe (suc n) i p ps h =
    let apart : (i == n) ≡ false = ground arith in
    rw (apart, filled-set_probe n i p ps (omega arith))

-- Since the probes were `ks`, those taken back `ts` and the array `old`, the array has got the probes
-- accepted since, behind which it is as before, and none has been taken back.
pub record IsKept (ks ts : List RegProbe) (old : ℕ → RegProbe) (s : Kunreg) : Type 0 where
  pub stored : kept s.world.trace ≡ filled s.num_reg_probes s.probes ++ ks
  pub untaken : taken s.world.trace ≡ ts
  pub rest : (i : ℕ) → s.num_reg_probes ≤ i → s.probes i ≡ old i

module _ (K : Kernel) (table : Table) where
  try_register-kept :
      (found : Name) (usp : ℕ) (s : Kunreg)
      → (kept (try_register K table found usp s).2.world.trace
          ≡ add_if_accepted
              (try_register K table found usp s).1
              (try_register K table found usp s).0
              (kept s.world.trace))
        × (taken (try_register K table found usp s).2.world.trace ≡ taken s.world.trace)
  unfolding try_register kept taken
  try_register-kept found usp s =
      let same = find_inode-Same K table found s.world in (rw same.kept_same, same.taken_same)

module _ (K : Kernel) (table : Table) {ks ts : List RegProbe} {old : ℕ → RegProbe} where
  registered-IsKept :
      (p : RegProbe) (ret : ℤ) (s : Kunreg)
      → kept s.world.trace ≡ add_if_accepted ret p (filled s.num_reg_probes s.probes ++ ks)
      → taken s.world.trace ≡ ts
      → ((i : ℕ) → s.num_reg_probes ≤ i → s.probes i ≡ old i)
      → IsKept ks ts old (registered K table p ret s).1
  unfolding registered kept taken filled
  registered-IsKept p ret s e t r = elim (Bool-cases (accepted ret)) [
    | inl ok ↦
        let here : (s.num_reg_probes == s.num_reg_probes) ≡ true = ground arith in
        rw ok (record {
          stored =
              e
              ∙ rw (
                ok,
                here,
                filled-set_probe s.num_reg_probes s.num_reg_probes p s.probes (omega arith),
              );
          untaken = t;
          rest = λ i h. ground (arith, r i);
        })
    | inr failed ↦ rw failed (record { stored = e ∙ rw failed; untaken = t; rest = r })
  ]

  register_one-IsKept :
      (found : Name) (s : Kunreg)
      → IsKept ks ts old s
      → IsKept ks ts old (register_one K table found s).1
  unfolding register_one kept taken
  register_one-IsKept found s i =
      let usp : ℕ = K.alloc s.world.trace sizeof_consumer in
      let asked : Kunreg = record s {
        world = record (s.world) { trace = Event.kmalloc sizeof_consumer usp ∷ s.world.trace };
      } in
      let t = try_register K table found usp asked in
      let (k, l) = try_register-kept K table found usp asked in
      elim (Bool-cases (usp == 0)) [
        | inl null ↦ rw null (record { stored = i.stored; untaken = i.untaken; rest = i.rest })
        | inr got ↦ rw got (
            registered-IsKept t.0 t.1 t.2 (k ∙ ap (add_if_accepted t.1 t.0) i.stored)
              (l ∙ i.untaken) i.rest)
      ]

  run_all-IsKept :
      (names : List Name) (s : Kunreg)
      → IsKept ks ts old s
      → IsKept ks ts old (run_all names (register_one K table) s).1
  unfolding run_all
  run_all-IsKept [] s i = i
  run_all-IsKept (x ∷ xs) s i = elim (Option-cases (register_one K table x s).0) [
    | inl e ↦ rw e (run_all-IsKept xs (register_one K table x s).1 (register_one-IsKept x s i))
    | inr (r, e) ↦ rw e (register_one-IsKept x s i)
  ]

module _ (K : Kernel) (table : Table) where
  pub register_all-IsKept :
      (s : Kunreg)
      → IsKept (kept s.world.trace) (taken s.world.trace) s.probes (register_all K table s)
  unfolding register_all filled
  register_all-IsKept s =
      let same : register_all K table s
          ≡ (run_all (matching table probe_prefix) (register_one K table) start).1 =
        ap (λ r. r.1)
          (for_each_glob-run_all table probe_prefix (register_one K table) (omega arith) start) in
      rw same (
        run_all-IsKept K table (matching table probe_prefix) start
          (record { stored = refl; untaken = refl; rest = λ i h. refl }))
    where
      start : Kunreg
      start = record s { num_reg_probes = 0 }
