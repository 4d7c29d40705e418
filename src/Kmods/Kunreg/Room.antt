-- ===== src/Kmods/Kunreg/Room.antt =====
-- The array of kunreg.c has room for the probes, if fewer symbols than it has elements start with
-- `_probe`.
use uprobe_tests.Base.{
  ℕ, suc, ◌+◌, ◌≤◌, ◌<◌, ◌≡◌, refl, ap, false, List, [], ◌∷◌, arith, length, leb, Bool-cases,
  Option-cases, inl, inr, ◌==◌, ℤ, is_neg,
}
use uprobe_tests.Kernel.{Name, Event, Kernel}
use uprobe_tests.Udbgfs.{u_dbfs_init}
use uprobe_tests.Resolve.{Config}
use uprobe_tests.Symbols.{Table}
use uprobe_tests.Symbols.Loop.{matching, run_all, for_each_glob-run_all}
use uprobe_tests.Kmods.{probe_prefix, init_uprobe_failed, sizeof_consumer}
use uprobe_tests.Kmods.Kunreg.{
  RegProbe, Kunreg, max_probes, accepted, registered, try_register, register_one, register_all,
  init_module, unregister_all, cleanup_module,
}

-- At most `n` elements are used, and none behind the array was.
abbrev pub Room : (n : ℕ) → Kunreg → Type 0
Room n s = (s.num_reg_probes ≤ n) × (s.overrun ≡ false)

module _ (K : Kernel) (table : Table) where
  registered-Room :
      (p : RegProbe) (ret : ℤ) (n : ℕ) (s : Kunreg)
      → n < max_probes
      → Room n s
      → Room (suc n) (registered K table p ret s).1
  unfolding registered
  registered-Room p ret n s lt (le, within) = elim (Bool-cases (accepted ret)) [
    | inl ok ↦
        let free : leb max_probes s.num_reg_probes ≡ false = ground (arith, lt, le) in
        rw (ok, within, free) (omega (arith, le), refl)
    | inr failed ↦ rw failed (omega (arith, le), within)
  ]

  register_one-Room :
      (found : Name) (n : ℕ) (s : Kunreg)
      → n < max_probes
      → Room n s
      → Room (suc n) (register_one K table found s).1
  unfolding register_one try_register
  register_one-Room found n s lt (le, within) =
      let usp : ℕ = K.alloc s.world.trace sizeof_consumer in
      let asked : Kunreg = record s {
        world = record (s.world) { trace = Event.kmalloc sizeof_consumer usp ∷ s.world.trace };
      } in
      let t = try_register K table found usp asked in
      elim (Bool-cases (usp == 0)) [
        | inl null ↦ rw null (omega (arith, le), within)
        | inr got ↦ rw got (registered-Room t.0 t.1 n t.2 lt (le, within))
      ]

  run_all-Room :
      (names : List Name) (n : ℕ) (s : Kunreg)
      → n + length names ≤ max_probes
      → Room n s
      → Room (n + length names) (run_all names (register_one K table) s).1
  unfolding run_all
  run_all-Room [] n s fit (le, within) = (omega (arith, le), within)
  run_all-Room (x ∷ xs) n s fit room =
      let once : Room (suc n) (register_one K table x s).1 =
        register_one-Room x n s (omega (arith, fit)) room in
      elim (Option-cases (register_one K table x s).0) [
        | inl e ↦
            let rest =
              run_all-Room xs (suc n) (register_one K table x s).1 (omega (arith, fit)) once in
            rw e (omega (arith, rest.0), rest.1)
        | inr (r, e) ↦ rw e (omega (arith, once.0), once.1)
      ]

  pub register_all-Room :
      (s : Kunreg)
      → length (matching table probe_prefix) < max_probes
      → s.overrun ≡ false
      → Room (length (matching table probe_prefix)) (register_all K table s)
  unfolding register_all
  register_all-Room s few within =
      let start : Kunreg = record s { num_reg_probes = 0 } in
      let same : register_all K table s
          ≡ (run_all (matching table probe_prefix) (register_one K table) start).1 =
        ap (λ r. r.1)
          (for_each_glob-run_all table probe_prefix (register_one K table) (omega arith) start) in
      let (le, free) =
        run_all-Room (matching table probe_prefix) 0 start (omega (arith, few))
          (omega arith, within) in
      rw same (omega (arith, le), free)

  pub init_module-Room :
      (cfg : Config) (s : Kunreg)
      → length (matching table probe_prefix) < max_probes
      → Room 0 s
      → Room (length (matching table probe_prefix)) (init_module K table cfg s).1
  unfolding init_module
  init_module-Room cfg s few (le, within) = elim (Bool-cases (init_uprobe_failed K cfg)) [
    | inl missing ↦ rw missing (omega (arith, le), within)
    | inr found ↦ elim (Bool-cases (is_neg (u_dbfs_init K "kunreg" s.world).0)) [
      | inl bad ↦ rw (found, bad) (omega (arith, le), within)
      | inr good ↦
          rw (found, good)
            (register_all-Room (record s { world = (u_dbfs_init K "kunreg" s.world).1 }) few within)
    ]
  ]

-- The loop reads one element more than is used.
pub unregister_all-Room :
    (n : ℕ) (s : Kunreg) → n < max_probes → Room n s → Room n (unregister_all s)
unfolding unregister_all
unregister_all-Room n s lt (le, within) =
    let free : leb max_probes s.num_reg_probes ≡ false = ground (arith, lt, le) in
    (le, rw (within, free) refl)

pub cleanup_module-Room :
    (n : ℕ) (s : Kunreg) → n < max_probes → Room n s → (cleanup_module s).overrun ≡ false
unfolding cleanup_module
cleanup_module-Room n s lt room = (unregister_all-Room n s lt room).1
