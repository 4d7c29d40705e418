-- ===== src/Existing/Infos/Rollback.antt =====
-- Whether the modules with an array of probes load or fail to, they take back what they registered.
use uprobe_tests.Base.{
  ℕ, ◌+◌, ◌≡◌, ◌⊎◌, refl, String, Bool, true, false, List, [], ◌∷◌, map, All, arith, Bool-cases,
  inl, inr, ℤ, pos, is_zero, minus_one,
}
use uprobe_tests.Kernel.{Arg, Kernel, World}
use uprobe_tests.Kernel.Count.{registers, unregisters}
use uprobe_tests.Udbgfs.{test_printk, u_dbfs_init, u_dbfs_cleanup}
use uprobe_tests.Udbgfs.Session.{
  IsOpen, u_dbfs_init-IsOpen, u_dbfs_init-probes, test_printk-IsOpen, u_dbfs_cleanup-Closed,
}
use uprobe_tests.Existing.Common.{TakenBack}
use uprobe_tests.Existing.Infos.{
  Info, Infos, clear, Registrar, register_loop, unregister_if, unregister_all, conclude, load, init,
  exit,
}

-- A registrar and its opposite, with the number of registrations at an address that an entry stands
-- for while its flag is set.
pub record IsUndoable (register_probes : Registrar) (unregister : Info → World → World)
    (weight : ℕ → Info → ℕ) : Type 0 where
  pub fresh : (a : ℕ) (x : Info) → x.registered ≡ false → weight a x ≡ 0
  pub open_register : (b w : World) (x : Info) → IsOpen b w → IsOpen b (register_probes x w).2
  pub counted :
      (a : ℕ) (x : Info) (w : World)
      → x.registered ≡ false
      → registers a (register_probes x w).2.trace + unregisters a w.trace
        ≡ registers a w.trace
          + unregisters a (register_probes x w).2.trace
          + weight a (register_probes x w).1
  pub open_unregister : (b w : World) (x : Info) → IsOpen b w → IsOpen b (unregister x w)
  pub uncounted :
      (a : ℕ) (x : Info) (w : World)
      → x.registered ≡ true
      → (registers a (unregister x w).trace ≡ registers a w.trace)
        × (unregisters a (unregister x w).trace ≡ unregisters a w.trace + weight a x)

module _ (K : Kernel) {register_probes : Registrar} {unregister : Info → World → World}
    {weight : ℕ → Info → ℕ} (law : IsUndoable register_probes unregister weight) where
  outstanding : ℕ → List Info → ℕ
  outstanding a [] = 0
  outstanding a (x ∷ xs) = weight a x + outstanding a xs

  abbrev AllClear : List Info → Type 0
  AllClear = All (λ x. x.registered ≡ false)

  outstanding_clear : (a : ℕ) (xs : List Info) → AllClear xs → outstanding a xs ≡ 0
  unfolding outstanding
  outstanding_clear a [] h = refl
  outstanding_clear a (x ∷ xs) h = omega (arith, law.fresh a x h.0, outstanding_clear a xs h.1)

  map-clear-AllClear : (xs : List Info) → AllClear (map clear xs)
  map-clear-AllClear [] = tt
  map-clear-AllClear (x ∷ xs) = (refl, map-clear-AllClear xs)

  -- After the registrations `xs` is what the array holds.
  record Balanced (b w : World) (xs : List Info) : Type 0 where
    opened : IsOpen b w
    probes :
        (a : ℕ)
        → registers a w.trace + unregisters a b.trace
          ≡ registers a b.trace + unregisters a w.trace + outstanding a xs

  register_loop-IsOpen :
      (b : World) (xs : List Info) (w : World)
      → IsOpen b w
      → IsOpen b (register_loop K register_probes unregister xs w).2
  unfolding register_loop
  register_loop-IsOpen b [] w o = o
  register_loop-IsOpen b (x ∷ xs) w o =
      let told = (test_printk K "Registering probes for %s\n" (Arg.str x.fname ∷ []) w).1 in
      let o' = law.open_register b told x (test_printk-IsOpen K _ _ b w o) in
      elim (Bool-cases (is_zero (register_probes x told).0)) [
        | inl ok ↦ rw ok (register_loop-IsOpen b xs (register_probes x told).2 o')
        | inr failed ↦ rw failed o'
      ]

  register_loop-counted :
      (a : ℕ) (xs : List Info) (w : World)
      → AllClear xs
      → registers a (register_loop K register_probes unregister xs w).2.trace
          + unregisters a w.trace
        ≡ registers a w.trace
          + unregisters a (register_loop K register_probes unregister xs w).2.trace
          + outstanding a (register_loop K register_probes unregister xs w).1
  unfolding register_loop outstanding
  register_loop-counted a [] w h = omega arith
  register_loop-counted a (x ∷ xs) w h =
      let told = (test_printk K "Registering probes for %s\n" (Arg.str x.fname ∷ []) w).1 in
      let one = law.counted a x told h.0 in
      elim (Bool-cases (is_zero (register_probes x told).0)) [
        | inl ok ↦
            rw ok (omega (arith, one, register_loop-counted a xs (register_probes x told).2 h.1))
        | inr failed ↦ rw failed (omega (arith, one, outstanding_clear a xs h.1))
      ]

  unregister_if-counted :
      (a : ℕ) (set : Bool) (x : Info) (w : World)
      → x.registered ≡ set
      → (registers a (unregister_if K register_probes unregister set x w).trace
          ≡ registers a w.trace)
        × (unregisters a (unregister_if K register_probes unregister set x w).trace
            ≡ unregisters a w.trace + weight a x)
  unfolding unregister_if
  unregister_if-counted a true x w on = law.uncounted a x w on
  unregister_if-counted a false x w off = (refl, omega (arith, law.fresh a x off))

  unregister_if-IsOpen :
      (b : World) (set : Bool) (x : Info) (w : World)
      → IsOpen b w
      → IsOpen b (unregister_if K register_probes unregister set x w)
  unfolding unregister_if
  unregister_if-IsOpen b true x w o = law.open_unregister b w x o
  unregister_if-IsOpen b false x w o = o

  unregister_all-counted :
      (a : ℕ) (xs : List Info) (w : World)
      → (registers a (unregister_all K register_probes unregister xs w).trace ≡ registers a w.trace)
        × (unregisters a (unregister_all K register_probes unregister xs w).trace
            ≡ unregisters a w.trace + outstanding a xs)
  unfolding unregister_all outstanding
  unregister_all-counted a [] w = (refl, omega arith)
  unregister_all-counted a (x ∷ xs) w =
      let one = unregister_if-counted a x.registered x w refl in
      let rest =
        unregister_all-counted a xs (unregister_if K register_probes unregister x.registered x w) in
      (omega (arith, rest.0, one.0), omega (arith, rest.1, one.1))

  unregister_all-IsOpen :
      (b : World) (xs : List Info) (w : World)
      → IsOpen b w
      → IsOpen b (unregister_all K register_probes unregister xs w)
  unfolding unregister_all
  unregister_all-IsOpen b [] w o = o
  unregister_all-IsOpen b (x ∷ xs) w o =
      unregister_all-IsOpen b xs (unregister_if K register_probes unregister x.registered x w)
        (unregister_if-IsOpen b x.registered x w o)

  undo-TakenBack :
      (b w : World) (xs : List Info)
      → Balanced b w xs
      → TakenBack b.trace
          (u_dbfs_cleanup (unregister_all K register_probes unregister xs w)).1.trace
  undo-TakenBack b w xs l =
      let w' = unregister_all K register_probes unregister xs w in
      let d = u_dbfs_cleanup-Closed b w' (unregister_all-IsOpen b xs w l.opened) in
      record {
        memory = d.memory;
        files = d.files;
        probes = λ a.
            let (r, u) = unregister_all-counted a xs w in
            omega (arith, l.probes a, r, u, d.registers_same a, d.unregisters_same a);
      }

  register_loop-Balanced :
      (b w : World) (xs : List Info)
      → IsOpen b w
      → ((a : ℕ)
          → (registers a w.trace ≡ registers a b.trace)
            × (unregisters a w.trace ≡ unregisters a b.trace))
      → AllClear xs
      → Balanced b
          (register_loop K register_probes unregister xs w).2
          (register_loop K register_probes unregister xs w).1
  register_loop-Balanced b w xs o same h = record {
    opened = register_loop-IsOpen b xs w o;
    probes = λ a. omega (arith, register_loop-counted a xs w h, (same a).0, (same a).1);
  }

  -- What `conclude` promises for a loop's outcome: on success the array holds what is registered, on
  -- failure all is taken back.
  abbrev Concluded : World → ℤ × Infos → Type 0
  Concluded b r =
      ((r.0 ≡ pos 0) × Balanced b r.1.world r.1.probes)
      ⊎ ((r.0 ≡ minus_one) × TakenBack b.trace r.1.world.trace)

  conclude-Concluded :
      (b : World) (r : Bool × List Info × World)
      → Balanced b r.2 r.1
      → Concluded b (conclude K register_probes unregister r)
  unfolding conclude
  conclude-Concluded b (true, xs, w) l = inl (refl, l)
  conclude-Concluded b (false, xs, w) l = inr (refl, undo-TakenBack b w xs l)

  -- The promise of `init_exit`, for an outcome and a state from before it.
  abbrev pub IsUndone : World → ℤ × Infos → Type 0
  IsUndone b r =
      ((r.0 ≡ pos 0) × TakenBack b.trace (exit K register_probes unregister r.1).world.trace)
      ⊎ ((r.0 ≡ minus_one) × TakenBack b.trace r.1.world.trace)

  conclude-IsUndone : (b : World) (r : ℤ × Infos) → Concluded b r → IsUndone b r
  unfolding exit
  conclude-IsUndone b r (inl (ok, l)) = inl (ok, undo-TakenBack b r.1.world r.1.probes l)
  conclude-IsUndone b r (inr back) = inr back

  pub load-IsUndone :
      (b : World) (s : Infos)
      → IsOpen b s.world
      → ((a : ℕ)
          → (registers a s.world.trace ≡ registers a b.trace)
            × (unregisters a s.world.trace ≡ unregisters a b.trace))
      → IsUndone b (load K register_probes unregister s)
  unfolding load
  load-IsUndone b s o same = conclude-IsUndone b (load K register_probes unregister s) (
      conclude-Concluded b (register_loop K register_probes unregister (map clear s.probes) s.world)
        (register_loop-Balanced b s.world (map clear s.probes) o same
          (map-clear-AllClear s.probes)))

  pub init-IsUndone :
      (name : String) (s : Infos)
      → (u_dbfs_init K name s.world).0 ≡ pos 0
      → IsUndone s.world (init K register_probes unregister name s)
  unfolding init
  init-IsUndone name s made =
      let d = (u_dbfs_init K name s.world).1 in
      let zero_ret : is_zero (u_dbfs_init K name s.world).0 ≡ true = rw made refl in
      rw zero_ret (
        load-IsUndone s.world (record s { world = d }) (u_dbfs_init-IsOpen K name s.world zero_ret)
          (u_dbfs_init-probes K name s.world))
