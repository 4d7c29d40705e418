-- ===== src/Existing/Rprobe6/Undo.antt =====
-- What rprobe6.c registers, it unregisters: the probe and the return probe of each entry.
use uprobe_tests.Base.{
  ℕ, ◌+◌, ◌≡◌, ◌⊎◌, refl, Bool, true, false, ◌&&◌, ◌∷◌, arith, Bool-cases, inl, inr, ◌==◌, ℤ, pos,
  is_zero, minus_one,
}
use uprobe_tests.Kernel.{codes, Event, Handler, Kernel, World}
use uprobe_tests.Kernel.Count.{add_if, registers, unregisters}
use uprobe_tests.Udbgfs.{u_dbfs_init}
use uprobe_tests.Udbgfs.Session.{
  IsOpen, u_dbfs_init-IsOpen, u_dbfs_init-probes, test_printk-IsOpen, ProbeEvent, ProbeEvent-IsOpen,
  u_dbfs_cleanup-Closed,
}
use uprobe_tests.Existing.Common.{TakenBack, IsImmediate}
use uprobe_tests.Existing.Infos.{Info, Infos}
use uprobe_tests.Existing.Infos.Rollback.{IsUndoable, load-IsUndone}
use uprobe_tests.Existing.Probe6.{handled}
use uprobe_tests.Existing.Rprobe6.{
  Params, ret_handled, register_returns, register_both, register_probes, unregister_probes,
  init_returns, prepare, prepared, rprobe6_init, rprobe6_exit,
}

module _ (K : Kernel) (immediate : IsImmediate K) (c : Params) where
  -- While its flag is set, an entry stands for its probe and, where there are any, its return probe.
  abbrev weight : ℕ → Info → ℕ
  weight a x =
      add_if (x.registered && (a == x.u.addr))
        (add_if (c.has_ret && (x.registered && (a == x.rp.addr))) 0)

  register_returns-IsOpen :
      (b w : World) (has : Bool) (x : Info) → IsOpen b w → IsOpen b (register_returns K c has x w).2
  unfolding register_returns
  register_returns-IsOpen b w false x o = o
  register_returns-IsOpen b w true x o =
      let o' = ProbeEvent-IsOpen ProbeEvent.register_ret o in
      elim (Bool-cases (is_zero (K.register_ret w.trace (ret_handled K c x).rp))) [
        | inl ok ↦ simp ok o'
        | inr failed ↦
            simp failed (ProbeEvent-IsOpen ProbeEvent.unregister (test_printk-IsOpen K _ _ b _ o'))
      ]

  register_both-IsOpen : (b w : World) (x : Info) → IsOpen b w → IsOpen b (register_both K c x w).2
  unfolding register_both
  register_both-IsOpen b w x o =
      let o' = ProbeEvent-IsOpen ProbeEvent.register o in
      elim (Bool-cases (is_zero (K.register w.trace x.u))) [
        | inl ok ↦ simp ok (register_returns-IsOpen b _ c.has_ret x o')
        | inr failed ↦ simp failed (test_printk-IsOpen K _ _ b _ o')
      ]

  register_returns-counted :
      (a : ℕ) (has : Bool) (x : Info) (w : World)
      → has ≡ c.has_ret
      → x.registered ≡ false
      → registers a (register_returns K c has x w).2.trace
          + unregisters a w.trace
          + add_if (a == x.u.addr) 0
        ≡ registers a w.trace
          + unregisters a (register_returns K c has x w).2.trace
          + weight a (register_returns K c has x w).1
  unfolding register_returns registers unregisters
  register_returns-counted a false x w e off = ground (arith, e, off)
  register_returns-counted a true x w e off =
      let now = immediate.uretprobe w.trace (ret_handled K c x).rp in ground (arith, e, off, now)

  register_both-counted :
      (a : ℕ) (x : Info) (w : World)
      → x.registered ≡ false
      → registers a (register_both K c x w).2.trace + unregisters a w.trace
        ≡ registers a w.trace
          + unregisters a (register_both K c x w).2.trace
          + weight a (register_both K c x w).1
  unfolding register_both registers unregisters
  register_both-counted a x w off =
      let now = immediate.uprobe w.trace x.u in
      let after : World = record w {
        trace = Event.register_uprobe x.u (K.register w.trace x.u) ∷ w.trace;
      } in
      elim (Bool-cases (is_zero (K.register w.trace x.u))) [
        | inl ok ↦
            let l = register_returns-counted a c.has_ret x after refl off in
            simp ok (ground (arith, l, ok))
        | inr failed ↦ simp failed (ground (arith, now, off, failed))
      ]

  register_probes-IsUndoable : IsUndoable (register_probes K c) (unregister_probes K c) weight
  unfolding register_probes unregister_probes registers unregisters
  register_probes-IsUndoable = record {
    fresh = λ a x off. ground (arith, off);
    open_register = λ b w x o. elim (Bool-cases (K.find_vaddr x.fname == 0)) [
      | inl unknown ↦ simp unknown (test_printk-IsOpen K _ _ b w o)
      | inr known ↦ simp known (register_both-IsOpen b w (handled K c.pid Handler.u_handler x) o)
    ];
    counted = λ a x w off. elim (Bool-cases (K.find_vaddr x.fname == 0)) [
      | inl unknown ↦ ground (arith, off)
      | inr known ↦ simp known (register_both-counted a (handled K c.pid Handler.u_handler x) w off)
    ];
    open_unregister = λ b w x o. elim (Bool-cases c.has_ret) [
      | inl has ↦
          simp has (
            ProbeEvent-IsOpen ProbeEvent.unregister_ret (ProbeEvent-IsOpen ProbeEvent.unregister o))
      | inr without ↦ simp without (ProbeEvent-IsOpen ProbeEvent.unregister o)
    ];
    uncounted = λ a x w on. (ground (arith, on), ground (arith, on));
  }

  init_returns-IsOpen :
      (b w : World) (tramp : ℕ) → IsOpen b w → IsOpen b (init_returns K c tramp w).1
  unfolding init_returns
  init_returns-IsOpen b w tramp o =
      let o' = ProbeEvent-IsOpen ProbeEvent.init_ret o in
      elim (Bool-cases (tramp == 0)) [
        | inl none ↦ simp none o
        | inr some ↦ elim (Bool-cases (is_zero (K.init_ret w.trace c.pid tramp))) [
          | inl ok ↦ simp (some, ok) o'
          | inr failed ↦ simp (some, failed) o'
        ]
      ]

  prepare-IsOpen : (b w : World) → IsOpen b w → IsOpen b (prepare K c w).1
  unfolding prepare
  prepare-IsOpen b w o = elim (Bool-cases c.has_ret) [
    | inl has ↦ elim (Bool-cases c.inits_ret) [
      | inl sets ↦ simp (has, sets) (init_returns-IsOpen b w (K.find_vaddr (codes "main")) o)
      | inr not_set ↦ simp (has, not_set) o
    ]
    | inr without ↦ simp without o
  ]

  prepare-probes :
      (w : World) (a : ℕ)
      → (registers a (prepare K c w).1.trace ≡ registers a w.trace)
        × (unregisters a (prepare K c w).1.trace ≡ unregisters a w.trace)
  unfolding prepare init_returns registers unregisters
  prepare-probes w a = (ground arith, ground arith)

  IsUnloadable : World → ℤ × Infos → Type 0
  IsUnloadable b r =
      ((r.0 ≡ pos 0) × TakenBack b.trace (rprobe6_exit K c r.1).world.trace)
      ⊎ ((r.0 ≡ minus_one) × TakenBack b.trace r.1.world.trace)

  prepared-IsUnloadable :
      (b : World) (s : Infos) (r : Bool × World)
      → IsOpen b r.1
      → ((a : ℕ)
          → (registers a r.1.trace ≡ registers a b.trace)
            × (unregisters a r.1.trace ≡ unregisters a b.trace))
      → IsUnloadable b (prepared K c s r)
  unfolding IsUnloadable prepared rprobe6_exit
  prepared-IsUnloadable b s (true, w) o same =
      load-IsUndone K register_probes-IsUndoable b (record s { world = w }) o same
  prepared-IsUnloadable b s (false, w) o same =
      let d = u_dbfs_cleanup-Closed b w o in
      inr (
        refl,
        record {
          memory = d.memory;
          files = d.files;
          probes = λ a. omega (arith, same a, d.registers_same a, d.unregisters_same a);
        },
      )

  -- Once its debugfs entries are made, rprobe6.c either loads, and unloading it unregisters every
  -- probe and return probe that it registered and takes back its memory and its entries, or fails with
  -- -1 and has taken them back, where the return probe of an entry was refused too; the kernel must
  -- not answer -EINPROGRESS.
  pub rprobe6_init-rprobe6_exit :
      (s : Infos)
      → (u_dbfs_init K "rprobe6" s.world).0 ≡ pos 0
      → (((rprobe6_init K c s).0 ≡ pos 0)
          × TakenBack s.world.trace (rprobe6_exit K c (rprobe6_init K c s).1).world.trace)
        ⊎ (((rprobe6_init K c s).0 ≡ minus_one)
            × TakenBack s.world.trace (rprobe6_init K c s).1.world.trace)
  unfolding rprobe6_init IsUnloadable
  rprobe6_init-rprobe6_exit s made =
      let d = (u_dbfs_init K "rprobe6" s.world).1 in
      let zero_ret : is_zero (u_dbfs_init K "rprobe6" s.world).0 ≡ true = rw made refl in
      let o = prepare-IsOpen s.world d (u_dbfs_init-IsOpen K "rprobe6" s.world zero_ret) in
      rw zero_ret (
        prepared-IsUnloadable s.world s (prepare K c d) o (λ a.
          let (r, u) = prepare-probes d a in
          let (r1, u1) = u_dbfs_init-probes K "rprobe6" s.world a in
          (omega (arith, r, r1), omega (arith, u, u1))))
