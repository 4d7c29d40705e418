-- ===== src/Existing/Probe6/Undo.antt =====
-- The registrations of probe6.c and suicide.c can be undone, and the counters of probe6.c.
use uprobe_tests.Base.{
  ℕ, ◌+◌, ◌≡◌, ◌⊎◌, refl, false, ◌&&◌, arith, Bool-cases, inl, inr, ◌==◌, pos, is_zero, minus_one,
}
use uprobe_tests.Kernel.{Handler, Kernel, World}
use uprobe_tests.Kernel.Count.{add_if, registers, unregisters}
use uprobe_tests.Udbgfs.{u_dbfs_init}
use uprobe_tests.Udbgfs.Session.{IsOpen, test_printk-IsOpen, ProbeEvent, ProbeEvent-IsOpen}
use uprobe_tests.Existing.Common.{TakenBack, IsImmediate}
use uprobe_tests.Existing.Infos.{Info, Infos}
use uprobe_tests.Existing.Infos.Rollback.{IsUndoable, init-IsUndone}
use uprobe_tests.Existing.Probe6.{
  Params, handled, register_handled, register_entry, unregister_entry, probe6_init, probe6_exit,
}

-- While its flag is set, an entry stands for one registration.
abbrev pub weight : ℕ → Info → ℕ
weight a x = add_if (x.registered && (a == x.u.addr)) 0

module _ (K : Kernel) (immediate : IsImmediate K) (pid : ℕ) (h : Handler) where
  register_handled-IsOpen :
      (b w : World) (x : Info) → IsOpen b w → IsOpen b (register_handled K pid h x w).2
  unfolding register_handled
  register_handled-IsOpen b w x o =
      let o' = ProbeEvent-IsOpen ProbeEvent.register o in
      elim (Bool-cases (is_zero (K.register w.trace x.u))) [
        | inl ok ↦ simp ok o'
        | inr failed ↦ simp failed (test_printk-IsOpen K _ _ b _ o')
      ]

  register_handled-counted :
      (a : ℕ) (x : Info) (w : World)
      → x.registered ≡ false
      → registers a (register_handled K pid h x w).2.trace + unregisters a w.trace
        ≡ registers a w.trace
          + unregisters a (register_handled K pid h x w).2.trace
          + weight a (register_handled K pid h x w).1
  unfolding register_handled registers unregisters
  register_handled-counted a x w off =
      let now = immediate.uprobe w.trace x.u in ground (arith, now, off)

  pub register_entry-IsUndoable : IsUndoable (register_entry K pid h) unregister_entry weight
  unfolding register_entry unregister_entry registers unregisters
  register_entry-IsUndoable = record {
    fresh = λ a x off. ground (arith, off);
    open_register = λ b w x o. elim (Bool-cases (K.find_vaddr x.fname == 0)) [
      | inl unknown ↦ simp unknown (test_printk-IsOpen K _ _ b w o)
      | inr known ↦ simp known (register_handled-IsOpen b w (handled K pid h x) o)
    ];
    counted = λ a x w off. elim (Bool-cases (K.find_vaddr x.fname == 0)) [
      | inl unknown ↦ ground (arith, off)
      | inr known ↦ simp known (register_handled-counted a (handled K pid h x) w off)
    ];
    open_unregister = λ b w x o. ProbeEvent-IsOpen ProbeEvent.unregister o;
    uncounted = λ a x w on. (refl, ground (arith, on));
  }

-- Once its debugfs entries are made, probe6.c either loads, and unloading it unregisters every probe
-- that it registered and takes back its memory and its entries, or fails with -1 and has taken them
-- back; the kernel must not answer -EINPROGRESS.
pub probe6_init-probe6_exit :
    (K : Kernel) (immediate : IsImmediate K) (c : Params) (s : Infos)
    → (u_dbfs_init K "probe6" s.world).0 ≡ pos 0
    → (((probe6_init K c s).0 ≡ pos 0)
        × TakenBack s.world.trace (probe6_exit K c (probe6_init K c s).1).world.trace)
      ⊎ (((probe6_init K c s).0 ≡ minus_one)
          × TakenBack s.world.trace (probe6_init K c s).1.world.trace)
unfolding probe6_init probe6_exit
probe6_init-probe6_exit K immediate c s made =
    init-IsUndone K (register_entry-IsUndoable K immediate c.pid Handler.u_handler) "probe6" s made
