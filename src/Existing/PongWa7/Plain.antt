-- ===== src/Existing/PongWa7/Plain.antt =====
-- pong_wa7.c built without UPROBES_REG_CALLBACK: no handler registers or unregisters anything.
use uprobe_tests.Base.{ℕ, zero, suc, ◌+◌, ◌≡◌, ap, ◌∙◌, refl, false, [], ◌∷◌, ◌==◌, arith, ℤ, pos}
use uprobe_tests.Kernel.{Arg, Event, Kernel}
use uprobe_tests.Kernel.Count.{add_if, registers, unregisters}
use uprobe_tests.Udbgfs.{test_printk, u_dbfs_cleanup}
use uprobe_tests.Udbgfs.Session.{u_dbfs_cleanup-Closed}
use uprobe_tests.Existing.Common.{inc}
use uprobe_tests.Existing.Pong.{Params, Pong, load, unregister_if}
use uprobe_tests.Existing.Pong.Run.{load-Ready}

unfoldable pub entry_handler : Pong → Pong
entry_handler s = record s { ncalls = inc s.ncalls; entry_registered = false }

unfoldable pub return_handler : Pong → Pong
return_handler s = record s { nreturns = inc s.nreturns }

-- The hits of the entry probe; the return probe is never registered.
unfoldable pub hits : ℕ → Pong → Pong
unfolding entry_handler
hits zero s = s
hits (suc n) s = hits n (entry_handler s)

unfoldable pub init_module : Kernel → Params → Pong → ℤ × Pong
unfolding load
init_module K c s = load K c "pong_wa7" s

unfoldable pub child_exit : Kernel → Pong → Pong
child_exit K s = record s {
  world =
      (test_printk K "ncalls=%d, nreturns=%d\n" (Arg.num s.ncalls ∷ Arg.num s.nreturns ∷ [])
        s.world).1;
}

unfoldable pub cleanup_module : Pong → Pong
unfolding unregister_if
cleanup_module s =
    let w1 = unregister_if s.entry_registered (Event.unregister_uprobe s.entry_probe) s.world in
    let w2 = unregister_if s.return_registered (Event.unregister_uretprobe s.return_probe) w1 in
    record s { world = (u_dbfs_cleanup w2).1 }

hits_lem :
    (n : ℕ) (s : Pong)
    → s.return_registered ≡ false
    → s.entry_registered ≡ false
    → ((hits n s).world ≡ s.world)
      × ((hits n s).return_registered ≡ false)
      × ((hits n s).entry_registered ≡ false)
unfolding hits
hits_lem zero s off clear = (refl, off, clear)
hits_lem (suc n) s off clear = hits_lem n (entry_handler s) off refl

nothing_to_unregister :
    (t : Pong)
    → t.entry_registered ≡ false
    → t.return_registered ≡ false
    → (cleanup_module t).world ≡ (u_dbfs_cleanup t.world).1
unfolding cleanup_module unregister_if
nothing_to_unregister t entry_off return_off = simp (entry_off, return_off) refl

-- Built without UPROBES_REG_CALLBACK, pong_wa7.c forgets its probe: once it has loaded, with equal
-- counters and its return probe not registered before, and the probe has been hit, unloading it leaves
-- the entry probe registered, and every other probe as it was before the load.
pub plain_leaks :
    (K : Kernel) (c : Params) (s : Pong) (n : ℕ)
    → s.return_registered ≡ false
    → s.ncalls ≡ s.nreturns
    → (init_module K c s).0 ≡ pos 0
    → (a : ℕ)
    → registers a (cleanup_module (hits (suc n) (init_module K c s).1)).world.trace
        + unregisters a s.world.trace
      ≡ registers a s.world.trace
        + unregisters a (cleanup_module (hits (suc n) (init_module K c s).1)).world.trace
        + add_if (a == (init_module K c s).1.entry_probe.addr) 0
unfolding init_module hits
plain_leaks K c s n off equal ok a =
    let t = (load K c "pong_wa7" s).1 in
    let ready = load-Ready K c "pong_wa7" s off equal ok in
    let (same, return_off, entry_off) = hits_lem n (entry_handler t) ready.off refl in
    let l = ready.loaded in
    let d = u_dbfs_cleanup-Closed s.world t.world l.opened in
    let probes = rw (ready.on, ready.off) at (l.probes a) in
    let gone : (cleanup_module (hits n (entry_handler t))).world ≡ (u_dbfs_cleanup t.world).1 =
      nothing_to_unregister (hits n (entry_handler t)) entry_off return_off
      ∙ ap (λ w. (u_dbfs_cleanup w).1) same in
    rw gone (omega (arith, probes, d.registers_same a, d.unregisters_same a))
