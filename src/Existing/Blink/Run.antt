-- ===== src/Existing/Blink/Run.antt =====
-- Runs of blink.c and blink2.c from the load to the removal.
use uprobe_tests.Base.{
  ℕ, ◌+◌, ◌≡◌, refl, ◌∙◌, Bool, true, false, ◌&&◌, ◌∷◌, arith, Bool-cases, inl, inr, ◌==◌, ℤ, pos,
  is_zero,
}
use uprobe_tests.Kernel.{codes, Event, Kernel, World}
use uprobe_tests.Kernel.Count.{add_if, registers, unregisters}
use uprobe_tests.Udbgfs.{u_dbfs_init}
use uprobe_tests.Udbgfs.Session.{
  IsOpen, u_dbfs_init-IsOpen, u_dbfs_init-probes, test_printk-IsOpen, ProbeEvent, ProbeEvent-IsOpen,
  u_dbfs_cleanup-Closed,
}
use uprobe_tests.Existing.Common.{TakenBack, IsDeferred}
use uprobe_tests.Existing.Blink.{
  Params, Blink, place_steady, place_blink, register_steady, init_module, at, place_two,
  blink2_init, unregister_blink, cleanup_module,
}
use uprobe_tests.Existing.Blink.Steps.{Steps, IsLoaded, Steps-IsLoaded}

-- Nothing but the debugfs files has been made yet, and the second probe is not registered.
record IsReady (b : World) (s : Blink) : Type 0 where
  opened : IsOpen b s.world
  same :
      (a : ℕ)
      → (registers a s.world.trace ≡ registers a b.trace)
        × (unregisters a s.world.trace ≡ unregisters a b.trace)
  off : s.registered ≡ false

unregister_blink-counted :
    (a : ℕ) (set : Bool) (s : Blink) (w : World)
    → (registers a (unregister_blink set s w).trace ≡ registers a w.trace)
      × (unregisters a (unregister_blink set s w).trace
          ≡ unregisters a w.trace + add_if (set && a == s.usp_blink.addr) 0)
unfolding unregister_blink registers unregisters
unregister_blink-counted a true s w = (refl, ground arith)
unregister_blink-counted a false s w = (refl, omega arith)

unregister_blink-IsOpen :
    (b w : World) (set : Bool) (s : Blink) → IsOpen b w → IsOpen b (unregister_blink set s w)
unfolding unregister_blink
unregister_blink-IsOpen b w true s o = ProbeEvent-IsOpen ProbeEvent.unregister o
unregister_blink-IsOpen b w false s o = o

cleanup_module-TakenBack :
    (b : World) (s : Blink) → IsLoaded b s → TakenBack b.trace (cleanup_module s).world.trace
unfolding cleanup_module registers unregisters
cleanup_module-TakenBack b s l =
    let gone : World = record (s.world) {
      trace = Event.unregister_uprobe s.usp_steady ∷ s.world.trace;
    } in
    let w : World = unregister_blink s.registered s gone in
    let o =
      unregister_blink-IsOpen b gone s.registered s
        (ProbeEvent-IsOpen ProbeEvent.unregister l.opened) in
    let d = u_dbfs_cleanup-Closed b w o in
    record {
      memory = d.memory;
      files = d.files;
      probes = λ a.
          let (r, u) = unregister_blink-counted a s.registered s gone in
          ground (arith, l.probes a, r, u, d.registers_same a, d.unregisters_same a);
    }

module _ (K : Kernel) (c : Params) where
  register_steady-IsLoaded :
      (b : World) (s : Blink)
      → IsReady b s
      → (register_steady K c s).0 ≡ pos 0
      → IsLoaded b (register_steady K c s).1
  unfolding register_steady registers unregisters
  register_steady-IsLoaded b s ready ok =
      elim (Bool-cases (is_zero (K.register s.world.trace s.usp_steady))) [
        | inl zero_ret ↦ simp zero_ret (record {
          opened =
              ProbeEvent-IsOpen ProbeEvent.register
                (test_printk-IsOpen K _ _ b s.world ready.opened);
          probes = λ a. ground (arith, ready.same a, ready.off, zero_ret);
        })
        | inr failed ↦ absurd (ground arith)
      ]

  -- The second probe is not registered, so that it may be placed.
  register_steady-off : (s : Blink) → (register_steady K c s).1.registered ≡ s.registered
  unfolding register_steady
  register_steady-off s = ground arith

  place_blink-IsLoaded :
      (b : World) (r : ℤ × Blink)
      → r.1.registered ≡ false
      → (r.0 ≡ pos 0 → IsLoaded b r.1)
      → (place_blink K c r).0 ≡ pos 0
      → IsLoaded b (place_blink K c r).1
  place_blink-IsLoaded b (r, s) off l ok =
      let same : r ≡ pos 0 = ground arith in
      let loaded = l same in
      let zero_ret : is_zero r ≡ true = rw same refl in
      simp zero_ret (record { opened = loaded.opened; probes = loaded.probes })

  init_module-IsLoaded :
      (s : Blink)
      → s.registered ≡ false
      → (init_module K c s).0 ≡ pos 0
      → IsLoaded s.world (init_module K c s).1
  unfolding init_module
  init_module-IsLoaded s off ok = elim (Bool-cases (is_zero (u_dbfs_init K "blink" s.world).0)) [
    | inl made ↦
        let d = (u_dbfs_init K "blink" s.world).1 in
        let placed : Blink = place_steady K c (record s { world = d }) in
        let ready : IsReady s.world placed = record {
          opened = u_dbfs_init-IsOpen K "blink" s.world made;
          same = u_dbfs_init-probes K "blink" s.world;
          off = off;
        } in
        simp made (
          place_blink-IsLoaded s.world (register_steady K c placed)
            (register_steady-off placed ∙ off) (register_steady-IsLoaded s.world placed ready)
            (simp made at ok))
    | inr bad ↦ absurd (ground arith)
  ]

  place_two-IsLoaded :
      (b : World) (add subtract : ℕ) (s : Blink)
      → IsReady b s
      → (place_two K c add subtract s).0 ≡ pos 0
      → IsLoaded b (place_two K c add subtract s).1
  unfolding place_two
  place_two-IsLoaded b add subtract s ready ok = elim (Bool-cases (add == 0)) [
    | inl no_add ↦ absurd (ground (arith, no_add))
    | inr has_add ↦ elim (Bool-cases (subtract == 0)) [
      | inl no_subtract ↦ absurd (ground (arith, has_add, no_subtract))
      | inr has_subtract ↦
          let both : Blink = record s {
            usp_steady = at K c add s.usp_steady;
            usp_blink = at K c subtract s.usp_blink;
          } in
          simp (has_add, has_subtract)
            (register_steady-IsLoaded b both
              (record { opened = ready.opened; same = ready.same; off = ready.off })
              (simp (has_add, has_subtract) at ok))
    ]
  ]

  blink2_init-IsLoaded :
      (s : Blink)
      → s.registered ≡ false
      → (blink2_init K c s).0 ≡ pos 0
      → IsLoaded s.world (blink2_init K c s).1
  unfolding blink2_init
  blink2_init-IsLoaded s off ok = elim (Bool-cases (is_zero (u_dbfs_init K "blink2" s.world).0)) [
    | inl made ↦ simp made (
        place_two-IsLoaded s.world (K.find_vaddr (codes "add")) (K.find_vaddr (codes "subtract"))
          (record s { world = (u_dbfs_init K "blink2" s.world).1 })
          (record {
            opened = u_dbfs_init-IsOpen K "blink2" s.world made;
            same = u_dbfs_init-probes K "blink2" s.world;
            off = off;
          })
          (simp made at ok))
    | inr bad ↦ absurd (ground arith)
  ]

-- Once blink.c has loaded, with its second probe not registered before, whatever hits its two
-- probes take and in whatever order, unloading it unregisters each probe that is registered and
-- takes back its memory and its debugfs entries. `K` answers the module's load, `H` its handlers;
-- to these the kernel does not answer 0.
pub blink_run :
    (K H : Kernel) (deferred : IsDeferred H) (c : Params) (s t : Blink)
    → s.registered ≡ false
    → (init_module K c s).0 ≡ pos 0
    → Steps H c (init_module K c s).1 t
    → TakenBack s.world.trace (cleanup_module t).world.trace
blink_run K H deferred c s t off ok steps = cleanup_module-TakenBack s.world t (
    Steps-IsLoaded H deferred c s.world (init_module K c s).1 t (init_module-IsLoaded K c s off ok)
      steps)

-- Once blink2.c has loaded, with its second probe not registered before, whatever hits its two
-- probes take and in whatever order, unloading it unregisters each probe that is registered and
-- takes back its memory and its debugfs entries. `K` answers the module's load, `H` its handlers;
-- to these the kernel does not answer 0.
pub blink2_run :
    (K H : Kernel) (deferred : IsDeferred H) (c : Params) (s t : Blink)
    → s.registered ≡ false
    → (blink2_init K c s).0 ≡ pos 0
    → Steps H c (blink2_init K c s).1 t
    → TakenBack s.world.trace (cleanup_module t).world.trace
blink2_run K H deferred c s t off ok steps = cleanup_module-TakenBack s.world t (
    Steps-IsLoaded H deferred c s.world (blink2_init K c s).1 t (blink2_init-IsLoaded K c s off ok)
      steps)
