-- ===== src/Existing/Pong/Run.antt =====
-- A run of pong.c from its load to its removal.
use uprobe_tests.Base.{
  ℕ, String, ◌+◌, ◌≡◌, refl, Bool, true, false, ◌&&◌, arith, Bool-cases, inl, inr, ◌==◌, pos,
  is_zero,
}
use uprobe_tests.Kernel.{Event, Handler, Uprobe, Kernel, World}
use uprobe_tests.Kernel.Count.{add_if, registers, unregisters}
use uprobe_tests.Udbgfs.{u_dbfs_init}
use uprobe_tests.Udbgfs.Session.{
  IsOpen, u_dbfs_init-IsOpen, u_dbfs_init-probes, test_printk-IsOpen, ProbeEvent, ProbeEvent-IsOpen,
  u_dbfs_cleanup-Closed,
}
use uprobe_tests.Existing.Common.{TakenBack, IsDeferred}
use uprobe_tests.Existing.Pong.{
  Params, Pong, placed, register_entry, prepare, prepared, load, init_module, unregister_if,
  cleanup_module,
}
use uprobe_tests.Existing.Pong.Turns.{Steps, Turn, entry_next, IsLoaded, Steps-IsLoaded}

unregister_if-IsOpen :
    (b w : World) (set : Bool) {e : Event}
    → ProbeEvent e
    → IsOpen b w
    → IsOpen b (unregister_if set e w)
unfolding unregister_if
unregister_if-IsOpen b w true p o = ProbeEvent-IsOpen p o
unregister_if-IsOpen b w false p o = o

unregister_if_entry :
    (a : ℕ) (set : Bool) (u : Uprobe) (w : World)
    → (registers a (unregister_if set (Event.unregister_uprobe u) w).trace ≡ registers a w.trace)
      × (unregisters a (unregister_if set (Event.unregister_uprobe u) w).trace
          ≡ unregisters a w.trace + add_if (set && a == u.addr) 0)
unfolding unregister_if registers unregisters
unregister_if_entry a true u w = (refl, ground arith)
unregister_if_entry a false u w = (refl, omega arith)

unregister_if_return :
    (a : ℕ) (set : Bool) (u : Uprobe) (w : World)
    → (registers a (unregister_if set (Event.unregister_uretprobe u) w).trace ≡ registers a w.trace)
      × (unregisters a (unregister_if set (Event.unregister_uretprobe u) w).trace
          ≡ unregisters a w.trace + add_if (set && a == u.addr) 0)
unfolding unregister_if registers unregisters
unregister_if_return a true u w = (refl, ground arith)
unregister_if_return a false u w = (refl, omega arith)

add_if_both : (p q : Bool) → add_if p (add_if q 0) ≡ add_if p 0 + add_if q 0
add_if_both true q = refl
add_if_both false q = omega arith

pub cleanup_module-TakenBack :
    (b s : Pong) → IsLoaded b s → TakenBack b.world.trace (cleanup_module s).world.trace
unfolding cleanup_module
cleanup_module-TakenBack b s l =
    let w1 : World =
      unregister_if s.entry_registered (Event.unregister_uprobe s.entry_probe) s.world in
    let w2 : World =
      unregister_if s.return_registered (Event.unregister_uretprobe s.return_probe) w1 in
    let o =
      unregister_if-IsOpen b.world w1 s.return_registered ProbeEvent.unregister_ret
        (unregister_if-IsOpen b.world s.world s.entry_registered ProbeEvent.unregister l.opened) in
    let d = u_dbfs_cleanup-Closed b.world w2 o in
    record {
      memory = d.memory;
      files = d.files;
      probes = λ a.
          let (r1, u1) = unregister_if_entry a s.entry_registered s.entry_probe s.world in
          let (r2, u2) = unregister_if_return a s.return_registered s.return_probe w1 in
          let both =
            add_if_both (s.entry_registered && a == s.entry_probe.addr)
              (s.return_registered && a == s.return_probe.addr) in
          omega (arith, l.probes a, r1, u1, r2, u2, both, d.registers_same a, d.unregisters_same a);
    }

module _ (K : Kernel) (c : Params) where
  -- What the part before the registration leaves alone.
  prepare-IsOpen : (b w : World) → IsOpen b w → IsOpen b (prepare K c w).1
  unfolding prepare
  prepare-IsOpen b w o = elim (Bool-cases c.inits_ret) [
    | inl sets ↦ simp sets (ProbeEvent-IsOpen ProbeEvent.init_ret o)
    | inr not_set ↦ simp not_set o
  ]

  prepare-probes :
      (w : World) (a : ℕ)
      → (registers a (prepare K c w).1.trace ≡ registers a w.trace)
        × (unregisters a (prepare K c w).1.trace ≡ unregisters a w.trace)
  unfolding prepare registers unregisters
  prepare-probes w a = (ground arith, ground arith)

  -- After a load it is the entry probe's turn.
  pub record Ready (b s : Pong) : Type 0 where
    pub loaded : IsLoaded b s
    pub turn : Turn s
    pub on : s.entry_registered ≡ true
    pub off : s.return_registered ≡ false

  register_entry-Ready :
      (b s : Pong)
      → IsOpen b.world s.world
      → ((a : ℕ)
          → (registers a s.world.trace ≡ registers a b.world.trace)
            × (unregisters a s.world.trace ≡ unregisters a b.world.trace))
      → s.return_registered ≡ false
      → s.ncalls ≡ s.nreturns
      → (register_entry K c s).0 ≡ pos 0
      → Ready b (register_entry K c s).1
  unfolding register_entry registers unregisters
  register_entry-Ready b s o same off equal ok =
      elim (Bool-cases
        (is_zero (K.register s.world.trace (placed K c Handler.entry_handler s.entry_probe)))) [
          | inl zero_ret ↦ simp zero_ret (record {
            loaded = record {
              opened =
                  ProbeEvent-IsOpen ProbeEvent.register
                    (test_printk-IsOpen K _ _ b.world s.world o);
              probes = λ a. ground (arith, same a, off, zero_ret);
            };
            turn = entry_next refl off equal;
            on = refl;
            off = off;
          })
          | inr failed ↦ absurd (ground arith)
        ]

  prepared-Ready :
      (b s : Pong) (r : Bool × World)
      → IsOpen b.world r.1
      → ((a : ℕ)
          → (registers a r.1.trace ≡ registers a b.world.trace)
            × (unregisters a r.1.trace ≡ unregisters a b.world.trace))
      → s.return_registered ≡ false
      → s.ncalls ≡ s.nreturns
      → (prepared K c s r).0 ≡ pos 0
      → Ready b (prepared K c s r).1
  unfolding prepared
  prepared-Ready b s (true, w) o same off equal ok =
      register_entry-Ready b (record s { world = w }) o same off equal ok
  prepared-Ready b s (false, w) o same off equal ok = absurd (ground arith)

  pub load-Ready :
      (name : String) (s : Pong)
      → s.return_registered ≡ false
      → s.ncalls ≡ s.nreturns
      → (load K c name s).0 ≡ pos 0
      → Ready s (load K c name s).1
  unfolding load
  load-Ready name s off equal ok = elim (Bool-cases (is_zero (u_dbfs_init K name s.world).0)) [
    | inl made ↦
        let d = (u_dbfs_init K name s.world).1 in
        simp made (
          prepared-Ready s s (prepare K c d)
            (prepare-IsOpen s.world d (u_dbfs_init-IsOpen K name s.world made))
            (λ a.
              let (r, u) = prepare-probes d a in
              let (r1, u1) = u_dbfs_init-probes K name s.world a in
              (omega (arith, r, r1), omega (arith, u, u1)))
            off equal (simp made at ok))
    | inr bad ↦ absurd (ground arith)
  ]

  init_module-Ready :
      (s : Pong)
      → s.return_registered ≡ false
      → s.ncalls ≡ s.nreturns
      → (init_module K c s).0 ≡ pos 0
      → Ready s (init_module K c s).1
  unfolding init_module
  init_module-Ready s off equal ok = load-Ready "pong" s off equal ok

-- Once pong.c has loaded, with equal counters and its return probe not registered before, at most
-- one of its probes is registered after any hits: the entry probe while as many entries as returns
-- were counted, the return probe while one entry more was, or neither after the kernel refused a
-- registration. A handler is one step, and what the kernel has put off counts as registered from the
-- call on. By its calls, cleanup_module after such a run balances the module: each registration has its
-- unregistration, and the memory and the debugfs entries are taken back. That the kernel has completed
-- what it put off is not said, and the code does not wait for it. `K` answers the module's load, `H`
-- its handlers; to these the kernel does not answer 0.
pub pong_run :
    (K H : Kernel) (deferred : IsDeferred H) (c : Params) (s t : Pong)
    → s.return_registered ≡ false
    → s.ncalls ≡ s.nreturns
    → (init_module K c s).0 ≡ pos 0
    → Steps H c (init_module K c s).1 t
    → Turn t × TakenBack s.world.trace (cleanup_module t).world.trace
pong_run K H deferred c s t off equal ok steps =
    let ready = init_module-Ready K c s off equal ok in
    let (l, turn) =
      Steps-IsLoaded H deferred c s (init_module K c s).1 t ready.loaded ready.turn steps in
    (turn, cleanup_module-TakenBack s t l)
