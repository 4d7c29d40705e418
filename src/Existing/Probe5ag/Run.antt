-- ===== src/Existing/Probe5ag/Run.antt =====
-- A run of probe5ag.c, and what its clean-up does after a refused registration.
use uprobe_tests.Base.{
  ℕ, zero, suc, ◌+◌, ◌*◌, ◌%◌, ◌≡◌, ◌≢◌, ◌∙◌, false, List, [], ◌∷◌, arith, Bool-cases, inl, inr,
  ◌==◌, some, pos, is_zero,
}
use uprobe_tests.Kernel.{Arg, Event, Uprobe, Kernel, World}
use uprobe_tests.Kernel.Count.{add_if, registers, unregisters}
use uprobe_tests.Udbgfs.{test_printk, u_dbfs_init, u_dbfs_cleanup}
use uprobe_tests.Udbgfs.Session.{IsOpen, u_dbfs_init-IsOpen, u_dbfs_init-probes, test_printk-IsOpen}
use uprobe_tests.Existing.Common.{TakenBack, IsImmediate, say_if-IsOpen, say_if-trace}
use uprobe_tests.Existing.Probe5ag.{
  Params, Probe5ag, sizeof_uprobe, zeroed, shut_down, register_each, conclude, with_block,
  init_module, add_inst, cleanup_module,
}
use uprobe_tests.Existing.Probe5ag.Array.{
  set_at, zeroed-AllUnset, unregister_set-counted, with_array, kmalloc-IsOpen, IsLoaded,
  cleanup_module_lem, register_each-IsOpen, register_each-counted, register_each_refused,
  last_tried, unregister_set-last_tried,
}

u_dbfs_cleanup-probes :
    (w : World) (a : ℕ)
    → (registers a (u_dbfs_cleanup w).1.trace ≡ registers a w.trace)
      × (unregisters a (u_dbfs_cleanup w).1.trace ≡ unregisters a w.trace)
unfolding u_dbfs_cleanup registers unregisters
u_dbfs_cleanup-probes w a = (ground arith, ground arith)

shut_down-probes :
    (a : ℕ) (s : Probe5ag)
    → (registers a (shut_down s).world.trace ≡ registers a s.world.trace)
      × (unregisters a (shut_down s).world.trace ≡ unregisters a s.world.trace + set_at a s.probes)
unfolding shut_down registers unregisters
shut_down-probes a s = unregister_set-counted a s.probes s.world

u_dbfs_cleanup-last_tried : (w : World) → last_tried (u_dbfs_cleanup w).1.trace ≡ last_tried w.trace
unfolding u_dbfs_cleanup last_tried
u_dbfs_cleanup-last_tried w = ground arith

shut_down-last_tried :
    (s : Probe5ag) → last_tried (shut_down s).world.trace ≡ last_tried s.world.trace
unfolding shut_down last_tried
shut_down-last_tried s = unregister_set-last_tried s.probes s.world

module _ (K : Kernel) (c : Params) where
  with_block-IsLoaded :
      (b : World) (block : ℕ) (s : Probe5ag)
      → c.vaddr ≢ 0
      → IsOpen (with_array block b) s.world
      → ((a : ℕ)
          → (registers a s.world.trace ≡ registers a b.trace)
            × (unregisters a s.world.trace ≡ unregisters a b.trace))
      → (with_block K c block s).0 ≡ pos 0
      → IsLoaded b (λ a. 0) (with_block K c block s).1
  unfolding with_block conclude
  with_block-IsLoaded b block s some_vaddr o same ok =
      let us : List Uprobe = zeroed block c.nprobes in
      elim (Bool-cases (block == 0)) [
        | inl null ↦ absurd (ground (arith, null))
        | inr has ↦ elim (Bool-cases (is_zero (register_each K c us s.world).0)) [
          | inl all ↦
              simp (has, all)
                (record {
                  opened = register_each-IsOpen K c (with_array block b) us s.world o;
                  probes = λ a.
                      let (r, n) = register_each-counted K c a us s.world some_vaddr all in
                      omega (arith, r, n, (same a).0, (same a).1);
                })
          | inr refused ↦
              let answer : (register_each K c us s.world).0 ≡ pos 0 = simp (has, refused) at ok in
              absurd (ground (arith, refused, answer))
        ]
      ]

  init_module-IsLoaded :
      (s : Probe5ag)
      → c.vaddr ≢ 0
      → (init_module K c s).0 ≡ pos 0
      → IsLoaded s.world (λ a. 0) (init_module K c s).1
  unfolding init_module registers unregisters
  init_module-IsLoaded s some_vaddr ok =
      elim (Bool-cases (is_zero (u_dbfs_init K "probe5ag" s.world).0)) [
        | inl made ↦
            let d = (u_dbfs_init K "probe5ag" s.world).1 in
            let told : World =
              (test_printk K "Registering %d uprobes on pid %d, vaddr %#lx\n"
                (Arg.num c.nprobes ∷ Arg.num c.pid ∷ Arg.num c.vaddr ∷ []) d).1 in
            let block = K.alloc told.trace (c.nprobes * sizeof_uprobe) in
            let opened =
              test_printk-IsOpen K _ _ s.world d (u_dbfs_init-IsOpen K "probe5ag" s.world made) in
            simp made (
              with_block-IsLoaded s.world block
                (record s {
                  world = record told {
                    trace = Event.kmalloc (c.nprobes * sizeof_uprobe) block ∷ told.trace;
                  };
                })
                some_vaddr (kmalloc-IsOpen s.world told (c.nprobes * sizeof_uprobe) block opened)
                (u_dbfs_init-probes K "probe5ag" s.world) (simp made at ok))
        | inr bad ↦ absurd (ground arith)
      ]

  -- The handler runs `n` times, at any of the probes.
  pub hits : ℕ → Probe5ag → Probe5ag
  hits zero s = s
  hits (suc n) s = add_inst K c (hits n s)

  hits-nhits : (n : ℕ) (s : Probe5ag) → s.nhits ≡ 0 → (hits n s).nhits ≡ n % 4294967296
  unfolding hits add_inst
  hits-nhits zero s e = e ∙ omega arith
  hits-nhits (suc n) s e = omega (arith, hits-nhits n s e)

  hits-IsLoaded :
      (n : ℕ) (b : World) (s : Probe5ag) → IsLoaded b (λ a. 0) s → IsLoaded b (λ a. 0) (hits n s)
  unfolding hits add_inst
  hits-IsLoaded zero b s l = l
  hits-IsLoaded (suc n) b s l =
      let rest = hits-IsLoaded n b s l in
      record {
        opened = say_if-IsOpen K c.verbose _ _ _ _ rest.opened;
        probes = λ a. simp (say_if-trace) (rest.probes a);
      }

  nhits_kept : (s : Probe5ag) → (init_module K c s).1.nhits ≡ s.nhits
  unfolding init_module with_block conclude shut_down
  nhits_kept s = ground arith

  -- If probe5ag.c loads with a `vaddr` that is not 0, is hit any number of times and is unloaded, it
  -- has taken back each of its `nprobes` probes, the array, its debugfs entries and its memory, and
  -- `nhits` has counted the hits, modulo 2 ^ 32.
  pub probe5ag_run :
      (n : ℕ) (s : Probe5ag)
      → c.vaddr ≢ 0
      → (init_module K c s).0 ≡ pos 0
      → s.nhits ≡ 0
      → TakenBack s.world.trace (cleanup_module (hits n (init_module K c s).1)).world.trace
        × ((hits n (init_module K c s).1).nhits ≡ n % 4294967296)
  probe5ag_run n s some_vaddr ok none_yet =
      let s' = (init_module K c s).1 in
      let l = hits-IsLoaded n s.world s' (init_module-IsLoaded s some_vaddr ok) in
      let (memory, files, probes) = cleanup_module_lem s.world (λ a. 0) (hits n s') l in
      (
        record { memory = memory; files = files; probes = λ a. omega (arith, probes a) },
        hits-nhits n s' (nhits_kept s ∙ none_yet),
      )

  -- If the array could be allocated and a registration is refused, with a `vaddr` that is not 0, the
  -- clean-up unregisters one probe more than was registered: the refused one, which is the probe of the
  -- latest call of `register_uprobe`, whose answer `init_module` gives. The kernel must not answer
  -- -EINPROGRESS.
  pub with_block_refused :
      (block : ℕ) (s : Probe5ag)
      → IsImmediate K
      → c.vaddr ≢ 0
      → block ≢ 0
      → is_zero (with_block K c block s).0 ≡ false
      → (refused : Uprobe) × (last_tried (with_block K c block s).1.world.trace
          ≡ some (refused, (with_block K c block s).0))
        × ((a : ℕ)
            → registers a (with_block K c block s).1.world.trace
                + unregisters a s.world.trace
                + add_if (a == refused.addr) 0
              ≡ registers a s.world.trace + unregisters a (with_block K c block s).1.world.trace)
  unfolding with_block conclude
  with_block_refused block s immediate some_vaddr some_block bad =
      let us : List Uprobe = zeroed block c.nprobes in
      let has : (block == 0) ≡ false = ground arith in
      elim (Bool-cases (is_zero (register_each K c us s.world).0)) [
        | inl all ↦ absurd (ground (arith, has, all))
        | inr no_more ↦
            let (refused, tried, each) =
              register_each_refused K c us s.world immediate (zeroed-AllUnset block c.nprobes)
                some_vaddr no_more in
            let after : Probe5ag = record s {
              world = (register_each K c us s.world).2;
              block = block;
              probes = (register_each K c us s.world).1;
            } in
            (
              refused,
              simp (has, no_more)
                  (u_dbfs_cleanup-last_tried (shut_down after).world
                    ∙ shut_down-last_tried after
                    ∙ tried),
              λ a.
                  let (r, n) = each a in
                  let (r1, n1) = shut_down-probes a after in
                  let (r2, n2) = u_dbfs_cleanup-probes (shut_down after).world a in
                  simp (has, no_more) (omega (arith, r, n, r1, n1, r2, n2)),
            )
      ]
