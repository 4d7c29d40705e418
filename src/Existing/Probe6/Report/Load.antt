-- ===== src/Existing/Probe6/Report/Load.antt =====
-- What probe6.c has in its array and shows once it has loaded.
use uprobe_tests.Base.{
  ℕ, ◌≡◌, ◌<◌, refl, sym, ap, ap₂, ◌∙◌, Bool, true, false, List, [], ◌∷◌, ◌++◌, map, arith, String,
  Bool-cases, inl, inr, ◌==◌, length, length-append, pos, is_zero,
}
use mathlib.Core.List.{append_assoc, append-nil}
use uprobe_tests.Kernel.{Arg, Handler, Kernel, World}
use uprobe_tests.Udbgfs.{data_buf_size, u_dbfs_init, test_printk}
use uprobe_tests.Udbgfs.Buffer.{texts, texts-append, IsVsnprintf}
use uprobe_tests.Udbgfs.Shows.{Shows, u_dbfs_init-Shows, u_dbfs_init_entry, test_printk-Shows_texts}
use uprobe_tests.Existing.Infos.{Info, Infos, register_loop, conclude, load, init}
use uprobe_tests.Existing.Probe6.{
  Params, handled, register_handled, register_entry, register_probes, probes_init, unregister_entry,
  probe6_init,
}
use uprobe_tests.Existing.Probed.{Fn}
use uprobe_tests.Existing.Probe6.Report.{armed, Line, registering, lines, first_lines}

module _ (K : Kernel) (c : Params) where
  abbrev registered_entry : Info → Info
  registered_entry x = record (handled K c.pid Handler.u_handler x) { registered = true }

  -- A registration that succeeds touches neither the buffer nor `entry`.
  pub record Registered (x : Info) (w : World) : Type 0 where
    pub same_entry : (register_probes K c x w).1 ≡ registered_entry x
    pub same_buf : (register_probes K c x w).2.print_buf ≡ w.print_buf
    pub unused : (register_probes K c x w).2.entry ≡ w.entry

  register_probes-Registered :
      (x : Info) (w : World) → is_zero (register_probes K c x w).0 ≡ true → Registered x w
  unfolding register_probes register_entry register_handled
  register_probes-Registered x w ok = elim (Bool-cases (K.find_vaddr x.fname == 0)) [
    | inl unknown ↦ absurd (ground (arith, unknown, ok))
    | inr known ↦
        elim (Bool-cases (is_zero (K.register w.trace (handled K c.pid Handler.u_handler x).u))) [
          | inl registered ↦ record {
            same_entry = rw (known, registered) refl;
            same_buf = rw (known, registered) refl;
            unused = rw (known, registered) refl;
          }
          | inr refused ↦ absurd (ground (arith, known, refused, ok))
        ]
  ]

module _ {K : Kernel} {render : String → List Arg → List ℕ} (V : IsVsnprintf K render)
    (c : Params) where
  record Loaded (xs : List Info) (ps : List Line) (w : World) (got : List Info) (w' : World)
      : Type 0 where
    array : got ≡ map (registered_entry K c) xs
    shows : Shows w' (texts render (ps ++ lines xs))
    unused : w'.entry ≡ w.entry

  register_loop-Loaded :
      (xs : List Info) (ps : List Line) (w : World)
      → Shows w (texts render ps)
      → length (texts render (ps ++ lines xs)) < data_buf_size
      → (register_loop K (register_probes K c) unregister_entry xs w).0 ≡ true
      → Loaded xs ps w
          (register_loop K (register_probes K c) unregister_entry xs w).1
          (register_loop K (register_probes K c) unregister_entry xs w).2
  unfolding register_loop
  register_loop-Loaded [] ps w shown fits ok = record {
    array = refl;
    shows = rw (append-nil ps) shown;
    unused = refl;
  }
  register_loop-Loaded (x ∷ xs) ps w shown fits ok =
      let told : World = (test_printk K "Registering probes for %s\n" (Arg.str x.fname ∷ []) w).1 in
      let one : ps ++ registering x.fname ∷ lines xs
          ≡ (ps ++ registering x.fname ∷ []) ++ lines xs =
        sym (append_assoc ps (registering x.fname ∷ []) (lines xs)) in
      let first : Shows told (texts render (ps ++ registering x.fname ∷ [])) =
        test_printk-Shows_texts V "Registering probes for %s\n" (Arg.str x.fname ∷ []) w ps shown (
          omega (
            arith,
            fits,
            ap (λ (l : List Line). length (texts render l)) one,
            ap length (texts-append render (ps ++ registering x.fname ∷ []) (lines xs)),
            length-append (texts render (ps ++ registering x.fname ∷ [])) (texts render (lines xs)),
          )) in
      elim (Bool-cases (is_zero (register_probes K c x told).0)) [
        | inl good ↦
            let r = register_probes-Registered K c x told good in
            let w' : World = (register_probes K c x told).2 in
            let rest =
              register_loop-Loaded xs (ps ++ registering x.fname ∷ []) w'
                (record {
                  buf = first.buf;
                  is_buf = r.same_buf ∙ first.is_buf;
                  is_log = first.is_log;
                })
                (rw one at fits) (rw good at ok) in
            rw good (record {
              array = ap₂ ◌∷◌ r.same_entry rest.array;
              shows = rw one rest.shows;
              unused = rest.unused ∙ r.unused;
            })
        | inr bad ↦ absurd (cc (rw bad at ok))
      ]

  conclude_lem :
      (b : Bool) (xs : List Info) (w : World)
      → (conclude K (register_probes K c) unregister_entry (b, xs, w)).0 ≡ pos 0
      → (b ≡ true)
        × (conclude K (register_probes K c) unregister_entry (b, xs, w)
            ≡ (pos 0, record { world = w; probes = xs }))
  unfolding conclude
  conclude_lem true xs w ok = (refl, refl)
  conclude_lem false xs w ok = absurd (cc ok)

  pub record Ready (s : Infos) (ns : Fn → ℕ) (ps : List Line) : Type 0 where
    pub array : s.probes ≡ armed K c ns
    pub shows : Shows s.world (texts render ps)
    pub unused : s.world.entry ≡ 0

  load-Ready :
      (w : World)
      → Shows w []
      → w.entry ≡ 0
      → length (texts render first_lines) < data_buf_size
      → (load K
          (register_probes K c)
          unregister_entry
          (record { world = w; probes = probes_init })).0
        ≡ pos 0
      → Ready
          (load K
            (register_probes K c)
            unregister_entry
            (record { world = w; probes = probes_init })).1
          (λ _. 0)
          first_lines
  unfolding load texts
  load-Ready w shown unused fits ok =
      let r = register_loop K (register_probes K c) unregister_entry probes_init w in
      let done = conclude_lem r.0 r.1 r.2 ok in
      let loaded : Loaded probes_init [] w r.1 r.2 =
        register_loop-Loaded probes_init [] w shown fits done.0 in
      rw done.1
        (record { array = loaded.array; shows = loaded.shows; unused = loaded.unused ∙ unused })

  -- After a load the array has every probe registered and no count.
  pub probe6_init-Ready :
      (w : World)
      → w.entry ≡ 0
      → length (texts render first_lines) < data_buf_size
      → (probe6_init K c (record { world = w; probes = probes_init })).0 ≡ pos 0
      → Ready (probe6_init K c (record { world = w; probes = probes_init })).1 (λ _. 0) first_lines
  unfolding probe6_init init
  probe6_init-Ready w unused fits ok = elim (Bool-cases (is_zero (u_dbfs_init K "probe6" w).0)) [
    | inl made ↦ rw made (
        load-Ready (u_dbfs_init K "probe6" w).1 (u_dbfs_init-Shows K "probe6" w made)
          (u_dbfs_init_entry K "probe6" w ∙ unused) fits (rw made at ok))
    | inr bad ↦ absurd (cc (rw bad at ok))
  ]
