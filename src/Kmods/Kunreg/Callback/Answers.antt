-- ===== src/Kmods/Kunreg/Callback/Answers.antt =====
-- What `init_module` of the callback build of kunreg.c leaves behind, by its answer.
use uprobe_tests.Base.{
  ℕ, ◌+◌, ◌≡◌, ◌⊎◌, refl, ◌∙◌, inl, inr, ap, true, false, Option, none, some, List, [], ◌∷◌, arith,
  Bool, Bool-cases, ◌==◌, String, ℤ, negsuc, eq_int, neg_einprogress, pos, is_zero, is_neg,
  if◌then◌else◌,
}
use uprobe_tests.Kernel.{Name, codes, Arg, Handler, Event, Uprobe, Trace, Kernel, World}
use uprobe_tests.Kernel.Count.{entries, removes, unregisters}
use uprobe_tests.Udbgfs.{test_printk, u_dbfs_init, u_dbfs_cleanup}
use uprobe_tests.Udbgfs.Session.{shown, u_dbfs_init-IsOpen}
use uprobe_tests.Resolve.{Config}
use uprobe_tests.Kmods.{sizeof_consumer, init_uprobe_failed}
use uprobe_tests.Kmods.Kunreg.{Kunreg, accepted}
use uprobe_tests.Kmods.Kunreg.Callback.Untouched.{load-Untouched}
use uprobe_tests.Kmods.Kunreg.Callback.{probe_on, probe_reg_all, probe_unreg_all, probe_both, load}

-- Where `register_uprobe` has put a probe that the kernel accepted, the latest first.
unfoldable pub placed : Trace → List ℕ
placed [] = []
placed (Event.register_uprobe u r ∷ t) = if accepted r then u.vaddr ∷ placed t else placed t
placed (_ ∷ t) = placed t

-- What the kernel answered to the latest call of `register_uprobe`.
unfoldable pub last_answer : Trace → Option ℤ
last_answer [] = none
last_answer (Event.register_uprobe u r ∷ t) = some r
last_answer (_ ∷ t) = last_answer t

-- Of the entries made in debugfs since `before`, those of the static variables are still there, or none.
abbrev pub HasFiles : (before now : World) → Type 0
HasFiles before now =
    (d : ℕ)
    → entries d now.trace + removes d before.trace
      ≡ entries d before.trace + removes d now.trace + shown d now

abbrev pub NoFiles : (before now : World) → Type 0
NoFiles before now =
    (d : ℕ)
    → entries d now.trace + removes d before.trace ≡ entries d before.trace + removes d now.trace

abbrev Shut : (before w v : World) → Type 0
Shut before w v =
    NoFiles before v
    × (placed v.trace ≡ placed w.trace)
    × (last_answer v.trace ≡ last_answer w.trace)

u_dbfs_cleanup-Shut : (before w : World) → HasFiles before w → Shut before w (u_dbfs_cleanup w).1
unfolding u_dbfs_cleanup entries removes placed last_answer
u_dbfs_cleanup-Shut before w o = (λ d. ground (arith, o d), ground arith, ground arith)

u_dbfs_init-placed :
    (K : Kernel) (name : String) (w : World)
    → placed (u_dbfs_init K name w).1.trace ≡ placed w.trace
unfolding u_dbfs_init placed
u_dbfs_init-placed K name w = ground arith

-- After a probe on `vaddr`.
abbrev Answers : (vaddr : ℕ) (before w : World) → ℤ × World → Type 0
Answers vaddr before w v =
    ((v.0 ≡ pos 0) × HasFiles before v.1 × (placed v.1.trace ≡ vaddr ∷ placed w.trace))
    ⊎ ((is_neg v.0 ≡ true)
        × NoFiles before v.1
        × ((placed v.1.trace ≡ placed w.trace)
            ⊎ ((placed v.1.trace ≡ vaddr ∷ placed w.trace)
                × (last_answer v.1.trace ≡ some neg_einprogress))))

eq_int_einprogress : (r : ℤ) → eq_int r neg_einprogress ≡ true → r ≡ neg_einprogress
eq_int_einprogress (pos n) e = absurd (ground (arith, e))
eq_int_einprogress (negsuc n) e = ap negsuc (ground (arith, e))

-- An answer that counts as a registration and is not 0.
put_off : (r : ℤ) → is_zero r ≡ false → accepted r ≡ true → r ≡ neg_einprogress
put_off r some_answer late =
    let same : eq_int r neg_einprogress ≡ true = rw some_answer at late in eq_int_einprogress r same

neg-is_zero : (v : ℤ) → is_neg v ≡ true → is_zero v ≡ false
neg-is_zero v bad = ground (arith, bad)

module _ (K : Kernel) (pid : ℕ) (find_vaddr : Name → ℕ) (sizeof_uprobe : ℕ) where
  probe_on-Answers :
      (size : ℕ) (fmt name : String) (h : Handler) (good : ℤ → Bool)
      → ((r : ℤ) → good r ≡ true → accepted r ≡ true)
      → ((r : ℤ) → good r ≡ false → accepted r ≡ true → r ≡ neg_einprogress)
      → (before w : World) → HasFiles before w
      → Answers
          (find_vaddr (codes name))
          before
          w
          (probe_on K pid find_vaddr sizeof_uprobe size fmt name h good w)
  unfolding probe_on entries removes placed last_answer
  probe_on-Answers size fmt name h good sound late_answer before w o =
      let p : ℕ = K.alloc w.trace size in
      let asked : World = record w { trace = Event.kmalloc size p ∷ w.trace } in
      let u : Uprobe = record {
        addr = p;
        pid = pid;
        vaddr = find_vaddr (codes name);
        handler = h;
      } in
      let told : World =
        (test_printk K fmt (Arg.num pid ∷ Arg.num u.vaddr ∷ Arg.str (codes name) ∷ []) asked).1 in
      let r : ℤ = K.register told.trace u in
      let registered : World = record told { trace = Event.register_uprobe u r ∷ told.trace } in
      elim (Bool-cases (p == 0)) [
        | inl null ↦ rw null (
            inr (
              refl,
              (u_dbfs_cleanup-Shut before asked o).0,
              inl (u_dbfs_cleanup-Shut before asked o).1,
            ))
        | inr got ↦ elim (Bool-cases (good r)) [
          | inl ok ↦ rw (got, ok) (inl (refl, o, rw (sound r ok) refl))
          | inr failed ↦
              let shut = u_dbfs_cleanup-Shut before registered o in
              rw (got, failed)
                (inr (
                  refl,
                  shut.0,
                  elim (Bool-cases (accepted r)) [
                    | inl late ↦
                        inr (shut.1 ∙ rw late refl, shut.2 ∙ ap some (late_answer r failed late))
                    | inr refused ↦ inl (shut.1 ∙ rw refused refl)
                  ],
                ))
        ]
      ]

  probe_reg_all-Answers :
      (before w : World)
      → HasFiles before w
      → Answers
          (find_vaddr (codes "reg_all"))
          before
          w
          (probe_reg_all K pid find_vaddr sizeof_uprobe w)
  probe_reg_all-Answers =
      probe_on-Answers sizeof_consumer "Registering uprobe for reg_all on pid %d, vaddr %#lx[%s]\n"
        "reg_all" Handler.register_all accepted (λ r ok. ok)
        (λ r bad late. absurd (ground (arith, bad, late)))

  probe_unreg_all-Answers :
      (before w : World)
      → HasFiles before w
      → Answers
          (find_vaddr (codes "unreg_all"))
          before
          w
          (probe_unreg_all K pid find_vaddr sizeof_uprobe w)
  probe_unreg_all-Answers =
      probe_on-Answers sizeof_uprobe "Registering uprobe for unreg_all on pid %d, vaddr %#lx[%s]\n"
        "unreg_all" Handler.unregister_all is_zero (λ r ok. rw ok refl) put_off

  -- After both, or with what a failure leaves.
  abbrev pub Left : Trace → Trace → Type 0
  Left old now =
      (placed now ≡ placed old)
      ⊎ (placed now ≡ find_vaddr (codes "reg_all") ∷ placed old)
      ⊎ ((placed now ≡ find_vaddr (codes "unreg_all") ∷ find_vaddr (codes "reg_all") ∷ placed old)
          × (last_answer now ≡ some neg_einprogress))

  abbrev Both : (before w : World) → ℤ × World → Type 0
  Both before w v =
      ((v.0 ≡ pos 0)
        × HasFiles before v.1
        × (placed v.1.trace
            ≡ find_vaddr (codes "unreg_all") ∷ find_vaddr (codes "reg_all") ∷ placed w.trace))
      ⊎ ((is_neg v.0 ≡ true) × NoFiles before v.1 × Left w.trace v.1.trace)

  probe_both-Both :
      (before w : World)
      → HasFiles before w
      → Both before w (probe_both K pid find_vaddr sizeof_uprobe w)
  unfolding probe_both
  probe_both-Both before w o = elim first [
    | inl (ok, o1, one) ↦
        let good : is_zero r.0 ≡ true = ap is_zero ok in
        rw good (elim (probe_unreg_all-Answers before r.1 o1) [
          | inl (ok2, o2, two) ↦ inl (ok2, o2, two ∙ ap (◌∷◌ (find_vaddr (codes "unreg_all"))) one)
          | inr (bad2, c2, inl none_more) ↦ inr (bad2, c2, inr (inl (none_more ∙ one)))
          | inr (bad2, c2, inr (one_more, late)) ↦
              inr (
                bad2,
                c2,
                inr (inr (one_more ∙ ap (◌∷◌ (find_vaddr (codes "unreg_all"))) one, late)),
              )
        ])
    | inr (bad, c, left) ↦
        let failed : is_zero r.0 ≡ false = neg-is_zero r.0 bad in
        rw failed (
          inr (
            bad,
            c,
            elim left [ inl none_placed ↦ inl none_placed | inr (one, _) ↦ inr (inl one) ],
          ))
  ]
    where
      r : ℤ × World
      r = probe_reg_all K pid find_vaddr sizeof_uprobe w

      first : Answers (find_vaddr (codes "reg_all")) before w r
      first = probe_reg_all-Answers before w o

  -- Once its debugfs entries are made, `init_module` of kunreg.c, built with UPROBES_REG_CALLBACK,
  -- either answers 0, keeps the entries, and has put a probe on `reg_all` and then one on `unreg_all`;
  -- or it answers less than 0, has taken the entries back, and has put no probe, or one on `reg_all`, or
  -- both, and both only if the kernel has put the second off. It calls `unregister_uprobe` in no case,
  -- so that what it has put stays when it fails. The build is for a kernel whose
  -- `struct uprobe_consumer` has the fields that it sets.
  pub load-answers :
      (cfg : Config) (s : Kunreg) (addr : ℕ)
      → init_uprobe_failed K cfg ≡ false
      → is_zero (u_dbfs_init K "kunreg" s.world).0 ≡ true
      → (unregisters addr (load K pid find_vaddr sizeof_uprobe cfg s).1.world.trace
          ≡ unregisters addr s.world.trace)
        × ((((load K pid find_vaddr sizeof_uprobe cfg s).0 ≡ pos 0)
              × HasFiles s.world (load K pid find_vaddr sizeof_uprobe cfg s).1.world
              × (placed (load K pid find_vaddr sizeof_uprobe cfg s).1.world.trace
                  ≡ find_vaddr (codes "unreg_all")
                    ∷ find_vaddr (codes "reg_all")
                    ∷ placed s.world.trace))
            ⊎ ((is_neg (load K pid find_vaddr sizeof_uprobe cfg s).0 ≡ true)
                × NoFiles s.world (load K pid find_vaddr sizeof_uprobe cfg s).1.world
                × Left s.world.trace (load K pid find_vaddr sizeof_uprobe cfg s).1.world.trace))
  unfolding load
  load-answers cfg s addr found made =
      let good : is_neg (u_dbfs_init K "kunreg" s.world).0 ≡ false = ground (arith, made) in
      let old = u_dbfs_init-placed K "kunreg" s.world in
      (
        load-Untouched K pid find_vaddr sizeof_uprobe cfg s addr,
        rw (found, good)
            (rw old at (
              probe_both-Both s.world (u_dbfs_init K "kunreg" s.world).1
                (u_dbfs_init-IsOpen K "kunreg" s.world made).files)),
      )
