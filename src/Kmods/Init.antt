-- ===== src/Kmods/Init.antt =====
-- What `init_module` of the modules of uprobes.w registers, and what is left after `cleanup_module`.
use mathlib.Core.List.{reverse_aux}
use uprobe_tests.Base.{
  ℕ, zero, suc, ◌<◌, ◌≡◌, ◌≢◌, ◌⊎◌, refl, ap, ◌∙◌, true, false, Option, none, some, List, [], ◌∷◌,
  map, arith, length, take, Option-cases, Bool-cases, take-length, inl, inr, is_some, String, ℤ,
  pos, negsuc, is_neg, minus_one,
}
use uprobe_tests.Kernel.{Name, Handler, Kernel, World}
use uprobe_tests.Udbgfs.{u_dbfs_init}
use uprobe_tests.Resolve.{Config}
use uprobe_tests.Symbols.{Table, find_offset}
use uprobe_tests.Symbols.Loop.{matching, run_all, for_each_glob-run_all}
use uprobe_tests.Kmods.{
  probe_prefix, register_probe, register_probes, init_with, zero_num_probes, value_or_zero,
  cleanup_module, init_uprobe_failed, Module, handler_of, init_module,
}
use uprobe_tests.Kmods.Registered.{
  registrations, removals, register_probe-none, register_probe-some, u_dbfs_cleanup-Cleaned,
}

-- The registrations that the names stand for.
abbrev pub probes_of : Table → Handler → List Name → List (ℕ × Handler)
probes_of table h = map (λ name. (find_offset table name, h))

-- A run over the names that registered the first `count` of them, in order, and removed none.
pub record Progress (table : Table) (h : Handler) (names : List Name) (before : World)
    (result : Option ℤ) (after : World) : Type 0 where
  pub count : ℕ
  pub registered :
      registrations after.trace
      ≡ reverse_aux (probes_of table h (take count names)) (registrations before.trace)
  pub removed : removals after.trace ≡ removals before.trace
  pub fine : after.oops ≡ before.oops
  pub finished : result ≡ none → (count ≡ length names) × (is_some after.print_buf ≡ true)
  pub failed : (r : ℤ) → result ≡ some r → (is_neg r ≡ true) × (count < length names)

module _ (K : Kernel) (table : Table) (h : Handler) where
  run_all-Progress :
      (names : List Name) (w : World)
      → is_some w.print_buf ≡ true
      → Progress table h names w
          (run_all names (register_probe K table h) w).0
          (run_all names (register_probe K table h) w).1
  unfolding run_all
  run_all-Progress [] w has = record {
    count = 0;
    registered = refl;
    removed = refl;
    fine = refl;
    finished = λ _. (refl, has);
    failed = λ r e. cc;
  }
  run_all-Progress (x ∷ xs) w has = elim (Option-cases (register_probe K table h x w).0) [
    | inl e ↦
        let (new, removed, has', fine) = register_probe-none K table h x w has e in
        let rest = run_all-Progress xs (register_probe K table h x w).1 has' in
        rw e (record {
          count = suc rest.count;
          registered =
              rest.registered ∙ ap (reverse_aux (probes_of table h (take rest.count xs))) new;
          removed = rest.removed ∙ removed;
          fine = rest.fine ∙ fine;
          finished = λ d. (ap suc (rest.finished d).0, (rest.finished d).1);
          failed = λ r d. ((rest.failed r d).0, omega (arith, (rest.failed r d).1));
        })
    | inr (r, e) ↦
        let (neg, same, removed, fine) = register_probe-some K table h x w has e in
        rw e (record {
          count = 0;
          registered = same;
          removed = removed;
          fine = fine;
          finished = λ d. cc;
          failed = λ r' d. (ground arith, omega arith);
        })
  ]

  pub register_probes-Progress :
      (w : World)
      → is_some w.print_buf ≡ true
      → Progress table h
          (matching table probe_prefix)
          w
          (register_probes K table h w).0
          (register_probes K table h w).1
  unfolding register_probes
  register_probes-Progress w has =
      rw (for_each_glob-run_all table probe_prefix (register_probe K table h) (omega arith) w)
        (run_all-Progress (matching table probe_prefix) w has)

-- What the debugfs set-up does to the probes: nothing.
pub record Prepared (result : ℤ) (before after : World) : Type 0 where
  pub registered : registrations after.trace ≡ registrations before.trace
  pub removed : removals after.trace ≡ removals before.trace
  pub fine : after.oops ≡ before.oops
  pub buffer : is_neg result ≡ false → is_some after.print_buf ≡ true

pub u_dbfs_init-Prepared :
    (K : Kernel) (name : String) (w : World)
    → Prepared (u_dbfs_init K name w).0 w (u_dbfs_init K name w).1
unfolding u_dbfs_init registrations removals
u_dbfs_init-Prepared K name w = record {
  registered = ground arith;
  removed = ground arith;
  fine = ground arith;
  buffer = λ ok. ground arith;
}

-- A whole `init_module` followed by `cleanup_module`: which names were registered, and which removed.
pub record Loaded (table : Table) (h : Handler) (before : World) (result : ℤ) (after : World)
    : Type 0 where
  pub count : ℕ
  pub registered :
      registrations after.trace
      ≡ reverse_aux
          (probes_of table h (take count (matching table probe_prefix)))
          (registrations before.trace)
  pub removed : removals after.trace ≡ removals before.trace
  pub fine : after.oops ≡ before.oops
  pub success : result ≡ pos 0 → count ≡ length (matching table probe_prefix)
  pub failure : result ≢ pos 0 → is_neg result ≡ true

value_or_zero_cases :
    (o : Option ℤ) {P : Type 0}
    → (o ≡ none → P)
    → ((r : ℤ) → o ≡ some r → is_neg r ≡ true)
    → (value_or_zero o ≡ pos 0 → P) × (value_or_zero o ≢ pos 0 → is_neg (value_or_zero o) ≡ true)
value_or_zero_cases none finished failed = (λ _. finished refl, λ ne. absurd (ne refl))
value_or_zero_cases (some r) finished failed =
    let neg = failed r refl in (λ e. absurd (ground arith), λ _. neg)

module _ (K : Kernel) (table : Table) (h : Handler) (cfg : Config) (name : String) (w : World) where
  init_with-Loaded :
      Loaded table h w
        (init_with K table cfg name (register_probes K table h) w).0
        (init_with K table cfg name (register_probes K table h) w).1
  unfolding init_with
  init_with-Loaded = elim (Bool-cases (init_uprobe_failed K cfg)) [
    | inl missing ↦ rw missing (unloaded refl refl refl)
    | inr found ↦ elim (Bool-cases (is_neg (u_dbfs_init K name zeroed).0)) [
      | inl bad ↦ rw (found, bad) (unloaded prepared.registered prepared.removed prepared.fine)
      | inr good ↦
          let p =
            register_probes-Progress K table h (u_dbfs_init K name zeroed).1
              (prepared.buffer good) in
          let (success, failure) =
            value_or_zero_cases (register_probes K table h (u_dbfs_init K name zeroed).1).0
              (λ e. (p.finished e).0) (λ r e. (p.failed r e).0) in
          rw (found, good)
            (record {
              count = p.count;
              registered =
                  p.registered
                  ∙ ap
                      (reverse_aux (probes_of table h (take p.count (matching table probe_prefix))))
                      prepared.registered;
              removed = p.removed ∙ prepared.removed;
              fine = p.fine ∙ prepared.fine;
              success = success;
              failure = failure;
            })
    ]
  ]
    where
      zeroed : World
      zeroed = zero_num_probes w

      prepared : Prepared (u_dbfs_init K name zeroed).0 zeroed (u_dbfs_init K name zeroed).1
      prepared = u_dbfs_init-Prepared K name zeroed

      unloaded :
          {v : World}
          → registrations v.trace ≡ registrations w.trace
          → removals v.trace ≡ removals w.trace
          → v.oops ≡ w.oops
          → Loaded table h w minus_one v
      unloaded a b c = record {
        count = 0;
        registered = a;
        removed = b;
        fine = c;
        success = λ e. cc;
        failure = λ e. refl;
      }

init_module-Loaded :
    (K : Kernel) (table : Table) (cfg : Config) (m : Module) (w : World)
    → Loaded table (handler_of m) w (init_module K table cfg m w).0 (init_module K table cfg m w).1
unfolding init_module
init_module-Loaded K table cfg Module.kthread w = init_with-Loaded K table _ cfg "kthread" w
init_module-Loaded K table cfg Module.kfork_thread w =
    init_with-Loaded K table _ cfg "kfork_thread" w
init_module-Loaded K table cfg Module.kdie w = init_with-Loaded K table _ cfg "kdie" w
init_module-Loaded K table cfg Module.kexec w = init_with-Loaded K table _ cfg "kexec" w
init_module-Loaded K table cfg Module.kfork_and_defunc w =
    init_with-Loaded K table _ cfg "kfork_and_defunc" w

is_zero_or_not : (r : ℤ) → (r ≡ pos 0) ⊎ (r ≢ pos 0)
is_zero_or_not (pos zero) = inl refl
is_zero_or_not (pos (suc n)) = inr (λ e. absurd (ground arith))
is_zero_or_not (negsuc n) = inr (λ e. absurd (ground arith))

-- `init_module` of kthread.c, kfork_thread.c, kdie.c, kexec.c and kfork_and_defunc.c either
-- returns 0 and has registered every symbol that starts with `_probe`, in the order of the table,
-- each at its offset and with the module's handler, or its result is negative and it has
-- registered an initial part of those symbols. In both cases no probe has been removed and no NULL
-- buffer was followed.
pub init_module-matching :
    (K : Kernel) (table : Table) (cfg : Config) (m : Module) (w : World)
    → ((((init_module K table cfg m w).0 ≡ pos 0)
          × (registrations (init_module K table cfg m w).1.trace
              ≡ reverse_aux
                  (probes_of table (handler_of m) (matching table probe_prefix))
                  (registrations w.trace)))
        ⊎ ((is_neg (init_module K table cfg m w).0 ≡ true)
            × (count : ℕ) × (registrations (init_module K table cfg m w).1.trace
                ≡ reverse_aux
                    (probes_of table (handler_of m) (take count (matching table probe_prefix)))
                    (registrations w.trace))))
      × (removals (init_module K table cfg m w).1.trace ≡ removals w.trace)
      × ((init_module K table cfg m w).1.oops ≡ w.oops)
init_module-matching K table cfg m w =
    let l = init_module-Loaded K table cfg m w in
    (
      elim (is_zero_or_not (init_module K table cfg m w).0) [
        | inl ok ↦
            let all : take l.count (matching table probe_prefix) ≡ matching table probe_prefix =
              rw (l.success ok) (take-length (matching table probe_prefix)) in
            inl (ok, rw all at l.registered)
        | inr failed ↦ inr (l.failure failed, l.count, l.registered)
      ],
      l.removed,
      l.fine,
    )

-- After `init_module` of one of those modules has returned 0 and `cleanup_module` has run, all the
-- probes of `init_module` are still registered: no call of `uprobe_unregister` is made, although
-- the handlers go away with the module.
pub cleanup_module_leaks :
    (K : Kernel) (table : Table) (cfg : Config) (m : Module) (w : World)
    → (init_module K table cfg m w).0 ≡ pos 0
    → (registrations (cleanup_module (init_module K table cfg m w).1).1.trace
        ≡ reverse_aux
            (probes_of table (handler_of m) (matching table probe_prefix))
            (registrations w.trace))
      × (removals (cleanup_module (init_module K table cfg m w).1).1.trace ≡ removals w.trace)
unfolding cleanup_module
cleanup_module_leaks K table cfg m w loaded =
    let l = init_module-Loaded K table cfg m w in
    let c = u_dbfs_cleanup-Cleaned (init_module K table cfg m w).1 in
    let all : take l.count (matching table probe_prefix) ≡ matching table probe_prefix =
      rw (l.success loaded) (take-length (matching table probe_prefix)) in
    (c.registered ∙ rw all at l.registered, c.removed ∙ l.removed)
