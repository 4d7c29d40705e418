-- ===== src/Kmods/Suicide.antt =====
-- ksuicide.c and ksuicide2.c: what they register besides the probes of the other modules.
use mathlib.Core.List.{reverse_aux}
use uprobe_tests.Base.{
  ℕ, ◌≡◌, ◌∙◌, ap, inl, inr, refl, Bool, true, false, Option, none, some, List, ◌∷◌, Option-cases,
  Bool-cases, arith, take, take-length, is_some, String, ℤ, pos, is_neg,
}
use uprobe_tests.Kernel.{codes, Handler, Kernel, World, Io}
use uprobe_tests.Udbgfs.{u_dbfs_init}
use uprobe_tests.Resolve.{Config}
use uprobe_tests.Symbols.{Table, find_offset}
use uprobe_tests.Symbols.Loop.{matching}
use uprobe_tests.Kmods.{
  probe_prefix, register_probe, register_probes, register_suicide, suicide_probes, init_with,
  zero_num_probes, value_or_zero, init_uprobe_failed, ksuicide_init, ksuicide2_init, cleanup_module,
}
use uprobe_tests.Kmods.Registered.{
  registrations, removals, register_probe-none, register_probe-some, u_dbfs_cleanup-Cleaned,
}
use uprobe_tests.Kmods.Init.{probes_of, register_probes-Progress, u_dbfs_init-Prepared}

-- The probes on all functions, and the second one on `_probe_9`.
abbrev pub with_suicide : Table → List (ℕ × Handler) → List (ℕ × Handler)
with_suicide table before =
    (find_offset table (codes "_probe_9"), Handler.suicide_handler)
    ∷ reverse_aux (probes_of table Handler.probe_handler (matching table probe_prefix)) before

-- How the registrations end.
abbrev Outcome : Table → World → Option ℤ → World → Type 0
Outcome table before none after =
    (registrations after.trace ≡ with_suicide table (registrations before.trace))
    × (removals after.trace ≡ removals before.trace)
Outcome table before (some r) after = is_neg r ≡ true

succeeded :
    (table : Table) (before : World) (o : Option ℤ) (after : World)
    → Outcome table before o after
    → value_or_zero o ≡ pos 0
    → (registrations after.trace ≡ with_suicide table (registrations before.trace))
      × (removals after.trace ≡ removals before.trace)
succeeded table before none after done ok = done
succeeded table before (some r) after neg ok = absurd (ground (arith, neg, ok))

module _ (K : Kernel) (table : Table) where
  register_suicide-Outcome :
      (w v : World) (o : Option ℤ)
      → ((r : ℤ) → o ≡ some r → is_neg r ≡ true)
      → (o ≡ none
          → (registrations v.trace
              ≡ reverse_aux
                  (probes_of table Handler.probe_handler (matching table probe_prefix))
                  (registrations w.trace))
            × (removals v.trace ≡ removals w.trace)
            × (is_some v.print_buf ≡ true))
      → Outcome table w (register_suicide K table o v).0 (register_suicide K table o v).1
  register_suicide-Outcome w v (some r) failed finished = failed r refl
  register_suicide-Outcome w v none failed finished =
      let (regs, removed, has) = finished refl in
      let name = codes "_probe_9" in
      elim (Option-cases (register_probe K table Handler.suicide_handler name v).0) [
        | inl e ↦
            let (new, same, _, _) =
              register_probe-none K table Handler.suicide_handler name v has e in
            rw e (
              new ∙ ap (◌∷◌ (find_offset table name, Handler.suicide_handler)) regs,
              same ∙ removed,
            )
        | inr (r, e) ↦ rw e ((register_probe-some K table Handler.suicide_handler name v has e).0)
      ]

  suicide_probes-Outcome :
      (w : World)
      → is_some w.print_buf ≡ true
      → Outcome table w (suicide_probes K table w).0 (suicide_probes K table w).1
  unfolding suicide_probes
  suicide_probes-Outcome w has =
      let p = register_probes-Progress K table Handler.probe_handler w has in
      register_suicide-Outcome w (register_probes K table Handler.probe_handler w).1
        (register_probes K table Handler.probe_handler w).0 (λ r e. (p.failed r e).0)
        (λ e.
          let (all, buffer) = p.finished e in
          let whole : take p.count (matching table probe_prefix) ≡ matching table probe_prefix =
            rw all (take-length (matching table probe_prefix)) in
          (rw whole at p.registered, p.removed, buffer))

  -- A module around it, by name.
  init_with_suicide :
      (cfg : Config) (name : String) (w : World)
      → (init_with K table cfg name (suicide_probes K table) w).0 ≡ pos 0
      → (registrations (init_with K table cfg name (suicide_probes K table) w).1.trace
          ≡ with_suicide table (registrations w.trace))
        × (removals (init_with K table cfg name (suicide_probes K table) w).1.trace
            ≡ removals w.trace)
  unfolding init_with
  init_with_suicide cfg name w ok = elim (Bool-cases (init_uprobe_failed K cfg)) [
    | inl missing ↦ absurd (ground (arith, missing, ok))
    | inr found ↦ elim (Bool-cases (is_neg (u_dbfs_init K name (zero_num_probes w)).0)) [
      | inl bad ↦ absurd (ground (arith, found, bad, ok))
      | inr good ↦
          let d = (u_dbfs_init K name (zero_num_probes w)).1 in
          let p = u_dbfs_init-Prepared K name (zero_num_probes w) in
          let (regs, removed) =
            succeeded table d (suicide_probes K table d).0 (suicide_probes K table d).1
              (suicide_probes-Outcome d (p.buffer good)) (rw (found, good) at ok) in
          rw (found, good) (regs ∙ ap (with_suicide table) p.registered, removed ∙ p.removed)
    ]
  ]

-- `init_module` of ksuicide.c, and of ksuicide2.c.
abbrev pub either_init : (second : Bool) → Kernel → Table → Config → Io ℤ
either_init false = ksuicide_init
either_init true = ksuicide2_init

init_module_suicide :
    (second : Bool) (K : Kernel) (table : Table) (cfg : Config) (w : World)
    → (either_init second K table cfg w).0 ≡ pos 0
    → (registrations (either_init second K table cfg w).1.trace
        ≡ with_suicide table (registrations w.trace))
      × (removals (either_init second K table cfg w).1.trace ≡ removals w.trace)
unfolding ksuicide_init ksuicide2_init
init_module_suicide false K table cfg w ok = init_with_suicide K table cfg "ksuicide" w ok
init_module_suicide true K table cfg w ok = init_with_suicide K table cfg "ksuicide2" w ok

-- When `init_module` of ksuicide.c or ksuicide2.c returns 0, each symbol that starts with `_probe` has
-- been registered as by the other modules, and after them `_probe_9` once more, with the handler that
-- ends the task. `cleanup_module` then leaves all of them registered.
pub ksuicide_leaks :
    (second : Bool) (K : Kernel) (table : Table) (cfg : Config) (w : World)
    → (either_init second K table cfg w).0 ≡ pos 0
    → (registrations (cleanup_module (either_init second K table cfg w).1).1.trace
        ≡ with_suicide table (registrations w.trace))
      × (removals (cleanup_module (either_init second K table cfg w).1).1.trace ≡ removals w.trace)
unfolding cleanup_module
ksuicide_leaks second K table cfg w ok =
    let (regs, removed) = init_module_suicide second K table cfg w ok in
    let c = u_dbfs_cleanup-Cleaned (either_init second K table cfg w).1 in
    (c.registered ∙ regs, c.removed ∙ removed)
